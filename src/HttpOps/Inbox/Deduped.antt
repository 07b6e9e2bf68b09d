-- ===== src/HttpOps/Inbox/Deduped.antt =====
-- The dedup of several hosts in `list_messages_detailed` of src/http_ops.rs against the function
-- `dedup_messages` beside it, a reference for tests.
use rust_messagebox_client.Prelude.{
  String, ◌≡◌, refl, ◌∙◌, sym, List, [], ◌∷◌, ◌++◌, map, contains, inl, inr, Bool-cases,
  if◌then◌else◌,
}
use mathlib.Core.List.{append-nil, append_assoc}
use rust_messagebox_client.Types.{PeerMessage, PaymentAwarePeerMessage}
use rust_messagebox_client.HttpOps.Listing.{unseen}
use rust_messagebox_client.HttpOps.Inbox.{flatten}

-- The two variables of `dedup_messages`.
pub record Deduped : Type 0 where
  pub seen : List String
  pub out : List PeerMessage

-- One round of the inner loop.
abbrev pub dedup_message : PeerMessage → Deduped → Deduped
dedup_message msg s =
    if contains s.seen msg.message_id
    then s
    else record { seen = msg.message_id ∷ s.seen; out = s.out ++ msg ∷ [] }

unfoldable pub dedup_host : List PeerMessage → Deduped → Deduped
dedup_host [] s = s
dedup_host (msg ∷ msgs) s = dedup_host msgs (dedup_message msg s)

unfoldable pub dedup_all : List (List PeerMessage) → Deduped → Deduped
dedup_all [] s = s
dedup_all (msgs ∷ results) s = dedup_all results (dedup_host msgs s)

unfoldable pub dedup_messages : List (List PeerMessage) → List PeerMessage
dedup_messages results = (dedup_all results (record { seen = []; out = [] })).out

abbrev pub messages : List PaymentAwarePeerMessage → List PeerMessage
messages = map (λ (r : PaymentAwarePeerMessage). r.message)

dedup_message-eq :
    (r : PaymentAwarePeerMessage) (rest : List PaymentAwarePeerMessage) (s : Deduped)
    → (dedup_message r.message s).out ++ messages (unseen (dedup_message r.message s).seen rest)
      ≡ s.out ++ messages (unseen s.seen (r ∷ rest))
unfolding unseen
dedup_message-eq r rest s = elim (Bool-cases (contains s.seen r.message.message_id)) [
  | inl e ↦ rw e refl
  | inr e ↦ rw e (append_assoc s.out (r.message ∷ []) _)
]

dedup_host-eq :
    (rs rest : List PaymentAwarePeerMessage) (s : Deduped)
    → (dedup_host (messages rs) s).out ++ messages (unseen (dedup_host (messages rs) s).seen rest)
      ≡ s.out ++ messages (unseen s.seen (rs ++ rest))
unfolding dedup_host unseen
dedup_host-eq [] rest s = refl
dedup_host-eq (r ∷ rs) rest s =
    dedup_host-eq rs rest (dedup_message r.message s) ∙ dedup_message-eq r (rs ++ rest) s

dedup_all-eq :
    (rss : List (List PaymentAwarePeerMessage)) (s : Deduped)
    → (dedup_all (map messages rss) s).out ≡ s.out ++ messages (unseen s.seen (flatten rss))
unfolding dedup_all flatten unseen
dedup_all-eq [] s = rw append-nil
dedup_all-eq (rs ∷ rss) s =
    dedup_all-eq rss (dedup_host (messages rs) s) ∙ dedup_host-eq rs (flatten rss) s

-- The filter over the chained receipts of all hosts keeps the messages that the nested loops of
-- `dedup_messages` collect, in the same order.
pub unseen-eq-dedup_messages :
    (rss : List (List PaymentAwarePeerMessage))
    → messages (unseen [] (flatten rss)) ≡ dedup_messages (map messages rss)
unfolding dedup_messages
unseen-eq-dedup_messages rss = sym (dedup_all-eq rss (record { seen = []; out = [] }))
