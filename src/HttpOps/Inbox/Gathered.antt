-- ===== src/HttpOps/Inbox/Gathered.antt =====
-- What the fan-out of `list_messages_detailed` of src/http_ops.rs returns of its hosts' answers.
use rust_messagebox_client.Prelude.{
  String, ◌≡◌, Bool, false, List, [], ◌∷◌, map, length, ◌==◌, NodupTexts, if◌then◌else◌,
}
use rust_messagebox_client.Prelude.Maybe.{All2}
use rust_messagebox_client.Error.{ok, err, Fallible}
use rust_messagebox_client.Types.{PaymentAwarePeerMessage}
use rust_messagebox_client.Deps.{Deps}
use rust_messagebox_client.Io.Runs.{Event}
use rust_messagebox_client.Session.{Client}
use rust_messagebox_client.HttpOps.Listing.Firsts.{message_id_of, first_with}
use rust_messagebox_client.HttpOps.Inbox.{successful, flatten}
use rust_messagebox_client.HttpOps.Inbox.Answers.{Answers}

abbrev pub Receipts : Type 0
Receipts = List PaymentAwarePeerMessage

module _ (D : Deps) (client : Client) (message_box : String) (accept_payments : Bool) where
  abbrev Answered : List (Event D) → List String → List (Fallible Receipts) → Type 0
  Answered log hosts outcomes =
      All2 (Answers D client message_box accept_payments log) hosts outcomes

  -- The hosts that are asked: of a set of one, the client's own.
  abbrev pub asked : List String → List String
  asked hosts = if length hosts == 1 then client.host ∷ [] else hosts

  -- With an answer for each host.
  abbrev pub GatheredOk : Bool → List String → List (Event D) → Fallible Receipts → Type 0
  GatheredOk single hosts log (ok rs) =
      (outcomes : List (Fallible Receipts)) × Answered log hosts outcomes
      × ((id : String) → first_with id rs ≡ first_with id (flatten (successful outcomes)))
      × (single ≡ false → NodupTexts (map message_id_of rs))
  GatheredOk single hosts log (err _) =
      (outcomes : List (Fallible Receipts)) × Answered log hosts outcomes
      × (successful outcomes ≡ [])
