-- ===== src/HttpOps/Listing/Firsts.antt =====
-- The deduplication over hosts in `list_messages_detailed` of src/http_ops.rs.
use rust_messagebox_client.Prelude.{
  String, ◌≡◌, refl, false, not, ◌&&◌, Option, none, some, List, [], ◌∷◌, ◌=?◌, contains,
  NodupTexts, map, arith, Bool-cases, inl, inr, =?_refl, string_dec, if◌then◌else◌,
}
use rust_messagebox_client.Types.{PaymentAwarePeerMessage}
use rust_messagebox_client.HttpOps.Listing.{unseen}

abbrev pub message_id_of : PaymentAwarePeerMessage → String
message_id_of r = r.message.message_id

-- The first receipt of a message.
abbrev pub first_with : String → List PaymentAwarePeerMessage → Option PaymentAwarePeerMessage
first_with id [] = none
first_with id (r ∷ rs) = if message_id_of r =? id then some r else first_with id rs

unseen-first_with :
    (seen : List String) (rs : List PaymentAwarePeerMessage) (id : String)
    → first_with id (unseen seen rs) ≡ (if contains seen id then none else first_with id rs)
unfolding unseen string_dec
unseen-first_with seen [] id = ground arith
unseen-first_with seen (r ∷ rs) id =
    ground
      (arith, unseen-first_with seen rs id, unseen-first_with (r.message.message_id ∷ seen) rs id)

pub unseen-contains :
    (seen : List String) (rs : List PaymentAwarePeerMessage) (id : String)
    → contains (map message_id_of (unseen seen rs)) id
      ≡ (not (contains seen id) && contains (map message_id_of rs) id)
unfolding unseen string_dec
unseen-contains seen [] id = ground arith
unseen-contains seen (r ∷ rs) id =
    ground (arith, unseen-contains seen rs id, unseen-contains (r.message.message_id ∷ seen) rs id)

fresh :
    (id : String) (seen : List String) (rs : List PaymentAwarePeerMessage)
    → contains (map message_id_of (unseen (id ∷ seen) rs)) id ≡ false
fresh id seen rs = rw (unseen-contains (id ∷ seen) rs id, =?_refl) refl

unseen-Nodup :
    (seen : List String) (rs : List PaymentAwarePeerMessage)
    → NodupTexts (map message_id_of (unseen seen rs))
unfolding unseen
unseen-Nodup seen [] = tt
unseen-Nodup seen (r ∷ rs) =
    let id = r.message.message_id in
    elim (Bool-cases (contains seen id)) [
      | inl e ↦ rw e (unseen-Nodup seen rs)
      | inr e ↦ rw e (fresh id seen rs, unseen-Nodup (id ∷ seen) rs)
    ]

-- Of the receipts of all hosts, one after the other, the list that `list_messages_detailed` returns
-- has no message id twice, and for every id it has the first receipt with that id and no other.
pub unseen-IsFirsts :
    (rs : List PaymentAwarePeerMessage)
    → NodupTexts (map message_id_of (unseen [] rs))
      × ((id : String) → first_with id (unseen [] rs) ≡ first_with id rs)
unseen-IsFirsts rs = (unseen-Nodup [] rs, unseen-first_with [] rs)
