-- ===== src/Websocket/Room.antt =====
-- `split_room_id` of src/websocket.rs, and the room ids of src/client.rs, as the bytes of UTF-8
-- text. A slice at a `-` is at a character's boundary, so no slice of `split_room_id` fails.
pub mod Parts
use rust_messagebox_client.Prelude.{
  ℕ, zero, suc, ◌+◌, ◌≤◌, ◌<◌, ◌≡◌, refl, Bool, true, false, ◌&&◌, Option, none, some, List, [],
  ◌∷◌, ◌++◌, length, arith, ltb, ◌==◌, if◌then◌else◌, ◌⊎◌, inl, inr, Bool-cases, All,
}

abbrev pub hex_key_len : ℕ
hex_key_len = 66

abbrev pub dash : ℕ
dash = 45

module _ {ℓ} {A : Type ℓ} where
  abbrev pub take : ℕ → List A → List A
  take zero xs = []
  take (suc n) [] = []
  take (suc n) (x ∷ xs) = x ∷ take n xs

  abbrev pub drop : ℕ → List A → List A
  drop zero xs = xs
  drop (suc n) [] = []
  drop (suc n) (x ∷ xs) = drop n xs

-- `room_id.as_bytes()[n] == b'-'`, and `false` where the source's first test has failed.
abbrev pub dash_at : List ℕ → ℕ → Bool
dash_at [] n = false
dash_at (b ∷ bs) zero = b == dash
dash_at (b ∷ bs) (suc n) = dash_at bs n

-- `room_id.find('-')` with the two slices around it.
unfoldable pub split_at_dash : List ℕ → List ℕ × List ℕ
split_at_dash [] = ([], [])
split_at_dash (b ∷ bs) =
    let rest = split_at_dash bs in if b == dash then ([], bs) else (b ∷ rest.0, rest.1)

unfoldable pub split_room_id : List ℕ → List ℕ × List ℕ
split_room_id room_id =
    if ltb hex_key_len (length room_id) && dash_at room_id hex_key_len
    then (take hex_key_len room_id, drop (suc hex_key_len) room_id)
    else split_at_dash room_id

-- `format!("{identity_key}-{message_box}")`.
unfoldable pub room_id : List ℕ → List ℕ → List ℕ
room_id identity_key message_box = identity_key ++ dash ∷ message_box
