-- ===== src/Websocket/Room/Parts.antt =====
-- What the parts of a room id are.
use rust_messagebox_client.Prelude.{
  ℕ, zero, suc, ◌≡◌, ◌≢◌, refl, true, false, ◌&&◌, List, [], ◌∷◌, ◌++◌, length, arith, ltb, ap, sym,
  ◌==◌, ◌⊎◌, inl, inr, Bool-cases, All, length-append,
}
use rust_messagebox_client.Websocket.Room.{
  hex_key_len, dash, take, drop, dash_at, split_at_dash, split_room_id, room_id,
}

abbrev pub DashFree : List ℕ → Type 0
DashFree bs = All (λ b. b ≢ dash) bs

take-append : (xs ys : List ℕ) → take (length xs) (xs ++ ys) ≡ xs
take-append [] ys = refl
take-append (x ∷ xs) ys = rw (take-append xs ys)

drop-append : (xs : List ℕ) (y : ℕ) (ys : List ℕ) → drop (suc (length xs)) (xs ++ y ∷ ys) ≡ ys
drop-append [] y ys = refl
drop-append (x ∷ xs) y ys = drop-append xs y ys

dash_at-append : (xs ys : List ℕ) → dash_at (xs ++ dash ∷ ys) (length xs) ≡ true
dash_at-append [] ys = refl
dash_at-append (x ∷ xs) ys = dash_at-append xs ys

take-dash-drop :
    (n : ℕ) (bs : List ℕ) → dash_at bs n ≡ true → take n bs ++ dash ∷ drop (suc n) bs ≡ bs
take-dash-drop n [] h = cc
take-dash-drop zero (b ∷ bs) h = ground arith
take-dash-drop (suc n) (b ∷ bs) h = rw (take-dash-drop n bs h)

-- A text that a part and a rest make up, or that has no dash.
abbrev Parted : List ℕ → List ℕ × List ℕ → Type 0
Parted bs parts = (room_id parts.0 parts.1 ≡ bs) ⊎ (DashFree bs × (parts ≡ (bs, [])))

split_at_dash_later :
    (b : ℕ) (bs : List ℕ)
    → b == dash ≡ false
    → Parted bs (split_at_dash bs)
    → Parted (b ∷ bs) (b ∷ (split_at_dash bs).0, (split_at_dash bs).1)
unfolding room_id
split_at_dash_later b bs differs (inl whole) = inl (ap (λ t. b ∷ t) whole)
split_at_dash_later b bs differs (inr (free, same)) =
    inr (((λ e. ground arith), free), rw same refl)

split_at_dash_head : (b : ℕ) (bs : List ℕ) → b == dash ≡ true → Parted (b ∷ bs) ([], bs)
unfolding room_id
split_at_dash_head b bs same = inl (ground arith)

split_at_dash-Parted : (bs : List ℕ) → Parted bs (split_at_dash bs)
unfolding split_at_dash
split_at_dash-Parted [] = inr (tt, refl)
split_at_dash-Parted (b ∷ bs) =
    let later = split_at_dash-Parted bs in
    elim (Bool-cases (b == dash)) [
      | inl same ↦ rw same (split_at_dash_head b bs same)
      | inr differs ↦ rw differs (split_at_dash_later b bs differs later)
    ]

by_length :
    (n : ℕ) (key message_box : List ℕ)
    → length key ≡ n
    → (take n (key ++ dash ∷ message_box) ≡ key)
      × (drop (suc n) (key ++ dash ∷ message_box) ≡ message_box)
      × (dash_at (key ++ dash ∷ message_box) n ≡ true)
      × (ltb n (length (key ++ dash ∷ message_box)) ≡ true)
by_length n key message_box h = rw (sym h) (
  take-append key (dash ∷ message_box),
  drop-append key dash message_box,
  dash_at-append key message_box,
  ground (arith, length-append key (dash ∷ message_box)),
)

-- A room id of a key of 66 bytes, as every hex identity key is, is split into that key and its
-- message box, whatever dashes the two hold.
pub split_room_id-room_id :
    (key message_box : List ℕ)
    → length key ≡ hex_key_len
    → split_room_id (room_id key message_box) ≡ (key, message_box)
unfolding split_room_id room_id
split_room_id-room_id key message_box h =
    let (kept, left, dashed, long) = by_length hex_key_len key message_box h in
    rw (kept, left, dashed, long)

-- The two parts of any room id, joined with a dash, are the whole id again, or the id has no dash
-- and is the first part, beside an empty second one.
split_room_id-Parted :
    (bs : List ℕ)
    → (room_id (split_room_id bs).0 (split_room_id bs).1 ≡ bs)
      ⊎ (DashFree bs × (split_room_id bs ≡ (bs, [])))
unfolding split_room_id room_id
split_room_id-Parted bs =
    elim (Bool-cases (ltb hex_key_len (length bs) && dash_at bs hex_key_len)) [
      | inl at_key ↦ rw at_key (inl (take-dash-drop hex_key_len bs (ground arith)))
      | inr elsewhere ↦ rw elsewhere (split_at_dash-Parted bs)
    ]
