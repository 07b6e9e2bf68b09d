-- ===== src/Tests/Rooms.antt =====
-- Room ids at concrete keys and message boxes.
use rust_messagebox_client.Prelude.{ℕ, zero, suc, ◌≡◌, refl, List, [], ◌∷◌}
use rust_messagebox_client.Websocket.Room.{hex_key_len, split_room_id, split_at_dash, room_id}
use rust_messagebox_client.Websocket.Room.Parts.{split_room_id-room_id}

abbrev repeated : ℕ → ℕ → List ℕ
repeated zero b = []
repeated (suc n) b = b ∷ repeated n b

abbrev key : List ℕ
key = repeated hex_key_len 98

-- "payment-v2" in bytes.
abbrev message_box : List ℕ
message_box = 112 ∷ 97 ∷ 121 ∷ 109 ∷ 101 ∷ 110 ∷ 116 ∷ 45 ∷ 118 ∷ 50 ∷ []

-- "me-in-box" and "inbox".
abbrev short_id : List ℕ
short_id = 109 ∷ 101 ∷ 45 ∷ 105 ∷ 110 ∷ 45 ∷ 98 ∷ 111 ∷ 120 ∷ []

abbrev no_dash : List ℕ
no_dash = 105 ∷ 110 ∷ 98 ∷ 111 ∷ 120 ∷ []

short_id_parts : split_room_id short_id ≡ (109 ∷ 101 ∷ [], 105 ∷ 110 ∷ 45 ∷ 98 ∷ 111 ∷ 120 ∷ [])
unfolding split_room_id
short_id_parts = unfold split_at_dash in refl

split_room_id-room_id_example : split_room_id (room_id key message_box) ≡ (key, message_box)
split_room_id-room_id_example = split_room_id-room_id key message_box refl
