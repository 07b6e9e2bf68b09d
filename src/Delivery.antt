-- ===== src/Delivery.antt =====
-- `DeliveryMode` of src/delivery.rs.
use rust_messagebox_client.Prelude.{String, Bool, true, false}

pub data DeliveryMode : Type 0 where
  live : String → DeliveryMode
  persisted : String → DeliveryMode

unfoldable pub message_id : DeliveryMode → String
message_id (live id) = id
message_id (persisted id) = id

unfoldable pub is_live : DeliveryMode → Bool
is_live (live _) = true
is_live (persisted _) = false
