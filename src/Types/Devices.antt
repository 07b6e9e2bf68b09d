-- ===== src/Types/Devices.antt =====
-- The device types of src/types.rs.
use rust_messagebox_client.Prelude.{String, Bool, Option}
use rust_messagebox_client.Prelude.Int.{ℤ}

pub record RegisterDeviceRequest : Type 0 where
  pub fcm_token : String
  pub device_id : Option String
  pub platform : Option String

pub record RegisteredDevice : Type 0 where
  pub id : Option ℤ
  pub device_id : Option String
  pub platform : Option String
  pub fcm_token : String
  pub active : Option Bool
  pub created_at : Option String
  pub updated_at : Option String
  pub last_used : Option String

pub record RegisterDeviceResponse : Type 0 where
  pub status : String
  pub message : Option String
  pub device_id : Option ℤ
