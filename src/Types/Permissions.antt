-- ===== src/Types/Permissions.antt =====
-- Permissions and quotes of src/types.rs, and the quote's body of src/permissions.rs.
use rust_messagebox_client.Prelude.{zero, suc, String, Option}
use rust_messagebox_client.Prelude.Int.{ℤ, pos, negsuc}

pub record SetPermissionParams : Type 0 where
  pub message_box : String
  pub sender : Option String
  pub recipient_fee : ℤ

pub record MessageBoxPermission : Type 0 where
  pub sender : Option String
  pub message_box : String
  pub recipient_fee : ℤ
  pub created_at : String
  pub updated_at : String

-- `MessageBoxPermission::status` on the fee.
unfoldable pub status : ℤ → String
status (negsuc _) = "blocked"
status (pos zero) = "always_allow"
status (pos (suc _)) = "payment_required"

pub record QuoteBody : Type 0 where
  pub recipient_fee : ℤ
  pub delivery_fee : ℤ

pub record MessageBoxQuote : Type 0 where
  pub delivery_fee : ℤ
  pub recipient_fee : ℤ
  pub delivery_agent_identity_key : String
