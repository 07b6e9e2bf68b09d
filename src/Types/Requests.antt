-- ===== src/Types/Requests.antt =====
-- The answers to payment requests of src/types.rs.
use rust_messagebox_client.Prelude.{ℕ, String, Option}

pub record PaymentRequestResponse : Type 0 where
  pub request_id : String
  pub status : String
  pub note : Option String
  pub amount_paid : Option ℕ

pub record PaymentRequestResult : Type 0 where
  pub request_id : String
  pub request_proof : String
