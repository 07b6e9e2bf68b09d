-- ===== src/Types.antt =====
-- The wire types of src/types.rs, and the SDK's `PeerMessage` that the client hands out.
pub mod Permissions
pub mod SendList
pub mod Devices
pub mod Requests
use rust_messagebox_client.Prelude.{ℕ, String, Bool, true, false, List, Option}

-- `PeerMessage` of the SDK, as this crate builds it.
pub record PeerMessage : Type 0 where
  pub message_id : String
  pub sender : String
  pub recipient : String
  pub message_box : String
  pub body : String

pub record AuthenticatedPeerMessage : Type 0 where
  pub message_id : String
  pub sender : String
  pub recipient : String
  pub message_box : String
  pub body : String
  pub authenticated_decrypt : Bool

pub record ServerPeerMessage : Type 0 where
  pub message_id : String
  pub body : String
  pub sender : String
  pub created_at : String
  pub updated_at : String
  pub acknowledged : Option Bool
  pub authenticated_decrypt : Bool

pub record ListMessagesResponse : Type 0 where
  pub status : String
  pub messages : List ServerPeerMessage

pub record SendMessageParams : Type 0 where
  pub recipient : String
  pub message_box : String
  pub body : String
  pub message_id : String

pub record MessagePaymentOutput : Type 0 where
  pub output_index : ℕ
  pub derivation_prefix : List ℕ
  pub derivation_suffix : List ℕ
  pub sender_identity_key : String

pub record MessagePayment : Type 0 where
  pub tx : List ℕ
  pub outputs : List MessagePaymentOutput

pub record SendMessageRequest : Type 0 where
  pub message : SendMessageParams
  pub payment : Option MessagePayment

pub record SendMessageResponse : Type 0 where
  pub status : String
  pub message_id : Option String

pub record AdvertisementToken : Type 0 where
  pub host : String
  pub txid : String
  pub output_index : ℕ
  pub locking_script : String
  pub beef : List ℕ

-- `ListMessagePaymentOutcome`
pub data PaymentOutcome : Type 0 where
  no_payment internalized skipped declined failed unprocessable : PaymentOutcome

unfoldable pub payment_is_safe : PaymentOutcome → Bool
payment_is_safe no_payment = true
payment_is_safe internalized = true
payment_is_safe _ = false

pub record PaymentAwarePeerMessage : Type 0 where
  pub message : PeerMessage
  pub payment_outcome : PaymentOutcome
  pub raw_payment_envelope : Option String

pub record PaymentAwareServerPeerMessage : Type 0 where
  pub message : ServerPeerMessage
  pub payment_outcome : PaymentOutcome
  pub raw_payment_envelope : Option String

-- The recipient-fee payment of a listed message (src/http_ops.rs).
pub record ServerPaymentRemittance : Type 0 where
  pub derivation_prefix : Option String
  pub derivation_suffix : Option String
  pub sender_identity_key : Option String

pub record ServerInsertionRemittance : Type 0 where
  pub basket : Option String
  pub custom_instructions : Option String
  pub tags : Option (List String)

pub record ServerPaymentOutput : Type 0 where
  pub output_index : Option ℕ
  pub protocol : Option String
  pub payment_remittance : Option ServerPaymentRemittance
  pub insertion_remittance : Option ServerInsertionRemittance

pub record ServerPayment : Type 0 where
  pub tx : Option (List ℕ)
  pub outputs : Option (List ServerPaymentOutput)
  pub description : Option String

-- Payments from peer to peer and payment requests.
pub record PaymentCustomInstructions : Type 0 where
  pub derivation_prefix : String
  pub derivation_suffix : String
  pub payee : Option String

pub record PaymentToken : Type 0 where
  pub custom_instructions : PaymentCustomInstructions
  pub transaction : List ℕ
  pub amount : ℕ
  pub output_index : Option ℕ

pub record IncomingPayment : Type 0 where
  pub token : PaymentToken
  pub sender : String
  pub message_id : String

pub record PaymentRequestMessage : Type 0 where
  pub request_id : String
  pub sender_identity_key : String
  pub request_proof : String
  pub amount : Option ℕ
  pub description : Option String
  pub expires_at : Option ℕ
  pub cancelled : Option Bool

pub record IncomingPaymentRequest : Type 0 where
  pub message_id : String
  pub sender : String
  pub request_id : String
  pub amount : ℕ
  pub description : String
  pub expires_at : ℕ

pub record PaymentRequestLimits : Type 0 where
  pub min_amount : ℕ
  pub max_amount : ℕ

abbrev pub default_limits : PaymentRequestLimits
default_limits = record { min_amount = 1000; max_amount = 10_000_000 }

-- The payment of a notification (src/peer_pay.rs).
pub data NotificationOutputProtocol : Type 0 where
  missing : NotificationOutputProtocol
  explicit_null : NotificationOutputProtocol
  value : String → NotificationOutputProtocol

pub record NotificationPaymentRemittance : Type 0 where
  pub derivation_prefix : Option String
  pub derivation_suffix : Option String
  pub sender_identity_key : Option String

pub record NotificationPaymentOutput : Type 0 where
  pub output_index : Option ℕ
  pub protocol : NotificationOutputProtocol
  pub payment_remittance : Option NotificationPaymentRemittance

pub record NotificationPayment : Type 0 where
  pub tx : Option (List ℕ)
  pub outputs : Option (List NotificationPaymentOutput)
  pub description : Option String
