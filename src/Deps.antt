-- ===== src/Deps.antt =====
-- What the client uses of other crates and does not implement: the SDK's keys, `serde_json`,
-- `base64` and `hex` as pure functions, and the shapes of wallet, HTTP and overlay calls. An error
-- of such a function is the text that its `Display` gives.
use rust_messagebox_client.Prelude.{ℕ, String, ◌≡◌, Bool, Option, none, some, List, unwrap_or}
use mathlib.Core.Option
use mathlib.Core.WellFounded.{Acc}
use rust_messagebox_client.Error.{Result, ok, err}
use rust_messagebox_client.Types.{
  ListMessagesResponse, ServerPayment, ServerPeerMessage, PaymentToken, PaymentRequestMessage,
  NotificationPayment, SendMessageRequest, SendMessageResponse, PaymentCustomInstructions,
}
use rust_messagebox_client.Types.Permissions.{SetPermissionParams, MessageBoxPermission, QuoteBody}
use rust_messagebox_client.Types.Devices.{
  RegisterDeviceRequest, RegisterDeviceResponse, RegisteredDevice,
}
use rust_messagebox_client.Types.Requests.{PaymentRequestResponse}

-- The text inside a body of the form `{"message": …}`: a text itself, anything else as JSON.
module _ {Value : Type 0} (from_str : String → Result Value String)
    (get : Value → String → Option Value) (as_str : Value → Option String)
    (value_to_string : Value → String) where
  unfoldable pub unwrapped : String → Option String
  unwrapped raw = elim (from_str raw) [
    | err _ ↦ none
    | ok v ↦
        Option.map (λ inner. unwrap_or (as_str inner) (value_to_string inner)) (get v "message")
  ]

pub record Deps : Type 1 where
  -- `bsv::primitives::public_key::PublicKey`
  pub PublicKey : Type 0
  pub public_key_from_string : String → Result PublicKey String
  pub to_der_hex : PublicKey → String
  pub to_hash : PublicKey → List ℕ
  -- `bsv::primitives::utils::from_hex`
  pub from_hex : String → Result (List ℕ) String
  -- scripts and transactions; the hash of a key has 20 bytes, as `copy_from_slice` wants
  pub LockingScript : Type 0
  pub p2pkh_lock : List ℕ → Result LockingScript String
  pub script_to_hex : LockingScript → String
  pub script_from_hex : String → Result LockingScript String
  pub script_to_binary : LockingScript → List ℕ
  -- `Script::from_chunks` of raw chunks, serialised
  pub chunks_to_binary : List (ℕ × List ℕ) → List ℕ
  pub decode_push_drop : LockingScript → Result (List (List ℕ)) String
  pub Transaction : Type 0
  pub from_beef : String → Result Transaction String
  pub transaction_id : Transaction → Result String String
  pub output_scripts : Transaction → List LockingScript
  -- input index, sighash type, satoshis and script of the spent output
  pub sighash_preimage : Transaction → ℕ → ℕ → ℕ → LockingScript → Result (List ℕ) String
  pub sha256 : List ℕ → List ℕ
  -- `TopicBroadcaster::new`
  pub new_broadcaster : Result (Unit {0}) String
  -- `serde_json::Value`
  pub Value : Type 0
  pub from_str : String → Result Value String
  pub from_slice : List ℕ → Result Value String
  pub value_to_string : Value → String
  pub get : Value → String → Option Value
  pub as_str : Value → Option String
  pub is_object : Value → Bool
  pub is_null : Value → Bool
  pub string_value : String → Value
  pub object_value : List (String × Value) → Value
  -- the derived (de)serialisers
  pub list_messages_response : List ℕ → Result ListMessagesResponse String
  pub list_status_projection : List ℕ → Result (Option String × Option Value) String
  pub server_peer_message : Value → Result ServerPeerMessage String
  pub server_payment : Value → Result ServerPayment String
  pub notification_payment : Value → Result NotificationPayment String
  pub payment_token : String → Result PaymentToken String
  pub payment_request_message : String → Result PaymentRequestMessage String
  pub send_message_response : List ℕ → Result SendMessageResponse String
  pub send_message_request : SendMessageRequest → Result (List ℕ) String
  pub list_messages_params : String → Result (List ℕ) String
  pub acknowledge_message_params : List String → Result (List ℕ) String
  pub set_permission_params : SetPermissionParams → Result (List ℕ) String
  pub get_permission_response : List ℕ → Result (Option MessageBoxPermission) String
  pub list_permissions_response : List ℕ → Result (List MessageBoxPermission) String
  pub quote_response : List ℕ → Result QuoteBody String
  pub register_device_request : RegisterDeviceRequest → Result (List ℕ) String
  pub register_device_response : List ℕ → Result RegisterDeviceResponse String
  pub list_devices_response : List ℕ → Result (List RegisteredDevice) String
  pub custom_instructions_json : PaymentCustomInstructions → Result String String
  pub payment_token_json : PaymentToken → Result String String
  pub payment_request_json : PaymentRequestMessage → Result String String
  pub payment_response_json : PaymentRequestResponse → Result String String
  pub payment_response : String → Result PaymentRequestResponse String
  -- `serde_json::to_string` on a text
  pub json_text : String → Result String String
  -- text codecs
  pub as_bytes : String → List ℕ
  pub from_utf8 : List ℕ → Result String String
  pub base64_encode : List ℕ → String
  pub base64_decode : String → Result (List ℕ) String
  pub hex_encode : List ℕ → String
  pub hex_decode : String → Result (List ℕ) String
  pub to_lowercase : String → String
  -- A text is wrapped a finite number of times.
  pub layers_end :
      (raw : String)
      → Acc
          (λ (inner outer : String).
            unwrapped from_str get as_str value_to_string outer ≡ some inner)
          raw
