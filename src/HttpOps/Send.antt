-- ===== src/HttpOps/Send.antt =====
-- `send_message_to_host` of src/http_ops.rs. The fee quote and the payment for it, which it asks for
-- when permissions are checked, are an argument.
pub mod Delivered
use rust_messagebox_client.Prelude.{
  ℕ, String, ◌<>◌, ◌≡◌, refl, Bool, true, false, not, ◌&&◌, Option, none, some, List, is_some,
  unwrap_or, if◌then◌else◌,
}
use rust_messagebox_client.Error.{Result, ok, err, Fallible, http, json}
use rust_messagebox_client.Error.Try
use rust_messagebox_client.Types.{
  SendMessageRequest, SendMessageParams, SendMessageResponse, MessagePayment,
}
use rust_messagebox_client.Deps.{Deps}
use rust_messagebox_client.Io.{Response, Io, ret, of_result, ◌>>=◌}
use rust_messagebox_client.Encryption.{encrypt_body, generate_message_id}
use rust_messagebox_client.Client.Http.{
  is_failure, post_json_raw, check_status_error, is_duplicate_message_rejection,
}

module _ (D : Deps) where
  open D use {send_message_request, send_message_response}

  -- `resp.message_id` of a body that parses.
  abbrev pub server_id : List ℕ → Option String
  server_id body = elim (send_message_response body) [ err _ ↦ none | ok resp ↦ resp.message_id ]

  unfoldable pub judge_send : String → String → Response → Fallible String
  judge_send url resolved_message_id response =
      if is_duplicate_message_rejection D response.body
      then ok resolved_message_id
      else if is_failure response.status
      then err (http response.status url)
      else Try.◌>>=◌ (check_status_error D response.body)
          (λ _. ok (unwrap_or (server_id response.body) resolved_message_id))

  abbrev pub send_request :
      String → String → String → String → Option MessagePayment → SendMessageRequest
  send_request recipient message_box wire_body resolved_message_id payment = record {
    message = record {
      recipient = recipient;
      message_box = message_box;
      body = wire_body;
      message_id = resolved_message_id;
    };
    payment = payment;
  }

  module _ (originator : Option String) (host recipient message_box body : String) where
    abbrev pub wire_body : Bool → Io D String
    wire_body true = ret (ok body)
    wire_body false = encrypt_body D body recipient originator

    abbrev pub resolve_message_id : Option String → Io D String
    resolve_message_id (some id) = ret (ok id)
    resolve_message_id none = generate_message_id D body recipient originator

    -- When permissions are checked and no payment was supplied, the payment for the quoted fees.
    abbrev pub resolve_payment :
        Bool → Option MessagePayment → Io D (Option MessagePayment) → Io D (Option MessagePayment)
    resolve_payment true none pay_fees = pay_fees
    resolve_payment true (some payment) pay_fees = ret (ok (some payment))
    resolve_payment false payment pay_fees = ret (ok payment)

    unfoldable pub send_message_to_host :
        Bool
        → Bool
        → Option String
        → Option MessagePayment
        → Io D (Option MessagePayment)
        → Io D String
    send_message_to_host skip_encryption check_permissions message_id supplied pay_fees = do
      wire ← wire_body skip_encryption
      resolved_message_id ← resolve_message_id message_id
      payment ← resolve_payment check_permissions supplied pay_fees
      body_bytes ← of_result json (
          send_message_request
            (send_request recipient message_box wire resolved_message_id payment))
      response ← post_json_raw D (host <> "/sendMessage") body_bytes
      ret (judge_send (host <> "/sendMessage") resolved_message_id response)
