-- ===== src/PaymentRequests/Flow.antt =====
-- The operations of src/payment_requests.rs that make requests, answer them and set who may send them.
pub mod Fulfilled
pub mod Requested
use rust_messagebox_client.Prelude.{
  ℕ, String, ◌<>◌, Bool, true, false, not, Option, none, some, List, [], ◌∷◌, len, ◌==◌, ◌=?◌,
  unwrap_or, if◌then◌else◌,
}
use rust_messagebox_client.Prelude.Int.{ℤ, pos, negsuc}
use rust_messagebox_client.Error.{
  Result, ok, err, Fallible, wallet, auth, http, json, validation, to_option,
}
use rust_messagebox_client.Types.{
  PeerMessage, PaymentRequestMessage, IncomingPaymentRequest, PaymentRequestLimits, default_limits,
}
use rust_messagebox_client.Types.Permissions.{SetPermissionParams, MessageBoxPermission, status}
use rust_messagebox_client.Types.Requests.{PaymentRequestResponse, PaymentRequestResult}
use rust_messagebox_client.Deps.{Deps}
use rust_messagebox_client.Io.{
  KeyArgs, other, create_nonce, create_hmac, Io, ret, bind, perform, of_result, of_call, ◌>>=◌,
  ◌>>◌,
}
use rust_messagebox_client.Session.{Client, get_identity_key}
use rust_messagebox_client.Permissions.{set_message_box_permission, list_message_box_permissions}
use rust_messagebox_client.HttpOps.Outbox.{send_message}
use rust_messagebox_client.Client.Listen.{listen_for_live_messages}
use rust_messagebox_client.HttpOps.Inbox.{list_messages, acknowledge_message}
use rust_messagebox_client.PeerPay.Payments.{send_payment}
use rust_messagebox_client.PaymentRequests
use rust_messagebox_client.PaymentRequests.{is_cancellation}

abbrev pub requests_box : String
requests_box = "payment_requests"

abbrev pub responses_box : String
responses_box = "payment_request_responses"

abbrev pub request_of : String → String → String → ℕ → String → ℕ → PaymentRequestMessage
request_of request_id sender_identity_key request_proof amount description expires_at = record {
  request_id = request_id;
  sender_identity_key = sender_identity_key;
  request_proof = request_proof;
  amount = some amount;
  description = some description;
  expires_at = some expires_at;
  cancelled = none;
}

abbrev pub cancellation_of : String → String → String → PaymentRequestMessage
cancellation_of request_id sender_identity_key request_proof = record {
  request_id = request_id;
  sender_identity_key = sender_identity_key;
  request_proof = request_proof;
  amount = none;
  description = none;
  expires_at = none;
  cancelled = some true;
}

abbrev pub paid : IncomingPaymentRequest → Option String → PaymentRequestResponse
paid request note = record {
  request_id = request.request_id;
  status = "paid";
  note = note;
  amount_paid = some request.amount;
}

abbrev pub refused : IncomingPaymentRequest → Option String → PaymentRequestResponse
refused request note = record {
  request_id = request.request_id;
  status = "declined";
  note = note;
  amount_paid = none;
}

-- The send of a request: a 403 says that the recipient blocks requests.
abbrev pub judge_request : Fallible String → Fallible (Unit {0})
judge_request (ok _) = ok tt
judge_request (err (http status from)) =
    if status == 403
    then err (validation "Payment request blocked — you are not on the recipient's whitelist.")
    else err (http status from)
judge_request (err e) = err e

abbrev pub requests_permission : String → ℤ → SetPermissionParams
requests_permission identity_key recipient_fee = record {
  message_box = requests_box;
  sender = some identity_key;
  recipient_fee = recipient_fee;
}

-- The `filter` and `map` of `list_payment_request_permissions`.
unfoldable pub allowed_keys : List MessageBoxPermission → List (String × Bool)
allowed_keys [] = []
allowed_keys (p ∷ permissions) =
    let rest = allowed_keys permissions in
    elim p.sender [
      | none ↦ rest
      | some key ↦
          if len key == 0 then rest else (key, not (status p.recipient_fee =? "blocked")) ∷ rest
    ]

module _ (D : Deps) where
  open D use {
    PublicKey, public_key_from_string, payment_request_json, payment_response_json,
    payment_response, payment_request_message, hex_encode, as_bytes,
  }

  abbrev pub request_key : String → PublicKey → KeyArgs D
  request_key request_id recipient_pk = record {
    security_level = 2;
    protocol = "payment request auth";
    key_id = request_id;
    counterparty = other (some recipient_pk);
  }

  -- The `filter_map` of `list_payment_request_responses`.
  unfoldable pub parse_responses : List PeerMessage → List PaymentRequestResponse
  parse_responses [] = []
  parse_responses (msg ∷ messages) =
      let rest = parse_responses messages in
      elim (payment_response msg.body) [ err _ ↦ rest | ok response ↦ response ∷ rest ]

  -- What `listen_for_live_payment_requests` hands to its callback of a message, if anything.
  abbrev pub live_complete :
      PeerMessage
      → PaymentRequestMessage
      → Option ℕ
      → Option String
      → Option ℕ
      → Option IncomingPaymentRequest
  live_complete msg body (some amount) (some description) (some expires_at) = some (record {
    message_id = msg.message_id;
    sender = msg.sender;
    request_id = body.request_id;
    amount = amount;
    description = description;
    expires_at = expires_at;
  })
  live_complete msg body none description expires_at = none
  live_complete msg body (some amount) none expires_at = none
  live_complete msg body (some amount) (some description) none = none

  abbrev live_parsed :
      PeerMessage → Result PaymentRequestMessage String → Option IncomingPaymentRequest
  live_parsed msg (err _) = none
  live_parsed msg (ok body) =
      if is_cancellation body
      then none
      else live_complete msg body body.amount body.description body.expires_at

  unfoldable pub live_payment_request : PeerMessage → Option IncomingPaymentRequest
  live_payment_request msg = live_parsed msg (payment_request_message msg.body)

  -- What `listen_for_live_payment_request_responses` hands to its callback of a message.
  unfoldable pub live_response : PeerMessage → Option PaymentRequestResponse
  live_response msg = to_option (payment_response msg.body)

  module _ (client : Client) where
    -- The callbacks get what `live_payment_request` and `live_response` make of a message.
    unfoldable pub listen_for_live_payment_requests : Option String → Io D (Unit {0})
    listen_for_live_payment_requests override_host =
        listen_for_live_messages D client requests_box override_host

    unfoldable pub listen_for_live_payment_request_responses : Option String → Io D (Unit {0})
    listen_for_live_payment_request_responses override_host =
        listen_for_live_messages D client responses_box override_host

    -- After the amount is known not to be zero.
    abbrev pub request_some : String → ℕ → String → ℕ → Io D PaymentRequestResult
    request_some recipient amount description expires_at = do
      request_id ← of_call (λ e. auth ("create_nonce request_id: " <> e)) (perform create_nonce)
      sender_identity_key ← get_identity_key D client
      recipient_pk ←
          of_result (λ e. auth ("invalid recipient key: " <> e)) (public_key_from_string recipient)
      hmac ← of_call wallet (
          perform (
            create_hmac (request_key request_id recipient_pk) (as_bytes (request_id <> recipient))
              client.originator))
      body ← of_result json (
          payment_request_json (
            request_of request_id sender_identity_key (hex_encode hmac) amount description
              expires_at))
      bind (send_message D client recipient requests_box body false false none none)
          (λ sent. ret (judge_request sent))
      ret (ok (record { request_id = request_id; request_proof = hex_encode hmac }))

    unfoldable pub request_payment : String → ℕ → String → ℕ → Io D PaymentRequestResult
    request_payment recipient amount description expires_at =
        if amount == 0
        then ret (err (validation "Payment request amount must be greater than 0"))
        else request_some recipient amount description expires_at

    unfoldable pub cancel_payment_request :
        String → String → String → Option String → Io D (Unit {0})
    cancel_payment_request recipient request_id request_proof host_override = do
      sender_identity_key ← get_identity_key D client
      body ←
          of_result json
            (payment_request_json (cancellation_of request_id sender_identity_key request_proof))
      send_message D client recipient requests_box body false false none host_override
      ret (ok tt)

    -- The answer to a request, and the acknowledgement of the request.
    abbrev pub answer :
        IncomingPaymentRequest → PaymentRequestResponse → Option String → Io D (Unit {0})
    answer request response host_override = do
      body ← of_result json (payment_response_json response)
      send_message D client request.sender responses_box body false false none host_override
      acknowledge_message D client (request.message_id ∷ []) host_override

    unfoldable pub fulfill_payment_request :
        IncomingPaymentRequest → Option String → Option String → Io D (Unit {0})
    fulfill_payment_request request note host_override = do
      send_payment D client request.sender request.amount
      answer request (paid request note) host_override

    unfoldable pub decline_payment_request :
        IncomingPaymentRequest → Option String → Option String → Io D (Unit {0})
    decline_payment_request request note host_override =
        answer request (refused request note) host_override

    unfoldable pub list_payment_request_responses :
        Option String → Io D (List PaymentRequestResponse)
    list_payment_request_responses host_override = do
      messages ← list_messages D client responses_box false host_override
      ret (ok (parse_responses messages))

    unfoldable pub allow_payment_requests_from : String → Option String → Io D (Unit {0})
    allow_payment_requests_from identity_key =
        set_message_box_permission D client (requests_permission identity_key (pos 0))

    unfoldable pub block_payment_requests_from : String → Option String → Io D (Unit {0})
    block_payment_requests_from identity_key =
        set_message_box_permission D client (requests_permission identity_key (negsuc 0))

    unfoldable pub list_payment_request_permissions : Option String → Io D (List (String × Bool))
    list_payment_request_permissions host_override = do
      permissions ←
          list_message_box_permissions D client (some requests_box) none none host_override
      ret (ok (allowed_keys permissions))

    unfoldable pub list_incoming_payment_requests :
        Option String → Option PaymentRequestLimits → Io D (List IncomingPaymentRequest)
    list_incoming_payment_requests host_override limits = do
      my_identity_key ← get_identity_key D client
      messages ← list_messages D client requests_box false host_override
      PaymentRequests.list_incoming_payment_requests D my_identity_key client.originator
          (unwrap_or limits default_limits) messages
          (λ ids. acknowledge_message D client ids host_override)
