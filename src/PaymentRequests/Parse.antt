-- ===== src/PaymentRequests/Parse.antt =====
-- Stage 1 of `list_incoming_payment_requests` on one message.
use rust_messagebox_client.Prelude.{String, ◌≡◌, true, false, List, ◌∷◌, arith}
use rust_messagebox_client.Error.{ok, err}
use rust_messagebox_client.Types.{PeerMessage, PaymentRequestMessage}
use rust_messagebox_client.Deps.{Deps}
use rust_messagebox_client.PaymentRequests.{
  Sorting, is_valid_payment_request, note_malformed, parse_requests,
}

module _ (D : Deps) where
  open D use {payment_request_message}

  module _ (msg : PeerMessage) (messages : List PeerMessage) (s : Sorting) where
    pub parse_requests_kept :
        (body : PaymentRequestMessage)
        → payment_request_message msg.body ≡ ok body
        → is_valid_payment_request body ≡ true
        → parse_requests D (msg ∷ messages) s
          ≡ ((msg, body) ∷ (parse_requests D messages s).0, (parse_requests D messages s).1)
    unfolding parse_requests
    parse_requests_kept body good v = ground arith

    pub parse_requests_invalid :
        (body : PaymentRequestMessage)
        → payment_request_message msg.body ≡ ok body
        → is_valid_payment_request body ≡ false
        → parse_requests D (msg ∷ messages) s ≡ parse_requests D messages (note_malformed msg s)
    unfolding parse_requests
    parse_requests_invalid body good v = ground arith

    pub parse_requests_unread :
        (e : String)
        → payment_request_message msg.body ≡ err e
        → parse_requests D (msg ∷ messages) s ≡ parse_requests D messages (note_malformed msg s)
    unfolding parse_requests
    parse_requests_unread e bad = ground arith
