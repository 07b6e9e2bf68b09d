-- ===== src/PaymentRequests/Flow/Fulfilled.antt =====
-- The order of what `fulfill_payment_request` of src/payment_requests.rs does.
use rust_messagebox_client.Prelude.{String, ◌≡◌, false, Option, List, [], ◌∷◌}
use rust_messagebox_client.Error.{ok, err, Fallible}
use rust_messagebox_client.Types.{IncomingPaymentRequest}
use rust_messagebox_client.Deps.{Deps}
use rust_messagebox_client.Io.Runs.{Event, Extends}
use rust_messagebox_client.Session.{Client}
use rust_messagebox_client.HttpOps.Acknowledge.Asked.{Acknowledged}
use rust_messagebox_client.HttpOps.Outbox.Stored.{Stored}
use rust_messagebox_client.PeerPay.Payments.Sent.{Paid}
use rust_messagebox_client.PaymentRequests.Flow.{responses_box, paid}

module _ (D : Deps) (client : Client) where
  module _ (request : IncomingPaymentRequest) (note override_host : Option String) where
    -- First the payment, then the response, then the acknowledgement of the request.
    pub record Fulfilled (log : List (Event D)) : Type 0 where
      pub payment_log : List (Event D)
      pub payment_id : String
      pub payment : Paid D client request.sender request.amount payment_log payment_id
      pub response_log : List (Event D)
      pub response_id : String
      pub body : String
      pub encoded : D.payment_response_json (paid request note) ≡ ok body
      pub response :
          Stored D client request.sender responses_box body false false override_host response_log
            response_id
      pub payment_first : Extends payment_log response_log
      pub response_first : Extends response_log log
      pub acknowledged : (host : String) × Acknowledged D (request.message_id ∷ []) log host

    abbrev pub FulfilledOk : List (Event D) → Fallible (Unit {0}) → Type 0
    FulfilledOk log (ok _) = Fulfilled log
    FulfilledOk log (err _) = Unit
