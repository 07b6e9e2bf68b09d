-- ===== src/PaymentRequests/Genuine.antt =====
-- What holds of every payment request that is returned.
use mathlib.Core.List.{Memᴰ}
use rust_messagebox_client.Prelude.{ℕ, ◌≤◌, String, ◌≡◌, true, false, Option, some, List}
use rust_messagebox_client.Prelude.Dict.{Dict}
use rust_messagebox_client.Error.{ok}
use rust_messagebox_client.Types.{
  PeerMessage, PaymentRequestMessage, IncomingPaymentRequest, PaymentRequestLimits,
}
use rust_messagebox_client.Deps.{Deps}
use rust_messagebox_client.Io.{now}
use rust_messagebox_client.Io.Runs.{Event}
use rust_messagebox_client.PaymentRequests.{
  Parsed, is_cancellation, is_valid_payment_request, Verdict, active, cancelled_by,
}
use rust_messagebox_client.PaymentRequests.Verified.{Verified}

module _ (D : Deps) (my_identity_key : String) (originator : Option String) where
  open D use {payment_request_message}

  module _ (limits : PaymentRequestLimits) (messages : List PeerMessage) where
    -- A message of the inbox with the request that its body holds.
    abbrev pub Received : Parsed → Type 0
    Received (msg, body) =
        Memᴰ msg messages
        × (payment_request_message msg.body ≡ ok body)
        × (is_valid_payment_request body ≡ true)

    -- A request says what its message says, and is in force at a time that the clock showed.
    abbrev pub InForce :
        Dict String → ℕ → PeerMessage → PaymentRequestMessage → IncomingPaymentRequest → Type 0
    InForce cancelled now_ms msg body r =
        (is_cancellation body ≡ false)
        × (r.message_id ≡ msg.message_id)
        × (r.sender ≡ msg.sender)
        × (r.request_id ≡ body.request_id)
        × (body.amount ≡ some r.amount)
        × (body.description ≡ some r.description)
        × (body.expires_at ≡ some r.expires_at)
        × (now_ms ≤ r.expires_at)
        × (limits.min_amount ≤ r.amount)
        × (r.amount ≤ limits.max_amount)
        × (cancelled_by cancelled body msg ≡ false)

    abbrev pub Genuine : Dict String → List (Event D) → IncomingPaymentRequest → Type 0
    Genuine cancelled log r =
        (msg : PeerMessage) × (body : PaymentRequestMessage) × (now_ms : ℕ) × Received (msg, body)
        × InForce cancelled now_ms msg body r
        × Memᴰ (now, now_ms) log
        × Verified D my_identity_key originator log msg body

    -- What a verdict says when it makes a request active.
    abbrev Judged : Dict String → List (Event D) → Verdict → Type 0
    Judged cancelled log (active r) = Genuine cancelled log r
    Judged cancelled log v = Unit
