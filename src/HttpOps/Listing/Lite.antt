-- ===== src/HttpOps/Listing/Lite.antt =====
-- `list_messages_lite` of src/http_ops.rs: no payment is made, and none is hidden.
use rust_messagebox_client.Prelude.{
  len, ◌≤◌, ◌≡◌, refl, ◌∙◌, Bool, true, false, Option, none, List, [], ◌∷◌, arith, if◌then◌else◌,
}
use rust_messagebox_client.Prelude.Maybe.{All2}
use rust_messagebox_client.Error.{Result}
use rust_messagebox_client.Types.{
  ServerPayment, ServerPeerMessage, PaymentOutcome, no_payment, internalized, skipped, declined,
  failed, unprocessable, payment_is_safe, PaymentAwareServerPeerMessage,
}
use rust_messagebox_client.Deps.{Deps}
use rust_messagebox_client.Io.Runs.{Event, AllRuns, AllRuns-bind}
use rust_messagebox_client.Io.Avoids.{Payment, payments}
use rust_messagebox_client.HttpOps.Split.{split_message_body}
use rust_messagebox_client.HttpOps.Listing.{
  ProcessedMessageBody, into_legacy_server_message, process_listed_body, lite_receipt,
  lite_receipts,
}
use rust_messagebox_client.HttpOps.Listing.Payments.{
  Settled, IsAccounted, process_listed_body-IsAccounted,
}

module _ (D : Deps) where
  -- Without acceptance no step adds a payment.
  Settled-unpaid :
      (p : Option (Result ServerPayment (Unit {0}))) (before made : List (Payment D))
      (outcome : PaymentOutcome)
      → Settled D false none p before made outcome
      → made ≡ before
  Settled-unpaid p before made no_payment h = h.1
  Settled-unpaid p before made internalized (payment, args, same, admitted, accepts, paid) = cc
  Settled-unpaid p before made skipped h = h.2
  Settled-unpaid p before made declined (payment, args, same, admitted, accepts, paid) = cc
  Settled-unpaid p before made failed (e, (payment, args, same, admitted, accepts, paid)) = cc
  Settled-unpaid p before made unprocessable h = h.2

  Stepped-unpaid :
      (oversized : Bool) (p : Option (Result ServerPayment (Unit {0})))
      (before made : List (Payment D)) (outcome : PaymentOutcome)
      → (if oversized
          then (outcome ≡ unprocessable) × (made ≡ before)
          else Settled D false none p before made outcome)
      → made ≡ before
  Stepped-unpaid true p before made outcome h = h.1
  Stepped-unpaid false p before made outcome h = Settled-unpaid p before made outcome h

  -- A receipt is of a message; where its payment is not safe, the legacy view shows the listed body
  -- and claims no authenticated decryption.
  pub record Previews (msg : ServerPeerMessage) (r : PaymentAwareServerPeerMessage) : Type 0 where
    pub id : r.message.message_id ≡ msg.message_id
    pub sender : r.message.sender ≡ msg.sender
    pub restored :
        payment_is_safe r.payment_outcome ≡ false
        → len msg.body ≤ 4_194_304
        → ((into_legacy_server_message r).body ≡ msg.body)
          × ((into_legacy_server_message r).authenticated_decrypt ≡ false)

  lite_receipt-Previews :
      (msg : ServerPeerMessage) (p : ProcessedMessageBody) (before log : List (Event D))
      → IsAccounted D false none msg.body before log p
      → Previews msg (lite_receipt D msg p)
  unfolding lite_receipt into_legacy_server_message
  lite_receipt-Previews msg p before log h = record {
    id = refl;
    sender = refl;
    restored = λ unsafe small. let e = h.1 in ground arith;
  }

  -- In every run of the loop of `list_messages_lite` no payment is made, and there is one receipt
  -- for each message, in their order, with its id and sender. Where the payment outcome is not safe
  -- and the body is at most 4 MiB, the listed message shows the whole body, and says that it was not
  -- decrypted with authentication.
  lite_receipts-Previews :
      (messages : List ServerPeerMessage) (log : List (Event D))
      → AllRuns
          (λ log' rs. (payments log' ≡ payments log) × All2 Previews messages rs)
          log
          (lite_receipts D messages)
  unfolding lite_receipts
  lite_receipts-Previews [] log = (refl, tt)
  lite_receipts-Previews (msg ∷ messages) log =
      AllRuns-bind (IsAccounted D false none msg.body log)
        (λ log' rs. (payments log' ≡ payments log) × All2 Previews (msg ∷ messages) rs) log
        (process_listed_body D msg.body msg.sender false none) _
        (process_listed_body-IsAccounted D none msg.body msg.sender false log)
        (λ log1 p h.
          AllRuns-bind (λ log' rs. (payments log' ≡ payments log1) × All2 Previews messages rs)
            (λ log' rs. (payments log' ≡ payments log) × All2 Previews (msg ∷ messages) rs) log1
            (lite_receipts D messages) _ (lite_receipts-Previews messages log1)
            (λ log2 rs (same, previews). (
              same
                  ∙ Stepped-unpaid (split_message_body D msg.body).oversized
                      (split_message_body D msg.body).payment (payments log) (payments log1)
                      p.payment_outcome h.0,
              (lite_receipt-Previews msg p log log1 h, previews),
            )))
