-- ===== src/PeerPay.antt =====
-- src/peer_pay.rs. The wallet's calls are programs; the acknowledgement and the refund are
-- arguments, as they are closures in the source.
pub mod Payments
pub mod Notification
pub mod Order
pub mod Queued
use rust_messagebox_client.Prelude.{
  ℕ, ◌-◌, String, ◌<>◌, Bool, true, false, Option, none, some, List, [], ◌∷◌, ltb, unwrap_or,
  if◌then◌else◌,
}
use rust_messagebox_client.Error.{Result, ok, err, Fallible, MessageBoxError, wallet, json}
use rust_messagebox_client.Types.{PeerMessage, PaymentToken, IncomingPayment}
use rust_messagebox_client.Deps.{Deps}
use rust_messagebox_client.Io.{
  InternalizeOutput, wallet_payment, InternalizeActionArgs, internalize_action, Io, ret, perform,
  of_result, of_call, ◌>>=◌, ◌>>◌,
}
use rust_messagebox_client.PeerPay.Notification.{notification_payment_value, notification_args}

module _ (D : Deps) where
  open D use {PublicKey, public_key_from_string, base64_decode, payment_token, notification_payment}

  abbrev pub peerpay_args : IncomingPayment → PublicKey → List ℕ → List ℕ → InternalizeActionArgs D
  peerpay_args payment sender_pk prefix_bytes suffix_bytes = record {
    tx = payment.token.transaction;
    description = "PeerPay Payment";
    labels = "peerpay" ∷ [];
    seek_permission = true;
    outputs =
        wallet_payment (unwrap_or payment.token.output_index 0) prefix_bytes suffix_bytes sender_pk
        ∷ [];
  }

  -- `if !result.accepted { return Err(Wallet(message)) }`
  abbrev pub require_accepted : String → Bool → Io D (Unit {0})
  require_accepted message true = ret (ok tt)
  require_accepted message false = ret (err (wallet message))

  module _ (originator : Option String) where
    unfoldable pub internalize_payment : IncomingPayment → Io D (Unit {0})
    internalize_payment payment = do
      sender_pk ←
          of_result (λ e. wallet ("invalid sender key: " <> e))
            (public_key_from_string payment.sender)
      prefix_bytes ←
          of_result (λ e. wallet ("base64 decode prefix: " <> e))
            (base64_decode payment.token.custom_instructions.derivation_prefix)
      suffix_bytes ←
          of_result (λ e. wallet ("base64 decode suffix: " <> e))
            (base64_decode payment.token.custom_instructions.derivation_suffix)
      accepted ← of_call wallet (
          perform (
            internalize_action (peerpay_args payment sender_pk prefix_bytes suffix_bytes)
              originator))
      require_accepted "wallet did not accept the payment" accepted

    unfoldable pub accept_payment_with_ack : IncomingPayment → Io D (Unit {0}) → Io D (Unit {0})
    accept_payment_with_ack payment acknowledge = do internalize_payment payment; acknowledge

    unfoldable pub reject_payment_with :
        IncomingPayment → (ℕ → Io D (Unit {0})) → Io D (Unit {0}) → Io D (Unit {0})
    reject_payment_with payment refund acknowledge =
        if ltb payment.token.amount 2000
        then acknowledge
        else (do internalize_payment payment; refund (payment.token.amount - 1000); acknowledge)

    abbrev pub notification_step :
        Fallible (Option (InternalizeActionArgs D)) → Io D (Unit {0}) → Io D Bool
    notification_step (err e) acknowledge = ret (err e)
    notification_step (ok none) acknowledge = ret (ok false)
    notification_step (ok (some args)) acknowledge = do
      accepted ← of_call wallet (perform (internalize_action args originator))
      require_accepted "wallet did not accept the notification payment" accepted
      acknowledge
      ret (ok true)

    abbrev pub value_step : Option D.Value → Io D (Unit {0}) → Io D Bool
    value_step none acknowledge = do acknowledge; ret (ok false)
    value_step (some payment_value) acknowledge = do
      payment ← of_result json (notification_payment payment_value)
      notification_step (notification_args D payment) acknowledge

    unfoldable pub acknowledge_notification_with_ack : PeerMessage → Io D (Unit {0}) → Io D Bool
    acknowledge_notification_with_ack message acknowledge =
        value_step (notification_payment_value D message.body) acknowledge

  -- The `filter_map` of `list_incoming_payments`.
  unfoldable pub incoming_payments : List PeerMessage → List IncomingPayment
  incoming_payments [] = []
  incoming_payments (msg ∷ messages) =
      let rest = incoming_payments messages in
      elim (payment_token msg.body) [
        | err _ ↦ rest
        | ok token ↦
            record { token = token; sender = msg.sender; message_id = msg.message_id } ∷ rest
      ]
