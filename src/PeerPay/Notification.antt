-- ===== src/PeerPay/Notification.antt =====
-- The pure part of `acknowledge_notification_with_ack` of src/peer_pay.rs: the payment in a
-- notification's body, and what the wallet is asked to internalize for it.
pub mod Admits
pub mod Outputs
use rust_messagebox_client.Prelude.{
  ℕ, ◌*◌, ◌<◌, ◌≤◌, String, ◌<>◌, len, ◌≡◌, refl, Bool, true, false, not, ◌&&◌, ◌||◌, Option, none,
  some, List, [], ◌∷◌, length, any, is_empty, arith, ltb, leb, ◌==◌, ◌=?◌, is_some, unwrap_or,
  if◌then◌else◌,
}
use rust_messagebox_client.Prelude.Text.{trim}
use rust_messagebox_client.Error.{Result, ok, err, Fallible, validation, json, ok_or, map_err}
use rust_messagebox_client.Error.Try.{◌>>=◌, ◌>>◌, fail_if}
use rust_messagebox_client.Types.{
  NotificationPayment, NotificationPaymentOutput, NotificationOutputProtocol, missing,
  explicit_null, value,
}
use rust_messagebox_client.Deps.{Deps}
use rust_messagebox_client.Io.{InternalizeOutput, wallet_payment, InternalizeActionArgs}
use rust_messagebox_client.HttpOps.Split.{payment_member}
use rust_messagebox_client.HttpOps.Internalize.{is_bad_description, is_bad_sender_key}

unfoldable pub is_wallet_payment_compatible : NotificationOutputProtocol → Bool
is_wallet_payment_compatible missing = true
is_wallet_payment_compatible (value protocol) = protocol =? "wallet payment"
is_wallet_payment_compatible explicit_null = false

unfoldable pub unsupported_label : NotificationOutputProtocol → Option String
unsupported_label explicit_null = some "null"
unsupported_label (value protocol) = if protocol =? "wallet payment" then none else some protocol
unsupported_label missing = none

-- `outputs.iter().find_map(|output| output.protocol.unsupported_label())`
unfoldable pub first_unsupported : List NotificationPaymentOutput → Option String
first_unsupported [] = none
first_unsupported (o ∷ os) = elim (unsupported_label o.protocol) [
  | some label ↦ some label
  | none ↦ first_unsupported os
]

abbrev pub compatible : NotificationPaymentOutput → Bool
compatible o = is_wallet_payment_compatible o.protocol

abbrev pub invalid_description : String
invalid_description =
    "notification payment description must be nonempty, already trimmed, at most 50 UTF-8 bytes, and contain no C0/C1 controls"

unfoldable pub notification_description : Option String → Fallible String
notification_description none = ok "MessageBox recipient payment"
notification_description (some description) = do
  fail_if (is_bad_description description) (validation invalid_description)
  ok description

abbrev mixes : String → String
mixes protocol =
    "notification payment mixes wallet-payment outputs with unsupported protocol `" <> protocol
    <> "`"

-- Payment outputs beside outputs of another protocol are an error.
unfoldable pub check_mixture : List NotificationPaymentOutput → Fallible (Unit {0})
check_mixture outputs =
    if any compatible outputs
    then elim (first_unsupported outputs) [
      | some protocol ↦ err (validation (mixes protocol))
      | none ↦ ok tt
    ]
    else ok tt

module _ (D : Deps) where
  open D use {
    PublicKey, public_key_from_string, base64_decode, Value, from_str, get, is_object,
    notification_payment,
  }

  -- The non-null `payment` of a body that is an object with a `message`.
  unfoldable pub notification_payment_value : String → Option Value
  notification_payment_value raw_body = elim (from_str raw_body) [
    | err _ ↦ none
    | ok body ↦
        if is_object body && is_some (get body "message") then payment_member D body else none
  ]

  unfoldable pub build_notification_output :
      NotificationPaymentOutput → Fallible (InternalizeOutput D)
  build_notification_output o = do
    output_index ←
        ok_or (validation "notification payment output is missing outputIndex") o.output_index
    remittance ←
        ok_or (validation "notification wallet-payment output is missing paymentRemittance")
          o.payment_remittance
    raw_prefix ←
        ok_or (validation "notification paymentRemittance is missing derivationPrefix")
          remittance.derivation_prefix
    raw_suffix ←
        ok_or (validation "notification paymentRemittance is missing derivationSuffix")
          remittance.derivation_suffix
    let prefix = trim raw_prefix
    fail_if (len prefix == 0) (validation "notification derivationPrefix must not be empty")
    let suffix = trim raw_suffix
    fail_if (len suffix == 0) (validation "notification derivationSuffix must not be empty")
    derivation_prefix ←
        map_err (λ e. validation ("invalid notification derivationPrefix base64: " <> e))
          (base64_decode prefix)
    derivation_suffix ←
        map_err (λ e. validation ("invalid notification derivationSuffix base64: " <> e))
          (base64_decode suffix)
    sender_identity_key ←
        ok_or (validation "notification paymentRemittance is missing senderIdentityKey")
          remittance.sender_identity_key
    fail_if (is_bad_sender_key sender_identity_key) (
        validation
          "notification senderIdentityKey must be exactly 66 ASCII hex characters with prefix 02 or 03")
    sender_pk ←
        map_err (λ e. validation ("invalid notification senderIdentityKey point: " <> e))
          (public_key_from_string sender_identity_key)
    ok (wallet_payment output_index derivation_prefix derivation_suffix sender_pk)

  -- The loop passes over outputs of other protocols.
  unfoldable pub build_notification_outputs :
      List NotificationPaymentOutput → Fallible (List (InternalizeOutput D))
  build_notification_outputs [] = ok []
  build_notification_outputs (o ∷ os) =
      let rest = build_notification_outputs os in
      if compatible o then (do x ← build_notification_output o; xs ← rest; ok (x ∷ xs)) else rest

  -- Up to the wallet's call; `none` is the return of `Ok(false)`.
  unfoldable pub notification_args :
      NotificationPayment → Fallible (Option (InternalizeActionArgs D))
  notification_args payment = elim payment.tx [
    | none ↦ ok none
    | some tx ↦ elim payment.outputs [
      | none ↦ ok none
      | some outputs ↦ do
        fail_if (is_empty tx) (validation "notification payment transaction is empty")
        fail_if (ltb (32 * 1024 * 1024) (length tx))
            (validation "notification payment transaction exceeds 32 MiB")
        fail_if (ltb 101 (length outputs)) (validation "notification payment exceeds 101 outputs")
        description ← notification_description payment.description
        check_mixture outputs
        internalize_outputs ← build_notification_outputs outputs
        if is_empty internalize_outputs
            then ok none
            else ok (
                some (record {
                  tx = tx;
                  description = description;
                  labels = "notification-payment" ∷ [];
                  seek_permission = false;
                  outputs = internalize_outputs;
                }))
    ]
  ]
