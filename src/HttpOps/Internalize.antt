-- ===== src/HttpOps/Internalize.antt =====
-- `build_internalize_args` of src/http_ops.rs: which recipient-fee payments reach the wallet.
pub mod Outputs
pub mod Admits
use text.Mathlib.Text.{starts_with}
use rust_messagebox_client.Prelude.{
  ℕ, ◌*◌, ◌<◌, ◌≤◌, String, len, ◌≡◌, refl, Bool, true, false, not, ◌&&◌, ◌||◌, Option, none, some,
  List, [], ◌∷◌, length, is_empty, arith, ltb, leb, ◌==◌, ◌=?◌, is_some, unwrap_or, if◌then◌else◌,
}
use rust_messagebox_client.Prelude.Text.{trim, any_char, all_chars, is_control, is_hexdigit}
use rust_messagebox_client.Prelude.Maybe.{◌>>=◌, ◌>>◌, reject_if, traverse}
use rust_messagebox_client.Error.{to_option}
use rust_messagebox_client.Types.{ServerPayment, ServerPaymentOutput}
use rust_messagebox_client.Deps.{Deps}
use rust_messagebox_client.Io.{
  InternalizeOutput, wallet_payment, basket_insertion, InternalizeActionArgs,
}

abbrev pub max_payment_tx_bytes : ℕ
max_payment_tx_bytes = 32 * 1024 * 1024

abbrev pub max_payment_outputs : ℕ
max_payment_outputs = 101

abbrev pub max_payment_description_bytes : ℕ
max_payment_description_bytes = 50

abbrev pub max_derivation_bytes : ℕ
max_derivation_bytes = 32

abbrev pub max_derivation_base64_bytes : ℕ
max_derivation_base64_bytes = 44

abbrev pub max_basket_field_bytes : ℕ
max_basket_field_bytes = 300

abbrev pub max_custom_instructions_bytes : ℕ
max_custom_instructions_bytes = 1000

abbrev pub max_basket_tags : ℕ
max_basket_tags = 10_000

-- The test on a description that is there; `acknowledge_notification` makes it too.
unfoldable pub is_bad_description : String → Bool
is_bad_description description =
    len description == 0
    || not (trim description =? description)
    || ltb max_payment_description_bytes (len description)
    || any_char is_control description

unfoldable pub valid_payment_description : Option String → Option String
valid_payment_description description = do
  let text = unwrap_or description "MessageBox recipient payment"
  reject_if (is_bad_description text)
  some text

-- The test on an identity key; `acknowledge_notification` makes it too.
unfoldable pub is_bad_sender_key : String → Bool
is_bad_sender_key key =
    not (len key == 66)
    || (not (starts_with key "02") && not (starts_with key "03"))
    || not (all_chars is_hexdigit key)

module _ (D : Deps) where
  open D use {PublicKey, public_key_from_string, base64_decode, to_lowercase}

  unfoldable pub normalized_basket_field : String → Option String
  normalized_basket_field value = do
    let normalized = to_lowercase (trim value)
    reject_if (len normalized == 0 || ltb max_basket_field_bytes (len normalized))
    some normalized

  unfoldable pub build_wallet_payment : ℕ → ServerPaymentOutput → Option (InternalizeOutput D)
  build_wallet_payment output_index output = do
    reject_if (is_some output.insertion_remittance)
    remittance ← output.payment_remittance
    raw_prefix ← remittance.derivation_prefix
    raw_suffix ← remittance.derivation_suffix
    let prefix = trim raw_prefix
    let suffix = trim raw_suffix
    reject_if (
        len prefix == 0
        || len suffix == 0
        || ltb max_derivation_base64_bytes (len prefix)
        || ltb max_derivation_base64_bytes (len suffix))
    derivation_prefix ← to_option (base64_decode prefix)
    derivation_suffix ← to_option (base64_decode suffix)
    reject_if (
        is_empty derivation_prefix
        || is_empty derivation_suffix
        || ltb max_derivation_bytes (length derivation_prefix)
        || ltb max_derivation_bytes (length derivation_suffix))
    sender_identity_key ← remittance.sender_identity_key
    reject_if (is_bad_sender_key sender_identity_key)
    key ← to_option (public_key_from_string sender_identity_key)
    some (wallet_payment output_index derivation_prefix derivation_suffix key)

  unfoldable pub build_basket_insertion : ℕ → ServerPaymentOutput → Option (InternalizeOutput D)
  build_basket_insertion output_index output = do
    reject_if (is_some output.payment_remittance)
    insertion ← output.insertion_remittance
    raw_basket ← insertion.basket
    basket ← normalized_basket_field raw_basket
    reject_if (elim insertion.custom_instructions [
      | none ↦ false
      | some value ↦ ltb max_custom_instructions_bytes (len value)
    ])
    let raw_tags = unwrap_or insertion.tags []
    reject_if (ltb max_basket_tags (length raw_tags))
    tags ← traverse normalized_basket_field raw_tags
    some (basket_insertion output_index basket insertion.custom_instructions tags)

  unfoldable pub build_output : ServerPaymentOutput → Option (InternalizeOutput D)
  build_output output = do
    output_index ← output.output_index
    protocol ← output.protocol
    if protocol =? "wallet payment"
        then build_wallet_payment output_index output
        else if protocol =? "basket insertion"
        then build_basket_insertion output_index output
        else none

  unfoldable pub build_internalize_args : ServerPayment → Option (InternalizeActionArgs D)
  build_internalize_args payment = do
    tx ← payment.tx
    reject_if (is_empty tx || ltb max_payment_tx_bytes (length tx))
    outputs ← payment.outputs
    reject_if (is_empty outputs || ltb max_payment_outputs (length outputs))
    description ← valid_payment_description payment.description
    internalize_outputs ← traverse build_output outputs
    some (record {
      tx = tx;
      description = description;
      labels = "server-delivery-fee" ∷ [];
      seek_permission = false;
      outputs = internalize_outputs;
    })
