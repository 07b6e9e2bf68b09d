-- ===== src/HttpOps/Split.antt =====
-- `split_message_body` of src/http_ops.rs: the inner message and the payment of a listed body.
use rust_messagebox_client.Prelude.{
  ℕ, ◌*◌, String, len, ◌≡◌, Bool, true, false, Option, none, some, arith, ltb, is_some, unwrap_or,
  if◌then◌else◌,
}
use rust_messagebox_client.Error.{Result, ok, err, map_err}
use rust_messagebox_client.Types.{ServerPayment}
use rust_messagebox_client.Deps.{Deps}

abbrev pub max_list_message_body_bytes : ℕ
max_list_message_body_bytes = 4 * 1024 * 1024

abbrev pub oversized_message_body : String
oversized_message_body = "[Message body exceeds the 4 MiB processing limit]"

pub record SplitMessageBody : Type 0 where
  pub inner_body : String
  pub payment : Option (Result ServerPayment (Unit {0}))
  pub raw_payment_envelope : Option String
  pub oversized : Bool

abbrev without_payment : String → SplitMessageBody
without_payment inner_body = record {
  inner_body = inner_body;
  payment = none;
  raw_payment_envelope = none;
  oversized = false;
}

module _ (D : Deps) where
  open D use {Value, from_str, value_to_string, get, as_str, is_object, is_null, server_payment}

  abbrev pub message_text : String → Value → String
  message_text raw_body value = elim (get value "message") [
    | none ↦ raw_body
    | some message ↦ unwrap_or (as_str message) (value_to_string message)
  ]

  -- `object.remove("payment").filter(|value| !value.is_null())`
  abbrev pub payment_member : Value → Option Value
  payment_member value = elim (get value "payment") [
    | none ↦ none
    | some payment ↦ if is_null payment then none else some payment
  ]

  unfoldable pub split_object : String → Value → SplitMessageBody
  split_object raw_body value = elim (payment_member value) [
    | none ↦ without_payment (message_text raw_body value)
    | some payment ↦ record {
      inner_body = message_text raw_body value;
      payment = some (map_err (λ _. tt) (server_payment payment));
      raw_payment_envelope = some raw_body;
      oversized = false;
    }
  ]

  unfoldable pub split_message_body : String → SplitMessageBody
  unfolding split_object
  split_message_body raw_body =
      if ltb max_list_message_body_bytes (len raw_body)
      then record {
        inner_body = oversized_message_body;
        payment = none;
        raw_payment_envelope = none;
        oversized = true;
      }
      else elim (from_str raw_body) [
        | err _ ↦ without_payment raw_body
        | ok value ↦
            if is_object value then split_object raw_body value else without_payment raw_body
      ]

  abbrev NoObject : Result Value String → Type 0
  NoObject (err _) = Unit
  NoObject (ok value) = is_object value ≡ false

  pub record IsExact (raw_body : String) (s : SplitMessageBody) : Type 0 where
    pub bounded : s.oversized ≡ ltb max_list_message_body_bytes (len raw_body)
    pub exact : s.raw_payment_envelope ≡ (if is_some s.payment then some raw_body else none)
    pub unpaid : s.oversized ≡ true → s.payment ≡ none
    pub verbatim :
        s.oversized ≡ false
        → NoObject (from_str raw_body)
        → (s.inner_body ≡ raw_body) × (s.payment ≡ none)

  -- For every body: it counts as oversized exactly when it is longer than 4 MiB, and then there is
  -- no payment; an envelope is kept exactly when there is a payment, and it is the body itself; and
  -- a body of at most 4 MiB that is no JSON object is its own inner message, with no payment.
  pub split_message_body-IsExact :
      (raw_body : String) → IsExact raw_body (split_message_body raw_body)
  unfolding split_message_body
  split_message_body-IsExact raw_body = ground arith
