-- ===== src/HttpOps/Fees.antt =====
-- `create_message_payment` and `create_message_payment_batch_from_tuples` of src/http_ops.rs: the
-- transaction that pays the fees of a delivery, and what its recipients need to spend it.
pub mod Paid
pub mod Covers
pub mod Single
pub mod Batch
use rust_messagebox_client.Prelude.{
  ℕ, ◌+◌, ◌%◌, ◌^◌, String, ◌<>◌, Bool, true, false, not, ◌&&◌, Option, none, some, List, [], ◌∷◌,
  ◌++◌, map, length, ◌=?◌, unwrap_or,
}
use rust_messagebox_client.Prelude.Int.{ℤ, pos_part, is_positive}
use rust_messagebox_client.Error.{Result, ok, wallet, ok_or}
use rust_messagebox_client.Types.{MessagePayment, MessagePaymentOutput}
use rust_messagebox_client.Types.Permissions.{MessageBoxQuote}
use rust_messagebox_client.Deps.{Deps}
use rust_messagebox_client.Io.{
  KeyArgs, other, get_public_key, anyone_public_key, anyone_identity_key, random, create_action,
  CreateActionOutput, CreateActionArgs, Prog, Io, ret, perform, of_result, of_call, of_prog, ◌>>=◌,
}
use rust_messagebox_client.Session.{Client, get_identity_key}

module _ (D : Deps) where
  open D use {
    PublicKey, public_key_from_string, to_der_hex, to_hash, p2pkh_lock, script_to_hex, from_hex,
    base64_encode, as_bytes,
  }

  -- An output of the transaction, with what is told of it to the relay.
  abbrev pub FeeOutput : Type 0
  FeeOutput = CreateActionOutput D × MessagePaymentOutput

  abbrev pub fee_key : String → String → PublicKey → KeyArgs D
  fee_key prefix suffix counterparty = record {
    security_level = 2;
    protocol = "3241645161d8";
    key_id = prefix <> (" " <> suffix);
    counterparty = other (some counterparty);
  }

  -- The script that pays to a key.
  abbrev pub lock_to : PublicKey → Io D (List ℕ)
  lock_to key = do
    lock ← of_result (λ e. wallet ("P2PKH lock: " <> e)) (p2pkh_lock (to_hash key))
    of_result (λ e. wallet ("hex decode: " <> e)) (from_hex (script_to_hex lock))

  abbrev pub fee_output : String → String → List ℕ → ℕ → String → ℕ → String → FeeOutput
  fee_output prefix suffix lock_bytes satoshis output_description output_index sender = (
    record {
      locking_script = lock_bytes;
      satoshis = satoshis;
      output_description = output_description;
      basket = none;
      custom_instructions = none;
    },
    record {
      output_index = output_index;
      derivation_prefix = as_bytes prefix;
      derivation_suffix = as_bytes suffix;
      sender_identity_key = sender;
    },
  )

  -- Nonces, a key derived for them and its script: the step that the four fees share. They differ in
  -- the wallet that derives, in the texts, and in when the sender's key is known.
  abbrev pub make_fee :
      (KeyArgs D → Prog D (Result PublicKey String))
      → String
      → String
      → ℕ
      → String
      → ℕ
      → Io D String
      → Io D FeeOutput
  make_fee derive what counterparty satoshis output_description output_index sender = do
    prefix_bytes ← of_prog (perform (random 32))
    suffix_bytes ← of_prog (perform (random 32))
    let prefix = base64_encode prefix_bytes
    let suffix = base64_encode suffix_bytes
    pk ← of_result (λ e. wallet (what <> e)) (public_key_from_string counterparty)
    key ← of_call wallet (derive (fee_key prefix suffix pk))
    lock_bytes ← lock_to key
    sender_identity_key ← sender
    ret (
        ok (
          fee_output prefix suffix lock_bytes satoshis output_description output_index
            sender_identity_key))

  -- `if fee > 0 { outputs.push(…); payment_outputs.push(…) }`
  abbrev pub pushed_if : Bool → Io D FeeOutput → Io D (List FeeOutput)
  pushed_if false make = ret (ok [])
  pushed_if true make = do output ← make; ret (ok (output ∷ []))

  abbrev pub anyone_sender : Io D String
  anyone_sender = do
    anyone_id ← of_call wallet (perform anyone_identity_key)
    ret (ok (to_der_hex anyone_id))

  abbrev pub payment_args : String → List FeeOutput → CreateActionArgs D
  payment_args desc outputs = record {
    description = desc;
    input_beef = none;
    inputs = [];
    outputs = map (λ (o : FeeOutput). o.0) outputs;
    labels = "messagebox" ∷ [];
    randomize_outputs = some false;
    accept_delayed_broadcast = none;
  }

  abbrev pub payment_of : List ℕ → List FeeOutput → MessagePayment
  payment_of tx outputs = record { tx = tx; outputs = map (λ (o : FeeOutput). o.1) outputs }

  module _ (client : Client) where
    -- The wallet makes the transaction.
    unfoldable pub pay : String → List FeeOutput → Io D MessagePayment
    pay desc outputs = do
      created ←
          of_call wallet (perform (create_action (payment_args desc outputs) client.originator))
      tx ← ret (ok_or (wallet "create_action returned no tx") created.tx)
      ret (ok (payment_of tx outputs))

    abbrev pub own_key : KeyArgs D → Prog D (Result PublicKey String)
    own_key args = perform (get_public_key args client.originator)

    abbrev pub anyone_key : KeyArgs D → Prog D (Result PublicKey String)
    anyone_key args = perform (anyone_public_key args)

    abbrev pub delivery_fee_output : MessageBoxQuote → String → Io D (List FeeOutput)
    delivery_fee_output quote sender_identity_key = pushed_if (is_positive quote.delivery_fee) (
        make_fee own_key "agent key: " quote.delivery_agent_identity_key
          (pos_part quote.delivery_fee) "MessageBox server delivery fee" 0
          (ret (ok sender_identity_key)))

    abbrev pub recipient_fee_output : String → MessageBoxQuote → ℕ → Io D (List FeeOutput)
    recipient_fee_output recipient quote output_index =
        pushed_if (is_positive quote.recipient_fee) (
          make_fee anyone_key "recipient key: " recipient (pos_part quote.recipient_fee)
            "Recipient message fee" output_index anyone_sender)

    unfoldable pub create_message_payment :
        String → MessageBoxQuote → Option String → Io D MessagePayment
    create_message_payment recipient quote description = do
      sender_identity_key ← get_identity_key D client
      delivery ← delivery_fee_output quote sender_identity_key
      recipient_fee ← recipient_fee_output recipient quote (length delivery % 2 ^ 32)
      pay (unwrap_or description "MessageBox delivery fee") (delivery ++ recipient_fee)

    -- A recipient with its delivery fee, its recipient fee and the key of its host's agent.
    abbrev pub FeeTuple : Type 0
    FeeTuple = String × ℤ × ℤ × String

    module _ (sender_identity_key anyone_id_hex : String) where
      abbrev pub batch_delivery : FeeTuple → ℕ → Io D (List FeeOutput)
      batch_delivery (recipient, delivery_fee, recipient_fee, agent_key) output_index =
          pushed_if (is_positive delivery_fee && not (agent_key =? "")) (
            make_fee own_key "agent key: " agent_key (pos_part delivery_fee)
              ("Delivery fee for " <> recipient) (output_index % 2 ^ 32)
              (ret (ok sender_identity_key)))

      abbrev pub batch_recipient : FeeTuple → ℕ → Io D (List FeeOutput)
      batch_recipient (recipient, delivery_fee, recipient_fee, agent_key) output_index =
          pushed_if (is_positive recipient_fee) (
            make_fee anyone_key "recipient key: " recipient (pos_part recipient_fee)
              ("Recipient fee for " <> recipient) (output_index % 2 ^ 32) (ret (ok anyone_id_hex)))

      -- The loop over the tuples, with the outputs made so far.
      unfoldable pub batch_outputs : List FeeTuple → List FeeOutput → Io D (List FeeOutput)
      batch_outputs [] outputs = ret (ok outputs)
      batch_outputs (tuple ∷ tuples) outputs = do
        delivery ← batch_delivery tuple (length outputs)
        recipient_fee ← batch_recipient tuple (length (outputs ++ delivery))
        batch_outputs tuples ((outputs ++ delivery) ++ recipient_fee)

    abbrev pub pay_unless_empty : String → List FeeOutput → Io D MessagePayment
    pay_unless_empty desc [] = ret (ok (record { tx = []; outputs = [] }))
    pay_unless_empty desc (output ∷ outputs) = pay desc (output ∷ outputs)

    unfoldable pub create_message_payment_batch_from_tuples :
        List FeeTuple → Option String → Io D MessagePayment
    create_message_payment_batch_from_tuples tuples description = do
      sender_identity_key ← get_identity_key D client
      anyone_id_hex ← anyone_sender
      outputs ← batch_outputs sender_identity_key anyone_id_hex tuples []
      pay_unless_empty (unwrap_or description "MessageBox batch delivery fee") outputs
