-- ===== src/PeerPay/Payments.antt =====
-- The payments of src/peer_pay.rs: making a token, sending it, and the operations on received tokens
-- with their acknowledgements and refunds.
pub mod Pays
pub mod Sent
use rust_messagebox_client.Prelude.{ℕ, String, ◌<>◌, Bool, false, Option, none, some, List, [], ◌∷◌}
use rust_messagebox_client.Error.{ok, err, wallet, auth, json, ok_or}
use rust_messagebox_client.Types.{
  PeerMessage, PaymentToken, PaymentCustomInstructions, IncomingPayment,
}
use rust_messagebox_client.Deps.{Deps}
use rust_messagebox_client.Io.{
  CreateActionArgs, get_public_key, create_nonce, create_action, sign_action, Io, ret, perform,
  of_result, of_call, ◌>>=◌, ◌>>◌,
}
use rust_messagebox_client.Session.{Client}
use rust_messagebox_client.HttpOps.Fees.{fee_key}
use rust_messagebox_client.HttpOps.Outbox.{send_message}
use rust_messagebox_client.Delivery
use rust_messagebox_client.Client.Live.{send_live_message}
use rust_messagebox_client.Client.Listen.{listen_for_live_messages}
use rust_messagebox_client.HttpOps.Inbox.{list_messages, acknowledge_message}
use rust_messagebox_client.PeerPay.{
  accept_payment_with_ack, reject_payment_with, incoming_payments,
  acknowledge_notification_with_ack,
}

module _ (D : Deps) where
  open D use {
    PublicKey, public_key_from_string, to_hash, p2pkh_lock, script_to_hex, from_hex,
    custom_instructions_json, payment_token_json, payment_token,
  }

  abbrev pub instructions : String → String → String → PaymentCustomInstructions
  instructions prefix suffix recipient = record {
    derivation_prefix = prefix;
    derivation_suffix = suffix;
    payee = some recipient;
  }

  abbrev pub token_args : List ℕ → ℕ → String → CreateActionArgs D
  token_args locking_script_bytes amount custom_instructions = record {
    description = "PeerPay payment";
    input_beef = none;
    inputs = [];
    outputs =
        record {
          locking_script = locking_script_bytes;
          satoshis = amount;
          output_description = "Payment for PeerPay transaction";
          basket = none;
          custom_instructions = some custom_instructions;
        }
        ∷ [];
    labels = "peerpay" ∷ [];
    randomize_outputs = some false;
    accept_delayed_broadcast = none;
  }

  -- The script that pays to a key.
  abbrev pub token_lock : PublicKey → Io D (List ℕ)
  token_lock key = do
    lock_script ← of_result (λ e. wallet ("P2PKH lock error: " <> e)) (p2pkh_lock (to_hash key))
    of_result (λ e. wallet ("hex decode locking script: " <> e))
        (from_hex (script_to_hex lock_script))

  -- What `listen_for_live_payments` hands to its callback of a message, if anything.
  unfoldable pub live_payment : PeerMessage → Option IncomingPayment
  live_payment msg = elim (payment_token msg.body) [
    | err _ ↦ none
    | ok token ↦ some (record { token = token; sender = msg.sender; message_id = msg.message_id })
  ]

  module _ (client : Client) where
    -- The transaction that the wallet made, or the one that it signs in a second step.
    abbrev pub finished : Option (List ℕ) → Option (List ℕ × List ℕ) → Io D (List ℕ)
    finished (some tx_bytes) signable = ret (ok tx_bytes)
    finished none (some (reference, _)) = do
      tx ← of_call wallet (perform (sign_action reference [] client.originator))
      ret (ok_or (wallet "sign_action returned no tx") tx)
    finished none none =
        ret (err (wallet "create_action returned neither tx nor signable_transaction"))

    -- From the key that was derived for the recipient on.
    abbrev pub pay_to : String → ℕ → String → String → PublicKey → Io D PaymentToken
    pay_to recipient amount prefix suffix key = do
      locking_script_bytes ← token_lock key
      custom ← of_result json (custom_instructions_json (instructions prefix suffix recipient))
      created ← of_call wallet (
          perform (create_action (token_args locking_script_bytes amount custom) client.originator))
      tx ← finished created.tx created.signable_transaction
      ret (
          ok (record {
            custom_instructions = instructions prefix suffix recipient;
            transaction = tx;
            amount = amount;
            output_index = none;
          }))

    unfoldable pub create_payment_token : String → ℕ → Io D PaymentToken
    create_payment_token recipient amount = do
      prefix ← of_call (λ e. auth ("create_nonce prefix: " <> e)) (perform create_nonce)
      suffix ← of_call (λ e. auth ("create_nonce suffix: " <> e)) (perform create_nonce)
      recipient_pk ← of_result wallet (public_key_from_string recipient)
      key ←
          of_call wallet
            (perform (get_public_key (fee_key D prefix suffix recipient_pk) client.originator))
      pay_to recipient amount prefix suffix key

    unfoldable pub send_payment : String → ℕ → Io D String
    send_payment recipient amount = do
      token ← create_payment_token recipient amount
      token_json ← of_result json (payment_token_json token)
      send_message D client recipient "payment_inbox" token_json false false none none

    unfoldable pub send_live_payment : String → ℕ → Io D String
    send_live_payment recipient amount = do
      token ← create_payment_token recipient amount
      token_json ← of_result json (payment_token_json token)
      delivery ←
          send_live_message D client recipient "payment_inbox" token_json false false none none
      ret (ok (Delivery.message_id delivery))

    unfoldable pub accept_payment : IncomingPayment → Io D (Unit {0})
    accept_payment payment =
        accept_payment_with_ack D client.originator payment
          (acknowledge_message D client (payment.message_id ∷ []) none)

    unfoldable pub reject_payment : IncomingPayment → Io D (Unit {0})
    reject_payment payment =
        reject_payment_with D client.originator payment
          (λ amount. do send_payment payment.sender amount; ret (ok tt))
          (acknowledge_message D client (payment.message_id ∷ []) none)

    unfoldable pub list_incoming_payments : Io D (List IncomingPayment)
    list_incoming_payments = do
      messages ← list_messages D client "payment_inbox" false none
      ret (ok (incoming_payments D messages))

    unfoldable pub acknowledge_notification : PeerMessage → Io D Bool
    acknowledge_notification message =
        acknowledge_notification_with_ack D client.originator message
          (acknowledge_message D client (message.message_id ∷ []) none)

    -- The callback gets what `live_payment` makes of a message.
    unfoldable pub listen_for_live_payments : Io D (Unit {0})
    listen_for_live_payments = listen_for_live_messages D client "payment_inbox" none
