-- ===== src/HttpOps/Listing.antt =====
-- The list operations of src/http_ops.rs: the bounded reply of `/listMessages`, the payment and the
-- decryption of each listed body, and the views that callers get.
pub mod Payments
pub mod Views
pub mod Firsts
pub mod Lite
use mathlib.Core.Option
use rust_messagebox_client.Prelude.{
  ℕ, ◌*◌, String, ◌≡◌, refl, Bool, true, false, not, Option, none, some, List, [], ◌∷◌, length, ltb,
  ◌=?◌, unwrap_or, contains, if◌then◌else◌,
}
use rust_messagebox_client.Error.{Result, ok, err, Fallible, auth, json, validation}
use rust_messagebox_client.Types.{
  PeerMessage, ServerPeerMessage, ListMessagesResponse, ServerPayment, PaymentOutcome, no_payment,
  internalized, skipped, declined, failed, unprocessable, payment_is_safe, PaymentAwarePeerMessage,
  PaymentAwareServerPeerMessage,
}
use rust_messagebox_client.Deps.{Deps}
use rust_messagebox_client.Io.{Prog, ret, bind, perform, internalize_action, InternalizeActionArgs}
use rust_messagebox_client.Encryption.{
  DecryptOutcome, into_body, is_authenticated, try_decrypt_message_typed,
}
use rust_messagebox_client.HttpOps.Split.{SplitMessageBody, split_message_body}
use rust_messagebox_client.HttpOps.Internalize.{build_internalize_args}

abbrev pub max_list_response_bytes : ℕ
max_list_response_bytes = 32 * 1024 * 1024

pub record ProcessedMessageBody : Type 0 where
  pub inner_body : String
  pub authenticated_decrypt : Bool
  pub payment_outcome : PaymentOutcome
  pub raw_payment_envelope : Option String

unfoldable pub into_legacy_peer_message : PaymentAwarePeerMessage → PeerMessage
into_legacy_peer_message receipt =
    if payment_is_safe receipt.payment_outcome
    then receipt.message
    else elim receipt.raw_payment_envelope [
      | none ↦ receipt.message
      | some raw_envelope ↦ record receipt.message { body = raw_envelope }
    ]

unfoldable pub into_legacy_server_message : PaymentAwareServerPeerMessage → ServerPeerMessage
into_legacy_server_message receipt =
    if payment_is_safe receipt.payment_outcome
    then receipt.message
    else elim receipt.raw_payment_envelope [
      | none ↦ receipt.message
      | some raw_envelope ↦ record receipt.message {
        body = raw_envelope;
        authenticated_decrypt = false;
      }
    ]

-- The `filter` of `list_messages_detailed`, with the ids in `seen` already inserted.
unfoldable pub unseen : List String → List PaymentAwarePeerMessage → List PaymentAwarePeerMessage
unseen seen [] = []
unseen seen (receipt ∷ receipts) =
    let id = receipt.message.message_id in
    let rest = unseen (id ∷ seen) receipts in
    let skip = unseen seen receipts in if contains seen id then skip else receipt ∷ rest

module _ (D : Deps) where
  open D use {Value, as_str, list_messages_response, list_status_projection}

  unfoldable pub list_error_description : List ℕ → Option String
  list_error_description body = elim (list_status_projection body) [
    | err _ ↦ none
    | ok (none, description) ↦ none
    | ok (some status, description) ↦
        if status =? "error"
        then some (unwrap_or (Option.bind description as_str) "unknown error")
        else none
  ]

  unfoldable pub parse_bounded_list_response : List ℕ → Fallible ListMessagesResponse
  parse_bounded_list_response body =
      if ltb max_list_response_bytes (length body)
      then err (validation "listMessages response exceeds the 32 MiB page limit")
      else elim (list_messages_response body) [
        | ok response ↦
            if not (response.status =? "error")
            then ok response
            else err (auth (unwrap_or (list_error_description body) "unknown error"))
        | err parse_error ↦ elim (list_error_description body) [
          | some description ↦ err (auth description)
          | none ↦ err (json parse_error)
        ]
      ]

  abbrev verdict : Result Bool String → PaymentOutcome
  verdict (ok true) = internalized
  verdict (ok false) = declined
  verdict (err _) = failed

  abbrev pub internalize : Option (InternalizeActionArgs D) → Option String → Prog D PaymentOutcome
  internalize none originator = ret unprocessable
  internalize (some args) originator =
      bind (perform (internalize_action args originator)) (λ r. ret (verdict r))

  -- The payment of a body that is not oversized.
  unfoldable pub settle :
      Option (Result ServerPayment (Unit {0})) → Bool → Option String → Prog D PaymentOutcome
  settle none accept_payments originator = ret no_payment
  settle (some _) false originator = ret skipped
  settle (some (err _)) true originator = ret unprocessable
  settle (some (ok payment)) true originator =
      internalize (build_internalize_args D payment) originator

  unfoldable pub payment_step : SplitMessageBody → Bool → Option String → Prog D PaymentOutcome
  payment_step split accept_payments originator =
      if split.oversized then ret unprocessable else settle split.payment accept_payments originator

  unfoldable pub processed :
      SplitMessageBody → PaymentOutcome → DecryptOutcome → ProcessedMessageBody
  processed split payment_outcome decrypt_outcome = record {
    inner_body = into_body decrypt_outcome;
    authenticated_decrypt = is_authenticated decrypt_outcome;
    payment_outcome = payment_outcome;
    raw_payment_envelope =
        if payment_is_safe payment_outcome then none else split.raw_payment_envelope;
  }

  unfoldable pub process_listed_body :
      String → String → Bool → Option String → Prog D ProcessedMessageBody
  process_listed_body raw_body sender accept_payments originator =
      let split = split_message_body D raw_body in
      bind (payment_step split accept_payments originator) λ payment_outcome.
        bind (try_decrypt_message_typed D split.inner_body sender originator)
          λ decrypt_outcome. ret (processed split payment_outcome decrypt_outcome)

  module _ (identity_key message_box : String) (accept_payments : Bool)
      (originator : Option String) where
    unfoldable pub receipt : ServerPeerMessage → ProcessedMessageBody → PaymentAwarePeerMessage
    receipt msg p = record {
      message = record {
        message_id = msg.message_id;
        sender = msg.sender;
        recipient = identity_key;
        message_box = message_box;
        body = p.inner_body;
      };
      payment_outcome = p.payment_outcome;
      raw_payment_envelope = p.raw_payment_envelope;
    }

    -- The loop of `list_messages_detailed_from_host`.
    unfoldable pub receipts : List ServerPeerMessage → Prog D (List PaymentAwarePeerMessage)
    receipts [] = ret []
    receipts (msg ∷ messages) =
        bind (process_listed_body msg.body msg.sender accept_payments originator)
          λ p. bind (receipts messages) λ rest. ret (receipt msg p ∷ rest)

  unfoldable pub lite_receipt :
      ServerPeerMessage → ProcessedMessageBody → PaymentAwareServerPeerMessage
  lite_receipt message p = record {
    message = record message {
      body = p.inner_body;
      authenticated_decrypt = p.authenticated_decrypt;
    };
    payment_outcome = p.payment_outcome;
    raw_payment_envelope = p.raw_payment_envelope;
  }

  -- The loop of `list_messages_lite_detailed`.
  unfoldable pub lite_receipts :
      List ServerPeerMessage → Prog D (List PaymentAwareServerPeerMessage)
  lite_receipts [] = ret []
  lite_receipts (message ∷ messages) =
      bind (process_listed_body message.body message.sender false none)
        λ p. bind (lite_receipts messages) λ rest. ret (lite_receipt message p ∷ rest)
