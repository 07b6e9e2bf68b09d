-- ===== src/HttpOps/Listing/Views.antt =====
-- What callers of the list operations of src/http_ops.rs get: one receipt for each listed message.
use rust_messagebox_client.Prelude.{
  ℕ, String, len, ◌≤◌, ◌≡◌, refl, Bool, false, Option, List, [], ◌∷◌, length, ◌=?◌, arith, ◌↔◌,
}
use rust_messagebox_client.Prelude.Maybe.{All2}
use rust_messagebox_client.Error.{ok}
use rust_messagebox_client.Types.{
  ServerPeerMessage, ListMessagesResponse, payment_is_safe, PaymentAwarePeerMessage,
}
use rust_messagebox_client.Deps.{Deps}
use rust_messagebox_client.Io.Runs.{Event, AllRuns, AllRuns-bind}
use rust_messagebox_client.HttpOps.Listing.{
  ProcessedMessageBody, into_legacy_peer_message, receipt, receipts, parse_bounded_list_response,
}
use rust_messagebox_client.HttpOps.Listing.Payments.{IsAccounted, process_listed_body-IsAccounted}

module _ (D : Deps) where
  -- A reply is accepted exactly when it is at most 32 MiB long, parses, and is no logical error.
  parse_bounded_list_response_iff :
      (body : List ℕ) (response : ListMessagesResponse)
      → (parse_bounded_list_response D body ≡ ok response) ↔ (
          (length body ≤ 33_554_432)
          × (D.list_messages_response body ≡ ok response)
          × ((response.status =? "error") ≡ false))
  unfolding parse_bounded_list_response
  parse_bounded_list_response_iff body response = ground arith

  module _ (identity_key message_box : String) (accept_payments : Bool)
      (originator : Option String) where
    -- A receipt is of a message: the addressing is the message's, and where the payment is not safe
    -- the legacy view of it shows the body as it was listed.
    pub record Receives (msg : ServerPeerMessage) (r : PaymentAwarePeerMessage) : Type 0 where
      pub id : r.message.message_id ≡ msg.message_id
      pub sender : r.message.sender ≡ msg.sender
      pub recipient : r.message.recipient ≡ identity_key
      pub box : r.message.message_box ≡ message_box
      pub restored :
          payment_is_safe r.payment_outcome ≡ false
          → len msg.body ≤ 4_194_304
          → (into_legacy_peer_message r).body ≡ msg.body

    receipt-Receives :
        (msg : ServerPeerMessage) (p : ProcessedMessageBody) (before log : List (Event D))
        → IsAccounted D accept_payments originator msg.body before log p
        → Receives msg (receipt D identity_key message_box accept_payments originator msg p)
    unfolding receipt into_legacy_peer_message
    receipt-Receives msg p before log h = record {
      id = refl;
      sender = refl;
      recipient = refl;
      box = refl;
      restored = λ unsafe small. let e = h.1 in ground arith;
    }

    -- In every run of the loop over a host's messages there is one receipt for each message, in
    -- their order, with the message's id and sender and the caller's key and box; and where the
    -- payment outcome is not safe and the body is at most 4 MiB, `list_messages` gives out the body
    -- as it was listed, the payment included.
    pub receipts-Receives :
        (messages : List ServerPeerMessage) (log : List (Event D))
        → AllRuns
            (λ _ rs. All2 Receives messages rs)
            log
            (receipts D identity_key message_box accept_payments originator messages)
    unfolding receipts
    receipts-Receives [] log = tt
    receipts-Receives (msg ∷ messages) log =
        AllRuns-bind _ _ log _ _
          (process_listed_body-IsAccounted D originator msg.body msg.sender accept_payments log)
          λ log' p h.
            AllRuns-bind _ _ log' _ _ (receipts-Receives messages log')
              λ log'' rs hs. (receipt-Receives msg p log log' h, hs)
