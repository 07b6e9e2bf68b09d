-- ===== src/HttpOps/Outbox.antt =====
-- `send_message`, `send_message_to_host` with the fees that it pays, and
-- `send_message_to_recipients` of src/http_ops.rs; the notifications of src/permissions.rs.
pub mod Taken
pub mod Accounts
pub mod Stored
use rust_messagebox_client.Prelude.{
  ℕ, String, ◌<>◌, Bool, true, false, not, ◌&&◌, ◌||◌, Option, none, some, List, [], ◌∷◌, ◌++◌, map,
  length, any, select, ◌=?◌, unwrap_or, if◌then◌else◌,
}
use rust_messagebox_client.Prelude.Int.{ℤ, is_positive}
use rust_messagebox_client.Prelude.Decimal.{decimal}
use rust_messagebox_client.Prelude.Dict
use rust_messagebox_client.Prelude.Dict.{Dict}
use rust_messagebox_client.Error.{Result, ok, err, Fallible, MessageBoxError, display}
use rust_messagebox_client.Types.{MessagePayment}
use rust_messagebox_client.Types.Permissions.{MessageBoxQuote}
use rust_messagebox_client.Types.SendList.{
  SendListParams, SentRecipient, FailedRecipient, SendListTotals, SendListResult, RecipientQuote,
  MessageBoxMultiQuote,
}
use rust_messagebox_client.Deps.{Deps}
use rust_messagebox_client.Io.{Prog, Io, ret, bind, ◌>>=◌, ◌>>◌}
use rust_messagebox_client.Session.{Client}
use rust_messagebox_client.Session.Init.{assert_initialized}
use rust_messagebox_client.HostResolution.{resolve_host_for_recipient}
use rust_messagebox_client.Permissions.{get_message_box_quote}
use rust_messagebox_client.Permissions.Multi.{get_message_box_quote_multi, host_for}
use rust_messagebox_client.HttpOps.Fees.{
  FeeTuple, create_message_payment, create_message_payment_batch_from_tuples,
}
use rust_messagebox_client.HttpOps.Send

abbrev pub is_sendable : RecipientQuote → Bool
is_sendable rq = not (rq.status =? "blocked")

abbrev has_fee : RecipientQuote → Bool
has_fee rq = is_positive rq.delivery_fee || is_positive rq.recipient_fee

-- The recipients that were sent to and those whose send failed.
pub record Sends : Type 0 where
  pub sent : List SentRecipient
  pub failed : List FailedRecipient

unfoldable pub note_send : String → Fallible String → Sends → Sends
note_send recipient (ok message_id) s = record s {
  sent = s.sent ++ record { recipient = recipient; message_id = message_id } ∷ [];
}
note_send recipient (err e) s = record s {
  failed = s.failed ++ record { recipient = recipient; error = display e } ∷ [];
}

abbrev pub sent_result : MessageBoxMultiQuote → Sends → SendListResult
sent_result multi_quote s = record {
  status = "success";
  description = "Sent to " <> (decimal (length s.sent) <> " recipients");
  sent = s.sent;
  blocked = multi_quote.blocked_recipients;
  failed = s.failed;
  totals = multi_quote.totals;
}

abbrev failure : MessageBoxError → RecipientQuote → FailedRecipient
failure e rq = record { recipient = rq.recipient; error = display e }

abbrev pub unpaid_result :
    MessageBoxMultiQuote → List RecipientQuote → MessageBoxError → SendListResult
unpaid_result multi_quote sendable e = record {
  status = "error";
  description = "Batch payment creation failed";
  sent = [];
  blocked = multi_quote.blocked_recipients;
  failed = map (failure e) sendable;
  totals = none;
}

module _ (D : Deps) (client : Client) where
  abbrev pub pay_quote : String → MessageBoxQuote → Io D (Option MessagePayment)
  pay_quote recipient quote =
      if is_positive quote.delivery_fee || is_positive quote.recipient_fee
      then (do p ← create_message_payment D client recipient quote none; ret (ok (some p)))
      else ret (ok none)

  -- The payment for the quoted fees, if there are any.
  unfoldable pub pay_fees : String → String → Io D (Option MessagePayment)
  pay_fees recipient message_box = do
    quote ← get_message_box_quote D client recipient message_box none
    pay_quote recipient quote

  unfoldable pub send_to_host :
      String
      → String
      → String
      → String
      → Bool
      → Bool
      → Option String
      → Option MessagePayment
      → Io D String
  send_to_host host recipient message_box body skip_encryption check_permissions message_id
        payment =
      Send.send_message_to_host D client.originator host recipient message_box body skip_encryption
        check_permissions message_id payment (pay_fees recipient message_box)

  abbrev host_of : Option String → String → Io D String
  host_of (some h) recipient = ret (ok h)
  host_of none recipient = resolve_host_for_recipient D client recipient

  unfoldable pub send_message :
      String → String → String → Bool → Bool → Option String → Option String → Io D String
  send_message recipient message_box body skip_encryption check_permissions message_id
        override_host =
      do
        assert_initialized D client
        host ← host_of override_host recipient
        send_to_host host recipient message_box body skip_encryption check_permissions message_id
            none

  unfoldable pub send_notification : String → String → Option String → Io D String
  send_notification recipient body (some host) =
      send_to_host host recipient "notifications" body false true none none
  send_notification recipient body none =
      send_message recipient "notifications" body false true none none

  abbrev pub host_in : Dict String → String → String
  host_in recipient_hosts recipient = unwrap_or (Dict.lookup recipient recipient_hosts) client.host

  -- The map `recipient_hosts`.
  unfoldable pub resolve_hosts :
      Option String → List RecipientQuote → Dict String → Prog D (Dict String)
  resolve_hosts override_host [] hosts = ret hosts
  resolve_hosts override_host (rq ∷ rqs) hosts =
      bind (host_for D client override_host rq.recipient)
        λ host. resolve_hosts override_host rqs (Dict.insert rq.recipient host hosts)

  abbrev pub fee_tuple : Dict String → Dict String → RecipientQuote → FeeTuple D client
  fee_tuple agents recipient_hosts rq = (
    rq.recipient,
    rq.delivery_fee,
    rq.recipient_fee,
    unwrap_or (Dict.lookup (host_in recipient_hosts rq.recipient) agents) "",
  )

  abbrev pub batch_payment :
      Bool → Dict String → Dict String → List RecipientQuote → Io D (Option MessagePayment)
  batch_payment false agents recipient_hosts sendable = ret (ok none)
  batch_payment true agents recipient_hosts sendable = do
    p ←
        create_message_payment_batch_from_tuples D client
          (map (fee_tuple agents recipient_hosts) sendable) none
    ret (ok (some p))

  module _ (params : SendListParams) (payment : Option MessagePayment) (hosts : Dict String) where
    unfoldable pub send_all : List RecipientQuote → Sends → Prog D Sends
    send_all [] s = ret s
    send_all (rq ∷ rqs) s =
        bind
          (send_to_host (host_in hosts rq.recipient) rq.recipient params.message_box params.body
            (unwrap_or params.skip_encryption false) false none payment)
          λ r. send_all rqs (note_send rq.recipient r s)

  -- What follows the payment.
  abbrev pub send_paid :
      SendListParams
      → MessageBoxMultiQuote
      → List RecipientQuote
      → Dict String
      → Fallible (Option MessagePayment)
      → Io D SendListResult
  send_paid params multi_quote sendable hosts (err e) =
      ret (ok (unpaid_result multi_quote sendable e))
  send_paid params multi_quote sendable hosts (ok payment) =
      bind (send_all params payment hosts sendable (record { sent = []; failed = [] }))
        λ s. ret (ok (sent_result multi_quote s))

  unfoldable pub send_quoted :
      SendListParams → Option String → MessageBoxMultiQuote → Io D SendListResult
  send_quoted params override_host multi_quote =
      let sendable = select is_sendable multi_quote.quotes_by_recipient in
      bind (resolve_hosts override_host sendable []) λ hosts.
        bind
          (batch_payment (any has_fee sendable) multi_quote.delivery_agent_identity_key_by_host
            hosts sendable)
          λ payment. send_paid params multi_quote sendable hosts payment

  unfoldable pub send_message_to_recipients : SendListParams → Option String → Io D SendListResult
  send_message_to_recipients params override_host = do
    assert_initialized D client
    multi_quote ←
        get_message_box_quote_multi D client override_host params.message_box params.recipients
    send_quoted params override_host multi_quote

  unfoldable pub send_notification_to_recipients :
      List String → String → Option String → Io D SendListResult
  send_notification_to_recipients recipients body = send_message_to_recipients (record {
    recipients = recipients;
    message_box = "notifications";
    body = body;
    skip_encryption = some false;
  })
