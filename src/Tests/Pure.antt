-- ===== src/Tests/Pure.antt =====
-- The parts without calls at concrete data: the bounded id set, the poll, the acknowledgements,
-- the bodies and payments of listed messages and of notifications.
use rust_messagebox_client.Prelude.{
  ℕ, count, ◌≤◌, String, ◌≡◌, refl, ◌↔◌, true, false, none, some, List, [], ◌∷◌, ◌++◌, length,
  contains, string_dec, arith,
}
use rust_messagebox_client.Prelude.Dict
use rust_messagebox_client.Prelude.Text.{trim, is_control, is_hexdigit}
use rust_messagebox_client.Prelude.Maybe.{traverse}
use rust_messagebox_client.Error.{ok}
use rust_messagebox_client.Types.{AuthenticatedPeerMessage, PaymentAwarePeerMessage, internalized}
use rust_messagebox_client.Io.{InternalizeActionArgs, wallet_payment}
use rust_messagebox_client.Client.Dedup.{
  insert, exactly_once, deliver_all, make_room, push, set_insert, ids,
}
use rust_messagebox_client.Client.Dedup.Invariant.{empty}
use rust_messagebox_client.Client.Dedup.Window.{Spaced, first_seen}
use rust_messagebox_client.Client.Dedup.Delivery.{exactly_once-Spaced, exactly_once-eq-first_seen}
use rust_messagebox_client.Client.Poll.{PollState, poll_should_run, rounds}
use rust_messagebox_client.Websocket.Acks.{
  Acks, sent, closed, enqueue, on_ack, remove_pending_ack, emit_failed, drain,
}
use rust_messagebox_client.Websocket.Acks.Reached.{
  Reach, connected, next, send, ack, disconnected, Conserved, Reach-Conserved,
}
use rust_messagebox_client.Websocket.Acks.Fifo.{
  Acts, ack_all, enqueue_all, pair_up, acks_fifo, cleanup_after_nack, emit_failed_race,
}
use rust_messagebox_client.HttpOps.Split.{split_message_body, split_object}
use rust_messagebox_client.HttpOps.Internalize.{
  build_internalize_args, build_output, build_wallet_payment, valid_payment_description,
  is_bad_description, is_bad_sender_key,
}
use rust_messagebox_client.HttpOps.Internalize.Admits.{AdmitsPayment, build_internalize_args_iff}
use mathlib.Core.List.{Permᴰ, map}
use rust_messagebox_client.HttpOps.Inbox.{flatten}
use rust_messagebox_client.HttpOps.Inbox.Deduped.{
  messages, dedup_messages, unseen-eq-dedup_messages,
}
use rust_messagebox_client.HttpOps.Inbox.Orderless.{unseen-count-perm}
use rust_messagebox_client.HttpOps.Listing.Firsts.{message_id_of}
use rust_messagebox_client.HttpOps.Listing.{unseen}
use rust_messagebox_client.PeerPay.Notification.{
  notification_args, notification_description, check_mixture, first_unsupported, unsupported_label,
  is_wallet_payment_compatible, build_notification_outputs, build_notification_output,
}
use rust_messagebox_client.PeerPay.Notification.Admits.{AdmitsNotification, notification_args_iff}
use rust_messagebox_client.Tests.Toy.{
  toy, alice, fee, notice, doc_from_str, doc_get, doc_as_str, doc_is_object, doc_to_string,
}

abbrev msg : String → AuthenticatedPeerMessage
msg id = record {
  message_id = id;
  sender = alice;
  recipient = "02bb";
  message_box = "inbox";
  body = "hi";
  authenticated_decrypt = true;
}

abbrev stream : List AuthenticatedPeerMessage
stream = msg "a" ∷ msg "b" ∷ msg "a" ∷ msg "c" ∷ msg "a" ∷ []

-- With room for two ids, `a` is delivered again once `c` has pushed it out.
delivered : ids (deliver_all (empty 2) stream).1 ≡ "a" ∷ "b" ∷ "c" ∷ "a" ∷ []
unfolding deliver_all exactly_once insert make_room push set_insert string_dec
delivered = refl

exactly_once-Spaced_example :
    Spaced 2 [] (ids (deliver_all (empty 2) stream).1)
    × ((id : String)
        → contains (ids stream) id ≡ true
        → contains (ids (deliver_all (empty 2) stream).1) id ≡ true)
exactly_once-Spaced_example = exactly_once-Spaced 2 stream (omega arith)

few : length (first_seen [] stream) ≤ 3
unfolding first_seen string_dec
few = omega arith

exactly_once-eq-first_seen_example : (deliver_all (empty 3) stream).1 ≡ first_seen [] stream
exactly_once-eq-first_seen_example = exactly_once-eq-first_seen 3 stream (omega arith) few

abbrev busy : PollState
busy = record { last_activity = 0; skipped = 0 }

abbrev readings : List (ℕ × ℕ)
readings = (1, 1) ∷ (2, 2) ∷ (3, 3) ∷ (4, 4) ∷ (5, 5) ∷ (6, 6) ∷ (7, 7) ∷ (8, 8) ∷ []

-- A connection that is always active: the eighth round polls.
decisions : rounds busy readings ≡ false ∷ false ∷ false ∷ false ∷ false ∷ false ∷ false ∷ true ∷ []
unfolding rounds poll_should_run
decisions = refl

abbrev idle : Acks
idle = record { queues = []; settled = [] }

abbrev waiting : Acks
waiting = record { queues = ("room", 1 ∷ 2 ∷ []) ∷ []; settled = [] }

queue_waits : Dict.lookup "room" waiting.queues ≡ some (1 ∷ 2 ∷ [])
unfolding Dict.lookup string_dec
queue_waits = refl

nothing_waits : Dict.lookup "room" idle.queues ≡ none
unfolding Dict.lookup
nothing_waits = refl

acks_fifo_example :
    Acts "room" idle
      (ack_all "room" (true ∷ false ∷ []) (enqueue_all "room" (1 ∷ 2 ∷ []) idle))
      []
      (pair_up (1 ∷ 2 ∷ []) (true ∷ false ∷ []))
acks_fifo_example = acks_fifo "room" (1 ∷ 2 ∷ []) (true ∷ false ∷ []) idle nothing_waits refl

cleanup_after_nack_example :
    Acts "room" waiting
      (remove_pending_ack "room" (on_ack "room" false waiting))
      []
      ((1, sent false) ∷ (2, closed) ∷ [])
cleanup_after_nack_example = cleanup_after_nack "room" 1 2 [] waiting queue_waits

emit_failed_race_example :
    Acts "room" idle
      (emit_failed "room" (enqueue "room" 2 (enqueue "room" 1 idle)))
      ([] ++ 1 ∷ [])
      ((2, closed) ∷ [])
emit_failed_race_example = emit_failed_race "room" 1 2 [] idle nothing_waits

split_paid : split_message_body toy "paid" ≡ record {
  inner_body = "hi";
  payment = some (ok fee);
  raw_payment_envelope = some "paid";
  oversized = false;
}
unfolding split_message_body split_object doc_from_str doc_get doc_as_str doc_is_object
    doc_to_string string_dec
split_paid = refl

abbrev fee_args : InternalizeActionArgs toy
fee_args = record {
  tx = 7 ∷ [];
  description = "MessageBox recipient payment";
  labels = "server-delivery-fee" ∷ [];
  seek_permission = false;
  outputs = wallet_payment 0 (1 ∷ []) (1 ∷ []) alice ∷ [];
}

fee_built : build_internalize_args toy fee ≡ some fee_args
unfolding build_internalize_args build_output build_wallet_payment valid_payment_description
    is_bad_description is_bad_sender_key traverse trim is_control is_hexdigit string_dec
fee_built = refl

build_internalize_args_iff_example :
    (build_internalize_args toy fee ≡ some fee_args) ↔ AdmitsPayment toy fee fee_args
build_internalize_args_iff_example = build_internalize_args_iff toy fee fee_args

abbrev notice_args : InternalizeActionArgs toy
notice_args = record fee_args { labels = "notification-payment" ∷ [] }

notice_built : notification_args toy notice ≡ ok (some notice_args)
unfolding notification_args notification_description check_mixture first_unsupported
    unsupported_label is_wallet_payment_compatible build_notification_outputs
    build_notification_output is_bad_sender_key trim is_hexdigit string_dec
notice_built = refl

notification_args_iff_example :
    (notification_args toy notice ≡ ok (some notice_args))
    ↔ AdmitsNotification toy notice notice_args
notification_args_iff_example = notification_args_iff toy notice notice_args

abbrev from_host : String → String → PaymentAwarePeerMessage
from_host id body = record {
  message = record {
    message_id = id;
    sender = alice;
    recipient = "02bb";
    message_box = "inbox";
    body = body;
  };
  payment_outcome = internalized;
  raw_payment_envelope = none;
}

abbrev both_hosts : List PaymentAwarePeerMessage
both_hosts = from_host "1" "x" ∷ from_host "2" "y" ∷ from_host "1" "z" ∷ []

merged : unseen [] both_hosts ≡ from_host "1" "x" ∷ from_host "2" "y" ∷ []
unfolding unseen string_dec
merged = refl

abbrev two_hosts : List (List PaymentAwarePeerMessage)
two_hosts = (from_host "1" "x" ∷ from_host "2" "y" ∷ []) ∷ (from_host "1" "z" ∷ []) ∷ []

unseen-eq-dedup_messages_example :
    messages (unseen [] (flatten two_hosts)) ≡ dedup_messages (map messages two_hosts)
unseen-eq-dedup_messages_example = unseen-eq-dedup_messages two_hosts

abbrev turned : List (List PaymentAwarePeerMessage)
turned = (from_host "1" "z" ∷ []) ∷ (from_host "1" "x" ∷ from_host "2" "y" ∷ []) ∷ []

unseen-count-perm_example :
    count "1" (map message_id_of (unseen [] (flatten two_hosts)))
    ≡ count "1" (map message_id_of (unseen [] (flatten turned)))
unseen-count-perm_example = unseen-count-perm two_hosts turned "1" (Permᴰ.swap refl refl)

-- Two sends to a room, an acknowledgement of the first, and a disconnect.
abbrev two_sends : Reach (2 ∷ 1 ∷ []) (
    drain (
      on_ack "room" true
        (enqueue "room" 2 (enqueue "room" 1 (record { queues = []; settled = [] })))))
two_sends =
    next
      (next (next (next connected (send _ _ "room" 1)) (send _ _ "room" 2)) (ack _ _ "room" true))
      (disconnected _ _)

Reach-Conserved_example : Conserved (2 ∷ 1 ∷ []) (
    drain (
      on_ack "room" true
        (enqueue "room" 2 (enqueue "room" 1 (record { queues = []; settled = [] })))))
Reach-Conserved_example = Reach-Conserved two_sends
