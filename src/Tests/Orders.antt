-- ===== src/Tests/Orders.antt =====
-- PeerPay's payments and notifications at concrete data.
use rust_messagebox_client.Prelude.{
  ◌≤◌, ◌<◌, String, ◌≡◌, refl, Bool, true, false, none, List, [], ◌∷◌, length, arith,
}
use rust_messagebox_client.Error.{Result, ok, err, Fallible, MessageBoxError, http}
use rust_messagebox_client.Types.{PeerMessage, IncomingPayment, NotificationPayment}
use rust_messagebox_client.Io.{
  internalize_action, fetch, Io, ret, bind, perform, of_call, InternalizeActionArgs,
}
use rust_messagebox_client.Io.Runs.{Event, AllRuns}
use rust_messagebox_client.Io.Avoids.{payments}
use rust_messagebox_client.PeerPay.{
  accept_payment_with_ack, reject_payment_with, acknowledge_notification_with_ack,
}
use rust_messagebox_client.PeerPay.Order.{
  Accepted, Refused, accept_payment_with_ack-order, reject_payment_with-order,
}
use rust_messagebox_client.PeerPay.Notification.{notification_payment_value}
use rust_messagebox_client.PeerPay.Notification.Admits.{AdmitsNotification}
use rust_messagebox_client.PeerPay.Queued.{
  answered, Carries, acknowledge_notification_with_ack-order,
}
use rust_messagebox_client.Tests.Toy.{toy, alice}

abbrev incoming : IncomingPayment
incoming = record {
  token = record {
    custom_instructions = record {
      derivation_prefix = "cHJl";
      derivation_suffix = "c3Vm";
      payee = none;
    };
    transaction = 7 ∷ [];
    amount = 5000;
    output_index = none;
  };
  sender = alice;
  message_id = "1";
}

-- An acknowledgement and a refund that call the relay once.
abbrev relay_call : String → Io toy (Unit {0})
relay_call path =
    of_call (http 0) (
      bind (perform (fetch path "POST" none []))
        (elim [ ok _ ↦ ret (ok tt) | err e ↦ ret (err e) ]))

-- A success comes with exactly one payment that the wallet was asked for.
abbrev Stored : List (Event toy) → Fallible (Unit {0}) → Type 0
Stored log r = r ≡ ok tt → length (payments log) ≡ 1

relay_call-Stored :
    (path : String) (log : List (Event toy))
    → length (payments log) ≡ 1
    → AllRuns Stored log (relay_call path)
unfolding bind
relay_call-Stored path log h = elim [ ok r ↦ λ e. h | err s ↦ λ e. h ]

Accepted-payments :
    (log : List (Event toy)) → Accepted toy none incoming [] log → length (payments log) ≡ 1
Accepted-payments log a = rw a.last refl

no_success :
    (log : List (Event toy)) (e : MessageBoxError) → Refused toy none [] log → Stored log (err e)
no_success log e h p = cc

acknowledged :
    (log : List (Event toy))
    → Accepted toy none incoming [] log
    → AllRuns Stored log (relay_call "/ack")
acknowledged log a = relay_call-Stored "/ack" log (Accepted-payments log a)

refunded :
    2000 ≤ 5000
    → (log : List (Event toy)) → Accepted toy none incoming [] log
    → AllRuns (λ log' _. length (payments log') ≡ 1) log (relay_call "/refund")
unfolding bind
refunded big log a = elim [ ok r ↦ Accepted-payments log a | err s ↦ Accepted-payments log a ]

accept_payment_with_ack-order_example :
    AllRuns Stored [] (accept_payment_with_ack toy none incoming (relay_call "/ack"))
accept_payment_with_ack-order_example =
    accept_payment_with_ack-order toy none incoming (relay_call "/ack") Stored [] acknowledged
      no_success

not_small : 5000 < 2000 → AllRuns Stored [] (relay_call "/ack")
not_small h = absurd (omega arith)

acknowledged_after :
    (log : List (Event toy)) → length (payments log) ≡ 1 → AllRuns Stored log (relay_call "/ack")
acknowledged_after = relay_call-Stored "/ack"

failed_refund :
    (log : List (Event toy)) (e : MessageBoxError) → length (payments log) ≡ 1 → Stored log (err e)
failed_refund log e h p = h

reject_payment_with-order_example :
    AllRuns Stored []
      (reject_payment_with toy none incoming (λ amount. relay_call "/refund") (relay_call "/ack"))
reject_payment_with-order_example =
    reject_payment_with-order toy none incoming (λ amount. relay_call "/refund") (relay_call "/ack")
      (λ log _. length (payments log) ≡ 1) Stored [] not_small refunded acknowledged_after
      failed_refund no_success

abbrev note : PeerMessage
note = record {
  message_id = "1";
  sender = alice;
  recipient = "02bb";
  message_box = "inbox";
  body = "paid";
}

-- The answer `true` comes with exactly one payment that the wallet was asked for.
abbrev Answered : List (Event toy) → Fallible Bool → Type 0
Answered log r = r ≡ ok true → length (payments log) ≡ 1

unpaid_note :
    notification_payment_value toy "paid" ≡ none
    → AllRuns (λ log' r. Answered log' (answered false r)) [] (relay_call "/ack")
unfolding bind
unpaid_note h = elim [ ok r ↦ λ e. cc | err s ↦ λ e. cc ]

taken_note :
    (payment : NotificationPayment) (args : InternalizeActionArgs toy)
    → Carries toy "paid" payment
    → AdmitsNotification toy payment args
    → AllRuns
        (λ log' r. Answered log' (answered true r))
        ((internalize_action args none, ok true) ∷ [])
        (relay_call "/ack")
unfolding bind
taken_note payment args c a = elim [ ok r ↦ λ e. refl | err s ↦ λ e. refl ]

kept_note :
    ((payment : NotificationPayment) (args : InternalizeActionArgs toy)
      → Carries toy "paid" payment
      → ¬ AdmitsNotification toy payment args)
    → (r : Fallible Bool) → ¬ (r ≡ ok true)
    → Answered [] r
kept_note none_fits r differs e = absurd (differs e)

refused_note :
    (args : InternalizeActionArgs toy) (reply : Result Bool String) (e : MessageBoxError)
    → ¬ (reply ≡ ok true)
    → Answered ((internalize_action args none, reply) ∷ []) (err e)
refused_note args reply e differs p = cc

acknowledge_notification_with_ack-order_example :
    AllRuns Answered [] (acknowledge_notification_with_ack toy none note (relay_call "/ack"))
acknowledge_notification_with_ack-order_example =
    acknowledge_notification_with_ack-order toy none (relay_call "/ack") Answered note []
      unpaid_note taken_note kept_note refused_note
