-- ===== src/PeerPay/Queued.antt =====
-- `acknowledge_notification` of src/peer_pay.rs: when a notification may leave the relay.
use rust_messagebox_client.Prelude.{
  ◌≡◌, refl, String, Bool, true, false, Option, none, some, List, ◌∷◌,
}
use rust_messagebox_client.Error.{Result, ok, err, Fallible, MessageBoxError, wallet, json, map_err}
use rust_messagebox_client.Types.{PeerMessage, NotificationPayment}
use rust_messagebox_client.Deps.{Deps}
use rust_messagebox_client.Io.{
  InternalizeActionArgs, internalize_action, Io, ret, bind, of_result, ◌>>=◌, ◌>>◌,
}
use rust_messagebox_client.Io.Runs.{Event, AllRuns, AllRuns-then}
use rust_messagebox_client.PeerPay.{
  require_accepted, notification_step, value_step, acknowledge_notification_with_ack,
}
use rust_messagebox_client.PeerPay.Notification.{notification_payment_value, notification_args}
use rust_messagebox_client.PeerPay.Notification.Admits.{AdmitsNotification, notification_args_iff}

-- The answer `b` of a function whose last step is to acknowledge.
abbrev pub answered : Bool → Fallible (Unit {0}) → Fallible Bool
answered b (ok _) = ok b
answered b (err e) = err e

module _ (D : Deps) where
  open D use {notification_payment}

  -- The payment that a body carries.
  abbrev pub Carries : String → NotificationPayment → Type 0
  Carries body payment =
      (value : D.Value) × (notification_payment_value D body ≡ some value)
      × (notification_payment value ≡ ok payment)

  Carries-unique :
      (body : String) (payment payment' : NotificationPayment)
      → Carries body payment
      → Carries body payment'
      → payment ≡ payment'
  Carries-unique body payment payment' (v, p, q) (v', p', q') =
      let same : v ≡ v' = cc in let read : notification_payment v' ≡ ok payment = rw⁻¹ same q in cc

module _ {ℓ} (D : Deps) (originator : Option String) (acknowledge : Io D (Unit {0}))
    (P : List (Event D) → Fallible Bool → Type ℓ) where
  -- The situations that a proof about all runs has to look at.
  abbrev Taken : String → List (Event D) → Type ℓ
  Taken body log =
      (payment : NotificationPayment) (args : InternalizeActionArgs D)
      → Carries D body payment
      → AdmitsNotification D payment args
      → AllRuns (λ log' r. P log' (answered true r))
          ((internalize_action args originator, ok true) ∷ log) acknowledge

  abbrev Kept : String → List (Event D) → Type ℓ
  Kept body log =
      ((payment : NotificationPayment) (args : InternalizeActionArgs D)
        → Carries D body payment
        → ¬ AdmitsNotification D payment args)
      → (r : Fallible Bool) → ¬ (r ≡ ok true)
      → P log r

  abbrev Refused : List (Event D) → Type ℓ
  Refused log =
      (args : InternalizeActionArgs D) (reply : Result Bool String) (e : MessageBoxError)
      → ¬ (reply ≡ ok true)
      → P ((internalize_action args originator, reply) ∷ log) (err e)

  acked :
      (b : Bool) (log : List (Event D))
      → AllRuns (λ log' r. P log' (answered b r)) log acknowledge
      → AllRuns P log (acknowledge >> ret (ok b))
  acked b log h = AllRuns-then _ P log acknowledge _ h (λ log' u p. p) (λ log' e p. p)

  replied :
      (r : Result Bool String) (log : List (Event D))
      → (r ≡ ok true → AllRuns (λ log' r. P log' (answered true r)) log acknowledge)
      → (¬ (r ≡ ok true) → (e : MessageBoxError) → P log (err e))
      → AllRuns P log (
          ret (map_err wallet r) >>= λ accepted.
          require_accepted D "wallet did not accept the notification payment" accepted
          >> (acknowledge >> ret (ok true)))
  unfolding bind
  replied (ok true) log h k = acked true log (h refl)
  replied (ok false) log h k = k (λ e. cc) (wallet "wallet did not accept the notification payment")
  replied (err s) log h k = k (λ e. cc) (wallet s)

  step-order :
      (payment : NotificationPayment) (log : List (Event D))
      (planned : Fallible (Option (InternalizeActionArgs D)))
      → notification_args D payment ≡ planned
      → ((args : InternalizeActionArgs D)
          → AdmitsNotification D payment args
          → AllRuns
              (λ log' r. P log' (answered true r))
              ((internalize_action args originator, ok true) ∷ log)
              acknowledge)
      → (((args : InternalizeActionArgs D) → ¬ AdmitsNotification D payment args)
          → (r : Fallible Bool) → ¬ (r ≡ ok true)
          → P log r)
      → Refused log
      → AllRuns P log (notification_step D originator planned acknowledge)
  unfolding bind
  step-order payment log (err e) h taken kept refused =
      kept (λ args a. let b = (notification_args_iff D payment args).1 a in cc) (err e) (λ p. cc)
  step-order payment log (ok none) h taken kept refused =
      kept (λ args a. let b = (notification_args_iff D payment args).1 a in cc) (ok false) (λ p. cc)
  step-order payment log (ok (some args)) h taken kept refused = λ r.
      replied r ((internalize_action args originator, r) ∷ log)
        (λ accepted. rw accepted (taken args ((notification_args_iff D payment args).0 h)))
        (λ differs e. refused args r e differs)

  read-order :
      (body : String) (log : List (Event D)) (value : D.Value)
      (read : Result NotificationPayment String)
      → notification_payment_value D body ≡ some value
      → D.notification_payment value ≡ read
      → Taken body log
      → Kept body log
      → Refused log
      → AllRuns P log (
          of_result json read >>= λ payment.
          notification_step D originator (notification_args D payment) acknowledge)
  unfolding bind
  read-order body log value (ok payment) e p taken kept refused =
      step-order payment log _ refl (λ args. taken payment args (value, e, p))
        (λ none. kept (λ payment' args c a.
          none args (rw (Carries-unique D body payment payment' (value, e, p) c) a)))
        refused
  read-order body log value (err s) e p taken kept refused =
      kept
        (λ payment args (v, e', p') a.
          let same : v ≡ value = cc in
          let bad : D.notification_payment value ≡ ok payment = rw⁻¹ same p' in cc)
        (err (json s)) (λ q. cc)

  value-order :
      (body : String) (log : List (Event D)) (value : Option D.Value)
      → notification_payment_value D body ≡ value
      → (notification_payment_value D body ≡ none
          → AllRuns (λ log' r. P log' (answered false r)) log acknowledge)
      → Taken body log
      → Kept body log
      → Refused log
      → AllRuns P log (value_step D originator value acknowledge)
  value-order body log none e unpaid taken kept refused = acked false log (unpaid e)
  value-order body log (some value) e unpaid taken kept refused =
      read-order body log value (D.notification_payment value) e refl taken kept refused

  -- A notification without a payment is acknowledged at once, with the answer `false`. With one, it
  -- is acknowledged only right after the wallet accepted exactly what `AdmitsNotification` relates to
  -- the payment, with the answer `true`. Where nothing is admitted for it, no call is made and the
  -- answer is not `true`; where the wallet refuses or errs, that was the last call, and the result is
  -- an error. To show that all runs satisfy `P`, it is enough to look at these four situations.
  pub acknowledge_notification_with_ack-order :
      (message : PeerMessage) (log : List (Event D))
      → (notification_payment_value D message.body ≡ none
          → AllRuns (λ log' r. P log' (answered false r)) log acknowledge)
      → ((payment : NotificationPayment) (args : InternalizeActionArgs D)
          → Carries D message.body payment
          → AdmitsNotification D payment args
          → AllRuns
              (λ log' r. P log' (answered true r))
              ((internalize_action args originator, ok true) ∷ log)
              acknowledge)
      → (((payment : NotificationPayment) (args : InternalizeActionArgs D)
            → Carries D message.body payment
            → ¬ AdmitsNotification D payment args)
          → (r : Fallible Bool) → ¬ (r ≡ ok true)
          → P log r)
      → ((args : InternalizeActionArgs D) (reply : Result Bool String) (e : MessageBoxError)
          → ¬ (reply ≡ ok true)
          → P ((internalize_action args originator, reply) ∷ log) (err e))
      → AllRuns P log (acknowledge_notification_with_ack D originator message acknowledge)
  unfolding acknowledge_notification_with_ack
  acknowledge_notification_with_ack-order message log unpaid taken kept refused =
      value-order message.body log (notification_payment_value D message.body) refl unpaid taken
        kept refused
