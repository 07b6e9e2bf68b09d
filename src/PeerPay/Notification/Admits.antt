-- ===== src/PeerPay/Notification/Admits.antt =====
-- Which payments of notifications the wallet is asked to internalize.
use rust_messagebox_client.Prelude.{
  ℕ, ◌<◌, ◌≤◌, String, ◌≡◌, refl, ◌↔◌, false, Option, none, some, List, [], ◌∷◌, length, arith,
  unwrap_or,
}
use rust_messagebox_client.Prelude.Text.{trim, is_control}
use rust_messagebox_client.Prelude.Maybe.{All2}
use rust_messagebox_client.Error.{ok}
use rust_messagebox_client.Types.{NotificationPayment, NotificationPaymentOutput}
use rust_messagebox_client.Deps.{Deps}
use rust_messagebox_client.Io.{InternalizeOutput, InternalizeActionArgs}
use rust_messagebox_client.HttpOps.Internalize.{is_bad_description}
use rust_messagebox_client.HttpOps.Internalize.Admits.{IsDescription}
use rust_messagebox_client.PeerPay.Notification.{notification_description, notification_args}
use rust_messagebox_client.PeerPay.Notification.Outputs.{AdmitsOutput, Built, Built-iff}

module _ (D : Deps) where
  abbrev Tx : Option (List ℕ) → List ℕ → Type 0
  Tx none tx = ⊥
  Tx (some raw) tx = (raw ≡ tx) × (0 < length raw) × (length raw ≤ 33_554_432)

  abbrev Outputs :
      (List NotificationPaymentOutput → List (InternalizeOutput D) → Type 0)
      → Option (List NotificationPaymentOutput)
      → List (InternalizeOutput D)
      → Type 0
  Outputs S none xs = ⊥
  Outputs S (some os) xs = (length os ≤ 101) × S os xs

  abbrev AdmitsBy :
      (Option String → String → Type 0)
      → (List NotificationPaymentOutput → List (InternalizeOutput D) → Type 0)
      → NotificationPayment
      → InternalizeActionArgs D
      → Type 0
  AdmitsBy T S payment args =
      Tx payment.tx args.tx
      × Outputs S payment.outputs args.outputs
      × T payment.description args.description
      × (args.labels ≡ "notification-payment" ∷ [])
      × (args.seek_permission ≡ false)

  abbrev pub Describes : Option String → String → Type 0
  Describes given text =
      (text ≡ unwrap_or given "MessageBox recipient payment") × IsDescription text

  abbrev pub AdmitsNotification : NotificationPayment → InternalizeActionArgs D → Type 0
  AdmitsNotification = AdmitsBy Describes (λ os xs. (0 < length os) × All2 (AdmitsOutput D) os xs)

  notification_args-by :
      (payment : NotificationPayment) (args : InternalizeActionArgs D)
      → (notification_args D payment ≡ ok (some args))
        ↔ AdmitsBy (λ given text. notification_description given ≡ ok text) (Built D) payment args
  unfolding notification_args
  notification_args-by payment args = ground arith

  default-IsDescription : IsDescription "MessageBox recipient payment"
  unfolding trim is_control
  default-IsDescription = (omega arith, omega arith, refl, refl)

  Describes-iff :
      (given : Option String) (text : String)
      → (notification_description given ≡ ok text) ↔ Describes given text
  unfolding notification_description is_bad_description
  Describes-iff none text = (
    λ e.
        let same : text ≡ "MessageBox recipient payment" = cc in
        (same, rw same default-IsDescription),
    λ d. cc (d.0),
  )
  Describes-iff (some given) text = ground arith

  Outputs-iff :
      (os : Option (List NotificationPaymentOutput)) (xs : List (InternalizeOutput D))
      → Outputs (Built D) os xs
        ↔ Outputs (λ os xs. (0 < length os) × All2 (AdmitsOutput D) os xs) os xs
  Outputs-iff none xs = (λ h. h, λ h. h)
  Outputs-iff (some os) xs = let b = Built-iff D os xs in (λ h. (h.0, b.0 h.1), λ h. (h.0, b.1 h.1))

  -- The wallet is asked for `args` exactly when the notification's payment has a transaction of 1
  -- byte to 32 MiB, a printable description (the default one when there is none) and 1 to 101
  -- outputs, each of them a well formed wallet payment, in their order: with one output of another
  -- protocol, or an output that cannot be built, it is asked for nothing.
  pub notification_args_iff :
      (payment : NotificationPayment) (args : InternalizeActionArgs D)
      → (notification_args D payment ≡ ok (some args)) ↔ AdmitsNotification payment args
  notification_args_iff payment args =
      let by = notification_args-by payment args in
      let describes = Describes-iff payment.description args.description in
      let outputs = Outputs-iff payment.outputs args.outputs in
      (
        λ h. let (t, o, d, l, s) = by.0 h in (t, outputs.0 o, describes.0 d, l, s),
        λ (t, o, d, l, s). by.1 (t, outputs.1 o, describes.1 d, l, s),
      )
