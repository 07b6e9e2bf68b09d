-- ===== src/PeerPay/Notification/Outputs.antt =====
-- Which outputs of a notification's payment the wallet is asked to store.
use rust_messagebox_client.Prelude.{
  ℕ, ◌<◌, String, len, ◌≡◌, refl, ◌↔◌, true, false, Option, none, some, List, [], ◌∷◌, length, any,
  all, is_empty, arith,
}
use rust_messagebox_client.Prelude.Text.{trim}
use rust_messagebox_client.Prelude.Maybe.{All2}
use rust_messagebox_client.Error.{ok}
use rust_messagebox_client.Types.{
  NotificationPaymentOutput, NotificationPaymentRemittance, NotificationOutputProtocol, missing,
  explicit_null, value,
}
use rust_messagebox_client.Deps.{Deps}
use rust_messagebox_client.Io.{InternalizeOutput, wallet_payment, basket_insertion}
use rust_messagebox_client.HttpOps.Internalize.{is_bad_sender_key}
use rust_messagebox_client.HttpOps.Internalize.Outputs.{IsSenderKey}
use rust_messagebox_client.PeerPay.Notification.{
  is_wallet_payment_compatible, unsupported_label, first_unsupported, compatible, check_mixture,
  build_notification_output, build_notification_outputs,
}

module _ (D : Deps) where
  open D use {PublicKey, public_key_from_string, base64_decode}

  abbrev pub IsPayable : NotificationOutputProtocol → Type 0
  IsPayable missing = Unit
  IsPayable explicit_null = ⊥
  IsPayable (value protocol) = protocol ≡ "wallet payment"

  abbrev Derives : Option String → List ℕ → Type 0
  Derives none bytes = ⊥
  Derives (some raw) bytes = (0 < len (trim raw)) × (base64_decode (trim raw) ≡ ok bytes)

  abbrev Signs : Option String → PublicKey → Type 0
  Signs none key = ⊥
  Signs (some text) key = IsSenderKey text × (public_key_from_string text ≡ ok key)

  abbrev Remits : Option NotificationPaymentRemittance → List ℕ → List ℕ → PublicKey → Type 0
  Remits none prefix suffix key = ⊥
  Remits (some r) prefix suffix key =
      Derives r.derivation_prefix prefix
      × Derives r.derivation_suffix suffix
      × Signs r.sender_identity_key key

  abbrev Builds : NotificationPaymentOutput → InternalizeOutput D → Type 0
  Builds o (wallet_payment i prefix suffix key) =
      (o.output_index ≡ some i) × Remits o.payment_remittance prefix suffix key
  Builds o (basket_insertion _ _ _ _) = ⊥

  build_notification_output_iff :
      (o : NotificationPaymentOutput) (x : InternalizeOutput D)
      → (build_notification_output D o ≡ ok x) ↔ Builds o x
  unfolding build_notification_output is_bad_sender_key
  build_notification_output_iff o x = ground arith

  -- An output of a notification's payment, and the output that the wallet is asked to store for it.
  abbrev pub AdmitsOutput : NotificationPaymentOutput → InternalizeOutput D → Type 0
  AdmitsOutput o x = IsPayable o.protocol × Builds o x

  compatible_iff :
      (p : NotificationOutputProtocol) → (is_wallet_payment_compatible p ≡ true) ↔ IsPayable p
  unfolding is_wallet_payment_compatible
  compatible_iff p = ground arith

  first_unsupported-none :
      (os : List NotificationPaymentOutput)
      → (first_unsupported os ≡ none) ↔ (all compatible os ≡ true)
  unfolding first_unsupported unsupported_label is_wallet_payment_compatible
  first_unsupported-none [] = ground arith
  first_unsupported-none (o ∷ os) = ground (arith, first_unsupported-none os)

  outputs-incompatible :
      (os : List NotificationPaymentOutput)
      → any compatible os ≡ false
      → build_notification_outputs D os ≡ ok []
  unfolding build_notification_outputs
  outputs-incompatible [] h = refl
  outputs-incompatible (o ∷ os) h = ground (arith, outputs-incompatible os)

  outputs-nil :
      (o : NotificationPaymentOutput) (os : List NotificationPaymentOutput)
      → compatible o ≡ true
      → build_notification_outputs D (o ∷ os) ≡ ok []
      → ⊥
  unfolding build_notification_outputs
  outputs-nil o os h e = ground arith

  outputs-cons :
      (o : NotificationPaymentOutput) (os : List NotificationPaymentOutput)
      (x : InternalizeOutput D) (xs : List (InternalizeOutput D))
      → compatible o ≡ true
      → (build_notification_outputs D (o ∷ os) ≡ ok (x ∷ xs))
        ↔ ((build_notification_output D o ≡ ok x) × (build_notification_outputs D os ≡ ok xs))
  unfolding build_notification_outputs
  outputs-cons o os x xs h = ground arith

  all-cons :
      (o : NotificationPaymentOutput) (os : List NotificationPaymentOutput)
      → all compatible (o ∷ os) ≡ true
      → (compatible o ≡ true) × (all compatible os ≡ true)
  all-cons o os h = ground arith

  outputs_iff :
      (os : List NotificationPaymentOutput) (xs : List (InternalizeOutput D))
      → all compatible os ≡ true
      → (build_notification_outputs D os ≡ ok xs) ↔ All2 AdmitsOutput os xs
  unfolding build_notification_outputs
  outputs_iff [] [] h = (λ e. tt, λ e. refl)
  outputs_iff [] (x ∷ xs) h = (λ e. cc, λ a. absurd a)
  outputs_iff (o ∷ os) [] h = (λ e. absurd (outputs-nil o os (all-cons o os h).0 e), λ a. absurd a)
  outputs_iff (o ∷ os) (x ∷ xs) h =
      let (c, cs) = all-cons o os h in
      let split = outputs-cons o os x xs c in
      let this = build_notification_output_iff o x in
      let rest = outputs_iff os xs cs in
      (
        λ e. let (p, q) = split.0 e in (((compatible_iff o.protocol).0 c, this.0 p), rest.0 q),
        λ a. split.1 (this.1 a.0.1, rest.1 a.1),
      )

  AdmitsOutput-compatible :
      (os : List NotificationPaymentOutput) (xs : List (InternalizeOutput D))
      → All2 AdmitsOutput os xs
      → all compatible os ≡ true
  AdmitsOutput-compatible [] xs h = refl
  AdmitsOutput-compatible (o ∷ os) [] h = absurd h
  AdmitsOutput-compatible (o ∷ os) (x ∷ xs) h =
      rw ((compatible_iff o.protocol).1 h.0.0) (AdmitsOutput-compatible os xs h.1)

  -- What the wallet is asked to store, for outputs that pass the check of their protocols.
  abbrev pub Built : List NotificationPaymentOutput → List (InternalizeOutput D) → Type 0
  Built os xs =
      (check_mixture os ≡ ok tt) × (build_notification_outputs D os ≡ ok xs) × (is_empty xs ≡ false)

  Built-compatible :
      (os : List NotificationPaymentOutput) (xs : List (InternalizeOutput D))
      → Built os xs
      → all compatible os ≡ true
  unfolding check_mixture
  Built-compatible os xs h =
      let (checked, built, some_output) = h in
      ground (arith, outputs-incompatible os, first_unsupported-none os)

  compatible-checked :
      (os : List NotificationPaymentOutput) → all compatible os ≡ true → check_mixture os ≡ ok tt
  unfolding check_mixture
  compatible-checked os h = ground (arith, first_unsupported-none os)

  AdmitsOutput-is_empty :
      (os : List NotificationPaymentOutput) (xs : List (InternalizeOutput D))
      → All2 AdmitsOutput os xs
      → (is_empty xs ≡ false) ↔ (0 < length os)
  AdmitsOutput-is_empty [] [] h = ground arith
  AdmitsOutput-is_empty [] (x ∷ xs) h = absurd h
  AdmitsOutput-is_empty (o ∷ os) [] h = absurd h
  AdmitsOutput-is_empty (o ∷ os) (x ∷ xs) h = (λ e. omega arith, λ e. refl)

  pub Built-iff :
      (os : List NotificationPaymentOutput) (xs : List (InternalizeOutput D))
      → Built os xs ↔ ((0 < length os) × All2 AdmitsOutput os xs)
  Built-iff os xs = (
    λ h.
        let admitted = (outputs_iff os xs (Built-compatible os xs h)).0 h.1 in
        ((AdmitsOutput-is_empty os xs admitted).0 h.2, admitted),
    λ h.
        let c = AdmitsOutput-compatible os xs h.1 in
        (
          compatible-checked os c,
          (outputs_iff os xs c).1 h.1,
          (AdmitsOutput-is_empty os xs h.1).1 h.0,
        ),
  )
