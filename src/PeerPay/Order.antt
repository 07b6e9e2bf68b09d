-- ===== src/PeerPay/Order.antt =====
-- The order of the monetary step and of the acknowledgement in src/peer_pay.rs.
use rust_messagebox_client.Prelude.{
  ℕ, ◌-◌, ◌≤◌, ◌<◌, String, ◌≡◌, refl, ◌⊎◌, inl, inr, Bool, true, false, Option, List, ◌∷◌, ltb,
  Bool-cases, arith,
}
use rust_messagebox_client.Error.{Result, ok, err, Fallible, MessageBoxError}
use rust_messagebox_client.Types.{IncomingPayment}
use rust_messagebox_client.Deps.{Deps}
use rust_messagebox_client.Io.{InternalizeActionArgs, internalize_action, Io}
use rust_messagebox_client.Io.Runs.{
  Event, AllRuns, AllRuns-then, AllRuns-of_result, AllRuns-of_call,
}
use rust_messagebox_client.PeerPay.{
  peerpay_args, require_accepted, internalize_payment, accept_payment_with_ack, reject_payment_with,
}

module _ (D : Deps) (originator : Option String) where
  open D use {PublicKey, public_key_from_string, base64_decode}

  -- The wallet accepted the payment as the last call between two logs.
  pub record Accepted (payment : IncomingPayment) (before log : List (Event D)) : Type 0 where
    pub key : PublicKey
    pub prefix : List ℕ
    pub suffix : List ℕ
    pub sender_key : public_key_from_string payment.sender ≡ ok key
    pub prefix_decoded :
        base64_decode payment.token.custom_instructions.derivation_prefix ≡ ok prefix
    pub suffix_decoded :
        base64_decode payment.token.custom_instructions.derivation_suffix ≡ ok suffix
    pub last :
        log
        ≡ (internalize_action (peerpay_args D payment key prefix suffix) originator, ok true)
          ∷ before

  -- No call was made between two logs, or one to internalize that was not accepted.
  abbrev pub Refused : List (Event D) → List (Event D) → Type 0
  Refused before log =
      (log ≡ before)
      ⊎ ((args : InternalizeActionArgs D) × (reply : Result Bool String) × (¬ (reply ≡ ok true))
          × (log ≡ (internalize_action args originator, reply) ∷ before))

  abbrev pub Accepts :
      IncomingPayment → List (Event D) → List (Event D) → Fallible (Unit {0}) → Type 0
  Accepts payment before log (ok _) = Accepted payment before log
  Accepts payment before log (err _) = Refused before log

  internalize_payment-Accepts :
      (payment : IncomingPayment) (log : List (Event D))
      → AllRuns (Accepts payment log) log (internalize_payment D originator payment)
  unfolding internalize_payment
  internalize_payment-Accepts payment log =
      AllRuns-of_result P log _ (public_key_from_string payment.sender) _
        (λ key sender_key.
          AllRuns-of_result P log _ _ _
            (λ prefix prefix_decoded.
              AllRuns-of_result P log _ _ _
                (λ suffix suffix_decoded.
                  AllRuns-of_call
                    (λ log' r.
                      log'
                      ≡ (
                        internalize_action (peerpay_args D payment key prefix suffix) originator,
                        r,
                      )
                        ∷ log)
                    P log _ _ _ (λ r. refl)
                    (λ log' accepted last.
                      elim accepted
                          as (λ b.
                            (log'
                              ≡ (
                                internalize_action (peerpay_args D payment key prefix suffix)
                                    originator,
                                ok b,
                              )
                                ∷ log)
                            → AllRuns P log'
                                (require_accepted D "wallet did not accept the payment" b)) [
                                  | true ↦ λ l. record {
                                    key = key;
                                    prefix = prefix;
                                    suffix = suffix;
                                    sender_key = sender_key;
                                    prefix_decoded = prefix_decoded;
                                    suffix_decoded = suffix_decoded;
                                    last = l;
                                  }
                                  | false ↦ λ l. inr (
                                    peerpay_args D payment key prefix suffix,
                                    ok false,
                                    (λ e. cc),
                                    l,
                                  )
                                ]
                        last)
                    (λ log' e last.
                      inr (peerpay_args D payment key prefix suffix, err e, (λ e. cc), last)))
                (λ e. inl refl))
            (λ e. inl refl))
        (λ e. inl refl)
    where
      P : List (Event D) → Fallible (Unit {0}) → Type 0
      P = Accepts payment log

  -- `accept_payment` acknowledges only after the wallet accepted the payment: to show that all its
  -- runs satisfy `P`, it is enough to look at the acknowledgement right after the accepted call, and
  -- at errors when at most one call was made, which the wallet did not accept.
  pub accept_payment_with_ack-order {ℓ} :
      (payment : IncomingPayment) (acknowledge : Io D (Unit {0}))
      (P : List (Event D) → Fallible (Unit {0}) → Type ℓ) (log : List (Event D))
      → ((log' : List (Event D)) → Accepted payment log log' → AllRuns P log' acknowledge)
      → ((log' : List (Event D)) (e : MessageBoxError) → Refused log log' → P log' (err e))
      → AllRuns P log (accept_payment_with_ack D originator payment acknowledge)
  unfolding accept_payment_with_ack
  accept_payment_with_ack-order payment acknowledge P log acked refused =
      AllRuns-then (Accepts payment log) P log (internalize_payment D originator payment) _
        (internalize_payment-Accepts payment log) (λ log' u. acked log') refused

  -- `reject_payment` on its two branches, for any refund and any acknowledgement. An amount under
  -- 2000 is acknowledged at once. From 2000 on, the refund of the amount less 1000 starts right after
  -- the wallet accepted the payment, the acknowledgement after a refund that succeeded, and nothing
  -- follows a payment that was not accepted or a refund that failed. To show that all runs satisfy `P`,
  -- it is enough to look at these situations, with any property `Q` of the refund's runs.
  pub reject_payment_with-order {ℓ κ} :
      (payment : IncomingPayment) (refund : ℕ → Io D (Unit {0})) (acknowledge : Io D (Unit {0}))
      (Q : List (Event D) → Fallible (Unit {0}) → Type κ)
      (P : List (Event D) → Fallible (Unit {0}) → Type ℓ) (log : List (Event D))
      → (payment.token.amount < 2000 → AllRuns P log acknowledge)
      → (2000 ≤ payment.token.amount
          → (log' : List (Event D)) → Accepted payment log log'
          → AllRuns Q log' (refund (payment.token.amount - 1000)))
      → ((log' : List (Event D)) → Q log' (ok tt) → AllRuns P log' acknowledge)
      → ((log' : List (Event D)) (e : MessageBoxError) → Q log' (err e) → P log' (err e))
      → ((log' : List (Event D)) (e : MessageBoxError) → Refused log log' → P log' (err e))
      → AllRuns P log (reject_payment_with D originator payment refund acknowledge)
  unfolding reject_payment_with
  reject_payment_with-order payment refund acknowledge Q P log small refunded acked failed refused =
      elim (Bool-cases (ltb payment.token.amount 2000)) [
        | inl e ↦ rw e (small (ground arith))
        | inr e ↦ rw e (
            AllRuns-then (Accepts payment log) P log (internalize_payment D originator payment) _
              (internalize_payment-Accepts payment log)
              (λ log' u accepted.
                AllRuns-then Q P log' (refund (payment.token.amount - 1000)) _
                  (refunded (ground arith) log' accepted) (λ log'' v. acked log'') failed)
              refused)
      ]
