-- ===== src/HttpOps/Listing/Payments.antt =====
-- `process_listed_body` of src/http_ops.rs: the payments a listed body makes, and its outcome.
use rust_messagebox_client.Prelude.{
  String, len, ◌≡◌, refl, inl, inr, Bool, true, false, ◌||◌, Bool-cases, Option, none, some, List,
  ◌∷◌, ltb, is_some, arith, if◌then◌else◌,
}
use rust_messagebox_client.Error.{Result, ok, err}
use rust_messagebox_client.Types.{
  ServerPayment, PaymentOutcome, no_payment, internalized, skipped, declined, failed, unprocessable,
  payment_is_safe,
}
use rust_messagebox_client.Deps.{Deps}
use rust_messagebox_client.Io.{bind, InternalizeActionArgs}
use rust_messagebox_client.Io.Runs.{Event, AllRuns, AllRuns-bind}
use rust_messagebox_client.Io.Avoids.{Payment, payments, Avoids-payments}
use rust_messagebox_client.Encryption.Quiet.{try_decrypt_message_typed-Avoids}
use rust_messagebox_client.HttpOps.Split.{
  SplitMessageBody, split_message_body, IsExact, split_message_body-IsExact,
  max_list_message_body_bytes,
}
use rust_messagebox_client.HttpOps.Internalize.{build_internalize_args}
use rust_messagebox_client.HttpOps.Internalize.Admits.{AdmitsPayment, build_internalize_args_iff}
use rust_messagebox_client.HttpOps.Listing.{
  ProcessedMessageBody, verdict, internalize, settle, payment_step, processed, process_listed_body,
}

module _ (D : Deps) (accept_payments : Bool) (originator : Option String) where
  -- After the payments `before` one more was made, which the wallet may be asked for.
  abbrev pub Paid :
      Option (Result ServerPayment (Unit {0}))
      → Result Bool String
      → List (Payment D)
      → List (Payment D)
      → Type 0
  Paid p reply before made =
      (payment : ServerPayment) × (args : InternalizeActionArgs D) × (p ≡ some (ok payment))
      × AdmitsPayment D payment args
      × (accept_payments ≡ true)
      × (made ≡ (args, originator, reply) ∷ before)

  abbrev pub Unfit : Option (Result ServerPayment (Unit {0})) → Type 0
  Unfit none = ⊥
  Unfit (some (err _)) = Unit
  Unfit (some (ok payment)) = (args : InternalizeActionArgs D) → ¬ AdmitsPayment D payment args

  -- What each outcome says of the payment in a body and of the payments made meanwhile.
  abbrev pub Settled :
      Option (Result ServerPayment (Unit {0}))
      → List (Payment D)
      → List (Payment D)
      → PaymentOutcome
      → Type 0
  Settled p before made no_payment = (p ≡ none) × (made ≡ before)
  Settled p before made internalized = Paid p (ok true) before made
  Settled p before made skipped = (is_some p ≡ true) × (accept_payments ≡ false) × (made ≡ before)
  Settled p before made declined = Paid p (ok false) before made
  Settled p before made failed = (e : String) × Paid p (err e) before made
  Settled p before made unprocessable = (accept_payments ≡ true) × Unfit p × (made ≡ before)

  -- A body counts as unprocessable when it is oversized, else by its payment.
  abbrev pub Stepped :
      SplitMessageBody → List (Payment D) → List (Payment D) → PaymentOutcome → Type 0
  Stepped split before made outcome =
      if split.oversized
      then (outcome ≡ unprocessable) × (made ≡ before)
      else Settled split.payment before made outcome

  -- The envelope that is handed out with an outcome.
  abbrev pub envelope_kept : String → PaymentOutcome → Option String
  envelope_kept raw_body outcome =
      if payment_is_safe outcome || ltb max_list_message_body_bytes (len raw_body)
      then none
      else some raw_body

  abbrev pub IsAccounted : String → List (Event D) → List (Event D) → ProcessedMessageBody → Type 0
  IsAccounted raw_body before log p =
      Stepped (split_message_body D raw_body) (payments before) (payments log) p.payment_outcome
      × (p.raw_payment_envelope ≡ envelope_kept raw_body p.payment_outcome)

module _ (D : Deps) (originator : Option String) where
  verdict-Settled :
      (payment : ServerPayment) (before : List (Payment D)) (args : InternalizeActionArgs D)
      (r : Result Bool String)
      → build_internalize_args D payment ≡ some args
      → Settled D true originator
          (some (ok payment))
          before
          ((args, originator, r) ∷ before)
          (verdict D r)
  verdict-Settled payment before args (ok true) h =
      (payment, args, refl, (build_internalize_args_iff D payment args).0 h, refl, refl)
  verdict-Settled payment before args (ok false) h =
      (payment, args, refl, (build_internalize_args_iff D payment args).0 h, refl, refl)
  verdict-Settled payment before args (err e) h =
      (e, (payment, args, refl, (build_internalize_args_iff D payment args).0 h, refl, refl))

  unfit :
      (payment : ServerPayment)
      → build_internalize_args D payment ≡ none
      → (args : InternalizeActionArgs D) → ¬ AdmitsPayment D payment args
  unfit payment h args admitted =
      let built = (build_internalize_args_iff D payment args).1 admitted in cc

  internalize-Settled :
      (payment : ServerPayment) (log : List (Event D)) (args : Option (InternalizeActionArgs D))
      → build_internalize_args D payment ≡ args
      → AllRuns
          (λ log' outcome.
            Settled D true originator (some (ok payment)) (payments log) (payments log') outcome)
          log
          (internalize D args originator)
  unfolding bind
  internalize-Settled payment log none h = (refl, unfit payment h, refl)
  internalize-Settled payment log (some args) h =
      λ r. verdict-Settled payment (payments log) args r h

  settle-Settled :
      (accept_payments : Bool) (p : Option (Result ServerPayment (Unit {0}))) (log : List (Event D))
      → AllRuns
          (λ log' outcome.
            Settled D accept_payments originator p (payments log) (payments log') outcome)
          log
          (settle D p accept_payments originator)
  unfolding settle bind
  settle-Settled accept_payments none log = (refl, refl)
  settle-Settled false (some p) log = (refl, refl, refl)
  settle-Settled true (some (err e)) log = (refl, tt, refl)
  settle-Settled true (some (ok payment)) log =
      internalize-Settled payment log (build_internalize_args D payment) refl

  payment_step-Stepped :
      (accept_payments : Bool) (split : SplitMessageBody) (log : List (Event D))
      → AllRuns
          (λ log' outcome.
            Stepped D accept_payments originator split (payments log) (payments log') outcome)
          log
          (payment_step D split accept_payments originator)
  unfolding payment_step
  payment_step-Stepped accept_payments split log = elim (Bool-cases split.oversized) [
    | inl h ↦ rw h (refl, refl)
    | inr h ↦ rw h (settle-Settled accept_payments split.payment log)
  ]

  kept :
      (accept_payments : Bool) (raw_body : String) (s : SplitMessageBody)
      (before made : List (Payment D)) (outcome : PaymentOutcome)
      → IsExact D raw_body s
      → Stepped D accept_payments originator s before made outcome
      → (if payment_is_safe outcome then none else s.raw_payment_envelope)
        ≡ envelope_kept D accept_payments originator raw_body outcome
  unfolding payment_is_safe
  kept accept_payments raw_body s before made outcome exact h =
      let bounded = exact.bounded in
      let whole = exact.exact in let unpaid = exact.unpaid in ground arith

  -- In every run of `process_listed_body`, whatever the wallet replies: at most one payment is made,
  -- and none when payments are not accepted. The outcome is `internalized` when that payment was
  -- accepted, `declined` when the wallet refused it and `failed` when it erred, each for a payment in
  -- the body that `AdmitsPayment` relates to what the wallet was asked. It is `no_payment` without a
  -- payment, `skipped` when there is one that was not to be accepted, and `unprocessable` when the
  -- body is oversized or no arguments are admitted for its payment, and in these cases no payment is made.
  -- The envelope is the whole body, unless the outcome is `no_payment` or `internalized` or the body is oversized.
  pub process_listed_body-IsAccounted :
      (raw_body sender : String) (accept_payments : Bool) (log : List (Event D))
      → AllRuns
          (IsAccounted D accept_payments originator raw_body log)
          log
          (process_listed_body D raw_body sender accept_payments originator)
  unfolding process_listed_body processed
  process_listed_body-IsAccounted raw_body sender accept_payments log =
      let split = split_message_body D raw_body in
      AllRuns-bind _ _ log _ _ (payment_step-Stepped accept_payments split log) λ log' outcome h.
        AllRuns-bind _ _ log' _ _
          (Avoids-payments _ log'
            (try_decrypt_message_typed-Avoids D sender originator split.inner_body))
          λ log'' d same. (
            rw same h,
            kept accept_payments raw_body split (payments log) (payments log') outcome
                (split_message_body-IsExact D raw_body) h,
          )
