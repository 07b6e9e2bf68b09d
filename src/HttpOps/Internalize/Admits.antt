-- ===== src/HttpOps/Internalize/Admits.antt =====
-- Which payments the wallet is asked to internalize, as a relation between the two sides.
use rust_messagebox_client.Prelude.{
  ℕ, ◌<◌, ◌≤◌, String, len, ◌≡◌, ◌↔◌, false, Option, none, some, List, [], ◌∷◌, length, arith,
  unwrap_or,
}
use rust_messagebox_client.Prelude.Text.{trim, any_char, is_control}
use rust_messagebox_client.Prelude.Maybe.{traverse, traverse_iff, All2}
use rust_messagebox_client.Types.{ServerPayment, ServerPaymentOutput}
use rust_messagebox_client.Deps.{Deps}
use rust_messagebox_client.Io.{InternalizeOutput, InternalizeActionArgs}
use rust_messagebox_client.HttpOps.Internalize.{
  is_bad_description, valid_payment_description, build_output, build_internalize_args,
}
use rust_messagebox_client.HttpOps.Internalize.Outputs.{Admits, build_output_iff}

abbrev pub IsDescription : String → Type 0
IsDescription text =
    (0 < len text) × (len text ≤ 50) × (trim text ≡ text) × (any_char is_control text ≡ false)

is_bad_description_iff : (text : String) → (is_bad_description text ≡ false) ↔ IsDescription text
unfolding is_bad_description
is_bad_description_iff text = ground arith

module _ (D : Deps) where
  abbrev Tx : Option (List ℕ) → List ℕ → Type 0
  Tx none tx = ⊥
  Tx (some raw) tx = (raw ≡ tx) × (0 < length raw) × (length raw ≤ 33_554_432)

  abbrev Stored : Option (List ServerPaymentOutput) → List (InternalizeOutput D) → Type 0
  Stored none stored = ⊥
  Stored (some outputs) stored =
      (0 < length outputs) × (length outputs ≤ 101) × All2 (Admits D) outputs stored

  abbrev StoredRun : Option (List ServerPaymentOutput) → List (InternalizeOutput D) → Type 0
  StoredRun none stored = ⊥
  StoredRun (some outputs) stored =
      (0 < length outputs)
      × (length outputs ≤ 101)
      × (traverse (build_output D) outputs ≡ some stored)

  Stored-iff :
      (outputs : Option (List ServerPaymentOutput)) (stored : List (InternalizeOutput D))
      → StoredRun outputs stored ↔ Stored outputs stored
  Stored-iff none stored = (λ h. h, λ h. h)
  Stored-iff (some outputs) stored =
      let each = traverse_iff (Admits D) (build_output D) (build_output_iff D) outputs stored in
      (λ h. (h.0, h.1, each.0 h.2), λ h. (h.0, h.1, each.1 h.2))

  -- What the wallet is asked for a payment, with `S` the relation between the two lists of outputs.
  abbrev AdmitsBy :
      (Option (List ServerPaymentOutput) → List (InternalizeOutput D) → Type 0)
      → ServerPayment
      → InternalizeActionArgs D
      → Type 0
  AdmitsBy S payment args =
      Tx payment.tx args.tx
      × S payment.outputs args.outputs
      × (args.description ≡ unwrap_or payment.description "MessageBox recipient payment")
      × IsDescription args.description
      × (args.labels ≡ "server-delivery-fee" ∷ [])
      × (args.seek_permission ≡ false)

  abbrev pub AdmitsPayment : ServerPayment → InternalizeActionArgs D → Type 0
  AdmitsPayment = AdmitsBy Stored

  build_sound :
      (payment : ServerPayment) (args : InternalizeActionArgs D)
      → build_internalize_args D payment ≡ some args
      → AdmitsBy StoredRun payment args
  unfolding build_internalize_args valid_payment_description is_bad_description
  build_sound payment args h = ground arith

  build_complete :
      (payment : ServerPayment) (args : InternalizeActionArgs D)
      → AdmitsBy StoredRun payment args
      → build_internalize_args D payment ≡ some args
  unfolding build_internalize_args valid_payment_description is_bad_description
  build_complete payment args h = ground arith

  -- `build_internalize_args` accepts a payment exactly with the arguments that `AdmitsPayment` relates
  -- to it: a transaction of 1 byte to 32 MiB; 1 to 101 outputs, each of them a wallet payment or a
  -- basket insertion that is well formed, in their order; a printable description of 1 to 50 bytes
  -- without blanks around it, the default one when there is none; and no permission prompt.
  pub build_internalize_args_iff :
      (payment : ServerPayment) (args : InternalizeActionArgs D)
      → (build_internalize_args D payment ≡ some args) ↔ AdmitsPayment payment args
  build_internalize_args_iff payment args =
      let outputs = Stored-iff payment.outputs args.outputs in
      (
        λ h. let (t, o, d, e, l, s) = build_sound payment args h in (t, outputs.0 o, d, e, l, s),
        λ (t, o, d, e, l, s). build_complete payment args (t, outputs.1 o, d, e, l, s),
      )
