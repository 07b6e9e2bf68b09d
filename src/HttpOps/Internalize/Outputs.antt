-- ===== src/HttpOps/Internalize/Outputs.antt =====
-- Which outputs of a payment the wallet is asked to store, as a relation between the two sides.
use text.Mathlib.Text.{starts_with}
use rust_messagebox_client.Prelude.{
  ℕ, ◌<◌, ◌≤◌, String, len, ◌≡◌, refl, ◌⊎◌, ◌↔◌, true, false, Option, none, some, List, [], length,
  arith, ◌=?◌, string_dec, inl, inr, unwrap_or, if◌then◌else◌,
}
use rust_messagebox_client.Prelude.Text.{trim, all_chars, is_hexdigit}
use rust_messagebox_client.Prelude.Maybe.{◌>>=◌, traverse, traverse_iff, All2, >>=-eq-some}
use rust_messagebox_client.Error.{ok}
use rust_messagebox_client.Types.{
  ServerPaymentOutput, ServerPaymentRemittance, ServerInsertionRemittance,
}
use rust_messagebox_client.Deps.{Deps}
use rust_messagebox_client.Io.{InternalizeOutput, wallet_payment, basket_insertion}
use rust_messagebox_client.HttpOps.Internalize.{
  is_bad_sender_key, build_wallet_payment, normalized_basket_field, build_basket_insertion,
  build_output,
}

abbrev pub IsSenderKey : String → Type 0
IsSenderKey key =
    (len key ≡ 66)
    × ((starts_with key "02" ≡ true) ⊎ (starts_with key "03" ≡ true))
    × (all_chars is_hexdigit key ≡ true)

is_bad_sender_key_iff : (key : String) → (is_bad_sender_key key ≡ false) ↔ IsSenderKey key
unfolding is_bad_sender_key
is_bad_sender_key_iff key = ground arith

abbrev choose {ℓ} : {A : Type ℓ} → Option A → Option A → String → Option A
choose w b protocol =
    if protocol =? "wallet payment" then w else if protocol =? "basket insertion" then b else none

chosen {ℓ} :
    {A : Type ℓ} (w b : Option A) (protocol : String) (x : A)
    → choose w b protocol ≡ some x
    → ((protocol ≡ "wallet payment") × (w ≡ some x))
      ⊎ ((protocol ≡ "basket insertion") × (b ≡ some x))
chosen w b protocol x h = ground arith

dispatched {ℓ} :
    {A : Type ℓ} (index : Option ℕ) (protocol : Option String) (w b : ℕ → Option A) {i : ℕ}
    {p : String} {x : A}
    → index ≡ some i
    → protocol ≡ some p
    → ((p ≡ "wallet payment") × (w i ≡ some x)) ⊎ ((p ≡ "basket insertion") × (b i ≡ some x))
    → (do j ← index; q ← protocol; choose (w j) (b j) q) ≡ some x
unfolding string_dec
dispatched index protocol w b h k (inl d) = rw (h, k, d.0) d.1
dispatched index protocol w b h k (inr d) = rw (h, k, d.0) d.1

module _ (D : Deps) where
  open D use {PublicKey, public_key_from_string, base64_decode, to_lowercase}

  abbrev Derives : Option String → List ℕ → Type 0
  Derives none bytes = ⊥
  Derives (some raw) bytes =
      (0 < len (trim raw))
      × (len (trim raw) ≤ 44)
      × (base64_decode (trim raw) ≡ ok bytes)
      × (0 < length bytes)
      × (length bytes ≤ 32)

  abbrev Signs : Option String → PublicKey → Type 0
  Signs none key = ⊥
  Signs (some text) key = IsSenderKey text × (public_key_from_string text ≡ ok key)

  abbrev Remits : Option ServerPaymentRemittance → List ℕ → List ℕ → PublicKey → Type 0
  Remits none prefix suffix key = ⊥
  Remits (some r) prefix suffix key =
      Derives r.derivation_prefix prefix
      × Derives r.derivation_suffix suffix
      × Signs r.sender_identity_key key

  build_wallet_payment_sound :
      (i : ℕ) (o : ServerPaymentOutput) (j : ℕ) (prefix suffix : List ℕ) (key : PublicKey)
      → (build_wallet_payment D i o ≡ some (wallet_payment j prefix suffix key))
      → ((i ≡ j) × (o.insertion_remittance ≡ none) × Remits o.payment_remittance prefix suffix key)
  unfolding build_wallet_payment is_bad_sender_key
  build_wallet_payment_sound i o j prefix suffix key = ground arith

  build_wallet_payment_complete :
      (i : ℕ) (o : ServerPaymentOutput) (prefix suffix : List ℕ) (key : PublicKey)
      → o.insertion_remittance ≡ none
      → Remits o.payment_remittance prefix suffix key
      → build_wallet_payment D i o ≡ some (wallet_payment i prefix suffix key)
  unfolding build_wallet_payment is_bad_sender_key
  build_wallet_payment_complete i o prefix suffix key h r = ground arith

  abbrev Normalizes : String → String → Type 0
  Normalizes raw text = (text ≡ to_lowercase (trim raw)) × (0 < len text) × (len text ≤ 300)

  normalized_basket_field_iff :
      (raw text : String) → (normalized_basket_field D raw ≡ some text) ↔ Normalizes raw text
  unfolding normalized_basket_field
  normalized_basket_field_iff raw text = ground arith

  abbrev Basket : (String → String → Type 0) → Option String → String → Type 0
  Basket N none basket = ⊥
  Basket N (some raw) basket = N raw basket

  abbrev Instructs : Option String → Type 0
  Instructs none = Unit
  Instructs (some text) = len text ≤ 1000

  -- Over what is asked of the basket and of the tags.
  abbrev InsertsBy :
      (String → String → Type 0)
      → (List String → List String → Type 0)
      → Option ServerInsertionRemittance
      → String
      → Option String
      → List String
      → Type 0
  InsertsBy N T none basket instructions tags = ⊥
  InsertsBy N T (some r) basket instructions tags =
      Basket N r.basket basket
      × (r.custom_instructions ≡ instructions)
      × Instructs instructions
      × (length (unwrap_or r.tags []) ≤ 10_000)
      × T (unwrap_or r.tags []) tags

  abbrev Inserts : Option ServerInsertionRemittance → String → Option String → List String → Type 0
  Inserts = InsertsBy Normalizes (All2 Normalizes)

  abbrev InsertsRun :
      Option ServerInsertionRemittance → String → Option String → List String → Type 0
  InsertsRun =
      InsertsBy (λ raw text. normalized_basket_field D raw ≡ some text)
        (λ raw tags. traverse (normalized_basket_field D) raw ≡ some tags)

  Basket-iff :
      (b : Option String) (basket : String)
      → Basket (λ raw text. normalized_basket_field D raw ≡ some text) b basket
        ↔ Basket Normalizes b basket
  Basket-iff none basket = (λ h. h, λ h. h)
  Basket-iff (some raw) basket = normalized_basket_field_iff raw basket

  Inserts-iff :
      (m : Option ServerInsertionRemittance) (basket : String) (instructions : Option String)
      (tags : List String)
      → InsertsRun m basket instructions tags ↔ Inserts m basket instructions tags
  Inserts-iff none basket instructions tags = (λ h. h, λ h. h)
  Inserts-iff (some r) basket instructions tags =
      let bs = Basket-iff r.basket basket in
      let ts =
        traverse_iff Normalizes (normalized_basket_field D) normalized_basket_field_iff
          (unwrap_or r.tags []) tags in
      (λ h. (bs.0 h.0, h.1, h.2, h.3, ts.0 h.4), λ h. (bs.1 h.0, h.1, h.2, h.3, ts.1 h.4))

  build_basket_insertion_sound :
      (i : ℕ) (o : ServerPaymentOutput) (j : ℕ) (basket : String) (instructions : Option String)
      (tags : List String)
      → build_basket_insertion D i o ≡ some (basket_insertion j basket instructions tags)
      → (i ≡ j)
        × (o.payment_remittance ≡ none)
        × InsertsRun o.insertion_remittance basket instructions tags
  unfolding build_basket_insertion
  build_basket_insertion_sound i o j basket instructions tags h = ground arith

  build_basket_insertion_complete :
      (i : ℕ) (o : ServerPaymentOutput) (basket : String) (instructions : Option String)
      (tags : List String)
      → o.payment_remittance ≡ none
      → InsertsRun o.insertion_remittance basket instructions tags
      → build_basket_insertion D i o ≡ some (basket_insertion i basket instructions tags)
  unfolding build_basket_insertion
  build_basket_insertion_complete i o basket instructions tags h r = ground arith

  -- An output of the server's payment, and the output that the wallet is asked to store for it.
  abbrev pub Admits : ServerPaymentOutput → InternalizeOutput D → Type 0
  Admits o (wallet_payment i prefix suffix key) =
      (o.output_index ≡ some i)
      × (o.protocol ≡ some "wallet payment")
      × (o.insertion_remittance ≡ none)
      × Remits o.payment_remittance prefix suffix key
  Admits o (basket_insertion i basket instructions tags) =
      (o.output_index ≡ some i)
      × (o.protocol ≡ some "basket insertion")
      × (o.payment_remittance ≡ none)
      × Inserts o.insertion_remittance basket instructions tags

  build_wallet_payment-ne-basket :
      (i : ℕ) (o : ServerPaymentOutput) {j : ℕ} {b : String} {c : Option String} {t : List String}
      → build_wallet_payment D i o ≡ some (basket_insertion j b c t)
      → ⊥
  unfolding build_wallet_payment
  build_wallet_payment-ne-basket i o h = ground arith

  build_basket_insertion-ne-wallet :
      (i : ℕ) (o : ServerPaymentOutput) {j : ℕ} {p s : List ℕ} {k : PublicKey}
      → build_basket_insertion D i o ≡ some (wallet_payment j p s k)
      → ⊥
  unfolding build_basket_insertion
  build_basket_insertion-ne-wallet i o h = ground arith

  abbrev Dispatched : ServerPaymentOutput → InternalizeOutput D → ℕ → String → Type 0
  Dispatched o x i protocol =
      ((protocol ≡ "wallet payment") × (build_wallet_payment D i o ≡ some x))
      ⊎ ((protocol ≡ "basket insertion") × (build_basket_insertion D i o ≡ some x))

  build_output-dispatch :
      (o : ServerPaymentOutput) (x : InternalizeOutput D)
      → build_output D o ≡ some x
      → (i : ℕ) × (protocol : String) × (o.output_index ≡ some i)
        × (o.protocol ≡ some protocol)
        × Dispatched o x i protocol
  unfolding build_output
  build_output-dispatch o x h =
      let (i, p, rest) = >>=-eq-some o.output_index _ h in
      let (protocol, q, last) = >>=-eq-some o.protocol _ rest in
      (i, protocol, p, q, chosen _ _ protocol x last)

  build_output_sound :
      (o : ServerPaymentOutput) (x : InternalizeOutput D) → build_output D o ≡ some x → Admits o x
  build_output_sound o (wallet_payment i p s k) h =
      let (j, protocol, idx, proto, d) = build_output-dispatch o _ h in
      elim d [
        | inl (e, b) ↦ let r = build_wallet_payment_sound j o i p s k b in (cc (r.0), cc, r.1, r.2)
        | inr (e, b) ↦ absurd (build_basket_insertion-ne-wallet j o b)
      ]
  build_output_sound o (basket_insertion i b c t) h =
      let (j, protocol, idx, proto, d) = build_output-dispatch o _ h in
      elim d [
        | inl (e, w) ↦ absurd (build_wallet_payment-ne-basket j o w)
        | inr (e, w) ↦
            let r = build_basket_insertion_sound j o i b c t w in
            (cc (r.0), cc, r.1, (Inserts-iff o.insertion_remittance b c t).0 r.2)
      ]

  build_output_complete :
      (o : ServerPaymentOutput) (x : InternalizeOutput D) → Admits o x → build_output D o ≡ some x
  unfolding build_output
  build_output_complete o (wallet_payment i p s k) h =
      let build = build_wallet_payment_complete i o p s k h.2 h.3 in
      dispatched o.output_index o.protocol _ _ h.0 h.1 (inl (refl, build))
  build_output_complete o (basket_insertion i b c t) h =
      let build =
        build_basket_insertion_complete i o b c t h.2
          ((Inserts-iff o.insertion_remittance b c t).1 h.3) in
      dispatched o.output_index o.protocol _ _ h.0 h.1 (inr (refl, build))

  pub build_output_iff :
      (o : ServerPaymentOutput) (x : InternalizeOutput D) → (build_output D o ≡ some x) ↔ Admits o x
  build_output_iff o x = (build_output_sound o x, build_output_complete o x)
