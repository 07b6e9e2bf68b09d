-- ===== src/Prelude/Lists.antt =====
-- Lists measured by native numbers, and lists of texts used as sets.
use Prim.Native.Nat.{ℕ, suc, ◌+◌}
use Prim.Native.String.{String}
use mathlib.Core.Path.{◌≡◌, refl, ap}
use mathlib.Core.Logic.{inl, inr}
use mathlib.Core.Bool.{Bool, true, false, ◌&&◌, ◌||◌}
use mathlib.Core.List.{List, [], ◌∷◌, ◌++◌, map}
use native.Mathlib.Omega.{arith}
use rust_messagebox_client.Prelude.Tests.{◌=?◌, if◌then◌else◌, Bool-cases}

module _ {ℓ} {A : Type ℓ} where
  abbrev pub length : List A → ℕ
  length [] = 0
  length (x ∷ xs) = suc (length xs)

  abbrev pub is_empty : List A → Bool
  is_empty [] = true
  is_empty (x ∷ xs) = false

  abbrev pub all : (A → Bool) → List A → Bool
  all p [] = true
  all p (x ∷ xs) = p x && all p xs

  abbrev pub any : (A → Bool) → List A → Bool
  any p [] = false
  any p (x ∷ xs) = p x || any p xs

  abbrev pub select : (A → Bool) → List A → List A
  select p [] = []
  select p (x ∷ xs) = let rest = select p xs in if p x then x ∷ rest else rest

  pub length-append : (xs ys : List A) → length (xs ++ ys) ≡ length xs + length ys
  length-append [] ys = omega arith
  length-append (x ∷ xs) ys = omega (arith, length-append xs ys)

module _ {ℓ κ} {A : Type ℓ} {B : Type κ} (f : A → B) where
  pub map-append_one : (xs : List A) (x : A) → map f (xs ++ x ∷ []) ≡ map f xs ++ f x ∷ []
  map-append_one [] x = refl
  map-append_one (y ∷ xs) x = ap (λ t. f y ∷ t) (map-append_one xs x)

  -- What one more element adds to the selected ones.
  pub map-select-append_one :
      (p : A → Bool) (xs : List A) (x : A)
      → map f (select p (xs ++ x ∷ []))
        ≡ (if p x then map f (select p xs) ++ f x ∷ [] else map f (select p xs))
  map-select-append_one p [] x = elim (Bool-cases (p x)) [ inl e ↦ rw e refl | inr e ↦ rw e refl ]
  map-select-append_one p (y ∷ xs) x = ground (arith, map-select-append_one p xs x)

module _ {ℓ κ} {A : Type ℓ} (P : A → Type κ) where
  abbrev pub All : List A → Type κ
  All [] = Unit
  All (x ∷ xs) = P x × All xs

abbrev pub contains : List String → String → Bool
contains [] a = false
contains (x ∷ xs) a = a =? x || contains xs a

-- Every copy of the text goes; a set has at most one.
abbrev pub without : String → List String → List String
without a [] = []
without a (x ∷ xs) = let rest = without a xs in if a =? x then rest else x ∷ rest

abbrev pub NodupTexts : List String → Type 0
NodupTexts [] = Unit
NodupTexts (x ∷ xs) = (contains xs x ≡ false) × NodupTexts xs

pub contains-append :
    (xs ys : List String) (a : String) → contains (xs ++ ys) a ≡ (contains xs a || contains ys a)
contains-append [] ys a = refl
contains-append (x ∷ xs) ys a = ground (arith, contains-append xs ys a)

pub contains-without :
    (b : String) (xs : List String) (a : String)
    → contains (without b xs) a ≡ (if a =? b then false else contains xs a)
contains-without b [] a = ground arith
contains-without b (x ∷ xs) a = ground (arith, contains-without b xs a)

pub All-map {ℓ κ μ} :
    {A : Type ℓ} (P : A → Type κ) (Q : A → Type μ) (xs : List A)
    → ((x : A) → P x → Q x)
    → All P xs
    → All Q xs
All-map P Q [] f h = tt
All-map P Q (x ∷ xs) f h = (f x h.0, All-map P Q xs f h.1)

pub All-append {ℓ κ} :
    {A : Type ℓ} (P : A → Type κ) (xs : List A) (y : A) → All P xs → P y → All P (xs ++ y ∷ [])
All-append P [] y h p = (p, tt)
All-append P (x ∷ xs) y h p = (h.0, All-append P xs y h.1 p)

-- How often a text occurs.
abbrev pub count : String → List String → ℕ
count a [] = 0
count a (x ∷ xs) = let rest = count a xs in if a =? x then suc rest else rest

pub count-append : (a : String) (xs ys : List String) → count a (xs ++ ys) ≡ count a xs + count a ys
count-append a [] ys = omega arith
count-append a (x ∷ xs) ys = ground (arith, count-append a xs ys)
