-- ===== src/Prelude/Maybe.antt =====
-- `?` on an `Option`, and on a `Result<_, ()>`, which is an `Option` too.
use rust_messagebox_client.Prelude.{
  ◌≡◌, refl, ◌↔◌, Bool, true, false, Option, none, some, List, [], ◌∷◌,
}

infixl 5 ◌>>=◌ ◌>>◌
abbrev pub ◌>>=◌ {ℓ κ} : {A : Type ℓ} {B : Type κ} → Option A → (A → Option B) → Option B
none >>= f = none
some a >>= f = f a

abbrev pub ◌>>◌ {κ} : {B : Type κ} → Option (Unit {0}) → Option B → Option B
m >> n = m >>= λ _. n

-- `if b { return Err(()); }`
abbrev pub reject_if : Bool → Option (Unit {0})
reject_if true = none
reject_if false = some tt

-- A loop that stops at the first failure, or `collect` into a `Result`.
unfoldable pub traverse {ℓ κ} :
    {A : Type ℓ} {B : Type κ} → (A → Option B) → List A → Option (List B)
traverse f [] = some []
traverse f (x ∷ xs) = do y ← f x; ys ← traverse f xs; some (y ∷ ys)

pub >>=-eq-some {ℓ κ} :
    {A : Type ℓ} {B : Type κ} (m : Option A) (f : A → Option B) {b : B}
    → (m >>= f) ≡ some b
    → (a : A) × (m ≡ some a) × (f a ≡ some b)
>>=-eq-some none f h = cc
>>=-eq-some (some a) f h = (a, refl, h)

pub reject_if-eq-some : (b : Bool) {u : Unit {0}} → reject_if b ≡ some u → b ≡ false
reject_if-eq-some true h = cc
reject_if-eq-some false h = refl

abbrev pub All2 {ℓ κ} : {A : Type ℓ} {B : Type κ} → (A → B → Type 0) → List A → List B → Type 0
All2 R [] [] = Unit
All2 R [] (y ∷ ys) = ⊥
All2 R (x ∷ xs) [] = ⊥
All2 R (x ∷ xs) (y ∷ ys) = R x y × All2 R xs ys

module _ {ℓ κ} {A : Type ℓ} {B : Type κ} (f : A → Option B) where
  traverse-nil : (zs : List B) → traverse f [] ≡ some zs → zs ≡ []
  unfolding traverse
  traverse-nil zs e = cc

  traverse-cons :
      (x : A) (xs : List A) (zs : List B)
      → traverse f (x ∷ xs) ≡ some zs
      → (y : B) × (ys : List B) × (f x ≡ some y) × (traverse f xs ≡ some ys) × (y ∷ ys ≡ zs)
  unfolding traverse
  traverse-cons x xs zs e =
      let (y, p, q) = >>=-eq-some (f x) _ e in
      let (ys, r, t) = >>=-eq-some (traverse f xs) _ q in (y, ys, p, r, cc)

  traverse-cons_some :
      (x : A) (xs : List A) (y : B) (ys : List B)
      → f x ≡ some y
      → traverse f xs ≡ some ys
      → traverse f (x ∷ xs) ≡ some (y ∷ ys)
  unfolding traverse
  traverse-cons_some x xs y ys p q = rw (p, q)

-- A traversal succeeds exactly with the list that is related to its input, place by place.
pub traverse_iff {ℓ κ} :
    {A : Type ℓ} {B : Type κ} (R : A → B → Type 0) (f : A → Option B)
    → ((x : A) (y : B) → (f x ≡ some y) ↔ R x y)
    → (xs : List A) (ys : List B) → (traverse f xs ≡ some ys) ↔ All2 R xs ys
traverse_iff R f h [] [] = (λ e. tt, λ a. unfold traverse in refl)
traverse_iff R f h [] (y ∷ ys) = (λ e. cc (traverse-nil f (y ∷ ys) e), λ a. absurd a)
traverse_iff R f h (x ∷ xs) [] =
    (λ e. let (y, ys, p, q, bad) = traverse-cons f x xs [] e in cc, λ a. absurd a)
traverse_iff R f h (x ∷ xs) (y ∷ ys) = (
  λ e.
      let (z, zs, p, q, same) = traverse-cons f x xs (y ∷ ys) e in
      ((h x y).0 cc, (traverse_iff R f h xs ys).0 cc),
  λ a. traverse-cons_some f x xs y ys ((h x y).1 a.0) ((traverse_iff R f h xs ys).1 a.1),
)
