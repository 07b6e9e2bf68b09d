-- ===== src/Prelude/Int.antt =====
-- `i64` over the native numbers: integers, and sums that wrap around.
use Prim.Native.Nat.{ℕ, suc, ◌+◌, ◌-◌, ◌^◌, ◌%◌, ◌<◌}
use mathlib.Core.Bool.{Bool, true, false}
use mathlib.Core.Path.{◌≡◌, refl, ap, ◌∙◌}
use mathlib.Core.List.{List, [], ◌∷◌, ◌++◌}
use native.Mathlib.Omega.{arith}
use rust_messagebox_client.Prelude.Tests.{ltb, leb, if◌then◌else◌}

-- `negsuc n` is -(n + 1).
pub data ℤ : Type 0 where
  pos : ℕ → ℤ
  negsuc : ℕ → ℤ

abbrev pub pos_part : ℤ → ℕ
pos_part (pos n) = n
pos_part (negsuc n) = 0

abbrev pub neg_part : ℤ → ℕ
neg_part (pos n) = 0
neg_part (negsuc n) = suc n

-- a - b, as an integer.
abbrev pub sub_ℕ : ℕ → ℕ → ℤ
sub_ℕ a b = if leb b a then pos (a - b) else negsuc (b - a - 1)

-- `f < 0` and `f > 0`.
abbrev pub is_negative : ℤ → Bool
is_negative (pos n) = false
is_negative (negsuc n) = true

abbrev pub is_positive : ℤ → Bool
is_positive (pos n) = ltb 0 n
is_positive (negsuc n) = false

infixl 65 ◌+ℤ◌
unfoldable pub ◌+ℤ◌ : ℤ → ℤ → ℤ
a +ℤ b = sub_ℕ (pos_part a + pos_part b) (neg_part a + neg_part b)

abbrev residue : ℤ → ℕ
residue (pos n) = n % 2 ^ 64
residue (negsuc n) = 2 ^ 64 - 1 - n % 2 ^ 64

-- The `i64` with the same residue modulo 2 ^ 64.
abbrev signed64 : ℕ → ℤ
signed64 r = if ltb r (2 ^ 63) then pos r else negsuc (2 ^ 64 - 1 - r)

unfoldable pub wrap_i64 : ℤ → ℤ
wrap_i64 z = signed64 (residue z)

-- `a + b` on `i64`, as it wraps around in a release build.
unfoldable pub add_i64 : ℤ → ℤ → ℤ
unfolding ◌+ℤ◌ wrap_i64
add_i64 a b = wrap_i64 (a +ℤ b)

residue-wrap_i64 : (a : ℤ) → residue (wrap_i64 a) ≡ residue a
unfolding wrap_i64
residue-wrap_i64 a = ground arith

residue-add : (a b c : ℤ) → residue a ≡ residue c → residue (a +ℤ b) ≡ residue (c +ℤ b)
unfolding ◌+ℤ◌
residue-add a b c h = ground arith

pub add_i64-wrap_i64 : (a b : ℤ) → add_i64 (wrap_i64 a) b ≡ wrap_i64 (a +ℤ b)
unfolding add_i64 wrap_i64
add_i64-wrap_i64 a b = ap signed64 (residue-add (wrap_i64 a) b a (residue-wrap_i64 a))

+ℤ_comm : (a b : ℤ) → a +ℤ b ≡ b +ℤ a
unfolding ◌+ℤ◌
+ℤ_comm a b = ground arith

wrap_i64-right : (a b : ℤ) → wrap_i64 (a +ℤ wrap_i64 b) ≡ wrap_i64 (a +ℤ b)
unfolding add_i64
wrap_i64-right a b =
    ap wrap_i64 (+ℤ_comm a (wrap_i64 b)) ∙ add_i64-wrap_i64 b a ∙ ap wrap_i64 (+ℤ_comm b a)

pub add_i64-wrap_i64-wrap_i64 : (a b : ℤ) → add_i64 (wrap_i64 a) (wrap_i64 b) ≡ wrap_i64 (a +ℤ b)
add_i64-wrap_i64-wrap_i64 a b = add_i64-wrap_i64 a (wrap_i64 b) ∙ wrap_i64-right a b

-- The exact sum.
abbrev sum_from : ℤ → List ℤ → ℤ
sum_from a [] = a
sum_from a (x ∷ xs) = sum_from (a +ℤ x) xs

abbrev pub sum : List ℤ → ℤ
sum = sum_from (pos 0)

sum_from-append : (a : ℤ) (xs : List ℤ) (y : ℤ) → sum_from a (xs ++ y ∷ []) ≡ sum_from a xs +ℤ y
sum_from-append a [] y = refl
sum_from-append a (x ∷ xs) y = sum_from-append (a +ℤ x) xs y

pub sum-append : (xs : List ℤ) (y : ℤ) → sum (xs ++ y ∷ []) ≡ sum xs +ℤ y
sum-append = sum_from-append (pos 0)

pub wrap_i64-pos : (n : ℕ) → n < 2 ^ 63 → wrap_i64 (pos n) ≡ pos n
unfolding wrap_i64
wrap_i64-pos n h = ground arith
