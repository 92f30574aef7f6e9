-- ===== src/Base/Int.antt =====
-- Signed integers over the native numbers: amounts of money, quantities of matter and points.
use elcorazon_backend.Base.Tests.{ltb, leb, nat_beq, if◌then◌else◌}
use Prim.Native.Nat.{ℕ, suc, ◌+◌, ◌-◌, ◌*◌, ◌/◌, ◌≤◌, ◌<◌}
use mathlib.Core.Path.{◌≡◌, refl, ap}
use mathlib.Core.Logic.{◌↔◌}
use mathlib.Core.Bool.{Bool, true}
use mathlib.Core.List.{List, [], ◌∷◌, ◌++◌}
use native.Mathlib.Nat.{le_of_mul-le-mul_right}
use native.Mathlib.Omega.{arith}

-- `negsuc n` is -(n + 1).
pub data ℤ : Type 0 where
  pos : ℕ → ℤ
  negsuc : ℕ → ℤ

abbrev pub pos_part : ℤ → ℕ
pos_part (pos n) = n
pos_part (negsuc n) = 0

abbrev pub neg_part : ℤ → ℕ
neg_part (pos n) = 0
neg_part (negsuc n) = suc n

-- a - b, as an integer.
abbrev pub sub_ℕ : ℕ → ℕ → ℤ
sub_ℕ a b = if leb b a then pos (a - b) else negsuc (b - a - 1)

infixl 65 ◌+ℤ◌ ◌-ℤ◌
infixl 70 ◌*ℤ◌
infix 50 ◌≤ℤ◌ ◌<ℤ◌
unfoldable pub ◌+ℤ◌ : ℤ → ℤ → ℤ
a +ℤ b = sub_ℕ (pos_part a + pos_part b) (neg_part a + neg_part b)

unfoldable pub ◌-ℤ◌ : ℤ → ℤ → ℤ
a -ℤ b = sub_ℕ (pos_part a + neg_part b) (neg_part a + pos_part b)

-- An integer times a number.
unfoldable pub ◌*ℤ◌ : ℤ → ℕ → ℤ
a *ℤ k = sub_ℕ (pos_part a * k) (neg_part a * k)

-- The product of two integers.
unfoldable pub times : ℤ → ℤ → ℤ
unfolding ◌*ℤ◌ ◌-ℤ◌
times a b = a *ℤ pos_part b -ℤ a *ℤ neg_part b

unfoldable pub neg : ℤ → ℤ
neg a = sub_ℕ (neg_part a) (pos_part a)

-- Python's `abs`.
unfoldable pub abs : ℤ → ℤ
abs a = pos (pos_part a + neg_part a)

abbrev pub ◌≤ℤ◌ : ℤ → ℤ → Type 0
a ≤ℤ b = pos_part a + neg_part b ≤ pos_part b + neg_part a

abbrev pub ◌<ℤ◌ : ℤ → ℤ → Type 0
a <ℤ b = pos_part a + neg_part b < pos_part b + neg_part a

abbrev pub ltb_ℤ : ℤ → ℤ → Bool
ltb_ℤ a b = ltb (pos_part a + neg_part b) (pos_part b + neg_part a)

abbrev pub leb_ℤ : ℤ → ℤ → Bool
leb_ℤ a b = leb (pos_part a + neg_part b) (pos_part b + neg_part a)

abbrev pub beq_ℤ : ℤ → ℤ → Bool
beq_ℤ a b = nat_beq (pos_part a + neg_part b) (pos_part b + neg_part a)

-- With these the operations can stay shut.
pub +ℤ_parts :
    (a b : ℤ)
    → pos_part (a +ℤ b) + neg_part a + neg_part b ≡ neg_part (a +ℤ b) + pos_part a + pos_part b
unfolding ◌+ℤ◌
+ℤ_parts a b = ground arith

pub -ℤ_parts :
    (a b : ℤ)
    → pos_part (a -ℤ b) + neg_part a + pos_part b ≡ neg_part (a -ℤ b) + pos_part a + neg_part b
unfolding ◌-ℤ◌
-ℤ_parts a b = ground arith

pub neg_parts : (a : ℤ) → pos_part (neg a) + pos_part a ≡ neg_part (neg a) + neg_part a
unfolding neg
neg_parts a = ground arith

pub *ℤ_parts :
    (a : ℤ) (k : ℕ) → pos_part (a *ℤ k) + neg_part a * k ≡ neg_part (a *ℤ k) + pos_part a * k
unfolding ◌*ℤ◌
*ℤ_parts a k = ground arith

pub abs_parts : (a : ℤ) → (pos_part (abs a) ≡ pos_part a + neg_part a) × (neg_part (abs a) ≡ 0)
unfolding abs
abs_parts a = (refl, refl)

-- Only one part of an integer is not 0.
pub one_part : (a : ℤ) → pos_part a * neg_part a ≡ 0
one_part (pos n) = omega arith
one_part (negsuc n) = omega arith

pub no_neg_part : (a : ℤ) → pos 0 ≤ℤ a → neg_part a ≡ 0
no_neg_part (pos n) h = omega arith
no_neg_part (negsuc n) h = omega arith

pub eq_of_parts : (a b : ℤ) → pos_part a + neg_part b ≡ pos_part b + neg_part a → a ≡ b
eq_of_parts a b h = ground arith

pub beq_ℤ_iff : (a b : ℤ) → (beq_ℤ a b ≡ true) ↔ (a ≡ b)
beq_ℤ_iff a b = ground arith

pub ruleset int_laws = (arith, +ℤ_parts, -ℤ_parts, neg_parts, abs_parts, eq_of_parts)

pub *ℤ-+ℤ : (a b : ℤ) (k : ℕ) → (a +ℤ b) *ℤ k ≡ a *ℤ k +ℤ b *ℤ k
*ℤ-+ℤ a b k = eq_of_parts _ _ (
    omega (
      arith,
      *ℤ_parts (a +ℤ b) k,
      *ℤ_parts a k,
      *ℤ_parts b k,
      +ℤ_parts (a *ℤ k) (b *ℤ k),
      ap (λ (t : ℕ). t * k) (+ℤ_parts a b),
    ))

pub *ℤ-add : (a : ℤ) (j k : ℕ) → a *ℤ (j + k) ≡ a *ℤ j +ℤ a *ℤ k
*ℤ-add a j k =
    eq_of_parts _ _
      (omega (arith, *ℤ_parts a (j + k), *ℤ_parts a j, *ℤ_parts a k, +ℤ_parts (a *ℤ j) (a *ℤ k)))

-- A common positive factor is cancelled from an order.
pub *ℤ-cancel : (a b : ℤ) (k : ℕ) → 0 < k → a *ℤ k ≤ℤ b *ℤ k → a ≤ℤ b
*ℤ-cancel a b k pk h =
    le_of_mul-le-mul_right {m = pos_part a + neg_part b} {n = pos_part b + neg_part a} {k = k}
      (omega (arith, *ℤ_parts a k, *ℤ_parts b k)) pk

-- Python's `sum`.
abbrev pub sum_ℤ : List ℤ → ℤ
sum_ℤ [] = pos 0
sum_ℤ (x ∷ xs) = x +ℤ sum_ℤ xs

pub sum_ℤ-append : (xs ys : List ℤ) → sum_ℤ (xs ++ ys) ≡ sum_ℤ xs +ℤ sum_ℤ ys
sum_ℤ-append [] ys = omega int_laws
sum_ℤ-append (x ∷ xs) ys = rw (sum_ℤ-append xs ys) (omega int_laws)

-- Python's `//` by a positive number: rounds down.
unfoldable pub floor_div : ℤ → ℕ → ℤ
floor_div (pos n) d = pos (n / d)
floor_div (negsuc n) d = negsuc (n / d)

pub floor_div-le : (a : ℤ) (d : ℕ) → 0 < d → floor_div a d *ℤ d ≤ℤ a
unfolding floor_div ◌*ℤ◌
floor_div-le (pos n) d h = grind arith
floor_div-le (negsuc n) d h = grind arith

pub lt-floor_div : (a : ℤ) (d : ℕ) → 0 < d → a <ℤ floor_div a d *ℤ d +ℤ pos d
unfolding floor_div ◌*ℤ◌ ◌+ℤ◌
lt-floor_div (pos n) d h = grind arith
lt-floor_div (negsuc n) d h = grind arith
