-- ===== src/Money/Equal.antt =====
-- `Money.allocate` of common/money.py with equal weights.
use elcorazon_backend.Base.{ℕ, zero, suc, ◌≡◌, refl, ◌<◌, List, [], ◌∷◌, replicate, All, ok, arith}
use elcorazon_backend.Base.Int.{ℤ, pos, negsuc, ◌*ℤ◌, ◌≤ℤ◌, ◌<ℤ◌, sum_ℤ, floor_div, int_laws}
use native.Mathlib.Nat.{mul-one}
use elcorazon_backend.Money.{Money, floor_shares, allocate}
use elcorazon_backend.Money.Allocate.{minors, floors, add_ones, allocate_lem}

abbrev pub Positive : List ℤ → Type 0
Positive xs = All (λ x. pos 0 <ℤ x) xs

add_ones-Positive : (k : ℕ) (xs : List ℤ) → Positive xs → Positive (add_ones k xs)
unfolding add_ones
add_ones-Positive zero xs h = h
add_ones-Positive (suc k) [] h = tt
add_ones-Positive (suc k) (x ∷ xs) (p, h) = (omega int_laws, add_ones-Positive k xs h)

sum-ones : (n : ℕ) → sum_ℤ (replicate n (pos 1)) ≡ pos n
sum-ones zero = refl
sum-ones (suc n) = rw (sum-ones n) (grind int_laws)

floor-Positive : (a : ℤ) (t : ℕ) → 0 < t → pos t ≤ℤ a → pos 0 <ℤ floor_div (a *ℤ 1) t
unfolding floor_div ◌*ℤ◌
floor-Positive (pos m) t pt h = grind (arith, mul-one)
floor-Positive (negsuc m) t pt h = omega arith

floors-Positive :
    (a : ℤ) (t n : ℕ) → 0 < t → pos t ≤ℤ a → Positive (floor_shares a t (replicate n (pos 1)))
unfolding floor_shares
floors-Positive a t zero pt h = tt
floors-Positive a t (suc n) pt h = (floor-Positive a t pt h, floors-Positive a t n pt h)

-- An amount of at least as many minor units as there are shares gives positive shares.
pub allocate-Positive :
    (a : Money) (n : ℕ) {shares : List Money}
    → 0 < n
    → pos n ≤ℤ a.amount_minor
    → allocate a (replicate n (pos 1)) ≡ ok shares
    → Positive (minors shares)
unfolding floors
allocate-Positive a n pn h e =
    let (equal, own, high) = allocate_lem a (replicate n (pos 1)) e in
    rw (equal, sum-ones n) (add_ones-Positive _ _ (floors-Positive a.amount_minor n n pn h))
