-- ===== src/Quantities/RoundTrip.antt =====
-- The conversions of common/quantities.py between a unit and the base.
use native.Mathlib.Nat.{zero-add, add-mul-div_left, div-eq_of_lt}
use elcorazon_backend.Base.{ℕ, ◌+◌, ◌*◌, ◌^◌, ◌<◌, ◌≡◌, refl, ok, ◌>>=◌, arith, eq_self}
use elcorazon_backend.Base.Int.{ℤ, pos, negsuc, pos_part, neg_part, sub_ℕ, ◌*ℤ◌, beq_ℤ_iff}
use elcorazon_backend.Base.Rounding.{half_up, round_half_up}
use elcorazon_backend.Quantities.{
  Quantity, NamedUnit, mg, dimension_eq, dimension_of, decimals_of, units_in_base, from_unit,
  as_unit,
}

half_up_exact : (n d : ℕ) → 0 < d → half_up (n * d) d ≡ n
unfolding half_up
half_up_exact n d h =
    rw (shape n d, add-mul-div_left d n (double d h), div-eq_of_lt (below d h)) (zero-add n)
  where
    shape : (n d : ℕ) → 2 * (n * d) + d ≡ d + 2 * d * n
    shape n d = omega arith

    double : (d : ℕ) → 0 < d → 0 < 2 * d
    double d h = omega arith

    below : (d : ℕ) → 0 < d → d < 2 * d
    below d h = omega arith

*ℤ_pos_parts :
    (a : ℤ) (d : ℕ) → (pos_part (a *ℤ d) ≡ pos_part a * d) × (neg_part (a *ℤ d) ≡ neg_part a * d)
unfolding ◌*ℤ◌
*ℤ_pos_parts (pos n) d = ground arith
*ℤ_pos_parts (negsuc n) d = ground arith

sub_parts : (a : ℤ) → sub_ℕ (pos_part a) (neg_part a) ≡ a
sub_parts (pos n) = ground arith
sub_parts (negsuc n) = ground arith

round_half_up_exact : (a : ℤ) (d : ℕ) → 0 < d → round_half_up (a *ℤ d) d ≡ a
unfolding round_half_up
round_half_up_exact a d h =
    rw
      (
        (*ℤ_pos_parts a d).0,
        (*ℤ_pos_parts a d).1,
        half_up_exact (pos_part a) d h,
        half_up_exact (neg_part a) d h,
      )
      (sub_parts a)

units_positive : (u : NamedUnit) → 0 < 10 ^ decimals_of u
unfolding decimals_of
units_positive mg = omega arith
units_positive _ = omega arith

-- Reading a quantity in a unit of its dimension and entering what was read gives it back.
pub from_unit-as_unit :
    (q : Quantity) (u : NamedUnit)
    → dimension_of u ≡ q.dimension
    → (as_unit q u >>= λ (m, k). from_unit m k u) ≡ ok q
unfolding as_unit from_unit units_in_base
from_unit-as_unit q u h = rw (
  h,
  eq_self q.dimension,
  round_half_up_exact q.amount_base (10 ^ decimals_of u) (units_positive u),
  (beq_ℤ_iff (q.amount_base *ℤ 10 ^ decimals_of u) (q.amount_base *ℤ 10 ^ decimals_of u)).1 refl,
)
