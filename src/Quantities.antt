-- ===== src/Quantities.antt =====
-- common/quantities.py: quantities of matter in thousandths of a gram, a millilitre or a unit. The
-- dimensions and the named units are the keys of the tables, so an unknown one is no value here;
-- a `Decimal` is a mantissa and a number of decimals.
pub mod RoundTrip
use elcorazon_backend.Base.{
  ℕ, zero, suc, ◌*◌, ◌^◌, ◌≡◌, ◌↔◌, refl, Bool, true, false, not, Eq, ◌==◌, code_beq_iff, nat_beq,
  if◌then◌else◌, Result, ok, err, ◌>>=◌, ◌>>◌, raise_if, dimension_mismatch, excess_precision,
}
use elcorazon_backend.Base.Int.{ℤ, pos, ◌+ℤ◌, ◌-ℤ◌, ◌*ℤ◌, times, neg, abs, ltb_ℤ, beq_ℤ}
use elcorazon_backend.Base.Rounding.{round_half_up}

pub data Dimension : Type 0 where
  mass volume count : Dimension

abbrev dimension_code : Dimension → ℕ
dimension_code mass = 0
dimension_code volume = 1
dimension_code count = 2

dimension_decode : ℕ → Dimension
dimension_decode zero = mass
dimension_decode (suc zero) = volume
dimension_decode _ = count

dimension_decode-code : (d : Dimension) → dimension_decode (dimension_code d) ≡ d
unfolding dimension_decode
dimension_decode-code mass = refl
dimension_decode-code _ = refl

-- Shut, so that a test of two dimensions is one case split.
unfoldable pub dimension_beq : Dimension → Dimension → Bool
dimension_beq a b = nat_beq (dimension_code a) (dimension_code b)

pub dimension_beq_iff : (a b : Dimension) → (dimension_beq a b ≡ true) ↔ (a ≡ b)
unfolding dimension_beq
dimension_beq_iff = code_beq_iff dimension_code dimension_decode dimension_decode-code

instance abbrev pub dimension_eq : Eq Dimension
dimension_eq = record { beq = dimension_beq; beq_iff = dimension_beq_iff }

-- The keys of `UNITS_IN_BASE`; `piece` is "unit".
pub data NamedUnit : Type 0 where
  mg g kg ml cl l piece : NamedUnit

-- `UNITS_IN_BASE`, as powers of ten.
unfoldable pub decimals_of : NamedUnit → ℕ
decimals_of mg = 0
decimals_of g = 3
decimals_of kg = 6
decimals_of ml = 3
decimals_of cl = 4
decimals_of l = 6
decimals_of piece = 3

unfoldable pub units_in_base : NamedUnit → ℕ
unfolding decimals_of
units_in_base u = 10 ^ decimals_of u

-- `DIMENSION_OF_UNIT`, `dimension_of`
unfoldable pub dimension_of : NamedUnit → Dimension
dimension_of mg = mass
dimension_of g = mass
dimension_of kg = mass
dimension_of ml = volume
dimension_of cl = volume
dimension_of l = volume
dimension_of piece = count

-- `COST_UNIT`
unfoldable pub cost_unit : Dimension → NamedUnit
cost_unit mass = kg
cost_unit volume = l
cost_unit count = piece

-- `REFERENCE_UNIT`
unfoldable pub reference_unit : Dimension → NamedUnit
reference_unit mass = g
reference_unit volume = ml
reference_unit count = piece

pub record Quantity : Type 0 where
  pub amount_base : ℤ
  pub dimension : Dimension

abbrev pub quantity : ℤ → Dimension → Quantity
quantity a d = record { amount_base = a; dimension = d }

-- `Quantity.from_unit` of `mantissa / 10 ^ scale`
unfoldable pub from_unit : ℤ → ℕ → NamedUnit → Result Quantity
unfolding units_in_base round_half_up dimension_of
from_unit mantissa scale u = do
  let exact = mantissa *ℤ units_in_base u
  let rounded = round_half_up exact (10 ^ scale)
  raise_if (not (beq_ℤ exact (rounded *ℤ 10 ^ scale))) excess_precision
  ok (quantity rounded (dimension_of u))

-- `as_unit`, as a mantissa and a number of decimals.
unfoldable pub as_unit : Quantity → NamedUnit → Result (ℤ × ℕ)
unfolding dimension_of decimals_of
as_unit q u = do
  raise_if (not (dimension_of u == q.dimension)) dimension_mismatch
  ok (q.amount_base, decimals_of u)

-- `_check`
unfoldable pub check_dimension : Quantity → Quantity → Result (Unit {0})
check_dimension a b = raise_if (not (a.dimension == b.dimension)) dimension_mismatch

-- `__add__`, `__sub__`
unfoldable pub add : Quantity → Quantity → Result Quantity
unfolding check_dimension
add a b = do check_dimension a b; ok (quantity (a.amount_base +ℤ b.amount_base) a.dimension)

unfoldable pub sub : Quantity → Quantity → Result Quantity
unfolding check_dimension
sub a b = do check_dimension a b; ok (quantity (a.amount_base -ℤ b.amount_base) a.dimension)

-- `__mul__` by a number of portions
unfoldable pub mul : Quantity → ℕ → Quantity
mul a k = quantity (a.amount_base *ℤ k) a.dimension

-- `__neg__`
abbrev pub negate : Quantity → Quantity
negate a = quantity (neg a.amount_base) a.dimension

-- `abs_quantity` of apps/inventory/services.py
abbrev pub abs_quantity : Quantity → Quantity
abs_quantity a = quantity (abs a.amount_base) a.dimension

abbrev pub is_zero : Quantity → Bool
is_zero a = beq_ℤ a.amount_base (pos 0)

abbrev pub is_negative : Quantity → Bool
is_negative a = ltb_ℤ a.amount_base (pos 0)

-- `value_minor`
unfoldable pub value_minor : Quantity → ℤ → ℤ
unfolding units_in_base cost_unit round_half_up
value_minor q cost =
    round_half_up (times q.amount_base cost) (units_in_base (cost_unit q.dimension))
