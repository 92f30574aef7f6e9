-- ===== src/Base/Rounding.antt =====
-- Decimal's `quantize(Decimal(1), ROUND_HALF_UP)` of a quotient of integers. The quotients of the
-- program stay below Decimal's 28 digits, where the division before it is exact.
use elcorazon_backend.Base.Int.{ℤ, pos_part, neg_part, sub_ℕ}
use Prim.Native.Nat.{ℕ, ◌+◌, ◌*◌, ◌/◌, ◌≤◌, ◌<◌}
use native.Mathlib.Omega.{arith}

-- n / d to the nearest, a tie away from zero.
unfoldable pub half_up : ℕ → ℕ → ℕ
half_up n d = (2 * n + d) / (2 * d)

unfoldable pub round_half_up : ℤ → ℕ → ℤ
unfolding half_up
round_half_up a d = sub_ℕ (half_up (pos_part a) d) (half_up (neg_part a) d)

-- Within half a unit of the exact value, on both sides.
pub half_up_near :
    (n d : ℕ) → 0 < d → (2 * d * half_up n d ≤ 2 * n + d) × (2 * n < 2 * d * half_up n d + d)
unfolding half_up
half_up_near n d h = grind arith
