-- ===== src/Money/Percentage.antt =====
-- `Money.percentage` of common/money.py.
use elcorazon_backend.Base.{ℕ, ◌+◌, ◌*◌, ◌≤◌, ◌<◌, arith}
use elcorazon_backend.Base.Int.{pos, pos_part, ◌*ℤ◌, ◌≤ℤ◌, no_neg_part}
use elcorazon_backend.Base.Rounding.{half_up, round_half_up}
use elcorazon_backend.Money.{Money, currency_eq, percentage}

scaled_le : (x h : ℕ) → h ≤ 10_000 → x * h ≤ x * 10_000
scaled_le x h small = grind arith

-- A percentage of an amount that is not negative, in hundredths of a percent, is not negative and
-- the nearest whole minor unit, a tie going up.
pub percentage_near :
    (a : Money) (h : ℕ)
    → pos 0 ≤ℤ a.amount_minor
    → let x = pos_part a.amount_minor * h in
      let p = (percentage a h).amount_minor in
      (pos 0 ≤ℤ p) × (20_000 * pos_part p ≤ 2 * x + 10_000) × (2 * x < 20_000 * pos_part p + 10_000)
unfolding percentage round_half_up half_up ◌*ℤ◌
percentage_near a h nn = ground (arith, no_neg_part a.amount_minor nn)

-- Up to 100 %, a percentage of an amount that is not negative is no more than the amount.
pub percentage-le :
    (a : Money) (h : ℕ)
    → pos 0 ≤ℤ a.amount_minor
    → h ≤ 10_000
    → (percentage a h).amount_minor ≤ℤ a.amount_minor
percentage-le a h nn small = omega (
  arith,
  percentage_near a h nn,
  scaled_le (pos_part a.amount_minor) h small,
  no_neg_part a.amount_minor nn,
  no_neg_part _ (percentage_near a h nn).0,
)
