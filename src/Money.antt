-- ===== src/Money.antt =====
-- common/money.py: amounts in minor units with their currency. The currencies are the keys of
-- `CURRENCY_EXPONENTS`: a `Money` of another one cannot be built (`__post_init__`), so the type
-- has no such value, and `currency_of` is that check on a code. `Decimal` arguments of at most two
-- decimals (the column of a promotion) are numbers of hundredths.
pub mod Allocate
pub mod Percentage
pub mod Sums
pub mod Equal
use elcorazon_backend.Base.{
  ℕ, zero, suc, ◌+◌, ◌-◌, ◌*◌, ◌%◌, ◌/◌, ◌^◌, ◌≡◌, ◌↔◌, refl, String, Bool, true, false, not, ◌||◌,
  List, [], ◌∷◌, map, Eq, ◌==◌, string_eq, code_beq_iff, nat_beq, leb, length, if◌then◌else◌,
  Result, ok, err, ◌>>=◌, ◌>>◌, raise_if, unknown_currency, currency_mismatch, excess_precision,
  bad_weights, arith,
}
use elcorazon_backend.Base.Int.{
  ℤ, pos, negsuc, pos_part, neg_part, ◌+ℤ◌, ◌-ℤ◌, ◌*ℤ◌, neg, ltb_ℤ, leb_ℤ, beq_ℤ, sum_ℤ, floor_div,
}
use elcorazon_backend.Base.Rounding.{round_half_up}

pub data Currency : Type 0 where
  xof xaf gnf eur usd ghs ngn : Currency

abbrev pub currency_code : Currency → ℕ
currency_code xof = 0
currency_code xaf = 1
currency_code gnf = 2
currency_code eur = 3
currency_code usd = 4
currency_code ghs = 5
currency_code ngn = 6

currency_decode : ℕ → Currency
currency_decode zero = xof
currency_decode (suc zero) = xaf
currency_decode (suc (suc zero)) = gnf
currency_decode (suc (suc (suc zero))) = eur
currency_decode (suc (suc (suc (suc zero)))) = usd
currency_decode (suc (suc (suc (suc (suc zero))))) = ghs
currency_decode _ = ngn

currency_decode-code : (c : Currency) → currency_decode (currency_code c) ≡ c
unfolding currency_decode
currency_decode-code xof = refl
currency_decode-code _ = refl

-- Shut, so that a test of two currencies is one case split.
unfoldable pub currency_beq : Currency → Currency → Bool
currency_beq a b = nat_beq (currency_code a) (currency_code b)

pub currency_beq_iff : (a b : Currency) → (currency_beq a b ≡ true) ↔ (a ≡ b)
unfolding currency_beq
currency_beq_iff = code_beq_iff currency_code currency_decode currency_decode-code

instance abbrev pub currency_eq : Eq Currency
currency_eq = record { beq = currency_beq; beq_iff = currency_beq_iff }

-- The keys of `CURRENCY_EXPONENTS`.
unfoldable pub currency_of : String → Result Currency
currency_of s =
    if s == "XOF"
    then ok xof
    else if s == "XAF"
    then ok xaf
    else if s == "GNF"
    then ok gnf
    else if s == "EUR"
    then ok eur
    else if s == "USD"
    then ok usd
    else if s == "GHS"
    then ok ghs
    else if s == "NGN"
    then ok ngn
    else err unknown_currency

-- `CURRENCY_EXPONENTS`, `exponent_of`
unfoldable pub exponent_of : Currency → ℕ
exponent_of xof = 0
exponent_of xaf = 0
exponent_of gnf = 0
exponent_of _ = 2

pub record Money : Type 0 where
  pub amount_minor : ℤ
  pub currency : Currency

abbrev pub money : ℤ → Currency → Money
money a c = record { amount_minor = a; currency = c }

abbrev pub zero_money : Currency → Money
zero_money c = money (pos 0) c

-- `Money.from_major`: the exact decimal `mantissa / 10 ^ scale`.
unfoldable pub from_major : ℤ → ℕ → Currency → Result Money
unfolding exponent_of round_half_up
from_major mantissa scale c = do
  let scaled = mantissa *ℤ 10 ^ exponent_of c
  let rounded = round_half_up scaled (10 ^ scale)
  raise_if (not (beq_ℤ scaled (rounded *ℤ 10 ^ scale))) excess_precision
  ok (money rounded c)

-- `_check`
unfoldable pub check_currency : Money → Money → Result (Unit {0})
check_currency a b = raise_if (not (a.currency == b.currency)) currency_mismatch

-- `__add__`
unfoldable pub add : Money → Money → Result Money
unfolding check_currency
add a b = do check_currency a b; ok (money (a.amount_minor +ℤ b.amount_minor) a.currency)

-- `__sub__`
unfoldable pub sub : Money → Money → Result Money
unfolding check_currency
sub a b = do check_currency a b; ok (money (a.amount_minor -ℤ b.amount_minor) a.currency)

-- `__mul__` by a quantity
unfoldable pub mul : Money → ℕ → Money
mul a k = money (a.amount_minor *ℤ k) a.currency

-- `__neg__`
unfoldable pub negate : Money → Money
negate a = money (neg a.amount_minor) a.currency

-- `__lt__`, `__le__`, and `__gt__`, `__ge__` with the operands swapped
unfoldable pub lt : Money → Money → Result Bool
unfolding check_currency
lt a b = do check_currency a b; ok (ltb_ℤ a.amount_minor b.amount_minor)

unfoldable pub le : Money → Money → Result Bool
unfolding check_currency
le a b = do check_currency a b; ok (leb_ℤ a.amount_minor b.amount_minor)

-- The equality of the frozen dataclass.
unfoldable pub same : Money → Money → Bool
same a b = if beq_ℤ a.amount_minor b.amount_minor then a.currency == b.currency else false

abbrev pub is_zero : Money → Bool
is_zero a = beq_ℤ a.amount_minor (pos 0)

abbrev pub is_positive : Money → Bool
is_positive a = ltb_ℤ (pos 0) a.amount_minor

-- `percentage`, of a number of hundredths of a percent.
unfoldable pub percentage : Money → ℕ → Money
unfolding round_half_up
percentage a hundredths = money (round_half_up (a.amount_minor *ℤ hundredths) 10_000) a.currency

-- `any(w < 0 for w in weights)`
any_negative : List ℤ → Bool
any_negative [] = false
any_negative (w ∷ ws) = ltb_ℤ w (pos 0) || any_negative ws

-- `self.amount_minor * w // total_weight`, for weights that are not negative.
unfoldable pub floor_shares : ℤ → ℕ → List ℤ → List ℤ
floor_shares a total [] = []
floor_shares a total (w ∷ ws) = floor_div (a *ℤ pos_part w) total ∷ floor_shares a total ws

-- `shares[i] += 1`
bump : ℕ → List ℤ → List ℤ
bump i [] = []
bump zero (x ∷ xs) = (x +ℤ pos 1) ∷ xs
bump (suc i) (x ∷ xs) = x ∷ bump i xs

-- `for i in range(rounds)`, with `rounds` rounds to go from `i`.
distribute : ℕ → ℕ → List ℤ → List ℤ
unfolding bump
distribute zero i shares = shares
distribute (suc rounds) i shares = distribute rounds (i + 1) (bump (i % length shares) shares)

-- `not weights or any(w < 0 ...) or sum(weights) == 0`
refuses : List ℤ → Bool
unfolding any_negative
refuses ws = leb (length ws) 0 || any_negative ws || beq_ℤ (sum_ℤ ws) (pos 0)

-- The floors, and the loop that deals out the remainder.
shares_of : ℤ → List ℤ → List ℤ
unfolding floor_shares distribute
shares_of a weights =
    let shares = floor_shares a (pos_part (sum_ℤ weights)) weights in
    distribute (pos_part (a -ℤ sum_ℤ shares)) 0 shares

unfoldable pub allocate : Money → List ℤ → Result (List Money)
unfolding refuses shares_of
allocate a weights = do
  raise_if (refuses weights) bad_weights
  ok (map (λ s. money s a.currency) (shares_of a.amount_minor weights))
