-- ===== src/Payments/Parts.antt =====
-- The shares that apps/payments/split.py makes of an order.
use elcorazon_backend.Base.{
  ℕ, ◌≡◌, ◌<◌, ◌∙◌, not, List, [], ◌∷◌, length, replicate, length-replicate, nat_beq, nat_beq_iff,
  eq_of_beq, ◌==◌, ok, rule_violation, >>=-eq-ok, guard-eq-ok, ok-injective, Bool-cases, inl, inr,
  arith,
}
use elcorazon_backend.Base.Int.{ℤ, pos, ◌+ℤ◌, ltb_ℤ, sum_ℤ, int_laws}
use elcorazon_backend.Money.{Money, currency_eq, zero_money, add, same, is_positive}
use elcorazon_backend.Money.Allocate.{minors, IsIn, sum-allocate, allocate_lem}
use elcorazon_backend.Money.Sums.{add-inv, same-amount}
use elcorazon_backend.Money.Equal.{Positive, allocate-Positive}
use elcorazon_backend.Payments.Split.{
  ParticipantInput, explicit_amounts, sum_shares, equal_shares, given_shares, allocate_shares,
}

-- What the loop over explicit amounts has checked, and what it returns.
sum_shares-ok :
    (total sum last : Money) (ms : List Money)
    → sum_shares total sum ms ≡ ok last
    → (last.amount_minor ≡ sum.amount_minor +ℤ sum_ℤ (minors ms))
      × Positive (minors ms)
      × IsIn total.currency ms
unfolding sum_shares minors IsIn
sum_shares-ok total sum last [] h = (rw (← ok-injective h) (grind int_laws), tt, tt)
sum_shares-ok total sum last (m ∷ ms) h =
    let (foreign, h1) = guard-eq-ok (not (m.currency == total.currency)) rule_violation _ h in
    let (low, h2) = guard-eq-ok (not (is_positive m)) rule_violation _ h1 in
    let (next, added, h3) = >>=-eq-ok (add sum m) _ h2 in
    let (one, exact) = add-inv sum m added in
    let (sums, positive, own) = sum_shares-ok total next last ms h3 in
    (
      rw (sums, exact) (grind int_laws),
      (ground arith, positive),
      (eq_of_beq m.currency total.currency (ground arith), own),
    )

by_equal :
    (total : Money) (shares : List Money) (n : ℕ)
    → 0 < n
    → equal_shares total n ≡ ok shares
    → (length shares ≡ n)
      × (sum_ℤ (minors shares) ≡ total.amount_minor)
      × Positive (minors shares)
      × IsIn total.currency shares
unfolding equal_shares
by_equal total shares n pn h =
    let (enough, built) = guard-eq-ok (ltb_ℤ total.amount_minor (pos n)) rule_violation _ h in
    let (counted, exact) = sum-allocate total (replicate n (pos 1)) built in
    let (floors, own, high) = allocate_lem total (replicate n (pos 1)) built in
    (
      counted ∙ length-replicate n (pos 1),
      exact,
      allocate-Positive total n pn (ground arith) built,
      own,
    )

from_zero : {x y z : ℤ} → x ≡ pos 0 +ℤ y → x ≡ z → y ≡ z
from_zero h k = grind int_laws

by_given :
    (total : Money) (shares ms : List Money) (n : ℕ)
    → given_shares total ms n ≡ ok shares
    → (length shares ≡ n)
      × (sum_ℤ (minors shares) ≡ total.amount_minor)
      × Positive (minors shares)
      × IsIn total.currency shares
unfolding given_shares
by_given total shares ms n h =
    let (counted, h1) = guard-eq-ok (not (nat_beq (length ms) n)) rule_violation _ h in
    let (sum, summed, h2) = >>=-eq-ok (sum_shares total (zero_money total.currency) ms) _ h1 in
    let (exact, h3) = guard-eq-ok (not (same sum total)) rule_violation _ h2 in
    let (sums, positive, own) = sum_shares-ok total (zero_money total.currency) sum ms summed in
    rw (← ok-injective h3) (
      (nat_beq_iff (length ms) n).0 (ground arith),
      from_zero sums (same-amount sum total (ground arith)),
      positive,
      own,
    )

-- The shares of an order that is split between one participant or more: as many as the
-- participants, each positive and in the currency of the total, and together the total.
pub allocate_shares_lem :
    (total : Money) (ps : List ParticipantInput) (shares : List Money)
    → 0 < length ps
    → allocate_shares total ps ≡ ok shares
    → (length shares ≡ length ps)
      × (sum_ℤ (minors shares) ≡ total.amount_minor)
      × Positive (minors shares)
      × IsIn total.currency shares
unfolding allocate_shares
allocate_shares_lem total ps shares some_one h =
    elim (Bool-cases (nat_beq (length (explicit_amounts ps)) 0)) [
      | inl equal ↦ by_equal total shares (length ps) some_one (rw equal at h)
      | inr given ↦ by_given total shares (explicit_amounts ps) (length ps) (rw given at h)
    ]
