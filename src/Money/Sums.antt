-- ===== src/Money/Sums.antt =====
-- The sums and orders of common/money.py between amounts of one currency, and of two.
use elcorazon_backend.Base.{
  ◌≡◌, sym, inl, inr, Bool, true, ok, eq_self, eq_of_beq, ◌==◌, Bool-cases, ok-injective, >>=-eq-ok,
}
use elcorazon_backend.Base.Int.{◌+ℤ◌, ◌-ℤ◌, ltb_ℤ, leb_ℤ, beq_ℤ, beq_ℤ_iff}
use elcorazon_backend.Money.{Money, money, currency_eq, check_currency, add, sub, lt, le, same}

module _ (a b : Money) where
  check-same : a.currency ≡ b.currency → check_currency a b ≡ ok tt
  unfolding check_currency
  check-same h = rw h (rw (eq_self b.currency))

  check-inv : check_currency a b ≡ ok tt → a.currency ≡ b.currency
  unfolding check_currency
  check-inv h = elim (Bool-cases (a.currency == b.currency)) [
    | inl p ↦ eq_of_beq a.currency b.currency p
    | inr q ↦ cc (rw q at h)
  ]

  pub add-same :
      a.currency ≡ b.currency → add a b ≡ ok (money (a.amount_minor +ℤ b.amount_minor) a.currency)
  unfolding add
  add-same h = rw (check-same h)

  pub sub-same :
      a.currency ≡ b.currency → sub a b ≡ ok (money (a.amount_minor -ℤ b.amount_minor) a.currency)
  unfolding sub
  sub-same h = rw (check-same h)

  pub lt-same : a.currency ≡ b.currency → lt a b ≡ ok (ltb_ℤ a.amount_minor b.amount_minor)
  unfolding lt
  lt-same h = rw (check-same h)

  pub le-same : a.currency ≡ b.currency → le a b ≡ ok (leb_ℤ a.amount_minor b.amount_minor)
  unfolding le
  le-same h = rw (check-same h)

  -- A sum that is returned is of one currency, and exact.
  pub add-inv :
      {c : Money}
      → add a b ≡ ok c
      → (a.currency ≡ b.currency) × (c ≡ money (a.amount_minor +ℤ b.amount_minor) a.currency)
  unfolding add check_currency
  add-inv h = elim (Bool-cases (a.currency == b.currency)) [
    | inl p ↦ (eq_of_beq a.currency b.currency p, sym (ok-injective (rw p at h)))
    | inr q ↦ cc (rw q at h)
  ]

  -- So is a difference, and an order compares amounts of one currency.
  pub sub-inv :
      {c : Money}
      → sub a b ≡ ok c
      → (a.currency ≡ b.currency) × (c ≡ money (a.amount_minor -ℤ b.amount_minor) a.currency)
  unfolding sub
  sub-inv h =
      let (u, checked, rest) = >>=-eq-ok (check_currency a b) _ h in
      (check-inv checked, sym (ok-injective rest))

  pub lt-inv :
      {c : Bool}
      → lt a b ≡ ok c
      → (a.currency ≡ b.currency) × (c ≡ ltb_ℤ a.amount_minor b.amount_minor)
  unfolding lt
  lt-inv h =
      let (u, checked, rest) = >>=-eq-ok (check_currency a b) _ h in
      (check-inv checked, sym (ok-injective rest))

  pub le-inv :
      {c : Bool}
      → le a b ≡ ok c
      → (a.currency ≡ b.currency) × (c ≡ leb_ℤ a.amount_minor b.amount_minor)
  unfolding le
  le-inv h =
      let (u, checked, rest) = >>=-eq-ok (check_currency a b) _ h in
      (check-inv checked, sym (ok-injective rest))

  pub same-amount : same a b ≡ true → a.amount_minor ≡ b.amount_minor
  unfolding same
  same-amount h =
      (beq_ℤ_iff a.amount_minor b.amount_minor).0
        (elim (Bool-cases (beq_ℤ a.amount_minor b.amount_minor)) [
          | inl p ↦ p
          | inr q ↦ cc (rw q at h)
        ])
