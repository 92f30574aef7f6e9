-- ===== src/Payments/Paid.antt =====
-- Sums of what is paid for an order when one of its rows is settled, for apps/payments/cash.py.
use mathlib.Core.Path.{subst}
use elcorazon_backend.Base.{
  ℕ, zero, suc, ◌≡◌, refl, sym, ap, ◌∙◌, inl, inr, Bool, true, false, Option, none, some,
  some-injective, List, [], ◌∷◌, ◌++◌, nat_eq, eq_of_beq, length, ok, >>=-eq-ok, ok-injective,
  Bool-cases, if◌then◌else◌, arith,
}
use elcorazon_backend.Base.Int.{ℤ, ◌+ℤ◌, beq_ℤ, int_laws}
use elcorazon_backend.Base.Rows.{row_at, set_row, next_row}
use elcorazon_backend.Money.{Money, money, currency_eq, add, same}
use elcorazon_backend.Money.Sums.{add-same, add-inv, same-amount}
use elcorazon_backend.Payments.States.{status_eq}
use elcorazon_backend.Payments.Rows.{Transaction}
use elcorazon_backend.Payments.Totals.{is_settled_for, total_of}
use elcorazon_backend.Payments.Initiate.{find_last}

-- The row that is found last is in the table, and fits.
pub find_last-eq-some :
    (p : Transaction → Bool) (ts : List Transaction) (n : ℕ) (t : Transaction)
    → find_last p ts ≡ some (n, t)
    → (row_at n ts ≡ some t) × (p t ≡ true)
unfolding find_last
find_last-eq-some p [] n t h = absurd (ground arith)
find_last-eq-some p (x ∷ ts) n t h = later (find_last p ts) (find_last-eq-some p ts) refl h
  where
    later :
        (r : Option (ℕ × Transaction))
        → ((m : ℕ) (z : Transaction)
            → find_last p ts ≡ some (m, z)
            → (row_at m ts ≡ some z) × (p z ≡ true))
        → find_last p ts ≡ r
        → ◌≡◌ {A = Option (ℕ × Transaction)}
            (elim r [ some q ↦ next_row (some q) | none ↦ if p x then some (0, x) else none ])
            (some (n, t))
        → (row_at n (x ∷ ts) ≡ some t) × (p t ≡ true)
    later none known found e = elim (Bool-cases (p x)) [
      | inl fits_it ↦
          subst (λ (r : ℕ × Transaction). (row_at r.0 (x ∷ ts) ≡ some r.1) × (p r.1 ≡ true))
            (some-injective {A = ℕ × Transaction} (0, x) (n, t) (rw fits_it at e)) (refl, fits_it)
      | inr skips ↦ absurd (none_some (rw skips at e))
    ]
      where
        none_some : ◌≡◌ {A = Option (ℕ × Transaction)} none (some (n, t)) → ⊥
        none_some e = cc
    later (some (m, z)) known found e =
        let (at, fits) = known m z found in
        subst (λ (r : ℕ × Transaction). (row_at r.0 (x ∷ ts) ≡ some r.1) × (p r.1 ≡ true))
          (some-injective {A = ℕ × Transaction} (suc m, z) (n, t) e) (at, fits)

-- A sum that starts higher ends as much higher.
total_of_shift :
    (o : ℕ) (a : ℤ) (total sum : Money) (ts : List Transaction)
    → total_of o total ts ≡ ok sum
    → (sum.currency ≡ total.currency)
      × (total_of o (money (total.amount_minor +ℤ a) total.currency) ts
          ≡ ok (money (sum.amount_minor +ℤ a) sum.currency))
unfolding total_of
total_of_shift o a total sum [] h = rw (ok-injective h) (refl, refl)
total_of_shift o a total sum (x ∷ ts) h = elim (Bool-cases (is_settled_for o x)) [
  | inl counts ↦
      let (next, added, rest) = >>=-eq-ok (add total x.amount) _ (rw counts at h) in
      let (one, exact) = add-inv total x.amount added in
      let (cur, later) = total_of_shift o a next sum ts rest in
      let start : total.amount_minor +ℤ a +ℤ x.amount.amount_minor ≡ next.amount_minor +ℤ a =
        rw exact (grind int_laws) in
      let unit : total.currency ≡ next.currency = rw exact refl in
      (
        cur ∙ sym unit,
        rw
            (
              counts,
              add-same (money (total.amount_minor +ℤ a) total.currency) x.amount one,
              start,
              unit,
            )
            later,
      )
  | inr skips ↦ rw skips (total_of_shift o a total sum ts (rw skips at h))
]

-- A row of the order that becomes completed adds its amount.
pub total_of_complete :
    (o n : ℕ) (total sum : Money) (ts : List Transaction) (t u : Transaction)
    → row_at n ts ≡ some t
    → is_settled_for o t ≡ false
    → is_settled_for o u ≡ true
    → u.amount.currency ≡ total.currency
    → total_of o total ts ≡ ok sum
    → total_of o total (set_row n u ts)
      ≡ ok (money (sum.amount_minor +ℤ u.amount.amount_minor) sum.currency)
unfolding total_of
total_of_complete o n total sum [] t u h owed done one e = cc
total_of_complete o zero total sum (x ∷ ts) t u h owed done one e =
    let (cur, later) =
      total_of_shift o u.amount.amount_minor total sum ts (rw (some-injective x t h, owed) at e) in
    rw (done, add-same total u.amount (sym one)) later
total_of_complete o (suc n) total sum (x ∷ ts) t u h owed done one e =
    elim (Bool-cases (is_settled_for o x)) [
      | inl counts ↦
          let (next, added, rest) = >>=-eq-ok (add total x.amount) _ (rw counts at e) in
          let (same, exact) = add-inv total x.amount added in
          rw (counts, added)
            (total_of_complete o n next sum ts t u h owed done (one ∙ rw exact refl) rest)
      | inr skips ↦
          rw skips (total_of_complete o n total sum ts t u h owed done one (rw skips at e))
    ]

pub set_row-set_row :
    (n : ℕ) (t u : Transaction) (ts : List Transaction)
    → set_row n u (set_row n t ts) ≡ set_row n u ts
set_row-set_row n t u [] = refl
set_row-set_row zero t u (x ∷ ts) = refl
set_row-set_row (suc n) t u (x ∷ ts) = ap (λ r. x ∷ r) (set_row-set_row n t u ts)

pub row_at-append :
    (ts : List Transaction) (t : Transaction) → row_at (length ts) (ts ++ (t ∷ [])) ≡ some t
row_at-append [] t = refl
row_at-append (x ∷ ts) t = row_at-append ts t

pub same-eq : (a b : Money) → same a b ≡ true → a ≡ b
unfolding same
same-eq a b h = elim (Bool-cases (beq_ℤ a.amount_minor b.amount_minor)) [
  | inl eq ↦
      let currencies = eq_of_beq a.currency b.currency (rw eq at h) in
      ap (λ x. money x a.currency) (same-amount a b h) ∙ ap (λ c. money b.amount_minor c) currencies
  | inr ne ↦ cc (rw ne at h)
]
