-- ===== src/Payments/Collected.antt =====
-- What the cash of an order leaves: apps/payments/cash.py.
use elcorazon_backend.Base.{
  ℕ, ◌≡◌, refl, sym, ap, ◌∙◌, inl, inr, true, false, Option, none, some, some-injective, nat_eq,
  eq_self, update, Result, ok, ◌>>=◌, >>=-eq-ok, or_raise-eq-ok, ok-injective, or_raise, Bool-cases,
  does_not_exist,
}
use elcorazon_backend.Base.Int.{ℤ, pos, ltb_ℤ, ◌+ℤ◌, ◌-ℤ◌, int_laws}
use elcorazon_backend.Money.{Money, money, zero_money, currency_eq, sub, is_positive}
use elcorazon_backend.Money.Sums.{sub-same, sub-inv}
use elcorazon_backend.Payments.States.{PaymentStatus, status_eq, completed}
use elcorazon_backend.Payments.Rows.{PaymentProvider, PaymentMethod, Order, Transaction, Desk}
use elcorazon_backend.Payments.Totals.{settled_total}
use elcorazon_backend.Payments.Split.{CheckoutInstruction}
use elcorazon_backend.Payments.Cash.{
  is_cash, find_cash_row, settle_cash, collect_rest, record_cash_collected,
}
use elcorazon_backend.Payments.Paid.{total_of_complete}
use elcorazon_backend.Payments.CashRows.{find_cash_row-IsOwed, settle_cash-IsSettled}

-- What is left to pay, once it is paid.
paid_up :
    (total settled rest : Money)
    → sub total settled ≡ ok rest
    → money (settled.amount_minor +ℤ rest.amount_minor) settled.currency ≡ total
paid_up total settled rest h =
    let (one, exact) = sub-inv total settled h in
    let sum : settled.amount_minor +ℤ rest.amount_minor ≡ total.amount_minor =
      rw exact (grind int_laws) in
    ap (λ a. money a settled.currency) sum ∙ ap (λ c. money total.amount_minor c) (sym one)

nothing_left :
    (total : Money) → (rest : Money) × (sub total total ≡ ok rest) × (is_positive rest ≡ false)
nothing_left total =
    (_, sub-same total total refl, ap (λ a. ltb_ℤ (pos 0) a) (nothing total.amount_minor))
  where
    nothing : (a : ℤ) → a -ℤ a ≡ pos 0
    nothing a = grind int_laws

module _ (open_checkout : PaymentProvider → Money → Result CheckoutInstruction)
    (receivers : ℕ → PaymentStatus → Result (Unit {0})) where
  nothing_due :
      (o : ℕ) (method : PaymentMethod) (db : Desk) (order : Order)
      → db.orders o ≡ some order
      → settled_total o order db.transactions ≡ ok order.total
      → record_cash_collected open_checkout receivers o method db ≡ ok (db, none)
  unfolding record_cash_collected collect_rest
  nothing_due o method db order found counted =
      let (rest, left, none_left) = nothing_left order.total in
      elim (Bool-cases (is_cash method)) [
        | inl pays ↦ rw (record_cash_collected, pays, found, counted, left, none_left) refl
        | inr other ↦ rw (record_cash_collected, other) refl
      ]

  -- The row of the cash, and what it leaves.
  collected :
      (o : ℕ) (order : Order) (settled rest : Money) (db db' : Desk) (c : Option ℕ)
      → db.orders o ≡ some order
      → settled_total o order db.transactions ≡ ok settled
      → sub order.total settled ≡ ok rest
      → (find_cash_row open_checkout receivers o rest db >>= λ row.
          settle_cash open_checkout receivers o row)
        ≡ ok (db', c)
      → (db'.orders o ≡ some (record order { amount_paid = some order.total }))
        × (settled_total o order db'.transactions ≡ ok order.total)
  unfolding settled_total
  collected o order settled rest db db' c found counted left h =
      let (row, sought, h1) = >>=-eq-ok (find_cash_row open_checkout receivers o rest db) _ h in
      let due = find_cash_row-IsOwed open_checkout receivers o rest db row sought in
      let done = settle_cash-IsSettled open_checkout receivers o row db' c h1 in
      let t = row.transaction in
      let u : Transaction = record t { status = completed } in
      let is : done.order ≡ order =
        some-injective done.order order
          (sym done.found ∙ ap (λ (f : ℕ → Option Order). f o) due.orders ∙ found) in
      let unit : t.amount.currency ≡ order.total.currency =
        ap (λ (m : Money). m.currency) due.amount ∙ rest_currency in
      let sum =
        total_of_complete o row.number (zero_money order.total.currency) settled
          row.desk.transactions t u due.at (rw (due.own, due.owed) refl) (rw due.own refl) unit
          (due.total (zero_money order.total.currency) ∙ counted) in
      let total : settled_total o order db'.transactions ≡ ok order.total =
        rw done.rows sum
        ∙ ap ok (
            ap (λ (m : Money). money (settled.amount_minor +ℤ m.amount_minor) settled.currency)
              due.amount
            ∙ paid_up order.total settled rest left) in
      let paid : done.paid ≡ order.total =
        ok-injective
          (sym done.counted ∙ ap (λ (x : Order). settled_total o x db'.transactions) is ∙ total) in
      (
        ap (λ (f : ℕ → Option Order). f o) done.orders
            ∙ update_own row.desk.orders (some (record done.order { amount_paid = some done.paid }))
            ∙ ap some (
                ap (λ (x : Order). record x { amount_paid = some done.paid }) is
                ∙ ap (λ m. record order { amount_paid = some m }) paid),
        total,
      )
    where
      rest_currency : rest.currency ≡ order.total.currency
      rest_currency = ap (λ (m : Money). m.currency) (sub-inv order.total settled left).1

      update_own : (f : ℕ → Option Order) (v : Option Order) → update f o v o ≡ v
      update_own f v = rw (eq_self o) refl

  -- Cash that is collected pays the order in full: what its transactions have settled is its total,
  -- which is what the order says is paid, and the same call again finds nothing to collect.
  pub record_cash_collected_twice :
      (o n : ℕ) (method : PaymentMethod) (db db' : Desk)
      → record_cash_collected open_checkout receivers o method db ≡ ok (db', some n)
      → (order : Order) × (db.orders o ≡ some order)
        × (db'.orders o ≡ some (record order { amount_paid = some order.total }))
        × (settled_total o order db'.transactions ≡ ok order.total)
        × (record_cash_collected open_checkout receivers o method db' ≡ ok (db', none))
  unfolding record_cash_collected collect_rest sub settled_total
  record_cash_collected_twice o n method db db' h = elim (Bool-cases (is_cash method)) [
    | inl pays ↦ by_cash pays (rw (record_cash_collected, pays) at h)
    | inr other ↦ absurd (nobody (rw (record_cash_collected, other) at h))
  ]
    where
      nobody : {d : Desk} → ◌≡◌ {A = Result (Desk × Option ℕ)} (ok (d, none)) (ok (db', some n)) → ⊥
      nobody e = not_some (ap (λ (r : Desk × Option ℕ). r.1) (ok-injective e))
        where
          not_some : ◌≡◌ {A = Option ℕ} none (some n) → ⊥
          not_some e = cc

      due :
          (rest : Money)
          → collect_rest open_checkout receivers o rest db ≡ ok (db', some n)
          → (find_cash_row open_checkout receivers o rest db >>= λ row.
              settle_cash open_checkout receivers o row)
            ≡ ok (db', some n)
      due rest h = elim (Bool-cases (is_positive rest)) [
        | inl positive ↦ rw (collect_rest, positive) at h
        | inr none_left ↦ absurd (nobody (rw (collect_rest, none_left) at h))
      ]

      by_cash :
          is_cash method ≡ true
          → (do
            locked ← or_raise (db.orders o) does_not_exist
            settled ← settled_total o locked db.transactions
            rest ← sub locked.total settled
            collect_rest open_checkout receivers o rest db)
            ≡ ok (db', some n)
          → (order : Order) × (db.orders o ≡ some order)
            × (db'.orders o ≡ some (record order { amount_paid = some order.total }))
            × (settled_total o order db'.transactions ≡ ok order.total)
            × (record_cash_collected open_checkout receivers o method db' ≡ ok (db', none))
      by_cash pays h =
          let (order, found, h1) = >>=-eq-ok (or_raise (db.orders o) does_not_exist) _ h in
          let (settled, counted, h2) = >>=-eq-ok (settled_total o order db.transactions) _ h1 in
          let (rest, left, h3) = >>=-eq-ok (sub order.total settled) _ h2 in
          let there = or_raise-eq-ok _ _ found in
          let (kept, total) =
            collected o order settled rest db db' (some n) there counted left (due rest h3) in
          (
            order,
            there,
            kept,
            total,
            nothing_due o method db' (record order { amount_paid = some order.total }) kept total,
          )
