-- ===== src/Payments/Cap.antt =====
-- The ceiling on refunds, and the condition on which a payment confirms an order, of
-- apps/payments/services.py.
use elcorazon_backend.Base.{
  ℕ, ◌≡◌, inl, inr, refl, sym, ap, ◌∙◌, ◌≢◌, String, Bool, true, false, not, some, some-injective,
  List, [], ◌∷◌, ◌++◌, nat_eq, ◌==◌, eq_self, Result, ok, err, ◌>>=◌, or_raise, if◌then◌else◌,
  rule_violation, does_not_exist, >>=-eq-ok, or_raise-eq-ok, guard-eq-ok, ok-injective, Bool-cases,
  arith,
}
use elcorazon_backend.Base.Int.{◌+ℤ◌, ◌-ℤ◌, ◌≤ℤ◌, ltb_ℤ, int_laws}
use elcorazon_backend.Base.Rows.{row_at}
use elcorazon_backend.Money.{Money, money, zero_money, currency_eq, add, sub, lt, is_positive}
use elcorazon_backend.Money.Sums.{add-same, sub-inv, lt-inv}
use elcorazon_backend.Payments.States.{status_eq, completed}
use elcorazon_backend.Payments.Rows.{Order, Refund, Desk}
use elcorazon_backend.Payments.Totals.{is_order, settled_total, confirm_order, confirm_paid}
use elcorazon_backend.Payments.Refunds.{is_live, refund_total, new_refund, refund}

-- A refund at the end of the table is added last.
refund_total-append :
    (keeps : Refund → Bool) (total sum : Money) (rs : List Refund) (r : Refund)
    → keeps r ≡ true
    → refund_total keeps total rs ≡ ok sum
    → refund_total keeps total (rs ++ (r ∷ [])) ≡ add sum r.amount
unfolding refund_total
refund_total-append keeps total sum [] r live h =
    rw (live, ok-injective h) (bind-ok (add sum r.amount))
  where
    bind-ok : (m : Result Money) → (m >>= λ x. ok x) ≡ m
    bind-ok (ok a) = refl
    bind-ok (err e) = refl
refund_total-append keeps total sum (x ∷ rs) r live h = elim (Bool-cases (keeps x)) [
  | inl kept ↦
      let (next, added, rest) = >>=-eq-ok (add total x.amount) _ (rw kept at h) in
      rw (kept, added) (refund_total-append keeps next sum rs r live rest)
  | inr dropped ↦ rw dropped (refund_total-append keeps total sum rs r live (rw dropped at h))
]

refund-inv :
    (o n : ℕ) (amount : Money) (reason : String) (db db' : Desk) (order : Order)
    → db.orders o ≡ some order
    → refund o n amount reason db ≡ ok db'
    → (already : Money) × (paid : Money) × (remaining : Money) × (over : Bool) × (refund_total
          (is_live o)
          (zero_money order.total.currency)
          db.refunds
        ≡ ok already)
      × (settled_total o order db.transactions ≡ ok paid)
      × (sub paid already ≡ ok remaining)
      × (lt remaining amount ≡ ok over)
      × (over ≡ false)
      × (db' ≡ record db { refunds = db.refunds ++ (new_refund o n amount reason ∷ []) })
unfolding refund
refund-inv o n amount reason db db' order found h =
    let (order', found', h1) = >>=-eq-ok (or_raise (db.orders o) does_not_exist) _ h in
    let (t, there, h2) = >>=-eq-ok (or_raise (row_at n db.transactions) does_not_exist) _ h1 in
    let (own, h3) = guard-eq-ok (not (is_order t.order o)) does_not_exist _ h2 in
    let (settled, h4) = guard-eq-ok (not (t.status == completed)) rule_violation _ h3 in
    let (positive, h5) = guard-eq-ok (not (is_positive amount)) rule_violation _ h4 in
    let (already, asked, h6) =
      >>=-eq-ok (refund_total (is_live o) (zero_money order'.total.currency) db.refunds) _ h5 in
    let (paid, counted, h7) = >>=-eq-ok (settled_total o order' db.transactions) _ h6 in
    let (remaining, left, h8) = >>=-eq-ok (sub paid already) _ h7 in
    let (over, compared, h9) = >>=-eq-ok (lt remaining amount) _ h8 in
    let (fits, h10) = guard-eq-ok over rule_violation _ h9 in
    let same : order' ≡ order =
      some-injective order' order (sym (or_raise-eq-ok _ _ found') ∙ found) in
    (
      already,
      paid,
      remaining,
      over,
      rw (← same) asked,
      rw (← same) counted,
      left,
      compared,
      fits,
      sym (ok-injective h10),
    )

-- A refund that is accepted leaves the live refunds of the order, the new one among them, at no more
-- than what has really been paid for the order.
pub refund-capped :
    (o n : ℕ) (amount : Money) (reason : String) (db db' : Desk) (order : Order)
    → db.orders o ≡ some order
    → refund o n amount reason db ≡ ok db'
    → (paid : Money) × (live : Money) × (settled_total o order db'.transactions ≡ ok paid)
      × (refund_total (is_live o) (zero_money order.total.currency) db'.refunds ≡ ok live)
      × (live.currency ≡ paid.currency)
      × (live.amount_minor ≤ℤ paid.amount_minor)
refund-capped o n amount reason db db' order found h =
    let (already, paid, remaining, over, asked, settled, left, compared, fits, shape) =
      refund-inv o n amount reason db db' order found h in
    let (one, exact) = sub-inv paid already left in
    let (two, decided) = lt-inv remaining amount compared in
    let same : already.currency ≡ amount.currency = ground arith in
    let live = money (already.amount_minor +ℤ amount.amount_minor) already.currency in
    let counted : refund_total (is_live o) (zero_money order.total.currency) db'.refunds ≡ ok live =
      rw shape (
        refund_total-append (is_live o) _ already db.refunds (new_refund o n amount reason)
          (rw (eq_self o) refl) asked
        ∙ add-same already amount same) in
    (
      paid,
      live,
      rw shape settled,
      counted,
      sym one,
      under paid already amount remaining over exact decided fits,
    )
  where
    under :
        (paid already amount remaining : Money) (over : Bool)
        → remaining ≡ money (paid.amount_minor -ℤ already.amount_minor) paid.currency
        → over ≡ ltb_ℤ remaining.amount_minor amount.amount_minor
        → over ≡ false
        → already.amount_minor +ℤ amount.amount_minor ≤ℤ paid.amount_minor
    under paid already amount remaining over h1 h2 h3 = grind int_laws

-- A payment that changes the status of its order has found the order paid in full.
pub confirm_order-paid :
    (o : ℕ) (db db' : Desk) (order after : Order)
    → db.orders o ≡ some order
    → confirm_order o db ≡ ok db'
    → db'.orders o ≡ some after
    → after.status ≢ order.status
    → (paid : Money) × (settled_total o order db.transactions ≡ ok paid)
      × (order.total.currency ≡ paid.currency)
      × (order.total.amount_minor ≤ℤ paid.amount_minor)
unfolding confirm_order
confirm_order-paid o db db' order after found h there changed =
    let (order', found', h1) = >>=-eq-ok (or_raise (db.orders o) does_not_exist) _ h in
    let (paid, counted, h2) = >>=-eq-ok (settled_total o order' db.transactions) _ h1 in
    let (short, compared, h3) = >>=-eq-ok (lt paid order'.total) _ h2 in
    let (same, decided) = lt-inv paid order'.total compared in
    let is : order' ≡ order =
      some-injective order' order (sym (or_raise-eq-ok _ _ found') ∙ found) in
    (paid, rw (← is) counted, rw (← is) (sym same), ends paid short order' decided is h3)
  where
    ends :
        (paid : Money) (short : Bool) (order' : Order)
        → short ≡ ltb_ℤ paid.amount_minor order'.total.amount_minor
        → order' ≡ order
        → (if short then ok db else confirm_paid o order' db) ≡ ok db'
        → order.total.amount_minor ≤ℤ paid.amount_minor
    ends paid true order' decided is e =
        let unchanged : db ≡ db' = ok-injective e in
        let back : order ≡ after =
          some-injective order after
            (sym found ∙ ap (λ (d : Desk). d.orders o) unchanged ∙ there) in
        absurd (changed (ap (λ (x : Order). x.status) (sym back)))
    ends paid false order' decided is e = rw (← is) (ground arith)
