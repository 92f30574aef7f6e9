-- ===== src/Payments/Conservation.antt =====
-- Histories of withdrawals of apps/payments/services.py.
use elcorazon_backend.Base.{
  ℕ, ◌≡◌, refl, ap, ◌∙◌, ◌⊎◌, illegal_transition, String, false, Option, some, List, [], ◌∷◌, ◌++◌,
  nat_eq, ◌==◌, update, Result, ok, err, value_or, Bool-cases, inl, inr, contains,
}
use elcorazon_backend.Base.Int.{ℤ, ◌+ℤ◌, ◌-ℤ◌, int_laws}
use elcorazon_backend.Base.Rows.{row_at, set_row, row_at-set_row, sum_of-set_row, sum_of-insert}
use elcorazon_backend.Money.{Money, currency_eq, money}
use elcorazon_backend.StateMachine.{validate, can}
use elcorazon_backend.Payments.States.{status_eq, processing, completed, failed, payment_machine}
use elcorazon_backend.Payments.Withdrawals.{
  Withdrawal, Payroll, opened_withdrawal, earnings_or_zero, settled, refused, settle, fail, Call,
  requests, settles, fails, perform, run,
}
use elcorazon_backend.Payments.Balance.{
  available, taken_by, taken, request-inv, settle-inv, fail-inv, eq_sym, flip, not_failed,
  available-set, available-other, available-found, balance, taken_by-own, taken_by-lost,
  taken_by-other, taken_by-same,
}

module _ (c : ℕ) (db db' : Payroll) where
  -- A new withdrawal takes from its courier what it holds.
  insert_balance :
      (k : ℕ) (e rest : Money) (w : Withdrawal)
      → w.courier ≡ k
      → (w.status == failed) ≡ false
      → db.couriers k ≡ some (some e)
      → rest.amount_minor ≡ e.amount_minor -ℤ w.amount.amount_minor
      → db'.couriers ≡ update db.couriers k (some (some rest))
      → db'.withdrawals ≡ db.withdrawals ++ (w ∷ [])
      → available c db' +ℤ taken c db' ≡ available c db +ℤ taken c db
  insert_balance k e rest w kw fine found less shape rows =
      let sum : taken c db' ≡ taken c db +ℤ taken_by c w =
        rw rows (sum_of-insert (taken_by c) w db.withdrawals) in
      elim (Bool-cases (c == k)) [
        | inl same ↦
            let before = available-found c k db db' (some e) rest e same found in
            let after = available-set c k db db' (some e) rest same shape in
            let own = taken_by-own c w (rw kw (eq_sym c k same)) fine in
            balance_insert _ _ _ _ (taken_by c w) _ _ before after (rw own less) sum
        | inr other ↦
            let after = available-other c k db db' (some e) rest other shape in
            let none_of = taken_by-other c w (rw kw (flip c k other)) in
            rw (after, sum, none_of) (grind int_laws)
      ]
    where
      balance_insert :
          (a a' t t' x y z : ℤ) → a ≡ y → a' ≡ z → z ≡ y -ℤ x → t' ≡ t +ℤ x → a' +ℤ t' ≡ a +ℤ t
      balance_insert a a' t t' x y z h1 h2 h4 h5 = grind int_laws

  -- A row that is replaced gives back what it held.
  replace_balance :
      (n : ℕ) (w v : Withdrawal)
      → row_at n db.withdrawals ≡ some w
      → db'.withdrawals ≡ set_row n v db.withdrawals
      → available c db' +ℤ taken_by c v ≡ available c db +ℤ taken_by c w
      → available c db' +ℤ taken c db' ≡ available c db +ℤ taken c db
  replace_balance n w v found rows paid =
      let swap = sum_of-set_row (taken_by c) n w v db.withdrawals found in
      rw rows (balance _ _ _ _ _ _ swap paid)

  settle_balance :
      (w v : Withdrawal)
      → validate payment_machine w.status processing ≡ ok tt
      → db'.couriers ≡ db.couriers
      → v.courier ≡ w.courier
      → v.amount ≡ w.amount
      → v.status ≡ completed
      → available c db' +ℤ taken_by c v ≡ available c db +ℤ taken_by c w
  settle_balance w v legal couriers k m st =
      rw (couriers, taken_by-same c w v k m (not_failed w.status processing legal) (rw st refl))
        refl

  fail_balance :
      (w v : Withdrawal) (o : Option Money) (m : Money)
      → validate payment_machine w.status failed ≡ ok tt
      → db.couriers w.courier ≡ some o
      → db'.couriers ≡ update db.couriers w.courier (some (some m))
      → m.amount_minor ≡ (earnings_or_zero o w.amount).amount_minor +ℤ w.amount.amount_minor
      → v.courier ≡ w.courier
      → v.status ≡ failed
      → available c db' +ℤ taken_by c v ≡ available c db +ℤ taken_by c w
  fail_balance w v o m legal found shape more k st = elim (Bool-cases (c == w.courier)) [
    | inl same ↦
        let before = available-found c w.courier db db' o m w.amount same found in
        let after = available-set c w.courier db db' o m same shape in
        let own = taken_by-own c w (eq_sym c w.courier same) (not_failed w.status failed legal) in
        let lost = taken_by-lost c v (rw k (eq_sym c w.courier same)) st in
        rw (before, after, own, lost, more) (grind int_laws)
    | inr other ↦
        let after = available-other c w.courier db db' o m other shape in
        let was = taken_by-other c w (flip c w.courier other) in
        let is = taken_by-other c v (rw k (flip c w.courier other)) in rw (after, was, is) refl
  ]

  perform_conserves :
      (call : Call)
      → perform call db ≡ ok db'
      → available c db' +ℤ taken c db' ≡ available c db +ℤ taken c db
  unfolding perform
  perform_conserves (requests courier amount) h =
      let (e, found, shape) = request-inv courier amount db db' h in
      insert_balance courier e (money (e.amount_minor -ℤ amount.amount_minor) e.currency)
        (opened_withdrawal courier amount) refl refl found refl
        (ap (λ (d : Payroll). d.couriers) shape) (ap (λ (d : Payroll). d.withdrawals) shape)
  perform_conserves (settles n reference actor) h =
      let (w, found, legal, shape) = settle-inv n reference actor db db' h in
      replace_balance n w _ found (ap (λ (d : Payroll). d.withdrawals) shape) (
        settle_balance w (settled w reference actor) legal (ap (λ (d : Payroll). d.couriers) shape)
          refl refl refl)
  perform_conserves (fails n reason actor) h =
      let (w, o, found, legal, locked, shape) = fail-inv n reason actor db db' h in
      replace_balance n w _ found (ap (λ (d : Payroll). d.withdrawals) shape) (
        fail_balance w (refused w reason actor) o _ legal locked
          (ap (λ (d : Payroll). d.couriers) shape) refl refl refl)

-- Whatever calls are made for whatever withdrawals, failing or not: what a courier can withdraw and
-- what the withdrawals that have not failed have taken from that courier add up to what they added
-- up to before.
pub withdrawals_conserve :
    (c : ℕ) (calls : List Call) (db : Payroll)
    → available c (run calls db) +ℤ taken c (run calls db) ≡ available c db +ℤ taken c db
unfolding run
withdrawals_conserve c [] db = refl
withdrawals_conserve c (call ∷ calls) db =
    withdrawals_conserve c calls (value_or db (perform call db)) ∙ step (perform call db) refl
  where
    step :
        (r : Result Payroll)
        → perform call db ≡ r
        → available c (value_or db r) +ℤ taken c (value_or db r) ≡ available c db +ℤ taken c db
    step (ok d) h = perform_conserves c db d call h
    step (err e) h = refl

-- A decision is final: once a withdrawal is settled or failed, to settle it or to fail it is an
-- illegal transition.
pub decision_is_final :
    (n : ℕ) (text : String) (actor : Option ℕ) (db db' : Payroll)
    → (settle n text actor db ≡ ok db') ⊎ (fail n text actor db ≡ ok db')
    → (again : String) (other : Option ℕ)
    → (settle n again other db' ≡ err illegal_transition)
      × (fail n again other db' ≡ err illegal_transition)
unfolding settle fail validate can contains
decision_is_final n text actor db db' (inl h) again other =
    let (w, found, legal, shape) = settle-inv n text actor db db' h in
    let now = row_at-set_row n w (settled w text actor) db.withdrawals found in
    rw (shape, now) (refl, refl)
decision_is_final n text actor db db' (inr h) again other =
    let (w, o, found, legal, locked, shape) = fail-inv n text actor db db' h in
    let now = row_at-set_row n w (refused w text actor) db.withdrawals found in
    rw (shape, now) (refl, refl)
