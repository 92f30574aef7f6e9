-- ===== src/Delivery/Races.antt =====
-- Two acceptances at once, of courses of different orders, by one courier: `accept` of
-- apps/delivery/services.py, whose lock is on the order, and the constraint
-- `one_engaged_assignment_per_courier` of apps/delivery/models.py.
use mathlib.Core.Path.{subst}
use elcorazon_backend.Base.{
  sym, ℕ, ◌+◌, ◌≤◌, ◌≡◌, ◌≢◌, refl, ap, inl, inr, Bool, true, false, some, List, nat_eq, ◌==◌,
  eq_self, contains, ok, err, integrity_error, rule_violation, Bool-cases, arith,
}
use elcorazon_backend.Base.Rows.{
  row_at, set_row, bit, count, exists, count-set_row, count-exists, row_at-set_row_other,
}
use elcorazon_backend.Money.{Money}
use elcorazon_backend.StateMachine.{targets_from, can, validate}
use elcorazon_backend.Orders.States.{OrderStatus, status_eq as order_status_eq}
use elcorazon_backend.Delivery.States.{offered, status_eq}
use elcorazon_backend.Delivery.Rows.{
  CourierProfile, Assignment, Order, Fleet, can_accept_orders, engaged_by, active_for,
}
use elcorazon_backend.Delivery.Courses.{
  breaks_unique, write_rows, courier_fee_for, taken_course, accept,
}
use elcorazon_backend.Delivery.Uniqueness.{Unique}
use elcorazon_backend.Delivery.Guards.{still_active}
use elcorazon_backend.Delivery.Completion.{small}

module _ (c : ℕ) (a : Assignment) (mine : a.courier ≡ c) where
  waits : a.status ≡ offered → engaged_by c a ≡ false
  unfolding engaged_by contains
  waits st = rw (mine, eq_self c, st) refl

  engages : (fee : Money) → engaged_by c (taken_course a fee) ≡ true
  unfolding engaged_by contains
  engages fee = rw (mine, eq_self c) refl

  -- An offered course that is taken engages one course more.
  one_more :
      (n : ℕ) (fee : Money) (rows : List Assignment)
      → a.status ≡ offered
      → row_at n rows ≡ some a
      → count (engaged_by c) (set_row n (taken_course a fee) rows) ≡ count (engaged_by c) rows + 1
  one_more n fee rows st there = omega (
    arith,
    count-set_row (engaged_by c) n a (taken_course a fee) rows there,
    ap bit (waits st),
    ap bit (engages fee),
  )

  taken_fits :
      (n : ℕ) (fee : Money) (rows : List Assignment)
      → a.status ≡ offered
      → row_at n rows ≡ some a
      → Unique rows
      → count (engaged_by c) rows ≡ 0
      → breaks_unique (taken_course a fee) (set_row n (taken_course a fee) rows) ≡ false
  taken_fits n fee rows st there (engaged, active) none_yet =
      small (taken_course a fee) _
        (subst (λ k. count (engaged_by k) (set_row n (taken_course a fee) rows) ≤ 1) (sym mine)
          (omega (arith, one_more n fee rows st there)))
        (omega (
          arith,
          count-set_row (active_for a.order) n a (taken_course a fee) rows there,
          active a.order,
          ap bit (still_active a fee st),
        ))

  taken_breaks :
      (n : ℕ) (fee : Money) (rows : List Assignment)
      → a.status ≡ offered
      → row_at n rows ≡ some a
      → count (engaged_by c) rows ≡ 1
      → breaks_unique (taken_course a fee) (set_row n (taken_course a fee) rows) ≡ true
  unfolding breaks_unique
  taken_breaks n fee rows st there one =
      let two : count (engaged_by a.courier) (set_row n (taken_course a fee) rows) ≡ 2 =
        subst (λ k. count (engaged_by k) (set_row n (taken_course a fee) rows) ≡ 2) (sym mine)
          (omega (arith, one_more n fee rows st there)) in
      rw two refl

counted : (p : Assignment → Bool) (rows : List Assignment) → count p rows ≡ 1 → exists p rows ≡ true
counted p rows one = elim (Bool-cases (exists p rows)) [
  | inl some_row ↦ some_row
  | inr no_row ↦ absurd (omega (arith, count-exists p rows no_row))
]

module _ (share n c : ℕ) (copy : CourierProfile) (a : Assignment) (order : Order) where
  -- An acceptance whose guards are passed is decided by the constraints.
  accept-passes :
      (seen : List Assignment) (db : Fleet)
      → row_at n db.assignments ≡ some a
      → db.orders a.order ≡ some order
      → a.courier ≡ c
      → a.status ≡ offered
      → (order.status == OrderStatus.cancelled) ≡ false
      → can_accept_orders copy ≡ true
      → exists (engaged_by c) seen ≡ false
      → accept share n c copy seen db
        ≡ write_rows
            (taken_course a (courier_fee_for share order))
            (set_row n (taken_course a (courier_fee_for share order)) db.assignments)
            db
  unfolding accept validate can targets_from contains
  accept-passes seen db there found mine st alive able free =
      rw (there, found, mine, eq_self c, alive, able, free, st) refl

  -- An acceptance that reads an engaged course is refused by the guard.
  accept-refused :
      (seen : List Assignment) (db : Fleet)
      → row_at n db.assignments ≡ some a
      → db.orders a.order ≡ some order
      → a.courier ≡ c
      → (order.status == OrderStatus.cancelled) ≡ false
      → can_accept_orders copy ≡ true
      → exists (engaged_by c) seen ≡ true
      → accept share n c copy seen db ≡ err rule_violation
  unfolding accept
  accept-refused seen db there found mine alive able busy =
      rw (there, found, mine, eq_self c, alive, able, busy) refl

-- A free courier accepts two offered courses at once, and both acceptances read the courses before
-- either has written: the first to write succeeds, and the other passes the guard of the service and
-- is stopped by the constraint of the table; had it read the courses after the first, the guard
-- would have refused it.
pub accept_race :
    (share n m c : ℕ) (copy : CourierProfile) (a b : Assignment) (order other : Order) (db : Fleet)
    → m ≢ n
    → row_at n db.assignments ≡ some a
    → row_at m db.assignments ≡ some b
    → db.orders a.order ≡ some order
    → db.orders b.order ≡ some other
    → a.courier ≡ c
    → b.courier ≡ c
    → a.status ≡ offered
    → b.status ≡ offered
    → (order.status == OrderStatus.cancelled) ≡ false
    → (other.status == OrderStatus.cancelled) ≡ false
    → can_accept_orders copy ≡ true
    → exists (engaged_by c) db.assignments ≡ false
    → Unique db.assignments
    → (db' : Fleet) × (accept share n c copy db.assignments db ≡ ok db')
      × (accept share m c copy db.assignments db' ≡ err integrity_error)
      × (accept share m c copy db'.assignments db' ≡ err rule_violation)
unfolding write_rows
accept_race share n m c copy a b order other db apart at_a at_b found_a found_b mine_a mine_b st_a
      st_b alive_a alive_b able free unique =
    let fee = courier_fee_for share order in
    let rows = set_row n (taken_course a fee) db.assignments in
    let db' : Fleet = record db { assignments = rows } in
    let none_yet = count-exists (engaged_by c) db.assignments free in
    let one : count (engaged_by c) rows ≡ 1 =
      omega (arith, one_more c a mine_a n fee db.assignments st_a at_a) in
    let there : row_at m rows ≡ some b =
      rw (row_at-set_row_other m n (taken_course a fee) db.assignments apart) at_b in
    let first = taken_fits c a mine_a n fee db.assignments st_a at_a unique none_yet in
    let second = taken_breaks c b mine_b m (courier_fee_for share other) rows st_b there one in
    (
      db',
      rw
          (
            accept-passes share n c copy a order db.assignments db at_a found_a mine_a st_a alive_a
                able free,
            first,
          )
          refl,
      rw
          (
            accept-passes share m c copy b other db.assignments db' there found_b mine_b st_b
                alive_b able free,
            second,
          )
          refl,
      accept-refused share m c copy b other rows db' there found_b mine_b alive_b able
          (counted (engaged_by c) rows one),
    )
