-- ===== src/Delivery/Bypasses.antt =====
-- Two ways round the guards of `accept` in apps/delivery/services.py: a step to accepted, and a
-- refusal with a copy that is out of date.
use elcorazon_backend.Base.{
  ℕ, ◌≡◌, refl, ap, ◌∙◌, String, false, none, some, List, nat_eq, ◌==◌, eq_self, contains, ok,
  arith,
}
use elcorazon_backend.Base.Rows.{bit, count-set_row, row_at-set_row, row_at, set_row}
use elcorazon_backend.StateMachine.{targets_from, can, is_noop, validate}
use elcorazon_backend.Orders.States.{OrderStatus, status_eq as order_status_eq}
use elcorazon_backend.Delivery.States.{
  offered, accepted, declined, status_eq, order_status_projection,
}
use elcorazon_backend.Delivery.Rows.{Assignment, Order, Fleet, engaged_by, active_for}
use elcorazon_backend.Delivery.Courses.{
  closed, reward, advanced, breaks_unique, write_rows, require_following, project, transition_to,
}
use elcorazon_backend.Delivery.Uniqueness.{Unique}
use elcorazon_backend.Delivery.Completion.{small}
use elcorazon_backend.Delivery.Courses.{decline}

-- A step to accepted, of an offered course whose order is not cancelled, succeeds as soon as the
-- unique constraints allow the row, whatever the file of the courier is; it leaves the course
-- without the fee that it had none of, and its courier as found.
pub transition_to-accepted :
    (n : ℕ) (reason : String) (a : Assignment) (order : Order) (db : Fleet)
    → row_at n db.assignments ≡ some a
    → db.orders a.order ≡ some order
    → a.status ≡ offered
    → a.courier_fee ≡ none
    → (order.status == OrderStatus.cancelled) ≡ false
    → breaks_unique
        (record a { status = accepted })
        (set_row n (record a { status = accepted }) db.assignments)
      ≡ false
    → (db' : Fleet) × (transition_to n accepted reason db ≡ ok db')
      × (row_at n db'.assignments ≡ some (record a { status = accepted; courier_fee = none }))
      × (db'.couriers ≡ db.couriers)
unfolding transition_to is_noop validate can targets_from contains order_status_projection
    write_rows require_following project advanced reward
transition_to-accepted n reason a order db there found st unpaid alive fits = (
  record db { assignments = set_row n (record a { status = accepted }) db.assignments },
  rw (there, st, found, alive, fits) refl,
  row_at-set_row n a (record a { status = accepted }) db.assignments there
      ∙ ap (λ fee. some (record a { status = accepted; courier_fee = fee })) unpaid,
  refl,
)

not_engaged :
    (c : ℕ) (b : Assignment) (reason : String) → engaged_by c (closed b declined reason) ≡ false
unfolding engaged_by contains
not_engaged c b reason = ground arith

not_active :
    (o : ℕ) (b : Assignment) (reason : String) → active_for o (closed b declined reason) ≡ false
unfolding active_for contains
not_active o b reason = ground arith

closed_fits :
    (n : ℕ) (a : Assignment) (reason : String) (rows : List Assignment)
    → row_at n rows ≡ some a
    → Unique rows
    → breaks_unique (closed a declined reason) (set_row n (closed a declined reason) rows) ≡ false
closed_fits n a reason rows there (engaged, active) =
    small (closed a declined reason) _
      (omega (
        arith,
        count-set_row (engaged_by a.courier) n a (closed a declined reason) rows there,
        engaged a.courier,
        ap bit (not_engaged a.courier a reason),
      ))
      (omega (
        arith,
        count-set_row (active_for a.order) n a (closed a declined reason) rows there,
        active a.order,
        ap bit (not_active a.order a reason),
      ))

-- A refusal judges the copy of the caller and not the row: with a copy from when the course was
-- offered, it closes the row whatever the course has become since.
pub decline-stale :
    (n c : ℕ) (copy now : Assignment) (reason : String) (db : Fleet)
    → copy.courier ≡ c
    → copy.status ≡ offered
    → row_at n db.assignments ≡ some now
    → Unique db.assignments
    → (db' : Fleet) × (decline n copy c reason db ≡ ok db')
      × (row_at n db'.assignments ≡ some (closed now declined reason))
unfolding decline validate can targets_from contains write_rows
decline-stale n c copy now reason db mine st there unique = (
  record db { assignments = set_row n (closed now declined reason) db.assignments },
  rw (mine, eq_self c, st, there, closed_fits n now reason db.assignments there unique) refl,
  row_at-set_row n now (closed now declined reason) db.assignments there,
)
