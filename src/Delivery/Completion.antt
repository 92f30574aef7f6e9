-- ===== src/Delivery/Completion.antt =====
-- A course that goes its way, by `transition_to` of apps/delivery/services.py.
use elcorazon_backend.Base.{
  ℕ, suc, ◌≤◌, ◌≡◌, refl, String, false, Option, some, List, nat_eq, eq_self, contains, update, ok,
  ◌>>=◌, arith,
}
use elcorazon_backend.Base.Rows.{bit, count, count-set_row, row_at-set_row, row_at, set_row}
use elcorazon_backend.Money.{Money}
use elcorazon_backend.StateMachine.{targets_from, can, is_noop, validate}
use elcorazon_backend.Orders.States.{OrderStatus, status_eq as order_status_eq}
use elcorazon_backend.Delivery.States.{
  DeliveryStatus, accepted, picked_up, on_the_way, delivered, status_eq, order_status_projection,
}
use elcorazon_backend.Delivery.Rows.{
  CourierProfile, Assignment, Order, Fleet, engaged_by, active_for,
}
use elcorazon_backend.Delivery.Courses.{
  with_order, move_order, reward, advanced, breaks_unique, write_rows, require_following, project,
  transition_to, earnings_with, credit,
}
use elcorazon_backend.Delivery.Uniqueness.{Unique, Unique-set_row}

-- The steps of a course, with the status of the order before and after.
data Stage : DeliveryStatus → DeliveryStatus → OrderStatus → OrderStatus → Type 0 where
  picks_up : Stage accepted picked_up OrderStatus.ready OrderStatus.picked_up
  leaves : Stage picked_up on_the_way OrderStatus.picked_up OrderStatus.on_the_way
  hands_over : Stage on_the_way delivered OrderStatus.on_the_way OrderStatus.delivered

-- The tables after a step, before the reward.
abbrev stepped : ℕ → DeliveryStatus → Assignment → Order → OrderStatus → Fleet → Fleet
stepped n target a order t db =
    with_order (record db { assignments = set_row n (record a { status = target }) db.assignments })
      a.order order t

pub small :
    (a : Assignment) (rows : List Assignment)
    → count (engaged_by a.courier) rows ≤ 1
    → count (active_for a.order) rows ≤ 1
    → breaks_unique a rows ≡ false
unfolding breaks_unique
small a rows h1 h2 = ground arith

-- A step engages nobody, and makes no course active.
Stage-bits :
    {s t : DeliveryStatus} {os ot : OrderStatus} (stage : Stage s t os ot) (a : Assignment) (k : ℕ)
    → a.status ≡ s
    → (bit (engaged_by k (record a { status = t })) ≤ bit (engaged_by k a))
      × (bit (active_for k (record a { status = t })) ≤ bit (active_for k a))
unfolding engaged_by active_for contains
Stage-bits picks_up a k st = rw st (ground arith)
Stage-bits leaves a k st = rw st (ground arith)
Stage-bits hands_over a k st = rw st (ground arith)

Stage-fits :
    {s t : DeliveryStatus} {os ot : OrderStatus} (stage : Stage s t os ot) (n : ℕ) (a : Assignment)
    (rows : List Assignment)
    → row_at n rows ≡ some a
    → a.status ≡ s
    → Unique rows
    → breaks_unique (record a { status = t }) (set_row n (record a { status = t }) rows) ≡ false
Stage-fits {t = t} stage n a rows there st (engaged, active) =
    let b : Assignment = record a { status = t } in
    small b (set_row n b rows)
      (omega (
        arith,
        count-set_row (engaged_by a.courier) n a b rows there,
        engaged a.courier,
        (Stage-bits stage a a.courier st).0,
      ))
      (omega (
        arith,
        count-set_row (active_for a.order) n a b rows there,
        active a.order,
        (Stage-bits stage a a.order st).1,
      ))

Stage-steps :
    {s t : DeliveryStatus} {os ot : OrderStatus} (stage : Stage s t os ot) (n : ℕ) (reason : String)
    (a : Assignment) (order : Order) (db : Fleet)
    → row_at n db.assignments ≡ some a
    → db.orders a.order ≡ some order
    → a.status ≡ s
    → order.status ≡ os
    → db.attendants a.order ot ≡ ok tt
    → breaks_unique (record a { status = t }) (set_row n (record a { status = t }) db.assignments)
      ≡ false
    → transition_to n t reason db ≡ reward t (record a { status = t }) (stepped n t a order ot db)
unfolding transition_to is_noop validate can targets_from contains order_status_projection
    write_rows require_following project move_order advanced
Stage-steps picks_up n reason a order db there found st ost quiet fits =
    rw (there, st, found, ost, fits, found, ost, quiet) refl
Stage-steps leaves n reason a order db there found st ost quiet fits =
    rw (there, st, found, ost, fits, found, ost, quiet) refl
Stage-steps hands_over n reason a order db there found st ost quiet fits =
    rw (there, st, found, ost, fits, found, ost, quiet) refl

-- An accepted course whose order is ready can be brought to its end: in tables that satisfy the
-- unique constraints, when the fee can be added to the earnings of its courier and nothing that runs
-- with the changes of the order raises, to pick up, to leave and to hand over succeed one after the
-- other, and then the course and its order are delivered and the courier has one delivery more and
-- the sum.
pub course_completes :
    (n : ℕ) (reason : String) (a : Assignment) (order : Order) (courier : CourierProfile)
    (earnings : Option Money) (db : Fleet)
    → row_at n db.assignments ≡ some a
    → db.orders a.order ≡ some order
    → db.couriers a.courier ≡ some courier
    → a.status ≡ accepted
    → order.status ≡ OrderStatus.ready
    → Unique db.assignments
    → earnings_with courier.total_earnings a.courier_fee ≡ ok earnings
    → ((t : OrderStatus) → db.attendants a.order t ≡ ok tt)
    → (db' : Fleet) × ((transition_to n picked_up reason db >>= λ d.
          transition_to n on_the_way reason d >>= λ d. transition_to n delivered reason d)
        ≡ ok db')
      × (row_at n db'.assignments ≡ some (record a { status = delivered }))
      × (db'.orders a.order ≡ some (record order { status = OrderStatus.delivered }))
      × (db'.couriers a.courier
          ≡ some (record courier {
            deliveries_completed = suc courier.deliveries_completed;
            total_earnings = earnings;
          }))
unfolding reward credit
course_completes n reason a order courier earnings db there found known st ost unique summed quiet =
    let a1 : Assignment = record a { status = picked_up } in
    let a2 : Assignment = record a { status = on_the_way } in
    let a3 : Assignment = record a { status = delivered } in
    let o1 : Order = record order { status = OrderStatus.picked_up } in
    let o2 : Order = record order { status = OrderStatus.on_the_way } in
    let d1 = stepped n picked_up a order OrderStatus.picked_up db in
    let d2 = stepped n on_the_way a1 o1 OrderStatus.on_the_way d1 in
    let d3 = stepped n delivered a2 o2 OrderStatus.delivered d2 in
    let fits1 = Stage-fits picks_up n a db.assignments there st unique in
    let there1 = row_at-set_row n a a1 db.assignments there in
    let unique1 = Unique-set_row n a a1 db.assignments there refl refl fits1 unique in
    let fits2 = Stage-fits leaves n a1 d1.assignments there1 refl unique1 in
    let there2 = row_at-set_row n a1 a2 d1.assignments there1 in
    let unique2 = Unique-set_row n a1 a2 d1.assignments there1 refl refl fits2 unique1 in
    let fits3 = Stage-fits hands_over n a2 d2.assignments there2 refl unique2 in
    let there3 = row_at-set_row n a2 a3 d2.assignments there2 in
    let found1 : d1.orders a.order ≡ some o1 = rw (eq_self a.order) refl in
    let found2 : d2.orders a.order ≡ some o2 = rw (eq_self a.order) refl in
    let step1 =
      Stage-steps picks_up n reason a order db there found st ost (quiet OrderStatus.picked_up)
        fits1 in
    let step2 =
      Stage-steps leaves n reason a1 o1 d1 there1 found1 refl refl (quiet OrderStatus.on_the_way)
        fits2 in
    let step3 =
      Stage-steps hands_over n reason a2 o2 d2 there2 found2 refl refl (quiet OrderStatus.delivered)
        fits3 in
    (
      record d3 {
        couriers = update db.couriers a.courier (
            some (record courier {
              deliveries_completed = suc courier.deliveries_completed;
              total_earnings = earnings;
            }));
      },
      rw (step1, step2, step3, known, summed) refl,
      there3,
      rw (eq_self a.order) refl,
      rw (eq_self a.courier) refl,
    )
