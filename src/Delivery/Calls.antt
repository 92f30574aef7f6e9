-- ===== src/Delivery/Calls.antt =====
-- The calls of `AssignmentService` of apps/delivery/services.py, taken apart: what each has found,
-- and the row, the order and the courier that it writes.
use elcorazon_backend.Base.{
  ℕ, ◌≡◌, sym, ◌⊎◌, inl, inr, String, Bool, true, false, not, ◌&&◌, some, List, [], ◌∷◌, ◌++◌,
  nat_eq, ◌==◌, ok, ◌>>=◌, raise_if, or_raise, rule_violation, does_not_exist, >>=-eq-ok,
  or_raise-eq-ok, guard-eq-ok, ok-injective, Bool-cases, arith,
}
use elcorazon_backend.Base.Rows.{row_at, set_row, exists}
use elcorazon_backend.StateMachine.{is_noop, validate}
use elcorazon_backend.Orders.States.{OrderStatus, status_eq as order_status_eq}
use elcorazon_backend.Delivery.States.{
  DeliveryStatus, accepted, declined, cancelled, status_eq, delivery_machine,
  order_status_projection,
}
use elcorazon_backend.Delivery.Rows.{
  CourierProfile, Assignment, Order, Fleet, serves_zone, can_accept_orders, engaged_by, active_for,
}
use elcorazon_backend.Delivery.Courses.{
  breaks_unique, write_rows, courier_fee_for, new_course, offer, taken_course, accept, closed,
  decline, require_following, project, reward, advanced, transition_to,
}
use elcorazon_backend.Delivery.Effects.{write_rows-inv, Followed, project-inv}

pub offer-inv :
    (o c : ℕ) (db db' : Fleet)
    → offer o c db ≡ ok db'
    → (order : Order) × (db.orders o ≡ some order)
      × ((order.status == OrderStatus.ready) ≡ true)
      × (exists (active_for o) db.assignments ≡ false)
      × (breaks_unique (new_course o c) (db.assignments ++ (new_course o c ∷ [])) ≡ false)
      × (db' ≡ record db { assignments = db.assignments ++ (new_course o c ∷ []) })
unfolding offer
offer-inv o c db db' h =
    let (order, found, h1) = >>=-eq-ok (or_raise (db.orders o) does_not_exist) _ h in
    let (courier, known, h2) = >>=-eq-ok (or_raise (db.couriers c) does_not_exist) _ h1 in
    let (cooked, h3) = guard-eq-ok (not (order.status == OrderStatus.ready)) rule_violation _ h2 in
    let (able, h4) = guard-eq-ok (not (can_accept_orders courier)) rule_violation _ h3 in
    let (home, h5) =
      guard-eq-ok (not (courier.restaurant == order.restaurant)) rule_violation _ h4 in
    let (near, h6) =
      guard-eq-ok (not (serves_zone courier order.delivery_zone)) rule_violation _ h5 in
    let (free, h7) = guard-eq-ok (exists (engaged_by c) db.assignments) rule_violation _ h6 in
    let (idle, h8) = guard-eq-ok (exists (active_for o) db.assignments) rule_violation _ h7 in
    let (fits, shape) = write_rows-inv (new_course o c) _ db db' h8 in
    (
      order,
      or_raise-eq-ok _ _ found,
      not-false (order.status == OrderStatus.ready) cooked,
      idle,
      fits,
      shape,
    )
  where
    not-false : (b : Bool) → not b ≡ false → b ≡ true
    not-false b e = ground arith

pub accept-inv :
    (share n c : ℕ) (copy : CourierProfile) (seen : List Assignment) (db db' : Fleet)
    → accept share n c copy seen db ≡ ok db'
    → (a : Assignment) × (order : Order) × (row_at n db.assignments ≡ some a)
      × (db.orders a.order ≡ some order)
      × ((order.status == OrderStatus.cancelled) ≡ false)
      × (validate delivery_machine a.status accepted ≡ ok tt)
      × (breaks_unique
            (taken_course a (courier_fee_for share order))
            (set_row n (taken_course a (courier_fee_for share order)) db.assignments)
          ≡ false)
      × (db' ≡ record db {
        assignments = set_row n (taken_course a (courier_fee_for share order)) db.assignments;
      })
unfolding accept
accept-inv share n c copy seen db db' h =
    let (a, there, h1) = >>=-eq-ok (or_raise (row_at n db.assignments) does_not_exist) _ h in
    let (order, found, h2) = >>=-eq-ok (or_raise (db.orders a.order) does_not_exist) _ h1 in
    let (own, h4) = guard-eq-ok (not (a.courier == c)) rule_violation _ h2 in
    let (alive, h5) = guard-eq-ok (order.status == OrderStatus.cancelled) rule_violation _ h4 in
    let (able, h6) = guard-eq-ok (not (can_accept_orders copy)) rule_violation _ h5 in
    let (free, h7) = guard-eq-ok (exists (engaged_by c) seen) rule_violation _ h6 in
    let (u, legal, h8) = >>=-eq-ok (validate delivery_machine a.status accepted) _ h7 in
    let (fits, shape) = write_rows-inv (taken_course a (courier_fee_for share order)) _ db db' h8 in
    (a, order, or_raise-eq-ok _ _ there, or_raise-eq-ok _ _ found, alive, legal, fits, shape)

pub decline-inv :
    (n : ℕ) (copy : Assignment) (c : ℕ) (reason : String) (db db' : Fleet)
    → decline n copy c reason db ≡ ok db'
    → (a : Assignment) × (validate delivery_machine copy.status declined ≡ ok tt)
      × (row_at n db.assignments ≡ some a)
      × (breaks_unique
            (closed a declined reason)
            (set_row n (closed a declined reason) db.assignments)
          ≡ false)
      × (db' ≡ record db { assignments = set_row n (closed a declined reason) db.assignments })
unfolding decline
decline-inv n copy c reason db db' h =
    let (own, h1) = guard-eq-ok (not (copy.courier == c)) rule_violation _ h in
    let (u, legal, h2) = >>=-eq-ok (validate delivery_machine copy.status declined) _ h1 in
    let (a, there, h3) = >>=-eq-ok (or_raise (row_at n db.assignments) does_not_exist) _ h2 in
    let (fits, shape) = write_rows-inv (closed a declined reason) _ db db' h3 in
    (a, legal, or_raise-eq-ok _ _ there, fits, shape)

-- What a step of the course number `n` has found and written; `saved` has the new row, and in
-- `projected` the order has followed.
abbrev pub Stepped : ℕ → DeliveryStatus → String → Fleet → Fleet → Type 0
Stepped n target reason db db' =
    (a : Assignment) × (order : Order) × (saved : Fleet) × (projected : Fleet) × (row_at n
        db.assignments
      ≡ some a)
    × (db.orders a.order ≡ some order)
    × (validate delivery_machine a.status target ≡ ok tt)
    × ((order.status == OrderStatus.cancelled && not (target == cancelled)) ≡ false)
    × (breaks_unique (advanced a target reason)
          (set_row n (advanced a target reason) db.assignments)
        ≡ false)
    × (saved ≡ record db { assignments = set_row n (advanced a target reason) db.assignments })
    × Followed a.order order (order_status_projection target) saved projected
    × (reward target (advanced a target reason) projected ≡ ok db')

pub transition_to-inv :
    (n : ℕ) (target : DeliveryStatus) (reason : String) (db db' : Fleet)
    → transition_to n target reason db ≡ ok db'
    → (db' ≡ db) ⊎ Stepped n target reason db db'
unfolding transition_to
transition_to-inv n target reason db db' h =
    let (a, there, h1) = >>=-eq-ok (or_raise (row_at n db.assignments) does_not_exist) _ h in
    let (same, asked, h2) = >>=-eq-ok (is_noop delivery_machine a.status target) _ h1 in
    elim (Bool-cases same) [
      | inl held ↦ inl (sym (ok-injective (rw held at h2)))
      | inr moves ↦ inr (step a (or_raise-eq-ok _ _ there) (rw moves at h2))
    ]
  where
    step :
        (a : Assignment)
        → row_at n db.assignments ≡ some a
        → (validate delivery_machine a.status target >>= λ u.
            or_raise (db.orders a.order) does_not_exist >>= λ order.
            raise_if
              (order.status == OrderStatus.cancelled && not (target == cancelled))
              rule_violation
            >>= λ u. require_following order (order_status_projection target) >>= λ u.
                write_rows
                  (advanced a target reason)
                  (set_row n (advanced a target reason) db.assignments)
                  db
                >>= λ saved.
                    project a.order order (order_status_projection target) saved >>= λ projected.
                    reward target (advanced a target reason) projected)
          ≡ ok db'
        → Stepped n target reason db db'
    step a there h3 =
        let (u, legal, h4) = >>=-eq-ok (validate delivery_machine a.status target) _ h3 in
        let (order, found, h5) = >>=-eq-ok (or_raise (db.orders a.order) does_not_exist) _ h4 in
        let (alive, h6) =
          guard-eq-ok (order.status == OrderStatus.cancelled && not (target == cancelled))
            rule_violation _ h5 in
        let (v, follows, h7) =
          >>=-eq-ok (require_following order (order_status_projection target)) _ h6 in
        let (saved, written, h8) =
          >>=-eq-ok
            (write_rows (advanced a target reason)
              (set_row n (advanced a target reason) db.assignments) db)
            _ h7 in
        let (projected, done, h9) =
          >>=-eq-ok (project a.order order (order_status_projection target) saved) _ h8 in
        let (fits, shape) = write_rows-inv (advanced a target reason) _ db saved written in
        let row_found = or_raise-eq-ok _ _ found in
        (
          a,
          order,
          saved,
          projected,
          there,
          row_found,
          legal,
          alive,
          fits,
          shape,
          project-inv a.order order target saved projected (rw shape row_found) done,
          h9,
        )
