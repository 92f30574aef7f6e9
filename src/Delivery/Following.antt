-- ===== src/Delivery/Following.antt =====
-- Histories of the calls of apps/delivery/services.py, and the orders that the courses agree with.
use elcorazon_backend.Base.{
  ℕ, ◌≡◌, refl, sym, ◌⊎◌, inl, inr, String, Bool, true, false, not, ◌&&◌, none, some,
  some-injective, List, nat_eq, ◌==◌, eq_self, eq_of_beq, contains, ok, or_raise, does_not_exist,
  >>=-eq-ok, or_raise-eq-ok, ok-injective, arith,
}
use elcorazon_backend.Base.Rows.{set_row, All-row_at, All-set_row, All-insert}
use elcorazon_backend.StateMachine.{can}
use elcorazon_backend.Orders.States.{OrderStatus, order_machine, status_eq as order_status_eq}
use elcorazon_backend.Delivery.States.{
  DeliveryStatus, offered, accepted, picked_up, on_the_way, delivered, declined, cancelled,
  status_eq, order_status_projection,
}
use elcorazon_backend.Delivery.Rows.{Assignment, Order, Fleet}
use elcorazon_backend.Delivery.Courses.{
  courier_fee_for, new_course, taken_course, closed, close_rows, close_for_cancelled_order,
  with_order, move_order,
}
use elcorazon_backend.Delivery.Effects.{Followed, move_order-inv, projection-not_cancelled}
use elcorazon_backend.Delivery.Calls.{
  offer-inv, accept-inv, decline-inv, Stepped, transition_to-inv,
}
use elcorazon_backend.Delivery.Frames.{advanced-same, reward-frame}
use elcorazon_backend.Delivery.Histories.{
  Call, offers, accepts, declines, steps, moves, perform, run, run-keeps,
}
use elcorazon_backend.Delivery.Agreement.{agrees, Agrees, Agreed, moved-Agreed, cancelled-Agreed}

close-Agreed :
    (o : ℕ) (reason : String) (order : Order) (db db' : Fleet)
    → db.orders o ≡ some order
    → can order_machine order.status OrderStatus.cancelled ≡ ok true
    → Agreed db
    → close_for_cancelled_order o reason (with_order db o order OrderStatus.cancelled) ≡ ok db'
    → Agreed db'
unfolding close_for_cancelled_order
close-Agreed o reason order db db' found legal agreed h =
    let (rows, done, h1) = >>=-eq-ok (close_rows o reason db.assignments) _ h in
    rw (sym (ok-injective h1))
      (cancelled-Agreed o reason order db db.assignments rows found legal done agreed)

move_order-Agreed :
    (o : ℕ) (target : OrderStatus) (db db' : Fleet)
    → Agreed db
    → move_order o target db ≡ ok db'
    → Agreed db'
unfolding move_order
move_order-Agreed o target db db' agreed h =
    let (order, asked, h1) = >>=-eq-ok (or_raise (db.orders o) does_not_exist) _ h in
    let found = or_raise-eq-ok _ _ asked in
    elim (move_order-inv o target order db db' found h) [
      | inl (here, shape) ↦ rw shape agreed
      | inr (inl (legal, other, shape)) ↦
          rw shape (moved-Agreed o order target db found legal other agreed)
      | inr (inr (legal, called, done)) ↦
          close-Agreed o "La commande a été annulée." order db db' found (rw called at legal) agreed
            (rw called at done)
    ]

refute : (b : Bool) → (b && true) ≡ false → not b ≡ true
refute b h = ground arith

-- What a course is moved to agrees with an order that has followed.
agrees-followed :
    (d : DeliveryStatus) (s : OrderStatus)
    → (s == OrderStatus.cancelled && not (d == cancelled)) ≡ false
    → (order_status_projection d ≡ none) ⊎ (order_status_projection d ≡ some s)
    → agrees d s ≡ true
unfolding agrees order_status_projection contains
agrees-followed offered s alive why = refute (s == OrderStatus.cancelled) alive
agrees-followed accepted s alive why = refute (s == OrderStatus.cancelled) alive
agrees-followed picked_up s alive (inr why) =
    rw (sym (some-injective OrderStatus.picked_up s why)) refl
agrees-followed on_the_way s alive (inr why) =
    rw (sym (some-injective OrderStatus.on_the_way s why)) refl
agrees-followed delivered s alive (inr why) =
    rw (sym (some-injective OrderStatus.delivered s why)) refl
agrees-followed declined s alive why = refl
agrees-followed cancelled s alive why = refl
agrees-followed _ s alive (inl why) = absurd (ground arith)

agrees-projected :
    (d : DeliveryStatus) (s : OrderStatus) → order_status_projection d ≡ some s → agrees d s ≡ true
unfolding agrees order_status_projection contains
agrees-projected picked_up s why = rw (sym (some-injective OrderStatus.picked_up s why)) refl
agrees-projected on_the_way s why = rw (sym (some-injective OrderStatus.on_the_way s why)) refl
agrees-projected delivered s why = rw (sym (some-injective OrderStatus.delivered s why)) refl
agrees-projected _ s why = absurd (ground arith)

-- A new row in the place of `n`, and the order of the row after it has followed.
Followed-Agreed :
    (n : ℕ) (target : DeliveryStatus) (a b : Assignment) (order : Order)
    (db saved projected : Fleet)
    → db.orders a.order ≡ some order
    → (order.status == OrderStatus.cancelled && not (target == cancelled)) ≡ false
    → b.status ≡ target
    → b.order ≡ a.order
    → saved ≡ record db { assignments = set_row n b db.assignments }
    → Followed a.order order (order_status_projection target) saved projected
    → Agreed db
    → Agreed projected
Followed-Agreed n target a b order db saved projected found alive st o shape (inl (same, why))
      agreed =
    rw (same, shape)
      (All-set_row (Agrees db.orders) n b db.assignments
        (order, rw o found, rw st (agrees-followed target order.status alive why)) agreed)
Followed-Agreed n target a b order db saved projected found alive st o shape
      (inr (s, asked, legal, moved)) agreed =
    let after = with_order db a.order order s in
    rw (moved, shape)
      (All-set_row (Agrees after.orders) n b db.assignments
        (
          record order { status = s },
          rw (o, eq_self a.order) refl,
          rw st (agrees-projected target s asked),
        )
        (moved-Agreed a.order order s db found legal (projection-not_cancelled target s asked)
          agreed))

step-Agreed :
    (n : ℕ) (target : DeliveryStatus) (reason : String) (db db' : Fleet)
    → Agreed db
    → Stepped n target reason db db'
    → Agreed db'
step-Agreed n target reason db db' agreed
      (a, order, saved, projected, there, found, legal, alive, fits, shape, follows, rewarded) =
    let (rows, orders) = reward-frame target _ projected db' rewarded in
    let (st, k, o, fee) = advanced-same a target reason in
    rw (rows, orders)
      (Followed-Agreed n target a _ order db saved projected found alive st o shape follows agreed)

module _ (share : ℕ) where
  perform-Agreed :
      (call : Call) (db db' : Fleet) → Agreed db → perform share call db ≡ ok db' → Agreed db'
  unfolding perform agrees
  perform-Agreed (offers o k) db db' agreed h =
      let (order, found, cooked, idle, fits, shape) = offer-inv o k db db' h in
      let cooked' = eq_of_beq order.status OrderStatus.ready cooked in
      rw shape (
        All-insert (Agrees db.orders) (new_course o k) db.assignments
          (order, found, rw cooked' refl) agreed)
  perform-Agreed (accepts n k copy seen) db db' agreed h =
      let (a, order, there, found, alive, legal, fits, shape) =
        accept-inv share n k copy seen db db' h in
      rw shape (
        All-set_row (Agrees db.orders) n (taken_course a (courier_fee_for share order))
          db.assignments (order, found, rw alive refl) agreed)
  perform-Agreed (declines n copy k reason) db db' agreed h =
      let (a, legal, there, fits, shape) = decline-inv n copy k reason db db' h in
      let (order, found, agreeing) =
        All-row_at (Agrees db.orders) n a db.assignments agreed there in
      rw shape (
        All-set_row (Agrees db.orders) n (closed a declined reason) db.assignments
          (order, found, refl) agreed)
  perform-Agreed (steps n target reason) db db' agreed h =
      elim (transition_to-inv n target reason db db' h) [
        | inl still ↦ rw still agreed
        | inr stepped ↦ step-Agreed n target reason db db' agreed stepped
      ]
  perform-Agreed (moves o target) db db' agreed h = move_order-Agreed o target db db' agreed h

  -- In whatever order offers, acceptances, refusals, steps of courses and changes of orders come,
  -- failing or not: if at the start every course agrees with its order, it is so at the end. A
  -- course that waits or is accepted agrees with an order that is not cancelled, a course that is
  -- under way with an order that is as far or farther, a delivered one with a delivered order.
  pub courses_agree : (calls : List Call) (db : Fleet) → Agreed db → Agreed (run share calls db)
  courses_agree = run-keeps share Agreed perform-Agreed
