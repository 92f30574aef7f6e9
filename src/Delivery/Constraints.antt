-- ===== src/Delivery/Constraints.antt =====
-- Histories of calls, and guards, against the unique constraints of apps/delivery/models.py.
use elcorazon_backend.Base.{
  ℕ, ◌≡◌, refl, sym, ap, ◌∙◌, inl, inr, String, false, List, nat_eq, contains, ok, or_raise,
  does_not_exist, >>=-eq-ok, or_raise-eq-ok, ok-injective, arith,
}
use elcorazon_backend.Orders.States.{OrderStatus, status_eq as order_status_eq}
use elcorazon_backend.Delivery.States.{DeliveryStatus, cancelled, status_eq}
use elcorazon_backend.Delivery.Rows.{Assignment, Fleet, engaged_by, active_for}
use elcorazon_backend.Delivery.Courses.{
  new_course, closed, close_rows, close_for_cancelled_order, with_order, move_order, advanced,
}
use elcorazon_backend.Delivery.Effects.{move_order-inv}
use elcorazon_backend.Delivery.Calls.{
  offer-inv, accept-inv, decline-inv, Stepped, transition_to-inv,
}
use elcorazon_backend.Delivery.Frames.{advanced-same, reward-frame, Followed-frame}
use elcorazon_backend.Delivery.Histories.{
  Call, offers, accepts, declines, steps, moves, perform, run, run-keeps,
}
use elcorazon_backend.Delivery.Uniqueness.{Unique, Unique-set_row, Unique-insert, close_rows-count}

closed-not_engaged :
    (c : ℕ) (a : Assignment) (reason : String) → engaged_by c (closed a cancelled reason) ≡ false
unfolding engaged_by contains
closed-not_engaged c a reason = ground arith

closed-not_active :
    (o : ℕ) (a : Assignment) (reason : String) → active_for o (closed a cancelled reason) ≡ false
unfolding active_for contains
closed-not_active o a reason = ground arith

close-Unique :
    (o : ℕ) (reason : String) (db db' : Fleet)
    → Unique db.assignments
    → close_for_cancelled_order o reason db ≡ ok db'
    → Unique db'.assignments
unfolding close_for_cancelled_order
close-Unique o reason db db' (engaged, active) h =
    let (rows, done, h1) = >>=-eq-ok (close_rows o reason db.assignments) _ h in
    let shape : db'.assignments ≡ rows =
      ap (λ (d : Fleet). d.assignments) (sym (ok-injective h1)) in
    rw shape (
      λ c. omega (
        arith,
        close_rows-count (engaged_by c) o reason db.assignments rows
            (λ a. closed-not_engaged c a reason) done,
        engaged c,
      ),
      λ k. omega (
        arith,
        close_rows-count (active_for k) o reason db.assignments rows
            (λ a. closed-not_active k a reason) done,
        active k,
      ),
    )

move_order-Unique :
    (o : ℕ) (target : OrderStatus) (db db' : Fleet)
    → Unique db.assignments
    → move_order o target db ≡ ok db'
    → Unique db'.assignments
unfolding move_order
move_order-Unique o target db db' unique h =
    let (order, found, h1) = >>=-eq-ok (or_raise (db.orders o) does_not_exist) _ h in
    elim (move_order-inv o target order db db' (or_raise-eq-ok _ _ found) h) [
      | inl (here, shape) ↦ rw shape unique
      | inr (inl (legal, other, shape)) ↦ rw shape unique
      | inr (inr (legal, called, done)) ↦
          close-Unique o _ (with_order db o order target) db' unique done
    ]

step-Unique :
    (n : ℕ) (target : DeliveryStatus) (reason : String) (db db' : Fleet)
    → Unique db.assignments
    → Stepped n target reason db db'
    → Unique db'.assignments
step-Unique n target reason db db' unique
      (a, order, saved, projected, there, found, legal, alive, fits, shape, follows, rewarded) =
    let (st, k, o, fee) = advanced-same a target reason in
    let rows =
      (reward-frame target _ projected db' rewarded).0
      ∙ (Followed-frame a.order order _ saved projected follows).0
      ∙ ap (λ (d : Fleet). d.assignments) shape in
    rw rows (Unique-set_row n a (advanced a target reason) db.assignments there k o fits unique)

module _ (share : ℕ) where
  perform-Unique :
      (call : Call) (db db' : Fleet)
      → Unique db.assignments
      → perform share call db ≡ ok db'
      → Unique db'.assignments
  unfolding perform
  perform-Unique (offers o c) db db' unique h =
      let (order, found, cooked, idle, fits, shape) = offer-inv o c db db' h in
      rw shape (Unique-insert (new_course o c) db.assignments fits unique)
  perform-Unique (accepts n c copy seen) db db' unique h =
      let (a, order, there, found, alive, legal, fits, shape) =
        accept-inv share n c copy seen db db' h in
      rw shape (Unique-set_row n a _ db.assignments there refl refl fits unique)
  perform-Unique (declines n copy c reason) db db' unique h =
      let (a, legal, there, fits, shape) = decline-inv n copy c reason db db' h in
      rw shape (Unique-set_row n a _ db.assignments there refl refl fits unique)
  perform-Unique (steps n target reason) db db' unique h =
      elim (transition_to-inv n target reason db db' h) [
        | inl still ↦ rw still unique
        | inr stepped ↦ step-Unique n target reason db db' unique stepped
      ]
  perform-Unique (moves o target) db db' unique h = move_order-Unique o target db db' unique h

  -- In whatever order offers, acceptances, refusals, steps of courses and changes of orders come,
  -- failing or not: if no courier has two engaged courses and no order two active ones at the
  -- start, it is so at the end.
  pub one_course :
      (calls : List Call) (db : Fleet)
      → Unique db.assignments
      → Unique (run share calls db).assignments
  one_course = run-keeps share (λ db. Unique db.assignments) perform-Unique
