-- ===== src/Delivery/Agreement.antt =====
-- The status of a course and the status of its order: `_project` and its guard, and the closing of
-- the courses of a cancelled order, of apps/delivery/services.py.
use elcorazon_backend.Base.{
  ℕ, ◌≡◌, refl, sym, ap, ◌∙◌, inl, inr, String, Bool, true, false, not, Option, some,
  some-injective, List, [], ◌∷◌, nat_eq, ◌==◌, eq_of_beq, contains, All, ok, >>=-eq-ok,
  ok-injective, Bool-cases,
}
use elcorazon_backend.Base.Rows.{All-imply}
use elcorazon_backend.StateMachine.{targets_from, can, validate}
use elcorazon_backend.Orders.States.{OrderStatus, order_machine, status_eq as order_status_eq}
use elcorazon_backend.Delivery.States.{
  DeliveryStatus, offered, accepted, picked_up, on_the_way, delivered, cancelled, status_eq,
  delivery_machine,
}
use elcorazon_backend.Delivery.Rows.{Assignment, Order, Fleet}
use elcorazon_backend.Delivery.Courses.{closed, is_open_for, close_rows, with_order}

-- A course that is offered or accepted has an order that is not cancelled, a course that is under
-- way has an order that is as far or farther, and a delivered course a delivered order.
unfoldable pub agrees : DeliveryStatus → OrderStatus → Bool
agrees offered s = not (s == OrderStatus.cancelled)
agrees accepted s = not (s == OrderStatus.cancelled)
agrees picked_up s =
    contains s (OrderStatus.picked_up ∷ OrderStatus.on_the_way ∷ OrderStatus.delivered ∷ [])
agrees on_the_way s = contains s (OrderStatus.on_the_way ∷ OrderStatus.delivered ∷ [])
agrees delivered s = s == OrderStatus.delivered
agrees _ s = true

after_picked_up :
    (t : OrderStatus)
    → can order_machine OrderStatus.picked_up t ≡ ok true
    → t ≡ OrderStatus.on_the_way
unfolding can targets_from contains
after_picked_up OrderStatus.on_the_way h = refl
after_picked_up _ h = cc

after_on_the_way :
    (t : OrderStatus)
    → can order_machine OrderStatus.on_the_way t ≡ ok true
    → t ≡ OrderStatus.delivered
unfolding can targets_from contains
after_on_the_way OrderStatus.delivered h = refl
after_on_the_way _ h = cc

after_delivered : (t : OrderStatus) → can order_machine OrderStatus.delivered t ≡ ok true → ⊥
unfolding can targets_from contains
after_delivered t h = cc

-- An order that moves, but is not cancelled, agrees with the courses that it agreed with.
pub agrees-can :
    (d : DeliveryStatus) (s t : OrderStatus)
    → can order_machine s t ≡ ok true
    → (t == OrderStatus.cancelled) ≡ false
    → agrees d s ≡ true
    → agrees d t ≡ true
unfolding agrees contains
agrees-can offered s t legal alive h = rw alive refl
agrees-can accepted s t legal alive h = rw alive refl
agrees-can picked_up OrderStatus.picked_up t legal alive h = rw (after_picked_up t legal) refl
agrees-can picked_up OrderStatus.on_the_way t legal alive h = rw (after_on_the_way t legal) refl
agrees-can picked_up OrderStatus.delivered t legal alive h = absurd (after_delivered t legal)
agrees-can picked_up _ t legal alive h = cc
agrees-can on_the_way OrderStatus.on_the_way t legal alive h = rw (after_on_the_way t legal) refl
agrees-can on_the_way OrderStatus.delivered t legal alive h = absurd (after_delivered t legal)
agrees-can on_the_way _ t legal alive h = cc
agrees-can delivered OrderStatus.delivered t legal alive h = absurd (after_delivered t legal)
agrees-can delivered _ t legal alive h = cc
agrees-can _ s t legal alive h = refl

-- An order that can be cancelled agrees with no course that its cancellation does not close.
pub agrees-cancelled :
    (d : DeliveryStatus) (s : OrderStatus)
    → can order_machine s OrderStatus.cancelled ≡ ok true
    → contains d (offered ∷ accepted ∷ []) ≡ false
    → agrees d s ≡ true
    → agrees d OrderStatus.cancelled ≡ true
unfolding agrees contains can targets_from
agrees-cancelled picked_up OrderStatus.picked_up legal shut h = cc
agrees-cancelled picked_up OrderStatus.on_the_way legal shut h = cc
agrees-cancelled picked_up OrderStatus.delivered legal shut h = cc
agrees-cancelled picked_up _ legal shut h = cc
agrees-cancelled on_the_way OrderStatus.on_the_way legal shut h = cc
agrees-cancelled on_the_way OrderStatus.delivered legal shut h = cc
agrees-cancelled on_the_way _ legal shut h = cc
agrees-cancelled delivered OrderStatus.delivered legal shut h = cc
agrees-cancelled delivered _ legal shut h = cc
agrees-cancelled offered s legal shut h = cc
agrees-cancelled accepted s legal shut h = cc
agrees-cancelled _ s legal shut h = refl

-- The order of a row is there, and agrees with it.
abbrev pub Agrees : (ℕ → Option Order) → Assignment → Type 0
Agrees orders a =
    (order : Order) × (orders a.order ≡ some order) × (agrees a.status order.status ≡ true)

abbrev pub Agreed : Fleet → Type 0
Agreed db = All (Agrees db.orders) db.assignments

-- The rows of the order `o` after it has moved from `order.status` to `t`.
moved-Agrees :
    (o : ℕ) (order : Order) (t : OrderStatus) (db : Fleet) (a : Assignment)
    → db.orders o ≡ some order
    → ((a.order == o) ≡ true → agrees a.status order.status ≡ true → agrees a.status t ≡ true)
    → Agrees db.orders a
    → Agrees (with_order db o order t).orders a
moved-Agrees o order t db a found step (mine, held, agreed) = elim (Bool-cases (a.order == o)) [
  | inl same ↦
      let same_order : mine ≡ order =
        some-injective mine order (sym held ∙ ap db.orders (eq_of_beq a.order o same) ∙ found) in
      (record order { status = t }, rw same refl, step same (rw (← same_order) agreed))
  | inr other ↦ (mine, rw other held, agreed)
]

pub moved-Agreed :
    (o : ℕ) (order : Order) (t : OrderStatus) (db : Fleet)
    → db.orders o ≡ some order
    → can order_machine order.status t ≡ ok true
    → (t == OrderStatus.cancelled) ≡ false
    → Agreed db
    → Agreed (with_order db o order t)
moved-Agreed o order t db found legal alive agreed =
    All-imply (Agrees db.orders) (Agrees (with_order db o order t).orders)
      (λ a.
        moved-Agrees o order t db a found (λ same. agrees-can a.status order.status t legal alive))
      db.assignments agreed

-- A cancelled order closes its open courses, and the other rows agree with it as they stand.
pub cancelled-Agreed :
    (o : ℕ) (reason : String) (order : Order) (db : Fleet) (rows rows' : List Assignment)
    → db.orders o ≡ some order
    → can order_machine order.status OrderStatus.cancelled ≡ ok true
    → close_rows o reason rows ≡ ok rows'
    → All (Agrees db.orders) rows
    → All (Agrees (with_order db o order OrderStatus.cancelled).orders) rows'
unfolding close_rows is_open_for agrees
cancelled-Agreed o reason order db [] rows' found legal h agreed = rw (sym (ok-injective h)) tt
cancelled-Agreed o reason order db (a ∷ rest) rows' found legal h (first, agreed) =
    elim (Bool-cases (is_open_for o a)) [
      | inl ends ↦
          let (u, ended, h1) =
            >>=-eq-ok (validate delivery_machine a.status cancelled) _ (rw ends at h) in
          let (tail, done, h2) = >>=-eq-ok (close_rows o reason rest) _ h1 in
          rw (sym (ok-injective h2)) (
            moved-Agrees o order OrderStatus.cancelled db (closed a cancelled reason) found
                (λ same agreeing. refl) (first.0, first.1, refl),
            cancelled-Agreed o reason order db rest tail found legal done agreed,
          )
      | inr stays ↦
          let (tail, done, h1) = >>=-eq-ok (close_rows o reason rest) _ (rw stays at h) in
          rw (sym (ok-injective h1)) (
            moved-Agrees o order OrderStatus.cancelled db a found
                (λ same. agrees-cancelled a.status order.status legal (rw same at stays)) first,
            cancelled-Agreed o reason order db rest tail found legal done agreed,
          )
    ]
