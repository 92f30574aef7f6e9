-- ===== src/Delivery/Effects.antt =====
-- What a successful call on a course has found and written, from `AssignmentService` of
-- apps/delivery/services.py.
use elcorazon_backend.Base.{
  ℕ, ◌≡◌, refl, sym, ap, ◌∙◌, ◌⊎◌, inl, inr, Bool, true, false, Option, none, some, some-injective,
  List, Eq, nat_eq, ◌==◌, eq_of_beq, if◌then◌else◌, ok, ◌>>=◌, integrity_error, >>=-eq-ok,
  guard-eq-ok, ok-injective, Bool-cases, arith,
}
use elcorazon_backend.StateMachine.{Table, targets_from, can, is_noop, validate}
use elcorazon_backend.Orders.States.{OrderStatus, order_machine, status_eq as order_status_eq}
use elcorazon_backend.Delivery.States.{
  DeliveryStatus, picked_up, on_the_way, delivered, status_eq, order_status_projection,
}
use elcorazon_backend.Delivery.Rows.{Assignment, Order, Fleet}
use elcorazon_backend.Delivery.Courses.{
  breaks_unique, write_rows, close_for_cancelled_order, with_order, move_order, project,
}

pub write_rows-inv :
    (a : Assignment) (rows : List Assignment) (db db' : Fleet)
    → write_rows a rows db ≡ ok db'
    → (breaks_unique a rows ≡ false) × (db' ≡ record db { assignments = rows })
unfolding write_rows
write_rows-inv a rows db db' h =
    let (fits, h1) = guard-eq-ok (breaks_unique a rows) integrity_error _ h in
    (fits, sym (ok-injective h1))

-- A replay is found at the status that is asked.
module _ {ℓ} {S : Type ℓ} ⦃e : Eq S⦄ where
  pub is_noop-same :
      (m : Table S) (s t : S) {same : Bool} → same ≡ true → is_noop m s t ≡ ok same → s ≡ t
  unfolding is_noop
  is_noop-same m s t held asked =
      let (ts, row, known) = >>=-eq-ok (targets_from m s) _ asked in
      eq_of_beq s t (ok-injective known ∙ held)

-- A successful validation is a declared transition.
pub validate-can :
    (m : Table OrderStatus) (s t : OrderStatus) → validate m s t ≡ ok tt → can m s t ≡ ok true
unfolding validate
validate-can m s t h =
    let (allowed, asked, h1) = >>=-eq-ok (can m s t) _ h in
    elim (Bool-cases allowed) [ inl held ↦ rw (← held) asked | inr failed ↦ absurd (ground arith) ]

-- What an order does while a course moves: nothing, because nothing is projected on it or because
-- it is there, or the step that is projected.
abbrev pub Followed : ℕ → Order → Option OrderStatus → Fleet → Fleet → Type 0
Followed o order p db db' =
    (db' ≡ db) × ((p ≡ none) ⊎ (p ≡ some order.status))
    ⊎ (s : OrderStatus) × (p ≡ some s)
      × (can order_machine order.status s ≡ ok true)
      × (db' ≡ with_order db o order s)

pub move_order-inv :
    (o : ℕ) (target : OrderStatus) (order : Order) (db db' : Fleet)
    → db.orders o ≡ some order
    → move_order o target db ≡ ok db'
    → (order.status ≡ target) × (db' ≡ db)
      ⊎ (can order_machine order.status target ≡ ok true)
        × ((target == OrderStatus.cancelled) ≡ false)
        × (db' ≡ with_order db o order target)
      ⊎ (can order_machine order.status target ≡ ok true)
        × (target ≡ OrderStatus.cancelled)
        × (close_for_cancelled_order o "La commande a été annulée." (with_order db o order target)
            ≡ ok db')
unfolding move_order
move_order-inv o target order db db' found h =
    let h0 = rw found at h in
    let (same, asked, h1) = >>=-eq-ok (is_noop order_machine order.status target) _ h0 in
    elim (Bool-cases same) [
      | inl held ↦ inl (
        is_noop-same order_machine order.status target held asked,
        sym (ok-injective (rw held at h1)),
      )
      | inr failed ↦ inr (step (rw failed at h1))
    ]
  where
    step :
        (validate order_machine order.status target >>= λ _.
        if target == OrderStatus.cancelled
        then (db.attendants o target >>= λ _.
            close_for_cancelled_order o "La commande a été annulée." (with_order db o order target))
        else (db.attendants o target >>= λ _. ok (with_order db o order target)))
          ≡ ok db'
        → (can order_machine order.status target ≡ ok true)
            × ((target == OrderStatus.cancelled) ≡ false)
            × (db' ≡ with_order db o order target)
          ⊎ (can order_machine order.status target ≡ ok true)
            × (target ≡ OrderStatus.cancelled)
            × (close_for_cancelled_order o "La commande a été annulée."
                  (with_order db o order target)
                ≡ ok db')
    step h2 =
        let (u, legal, h3) = >>=-eq-ok (validate order_machine order.status target) _ h2 in
        elim (Bool-cases (target == OrderStatus.cancelled)) [
          | inl held ↦ inr (
            validate-can order_machine order.status target legal,
            eq_of_beq target OrderStatus.cancelled held,
            (>>=-eq-ok (db.attendants o target) _ (rw held at h3)).2,
          )
          | inr failed ↦ inl (
            validate-can order_machine order.status target legal,
            failed,
            sym (ok-injective (>>=-eq-ok (db.attendants o target) _ (rw failed at h3)).2),
          )
        ]

-- No course projects a cancellation.
pub projection-not_cancelled :
    (target : DeliveryStatus) (s : OrderStatus)
    → order_status_projection target ≡ some s
    → (s == OrderStatus.cancelled) ≡ false
unfolding order_status_projection
projection-not_cancelled picked_up s h = rw (← (some-injective OrderStatus.picked_up s h)) refl
projection-not_cancelled on_the_way s h = rw (← (some-injective OrderStatus.on_the_way s h)) refl
projection-not_cancelled delivered s h = rw (← (some-injective OrderStatus.delivered s h)) refl
projection-not_cancelled _ s h = absurd (ground arith)

clash : (s : OrderStatus) → s ≡ OrderStatus.cancelled → (s == OrderStatus.cancelled) ≡ false → ⊥
clash s h1 h2 = true-false (rw h1 at h2)
  where
    true-false : true ≡ false → ⊥
    true-false e = cc

pub project-inv :
    (o : ℕ) (order : Order) (target : DeliveryStatus) (db db' : Fleet)
    → db.orders o ≡ some order
    → project o order (order_status_projection target) db ≡ ok db'
    → Followed o order (order_status_projection target) db db'
unfolding project
project-inv o order target db db' found h = at (order_status_projection target) refl h
  where
    at :
        (p : Option OrderStatus)
        → order_status_projection target ≡ p
        → project o order p db ≡ ok db'
        → Followed o order p db db'
    at none e h1 = inl (sym (ok-injective h1), inl refl)
    at (some s) e h1 = elim (Bool-cases (order.status == s)) [
      | inl there ↦ inl (
        sym (ok-injective (rw there at h1)),
        inr (ap some (sym (eq_of_beq order.status s there))),
      )
      | inr apart ↦ elim (move_order-inv o s order db db' found (rw apart at h1)) [
        | inl (here, shape) ↦ inl (shape, inr (ap some (sym here)))
        | inr (inl (legal, other, shape)) ↦ inr (s, refl, legal, shape)
        | inr (inr (legal, called, rest)) ↦
            absurd (clash s called (projection-not_cancelled target s e))
      ]
    ]
