-- ===== src/Delivery/Reconciliation.antt =====
-- Histories of the calls of `AssignmentService` of apps/delivery/services.py, and what they credit.
use elcorazon_backend.Base.{
  ℕ, ◌≡◌, refl, sym, ◌∙◌, inl, inr, String, false, List, [], ◌∷◌, ◌++◌, nat_eq, ◌==◌, ok, or_raise,
  does_not_exist, >>=-eq-ok, or_raise-eq-ok, ok-injective, Bool-cases, arith,
}
use elcorazon_backend.Base.Int.{int_laws}
use elcorazon_backend.Base.Rows.{count, sum_of, count-insert, sum_of-insert}
use elcorazon_backend.StateMachine.{validate}
use elcorazon_backend.Orders.States.{OrderStatus}
use elcorazon_backend.Delivery.States.{
  accepted, delivered, declined, cancelled, status_eq, delivery_machine,
}
use elcorazon_backend.Delivery.Rows.{Assignment, Fleet}
use elcorazon_backend.Delivery.Courses.{
  courier_fee_for, new_course, taken_course, closed, is_open_for, close_rows,
  close_for_cancelled_order, with_order, move_order,
}
use elcorazon_backend.Delivery.Effects.{move_order-inv}
use elcorazon_backend.Delivery.Calls.{offer-inv, accept-inv, decline-inv, transition_to-inv}
use elcorazon_backend.Delivery.Histories.{
  Call, offers, accepts, declines, steps, moves, perform, run, Along, Current, run-keeps_along,
}
use elcorazon_backend.Delivery.Credit.{
  delivered_by, fee_of, Credited, Credited-trans, moving, not_delivered, replaced_other,
}
use elcorazon_backend.Delivery.Accounts.{step-Credited}

kept-Credited :
    (c : ℕ) (db db' : Fleet)
    → db'.couriers ≡ db.couriers
    → count (delivered_by c) db'.assignments ≡ count (delivered_by c) db.assignments
    → sum_of (fee_of c) db'.assignments ≡ sum_of (fee_of c) db.assignments
    → Credited c db db'
kept-Credited c db db' same counted summed = rw (same, counted, summed) (refl, refl)

-- Closing the open courses of an order delivers none.
close_rows-kept :
    (c o : ℕ) (reason : String) (rows rows' : List Assignment)
    → close_rows o reason rows ≡ ok rows'
    → (count (delivered_by c) rows' ≡ count (delivered_by c) rows)
      × (sum_of (fee_of c) rows' ≡ sum_of (fee_of c) rows)
unfolding close_rows
close_rows-kept c o reason [] rows' h = rw (sym (ok-injective h)) (refl, refl)
close_rows-kept c o reason (a ∷ rest) rows' h = elim (Bool-cases (is_open_for o a)) [
  | inl ends ↦
      let (u, legal, h1) =
        >>=-eq-ok (validate delivery_machine a.status cancelled) _ (rw ends at h) in
      let (tail, done, h2) = >>=-eq-ok (close_rows o reason rest) _ h1 in
      let (counted, summed) = close_rows-kept c o reason rest tail done in
      let (none_before, free_before) = not_delivered c a (moving a.status cancelled legal) in
      let (none_after, free_after) = not_delivered c (closed a cancelled reason) refl in
      rw (sym (ok-injective h2), counted, summed, none_before, free_before, none_after, free_after)
        (refl, refl)
  | inr stays ↦
      let (tail, done, h1) = >>=-eq-ok (close_rows o reason rest) _ (rw stays at h) in
      let (counted, summed) = close_rows-kept c o reason rest tail done in
      rw (sym (ok-injective h1), counted, summed) (refl, refl)
]

close-Credited :
    (c o : ℕ) (reason : String) (db db' : Fleet)
    → close_for_cancelled_order o reason db ≡ ok db'
    → Credited c db db'
unfolding close_for_cancelled_order
close-Credited c o reason db db' h =
    let (rows, shut, h1) = >>=-eq-ok (close_rows o reason db.assignments) _ h in
    let (counted, summed) = close_rows-kept c o reason db.assignments rows shut in
    let same = sym (ok-injective h1) in
    rw same (kept-Credited c db (record db { assignments = rows }) refl counted summed)

move_order-Credited :
    (c o : ℕ) (target : OrderStatus) (db db' : Fleet)
    → move_order o target db ≡ ok db'
    → Credited c db db'
unfolding move_order
move_order-Credited c o target db db' h =
    let (order, found, h1) = >>=-eq-ok (or_raise (db.orders o) does_not_exist) _ h in
    elim (move_order-inv o target order db db' (or_raise-eq-ok _ _ found) h) [
      | inl (here, shape) ↦ rw shape (refl, refl)
      | inr (inl (legal, other, shape)) ↦ rw shape (refl, refl)
      | inr (inr (legal, called, done)) ↦
          close-Credited c o _ (with_order db o order target) db' done
    ]

module _ (share c : ℕ) where
  perform-Credited :
      (call : Call) (db db' : Fleet)
      → Current call db
      → perform share call db ≡ ok db'
      → Credited c db db'
  unfolding perform
  perform-Credited (offers o k) db db' met h =
      let (order, found, cooked, idle, fits, shape) = offer-inv o k db db' h in
      let (uncounted, unpaid) = not_delivered c (new_course o k) refl in
      rw shape (
        kept-Credited c db (record db { assignments = db.assignments ++ (new_course o k ∷ []) })
          refl
          (count-insert (delivered_by c) (new_course o k) db.assignments
            ∙ rw uncounted (omega arith))
          (sum_of-insert (fee_of c) (new_course o k) db.assignments ∙ rw unpaid (grind int_laws)))
  perform-Credited (accepts n k copy seen) db db' met h =
      let (a, order, there, found, alive, legal, fits, shape) =
        accept-inv share n k copy seen db db' h in
      replaced_other c n a (taken_course a (courier_fee_for share order)) db db' there
        (moving a.status accepted legal) refl (rw shape refl) (rw shape refl) (rw shape refl)
  perform-Credited (declines n copy k reason) db db' met h =
      let (a, legal, there, fits, shape) = decline-inv n copy k reason db db' h in
      let moved : (a.status == delivered) ≡ false =
        rw (met a there) (moving copy.status declined legal) in
      replaced_other c n a (closed a declined reason) db db' there moved refl (rw shape refl)
        (rw shape refl) (rw shape refl)
  perform-Credited (steps n target reason) db db' met h =
      elim (transition_to-inv n target reason db db' h) [
        | inl still ↦ rw still (refl, refl)
        | inr stepped ↦ step-Credited c n target reason db db' stepped
      ]
  perform-Credited (moves o target) db db' met h = move_order-Credited c o target db db' h

  -- In whatever order offers, acceptances, refusals, steps of courses and changes of orders come,
  -- failing or not, and whatever copies the acceptances are made with: as long as every refusal is
  -- made with a copy of the course at the status that it has then, the number of deliveries of a
  -- courier grows by the number of the courses that the courier has delivered in between, and the
  -- earnings of the courier by their fees.
  pub deliveries_reconcile :
      (calls : List Call) (db : Fleet)
      → Along share Current calls db
      → Credited c db (run share calls db)
  deliveries_reconcile calls db met =
      run-keeps_along share (λ d. Credited c db d) Current
        (λ call d d' current known h.
          Credited-trans c db d d' known (perform-Credited call d d' current h))
        calls db met (refl, refl)
