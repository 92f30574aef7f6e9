-- ===== src/Delivery/Guards.antt =====
-- The guards of `offer` and `accept` of apps/delivery/services.py, against the unique constraints of
-- apps/delivery/models.py.
use elcorazon_backend.Base.{
  ℕ, ◌≤◌, ◌≡◌, refl, ap, ◌≢◌, inl, inr, Bool, true, false, not, List, [], ◌∷◌, ◌++◌, nat_eq, ◌==◌,
  eq_of_beq, contains, Result, ok, err, raise_if, integrity_error, rule_violation, does_not_exist,
  illegal_transition, unknown_state, guard-eq-err, or_raise-eq-err, >>=-eq-err, Bool-cases,
  Option-cases, arith,
}
use elcorazon_backend.Base.Rows.{
  row_at, set_row, bit, count, exists, count-set_row, count-insert, count-exists,
}
use elcorazon_backend.StateMachine.{row, targets_from, can, validate}
use elcorazon_backend.Money.{Money}
use elcorazon_backend.Orders.States.{OrderStatus, status_eq as order_status_eq}
use elcorazon_backend.Delivery.States.{
  DeliveryStatus, offered, accepted, status_eq, delivery_machine,
}
use elcorazon_backend.Delivery.Rows.{
  CourierProfile, Assignment, Fleet, serves_zone, can_accept_orders, engaged_by, active_for,
}
use elcorazon_backend.Delivery.Courses.{
  breaks_unique, write_rows, courier_fee_for, new_course, offer, taken_course, accept,
}
use elcorazon_backend.Delivery.Uniqueness.{Unique}
use elcorazon_backend.Delivery.Histories.{Call, run}
use elcorazon_backend.Delivery.Constraints.{one_course}

rule_first : rule_violation ≢ integrity_error
rule_first e = cc

missing_first : does_not_exist ≢ integrity_error
missing_first e = cc

write_rows-err :
    (a : Assignment) (rows : List Assignment) (db : Fleet)
    → write_rows a rows db ≡ err integrity_error
    → breaks_unique a rows ≡ true
unfolding write_rows
write_rows-err a rows db h = elim (Bool-cases (breaks_unique a rows)) [
  | inl breaks ↦ breaks
  | inr fits ↦ absurd (never (rw fits at h))
]
  where
    never : ok (record db { assignments = rows }) ≡ err integrity_error → ⊥
    never e = cc

validate-never : (s t : DeliveryStatus) → validate delivery_machine s t ≢ err integrity_error
unfolding validate can targets_from
validate-never s t h = elim (Option-cases (row delivery_machine s)) [
  | inl missing ↦ absurd (missing_case (rw missing at h))
  | inr (ts, known) ↦ absurd (known_case (contains t ts) (rw known at h))
]
  where
    missing_case : ◌≡◌ {A = Result (Unit {0})} (err unknown_state) (err integrity_error) → ⊥
    missing_case e = cc

    known_case : (b : Bool) → raise_if (not b) illegal_transition ≡ err integrity_error → ⊥
    known_case true e = cc
    known_case false e = cc

-- Only an offered course can be accepted.
accepted_from : (s : DeliveryStatus) → validate delivery_machine s accepted ≡ ok tt → s ≡ offered
unfolding validate can targets_from contains
accepted_from offered h = refl
accepted_from _ h = cc

pub bit_le : (b : Bool) → bit b ≤ 1
bit_le true = omega arith
bit_le false = omega arith

clash :
    (a : Assignment) (rows : List Assignment)
    → count (engaged_by a.courier) rows ≤ 1
    → count (active_for a.order) rows ≤ 1
    → breaks_unique a rows ≡ true
    → ⊥
unfolding breaks_unique
clash a rows h1 h2 h3 = ground arith

-- In tables that satisfy the unique constraints, an offer is never stopped by one of them: the
-- guards of the service have refused it before.
pub offer-not_integrity :
    (o c : ℕ) (db : Fleet) → Unique db.assignments → offer o c db ≢ err integrity_error
unfolding offer
offer-not_integrity o c db (engaged, active) h =
    let (order, found, h1) = or_raise-eq-err (db.orders o) does_not_exist _ missing_first h in
    let (courier, known, h2) = or_raise-eq-err (db.couriers c) does_not_exist _ missing_first h1 in
    let (g1, h3) =
      guard-eq-err (not (order.status == OrderStatus.ready)) rule_violation _ rule_first h2 in
    let (g2, h4) = guard-eq-err (not (can_accept_orders courier)) rule_violation _ rule_first h3 in
    let (g3, h5) =
      guard-eq-err (not (courier.restaurant == order.restaurant)) rule_violation _ rule_first h4 in
    let (g4, h6) =
      guard-eq-err (not (serves_zone courier order.delivery_zone)) rule_violation _ rule_first h5 in
    let (free, h7) =
      guard-eq-err (exists (engaged_by c) db.assignments) rule_violation _ rule_first h6 in
    let (idle, h8) =
      guard-eq-err (exists (active_for o) db.assignments) rule_violation _ rule_first h7 in
    absurd (
      clash (new_course o c) (db.assignments ++ (new_course o c ∷ []))
        (inserted (engaged_by c) (new_course o c) db.assignments free)
        (inserted (active_for o) (new_course o c) db.assignments idle)
        (write_rows-err (new_course o c) _ db h8))
  where
    inserted :
        (p : Assignment → Bool) (a : Assignment) (rows : List Assignment)
        → exists p rows ≡ false
        → count p (rows ++ (a ∷ [])) ≤ 1
    inserted p a rows none_yet =
        omega (arith, count-insert p a rows, count-exists p rows none_yet, bit_le (p a))

pub still_active :
    (a : Assignment) (fee : Money)
    → a.status ≡ offered
    → active_for a.order (taken_course a fee) ≡ active_for a.order a
unfolding active_for contains
still_active a fee h = rw h refl

-- In tables that satisfy the unique constraints, an acceptance is not stopped by one of them when it
-- has read the table that it writes to.
pub accept-not_integrity :
    (share n c : ℕ) (copy : CourierProfile) (db : Fleet)
    → Unique db.assignments
    → accept share n c copy db.assignments db ≢ err integrity_error
unfolding accept
accept-not_integrity share n c copy db (engaged, active) h =
    let (a, there, h1) =
      or_raise-eq-err (row_at n db.assignments) does_not_exist _ missing_first h in
    let (order, found, h2) =
      or_raise-eq-err (db.orders a.order) does_not_exist _ missing_first h1 in
    let (own, h4) = guard-eq-err (not (a.courier == c)) rule_violation _ rule_first h2 in
    let (alive, h5) =
      guard-eq-err (order.status == OrderStatus.cancelled) rule_violation _ rule_first h4 in
    let (able, h6) = guard-eq-err (not (can_accept_orders copy)) rule_violation _ rule_first h5 in
    let (free, h7) =
      guard-eq-err (exists (engaged_by c) db.assignments) rule_violation _ rule_first h6 in
    let (u, legal, h8) =
      >>=-eq-err (validate delivery_machine a.status accepted) _ (validate-never a.status accepted)
        h7 in
    let fee = courier_fee_for share order in
    let rows = set_row n (taken_course a fee) db.assignments in
    let mine : a.courier ≡ c = eq_of_beq a.courier c (not-false (a.courier == c) own) in
    absurd (
      clash (taken_course a fee) rows
        (omega (
          arith,
          count-set_row (engaged_by a.courier) n a (taken_course a fee) db.assignments there,
          count-exists (engaged_by a.courier) db.assignments (rw mine free),
          bit_le (engaged_by a.courier (taken_course a fee)),
        ))
        (omega (
          arith,
          count-set_row (active_for a.order) n a (taken_course a fee) db.assignments there,
          active a.order,
          ap bit (still_active a fee (accepted_from a.status legal)),
        ))
        (write_rows-err (taken_course a fee) rows db h8))
  where
    not-false : (b : Bool) → not b ≡ false → b ≡ true
    not-false b e = ground arith

-- After any history, with copies up to date or not, from tables that satisfy the unique constraints:
-- no offer and no acceptance that reads the courses as they are then is stopped by one of the
-- constraints; whatever these would refuse, the guards of the service refuse before.
pub guards_suffice :
    (share : ℕ) (calls : List Call) (db : Fleet)
    → Unique db.assignments
    → ((o c : ℕ) → offer o c (run share calls db) ≢ err integrity_error)
      × ((n c : ℕ) (copy : CourierProfile)
          → accept share n c copy (run share calls db).assignments (run share calls db)
            ≢ err integrity_error)
guards_suffice share calls db unique =
    let kept = one_course share calls db unique in
    (
      λ o c. offer-not_integrity o c (run share calls db) kept,
      λ n c copy. accept-not_integrity share n c copy (run share calls db) kept,
    )
