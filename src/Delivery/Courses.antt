-- ===== src/Delivery/Courses.antt =====
-- `AssignmentService` of apps/delivery/services.py: offers, acceptance, refusal and progress of the
-- courses, and the order that follows them. Broadcasts and the audit trail are left out; an object
-- that a caller hands over is its row as it stands, except in `decline` and `accept`, which take the
-- copy. The two unique constraints of `Assignment` are checked by the table at each write of a row,
-- apart from the guards of the service.
use elcorazon_backend.Base.{
  ℕ, String, Bool, ◌&&◌, ◌||◌, not, Option, none, some, List, [], ◌∷◌, ◌++◌, nat_eq, ◌==◌, suc, ltb,
  contains, update, if◌then◌else◌, Result, ok, ◌>>=◌, ◌>>◌, raise_if, or_raise, rule_violation,
  does_not_exist, integrity_error,
}
use elcorazon_backend.Base.Rows.{row_at, set_row, count, exists}
use elcorazon_backend.Money.{Money, zero_money, add, percentage}
use elcorazon_backend.StateMachine.{can, is_noop, validate}
use elcorazon_backend.Orders.States.{OrderStatus, order_machine, status_eq as order_status_eq}
use elcorazon_backend.Delivery.States.{
  DeliveryStatus, offered, accepted, on_the_way, delivered, declined, cancelled, status_eq,
  delivery_machine, order_status_projection,
}
use elcorazon_backend.Delivery.Rows.{
  CourierProfile, Assignment, Order, Fleet, serves_zone, can_accept_orders, engaged_by, active_for,
}

-- The two unique constraints, for the row that is written.
unfoldable pub breaks_unique : Assignment → List Assignment → Bool
breaks_unique a rows =
    ltb 1 (count (engaged_by a.courier) rows) || ltb 1 (count (active_for a.order) rows)

unfoldable pub write_rows : Assignment → List Assignment → Fleet → Result Fleet
write_rows a rows db = do
  raise_if (breaks_unique a rows) integrity_error
  ok (record db { assignments = rows })

-- `order.delivery_fee_gross or order.delivery_fee`
abbrev pub course_value : Order → Option Money → Money
course_value order none = order.delivery_fee
course_value order (some gross) = gross

-- `courier_fee_for`; the share is `COURIER_FEE_SHARE_PERCENT`, in hundredths of a percent.
unfoldable pub courier_fee_for : ℕ → Order → Money
courier_fee_for share order = percentage (course_value order order.delivery_fee_gross) share

abbrev pub new_course : ℕ → ℕ → Assignment
new_course o c = record {
  order = o;
  courier = c;
  status = offered;
  courier_fee = none;
  decline_reason = "";
  proof_of_delivery = none;
}

-- `offer`
unfoldable pub offer : ℕ → ℕ → Fleet → Result Fleet
offer o c db = do
  order ← or_raise (db.orders o) does_not_exist
  courier ← or_raise (db.couriers c) does_not_exist
  raise_if (not (order.status == OrderStatus.ready)) rule_violation
  raise_if (not (can_accept_orders courier)) rule_violation
  raise_if (not (courier.restaurant == order.restaurant)) rule_violation
  raise_if (not (serves_zone courier order.delivery_zone)) rule_violation
  raise_if (exists (engaged_by c) db.assignments) rule_violation
  raise_if (exists (active_for o) db.assignments) rule_violation
  write_rows (new_course o c) (db.assignments ++ (new_course o c ∷ [])) db

abbrev pub taken_course : Assignment → Money → Assignment
taken_course a fee = record a { status = accepted; courier_fee = some fee }

-- `accept`, of the course number `n` by the courier `c`: `copy` is the caller's copy of the courier.
-- The lock is on the order, so other courses may have moved since `_engaged_for` read the table:
-- `seen` is what it read, and `db` what the row is written to.
unfoldable pub accept : ℕ → ℕ → ℕ → CourierProfile → List Assignment → Fleet → Result Fleet
accept share n c copy seen db = do
  current ← or_raise (row_at n db.assignments) does_not_exist
  order ← or_raise (db.orders current.order) does_not_exist
  raise_if (not (current.courier == c)) rule_violation
  raise_if (order.status == OrderStatus.cancelled) rule_violation
  raise_if (not (can_accept_orders copy)) rule_violation
  raise_if (exists (engaged_by c) seen) rule_violation
  validate delivery_machine current.status accepted
  (let row = taken_course current (courier_fee_for share order) in
      write_rows row (set_row n row db.assignments) db)

-- `attach_proof`
unfoldable pub attach_proof : ℕ → ℕ → String → Fleet → Result Fleet
attach_proof n c photo db = do
  locked ← or_raise (row_at n db.assignments) does_not_exist
  raise_if (not (locked.courier == c)) rule_violation
  raise_if (not (contains locked.status (on_the_way ∷ delivered ∷ []))) rule_violation
  raise_if (locked.status == delivered && has_proof locked.proof_of_delivery) rule_violation
  (let row = record locked { proof_of_delivery = some photo } in
      ok (record db { assignments = set_row n row db.assignments }))
  where
    has_proof : Option String → Bool
    has_proof none = Bool.false
    has_proof (some _) = Bool.true

abbrev pub closed : Assignment → DeliveryStatus → String → Assignment
closed a s reason = record a { status = s; decline_reason = reason }

-- `decline`; `copy` is the caller's copy of the course number `n`, and two columns are written.
unfoldable pub decline : ℕ → Assignment → ℕ → String → Fleet → Result Fleet
decline n copy c reason db = do
  raise_if (not (copy.courier == c)) rule_violation
  validate delivery_machine copy.status declined
  row ← or_raise (row_at n db.assignments) does_not_exist
  write_rows (closed row declined reason) (set_row n (closed row declined reason) db.assignments) db

-- `Q(order=o, status__in=(OFFERED, ACCEPTED))`
unfoldable pub is_open_for : ℕ → Assignment → Bool
is_open_for o a = a.order == o && contains a.status (offered ∷ accepted ∷ [])

-- The loop of `close_for_cancelled_order`.
unfoldable pub close_rows : ℕ → String → List Assignment → Result (List Assignment)
close_rows o reason [] = ok []
close_rows o reason (a ∷ rest) =
    let tail = close_rows o reason rest in
    let shut = (do
      validate delivery_machine a.status cancelled
      rows ← tail
      ok (closed a cancelled reason ∷ rows)) in
    let kept = tail >>= λ rows. ok (a ∷ rows) in if is_open_for o a then shut else kept

-- `close_for_cancelled_order`
unfoldable pub close_for_cancelled_order : ℕ → String → Fleet → Result Fleet
close_for_cancelled_order o reason db = do
  rows ← close_rows o reason db.assignments
  ok (record db { assignments = rows })

abbrev pub with_order : Fleet → ℕ → Order → OrderStatus → Fleet
with_order db o order s = record db {
  orders = update db.orders o (some (record order { status = s }));
}

-- `OrderService.transition_to` of apps/orders/services.py, as far as the status and the courses of
-- the order go: `on_order_cancelled` of apps/delivery/dispatch.py runs in its transaction. Of what
-- else runs there, `attendants` says whether it raises.
unfoldable pub move_order : ℕ → OrderStatus → Fleet → Result Fleet
move_order o target db = do
  order ← or_raise (db.orders o) does_not_exist
  same ← is_noop order_machine order.status target
  (if same then ok db else (do
    validate order_machine order.status target
    (let moved = with_order db o order target in
        if target == OrderStatus.cancelled
        then (do
          db.attendants o target
          close_for_cancelled_order o "La commande a été annulée." moved)
        else (do db.attendants o target; ok moved))))

-- `_exiger_une_commande_qui_suit`
unfoldable pub require_following : Order → Option OrderStatus → Result (Unit {0})
require_following order none = ok tt
require_following order (some projected) = do
  follows ← can order_machine order.status projected
  raise_if (not (order.status == projected || follows)) rule_violation

-- `_project`
unfoldable pub project : ℕ → Order → Option OrderStatus → Fleet → Result Fleet
project o order none db = ok db
project o order (some projected) db =
    if order.status == projected then ok db else move_order o projected db

-- `courier.total_earnings or Money.zero(earned.currency)`, and the sum.
abbrev pub earnings_with : Option Money → Option Money → Result (Option Money)
earnings_with held none = ok held
earnings_with none (some earned) = add (zero_money earned.currency) earned >>= λ m. ok (some m)
earnings_with (some m) (some earned) = add m earned >>= λ m'. ok (some m')

-- `_credit`
unfoldable pub credit : Assignment → Fleet → Result Fleet
credit a db = do
  courier ← or_raise (db.couriers a.courier) does_not_exist
  earnings ← earnings_with courier.total_earnings a.courier_fee
  (let row = record courier {
    deliveries_completed = suc courier.deliveries_completed;
    total_earnings = earnings;
  } in
      ok (record db { couriers = update db.couriers a.courier (some row) }))

-- `deliveries_cancelled=F("deliveries_cancelled") + 1`
unfoldable pub count_cancelled : Assignment → Fleet → Result Fleet
count_cancelled a db = do
  courier ← or_raise (db.couriers a.courier) does_not_exist
  (let row = record courier { deliveries_cancelled = suc courier.deliveries_cancelled } in
      ok (record db { couriers = update db.couriers a.courier (some row) }))

-- The end of `transition_to`.
unfoldable pub reward : DeliveryStatus → Assignment → Fleet → Result Fleet
reward delivered a db = credit a db
reward cancelled a db = count_cancelled a db
reward _ a db = ok db

-- The row that `transition_to` saves.
unfoldable pub advanced : Assignment → DeliveryStatus → String → Assignment
advanced a cancelled reason = closed a cancelled reason
advanced a target reason = record a { status = target }

-- `transition_to`, of the course number `n`.
unfoldable pub transition_to : ℕ → DeliveryStatus → String → Fleet → Result Fleet
transition_to n target reason db = do
  locked ← or_raise (row_at n db.assignments) does_not_exist
  same ← is_noop delivery_machine locked.status target
  (if same then ok db else (do
    validate delivery_machine locked.status target
    order ← or_raise (db.orders locked.order) does_not_exist
    raise_if (order.status == OrderStatus.cancelled && not (target == cancelled)) rule_violation
    require_following order (order_status_projection target)
    saved ←
        write_rows (advanced locked target reason)
          (set_row n (advanced locked target reason) db.assignments) db
    projected ← project locked.order order (order_status_projection target) saved
    reward target (advanced locked target reason) projected))
