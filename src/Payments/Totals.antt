-- ===== src/Payments/Totals.antt =====
-- What an order has really been paid: `settled_total` and `report_settled_total` of
-- apps/payments/services.py, and the change of an order's status that a full payment makes.
use elcorazon_backend.Base.{
  ℕ, Bool, false, ◌&&◌, Option, none, some, List, [], ◌∷◌, nat_eq, ◌==◌, update, Result, ok, ◌>>=◌,
  ◌>>◌, or_raise, if◌then◌else◌, does_not_exist,
}
use elcorazon_backend.Money.{Money, zero_money, add, lt}
use elcorazon_backend.StateMachine.{can, is_noop, validate}
use elcorazon_backend.Orders.States.{OrderStatus, order_machine, status_eq as order_status_eq}
use elcorazon_backend.Payments.States.{status_eq, completed}
use elcorazon_backend.Payments.Rows.{Order, Transaction, Desk}

abbrev pub is_order : Option ℕ → ℕ → Bool
is_order none o = false
is_order (some p) o = p == o

-- `order.transactions.filter(status=COMPLETED)`
abbrev pub is_settled_for : ℕ → Transaction → Bool
is_settled_for o t = is_order t.order o && t.status == completed

-- The loop of `settled_total`.
unfoldable pub total_of : ℕ → Money → List Transaction → Result Money
total_of o total [] = ok total
total_of o total (t ∷ ts) =
    let rest = add total t.amount >>= λ sum. total_of o sum ts in
    let same = total_of o total ts in if is_settled_for o t then rest else same

-- `settled_total`
unfoldable pub settled_total : ℕ → Order → List Transaction → Result Money
settled_total o order ts = total_of o (zero_money order.total.currency) ts

-- `report_settled_total`, of the order number `o`
unfoldable pub report_settled_total : ℕ → Desk → Result Desk
report_settled_total o db = do
  order ← or_raise (db.orders o) does_not_exist
  paid ← settled_total o order db.transactions
  ok (record db { orders = update db.orders o (some (record order { amount_paid = some paid })) })

-- The status that `OrderService.transition_to` of apps/orders/services.py writes.
unfoldable pub transition_to : OrderStatus → OrderStatus → Result OrderStatus
transition_to s target = do
  same ← is_noop order_machine s target
  (if same then ok s else (do validate order_machine s target; ok target))

-- The end of `_confirm_order`, for an order that is paid in full.
unfoldable pub confirm_paid : ℕ → Order → Desk → Result Desk
confirm_paid o order db = do
  legal ← can order_machine order.status OrderStatus.confirmed
  status ← (if legal then transition_to order.status OrderStatus.confirmed else ok order.status)
  ok (record db { orders = update db.orders o (some (record order { status = status })) })

-- `_confirm_order`
unfoldable pub confirm_order : ℕ → Desk → Result Desk
confirm_order o db = do
  order ← or_raise (db.orders o) does_not_exist
  paid ← settled_total o order db.transactions
  short ← lt paid order.total
  (if short then ok db else confirm_paid o order db)
