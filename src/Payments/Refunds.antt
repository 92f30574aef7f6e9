-- ===== src/Payments/Refunds.antt =====
-- `RefundService` of apps/payments/services.py: a refund is asked for, then settled or given up. The
-- audit trail, the signal, the dates and what is appended to the reason are left out.
use elcorazon_backend.Base.{
  ℕ, String, Bool, not, ◌&&◌, ◌||◌, none, some, List, [], ◌∷◌, ◌++◌, nat_eq, ◌==◌, is_blank, Result,
  ok, ◌>>=◌, ◌>>◌, raise_if, or_raise, if◌then◌else◌, rule_violation, does_not_exist,
}
use elcorazon_backend.Base.Rows.{row_at, set_row}
use elcorazon_backend.Money.{Money, zero_money, add, sub, lt, le, is_positive}
use elcorazon_backend.StateMachine.{can, validate}
use elcorazon_backend.Payments.States.{
  status_eq, pending, processing, completed, cancelled, refunded, payment_machine,
}
use elcorazon_backend.Payments.Rows.{Transaction, Refund, Desk}
use elcorazon_backend.Payments.Totals.{is_order, settled_total, report_settled_total}

-- `status__in=[PENDING, PROCESSING, COMPLETED]`, of the refunds of an order
abbrev pub is_live : ℕ → Refund → Bool
is_live o r =
    r.order == o && (r.status == pending || r.status == processing || r.status == completed)

-- The completed refunds of a transaction.
abbrev pub is_given : ℕ → Refund → Bool
is_given n r = r.transaction == n && r.status == completed

-- A sum over the refunds that a filter keeps.
unfoldable pub refund_total : (Refund → Bool) → Money → List Refund → Result Money
refund_total keeps total [] = ok total
refund_total keeps total (r ∷ rs) =
    let more = add total r.amount >>= λ sum. refund_total keeps sum rs in
    let same = refund_total keeps total rs in if keeps r then more else same

abbrev pub new_refund : ℕ → ℕ → Money → String → Refund
new_refund o n amount reason = record {
  order = o;
  transaction = n;
  amount = amount;
  reason = reason;
  status = pending;
}

-- `refund`, of the transaction number `n` of the order number `o`
unfoldable pub refund : ℕ → ℕ → Money → String → Desk → Result Desk
refund o n amount reason db = do
  order ← or_raise (db.orders o) does_not_exist
  t ← or_raise (row_at n db.transactions) does_not_exist
  raise_if (not (is_order t.order o)) does_not_exist
  raise_if (not (t.status == completed)) rule_violation
  raise_if (not (is_positive amount)) rule_violation
  already ← refund_total (is_live o) (zero_money order.total.currency) db.refunds
  paid ← settled_total o order db.transactions
  remaining ← sub paid already
  over ← lt remaining amount
  raise_if over rule_violation
  ok (record db { refunds = db.refunds ++ (new_refund o n amount reason ∷ []) })

-- The transaction of a settled refund, when all of it is given back.
unfoldable pub close_refunded : ℕ → Transaction → Desk → Result Desk
close_refunded n t db =
    let after = record db {
      transactions = set_row n (record t { status = refunded }) db.transactions;
    } in
    elim t.order [ none ↦ ok after | some o ↦ report_settled_total o after ]

-- `settle`, of the refund number `k`
unfoldable pub settle : ℕ → Desk → Result Desk
settle k db = do
  r ← or_raise (row_at k db.refunds) does_not_exist
  validate payment_machine r.status processing
  validate payment_machine processing completed
  let db1 = record db { refunds = set_row k (record r { status = completed }) db.refunds }
  t ← or_raise (row_at r.transaction db1.transactions) does_not_exist
  given ← refund_total (is_given r.transaction) (zero_money t.amount.currency) db1.refunds
  enough ← le t.amount given
  legal ← can payment_machine t.status refunded
  (if enough && legal then close_refunded r.transaction t db1 else ok db1)

-- `cancel`, of the refund number `k`
unfoldable pub cancel : ℕ → String → Desk → Result Desk
cancel k reason db = do
  raise_if (is_blank reason) rule_violation
  r ← or_raise (row_at k db.refunds) does_not_exist
  validate payment_machine r.status cancelled
  ok (record db { refunds = set_row k (record r { status = cancelled }) db.refunds })
