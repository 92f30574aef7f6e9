-- ===== src/Payments/Cash.antt =====
-- apps/payments/cash.py: the cash that a courier hands in when an order is delivered. The connector
-- of the provider is an argument, as are the receivers of the signal; the payer and the journal of
-- the application are left out.
use elcorazon_backend.Base.{
  ℕ, Bool, true, false, not, ◌&&◌, ◌||◌, Option, none, some, [], ◌∷◌, ◌++◌, ◌==◌, length, Result,
  ok, ◌>>=◌, ◌>>◌, raise_if, or_raise, if◌then◌else◌, integrity_error, does_not_exist,
}
use elcorazon_backend.Money.{Money, same, sub, is_positive}
use elcorazon_backend.Payments.States.{PaymentStatus, status_eq, pending, processing, completed}
use elcorazon_backend.Payments.Rows.{
  PaymentProvider, provider_eq, cash, PaymentMethod, cash_on_delivery, Transaction, Desk,
}
use elcorazon_backend.Payments.Totals.{is_order, settled_total, report_settled_total}
use elcorazon_backend.Payments.Webhook.{move}
use elcorazon_backend.Payments.Split.{CheckoutInstruction, is_taken}
use elcorazon_backend.Payments.Initiate.{find_last, request_row}

abbrev pub is_cash : PaymentMethod → Bool
is_cash cash_on_delivery = true
is_cash _ = false

-- The open request in cash of an order, for what is left to pay.
abbrev pub is_cash_request : ℕ → Money → Transaction → Bool
is_cash_request o rest t =
    is_order t.order o
    && t.provider == cash
    && (t.status == pending || t.status == processing)
    && same t.amount rest

-- The row of the cash that is handed in, with its number.
pub record CashRow : Type 0 where
  pub desk : Desk
  pub number : ℕ
  pub transaction : Transaction

abbrev pub cash_row : Desk → ℕ → Transaction → CashRow
cash_row db n t = record { desk = db; number = n; transaction = t }

module _ (open_checkout : PaymentProvider → Money → Result CheckoutInstruction)
    (receivers : ℕ → PaymentStatus → Result (Unit {0})) where
  -- `if especes is None`: the row is written now.
  unfoldable pub new_cash_row : ℕ → Money → Desk → Result CashRow
  new_cash_row o rest db = do
    instruction ← open_checkout cash rest
    raise_if (is_taken instruction.provider_reference db.transactions) integrity_error
    let t = record (request_row (some o) cash rest instruction) { checkout_url = "" }
    ok (
        cash_row (record db { transactions = db.transactions ++ (t ∷ []) }) (length db.transactions)
          t)

  unfoldable pub find_cash_row : ℕ → Money → Desk → Result CashRow
  find_cash_row o rest db = elim (find_last (is_cash_request o rest) db.transactions) [
    | some r ↦ ok (cash_row db r.0 r.1)
    | none ↦ new_cash_row o rest db
  ]

  -- What follows the moves of the row number `n`.
  unfoldable pub report_cash : ℕ → ℕ → Desk → Result (Desk × Option ℕ)
  report_cash o n db = do db' ← report_settled_total o db; receivers n completed; ok (db', some n)

  -- The two moves of the row, and what follows them.
  unfoldable pub settle_cash : ℕ → CashRow → Result (Desk × Option ℕ)
  settle_cash o row = do
    let t = row.transaction
    let opens = t.status == pending
    db1 ← (if opens then move row.number t processing row.desk else ok row.desk)
    db2 ← move row.number (if opens then record t { status = processing } else t) completed db1
    report_cash o row.number db2

  -- The cash that is collected for what is left to pay.
  unfoldable pub collect_rest : ℕ → Money → Desk → Result (Desk × Option ℕ)
  collect_rest o rest db =
      if not (is_positive rest)
      then ok (db, none)
      else (do row ← find_cash_row o rest db; settle_cash o row)

  -- `record_cash_collected`, of the order number `o` and the method on the copy of it that is given.
  unfoldable pub record_cash_collected : ℕ → PaymentMethod → Desk → Result (Desk × Option ℕ)
  record_cash_collected o method db = if not (is_cash method) then ok (db, none) else (do
    locked ← or_raise (db.orders o) does_not_exist
    settled ← settled_total o locked db.transactions
    rest ← sub locked.total settled
    collect_rest o rest db)
