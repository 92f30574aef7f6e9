-- ===== src/Payments/Withdrawals.antt =====
-- `WithdrawalService` of apps/payments/services.py: a courier's earnings, and the withdrawals that
-- take from them. Couriers and persons are numbers; dates, the audit trail and the signals are left
-- out. `Withdrawal` is of apps/payments/models.py.
use elcorazon_backend.Base.{
  ℕ, String, not, Option, none, some, List, [], ◌∷◌, ◌++◌, nat_eq, ◌==◌, update, Result, ok, ◌>>=◌,
  ◌>>◌, raise_if, or_raise, value_or, rule_violation, insufficient_balance, does_not_exist,
}
use elcorazon_backend.Base.Int.{pos, ltb_ℤ, leb_ℤ}
use elcorazon_backend.Base.Rows.{row_at, set_row}
use elcorazon_backend.Money.{Money, currency_eq, zero_money, add, sub}
use elcorazon_backend.StateMachine.{validate}
use elcorazon_backend.Payments.States.{
  PaymentStatus, status_eq, pending, processing, completed, failed, payment_machine,
}

-- `Withdrawal`
pub record Withdrawal : Type 0 where
  pub courier : ℕ
  pub amount : Money
  pub status : PaymentStatus
  pub provider_reference : String
  pub failure_reason : String
  pub processed_by : Option ℕ

-- `total_earnings` of each courier, which may be null, and the withdrawals by their keys.
pub record Payroll : Type 0 where
  pub couriers : ℕ → Option (Option Money)
  pub withdrawals : List Withdrawal

abbrev pub opened_withdrawal : ℕ → Money → Withdrawal
opened_withdrawal courier amount = record {
  courier = courier;
  amount = amount;
  status = pending;
  provider_reference = "";
  failure_reason = "";
  processed_by = none;
}

-- `request`
unfoldable pub request : ℕ → Money → Payroll → Result Payroll
request courier amount db = do
  raise_if (leb_ℤ amount.amount_minor (pos 0)) rule_violation
  locked ← or_raise (db.couriers courier) does_not_exist
  earnings ← or_raise locked insufficient_balance
  raise_if (leb_ℤ earnings.amount_minor (pos 0)) insufficient_balance
  raise_if (not (amount.currency == earnings.currency)) rule_violation
  raise_if (ltb_ℤ earnings.amount_minor amount.amount_minor) insufficient_balance
  rest ← sub earnings amount
  ok (record {
    couriers = update db.couriers courier (some (some rest));
    withdrawals = db.withdrawals ++ (opened_withdrawal courier amount ∷ []);
  })

abbrev pub settled : Withdrawal → String → Option ℕ → Withdrawal
settled w reference actor = record w {
  status = completed;
  provider_reference = reference;
  processed_by = actor;
}

abbrev pub refused : Withdrawal → String → Option ℕ → Withdrawal
refused w reason actor = record w { status = failed; failure_reason = reason; processed_by = actor }

-- `settle`, of the withdrawal number `n`.
unfoldable pub settle : ℕ → String → Option ℕ → Payroll → Result Payroll
settle n reference actor db = do
  w ← or_raise (row_at n db.withdrawals) does_not_exist
  validate payment_machine w.status processing
  validate payment_machine processing completed
  ok (record db { withdrawals = set_row n (settled w reference actor) db.withdrawals })

-- `locked.total_earnings or Money.zero(...)`
abbrev pub earnings_or_zero : Option Money → Money → Money
earnings_or_zero none amount = zero_money amount.currency
earnings_or_zero (some e) amount = e

-- `fail`, of the withdrawal number `n`.
unfoldable pub fail : ℕ → String → Option ℕ → Payroll → Result Payroll
fail n reason actor db = do
  w ← or_raise (row_at n db.withdrawals) does_not_exist
  validate payment_machine w.status failed
  locked ← or_raise (db.couriers w.courier) does_not_exist
  earnings ← add (earnings_or_zero locked w.amount) w.amount
  ok (record {
    couriers = update db.couriers w.courier (some (some earnings));
    withdrawals = set_row n (refused w reason actor) db.withdrawals;
  })

-- A call of the service, and the table after a list of calls: one that raises is rolled back.
pub data Call : Type 0 where
  requests : ℕ → Money → Call
  settles fails : ℕ → String → Option ℕ → Call

unfoldable pub perform : Call → Payroll → Result Payroll
perform (requests courier amount) db = request courier amount db
perform (settles n reference actor) db = settle n reference actor db
perform (fails n reason actor) db = fail n reason actor db

unfoldable pub run : List Call → Payroll → Payroll
run [] db = db
run (c ∷ calls) db = run calls (value_or db (perform c db))
