-- ===== src/Payments/Initiate.antt =====
-- `initiate` and `initiate_external` of apps/payments/services.py: a payment is asked for from the
-- provider, whose connector is an argument. The person who pays and the instructions are left out.
use elcorazon_backend.Base.{
  ℕ, Bool, not, ◌&&◌, ◌||◌, Option, none, some, List, [], ◌∷◌, ◌++◌, string_eq, ◌==◌, length,
  Result, ok, ◌>>=◌, ◌>>◌, raise_if, or_raise, if◌then◌else◌, rule_violation, integrity_error,
  does_not_exist,
}
use elcorazon_backend.Base.Rows.{next_row}
use elcorazon_backend.Money.{Money, same, sub, is_positive}
use elcorazon_backend.Orders.States.{OrderStatus, status_eq as order_status_eq}
use elcorazon_backend.Payments.States.{status_eq, pending, processing}
use elcorazon_backend.Payments.Rows.{PaymentProvider, provider_for, Transaction, Desk}
use elcorazon_backend.Payments.Totals.{is_order, settled_total}
use elcorazon_backend.Payments.Webhook.{move}
use elcorazon_backend.Payments.Split.{CheckoutInstruction, has_split, is_taken}

-- An open request of an order, for an amount, that can be given back.
abbrev pub is_reusable : ℕ → Money → Transaction → Bool
is_reusable o amount t =
    is_order t.order o
    && (t.status == pending || t.status == processing)
    && same t.amount amount
    && not (t.checkout_url == "")

-- `order_by("-created_at").first()`: the last row that fits.
unfoldable pub find_last : (Transaction → Bool) → List Transaction → Option (ℕ × Transaction)
find_last p [] = none
find_last p (t ∷ ts) = elim (find_last p ts) [
  | some r ↦ next_row (some r)
  | none ↦ if p t then some (0, t) else none
]

abbrev pub request_row : Option ℕ → PaymentProvider → Money → CheckoutInstruction → Transaction
request_row o provider amount instruction = record {
  order = o;
  provider = provider;
  provider_reference = instruction.provider_reference;
  amount = amount;
  status = pending;
  failure_reason = "";
  checkout_url = instruction.checkout_url;
}

module _ (open_checkout : PaymentProvider → Money → Result CheckoutInstruction) where
  -- The end of both: the request is opened, and its row goes from pending to processing.
  unfoldable pub open_request : Option ℕ → PaymentProvider → Money → Desk → Result (Desk × ℕ)
  open_request o provider amount db = do
    instruction ← open_checkout provider amount
    raise_if (is_taken instruction.provider_reference db.transactions) integrity_error
    let n = length db.transactions
    let t = request_row o provider amount instruction
    db' ← move n t processing (record db { transactions = db.transactions ++ (t ∷ []) })
    ok (db', n)

  -- `initiate`, with the number of the transaction that is asked for
  unfoldable pub initiate : ℕ → Desk → Result (Desk × ℕ)
  initiate o db = do
    order ← or_raise (db.orders o) does_not_exist
    raise_if (order.status == OrderStatus.cancelled) rule_violation
    raise_if (has_split (db.splits o)) rule_violation
    paid ← settled_total o order db.transactions
    outstanding ← sub order.total paid
    raise_if (not (is_positive outstanding)) rule_violation
    elim (find_last (is_reusable o outstanding) db.transactions) [
      | some r ↦ ok (db, r.0)
      | none ↦ open_request (some o) (provider_for order.payment_method) outstanding db
    ]

  -- `initiate_external`
  unfoldable pub initiate_external : PaymentProvider → Money → Desk → Result (Desk × ℕ)
  initiate_external provider amount db = do
    raise_if (not (is_positive amount)) rule_violation
    open_request none provider amount db
