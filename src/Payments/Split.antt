-- ===== src/Payments/Split.antt =====
-- `SplitService` of apps/payments/split.py: an order that several people pay, and the payment of one
-- share. What settles a share stands in Payments/Webhook. `open_checkout` is the provider's
-- connector, a service: an argument.
use elcorazon_backend.Base.{
  ℕ, String, Bool, true, false, not, ◌||◌, Option, none, some, List, [], ◌∷◌, ◌++◌, nat_eq,
  string_eq, integrity_error, ◌==◌, ltb, length, replicate, update, nat_beq, Result, ok, ◌>>=◌,
  ◌>>◌, raise_if, or_raise, if◌then◌else◌, rule_violation, does_not_exist,
}
use elcorazon_backend.Base.Int.{pos, ltb_ℤ}
use elcorazon_backend.Base.Rows.{row_at, set_row, find_row}
use elcorazon_backend.Money.{Money, currency_eq, zero_money, add, same, is_positive, allocate}
use elcorazon_backend.StateMachine.{can}
use elcorazon_backend.Orders.States.{OrderStatus, status_eq as order_status_eq}
use elcorazon_backend.Payments.States.{status_eq, pending, processing, completed, payment_machine}
use elcorazon_backend.Payments.Rows.{
  PaymentProvider, provider_for, Transaction, SplitPayment, SplitShare, Desk,
}
use elcorazon_backend.Payments.Totals.{settled_total}
use elcorazon_backend.Payments.Webhook.{move}

-- `ParticipantInput`, without the name and the phone
pub record ParticipantInput : Type 0 where
  pub user : Option ℕ
  pub amount : Option Money

-- `[p.amount for p in participants if p.amount is not None]`
abbrev pub explicit_amounts : List ParticipantInput → List Money
explicit_amounts [] = []
explicit_amounts (p ∷ ps) = elim p.amount [
  | none ↦ explicit_amounts ps
  | some m ↦ m ∷ explicit_amounts ps
]

-- The loop over the explicit amounts.
unfoldable pub sum_shares : Money → Money → List Money → Result Money
sum_shares total sum [] = ok sum
sum_shares total sum (m ∷ ms) = do
  raise_if (not (m.currency == total.currency)) rule_violation
  raise_if (not (is_positive m)) rule_violation
  sum' ← add sum m
  sum_shares total sum' ms

-- `_allocate`, when no amount is given.
unfoldable pub equal_shares : Money → ℕ → Result (List Money)
equal_shares total n = do
  raise_if (ltb_ℤ total.amount_minor (pos n)) rule_violation
  allocate total (replicate n (pos 1))

-- `_allocate`, when some amounts are given.
unfoldable pub given_shares : Money → List Money → ℕ → Result (List Money)
given_shares total ms n = do
  raise_if (not (nat_beq (length ms) n)) rule_violation
  sum ← sum_shares total (zero_money total.currency) ms
  raise_if (not (same sum total)) rule_violation
  ok ms

-- `_allocate`
unfoldable pub allocate_shares : Money → List ParticipantInput → Result (List Money)
allocate_shares total ps =
    if nat_beq (length (explicit_amounts ps)) 0
    then equal_shares total (length ps)
    else given_shares total (explicit_amounts ps) (length ps)

-- `zip(participants, montants, strict=True)`: the two lists have one length.
abbrev pub new_shares : ℕ → List ParticipantInput → List Money → List SplitShare
new_shares o [] ms = []
new_shares o (p ∷ ps) [] = []
new_shares o (p ∷ ps) (m ∷ ms) =
    (record { split = o; participant = p.user; amount = m; status = pending; transaction = none })
    ∷ new_shares o ps ms

abbrev pub has_split : Option SplitPayment → Bool
has_split none = false
has_split (some s) = true

-- `create`, of a split of the order number `o`
unfoldable pub create : ℕ → ℕ → List ParticipantInput → Desk → Result Desk
create o initiator ps db = do
  order ← or_raise (db.orders o) does_not_exist
  raise_if (not (order.customer == initiator)) rule_violation
  raise_if (order.status == OrderStatus.cancelled) rule_violation
  raise_if (has_split (db.splits o)) rule_violation
  paid ← settled_total o order db.transactions
  raise_if (is_positive paid) rule_violation
  raise_if (ltb (length ps) 2) rule_violation
  amounts ← allocate_shares order.total ps
  ok (record db {
    splits = update db.splits o (some (record { total_amount = order.total; status = pending }));
    shares = db.shares ++ new_shares o ps amounts;
  })

abbrev is_open : Option Transaction → Bool
is_open none = false
is_open (some t) = t.status == pending || t.status == processing

abbrev linked : Option ℕ → List Transaction → Option Transaction
linked none ts = none
linked (some n) ts = row_at n ts

-- `_start`
unfoldable pub start : ℕ → Desk → Result Desk
start o db = do
  split ← or_raise (db.splits o) does_not_exist
  starts ← can payment_machine split.status processing
  ok (
      if starts
      then record db { splits = update db.splits o (some (record split { status = processing })) }
      else db)

-- `CheckoutInstruction`, of apps/payments/gateway.py
pub record CheckoutInstruction : Type 0 where
  pub provider_reference : String
  pub checkout_url : String

-- `provider_reference` is unique in its table.
abbrev pub is_taken : String → List Transaction → Bool
is_taken reference ts = elim (find_row (λ t. t.provider_reference == reference) ts) [
  | none ↦ false
  | some t ↦ true
]

abbrev pub opened_transaction : ℕ → PaymentProvider → CheckoutInstruction → Money → Transaction
opened_transaction o provider instruction amount = record {
  order = some o;
  provider = provider;
  provider_reference = instruction.provider_reference;
  amount = amount;
  status = pending;
  failure_reason = "";
  checkout_url = instruction.checkout_url;
}

module _ (open_checkout : PaymentProvider → Money → Result CheckoutInstruction) where
  -- `pay_share`, of the share number `k`
  unfoldable pub pay_share : ℕ → Desk → Result Desk
  pay_share k db = do
    share ← or_raise (row_at k db.shares) does_not_exist
    order ← or_raise (db.orders share.split) does_not_exist
    raise_if (share.status == completed) rule_violation
    raise_if (order.status == OrderStatus.cancelled) rule_violation
    raise_if (is_open (linked share.transaction db.transactions)) rule_violation
    let provider = provider_for order.payment_method
    instruction ← open_checkout provider share.amount
    let n = length db.transactions
    let opened = opened_transaction share.split provider instruction share.amount
    let linked_share = record share { transaction = some n; status = processing }
    raise_if (is_taken instruction.provider_reference db.transactions) integrity_error
    db' ← move n opened processing (record db {
      transactions = db.transactions ++ (opened ∷ []);
      shares = set_row k linked_share db.shares;
    })
    start share.split db'
