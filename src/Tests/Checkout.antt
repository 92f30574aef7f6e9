-- ===== src/Tests/Checkout.antt =====
-- Runs of apps/payments/services.py and apps/payments/split.py.
use elcorazon_backend.Base.{
  ℕ, ◌≡◌, refl, arith, Option, none, some, List, [], ◌∷◌, Result, ok, err, value_or, rule_violation,
  length, update, nat_eq, string_eq, contains,
}
use elcorazon_backend.Base.Int.{pos, ◌+ℤ◌, ◌-ℤ◌, ◌*ℤ◌, ◌≤ℤ◌, sum_ℤ, floor_div}
use elcorazon_backend.Base.Rows.{row_at}
use elcorazon_backend.Money.{
  Money, money, zero_money, xof, currency_beq, check_currency, add, sub, lt, le, same, allocate,
}
use elcorazon_backend.Money.Allocate.{minors, IsIn}
use elcorazon_backend.Money.Equal.{Positive}
use elcorazon_backend.StateMachine.{can, is_noop, validate, targets_from}
use elcorazon_backend.Orders.States.{OrderStatus}
use elcorazon_backend.Payments.States.{PaymentStatus, processing, completed, refunded}
use elcorazon_backend.Payments.Rows.{paydunya, mobile_money, Order, Transaction, Desk, Notification}
use elcorazon_backend.Payments.Totals.{
  total_of, settled_total, report_settled_total, confirm_order, confirm_paid, transition_to,
}
use elcorazon_backend.Payments.Webhook.{
  move, remains, close_if_complete, on_transaction_settled, close, settle_order, apply_status,
  apply, handle_webhook, replayed,
}
use elcorazon_backend.Payments.Kept.{Moves}
use elcorazon_backend.Payments.Settlement.{
  handle_webhook_twice, handle_webhook-lost, handle_webhook-safe,
}
use elcorazon_backend.Payments.Refunds.{is_live, refund_total, refund, close_refunded, settle}
use elcorazon_backend.Payments.Cap.{refund-capped, confirm_order-paid}
use elcorazon_backend.Payments.Split.{
  ParticipantInput, sum_shares, equal_shares, given_shares, allocate_shares,
}
use elcorazon_backend.Payments.Parts.{allocate_shares_lem}

abbrev francs : ℕ → Money
francs n = money (pos n) xof

abbrev dinner : Order
dinner = record {
  customer = 1;
  status = OrderStatus.pending;
  total = francs 1000;
  amount_paid = none;
  payment_method = mobile_money;
}

abbrev half : PaymentStatus → Transaction
half status = record {
  order = some 5;
  provider = paydunya;
  provider_reference = "tx-a";
  amount = francs 500;
  status = status;
  failure_reason = "";
  checkout_url = "";
}

abbrev other_half : Transaction
other_half = record (half completed) { provider_reference = "tx-b" }

abbrev desk : Desk
desk = record {
  orders = update (λ o. none) 5 (some dinner);
  transactions = half processing ∷ other_half ∷ [];
  events = [];
  splits = λ o. none;
  shares = [];
  refunds = [];
}

abbrev quiet : ℕ → PaymentStatus → Result (Unit {0})
quiet n s = ok tt

abbrev paid_note : Notification
paid_note = record {
  event_id = "ev:1";
  provider_reference = "tx-a";
  status = completed;
  amount = some (francs 500);
  reason = "";
}

abbrev paid_desk : Desk
paid_desk = (handle_webhook quiet paydunya paid_note desk).0

abbrev status_of : Desk → Option (OrderStatus × Option Money)
status_of db = elim (db.orders 5) [ none ↦ none | some o ↦ some (o.status, o.amount_paid) ]

-- The second half confirms the order.
paid_in_full : status_of paid_desk ≡ some (OrderStatus.confirmed, some (francs 1000))
unfolding handle_webhook apply apply_status move settle_order on_transaction_settled
    close_if_complete remains close report_settled_total settled_total total_of confirm_order
    confirm_paid transition_to can is_noop validate targets_from add sub lt le same check_currency
    currency_beq ◌+ℤ◌ ◌-ℤ◌ ◌*ℤ◌ floor_div refund refund_total settle close_refunded allocate_shares
    equal_shares given_shares sum_shares allocate minors IsIn contains
paid_in_full = refl

handle_webhook_twice_example :
    handle_webhook quiet paydunya paid_note paid_desk ≡ (paid_desk, replayed)
handle_webhook_twice_example = handle_webhook_twice quiet paydunya paid_note desk refl

handle_webhook-safe_example :
    (t' : Transaction) × (row_at 0 paid_desk.transactions ≡ some t')
    × Moves paid_note (half processing) t'
handle_webhook-safe_example =
    handle_webhook-safe quiet paydunya paid_note desk 0 (half processing) refl

-- What the receivers of the signals raise is not tried again: the event stays, nothing else does.
abbrev failing : ℕ → PaymentStatus → Result (Unit {0})
failing n s = err rule_violation

abbrev lost_desk : Desk
lost_desk = (handle_webhook failing paydunya paid_note desk).0

handle_webhook-lost_example :
    (lost_desk.transactions ≡ desk.transactions)
    × (lost_desk.orders ≡ desk.orders)
    × (handle_webhook quiet paydunya paid_note lost_desk ≡ (lost_desk, replayed))
unfolding handle_webhook apply apply_status move settle_order on_transaction_settled
    close_if_complete remains close report_settled_total settled_total total_of confirm_order
    confirm_paid transition_to can is_noop validate targets_from add sub lt le same check_currency
    currency_beq ◌+ℤ◌ ◌-ℤ◌ ◌*ℤ◌ floor_div refund refund_total settle close_refunded allocate_shares
    equal_shares given_shares sum_shares allocate minors IsIn contains
handle_webhook-lost_example =
    handle_webhook-lost failing quiet paydunya paid_note desk rule_violation refl refl refl

abbrev refunded_desk : Desk
refunded_desk = value_or paid_desk (refund 5 0 (francs 500) "froid" paid_desk)

refund-capped_example :
    (paid : Money) × (live : Money) × (settled_total 5
        (record dinner { status = OrderStatus.confirmed; amount_paid = some (francs 1000) })
        refunded_desk.transactions
      ≡ ok paid)
    × (refund_total (is_live 5) (zero_money xof) refunded_desk.refunds ≡ ok live)
    × (live.currency ≡ paid.currency)
    × (live.amount_minor ≤ℤ paid.amount_minor)
unfolding handle_webhook apply apply_status move settle_order on_transaction_settled
    close_if_complete remains close report_settled_total settled_total total_of confirm_order
    confirm_paid transition_to can is_noop validate targets_from add sub lt le same check_currency
    currency_beq ◌+ℤ◌ ◌-ℤ◌ ◌*ℤ◌ floor_div refund refund_total settle close_refunded allocate_shares
    equal_shares given_shares sum_shares allocate minors IsIn contains
refund-capped_example =
    refund-capped 5 0 (francs 500) "froid" paid_desk refunded_desk
      (record dinner { status = OrderStatus.confirmed; amount_paid = some (francs 1000) }) refl refl

abbrev given_back : Desk
given_back = value_or refunded_desk (settle 0 refunded_desk)

-- Once one of two payments is refunded in full, the other cannot be refunded any more.
second_refund_refused : refund 5 1 (francs 500) "froid" given_back ≡ err rule_violation
unfolding handle_webhook apply apply_status move settle_order on_transaction_settled
    close_if_complete remains close report_settled_total settled_total total_of confirm_order
    confirm_paid transition_to can is_noop validate targets_from add sub lt le same check_currency
    currency_beq ◌+ℤ◌ ◌-ℤ◌ ◌*ℤ◌ floor_div refund refund_total settle close_refunded allocate_shares
    equal_shares given_shares sum_shares allocate minors IsIn contains
second_refund_refused = refl

abbrev full_desk : Desk
full_desk = record desk { transactions = half completed ∷ other_half ∷ [] }

confirm_order-paid_example :
    (paid : Money) × (settled_total 5 dinner full_desk.transactions ≡ ok paid)
    × (xof ≡ paid.currency)
    × (pos 1000 ≤ℤ paid.amount_minor)
unfolding handle_webhook apply apply_status move settle_order on_transaction_settled
    close_if_complete remains close report_settled_total settled_total total_of confirm_order
    confirm_paid transition_to can is_noop validate targets_from add sub lt le same check_currency
    currency_beq ◌+ℤ◌ ◌-ℤ◌ ◌*ℤ◌ floor_div refund refund_total settle close_refunded allocate_shares
    equal_shares given_shares sum_shares allocate minors IsIn contains
confirm_order-paid_example =
    confirm_order-paid 5 full_desk (value_or full_desk (confirm_order 5 full_desk)) dinner
      (record dinner { status = OrderStatus.confirmed }) refl refl refl (λ e. ground arith)

abbrev three : List ParticipantInput
three = guest ∷ guest ∷ guest ∷ []
  where
    guest : ParticipantInput
    guest = record { user = none; amount = none }

abbrev thirds : List Money
thirds = francs 334 ∷ francs 333 ∷ francs 333 ∷ []

allocate_shares_lem_example :
    (length thirds ≡ 3)
    × (sum_ℤ (minors thirds) ≡ pos 1000)
    × Positive (minors thirds)
    × IsIn xof thirds
unfolding handle_webhook apply apply_status move settle_order on_transaction_settled
    close_if_complete remains close report_settled_total settled_total total_of confirm_order
    confirm_paid transition_to can is_noop validate targets_from add sub lt le same check_currency
    currency_beq ◌+ℤ◌ ◌-ℤ◌ ◌*ℤ◌ floor_div refund refund_total settle close_refunded allocate_shares
    equal_shares given_shares sum_shares allocate minors IsIn contains
allocate_shares_lem_example = allocate_shares_lem (francs 1000) three thirds (omega arith) refl

-- A notification of a refund moves the transaction, and the amount copied on the order stays.
abbrev refund_note : Notification
refund_note = record {
  event_id = "ev:2";
  provider_reference = "tx-a";
  status = refunded;
  amount = none;
  reason = "";
}

abbrev noticed_desk : Desk
noticed_desk = (handle_webhook quiet paydunya refund_note paid_desk).0

refund_notice_amount : status_of noticed_desk ≡ some (OrderStatus.confirmed, some (francs 1000))
unfolding handle_webhook apply apply_status move settle_order on_transaction_settled
    close_if_complete remains close report_settled_total settled_total total_of confirm_order
    confirm_paid transition_to can is_noop validate targets_from add sub lt le same check_currency
    currency_beq ◌+ℤ◌ ◌-ℤ◌ ◌*ℤ◌ floor_div refund refund_total settle close_refunded allocate_shares
    equal_shares given_shares sum_shares allocate minors IsIn contains
refund_notice_amount = refl

refund_notice_total : settled_total 5 dinner noticed_desk.transactions ≡ ok (francs 500)
unfolding handle_webhook apply apply_status move settle_order on_transaction_settled
    close_if_complete remains close report_settled_total settled_total total_of confirm_order
    confirm_paid transition_to can is_noop validate targets_from add sub lt le same check_currency
    currency_beq ◌+ℤ◌ ◌-ℤ◌ ◌*ℤ◌ floor_div refund refund_total settle close_refunded allocate_shares
    equal_shares given_shares sum_shares allocate minors IsIn contains
refund_notice_total = refl
