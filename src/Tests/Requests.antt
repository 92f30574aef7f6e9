-- ===== src/Tests/Requests.antt =====
-- Runs of `initiate` of apps/payments/services.py and of the settlement of a share in
-- apps/payments/split.py.
use elcorazon_backend.Base.{
  ◌⊎◌, ◌∷◌, ℕ, ◌≡◌, refl, false, none, some, [], Result, ok, value_or, update, nat_eq, string_eq,
  ◌==◌, contains, ok-injective, Option,
}
use elcorazon_backend.Base.Int.{pos, ◌+ℤ◌, ◌-ℤ◌}
use elcorazon_backend.Money.{Money, money, xof, currency_beq, check_currency, add, sub, same}
use elcorazon_backend.StateMachine.{can, validate, targets_from}
use elcorazon_backend.Orders.States.{OrderStatus}
use elcorazon_backend.Payments.Rows.{
  PaymentProvider, mobile_money, cash_on_delivery, Order, SplitShare, Desk,
}
use elcorazon_backend.Payments.Totals.{total_of, settled_total, report_settled_total}
use elcorazon_backend.Payments.Webhook.{move, on_transaction_settled, close_if_complete, remains}
use elcorazon_backend.Payments.Split.{CheckoutInstruction}
use elcorazon_backend.Payments.Initiate.{find_last, open_request, initiate}
use elcorazon_backend.Payments.Backing.{on_transaction_settled-backed}
use elcorazon_backend.Base.Rows.{row_at}
use elcorazon_backend.Payments.States.{PaymentStatus, processing, completed, status_eq}
use elcorazon_backend.Payments.Reuse.{initiate_twice}
use elcorazon_backend.Payments.Cash.{
  find_cash_row, new_cash_row, settle_cash, report_cash, collect_rest, record_cash_collected,
}
use elcorazon_backend.Payments.Collected.{record_cash_collected_twice}

abbrev lunch : Order
lunch = record {
  customer = 1;
  status = OrderStatus.pending;
  total = money (pos 2500) xof;
  amount_paid = none;
  payment_method = mobile_money;
}

abbrev new_desk : Desk
new_desk = record {
  orders = update (λ o. none) 4 (some lunch);
  transactions = [];
  events = [];
  splits = λ o. none;
  shares = [];
  refunds = [];
}

abbrev page : CheckoutInstruction
page = record { provider_reference = "pd-1"; checkout_url = "https://pay/pd-1" }

abbrev portal : PaymentProvider → Money → Result CheckoutInstruction
portal p m = ok page

portal_addressed :
    (p : PaymentProvider) (m : Money) (i : CheckoutInstruction)
    → portal p m ≡ ok i
    → (i.checkout_url == "") ≡ false
portal_addressed p m i h = rw (← ok-injective h) refl

abbrev asked : Desk × ℕ
asked = value_or (new_desk, 9) (initiate portal 4 new_desk)

initiate_twice_example : initiate portal 4 asked.0 ≡ ok (asked.0, asked.1)
unfolding initiate settled_total total_of find_last open_request move can validate targets_from add
    sub same check_currency currency_beq ◌+ℤ◌ ◌-ℤ◌ contains
initiate_twice_example = initiate_twice portal portal_addressed 4 new_desk asked.0 asked.1 refl

abbrev cash_desk : Desk
cash_desk = record new_desk {
  orders = update (λ o. none) 4 (some (record lunch { payment_method = cash_on_delivery }));
}

abbrev unheard : ℕ → PaymentStatus → Result (Unit {0})
unheard n s = ok tt

abbrev handed_in : Desk × Option ℕ
handed_in =
    value_or (cash_desk, none) (record_cash_collected portal unheard 4 cash_on_delivery cash_desk)

record_cash_collected_twice_example :
    (order : Order) × (cash_desk.orders 4 ≡ some order)
    × (handed_in.0.orders 4 ≡ some (record order { amount_paid = some order.total }))
    × (settled_total 4 order handed_in.0.transactions ≡ ok order.total)
    × (record_cash_collected portal unheard 4 cash_on_delivery handed_in.0 ≡ ok (handed_in.0, none))
unfolding record_cash_collected collect_rest find_cash_row new_cash_row settle_cash report_cash
    report_settled_total settled_total total_of find_last move can validate targets_from add sub
    same check_currency currency_beq ◌+ℤ◌ ◌-ℤ◌ contains
record_cash_collected_twice_example =
    record_cash_collected_twice portal unheard 4 0 cash_on_delivery cash_desk handed_in.0 refl

abbrev my_share : SplitShare
my_share = record {
  split = 4;
  participant = some 2;
  amount = money (pos 1250) xof;
  status = processing;
  transaction = some 6;
}

abbrev split_desk : Desk
split_desk = record new_desk {
  splits =
      update (λ o. none) 4
        (some (record { total_amount = money (pos 2500) xof; status = processing }));
  shares = my_share ∷ record my_share { transaction = some 7 } ∷ [];
}

abbrev settled_desk : Desk
settled_desk = value_or split_desk (on_transaction_settled 6 split_desk)

on_transaction_settled-backed_example :
    (row_at 0 settled_desk.shares ≡ some my_share)
    ⊎ ((my_share.transaction ≡ some 6)
        × (processing ≡ processing)
        × (row_at 0 settled_desk.shares ≡ some (record my_share { status = completed })))
unfolding on_transaction_settled close_if_complete remains can targets_from contains
on_transaction_settled-backed_example =
    on_transaction_settled-backed 6 0 split_desk settled_desk my_share refl refl
