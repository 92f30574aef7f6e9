-- ===== src/Payments/Rows.antt =====
-- apps/payments/models.py and the columns of apps/orders/models.py that apps/payments reads: orders,
-- transactions, webhook events, refunds, splits and shares. Persons, phones, tokens and dates are
-- left out. Rows with automatic keys stand in the order of insertion, the events newest first.
use elcorazon_backend.Base.{ℕ, zero, suc, ◌≡◌, refl, String, Bool, Option, List, Eq, Eq-of_code}
use elcorazon_backend.Money.{Money}
use elcorazon_backend.Orders.States.{OrderStatus}
use elcorazon_backend.Payments.States.{PaymentStatus}

-- `PaymentMethod`, of apps/orders/models.py
pub data PaymentMethod : Type 0 where
  mobile_money card cash_on_delivery wallet_balance : PaymentMethod

-- `PaymentProvider`
pub data PaymentProvider : Type 0 where
  paydunya cash wallet : PaymentProvider

abbrev pub provider_code : PaymentProvider → ℕ
provider_code paydunya = 0
provider_code cash = 1
provider_code wallet = 2

abbrev provider_decode : ℕ → PaymentProvider
provider_decode zero = paydunya
provider_decode (suc zero) = cash
provider_decode _ = wallet

pub provider_decode-code : (p : PaymentProvider) → provider_decode (provider_code p) ≡ p
provider_decode-code paydunya = refl
provider_decode-code _ = refl

instance abbrev pub provider_eq : Eq PaymentProvider
provider_eq = Eq-of_code provider_code provider_decode provider_decode-code

-- `PROVIDER_FOR_METHOD`, of apps/payments/services.py
abbrev pub provider_for : PaymentMethod → PaymentProvider
provider_for mobile_money = paydunya
provider_for card = paydunya
provider_for cash_on_delivery = cash
provider_for wallet_balance = wallet

-- `Order`
pub record Order : Type 0 where
  pub customer : ℕ
  pub status : OrderStatus
  pub total : Money
  pub amount_paid : Option Money
  pub payment_method : PaymentMethod

-- `Transaction`; its order may be null.
pub record Transaction : Type 0 where
  pub order : Option ℕ
  pub provider : PaymentProvider
  pub provider_reference : String
  pub amount : Money
  pub status : PaymentStatus
  pub failure_reason : String
  pub checkout_url : String

-- What `processing_error` says of an event that was not applied.
pub data Anomaly : Type 0 where
  no_transaction refused_transition amount_differs : Anomaly

-- `WebhookEvent`
pub record WebhookEvent : Type 0 where
  pub provider : PaymentProvider
  pub event_id : String
  pub processing_error : Option Anomaly
  pub is_processed : Bool

-- `SplitPayment`, of the order it is kept under
pub record SplitPayment : Type 0 where
  pub total_amount : Money
  pub status : PaymentStatus

-- `SplitShare`; `split` is the number of the order of its split.
pub record SplitShare : Type 0 where
  pub split : ℕ
  pub participant : Option ℕ
  pub amount : Money
  pub status : PaymentStatus
  pub transaction : Option ℕ

-- `Refund`
pub record Refund : Type 0 where
  pub order : ℕ
  pub transaction : ℕ
  pub amount : Money
  pub reason : String
  pub status : PaymentStatus

pub record Desk : Type 0 where
  pub orders : ℕ → Option Order
  pub transactions : List Transaction
  pub events : List WebhookEvent
  pub splits : ℕ → Option SplitPayment
  pub shares : List SplitShare
  pub refunds : List Refund

-- `Notification`, of apps/payments/gateway.py. Its status is a text there: one that is no `PaymentStatus`
-- is refused by the machine as one that cannot be reached, and is left out.
pub record Notification : Type 0 where
  pub event_id : String
  pub provider_reference : String
  pub status : PaymentStatus
  pub amount : Option Money
  pub reason : String
