-- ===== src/Delivery/Rows.antt =====
-- apps/delivery/models.py: the file of a courier and a course, and the columns of an order that
-- apps/delivery reads. Persons, places and zones are numbers, a day is the number of the day, a
-- stored file is its name; names, positions and the moments of a course are left out. A rating
-- average of two decimals is a number of hundredths.
use elcorazon_backend.Base.{
  ℕ, String, Bool, false, ◌&&◌, ◌||◌, not, Option, none, some, List, [], ◌∷◌, nat_eq, ◌==◌,
  contains, Result,
}
use elcorazon_backend.Money.{Money}
use elcorazon_backend.Orders.States.{OrderStatus}
use elcorazon_backend.Delivery.States.{
  DeliveryStatus, status_eq, engaged_statuses, terminal_statuses, VerificationStatus, approved,
  verification_eq,
}

-- `CourierProfile`; `user_is_active` is a column of its user.
pub record CourierProfile : Type 0 where
  pub restaurant : ℕ
  pub user_is_active : Bool
  pub service_zones : List ℕ
  pub verification_status : VerificationStatus
  pub verification_notes : String
  pub verified_by : Option ℕ
  pub id_document : Option String
  pub licence_document : Option String
  pub vehicle_document : Option String
  pub id_document_expires_on : Option ℕ
  pub licence_document_expires_on : Option ℕ
  pub vehicle_document_expires_on : Option ℕ
  pub is_online : Bool
  pub deliveries_completed : ℕ
  pub deliveries_cancelled : ℕ
  pub rating_average : ℕ
  pub rating_count : ℕ
  pub total_earnings : Option Money

-- `Assignment`
pub record Assignment : Type 0 where
  pub order : ℕ
  pub courier : ℕ
  pub status : DeliveryStatus
  pub courier_fee : Option Money
  pub decline_reason : String
  pub proof_of_delivery : Option String

-- `Order`, of apps/orders/models.py
pub record Order : Type 0 where
  pub restaurant : ℕ
  pub status : OrderStatus
  pub delivery_zone : Option ℕ
  pub delivery_fee : Money
  pub delivery_fee_gross : Option Money

-- The tables, the courses in the order of insertion. What runs in the transaction of a change of an
-- order and writes to the tables of other applications (stock, purchases, the cash that is handed in,
-- points) is there as `attendants`: whether it raises, for the order and its new status.
pub record Fleet : Type 0 where
  pub couriers : ℕ → Option CourierProfile
  pub orders : ℕ → Option Order
  pub assignments : List Assignment
  pub attendants : ℕ → OrderStatus → Result (Unit {0})

abbrev pub in_zones : List ℕ → Option ℕ → Bool
in_zones zones none = false
in_zones zones (some z) = contains z zones

abbrev pub is_empty : List ℕ → Bool
is_empty [] = Bool.true
is_empty (_ ∷ _) = false

-- `serves_zone`
unfoldable pub serves_zone : CourierProfile → Option ℕ → Bool
serves_zone k zone = is_empty k.service_zones || in_zones k.service_zones zone

-- `can_accept_orders`
unfoldable pub can_accept_orders : CourierProfile → Bool
can_accept_orders k = k.is_online && k.verification_status == approved && k.user_is_active

-- `Q(courier=c, status__in=ENGAGED_STATUSES)`
unfoldable pub engaged_by : ℕ → Assignment → Bool
engaged_by c a = a.courier == c && contains a.status engaged_statuses

-- `Q(order=o) & ~Q(status__in=TERMINAL_STATUSES)`
unfoldable pub active_for : ℕ → Assignment → Bool
active_for o a = a.order == o && not (contains a.status terminal_statuses)
