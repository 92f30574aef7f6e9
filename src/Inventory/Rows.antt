-- ===== src/Inventory/Rows.antt =====
-- apps/inventory/models.py: the rows that apps/inventory/services.py reads and writes. A row of
-- stock is known by a number that stands for its pair of kitchen and ingredient, which the database
-- keeps unique; the read-only columns of those two tables are fields of the row. Persons are
-- numbers, dates and labels are left out. The journal and the requests are newest first.
use elcorazon_backend.Base.{
  ℕ, zero, suc, ◌≡◌, ◌↔◌, refl, String, Bool, true, false, ◌||◌, Option, none, some, List, [], ◌∷◌,
  Eq, nat_eq, string_eq, ◌==◌, nat_beq, code_beq_iff, if◌then◌else◌,
}
use elcorazon_backend.Base.Int.{ℤ, pos, ltb_ℤ}
use elcorazon_backend.Money.{Money, Currency}
use elcorazon_backend.Quantities.{Quantity, Dimension}

-- `MovementKind`
pub data MovementKind : Type 0 where
  purchase receipt consumption waste adjustment transfer reservation release : MovementKind

abbrev kind_code : MovementKind → ℕ
kind_code purchase = 0
kind_code receipt = 1
kind_code consumption = 2
kind_code waste = 3
kind_code adjustment = 4
kind_code transfer = 5
kind_code reservation = 6
kind_code release = 7

kind_decode : ℕ → MovementKind
kind_decode zero = purchase
kind_decode (suc zero) = receipt
kind_decode (suc (suc zero)) = consumption
kind_decode (suc (suc (suc zero))) = waste
kind_decode (suc (suc (suc (suc zero)))) = adjustment
kind_decode (suc (suc (suc (suc (suc zero))))) = transfer
kind_decode (suc (suc (suc (suc (suc (suc zero)))))) = reservation
kind_decode _ = release

kind_decode-code : (k : MovementKind) → kind_decode (kind_code k) ≡ k
unfolding kind_decode
kind_decode-code purchase = refl
kind_decode-code _ = refl

unfoldable pub kind_beq : MovementKind → MovementKind → Bool
kind_beq a b = nat_beq (kind_code a) (kind_code b)

pub kind_beq_iff : (a b : MovementKind) → (kind_beq a b ≡ true) ↔ (a ≡ b)
unfolding kind_beq
kind_beq_iff = code_beq_iff kind_code kind_decode kind_decode-code

instance abbrev pub kind_eq : Eq MovementKind
kind_eq = record { beq = kind_beq; beq_iff = kind_beq_iff }

-- `RESERVATION_KINDS`
unfoldable pub is_reservation : MovementKind → Bool
is_reservation reservation = true
is_reservation release = true
is_reservation _ = false

-- `REQUIRED_SIGN`: `some true` for +1, `some false` for -1.
unfoldable pub required_sign : MovementKind → Option Bool
required_sign purchase = some true
required_sign receipt = some true
required_sign consumption = some false
required_sign waste = some false
required_sign adjustment = none
required_sign transfer = none
required_sign reservation = some true
required_sign release = some false

pub record Ingredient : Type 0 where
  pub is_active : Bool
  pub is_deleted : Bool
  pub dimension : Dimension

pub record Kitchen : Type 0 where
  pub currency : Currency
  pub stock_adjustment_ceiling : Option Money

-- `StockItem`; its quantities have the dimension of the ingredient.
pub record StockItem : Type 0 where
  pub on_hand : ℤ
  pub reserved : ℤ
  pub low_stock_threshold : Option Quantity
  pub unit_cost : Option Money
  pub ingredient : Ingredient
  pub kitchen : Kitchen

-- `StockMovement`
pub record StockMovement : Type 0 where
  pub stock_item : ℕ
  pub kind : MovementKind
  pub quantity : Quantity
  pub unit_cost : Option Money
  pub actor : Option ℕ
  pub reason : String
  pub reference : String
  pub request_key : String

-- `AdjustmentStatus`
pub data AdjustmentStatus : Type 0 where
  pending approved rejected : AdjustmentStatus

-- `AdjustmentRequest`; `movement` is the movement that the approval wrote.
pub record AdjustmentRequest : Type 0 where
  pub stock_item : ℕ
  pub kind : MovementKind
  pub quantity : Quantity
  pub reason : String
  pub estimated_value : Option Money
  pub status : AdjustmentStatus
  pub requested_by : Option ℕ
  pub decided_by : Option ℕ
  pub decision_note : String
  pub movement : Option StockMovement
  pub request_key : String

pub record Db : Type 0 where
  pub items : ℕ → Option StockItem
  pub journal : List StockMovement
  pub requests : ℕ → Option AdjustmentRequest
  pub next_request : ℕ

-- The CHECK constraints of the table: `stock_item_on_hand_not_negative`,
-- `stock_item_reserved_not_negative` and `stock_item_reserved_within_on_hand`.
unfoldable pub breaks_check : StockItem → Bool
breaks_check item =
    ltb_ℤ item.on_hand (pos 0) || ltb_ℤ item.reserved (pos 0) || ltb_ℤ item.on_hand item.reserved

-- `StockMovement.objects.filter(request_key=...).first()`
unfoldable pub find_movement : String → List StockMovement → Option StockMovement
find_movement key [] = none
find_movement key (m ∷ journal) = if m.request_key == key then some m else find_movement key journal

-- `AdjustmentRequest.objects.filter(request_key=...).first()`, among the first `n` requests.
unfoldable pub find_request : String → (ℕ → Option AdjustmentRequest) → ℕ → Option AdjustmentRequest
find_request key table zero = none
find_request key table (suc n) =
    let rest = find_request key table n in
    elim (table n) [ none ↦ rest | some r ↦ if r.request_key == key then some r else rest ]
