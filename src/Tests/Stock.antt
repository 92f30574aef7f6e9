-- ===== src/Tests/Stock.antt =====
-- Runs of apps/inventory/services.py.
use elcorazon_backend.Base.{
  ℕ, ◌≡◌, refl, arith, true, false, Option, none, some, List, [], ◌∷◌, ok, err, value_or,
  integrity_error, insufficient_stock, nat_eq, string_eq, is_blank,
}
use elcorazon_backend.Base.Int.{ℤ, pos, neg, ◌+ℤ◌, ◌-ℤ◌, abs}
use elcorazon_backend.Money.{Money, money, currency_eq, xof, currency_beq}
use elcorazon_backend.Quantities.{Quantity, mass, dimension_eq, dimension_beq, value_minor}
use elcorazon_backend.Inventory.Rows.{
  kind_eq, kind_beq, purchase, waste, Ingredient, Kitchen, StockItem, StockMovement, Db,
  AdjustmentRequest, pending, approved, is_reservation, required_sign, breaks_check, find_movement,
  find_request,
}
use elcorazon_backend.Inventory.Writes.{
  Note, apply, moved_row, moved, column, is_short, wrong_sign, reprice, weighted_mean,
}
use elcorazon_backend.Inventory.Service.{
  open_item, receive, receive_new, replayed_movement, consume, declared_loss, reserve,
}
use elcorazon_backend.Inventory.Declarations.{
  is_person, estimated_value, passes_alone, settle_declaration, replayed_declaration, declare,
  declare_waste, write_request, approve_pending, approve,
}
use elcorazon_backend.Inventory.Consistency.{RowSound}
use elcorazon_backend.Inventory.Operations.{
  Call, opens, receives, consumes, reserves, declares_waste, perform, run, empty, stock_reconciles,
}
use elcorazon_backend.Inventory.Decisions.{approve-four_eyes, approve_twice}
use elcorazon_backend.Inventory.Replay.{receive_twice, loss-integrity}

abbrev flour : Ingredient
flour = record { is_active = true; is_deleted = false; dimension = mass }

abbrev abidjan : Kitchen
abidjan = record { currency = xof; stock_adjustment_ceiling = none }

abbrev grams : ℕ → Quantity
grams n = record { amount_base = pos n; dimension = mass }

abbrev delivery : Note
delivery = record { actor = some 7; reason = ""; reference = "BL-12"; request_key = "k-1" }

abbrev price : Option Money
price = some (money (pos 600) xof)

abbrev morning : List Call
morning =
    opens 1 flour abidjan none
    ∷ receives 1 (grams 1000) price purchase delivery
    ∷ reserves 1 (grams 400) (some 7) "CMD-1"
    ∷ consumes 1 (grams 300) (some 8) "CMD-1" true
    ∷ declares_waste 1 (grams 100) "sac perce" (some 8) "k-2"
    ∷ []

abbrev noon : Db
noon = run morning empty

stock_reconciles_example : RowSound 1 noon.journal (noon.items 1)
stock_reconciles_example = stock_reconciles morning 1

abbrev row_of : Db → Option (ℤ × ℤ)
row_of db = elim (db.items 1) [ none ↦ none | some item ↦ some (item.on_hand, item.reserved) ]

noon_row : row_of noon ≡ some (pos 700, pos 100)
unfolding run perform open_item receive receive_new replayed_movement find_movement consume reserve
    declare_waste declare estimated_value passes_alone settle_declaration replayed_declaration
    find_request apply moved_row moved column is_short wrong_sign reprice weighted_mean
    is_reservation required_sign breaks_check ◌+ℤ◌ ◌-ℤ◌ is_blank currency_beq dimension_beq kind_beq
    value_minor neg abs
noon_row = refl

abbrev loss_request : AdjustmentRequest
loss_request = record {
  stock_item = 1;
  kind = waste;
  quantity = record { amount_base = neg (pos 100); dimension = mass };
  reason = "sac perce";
  estimated_value =
      estimated_value (record { amount_base = neg (pos 100); dimension = mass }) price;
  status = pending;
  requested_by = some 8;
  decided_by = none;
  decision_note = "";
  movement = none;
  request_key = "k-2";
}

abbrev approved_db : Db
approved_db = value_or noon (approve 0 9 "vu" noon)

approve-four_eyes_example :
    (is_person (some 8) 9 ≡ false)
    × ((m : StockMovement) × (approved_db.journal ≡ m ∷ noon.journal)
        × (m.actor ≡ some 8)
        × (m.stock_item ≡ 1)
        × (approved_db.requests 0
            ≡ some (record loss_request {
              status = approved;
              decided_by = some 9;
              decision_note = "vu";
              movement = some m;
            })))
unfolding run perform open_item receive receive_new replayed_movement find_movement consume reserve
    declare_waste declare estimated_value passes_alone settle_declaration replayed_declaration
    find_request apply moved_row moved column is_short wrong_sign reprice weighted_mean
    is_reservation required_sign breaks_check ◌+ℤ◌ ◌-ℤ◌ is_blank currency_beq dimension_beq kind_beq
    value_minor neg abs approve approve_pending write_request declared_loss
approve-four_eyes_example = approve-four_eyes 0 loss_request 9 "vu" noon approved_db refl refl refl

approve_twice_example : approve 0 10 "encore" approved_db ≡ ok approved_db
unfolding run perform open_item receive receive_new replayed_movement find_movement consume reserve
    declare_waste declare estimated_value passes_alone settle_declaration replayed_declaration
    find_request apply moved_row moved column is_short wrong_sign reprice weighted_mean
    is_reservation required_sign breaks_check ◌+ℤ◌ ◌-ℤ◌ is_blank currency_beq dimension_beq kind_beq
    value_minor neg abs approve approve_pending write_request declared_loss
approve_twice_example = approve_twice 0 9 10 "vu" "encore" noon approved_db refl

abbrev open_db : Db
open_db = run (opens 1 flour abidjan none ∷ []) empty

abbrev some_movement : StockMovement
some_movement = record {
  stock_item = 1;
  kind = purchase;
  quantity = grams 1000;
  unit_cost = price;
  actor = some 7;
  reason = "";
  reference = "BL-12";
  request_key = "k-1";
}

abbrev received : Db × StockMovement
received =
    value_or (open_db, some_movement) (receive 1 (grams 1000) price purchase delivery open_db)

receive_twice_example :
    receive 1 (grams 1000) none purchase delivery received.0 ≡ ok (received.0, received.1)
unfolding run perform open_item receive receive_new replayed_movement find_movement consume reserve
    declare_waste declare estimated_value passes_alone settle_declaration replayed_declaration
    find_request apply moved_row moved column is_short wrong_sign reprice weighted_mean
    is_reservation required_sign breaks_check ◌+ℤ◌ ◌-ℤ◌ is_blank currency_beq dimension_beq kind_beq
    value_minor neg abs
receive_twice_example =
    receive_twice 1 (grams 1000) price purchase delivery open_db received.0 received.1 none refl
      refl

abbrev promised_db : Db
promised_db = run (reserves 1 (grams 400) (some 7) "CMD-1" ∷ []) received.0

abbrev promised_row : StockItem
promised_row = record {
  on_hand = pos 1000;
  reserved = pos 400;
  low_stock_threshold = none;
  unit_cost = price;
  ingredient = flour;
  kitchen = abidjan;
}

loss-integrity_example :
    declared_loss 1 (grams 700) "perte" (some 8) promised_db ≡ err integrity_error
unfolding run perform open_item receive receive_new replayed_movement find_movement consume reserve
    declare_waste declare estimated_value passes_alone settle_declaration replayed_declaration
    find_request apply moved_row moved column is_short wrong_sign reprice weighted_mean
    is_reservation required_sign breaks_check ◌+ℤ◌ ◌-ℤ◌ is_blank currency_beq dimension_beq kind_beq
    value_minor neg abs
loss-integrity_example =
    loss-integrity 1 (grams 700) "perte" (some 8) promised_db promised_row refl refl refl
      (ground arith) (ground arith) (ground arith)

-- A loss that nothing on hand covers raises the other error.
loss_short : declared_loss 1 (grams 1100) "perte" (some 8) promised_db ≡ err insufficient_stock
unfolding run perform open_item receive receive_new replayed_movement find_movement consume reserve
    declare_waste declare estimated_value passes_alone settle_declaration replayed_declaration
    find_request apply moved_row moved column is_short wrong_sign reprice weighted_mean
    is_reservation required_sign breaks_check ◌+ℤ◌ ◌-ℤ◌ is_blank currency_beq dimension_beq kind_beq
    value_minor neg abs declared_loss
loss_short = refl
