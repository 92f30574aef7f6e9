-- ===== src/Inventory/Writes.antt =====
-- `InventoryService._apply` and `_reprice` of apps/inventory/services.py: the one place where a
-- column of stock moves, and the movement that says why.
use elcorazon_backend.Base.{
  ℕ, String, Bool, false, not, ◌||◌, Option, none, some, ◌∷◌, nat_eq, ◌==◌, update, if◌then◌else◌,
  Result, ok, err, ◌>>=◌, ◌>>◌, raise_if, or_raise, wrong_direction, dimension_mismatch,
  insufficient_stock, integrity_error, rule_violation, does_not_exist,
}
use elcorazon_backend.Base.Int.{ℤ, pos, pos_part, ◌+ℤ◌, ◌-ℤ◌, times, neg, ltb_ℤ, leb_ℤ}
use elcorazon_backend.Base.Rounding.{round_half_up}
use elcorazon_backend.Money.{Money, money, currency_eq}
use elcorazon_backend.Quantities.{Quantity, dimension_eq, is_zero}
use elcorazon_backend.Inventory.Rows.{
  MovementKind, is_reservation, required_sign, StockItem, StockMovement, Db, breaks_check,
}

-- `attendu is not None and (quantity.amount_base > 0) != (attendu > 0)`
unfoldable pub wrong_sign : MovementKind → Quantity → Bool
wrong_sign kind q = elim (required_sign kind) [
  | none ↦ false
  | some up ↦ if ltb_ℤ (pos 0) q.amount_base then not up else up
]

-- The column that a kind of movement moves.
unfoldable pub column : MovementKind → StockItem → ℤ
column kind item = if is_reservation kind then item.reserved else item.on_hand

-- The row that the filter of the update leaves out.
unfoldable pub is_short : MovementKind → Quantity → StockItem → Bool
is_short kind q item =
    if ltb_ℤ q.amount_base (pos 0)
    then ltb_ℤ (column kind item) (neg q.amount_base)
    else if is_reservation kind
    then ltb_ℤ (item.on_hand -ℤ q.amount_base) item.reserved
    else false

-- `update(**{colonne: F(colonne) + delta})`
unfoldable pub moved : MovementKind → Quantity → StockItem → StockItem
moved kind q item =
    if is_reservation kind
    then record item { reserved = item.reserved +ℤ q.amount_base }
    else record item { on_hand = item.on_hand +ℤ q.amount_base }

-- The weighted mean, rounded half up; called where the stock before and after is positive.
unfoldable pub weighted_mean : ℤ → ℤ → ℤ → ℤ → ℕ → ℤ
weighted_mean old before cost entry after =
    round_half_up (times old before +ℤ times cost entry) after

-- `_reprice`, on the row after the movement.
unfoldable pub reprice : Quantity → Option Money → StockItem → Result StockItem
reprice entry none item = ok item
reprice entry (some cost) item =
    let after = item.on_hand in
    let before = after -ℤ entry.amount_base in
    elim item.unit_cost [
      | none ↦ ok (record item { unit_cost = some cost })
      | some old ↦
          if leb_ℤ before (pos 0) || leb_ℤ after (pos 0)
          then ok (record item { unit_cost = some cost })
          else if old.currency == cost.currency
          then ok (record item {
            unit_cost = some (
                money
                  (weighted_mean old.amount_minor before cost.amount_minor entry.amount_base
                    (pos_part after))
                  cost.currency);
          })
          else err rule_violation
    ]

-- The columns of a movement that only say who and why.
pub record Note : Type 0 where
  pub actor : Option ℕ
  pub reason : String
  pub reference : String
  pub request_key : String

-- `unit_cost if unit_cost is not None else item.unit_cost`
abbrev pub cost_or : Option Money → Option Money → Option Money
cost_or none known = known
cost_or (some cost) known = some cost

abbrev pub movement : ℕ → MovementKind → Quantity → Option Money → Note → StockItem → StockMovement
movement pk kind q cost note item = record {
  stock_item = pk;
  kind = kind;
  quantity = q;
  unit_cost = cost_or cost item.unit_cost;
  actor = note.actor;
  reason = note.reason;
  reference = note.reference;
  request_key = note.request_key;
}

-- The guards of `_apply`, the conditional update, the CHECK constraints and the new price.
unfoldable pub moved_row : MovementKind → Quantity → Option Money → StockItem → Result StockItem
moved_row kind q cost item = do
  raise_if (is_zero q) wrong_direction
  raise_if (not (q.dimension == item.ingredient.dimension)) dimension_mismatch
  raise_if (wrong_sign kind q) wrong_direction
  raise_if (is_short kind q item) insufficient_stock
  raise_if (breaks_check (moved kind q item)) integrity_error
  reprice q cost (moved kind q item)

-- `_apply`
unfoldable pub apply :
    ℕ → MovementKind → Quantity → Option Money → Note → Db → Result (Db × StockMovement)
apply pk kind q cost note db = do
  item ← or_raise (db.items pk) does_not_exist
  row ← moved_row kind q cost item
  let m = movement pk kind q cost note row
  ok (record db { items = update db.items pk (some row); journal = m ∷ db.journal }, m)
