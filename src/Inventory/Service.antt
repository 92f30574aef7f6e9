-- ===== src/Inventory/Service.antt =====
-- `InventoryService` of apps/inventory/services.py: every way in which stock is written. A call
-- runs in one transaction, so an error leaves the database as it was; the row locks make calls one
-- follow the other.
use elcorazon_backend.Base.{
  ℕ, String, Bool, true, false, not, ◌&&◌, ◌||◌, Option, none, some, nat_eq, string_eq, ◌==◌,
  update, is_blank, if◌then◌else◌, Result, ok, err, ◌>>=◌, ◌>>◌, raise_if, or_raise,
  wrong_direction, dimension_mismatch, inactive_ingredient, motive_required, idempotency_key_reused,
  does_not_exist, rule_violation,
}
use elcorazon_backend.Base.Int.{pos, beq_ℤ}
use elcorazon_backend.Money.{Money, currency_eq}
use elcorazon_backend.Quantities.{Quantity, dimension_eq, negate, abs_quantity}
use elcorazon_backend.Inventory.Rows.{
  MovementKind, kind_eq, purchase, receipt, consumption, waste, adjustment, transfer, reservation,
  release, Ingredient, Kitchen, StockItem, StockMovement, Db, find_movement,
}
use elcorazon_backend.Inventory.Writes.{Note, apply}

abbrev pub no_key : String
no_key = ""

abbrev is_retired : Ingredient → Bool
is_retired i = not i.is_active || i.is_deleted

abbrev threshold_mismatch : Option Quantity → Ingredient → Bool
threshold_mismatch none i = false
threshold_mismatch (some t) i = not (t.dimension == i.dimension)

abbrev pub new_item : Option Quantity → Ingredient → Kitchen → StockItem
new_item threshold i k = record {
  on_hand = pos 0;
  reserved = pos 0;
  low_stock_threshold = threshold;
  unit_cost = none;
  ingredient = i;
  kitchen = k;
}

-- `get_or_create`, then the threshold of a row that was there.
abbrev pub opened : Option Quantity → Ingredient → Kitchen → Option StockItem → StockItem
opened threshold i k none = new_item threshold i k
opened none i k (some item) = item
opened (some t) i k (some item) = record item { low_stock_threshold = some t }

unfoldable pub open_item : ℕ → Ingredient → Kitchen → Option Quantity → Db → Result Db
open_item pk i k threshold db = do
  raise_if (is_retired i) inactive_ingredient
  raise_if (threshold_mismatch threshold i) dimension_mismatch
  ok (record db { items = update db.items pk (some (opened threshold i k (db.items pk))) })

-- `_rejeu_mouvement`, on the movement that was found.
abbrev same_movement : StockMovement → ℕ → MovementKind → Quantity → Bool
same_movement m pk kind q =
    m.stock_item == pk
    && m.kind == kind
    && beq_ℤ m.quantity.amount_base q.amount_base
    && m.quantity.dimension == q.dimension

unfoldable pub replayed_movement :
    String → ℕ → MovementKind → Quantity → Db → Result (Option StockMovement)
replayed_movement key pk kind q db = elim (find_movement key db.journal) [
  | none ↦ ok none
  | some m ↦ if same_movement m pk kind q then ok (some m) else err idempotency_key_reused
]

abbrev is_entry : MovementKind → Bool
is_entry purchase = true
is_entry receipt = true
is_entry transfer = true
is_entry _ = false

abbrev foreign_cost : Option Money → Kitchen → Bool
foreign_cost none k = false
foreign_cost (some cost) k = not (cost.currency == k.currency)

-- `receive`, once no earlier movement with its key is found.
unfoldable pub receive_new :
    ℕ → Quantity → Option Money → MovementKind → Note → StockItem → Db → Result (Db × StockMovement)
receive_new pk q cost kind note item db = do
  raise_if (is_retired item.ingredient) inactive_ingredient
  raise_if (foreign_cost cost item.kitchen) rule_violation
  apply pk kind q cost note db

unfoldable pub receive :
    ℕ → Quantity → Option Money → MovementKind → Note → Db → Result (Db × StockMovement)
receive pk q cost kind note db = do
  raise_if (not (is_entry kind)) wrong_direction
  item ← or_raise (db.items pk) does_not_exist
  earlier ←
      (if note.request_key == no_key
        then ok none
        else replayed_movement note.request_key pk kind q db)
  elim earlier [ none ↦ receive_new pk q cost kind note item db | some m ↦ ok (db, m) ]

abbrev pub note_of : Option ℕ → String → String → Note
note_of actor reason reference = record {
  actor = actor;
  reason = reason;
  reference = reference;
  request_key = no_key;
}

-- `consume`
unfoldable pub consume : ℕ → Quantity → Option ℕ → String → Bool → Db → Result (Db × StockMovement)
consume pk q actor reference from_reservation db =
    let out = negate (abs_quantity q) in
    let note = note_of actor "" reference in
    if from_reservation
    then (do (db', _) ← apply pk release out none note db; apply pk consumption out none note db')
    else apply pk consumption out none note db

-- `waste`; `declared_loss` is its name here, since `waste` is a kind of movement.
unfoldable pub declared_loss : ℕ → Quantity → String → Option ℕ → Db → Result (Db × StockMovement)
declared_loss pk q reason actor db = do
  raise_if (is_blank reason) motive_required
  apply pk waste (negate (abs_quantity q)) none (note_of actor reason "") db

-- `adjust`
unfoldable pub adjust : ℕ → Quantity → String → Option ℕ → Db → Result (Db × StockMovement)
adjust pk delta reason actor db = do
  raise_if (is_blank reason) motive_required
  apply pk adjustment delta none (note_of actor reason "") db

-- `reserve`
unfoldable pub reserve : ℕ → Quantity → Option ℕ → String → Db → Result (Db × StockMovement)
reserve pk q actor reference db =
    apply pk reservation (abs_quantity q) none (note_of actor "" reference) db

-- `release`; `free` is its name here.
unfoldable pub free : ℕ → Quantity → Option ℕ → String → Db → Result (Db × StockMovement)
free pk q actor reference db =
    apply pk release (negate (abs_quantity q)) none (note_of actor "" reference) db
