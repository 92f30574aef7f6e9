-- ===== src/Inventory/Consistency.antt =====
-- When the rows and the journal of apps/inventory/services.py agree, and one write of `_apply`.
use elcorazon_backend.Base.{
  ℕ, ◌≡◌, ap, inl, inr, Bool, true, false, Option, none, some, List, [], ◌∷◌, nat_eq, ◌==◌,
  nat_beq_iff, Bool-cases, if◌then◌else◌, ok, >>=-eq-ok, or_raise-eq-ok, or_raise, does_not_exist,
  arith, ok-injective,
}
use elcorazon_backend.Base.Int.{ℤ, pos, ◌+ℤ◌, ◌≤ℤ◌, int_laws}
use elcorazon_backend.Money.{Money}
use elcorazon_backend.Quantities.{Quantity}
use elcorazon_backend.Inventory.Rows.{
  MovementKind, is_reservation, StockItem, StockMovement, Db, breaks_check,
}
use elcorazon_backend.Inventory.Writes.{Note, moved, moved_row, movement, reprice, apply}

-- What a movement adds to the column `on_hand` (`reserving` false) or `reserved` (true) of `pk`.
abbrev pub effect : Bool → ℕ → StockMovement → ℤ
effect reserving pk m =
    if m.stock_item == pk
    then (if is_reservation m.kind
        then if reserving then m.quantity.amount_base else pos 0
        else if reserving
        then pos 0
        else m.quantity.amount_base)
    else pos 0

-- The reconciliation of the source: the sum of the movements of a column.
unfoldable pub journal_sum : Bool → ℕ → List StockMovement → ℤ
journal_sum reserving pk [] = pos 0
journal_sum reserving pk (m ∷ journal) = effect reserving pk m +ℤ journal_sum reserving pk journal

pub record IsSound (pk : ℕ) (journal : List StockMovement) (item : StockItem) : Type 0 where
  pub reserved_positive : pos 0 ≤ℤ item.reserved
  pub within : item.reserved ≤ℤ item.on_hand
  pub on_hand_sum : item.on_hand ≡ journal_sum false pk journal
  pub reserved_sum : item.reserved ≡ journal_sum true pk journal

-- A row that is not there has no movement.
abbrev pub RowSound : ℕ → List StockMovement → Option StockItem → Type 0
RowSound pk journal none =
    (journal_sum false pk journal ≡ pos 0) × (journal_sum true pk journal ≡ pos 0)
RowSound pk journal (some item) = IsSound pk journal item

abbrev pub IsConsistent : Db → Type 0
IsConsistent db = (pk : ℕ) → RowSound pk db.journal (db.items pk)

-- Pricing a row leaves its columns alone.
reprice_columns :
    (q : Quantity) (cost : Option Money) (item row : StockItem)
    → reprice q cost item ≡ ok row
    → (row.on_hand ≡ item.on_hand) × (row.reserved ≡ item.reserved)
unfolding reprice
reprice_columns q none item row h = ground arith
reprice_columns q (some cost) item row h = ground arith

-- A write that succeeds has moved one column by the quantity, and passed the constraints.
pub moved_row_lem :
    (kind : MovementKind) (q : Quantity) (cost : Option Money) (item : StockItem) {row : StockItem}
    → moved_row kind q cost item ≡ ok row
    → (row.on_hand ≡ (moved kind q item).on_hand)
      × (row.reserved ≡ (moved kind q item).reserved)
      × (breaks_check (moved kind q item) ≡ false)
unfolding moved_row
moved_row_lem kind q cost item {row} h =
    ground (arith, reprice_columns q cost (moved kind q item) row)

-- The row after a write agrees with the journal after it.
moved_row-IsSound :
    (pk : ℕ) (kind : MovementKind) (q : Quantity) (cost : Option Money) (note : Note)
    (journal : List StockMovement) (item : StockItem) {row : StockItem}
    → IsSound pk journal item
    → moved_row kind q cost item ≡ ok row
    → IsSound pk (movement pk kind q cost note row ∷ journal) row
unfolding moved breaks_check journal_sum
moved_row-IsSound pk kind q cost note journal item s h =
    let (on_hand, reserved, fine) = moved_row_lem kind q cost item h in
    grind (int_laws, nat_beq_iff)

-- The rows of another number do not see the movement.
RowSound-other :
    (pk : ℕ) (m : StockMovement) (journal : List StockMovement) (row : Option StockItem)
    → (m.stock_item == pk) ≡ false
    → RowSound pk journal row
    → RowSound pk (m ∷ journal) row
unfolding journal_sum
RowSound-other pk m journal none h (on_hand, reserved) = grind int_laws
RowSound-other pk m journal (some item) h s = grind int_laws

-- A movement in `apply` keeps the whole database consistent.
pub apply-IsConsistent :
    (pk : ℕ) (kind : MovementKind) (q : Quantity) (cost : Option Money) (note : Note) (db db' : Db)
    (m : StockMovement)
    → IsConsistent db
    → apply pk kind q cost note db ≡ ok (db', m)
    → IsConsistent db'
unfolding apply
apply-IsConsistent pk kind q cost note db db' m sound h j =
    let (item, found, h1) = >>=-eq-ok (or_raise (db.items pk) does_not_exist) _ h in
    let (row, moved_it, h2) = >>=-eq-ok (moved_row kind q cost item) _ h1 in
    let row_sound : IsSound pk db.journal item = rw (or_raise-eq-ok _ _ found) at (sound pk) in
    let new = movement pk kind q cost note row in
    let here = moved_row-IsSound pk kind q cost note db.journal item row_sound moved_it in
    rw (← ap (λ (r : Db × StockMovement). r.0) (ok-injective h2)) (elim (Bool-cases (j == pk)) [
      | inl same ↦ rw (same, (nat_beq_iff j pk).0 same) here
      | inr other ↦
          rw other (RowSound-other j new db.journal (db.items j) (flip j pk other) (sound j))
    ])
  where
    flip : (a b : ℕ) → (a == b) ≡ false → (b == a) ≡ false
    flip a b h = ground arith
