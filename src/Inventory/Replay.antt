-- ===== src/Inventory/Replay.antt =====
-- Deliveries of stock that are sent twice, and the stock that is left to promise:
-- apps/inventory/services.py.
use elcorazon_backend.Base.{
  ℕ, ◌≡◌, ◌⊎◌, refl, inl, inr, String, true, false, Option, none, some, List, ◌∷◌, nat_eq,
  string_eq, ◌==◌, eq_self, ok, err, or_raise, >>=-eq-ok, or_raise-eq-ok, arith, Option-cases,
  integrity_error, is_blank, does_not_exist,
}
use elcorazon_backend.Base.Int.{pos, ◌-ℤ◌, ◌<ℤ◌, ◌≤ℤ◌, int_laws, beq_ℤ, beq_ℤ_iff}
use elcorazon_backend.Money.{Money}
use elcorazon_backend.Quantities.{Quantity, dimension_eq, abs_quantity, negate}
use elcorazon_backend.Inventory.Rows.{
  MovementKind, kind_eq, StockItem, StockMovement, Db, find_movement, consumption, release, waste,
  is_reservation, required_sign, breaks_check,
}
use elcorazon_backend.Inventory.Writes.{Note, column, apply, moved, moved_row, is_short, wrong_sign}
use elcorazon_backend.Inventory.Service.{
  receive, receive_new, no_key, replayed_movement, consume, declared_loss,
}
use elcorazon_backend.Inventory.Decisions.{apply_journal}
use elcorazon_backend.Inventory.Consistency.{moved_row_lem}

-- The row that a write replaces.
apply-row :
    (pk : ℕ) (kind : MovementKind) (q : Quantity) (cost : Option Money) (note : Note) (db db' : Db)
    (m : StockMovement)
    → apply pk kind q cost note db ≡ ok (db', m)
    → (item row : StockItem) × (db.items pk ≡ some item)
      × (moved_row kind q cost item ≡ ok row)
      × (db'.items pk ≡ some row)
unfolding apply
apply-row pk kind q cost note db db' m h =
    let (item, found, h1) = >>=-eq-ok (or_raise (db.items pk) does_not_exist) _ h in
    let (row, moved_it, h2) = >>=-eq-ok (moved_row kind q cost item) _ h1 in
    (item, row, or_raise-eq-ok _ _ found, moved_it, ground arith)

module _ (pk : ℕ) (q : Quantity) (cost : Option Money) (kind : MovementKind) (note : Note) where
  receive-ok :
      (db db' : Db) (m : StockMovement)
      → (note.request_key == no_key) ≡ false
      → receive pk q cost kind note db ≡ ok (db', m)
      → ((db' ≡ db) × (replayed_movement note.request_key pk kind q db ≡ ok (some m)))
        ⊎ (apply pk kind q cost note db ≡ ok (db', m))
  unfolding receive receive_new
  receive-ok db db' m keyed h = elim (Option-cases (db.items pk)) [
    | inl missing ↦ ground arith
    | inr (item, found) ↦ ground arith
  ]

  replayed_own :
      (db : Db) (m : StockMovement) (old : List StockMovement)
      → db.journal ≡ m ∷ old
      → (m.stock_item ≡ pk)
      → (m.quantity ≡ q)
      → (m.kind ≡ kind)
      → (m.request_key ≡ note.request_key)
      → replayed_movement note.request_key pk kind q db ≡ ok (some m)
  unfolding replayed_movement find_movement
  replayed_own db m old front row amount kd key =
      let same_key : (m.request_key == note.request_key) ≡ true =
        ground (arith, eq_self note.request_key) in
      let same_row : (m.stock_item == pk) ≡ true = ground (arith, eq_self pk) in
      let same_kind : (m.kind == kind) ≡ true = ground (arith, eq_self kind) in
      let same_amount : beq_ℤ m.quantity.amount_base q.amount_base ≡ true =
        (beq_ℤ_iff m.quantity.amount_base q.amount_base).1 (rw amount refl) in
      let same_dim : (m.quantity.dimension == q.dimension) ≡ true =
        ground (arith, eq_self q.dimension) in
      ground arith

  -- A delivery with a request key that was received can be sent again, at any announced cost: the
  -- second call answers with the movement of the first and leaves the database as the first did.
  pub receive_twice :
      (db db' : Db) (m : StockMovement) (other : Option Money)
      → (note.request_key == no_key) ≡ false
      → receive pk q cost kind note db ≡ ok (db', m)
      → receive pk q other kind note db' ≡ ok (db', m)
  unfolding receive
  receive_twice db db' m other keyed h = elim (receive-ok db db' m keyed h) [
    | inl (same, replay) ↦ rw same (ground arith)
    | inr wrote ↦
        let (front, _, _, row, amount, kd, key) =
          apply_journal pk kind q cost note db db' m wrote in
        let replay = replayed_own db' m db.journal front row amount kd key in
        let (item, next, found, moved_it, here) = apply-row pk kind q cost note db db' m wrote in
        ground arith
  ]

released :
    (q : Quantity) (item mid row : StockItem)
    → (mid.on_hand ≡ (moved release q item).on_hand)
      × (mid.reserved ≡ (moved release q item).reserved)
      × (breaks_check (moved release q item) ≡ false)
    → (row.on_hand ≡ (moved consumption q mid).on_hand)
      × (row.reserved ≡ (moved consumption q mid).reserved)
      × (breaks_check (moved consumption q mid) ≡ false)
    → row.on_hand -ℤ row.reserved ≡ item.on_hand -ℤ item.reserved
unfolding moved is_reservation
released q item mid row a b = grind int_laws

-- Taking from a reservation what it holds leaves what is left to promise, the stock on hand less the
-- stock reserved, as it was, on the row that is taken from.
consume-available :
    (pk : ℕ) (q : Quantity) (actor : Option ℕ) (reference : String) (db db' : Db)
    (m : StockMovement) (item : StockItem)
    → db.items pk ≡ some item
    → consume pk q actor reference true db ≡ ok (db', m)
    → (row : StockItem) × (db'.items pk ≡ some row)
      × (row.on_hand -ℤ row.reserved ≡ item.on_hand -ℤ item.reserved)
unfolding consume
consume-available pk q actor reference db db' m item found h =
    let ((mid, m1), freed, taken) = >>=-eq-ok (apply pk release _ none _ db) _ h in
    let (i1, r1, found1, move1, here1) = apply-row _ _ _ _ _ _ _ _ freed in
    let (i2, r2, found2, move2, here2) = apply-row _ _ _ _ _ _ _ _ taken in
    let a = moved_row_lem release (negate (abs_quantity q)) none i1 move1 in
    let b = moved_row_lem consumption (negate (abs_quantity q)) none i2 move2 in
    let first : i1 ≡ item = ground arith in
    let second : i2 ≡ r1 = ground arith in
    (r2, here2, rw (← first) (released _ i1 r1 r2 a (rw (← second) b)))

-- A loss of a motive that is not blank, of a positive quantity of the ingredient's own dimension
-- that the stock on hand covers but for the stock reserved, is refused by the CHECK constraint.
pub loss-integrity :
    (pk : ℕ) (q : Quantity) (reason : String) (actor : Option ℕ) (db : Db) (item : StockItem)
    → db.items pk ≡ some item
    → is_blank reason ≡ false
    → q.dimension ≡ item.ingredient.dimension
    → pos 0 <ℤ q.amount_base
    → q.amount_base ≤ℤ item.on_hand
    → item.on_hand -ℤ q.amount_base <ℤ item.reserved
    → declared_loss pk q reason actor db ≡ err integrity_error
unfolding declared_loss apply moved_row wrong_sign is_short column required_sign is_reservation
    moved breaks_check
loss-integrity pk q reason actor db item found said same some_of covers promised =
    rw (found, said, refused) refl
  where
    taken : Quantity
    taken = negate (abs_quantity q)

    refused : moved_row waste taken none item ≡ err integrity_error
    refused =
        let dim : (q.dimension == item.ingredient.dimension) ≡ true =
          ground (arith, eq_self q.dimension) in
        grind int_laws
