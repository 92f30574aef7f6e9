-- ===== src/Inventory/Declarations.antt =====
-- Losses and corrections of apps/inventory/services.py: declared, then written at once or left for
-- a second person, who approves or rejects.
use elcorazon_backend.Base.{
  ℕ, ◌+◌, String, Bool, false, not, ◌&&◌, Option, none, some, nat_eq, string_eq, ◌==◌, update,
  is_blank, if◌then◌else◌, Result, ok, err, ◌>>=◌, ◌>>◌, raise_if, or_raise, wrong_direction,
  dimension_mismatch, motive_required, insufficient_stock, idempotency_key_reused, does_not_exist,
  four_eyes_required, decision_already_taken,
}
use elcorazon_backend.Base.Int.{abs, neg, ltb_ℤ, leb_ℤ, beq_ℤ}
use elcorazon_backend.Money.{Money, money, currency_eq}
use elcorazon_backend.Quantities.{
  Quantity, dimension_eq, negate, abs_quantity, is_zero, is_negative, value_minor,
}
use elcorazon_backend.Inventory.Rows.{
  MovementKind, kind_eq, waste, adjustment, StockItem, StockMovement, pending, approved, rejected,
  AdjustmentRequest, Db, find_request,
}
use elcorazon_backend.Inventory.Writes.{apply}
use elcorazon_backend.Inventory.Service.{no_key, replayed_movement, declared_loss, adjust}

-- `Declaration`: a movement that is written, or a request that waits.
pub data Declaration : Type 0 where
  written : StockMovement → Declaration
  waiting : AdjustmentRequest → Declaration

abbrev same_request : AdjustmentRequest → ℕ → MovementKind → Quantity → Bool
same_request r pk kind q =
    r.stock_item == pk
    && r.kind == kind
    && beq_ℤ r.quantity.amount_base q.amount_base
    && r.quantity.dimension == q.dimension

-- `_rejeu_declaration`
unfoldable pub replayed_declaration :
    String → ℕ → MovementKind → Quantity → Db → Result (Option Declaration)
replayed_declaration key pk kind q db = do
  m ← replayed_movement key pk kind q db
  elim m [
    | some found ↦ ok (some (written found))
    | none ↦ elim (find_request key db.requests db.next_request) [
      | none ↦ ok none
      | some r ↦
          if same_request r pk kind q then ok (some (waiting r)) else err idempotency_key_reused
    ]
  ]

-- `valeur`: the value of the loss at the cost of the row, when it is known.
unfoldable pub estimated_value : Quantity → Option Money → Option Money
estimated_value q none = none
estimated_value q (some cost) = some (money (abs (value_minor q cost.amount_minor)) cost.currency)

-- `passe_seule`
unfoldable pub passes_alone : Option Money → Option Money → Bool
passes_alone none ceiling = false
passes_alone (some v) none = false
passes_alone (some v) (some c) = v.currency == c.currency && leb_ℤ v.amount_minor c.amount_minor

abbrev request_for :
    ℕ → MovementKind → Quantity → String → Option Money → Option ℕ → String → AdjustmentRequest
request_for pk kind q reason value actor key = record {
  stock_item = pk;
  kind = kind;
  quantity = q;
  reason = reason;
  estimated_value = value;
  status = pending;
  requested_by = actor;
  decided_by = none;
  decision_note = "";
  movement = none;
  request_key = key;
}

-- The end of `_declare`: the ceiling decides.
unfoldable pub settle_declaration :
    ℕ
    → MovementKind
    → Quantity
    → String
    → Option ℕ
    → String
    → StockItem
    → Db
    → Result (Db × Declaration)
settle_declaration pk kind q reason actor key item db =
    let value = estimated_value q item.unit_cost in
    if passes_alone value item.kitchen.stock_adjustment_ceiling
    then (do
      (db', m) ←
          apply pk kind q none
            (record { actor = actor; reason = reason; reference = ""; request_key = key }) db
      ok (db', written m))
    else (let r = request_for pk kind q reason value actor key in
        ok (
          record db {
            requests = update db.requests db.next_request (some r);
            next_request = db.next_request + 1;
          },
          waiting r,
        ))

-- `_declare`
unfoldable pub declare :
    ℕ → MovementKind → Quantity → String → Option ℕ → String → Db → Result (Db × Declaration)
declare pk kind q reason actor key db = do
  raise_if (is_blank reason) motive_required
  raise_if (is_zero q) wrong_direction
  item ← or_raise (db.items pk) does_not_exist
  raise_if (not (q.dimension == item.ingredient.dimension)) dimension_mismatch
  earlier ← (if key == no_key then ok none else replayed_declaration key pk kind q db)
  elim earlier [
    | some d ↦ ok (db, d)
    | none ↦ do
      raise_if (is_negative q && ltb_ℤ item.on_hand (neg q.amount_base)) insufficient_stock
      settle_declaration pk kind q reason actor key item db
  ]

-- `declare_waste`, `declare_adjustment`
unfoldable pub declare_waste :
    ℕ → Quantity → String → Option ℕ → String → Db → Result (Db × Declaration)
declare_waste pk q reason actor key db =
    declare pk waste (negate (abs_quantity q)) reason actor key db

unfoldable pub declare_adjustment :
    ℕ → Quantity → String → Option ℕ → String → Db → Result (Db × Declaration)
declare_adjustment pk delta reason actor key db = declare pk adjustment delta reason actor key db

-- `verrouillee.requested_by_id == actor.pk`
abbrev pub is_person : Option ℕ → ℕ → Bool
is_person none actor = false
is_person (some p) actor = p == actor

-- The movement of an approved request: `waste` or `adjust`.
unfoldable pub write_request : AdjustmentRequest → Db → Result (Db × StockMovement)
write_request r db =
    if r.kind == waste
    then declared_loss r.stock_item r.quantity r.reason r.requested_by db
    else adjust r.stock_item r.quantity r.reason r.requested_by db

-- `approve`, of the request number `n`, by the person `actor`.
unfoldable pub approve_pending : ℕ → AdjustmentRequest → ℕ → String → Db → Result Db
approve_pending n r actor note db = do
  raise_if (is_person r.requested_by actor) four_eyes_required
  (db', m) ← write_request r db
  ok (record db' {
    requests = update db'.requests n (
        some (record r {
          status = approved;
          decided_by = some actor;
          decision_note = note;
          movement = some m;
        }));
  })

unfoldable pub approve : ℕ → ℕ → String → Db → Result Db
approve n actor note db = do
  r ← or_raise (db.requests n) does_not_exist
  elim r.status [
    | approved ↦ ok db
    | rejected ↦ err decision_already_taken
    | pending ↦ approve_pending n r actor note db
  ]

-- `reject`
unfoldable pub reject : ℕ → ℕ → String → Db → Result Db
reject n actor note db = do
  raise_if (is_blank note) motive_required
  r ← or_raise (db.requests n) does_not_exist
  elim r.status [
    | rejected ↦ ok db
    | approved ↦ err decision_already_taken
    | pending ↦ do
      raise_if (is_person r.requested_by actor) four_eyes_required
      ok (record db {
        requests =
            update db.requests n (
              some (record r { status = rejected; decided_by = some actor; decision_note = note }));
      })
  ]
