-- ===== src/Inventory/After.antt =====
-- The rows and the journal after each operation of apps/inventory/services.py.
use elcorazon_backend.Base.{
  ℕ, ◌≡◌, ◌⊎◌, refl, String, Option, none, some, nat_eq, nat_beq_iff, string_eq, ◌==◌, Error,
  Result, ok, err, ◌>>=◌, update, arith, Bool-cases, Option-cases, ok-injective, inl, inr,
}
use elcorazon_backend.Money.{Money}
use elcorazon_backend.Quantities.{Quantity, negate, abs_quantity, dimension_eq}
use elcorazon_backend.Inventory.Rows.{
  MovementKind, kind_eq, waste, adjustment, Ingredient, Kitchen, StockItem, StockMovement,
  AdjustmentRequest, Db,
}
use elcorazon_backend.Inventory.Writes.{Note, apply}
use elcorazon_backend.Inventory.Service.{
  note_of, opened, open_item, receive_new, receive, declared_loss, adjust,
}
use elcorazon_backend.Inventory.Declarations.{
  Declaration, is_person, passes_alone, estimated_value, settle_declaration, declare, write_request,
  approve_pending, approve, reject,
}
use elcorazon_backend.Inventory.Consistency.{IsSound, RowSound, IsConsistent, apply-IsConsistent}

-- A call that ends well leaves a consistent database, which `view` reads from its result.
pub record After {A : Type 0} (view : A → Db) (r : Result A) : Type 0 where
  pub at : (a : A) → r ≡ ok a → IsConsistent (view a)

module _ {A : Type 0} {view : A → Db} where
  pub After-ok : (a : A) → IsConsistent (view a) → After view (ok a)
  After-ok a h = record { at = λ b e. rw (← ok-injective e) h }

  pub After-err : (x : Error) → After view (err x)
  After-err x = record { at = λ b e. cc }

module _ {A B : Type 0} {view : A → Db} {first : B → Db} where
  pub After-bind :
      (r : Result B) (k : B → Result A)
      → After first r
      → ((b : B) → IsConsistent (first b) → After view (k b))
      → After view (r >>= k)
  After-bind (ok b) k hr h = h b (hr.at b refl)
  After-bind (err x) k hr h = After-err x

abbrev pub db_of {ℓ} : {A : Type ℓ} → Db × A → Db
db_of r = r.0

module _ (db : Db) (sound : IsConsistent db) where
  pub apply-After :
      (pk : ℕ) (kind : MovementKind) (q : Quantity) (cost : Option Money) (note : Note)
      → After db_of (apply pk kind q cost note db)
  apply-After pk kind q cost note = record {
    at = λ (db', m) e. apply-IsConsistent pk kind q cost note db db' m sound e;
  }

  pub receive-After :
      (pk : ℕ) (q : Quantity) (cost : Option Money) (kind : MovementKind) (note : Note)
      → After db_of (receive pk q cost kind note db)
  unfolding receive receive_new
  receive-After pk q cost kind note = record { at = λ r e. finish r (ground arith) }
    where
      finish :
          (r : Db × StockMovement)
          → (r.0 ≡ db) ⊎ (apply pk kind q cost note db ≡ ok r)
          → IsConsistent r.0
      finish r (inl same) = rw same sound
      finish r (inr e) = (apply-After pk kind q cost note).at r e

  pub loss-After :
      (pk : ℕ) (q : Quantity) (reason : String) (actor : Option ℕ)
      → After db_of (declared_loss pk q reason actor db)
  unfolding declared_loss
  loss-After pk q reason actor = record {
    at = λ r e.
        (apply-After pk waste (negate (abs_quantity q)) none (note_of actor reason "")).at r
          (ground arith);
  }

  pub adjust-After :
      (pk : ℕ) (q : Quantity) (reason : String) (actor : Option ℕ)
      → After db_of (adjust pk q reason actor db)
  unfolding adjust
  adjust-After pk q reason actor = record {
    at = λ r e. (apply-After pk adjustment q none (note_of actor reason "")).at r (ground arith);
  }

  pub settle-After :
      (pk : ℕ) (kind : MovementKind) (q : Quantity) (reason : String) (actor : Option ℕ)
      (key : String) (item : StockItem)
      → After db_of (settle_declaration pk kind q reason actor key item db)
  unfolding settle_declaration
  settle-After pk kind q reason actor key item =
      elim (Bool-cases
        (passes_alone (estimated_value q item.unit_cost) item.kitchen.stock_adjustment_ceiling)) [
          | inl alone ↦
              rw alone (After-bind _ _ (apply-After pk kind q none _) (λ r s. After-ok _ s))
          | inr waits ↦ rw waits (After-ok _ sound)
        ]

  pub declare-After :
      (pk : ℕ) (kind : MovementKind) (q : Quantity) (reason : String) (actor : Option ℕ)
      (key : String)
      → After db_of (declare pk kind q reason actor key db)
  unfolding declare
  declare-After pk kind q reason actor key = record {
    at = λ r e. elim (Option-cases (db.items pk)) [
      | inl missing ↦ ground arith
      | inr (item, found) ↦ finish r item (ground arith)
    ];
  }
    where
      finish :
          (r : Db × Declaration) (item : StockItem)
          → (r.0 ≡ db) ⊎ (settle_declaration pk kind q reason actor key item db ≡ ok r)
          → IsConsistent r.0
      finish r item (inl same) = rw same sound
      finish r item (inr e) = (settle-After pk kind q reason actor key item).at r e

  pub write_request-After : (r : AdjustmentRequest) → After db_of (write_request r db)
  unfolding write_request
  write_request-After r = elim (Bool-cases (r.kind == waste)) [
    | inl loss ↦ rw loss (loss-After r.stock_item r.quantity r.reason r.requested_by)
    | inr other ↦ rw other (adjust-After r.stock_item r.quantity r.reason r.requested_by)
  ]

  pub approve_pending-After :
      (n : ℕ) (r : AdjustmentRequest) (actor : ℕ) (note : String)
      → After (λ d. d) (approve_pending n r actor note db)
  unfolding approve_pending
  approve_pending-After n r actor note = elim (Bool-cases (is_person r.requested_by actor)) [
    | inl own ↦ rw own (After-err _)
    | inr fine ↦ rw fine (After-bind _ _ (write_request-After r) (λ w s. After-ok _ s))
  ]

  pub approve-After : (n actor : ℕ) (note : String) → After (λ d. d) (approve n actor note db)
  unfolding approve
  approve-After n actor note = record {
    at = λ r e. elim (Option-cases (db.requests n)) [
      | inl missing ↦ ground arith
      | inr (q, found) ↦ finish r q (ground arith)
    ];
  }
    where
      finish :
          (r : Db) (q : AdjustmentRequest)
          → (r ≡ db) ⊎ (approve_pending n q actor note db ≡ ok r)
          → IsConsistent r
      finish r q (inl same) = rw same sound
      finish r q (inr e) = (approve_pending-After n q actor note).at r e

  pub reject-After : (n actor : ℕ) (note : String) → After (λ d. d) (reject n actor note db)
  unfolding reject
  reject-After n actor note = record { at = λ r e. same r (ground arith) (ground arith) }
    where
      same : (r : Db) → r.items ≡ db.items → r.journal ≡ db.journal → IsConsistent r
      same r i j = rw (i, j) sound

  pub opened-RowSound :
      (pk : ℕ) (t : Option Quantity) (i : Ingredient) (k : Kitchen) (o : Option StockItem)
      → RowSound pk db.journal o
      → IsSound pk db.journal (opened t i k o)
  opened-RowSound pk t i k none h = ground arith
  opened-RowSound pk none i k (some item) h = h
  opened-RowSound pk (some q) i k (some item) h = ground arith

  pub open_item-After :
      (pk : ℕ) (i : Ingredient) (k : Kitchen) (t : Option Quantity)
      → After (λ d. d) (open_item pk i k t db)
  unfolding open_item
  open_item-After pk i k t = record { at = λ r e j. rw (shape r e) (row j) }
    where
      after : Db
      after = record db { items = update db.items pk (some (opened t i k (db.items pk))) }

      shape : (r : Db) → open_item pk i k t db ≡ ok r → r ≡ after
      shape r e = ground arith

      row : (j : ℕ) → RowSound j after.journal (after.items j)
      row j = elim (Bool-cases (j == pk)) [
        | inl same ↦
            rw (same, (nat_beq_iff j pk).0 same) (opened-RowSound pk t i k (db.items pk) (sound pk))
        | inr other ↦ rw other (sound j)
      ]
