-- ===== src/Inventory/Decisions.antt =====
-- Who may write a loss, and how often: the replays and the decisions of apps/inventory/services.py.
use elcorazon_backend.Base.{
  ℕ, ◌≡◌, ◌⊎◌, inl, inr, String, false, Option, none, some, ◌∷◌, nat_eq, string_eq, ◌==◌, ok,
  >>=-eq-ok, guard-eq-ok, sym, ok-injective, update, arith, Bool-cases, Option-cases,
}
use elcorazon_backend.Money.{Money}
use elcorazon_backend.Quantities.{Quantity, negate, abs_quantity}
use elcorazon_backend.Inventory.Rows.{
  MovementKind, kind_eq, StockMovement, Db, AdjustmentRequest, pending, approved, waste, adjustment,
}
use elcorazon_backend.Inventory.Writes.{Note, apply}
use elcorazon_backend.Inventory.Service.{declared_loss, adjust, note_of}
use elcorazon_backend.Inventory.Declarations.{is_person, write_request, approve_pending, approve}

-- What a write leaves: its movement in front of the journal, and the requests as they were.
pub apply_journal :
    (pk : ℕ) (kind : MovementKind) (q : Quantity) (cost : Option Money) (note : Note) (db db' : Db)
    (m : StockMovement)
    → apply pk kind q cost note db ≡ ok (db', m)
    → (db'.journal ≡ m ∷ db.journal)
      × (db'.requests ≡ db.requests)
      × (m.actor ≡ note.actor)
      × (m.stock_item ≡ pk)
      × (m.quantity ≡ q)
      × (m.kind ≡ kind)
      × (m.request_key ≡ note.request_key)
unfolding apply
apply_journal pk kind q cost note db db' m h = ground arith

write_request_journal :
    (r : AdjustmentRequest) (db db' : Db) (m : StockMovement)
    → write_request r db ≡ ok (db', m)
    → (db'.journal ≡ m ∷ db.journal) × (m.actor ≡ r.requested_by) × (m.stock_item ≡ r.stock_item)
unfolding write_request declared_loss adjust
write_request_journal r db db' m h = elim (Bool-cases (r.kind == waste)) [
  | inl loss ↦
      let (front, _, who, row, _, _, _) =
        apply_journal r.stock_item waste (negate (abs_quantity r.quantity)) none
          (note_of r.requested_by r.reason "") db db' m (ground arith) in
      (front, who, row)
  | inr other ↦
      let (front, _, who, row, _, _, _) =
        apply_journal r.stock_item adjustment r.quantity none (note_of r.requested_by r.reason "")
          db db' m (ground arith) in
      (front, who, row)
]

abbrev decided : AdjustmentRequest → ℕ → String → StockMovement → AdjustmentRequest
decided r actor note m = record r {
  status = approved;
  decided_by = some actor;
  decision_note = note;
  movement = some m;
}

approve_pending-ok :
    (n : ℕ) (r : AdjustmentRequest) (actor : ℕ) (note : String) (db db' : Db)
    → approve_pending n r actor note db ≡ ok db'
    → (is_person r.requested_by actor ≡ false)
      × ((m : StockMovement) × (before : Db) × (write_request r db ≡ ok (before, m))
          × (db' ≡ record before {
            requests = update before.requests n (some (decided r actor note m));
          }))
unfolding approve_pending
approve_pending-ok n r actor note db db' h =
    let (own, rest) = guard-eq-ok (is_person r.requested_by actor) _ _ h in
    let ((before, m), wrote, done) = >>=-eq-ok (write_request r db) _ rest in
    (own, (m, before, wrote, sym (ok-injective done)))

approve-ok :
    (n actor : ℕ) (note : String) (db db' : Db)
    → approve n actor note db ≡ ok db'
    → (r : AdjustmentRequest) × (db.requests n ≡ some r)
      × (((r.status ≡ approved) × (db' ≡ db))
          ⊎ ((r.status ≡ pending) × (approve_pending n r actor note db ≡ ok db')))
unfolding approve
approve-ok n actor note db db' h = elim (Option-cases (db.requests n)) [
  | inl missing ↦ ground arith
  | inr (r, found) ↦ (r, found, ground arith)
]

-- An approval that ends well, of a request that is pending, was made by another person than the one
-- who declared; it leaves the request approved by that person, and adds one movement to the
-- journal, the one that the request names, on the declared row and with the declarant as its actor.
pub approve-four_eyes :
    (n : ℕ) (r : AdjustmentRequest) (actor : ℕ) (note : String) (db db' : Db)
    → db.requests n ≡ some r
    → r.status ≡ pending
    → approve n actor note db ≡ ok db'
    → (is_person r.requested_by actor ≡ false)
      × ((m : StockMovement) × (db'.journal ≡ m ∷ db.journal)
          × (m.actor ≡ r.requested_by)
          × (m.stock_item ≡ r.stock_item)
          × (db'.requests n
              ≡ some (record r {
                status = approved;
                decided_by = some actor;
                decision_note = note;
                movement = some m;
              })))
approve-four_eyes n r actor note db db' found waits h =
    let (q, found_q, what) = approve-ok n actor note db db' h in
    let same : r ≡ q = ground arith in
    let pended : approve_pending n r actor note db ≡ ok db' = ground arith in
    let (own, (m, before, wrote, shape)) = approve_pending-ok n r actor note db db' pended in
    let (front, who, row) = write_request_journal r db before m wrote in
    (own, (m, ground arith, who, row, ground arith))

-- An approval that ended well can be repeated, by anyone: it ends well and changes nothing.
pub approve_twice :
    (n actor again : ℕ) (note other : String) (db db' : Db)
    → approve n actor note db ≡ ok db'
    → approve n again other db' ≡ ok db'
unfolding approve
approve_twice n actor again note other db db' h =
    let (r, found, what) = approve-ok n actor note db db' h in
    elim what [
      | inl (st, same) ↦ ground arith
      | inr (st, pended) ↦
          let (own, (m, before, wrote, shape)) = approve_pending-ok n r actor note db db' pended in
          rw shape (ground arith)
    ]
