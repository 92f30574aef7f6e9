-- ===== src/Delivery/Histories.antt =====
-- Histories of calls on the courses and the orders of apps/delivery: each call is a transaction, and
-- one that raises is rolled back.
use elcorazon_backend.Base.{ℕ, ◌≡◌, refl, some, String, List, [], ◌∷◌, Result, ok, err, value_or}
use elcorazon_backend.Base.Rows.{row_at}
use elcorazon_backend.Orders.States.{OrderStatus}
use elcorazon_backend.Delivery.States.{DeliveryStatus}
use elcorazon_backend.Delivery.Rows.{CourierProfile, Assignment, Fleet}
use elcorazon_backend.Delivery.Courses.{offer, accept, decline, move_order, transition_to}

-- An acceptance and a refusal are made with whatever copies the caller holds, up to date or not, and
-- an acceptance after whatever has been read of the courses.
pub data Call : Type 0 where
  offers : ℕ → ℕ → Call
  accepts : ℕ → ℕ → CourierProfile → List Assignment → Call
  declines : ℕ → Assignment → ℕ → String → Call
  steps : ℕ → DeliveryStatus → String → Call
  moves : ℕ → OrderStatus → Call

-- A refusal is made with a copy of the course at the status that it has.
abbrev pub Current : Call → Fleet → Type 0
Current (declines n copy c reason) db =
    (a : Assignment) → row_at n db.assignments ≡ some a → a.status ≡ copy.status
Current _ db = Unit

module _ (share : ℕ) where
  unfoldable pub perform : Call → Fleet → Result Fleet
  perform (offers o c) db = offer o c db
  perform (accepts n c copy seen) db = accept share n c copy seen db
  perform (declines n copy c reason) db = decline n copy c reason db
  perform (steps n target reason) db = transition_to n target reason db
  perform (moves o target) db = move_order o target db

  unfoldable pub run : List Call → Fleet → Fleet
  run [] db = db
  run (call ∷ calls) db = run calls (value_or db (perform call db))

  -- Every call of a history finds what `C` says of it.
  abbrev pub Along : (Call → Fleet → Type 0) → List Call → Fleet → Type 0
  Along C [] db = Unit
  Along C (call ∷ calls) db = C call db × Along C calls (value_or db (perform call db))

  -- What every successful call keeps, a history keeps.
  pub run-keeps {ℓ} :
      (P : Fleet → Type ℓ)
      → ((call : Call) (db db' : Fleet) → P db → perform call db ≡ ok db' → P db')
      → (calls : List Call) (db : Fleet) → P db
      → P (run calls db)
  unfolding run
  run-keeps P step [] db start = start
  run-keeps P step (call ∷ calls) db start =
      run-keeps P step calls (value_or db (perform call db)) (next (perform call db) refl)
    where
      next : (r : Result Fleet) → perform call db ≡ r → P (value_or db r)
      next (ok d) h = step call db d start h
      next (err e) h = start

  -- So it does if the calls need what they find.
  pub run-keeps_along {ℓ} :
      (P : Fleet → Type ℓ) (C : Call → Fleet → Type 0)
      → ((call : Call) (db db' : Fleet) → C call db → P db → perform call db ≡ ok db' → P db')
      → (calls : List Call) (db : Fleet) → Along C calls db
      → P db
      → P (run calls db)
  unfolding run
  run-keeps_along P C step [] db met start = start
  run-keeps_along P C step (call ∷ calls) db (here, later) start =
      run-keeps_along P C step calls (value_or db (perform call db)) later
        (next (perform call db) refl)
    where
      next : (r : Result Fleet) → perform call db ≡ r → P (value_or db r)
      next (ok d) h = step call db d here start h
      next (err e) h = start
