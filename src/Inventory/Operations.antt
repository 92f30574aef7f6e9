-- ===== src/Inventory/Operations.antt =====
-- The calls that apps/inventory/services.py offers, as data, and the histories they make.
use elcorazon_backend.Base.{
  ℕ, refl, Bool, true, false, String, Option, none, List, [], ◌∷◌, nat_eq, string_eq, Result, ok,
  err, value_or, ◌>>=◌,
}
use elcorazon_backend.Money.{Money}
use elcorazon_backend.Quantities.{Quantity, dimension_eq}
use elcorazon_backend.Inventory.Rows.{
  MovementKind, kind_eq, consumption, waste, adjustment, reservation, release, Ingredient, Kitchen,
  Db,
}
use elcorazon_backend.Inventory.Writes.{Note}
use elcorazon_backend.Inventory.Service.{
  open_item, receive, consume, declared_loss, adjust, reserve, free,
}
use elcorazon_backend.Inventory.Declarations.{declare_waste, declare_adjustment, approve, reject}
use elcorazon_backend.Inventory.Consistency.{journal_sum, RowSound, IsConsistent}
use elcorazon_backend.Inventory.After.{
  After, After-ok, After-err, After-bind, db_of, apply-After, receive-After, loss-After,
  adjust-After, declare-After, approve-After, reject-After, open_item-After,
}

consume-After :
    (db : Db)
    → IsConsistent db
    → (pk : ℕ) (q : Quantity) (actor : Option ℕ) (reference : String) (from_reservation : Bool)
    → After db_of (consume pk q actor reference from_reservation db)
unfolding consume
consume-After db sound pk q actor reference true =
    After-bind _ _ (apply-After db sound pk release _ none _)
      (λ r s. apply-After r.0 s pk consumption _ none _)
consume-After db sound pk q actor reference false = apply-After db sound pk consumption _ none _

-- A call of the service, with its arguments.
pub data Call : Type 0 where
  opens : ℕ → Ingredient → Kitchen → Option Quantity → Call
  receives : ℕ → Quantity → Option Money → MovementKind → Note → Call
  consumes : ℕ → Quantity → Option ℕ → String → Bool → Call
  reserves frees : ℕ → Quantity → Option ℕ → String → Call
  wastes adjusts : ℕ → Quantity → String → Option ℕ → Call
  declares_waste declares_adjustment : ℕ → Quantity → String → Option ℕ → String → Call
  approves rejects : ℕ → ℕ → String → Call

-- The database that a call leaves, if it does not raise.
unfoldable pub perform : Call → Db → Result Db
perform (opens pk i k t) db = open_item pk i k t db
perform (receives pk q cost kind note) db = do r ← receive pk q cost kind note db; ok r.0
perform (consumes pk q actor ref held) db = do r ← consume pk q actor ref held db; ok r.0
perform (reserves pk q actor ref) db = do r ← reserve pk q actor ref db; ok r.0
perform (frees pk q actor ref) db = do r ← free pk q actor ref db; ok r.0
perform (wastes pk q reason actor) db = do r ← declared_loss pk q reason actor db; ok r.0
perform (adjusts pk q reason actor) db = do r ← adjust pk q reason actor db; ok r.0
perform (declares_waste pk q reason actor key) db = do
  r ← declare_waste pk q reason actor key db
  ok r.0
perform (declares_adjustment pk q reason actor key) db = do
  r ← declare_adjustment pk q reason actor key db
  ok r.0
perform (approves n actor note) db = approve n actor note db
perform (rejects n actor note) db = reject n actor note db

-- A call that raises is rolled back.
unfoldable pub run : List Call → Db → Db
run [] db = db
run (c ∷ calls) db = run calls (value_or db (perform c db))

abbrev pub empty : Db
empty = record { items = λ pk. none; journal = []; requests = λ n. none; next_request = 0 }

first_of :
    {A : Type 0} (db : Db) (r : Result (Db × A))
    → After db_of r
    → After (λ d. d) (r >>= λ p. ok p.0)
first_of db (ok p) h = After-ok p.0 (h.at p refl)
first_of db (err x) h = After-err x

perform-After : (c : Call) (db : Db) → IsConsistent db → After (λ d. d) (perform c db)
unfolding perform reserve free declare_waste declare_adjustment
perform-After (opens pk i k t) db s = open_item-After db s pk i k t
perform-After (receives pk q cost kind note) db s =
    first_of db _ (receive-After db s pk q cost kind note)
perform-After (consumes pk q actor ref held) db s =
    first_of db _ (consume-After db s pk q actor ref held)
perform-After (reserves pk q actor ref) db s =
    first_of db _ (apply-After db s pk reservation _ none _)
perform-After (frees pk q actor ref) db s = first_of db _ (apply-After db s pk release _ none _)
perform-After (wastes pk q reason actor) db s = first_of db _ (loss-After db s pk q reason actor)
perform-After (adjusts pk q reason actor) db s = first_of db _ (adjust-After db s pk q reason actor)
perform-After (declares_waste pk q reason actor key) db s =
    first_of db _ (declare-After db s pk waste _ reason actor key)
perform-After (declares_adjustment pk q reason actor key) db s =
    first_of db _ (declare-After db s pk adjustment q reason actor key)
perform-After (approves n actor note) db s = approve-After db s n actor note
perform-After (rejects n actor note) db s = reject-After db s n actor note

value_or-IsConsistent :
    (db : Db) (r : Result Db) → IsConsistent db → After (λ d. d) r → IsConsistent (value_or db r)
value_or-IsConsistent db (ok d) s h = h.at d refl
value_or-IsConsistent db (err x) s h = s

run-IsConsistent : (calls : List Call) (db : Db) → IsConsistent db → IsConsistent (run calls db)
unfolding run
run-IsConsistent [] db s = s
run-IsConsistent (c ∷ calls) db s =
    run-IsConsistent calls (value_or db (perform c db))
      (value_or-IsConsistent db (perform c db) s (perform-After c db s))

-- Whatever calls are made on an empty stock, in any order and failing or not: of every row, the
-- stock reserved is not negative and no more than the stock on hand, and both are the sums of the
-- movements in the journal; a number with no row has no movements.
pub stock_reconciles :
    (calls : List Call) (pk : ℕ) → let db = run calls empty in RowSound pk db.journal (db.items pk)
unfolding journal_sum
stock_reconciles calls = run-IsConsistent calls empty (λ pk. (refl, refl))
