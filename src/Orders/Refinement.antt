-- ===== src/Orders/Refinement.antt =====
-- The table of apps/orders/idempotency.py does what the slots of the keys say.
use elcorazon_backend.Base.{
  ℕ, ◌≤◌, ◌≡◌, refl, ap, ◌⊎◌, inl, inr, Bool, true, false, Option, none, some, List, [], ◌∷◌, ◌++◌,
  nat_eq, ◌==◌, eq_of_beq, Result, ok, err, request_in_flight, Bool-cases, arith,
}
use elcorazon_backend.Base.Rows.{bit, exists, count-insert, count-exists}
use elcorazon_backend.Orders.Idempotency.{
  Scope, scope_eq, StoredResponse, IdempotencyKey, is_key, pending_key, replay_or_wait, reserve,
  complete, release,
}
use elcorazon_backend.Orders.Keys.{
  Slot, vacant, in_flight, answered, take, answer, give_up, slot_of, slots, UniqueKeys,
  first_key-none, first_key-some, slots-insert, slots-insert_other, slots-complete,
  slots-complete_other, count-complete, slots-release, slots-release_other, count-release,
}

-- The slots of the table `rows'` are those of `rows` but for the key `s`, which has `slot`.
abbrev pub Becomes : List IdempotencyKey → Scope → Slot → List IdempotencyKey → Type 0
Becomes rows s slot rows' =
    (slots rows' s ≡ slot)
    × ((t : Scope) → (s == t) ≡ false → slots rows' t ≡ slots rows t)
    × UniqueKeys rows'

-- What `reserve` ends with is what taking the slot ends with.
abbrev pub Taken :
    Scope
    → List IdempotencyKey
    → Result (Option StoredResponse × Slot)
    → Result (Option StoredResponse × List IdempotencyKey)
    → Type 0
Taken s rows (ok (r, slot)) (ok (r', rows')) = (r' ≡ r) × Becomes rows s slot rows'
Taken s rows (err e) (err e') = e' ≡ e
Taken s rows _ _ = ⊥

insert-UniqueKeys :
    (s : Scope) (rows : List IdempotencyKey)
    → exists (is_key s) rows ≡ false
    → UniqueKeys rows
    → UniqueKeys (rows ++ (pending_key s ∷ []))
insert-UniqueKeys s rows fresh unique t = elim (Bool-cases (s == t)) [
  | inl same ↦
      let none_yet = count-exists (is_key t) rows (rw (eq_of_beq s t same) at fresh) in
      omega (arith, count-insert (is_key t) (pending_key s) rows, bit_le (is_key t (pending_key s)))
  | inr other ↦ omega (arith, count-insert (is_key t) (pending_key s) rows, unique t, ap bit other)
]
  where
    bit_le : (b : Bool) → bit b ≤ 1
    bit_le true = omega arith
    bit_le false = omega arith

pub reserve-fresh :
    (s : Scope) (rows : List IdempotencyKey)
    → exists (is_key s) rows ≡ false
    → (reserve s rows ≡ ok (none, rows ++ (pending_key s ∷ []))) × (slots rows s ≡ vacant)
unfolding reserve slots slot_of
reserve-fresh s rows fresh =
    let gone = first_key-none s rows (count-exists (is_key s) rows fresh) in
    (rw fresh refl, rw gone refl)

pub reserve-there :
    (s : Scope) (rows : List IdempotencyKey)
    → exists (is_key s) rows ≡ true
    → ((stored : StoredResponse) × (reserve s rows ≡ ok (some stored, rows))
        × (slots rows s ≡ answered stored))
      ⊎ (reserve s rows ≡ err request_in_flight) × (slots rows s ≡ in_flight)
unfolding reserve replay_or_wait slots slot_of
reserve-there s rows there =
    let (r, at) = first_key-some s rows there in
    elim (Bool-cases r.is_completed) [
      | inl done ↦ inl (r.response, rw (there, at, done) refl, rw (at, done) refl)
      | inr pending ↦ inr (rw (there, at, pending) refl, rw (at, pending) refl)
    ]

reserve-Taken :
    (s : Scope) (rows : List IdempotencyKey)
    → UniqueKeys rows
    → Taken s rows (take (slots rows s)) (reserve s rows)
unfolding take
reserve-Taken s rows unique = elim (Bool-cases (exists (is_key s) rows)) [
  | inl there ↦ elim (reserve-there s rows there) [
    | inl (stored, got, slot) ↦ rw (slot, got) (refl, (slot, (λ t other. refl), unique))
    | inr (got, slot) ↦ rw (slot, got) refl
  ]
  | inr fresh ↦
      let (got, slot) = reserve-fresh s rows fresh in
      rw (slot, got)
        (
          refl,
          (
            slots-insert s rows fresh,
            (λ t other. slots-insert_other s t rows other),
            insert-UniqueKeys s rows fresh unique,
          ),
        )
]

-- In a table with one row for a key at most, to take a key, to answer it and to give it back do to
-- the table what they do to the slot of the key, and nothing to the slots of the others: a vacant key
-- is granted, a key in flight refused, an answered key replayed; only a key that was granted is
-- answered, and only one that is not answered is given back. The table stays such a table.
pub idempotency_refines :
    (s : Scope) (rows : List IdempotencyKey)
    → UniqueKeys rows
    → Taken s rows (take (slots rows s)) (reserve s rows)
      × ((o : ℕ) (stored : StoredResponse)
          → Becomes rows s (answer stored (slots rows s)) (complete s o stored rows))
      × Becomes rows s (give_up (slots rows s)) (release s rows)
idempotency_refines s rows unique = (
  reserve-Taken s rows unique,
  λ o stored. (
    slots-complete s o stored rows,
    λ t other. slots-complete_other s o stored t rows other,
    λ t. rw (count-complete s o stored t rows) (unique t),
  ),
  (
    slots-release s rows (unique s),
    λ t other. slots-release_other s t rows other,
    λ t. omega (arith, count-release s t rows, unique t),
  ),
)
