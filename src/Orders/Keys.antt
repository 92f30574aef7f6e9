-- ===== src/Orders/Keys.antt =====
-- What apps/orders/idempotency.py promises of a key: a slot that is vacant, in flight, or answered.
use elcorazon_backend.Base.{
  ℕ, ◌≤◌, ◌≡◌, refl, sym, ap, ◌∙◌, inl, inr, Bool, true, false, not, ◌&&◌, Option, none, some, List,
  [], ◌∷◌, ◌++◌, nat_eq, ◌==◌, eq_self, eq_of_beq, if◌then◌else◌, Result, ok, err,
  request_in_flight, Bool-cases, arith,
}
use elcorazon_backend.Base.Rows.{bit, count, exists}
use elcorazon_backend.Orders.Idempotency.{
  Scope, scope_eq, StoredResponse, IdempotencyKey, is_key, pending_key, first_key, complete,
  release,
}

-- The abstract state of a key.
pub data Slot : Type 0 where
  vacant in_flight : Slot
  answered : StoredResponse → Slot

-- To take a key, to answer it, and to give it back, as the slots say it.
unfoldable pub take : Slot → Result (Option StoredResponse × Slot)
take vacant = ok (none, in_flight)
take in_flight = err request_in_flight
take (answered r) = ok (some r, answered r)

unfoldable pub answer : StoredResponse → Slot → Slot
answer r vacant = vacant
answer r _ = answered r

unfoldable pub give_up : Slot → Slot
give_up (answered r) = answered r
give_up _ = vacant

unfoldable pub slot_of : Option IdempotencyKey → Slot
slot_of none = vacant
slot_of (some r) = if r.is_completed then answered r.response else in_flight

-- The slots that a table stands for.
unfoldable pub slots : List IdempotencyKey → Scope → Slot
slots rows s = slot_of (first_key s rows)

-- No key has two rows.
abbrev pub UniqueKeys : List IdempotencyKey → Type 0
UniqueKeys rows = (s : Scope) → count (is_key s) rows ≤ 1

true-false : true ≡ false → ⊥
true-false e = cc

-- A row is of one key.
apart :
    (s t : Scope) (r : IdempotencyKey) → (s == t) ≡ false → is_key t r ≡ true → is_key s r ≡ false
apart s t r other own = elim (Bool-cases (is_key s r)) [
  | inl both ↦
      let s_t : s ≡ t = sym (eq_of_beq r.owner s both) ∙ eq_of_beq r.owner t own in
      absurd (true-false (sym (eq_self t) ∙ (rw s_t at other)))
  | inr fine ↦ fine
]

-- A key that is not there has no row.
pub first_key-none :
    (s : Scope) (rows : List IdempotencyKey) → count (is_key s) rows ≡ 0 → first_key s rows ≡ none
unfolding first_key
first_key-none s [] h = refl
first_key-none s (r ∷ rest) h = elim (Bool-cases (is_key s r)) [
  | inl own ↦ let counts : bit (is_key s r) ≡ 1 = ap bit own in absurd (omega arith)
  | inr other ↦
      let counts : bit (is_key s r) ≡ 0 = ap bit other in
      rw other (first_key-none s rest (omega arith))
]

pub first_key-some :
    (s : Scope) (rows : List IdempotencyKey)
    → exists (is_key s) rows ≡ true
    → (r : IdempotencyKey) × (first_key s rows ≡ some r)
unfolding first_key
first_key-some s [] h = cc
first_key-some s (r ∷ rest) h = elim (Bool-cases (is_key s r)) [
  | inl own ↦ (r, rw own refl)
  | inr other ↦ let (q, at) = first_key-some s rest (rw other at h) in (q, rw other at)
]

-- A row that is added for a key that is not there.
module _ (s : Scope) where
  pub slots-insert :
      (rows : List IdempotencyKey)
      → exists (is_key s) rows ≡ false
      → slots (rows ++ (pending_key s ∷ [])) s ≡ in_flight
  unfolding slots first_key slot_of
  slots-insert [] h = rw (eq_self s) refl
  slots-insert (r ∷ rest) h = elim (Bool-cases (is_key s r)) [
    | inl own ↦ absurd (true-false (rw own at h))
    | inr other ↦ rw other (slots-insert rest (rw other at h))
  ]

  pub slots-insert_other :
      (t : Scope) (rows : List IdempotencyKey)
      → (s == t) ≡ false
      → slots (rows ++ (pending_key s ∷ [])) t ≡ slots rows t
  unfolding slots first_key slot_of
  slots-insert_other t [] other = rw other refl
  slots-insert_other t (r ∷ rest) other = elim (Bool-cases (is_key t r)) [
    | inl own ↦ rw own refl
    | inr skips ↦ rw skips (slots-insert_other t rest other)
  ]

  module _ (o : ℕ) (stored : StoredResponse) where
    pub slots-complete :
        (rows : List IdempotencyKey)
        → slots (complete s o stored rows) s ≡ answer stored (slots rows s)
    unfolding slots first_key slot_of complete answer
    slots-complete [] = refl
    slots-complete (r ∷ rest) = elim (Bool-cases (is_key s r)) [
      | inl own ↦ rw (own, own) (closes r.is_completed)
      | inr other ↦ rw (other, other) (slots-complete rest)
    ]
      where
        closes :
            (b : Bool)
            → answered stored ≡ answer stored (if b then answered r.response else in_flight)
        closes true = refl
        closes false = refl

    pub slots-complete_other :
        (t : Scope) (rows : List IdempotencyKey)
        → (s == t) ≡ false
        → slots (complete s o stored rows) t ≡ slots rows t
    unfolding slots first_key slot_of complete
    slots-complete_other t [] other = refl
    slots-complete_other t (r ∷ rest) other = elim (Bool-cases (is_key t r)) [
      | inl own ↦ rw (apart s t r other own, own) refl
      | inr skips ↦ elim (Bool-cases (is_key s r)) [
        | inl mine ↦ rw (mine, skips) (slots-complete_other t rest other)
        | inr not_mine ↦ rw (not_mine, skips) (slots-complete_other t rest other)
      ]
    ]

    pub count-complete :
        (t : Scope) (rows : List IdempotencyKey)
        → count (is_key t) (complete s o stored rows) ≡ count (is_key t) rows
    unfolding complete
    count-complete t [] = refl
    count-complete t (r ∷ rest) = elim (Bool-cases (is_key s r)) [
      | inl mine ↦ rw (mine, count-complete t rest) refl
      | inr not_mine ↦ rw (not_mine, count-complete t rest) refl
    ]

  pub slots-release :
      (rows : List IdempotencyKey)
      → count (is_key s) rows ≤ 1
      → slots (release s rows) s ≡ give_up (slots rows s)
  unfolding slots first_key slot_of release give_up
  slots-release [] single = refl
  slots-release (r ∷ rest) single = elim (Bool-cases (is_key s r)) [
    | inl own ↦
        let counts : bit (is_key s r) ≡ 1 = ap bit own in
        elim (Bool-cases r.is_completed) [
          | inl done ↦ rw (own, done, own) refl
          | inr pending ↦
              let gone = first_key-none s rest (omega arith) in
              rw (own, pending, slots-release rest (omega arith), gone) refl
        ]
    | inr other ↦
        let counts : bit (is_key s r) ≡ 0 = ap bit other in
        rw (other, other) (slots-release rest (omega arith))
  ]

  pub slots-release_other :
      (t : Scope) (rows : List IdempotencyKey)
      → (s == t) ≡ false
      → slots (release s rows) t ≡ slots rows t
  unfolding slots first_key slot_of release
  slots-release_other t [] other = refl
  slots-release_other t (r ∷ rest) other = elim (Bool-cases (is_key t r)) [
    | inl own ↦ rw (apart s t r other own, own) refl
    | inr skips ↦ elim (Bool-cases (is_key s r && not r.is_completed)) [
      | inl goes ↦ rw (goes, skips) (slots-release_other t rest other)
      | inr stays ↦ rw (stays, skips) (slots-release_other t rest other)
    ]
  ]

  pub count-release :
      (t : Scope) (rows : List IdempotencyKey)
      → count (is_key t) (release s rows) ≤ count (is_key t) rows
  unfolding release
  count-release t [] = omega arith
  count-release t (r ∷ rest) = elim (Bool-cases (is_key s r && not r.is_completed)) [
    | inl goes ↦ rw goes (omega (arith, count-release t rest))
    | inr stays ↦ rw stays (omega (arith, count-release t rest))
  ]
