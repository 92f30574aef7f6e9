-- ===== src/Delivery/Uniqueness.antt =====
-- The two unique constraints of `Assignment` of apps/delivery/models.py, and the guards that
-- apps/delivery/services.py puts before them.
use elcorazon_backend.Base.{
  ℕ, ◌≤◌, ◌≡◌, refl, sym, ap, inl, inr, String, Bool, false, some, List, [], ◌∷◌, ◌++◌, nat_eq,
  ◌==◌, eq_of_beq, ok, >>=-eq-ok, ok-injective, Bool-cases, arith,
}
use elcorazon_backend.Base.Rows.{row_at, set_row, bit, count, count-set_row, count-insert}
use elcorazon_backend.StateMachine.{validate}
use elcorazon_backend.Orders.States.{status_eq as order_status_eq}
use elcorazon_backend.Delivery.States.{cancelled, status_eq, delivery_machine}
use elcorazon_backend.Delivery.Rows.{Assignment, engaged_by, active_for}
use elcorazon_backend.Delivery.Courses.{breaks_unique, closed, is_open_for, close_rows}

-- A courier has at most one engaged course, an order at most one active course.
abbrev pub Unique : List Assignment → Type 0
Unique rows = ((c : ℕ) → count (engaged_by c) rows ≤ 1) × ((o : ℕ) → count (active_for o) rows ≤ 1)

breaks_unique-inv :
    (a : Assignment) (rows : List Assignment)
    → breaks_unique a rows ≡ false
    → (count (engaged_by a.courier) rows ≤ 1) × (count (active_for a.order) rows ≤ 1)
unfolding breaks_unique
breaks_unique-inv a rows h = ground arith

engaged_by-other : (c : ℕ) (a : Assignment) → (a.courier == c) ≡ false → engaged_by c a ≡ false
unfolding engaged_by
engaged_by-other c a h = rw h refl

active_for-other : (o : ℕ) (a : Assignment) → (a.order == o) ≡ false → active_for o a ≡ false
unfolding active_for
active_for-other o a h = rw h refl

-- A row that the constraints accept, in the place of a row of the same order and courier.
pub Unique-set_row :
    (n : ℕ) (a b : Assignment) (rows : List Assignment)
    → row_at n rows ≡ some a
    → b.courier ≡ a.courier
    → b.order ≡ a.order
    → breaks_unique b (set_row n b rows) ≡ false
    → Unique rows
    → Unique (set_row n b rows)
Unique-set_row n a b rows there k1 k2 fits (engaged, active) = (
  λ c. elim (Bool-cases (b.courier == c)) [
    | inl same ↦ rw (← (eq_of_beq b.courier c same)) (breaks_unique-inv b _ fits).0
    | inr other ↦ omega (
      arith,
      count-set_row (engaged_by c) n a b rows there,
      engaged c,
      ap bit (engaged_by-other c b other),
      ap bit (engaged_by-other c a (rw (← k1) other)),
    )
  ],
  λ o. elim (Bool-cases (b.order == o)) [
    | inl same ↦ rw (← (eq_of_beq b.order o same)) (breaks_unique-inv b _ fits).1
    | inr other ↦ omega (
      arith,
      count-set_row (active_for o) n a b rows there,
      active o,
      ap bit (active_for-other o b other),
      ap bit (active_for-other o a (rw (← k2) other)),
    )
  ],
)

pub Unique-insert :
    (a : Assignment) (rows : List Assignment)
    → breaks_unique a (rows ++ (a ∷ [])) ≡ false
    → Unique rows
    → Unique (rows ++ (a ∷ []))
Unique-insert a rows fits (engaged, active) = (
  λ c. elim (Bool-cases (a.courier == c)) [
    | inl same ↦ rw (← (eq_of_beq a.courier c same)) (breaks_unique-inv a _ fits).0
    | inr other ↦
        omega (
          arith,
          count-insert (engaged_by c) a rows,
          engaged c,
          ap bit (engaged_by-other c a other),
        )
  ],
  λ o. elim (Bool-cases (a.order == o)) [
    | inl same ↦ rw (← (eq_of_beq a.order o same)) (breaks_unique-inv a _ fits).1
    | inr other ↦
        omega
          (arith, count-insert (active_for o) a rows, active o, ap bit (active_for-other o a other))
  ],
)

-- Courses that are closed leave no more rows of any kind that a closed course is not of.
pub close_rows-count :
    (p : Assignment → Bool) (o : ℕ) (reason : String) (rows rows' : List Assignment)
    → ((a : Assignment) → p (closed a cancelled reason) ≡ false)
    → close_rows o reason rows ≡ ok rows'
    → count p rows' ≤ count p rows
unfolding close_rows
close_rows-count p o reason [] rows' none_closed h = rw (sym (ok-injective h)) (omega arith)
close_rows-count p o reason (a ∷ rest) rows' none_closed h = elim (Bool-cases (is_open_for o a)) [
  | inl ends ↦
      let (u, legal, h1) =
        >>=-eq-ok (validate delivery_machine a.status cancelled) _ (rw ends at h) in
      let (tail, done, h2) = >>=-eq-ok (close_rows o reason rest) _ h1 in
      rw (sym (ok-injective h2)) (
        omega
          (arith, close_rows-count p o reason rest tail none_closed done, ap bit (none_closed a)))
  | inr stays ↦
      let (tail, done, h1) = >>=-eq-ok (close_rows o reason rest) _ (rw stays at h) in
      rw (sym (ok-injective h1))
        (omega (arith, close_rows-count p o reason rest tail none_closed done))
]
