-- ===== src/Base/Rows.antt =====
-- A table of rows with automatic keys: a list in the order of insertion, the key is the position.
use Prim.Native.Nat.{ℕ, zero, suc, ◌+◌}
use mathlib.Core.Path.{◌≡◌, refl, ap, subst}
use mathlib.Core.List.{List, [], ◌∷◌, ◌++◌}
use mathlib.Core.Bool.{Bool, true, false, ◌||◌}
use elcorazon_backend.Base.Tests.{if◌then◌else◌, Bool-cases}
use mathlib.Core.Logic.{inl, inr, ◌≢◌}
use native.Mathlib.Omega.{arith}
use mathlib.Core.Option.{Option, none, some, some-injective}
use elcorazon_backend.Base.Lists.{All}
use elcorazon_backend.Base.Int.{ℤ, pos, ◌+ℤ◌, int_laws}

-- `get(pk=n)`
abbrev pub row_at {ℓ} : {A : Type ℓ} → ℕ → List A → Option A
row_at n [] = none
row_at zero (x ∷ xs) = some x
row_at (suc n) (x ∷ xs) = row_at n xs

-- `save()` of the row `n`
abbrev pub set_row {ℓ} : {A : Type ℓ} → ℕ → A → List A → List A
set_row n y [] = []
set_row zero y (x ∷ xs) = y ∷ xs
set_row (suc n) y (x ∷ xs) = x ∷ set_row n y xs

abbrev pub sum_of {ℓ} : {A : Type ℓ} → (A → ℤ) → List A → ℤ
sum_of f [] = pos 0
sum_of f (x ∷ xs) = f x +ℤ sum_of f xs

module _ {ℓ} {A : Type ℓ} where
  pub row_at-set_row :
      (n : ℕ) (x y : A) (xs : List A) → row_at n xs ≡ some x → row_at n (set_row n y xs) ≡ some y
  row_at-set_row n x y [] h = cc
  row_at-set_row zero x y (z ∷ xs) h = refl
  row_at-set_row (suc n) x y (z ∷ xs) h = row_at-set_row n x y xs h

  -- Replacing a row replaces its share of the sum.
  pub sum_of-set_row :
      (f : A → ℤ) (n : ℕ) (x y : A) (xs : List A)
      → row_at n xs ≡ some x
      → sum_of f (set_row n y xs) +ℤ f x ≡ sum_of f xs +ℤ f y
  sum_of-set_row f n x y [] h = cc
  sum_of-set_row f zero x y (z ∷ xs) h = rw (some-injective z x h) (grind int_laws)
  sum_of-set_row f (suc n) x y (z ∷ xs) h = grind (int_laws, sum_of-set_row f n x y xs h)

  pub sum_of-insert :
      (f : A → ℤ) (x : A) (xs : List A) → sum_of f (xs ++ (x ∷ [])) ≡ sum_of f xs +ℤ f x
  sum_of-insert f x [] = grind int_laws
  sum_of-insert f x (z ∷ xs) = rw (sum_of-insert f x xs) (grind int_laws)

abbrev pub next_row {ℓ} : {A : Type ℓ} → Option (ℕ × A) → Option (ℕ × A)
next_row none = none
next_row (some (n, x)) = some (suc n, x)

-- `filter(...).first()`, with the key of the row.
abbrev pub find_row {ℓ} : {A : Type ℓ} → (A → Bool) → List A → Option (ℕ × A)
find_row p [] = none
find_row p (x ∷ xs) = let rest = find_row p xs in if p x then some (0, x) else next_row rest

abbrev pub bit : Bool → ℕ
bit true = 1
bit false = 0

-- `filter(...).count()`
abbrev pub count {ℓ} : {A : Type ℓ} → (A → Bool) → List A → ℕ
count p [] = 0
count p (x ∷ xs) = bit (p x) + count p xs

-- `filter(...).exists()`
abbrev pub exists {ℓ} : {A : Type ℓ} → (A → Bool) → List A → Bool
exists p [] = false
exists p (x ∷ xs) = p x || exists p xs

module _ {ℓ} {A : Type ℓ} (p : A → Bool) where
  pub count-set_row :
      (n : ℕ) (x y : A) (xs : List A)
      → row_at n xs ≡ some x
      → count p (set_row n y xs) + bit (p x) ≡ count p xs + bit (p y)
  count-set_row n x y [] h = cc
  count-set_row zero x y (z ∷ xs) h = rw (some-injective z x h) (omega arith)
  count-set_row (suc n) x y (z ∷ xs) h = omega (arith, count-set_row n x y xs h)

  pub count-insert : (x : A) (xs : List A) → count p (xs ++ (x ∷ [])) ≡ count p xs + bit (p x)
  count-insert x [] = omega arith
  count-insert x (z ∷ xs) = omega (arith, count-insert x xs)

  pub count-exists : (xs : List A) → exists p xs ≡ false → count p xs ≡ 0
  count-exists [] h = refl
  count-exists (x ∷ xs) h = ground (arith, count-exists xs)

module _ {ℓ} {A : Type ℓ} where
  -- The row that is found is in the table, and fits.
  pub find_row-eq-some :
      (p : A → Bool) (xs : List A) (n : ℕ) (x : A)
      → find_row p xs ≡ some (n, x)
      → (row_at n xs ≡ some x) × (p x ≡ true)
  find_row-eq-some p [] n x h = absurd (ground arith)
  find_row-eq-some p (y ∷ xs) n x h = elim (Bool-cases (p y)) [
    | inl fits_it ↦ here (some-injective {A = ℕ × A} (0, y) (n, x) (rw fits_it at h)) fits_it
    | inr skips ↦ later (find_row p xs) (find_row-eq-some p xs) refl (rw skips at h)
  ]
    where
      here :
          ◌≡◌ {A = ℕ × A} (0, y) (n, x) → p y ≡ true → (row_at n (y ∷ xs) ≡ some x) × (p x ≡ true)
      here e fits_it =
          subst (λ (r : ℕ × A). (row_at r.0 (y ∷ xs) ≡ some r.1) × (p r.1 ≡ true)) e (refl, fits_it)

      later :
          (r : Option (ℕ × A))
          → ((m : ℕ) (z : A) → find_row p xs ≡ some (m, z) → (row_at m xs ≡ some z) × (p z ≡ true))
          → find_row p xs ≡ r
          → next_row r ≡ some (n, x)
          → (row_at n (y ∷ xs) ≡ some x) × (p x ≡ true)
      later none known found e = absurd (ground arith)
      later (some (m, z)) known found e =
          let (at, fits) = known m z found in
          subst (λ (r : ℕ × A). (row_at r.0 (y ∷ xs) ≡ some r.1) × (p r.1 ≡ true))
            (some-injective {A = ℕ × A} (suc m, z) (n, x) e) (at, fits)

  pub row_at-insert :
      (n : ℕ) (x y : A) (xs : List A) → row_at n xs ≡ some x → row_at n (xs ++ (y ∷ [])) ≡ some x
  row_at-insert n x y [] h = cc
  row_at-insert zero x y (z ∷ xs) h = h
  row_at-insert (suc n) x y (z ∷ xs) h = row_at-insert n x y xs h

  pub row_at-set_row_other :
      (k n : ℕ) (y : A) (xs : List A) → k ≢ n → row_at k (set_row n y xs) ≡ row_at k xs
  row_at-set_row_other k n y [] h = refl
  row_at-set_row_other zero zero y (x ∷ xs) h = absurd (h refl)
  row_at-set_row_other (suc k) zero y (x ∷ xs) h = refl
  row_at-set_row_other zero (suc n) y (x ∷ xs) h = refl
  row_at-set_row_other (suc k) (suc n) y (x ∷ xs) h =
      row_at-set_row_other k n y xs (λ e. h (ap suc e))

module _ {ℓ κ} {A : Type ℓ} (P : A → Type κ) where
  pub All-row_at : (n : ℕ) (x : A) (xs : List A) → All P xs → row_at n xs ≡ some x → P x
  All-row_at n x [] all h = cc
  All-row_at zero x (z ∷ xs) (first, rest) h = subst P (some-injective z x h) first
  All-row_at (suc n) x (z ∷ xs) (first, rest) h = All-row_at n x xs rest h

  pub All-set_row : (n : ℕ) (y : A) (xs : List A) → P y → All P xs → All P (set_row n y xs)
  All-set_row n y [] new all = tt
  All-set_row zero y (z ∷ xs) new (first, rest) = (new, rest)
  All-set_row (suc n) y (z ∷ xs) new (first, rest) = (first, All-set_row n y xs new rest)

  pub All-insert : (y : A) (xs : List A) → P y → All P xs → All P (xs ++ (y ∷ []))
  All-insert y [] new all = (new, tt)
  All-insert y (z ∷ xs) new (first, rest) = (first, All-insert y xs new rest)

  pub All-imply {μ} : (Q : A → Type μ) → ((x : A) → P x → Q x) → (xs : List A) → All P xs → All Q xs
  All-imply Q f [] all = tt
  All-imply Q f (z ∷ xs) (first, rest) = (f z first, All-imply Q f xs rest)
