-- ===== src/Base/Lists.antt =====
-- Lists counted by native numbers, membership by an equality that runs, and maps as functions.
use Prim.Native.Nat.{ℕ, zero, suc, ◌≤◌, ◌<◌}
use mathlib.Core.Path.{◌≡◌, refl}
use mathlib.Core.Logic.{◌⊎◌, inl, inr}
use mathlib.Core.Bool.{Bool, true, false, ◌||◌}
use mathlib.Core.List.{List, [], ◌∷◌}
use native.Mathlib.Omega.{arith}
use elcorazon_backend.Base.Tests.{Eq, ◌==◌, eq_self, eq_of_beq, Bool-cases, if◌then◌else◌}

module _ {ℓ} {A : Type ℓ} where
  abbrev pub length : List A → ℕ
  length [] = 0
  length (x ∷ xs) = suc (length xs)

  abbrev pub replicate : ℕ → A → List A
  replicate zero a = []
  replicate (suc n) a = a ∷ replicate n a

  abbrev pub get_or : List A → ℕ → A → A
  get_or [] i d = d
  get_or (x ∷ xs) zero d = x
  get_or (x ∷ xs) (suc i) d = get_or xs i d

  pub length-replicate : (n : ℕ) (a : A) → length (replicate n a) ≡ n
  length-replicate zero a = refl
  length-replicate (suc n) a = omega (arith, length-replicate n a)

module _ {ℓ κ} {A : Type ℓ} where
  abbrev pub All : (A → Type κ) → List A → Type κ
  All P [] = Unit
  All P (x ∷ xs) = P x × All P xs

-- Membership, for types with an equality that runs.
module _ {ℓ} {A : Type ℓ} ⦃e : Eq A⦄ where
  unfoldable pub contains : A → List A → Bool
  contains a [] = false
  contains a (x ∷ xs) = a == x || contains a xs

  -- No element twice.
  abbrev pub Distinct : List A → Type 0
  Distinct [] = Unit
  Distinct (x ∷ xs) = (contains x xs ≡ false) × Distinct xs

  pub contains-cons_self : (x : A) (xs : List A) → contains x (x ∷ xs) ≡ true
  unfolding contains
  contains-cons_self x xs = ground (arith, eq_self x)

  -- A member of a cons is the head or a member of the tail.
  pub contains-cons :
      (a x : A) (xs : List A) → contains a (x ∷ xs) ≡ true → (a ≡ x) ⊎ (contains a xs ≡ true)
  unfolding contains
  contains-cons a x xs h = elim (Bool-cases (a == x)) [
    | inl same ↦ inl (eq_of_beq a x same)
    | inr other ↦ inr (ground arith)
  ]

  pub contains-cons_tail :
      (a x : A) (xs : List A) → contains a xs ≡ true → contains a (x ∷ xs) ≡ true
  unfolding contains
  contains-cons_tail a x xs h = ground arith

  -- The list without every copy of `a`.
  pub without : A → List A → List A
  without a [] = []
  without a (x ∷ xs) = let rest = without a xs in if a == x then rest else x ∷ rest

  contains-without :
      (a b : A) (xs : List A)
      → (a == b) ≡ false
      → contains b xs ≡ true
      → contains b (without a xs) ≡ true
  unfolding contains without
  contains-without a b [] ne h = h
  contains-without a b (x ∷ xs) ne h =
      ground (arith, contains-without a b xs ne, eq_of_beq a x, eq_of_beq b x, eq_self b, eq_self a)

  length-without-le : (a : A) (xs : List A) → length (without a xs) ≤ length xs
  unfolding without
  length-without-le a [] = omega arith
  length-without-le a (x ∷ xs) = ground (arith, length-without-le a xs)

  length-without : (a : A) (xs : List A) → contains a xs ≡ true → length (without a xs) < length xs
  unfolding contains without
  length-without a [] h = cc
  length-without a (x ∷ xs) h = ground (arith, length-without a xs, length-without-le a xs)

  -- Pigeonhole: distinct members of `ys` are no more than `ys` is long.
  pub length-Distinct :
      (xs ys : List A)
      → Distinct xs
      → ((a : A) → contains a xs ≡ true → contains a ys ≡ true)
      → length xs ≤ length ys
  length-Distinct [] ys d sub = omega arith
  length-Distinct (x ∷ xs) ys (fresh, d) sub = omega (
    arith,
    length-without x ys (sub x (contains-cons_self x xs)),
    length-Distinct xs (without x ys) d
        (λ a h. contains-without x a ys (distinct_from a h) (sub a (contains-cons_tail a x xs h))),
  )
    where
      distinct_from : (a : A) → contains a xs ≡ true → (x == a) ≡ false
      distinct_from a h = elim (Bool-cases (x == a)) [
        | inl same ↦ absurd (clash (eq_of_beq x a same))
        | inr other ↦ other
      ]
        where
          clash : x ≡ a → ⊥
          clash p = cc

-- A table of rows by primary key, as a function.
module _ {ℓ κ} {K : Type ℓ} {V : Type κ} ⦃e : Eq K⦄ where
  abbrev pub update : (K → V) → K → V → K → V
  update f k v j = if j == k then v else f j
