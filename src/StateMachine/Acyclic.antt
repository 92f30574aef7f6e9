-- ===== src/StateMachine/Acyclic.antt =====
-- What the depth-first search of common/state_machine.py (`_assert_acyclic`) says of a table that it
-- accepts.
use elcorazon_backend.Base.{
  ℕ, zero, suc, ◌≤◌, ◌<◌, ◌≡◌, inl, inr, true, some, List, [], ◌∷◌, Eq, ◌==◌, contains,
  contains-cons_self, contains-cons, contains-cons_tail, length, if◌then◌else◌, Bool-cases,
  Option-cases, Result, ok, arith, >>=-eq-ok, ok-injective,
}
use elcorazon_backend.StateMachine.{
  Table, states, row, targets_from, can, visit_all, visit, search_all, assert_acyclic, Way, one,
  more,
}

module _ {ℓ} {S : Type ℓ} ⦃e : Eq S⦄ where
  abbrev Sub : List S → List S → Type ℓ
  Sub d d' = (x : S) → contains x d ≡ true → contains x d' ≡ true

  -- Every finished state has all its targets among those finished before it.
  abbrev Settled : Table S → List S → Type ℓ
  Settled m [] = Unit
  Settled m (n ∷ d) = ((t : S) → can m n t ≡ ok true → contains t d ≡ true) × Settled m d

  -- What a finished visit of `nodes` has done to the list of the finished states.
  abbrev Grown : Table S → List S → List S → List S → Type ℓ
  Grown m nodes d d' = Settled m d' × Sub d d' × Sub nodes d'

  pub mem-nil : (x : S) → contains x [] ≡ true → ⊥
  unfolding contains
  mem-nil x h = cc

  mem_one : (x y : S) → contains x (y ∷ []) ≡ true → x ≡ y
  mem_one x y h = elim (contains-cons x y [] h) [ inl p ↦ p | inr q ↦ absurd (mem-nil x q) ]

  Sub-one : (x : S) (d : List S) → contains x d ≡ true → Sub (x ∷ []) d
  Sub-one x d h y hy = rw (mem_one y x hy) h

  Grown-trans :
      (m : Table S) (n : S) (rest d c d' : List S)
      → Grown m (n ∷ []) d c
      → Grown m rest c d'
      → Grown m (n ∷ rest) d d'
  Grown-trans m n rest d c d' (s, sub, here) (s', sub', there) = (
    s',
    λ x h. sub' x (sub x h),
    λ x h. elim (contains-cons x n rest h) [
      | inl p ↦ sub' x (here x (rw p (contains-cons_self n [])))
      | inr q ↦ there x q
    ],
  )

  visit_new :
      (m : Table S) (v : S → List S → Result (List S)) (n : S) (d c : List S)
      → ((x : S) (a b : List S) → Settled m a → v x a ≡ ok b → Grown m (x ∷ []) a b)
      → Settled m d
      → (if contains n d then ok d else v n d) ≡ ok c
      → Grown m (n ∷ []) d c
  visit_new m v n d c ih s h = elim (Bool-cases (contains n d)) [
    | inl seen ↦ rw (← same seen) (s, λ x q. q, Sub-one n d seen)
    | inr fresh ↦ ih n d c s (rw fresh at h)
  ]
    where
      same : contains n d ≡ true → d ≡ c
      same seen = ok-injective (rw seen at h)

  visit_all_lem :
      (m : Table S) (v : S → List S → Result (List S)) (grey nodes d d' : List S)
      → ((n : S) (c c' : List S) → Settled m c → v n c ≡ ok c' → Grown m (n ∷ []) c c')
      → Settled m d
      → visit_all v grey nodes d ≡ ok d'
      → Grown m nodes d d'
  unfolding visit_all
  visit_all_lem m v grey [] d d' ih s h =
      rw (← ok-injective h) (s, λ x q. q, λ x q. absurd (mem-nil x q))
  visit_all_lem m v grey (n ∷ rest) d d' ih s h = elim (Bool-cases (contains n grey)) [
    | inl cyclic ↦ cc (rw cyclic at h)
    | inr free ↦
        let (c, first, later) =
          >>=-eq-ok (if contains n d then ok d else v n d) (visit_all v grey rest) (rw free at h) in
        let first_grown = visit_new m v n d c ih s first in
        Grown-trans m n rest d c d' first_grown
          (visit_all_lem m v grey rest c d' ih first_grown.0 later)
  ]

  can-targets :
      (m : Table S) (n t : S) {ts : List S}
      → targets_from m n ≡ ok ts
      → can m n t ≡ ok true
      → contains t ts ≡ true
  unfolding can
  can-targets m n t h c = ok-injective (rw h at c)

  visit_lem :
      (fuel : ℕ) (m : Table S) (grey : List S) (n : S) (d d' : List S)
      → Settled m d
      → visit fuel m grey n d ≡ ok d'
      → Grown m (n ∷ []) d d'
  unfolding visit
  visit_lem zero m grey n d d' s h = cc
  visit_lem (suc fuel) m grey n d d' s h =
      let (ts, has, run) = >>=-eq-ok (targets_from m n) _ h in
      let (c, loop, last) = >>=-eq-ok (visit_all (visit fuel m (n ∷ grey)) (n ∷ grey) ts d) _ run in
      let (sc, sub, all) =
        visit_all_lem m _ (n ∷ grey) ts d c (visit_lem fuel m (n ∷ grey)) s loop in
      rw (← ok-injective last) (
        (λ t q. all t (can-targets m n t has q), sc),
        λ x q. contains-cons_tail x n c (sub x q),
        Sub-one n (n ∷ c) (contains-cons_self n c),
      )

  -- Where a state stands among the finished ones, counted from the first finished.
  rank : S → List S → ℕ
  rank x [] = 0
  rank x (y ∷ d) =
      let before = rank x d in if contains x d then before else if x == y then suc (length d) else 0

  rank_bounds : (x : S) (d : List S) → rank x d ≤ length d
  unfolding rank
  rank_bounds x [] = omega arith
  rank_bounds x (y ∷ d) = ground (arith, rank_bounds x d)

  -- A transition from a finished state leads to a finished state of smaller rank.
  rank_falls :
      (m : Table S) (d : List S) (n t : S)
      → Settled m d
      → contains n d ≡ true
      → can m n t ≡ ok true
      → (contains t d ≡ true) × (rank t d < rank n d)
  unfolding rank
  rank_falls m [] n t s h c = absurd (mem-nil n h)
  rank_falls m (y ∷ d) n t (targets, s) h c = elim (Bool-cases (contains n d)) [
    | inl deep ↦
        let (there, less) = rank_falls m d n t s deep c in
        (contains-cons_tail t y d there, rw (deep, there) less)
    | inr top ↦ elim (contains-cons n y d h) [
      | inl same ↦
          let there = targets t (rw same at c) in
          (
            contains-cons_tail t y d there,
            rw (there, top, (e.beq_iff n y).1 same) (omega (arith, rank_bounds t d)),
          )
      | inr deep ↦ cc
    ]
  ]

  row-states :
      (m : Table S) (s : S) (ts : List S) → row m s ≡ some ts → contains s (states m) ≡ true
  unfolding contains
  row-states [] s ts h = cc
  row-states ((k, us) ∷ m) s ts h = ground (arith, row-states m s ts)

  pub can-states : (m : Table S) (s t : S) → can m s t ≡ ok true → contains s (states m) ≡ true
  unfolding can
  can-states m s t h = elim (Option-cases (row m s)) [
    | inl missing ↦ cc (rw missing at h)
    | inr (ts, has) ↦ row-states m s ts has
  ]

  -- After a search that ends, every declared state is finished.
  pub search_all-Settled :
      (m : Table S) (d : List S) → search_all m ≡ ok d → Settled m d × Sub (states m) d
  unfolding search_all
  search_all-Settled m d h =
      let (s, sub, all) =
        visit_all_lem m _ [] (states m) [] d (visit_lem (suc (length (states m))) m []) tt h in
      (s, all)

  Way-falls :
      (m : Table S) (d : List S) {s t : S}
      → Settled m d
      → contains s d ≡ true
      → Way m s t
      → (contains t d ≡ true) × (rank t d < rank s d)
  Way-falls m d {s = s} {t = t} settled h (one c) = rank_falls m d s t settled h c
  Way-falls m d {s = s} settled h (more {t = t} c w) =
      let (here, less) = rank_falls m d s t settled h c in
      let (there, below) = Way-falls m d settled here w in (there, omega arith)

  -- A table that passes `_assert_acyclic` has no way from a state back to itself.
  pub assert_acyclic_sound : (m : Table S) (s : S) → assert_acyclic m ≡ ok tt → ¬ (Way m s s)
  unfolding assert_acyclic
  assert_acyclic_sound m s h w =
      let (d, found, last) = >>=-eq-ok (search_all m) _ h in
      let (settled, all) = search_all-Settled m d found in
      absurd (omega (arith, Way-falls m d settled (all s (first_declared w)) w))
    where
      first_declared : {t : S} → Way m s t → contains s (states m) ≡ true
      first_declared (one {t = t} c) = can-states m s t c
      first_declared (more {t = t} c w) = can-states m s t c
