-- ===== src/StateMachine/Fuel.antt =====
-- The depth-first search of common/state_machine.py (`_assert_acyclic`): its fuel, and its answer.
use elcorazon_backend.Base.{
  ℕ, zero, suc, ◌+◌, ◌≤◌, ◌≡◌, refl, inl, inr, true, false, List, [], ◌∷◌, Eq, ◌==◌, ◌⊎◌, contains,
  contains-cons_self, contains-cons, contains-cons_tail, Distinct, length-Distinct, length,
  if◌then◌else◌, Bool-cases, Result, ok, err, ◌>>=◌, arith, cycle_detected,
}
use elcorazon_backend.StateMachine.{
  Table, states, targets_from, can, all_declared, rows_declared, assert_states_declared, visit_all,
  visit, search_all, assert_acyclic, Way, one, more,
}
use elcorazon_backend.StateMachine.Acyclic.{assert_acyclic_sound, mem-nil}

module _ {ℓ} {S : Type ℓ} ⦃e : Eq S⦄ where
  -- How a search ends: with the finished states, or on a cycle.
  data Verdict (m : Table S) : Result (List S) → Type ℓ where
    finished : (d : List S) → Verdict m (ok d)
    cyclic : {x : S} → Way m x x → Verdict m (err cycle_detected)

  Verdict-bind :
      (m : Table S) (r : Result (List S)) (f : List S → Result (List S))
      → Verdict m r
      → ((d : List S) → Verdict m (f d))
      → Verdict m (r >>= f)
  Verdict-bind m r f (finished d) v = v d
  Verdict-bind m r f (cyclic w) v = cyclic w

  Way-snoc : (m : Table S) {s t u : S} → Way m s t → can m t u ≡ ok true → Way m s u
  Way-snoc m (one c) h = more c (one h)
  Way-snoc m (more c w) h = more c (Way-snoc m w h)

  visit_all-Verdict :
      (m : Table S) (v : S → List S → Result (List S)) (grey nodes d : List S)
      → ((t : S) → contains t nodes ≡ true → contains t grey ≡ true → (x : S) × Way m x x)
      → ((t : S)
          → contains t nodes ≡ true
          → contains t grey ≡ false
          → (c : List S) → Verdict m (v t c))
      → Verdict m (visit_all v grey nodes d)
  unfolding visit_all
  visit_all-Verdict m v grey [] d loop ih = finished d
  visit_all-Verdict m v grey (n ∷ rest) d loop ih = elim (Bool-cases (contains n grey)) [
    | inl busy ↦ rw busy (cyclic (loop n (contains-cons_self n rest) busy).1)
    | inr free ↦ rw free (
        Verdict-bind m _ _ (enter free) (λ c.
          visit_all-Verdict m v grey rest c (λ t h. loop t (contains-cons_tail t n rest h))
            (λ t h. ih t (contains-cons_tail t n rest h))))
  ]
    where
      enter : contains n grey ≡ false → Verdict m (if contains n d then ok d else v n d)
      enter free = elim (Bool-cases (contains n d)) [
        | inl seen ↦ rw seen (finished d)
        | inr fresh ↦ rw fresh (ih n (contains-cons_self n rest) free d)
      ]

  states-row :
      (m : Table S) (s : S)
      → contains s (states m) ≡ true
      → (ts : List S) × (targets_from m s ≡ ok ts)
  unfolding contains targets_from
  states-row [] s h = cc
  states-row ((k, ts) ∷ m) s h = elim (Bool-cases (s == k)) [
    | inl here ↦ (ts, ground arith)
    | inr there ↦ let (us, has) = states-row m s (ground arith) in (us, ground (arith, has))
  ]

  can-of_targets :
      (m : Table S) (n t : S) {ts : List S}
      → targets_from m n ≡ ok ts
      → contains t ts ≡ true
      → can m n t ≡ ok true
  unfolding can
  can-of_targets m n t has h = rw (has, h) refl

  module _ (m : Table S)
      (declared : (n t : S) → can m n t ≡ ok true → contains t (states m) ≡ true) where
    visit-Verdict :
        (fuel : ℕ) (grey : List S) (n : S) (d : List S)
        → Distinct (n ∷ grey)
        → ((x : S) → contains x (n ∷ grey) ≡ true → contains x (states m) ≡ true)
        → ((x : S) → contains x grey ≡ true → Way m x n)
        → suc (length (states m)) ≤ fuel + length grey
        → Verdict m (visit fuel m grey n d)
    unfolding visit
    visit-Verdict zero grey n d distinct known chain enough =
        absurd (omega (arith, length-Distinct (n ∷ grey) (states m) distinct known))
    visit-Verdict (suc fuel) grey n d distinct known chain enough =
        let (ts, has) = states-row m n (known n (contains-cons_self n grey)) in
        rw has (
          Verdict-bind m _ _
            (visit_all-Verdict m (visit fuel m (n ∷ grey)) (n ∷ grey) ts d
              (λ t h busy. (t, close t (can-of_targets m n t has h) busy))
              (λ t h free c.
                visit-Verdict fuel (n ∷ grey) t c (free, distinct)
                  (extend t (declared n t (can-of_targets m n t has h)))
                  (chained t (can-of_targets m n t has h)) (omega arith)))
            (λ c. finished (n ∷ c)))
      where
        chained : (t : S) → can m n t ≡ ok true → (x : S) → contains x (n ∷ grey) ≡ true → Way m x t
        chained t c x h = elim (contains-cons x n grey h) [
          | inl same ↦ one (rw same c)
          | inr deep ↦ Way-snoc m (chain x deep) c
        ]

        close : (t : S) → can m n t ≡ ok true → contains t (n ∷ grey) ≡ true → Way m t t
        close t c busy = chained t c t busy

        extend :
            (t : S)
            → contains t (states m) ≡ true
            → (x : S) → contains x (t ∷ n ∷ grey) ≡ true
            → contains x (states m) ≡ true
        extend t k x h = elim (contains-cons x t (n ∷ grey) h) [
          | inl same ↦ rw same k
          | inr deep ↦ known x deep
        ]

    search_all-Verdict : Verdict m (search_all m)
    unfolding search_all
    search_all-Verdict =
        visit_all-Verdict m _ [] (states m) [] (λ t h busy. absurd (mem-nil t busy))
          (λ t h free c.
            visit-Verdict (suc (length (states m))) [] t c (free, tt)
              (λ x q. elim (contains-cons x t [] q) [
                | inl same ↦ rw same h
                | inr none_left ↦ absurd (mem-nil x none_left)
              ])
              (λ x busy. absurd (mem-nil x busy)) (omega arith))

  all_declared_sound :
      (m : Table S) (ts : List S) (t : S)
      → all_declared m ts ≡ true
      → contains t ts ≡ true
      → contains t (states m) ≡ true
  unfolding all_declared
  all_declared_sound m [] t h c = absurd (mem-nil t c)
  all_declared_sound m (x ∷ ts) t h c = elim (contains-cons t x ts c) [
    | inl same ↦ rw same (ground arith)
    | inr deep ↦ all_declared_sound m ts t (ground arith) deep
  ]

  rows_declared_sound :
      (all m : Table S) (s t : S)
      → rows_declared all m ≡ true
      → can m s t ≡ ok true
      → contains t (states all) ≡ true
  unfolding rows_declared can
  rows_declared_sound all [] s t h c = cc
  rows_declared_sound all ((k, ts) ∷ m) s t h c = elim (Bool-cases (s == k)) [
    | inl here ↦ all_declared_sound all ts t (ground arith) (ground arith)
    | inr there ↦ rows_declared_sound all m s t (ground arith) (ground arith)
  ]

  -- Every target of a table that passes `_assert_states_declared` is a declared state.
  pub assert_states_declared_sound :
      (m : Table S) (s t : S)
      → assert_states_declared m ≡ ok tt
      → can m s t ≡ ok true
      → contains t (states m) ≡ true
  unfolding assert_states_declared
  assert_states_declared_sound m s t h =
      rows_declared_sound m m s t
        (elim (Bool-cases (rows_declared m m)) [ inl p ↦ p | inr q ↦ cc (rw q at h) ])

  -- A table with every target declared is either accepted, and then no state can come back to
  -- itself, or refused as cyclic, and then some state can.
  pub assert_acyclic_decides :
      (m : Table S)
      → assert_states_declared m ≡ ok tt
      → (assert_acyclic m ≡ ok tt) × ((s : S) → ¬ (Way m s s))
        ⊎ (assert_acyclic m ≡ err cycle_detected) × ((s : S) × Way m s s)
  assert_acyclic_decides m h =
      decide (search_all m) refl
        (search_all-Verdict m (λ s t. assert_states_declared_sound m s t h))
    where
      accepted : (d : List S) → search_all m ≡ ok d → assert_acyclic m ≡ ok tt
      accepted d p = unfold assert_acyclic in (rw p refl)

      refused : search_all m ≡ err cycle_detected → assert_acyclic m ≡ err cycle_detected
      refused p = unfold assert_acyclic in (rw p refl)

      decide :
          (r : Result (List S))
          → search_all m ≡ r
          → Verdict m r
          → (assert_acyclic m ≡ ok tt) × ((s : S) → ¬ (Way m s s))
            ⊎ (assert_acyclic m ≡ err cycle_detected) × ((s : S) × Way m s s)
      decide r p (finished d) = inl (accepted d p, λ s. assert_acyclic_sound m s (accepted d p))
      decide r p (cyclic w) = inr (refused p, (_, w))
