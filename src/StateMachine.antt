-- ===== src/StateMachine.antt =====
-- common/state_machine.py: declared transition graphs, checked when they are built.
-- A table is the dict of the source: each state with the targets declared from it, in the order of
-- the file. The source walks rows and targets in sorted order, which only chooses the cycle that
-- the message names. The colours of the depth-first search are two lists: `grey` is the stack of
-- the states in progress, `done` the finished ones, last first.
pub mod Acyclic
pub mod Fuel
use elcorazon_backend.Base.{
  ℕ, zero, suc, ◌+◌, ◌≡◌, Bool, true, false, Option, none, some, List, [], ◌∷◌, ◌++◌, ◌&&◌, ◌||◌,
  not, Eq, ◌==◌, contains, length, if◌then◌else◌, Error, Result, ok, err, ◌>>=◌, ◌>>◌, raise_if,
  or_raise, out_of_fuel, undeclared_target, cycle_detected, unknown_state, illegal_transition,
}

abbrev pub Table {ℓ} : Type ℓ → Type ℓ
Table S = List (S × List S)

module _ {ℓ} {S : Type ℓ} where
  -- `frozenset(self._transitions)`
  abbrev pub states : Table S → List S
  states [] = []
  states ((s, ts) ∷ m) = s ∷ states m

module _ {ℓ} {S : Type ℓ} ⦃e : Eq S⦄ where
  -- `self._transitions[str(source)]`
  abbrev pub row : Table S → S → Option (List S)
  row [] s = none
  row ((k, ts) ∷ m) s = if s == k then some ts else row m s

  unfoldable pub targets_from : Table S → S → Result (List S)
  targets_from m s = or_raise (row m s) unknown_state

  unfoldable pub is_terminal : Table S → S → Result Bool
  unfolding targets_from
  is_terminal m s = do ts ← targets_from m s; ok (is_empty ts)
    where
      is_empty : List S → Bool
      is_empty [] = true
      is_empty (_ ∷ _) = false

  unfoldable pub can : Table S → S → S → Result Bool
  unfolding targets_from
  can m s t = do ts ← targets_from m s; ok (contains t ts)

  unfoldable pub is_noop : Table S → S → S → Result Bool
  unfolding targets_from
  is_noop m s t = do targets_from m s; ok (s == t)

  unfoldable pub validate : Table S → S → S → Result (Unit {0})
  unfolding can
  validate m s t = do allowed ← can m s t; raise_if (not allowed) illegal_transition

  all_declared : Table S → List S → Bool
  all_declared m [] = true
  all_declared m (t ∷ ts) = contains t (states m) && all_declared m ts

  rows_declared : Table S → Table S → Bool
  unfolding all_declared
  rows_declared m [] = true
  rows_declared m ((s, ts) ∷ rest) = all_declared m ts && rows_declared m rest

  -- `_assert_states_declared`
  unfoldable pub assert_states_declared : Table S → Result (Unit {0})
  unfolding rows_declared
  assert_states_declared m = raise_if (not (rows_declared m m)) undeclared_target

  -- The loop over `nxt` in `visit`, which is also the loop that starts the search.
  unfoldable pub visit_all :
      (S → List S → Result (List S)) → List S → List S → List S → Result (List S)
  visit_all v grey [] done = ok done
  visit_all v grey (nxt ∷ rest) done = if contains nxt grey then err cycle_detected else (do
    done' ← (if contains nxt done then ok done else v nxt done)
    visit_all v grey rest done')

  -- `visit`, on fuel for the depth of the stack.
  unfoldable pub visit : ℕ → Table S → List S → S → List S → Result (List S)
  unfolding visit_all targets_from
  visit zero m grey node done = err out_of_fuel
  visit (suc fuel) m grey node done = do
    targets ← targets_from m node
    done' ← visit_all (visit fuel m (node ∷ grey)) (node ∷ grey) targets done
    ok (node ∷ done')

  -- The search from every state that is not visited yet.
  unfoldable pub search_all : Table S → Result (List S)
  unfolding visit
  search_all m = visit_all (visit (suc (length (states m))) m []) [] (states m) []

  -- `_assert_acyclic`
  unfoldable pub assert_acyclic : Table S → Result (Unit {0})
  unfolding search_all
  assert_acyclic m = do search_all m; ok tt

  -- `StateMachine(transitions, require_acyclic=...)`
  unfoldable pub build : Table S → Bool → Result (Table S)
  unfolding assert_states_declared assert_acyclic
  build m require_acyclic = do
    assert_states_declared m
    (if require_acyclic then assert_acyclic m else ok tt)
    ok m

  -- `reachable_from`: the inner loop over the targets of one state.
  unfoldable pub push_new : List S → List S → List S → List S × List S
  push_new [] seen stack = (seen, stack)
  push_new (t ∷ ts) seen stack =
      if contains t seen then push_new ts seen stack else push_new ts (t ∷ seen) (t ∷ stack)

  -- `while stack`, on fuel.
  unfoldable pub explore : ℕ → Table S → List S → List S → Result (List S)
  unfolding push_new targets_from
  explore fuel m seen [] = ok seen
  explore zero m seen (s ∷ stack) = err out_of_fuel
  explore (suc fuel) m seen (s ∷ stack) = do
    targets ← targets_from m s
    let (seen', stack') = push_new targets seen stack
    explore fuel m seen' stack'

  unfoldable pub reachable_from : Table S → S → Result (List S)
  unfolding explore
  reachable_from m s = explore (suc (length (states m))) m [] (s ∷ [])

  pairs_of : S → List S → List S → List (S × S)
  pairs_of s ts [] = []
  pairs_of s ts (t ∷ rest) =
      let tail = pairs_of s ts rest in
      if not (s == t) && not (contains t ts) then (s, t) ∷ tail else tail

  illegal_of : Table S → List S → List (S × S)
  unfolding pairs_of
  illegal_of [] all = []
  illegal_of ((s, ts) ∷ m) all = pairs_of s ts all ++ illegal_of m all

  -- `illegal_pairs`
  unfoldable pub illegal_pairs : Table S → List (S × S)
  unfolding illegal_of
  illegal_pairs m = illegal_of m (states m)

-- A declared transition, and a way of one transition or more.
pub data Way {ℓ} {S : Type ℓ} ⦃e : Eq S⦄ (m : Table S) : S → S → Type ℓ where
  one : {s t : S} → can m s t ≡ ok true → Way m s t
  more : {s t u : S} → can m s t ≡ ok true → Way m t u → Way m s u
