-- ===== src/Loyalty/Bookings.antt =====
-- The account of a customer against the journal, over one movement of apps/loyalty/services.py.
use elcorazon_backend.Base.{
  ℕ, ◌≡◌, refl, sym, ap, ◌∙◌, inl, inr, Bool, true, false, ◌&&◌, Option, none, some, List, [], ◌∷◌,
  ◌++◌, nat_eq, ◌==◌, eq_self, eq_of_beq, update, if◌then◌else◌, ok, rule_violation,
  insufficient_balance, integrity_error, guard-eq-ok, ok-injective, Bool-cases, arith,
}
use elcorazon_backend.Base.Int.{ℤ, pos, ◌+ℤ◌, ◌-ℤ◌, ◌≤ℤ◌, neg, ltb_ℤ, leb_ℤ, beq_ℤ, int_laws}
use elcorazon_backend.Base.Rows.{sum_of, sum_of-insert}
use elcorazon_backend.Loyalty.Points.{
  PointsAccount, EntryKind, spent, kind_eq, PointsEntry, Club, account_for, moved_account,
  new_entry, move_points, spent_account, spend,
}

unfoldable pub delta_of : ℕ → PointsEntry → ℤ
delta_of u e = if e.account == u then e.delta else pos 0

-- What an entry adds to `lifetime_earned`, and to `lifetime_spent`.
unfoldable pub gain_of : ℕ → PointsEntry → ℤ
gain_of u e = if e.account == u && ltb_ℤ (pos 0) e.delta then e.delta else pos 0

unfoldable pub cost_of : ℕ → PointsEntry → ℤ
cost_of u e = if e.account == u && e.kind == spent then neg e.delta else pos 0

-- The columns of the account of `u` are the sums of its journal, and its balance is not negative.
abbrev pub Booked : ℕ → Club → Type 0
Booked u db =
    ((account_for u db).balance ≡ sum_of (delta_of u) db.entries)
    × (pos 0 ≤ℤ (account_for u db).balance)
    × ((account_for u db).lifetime_earned ≡ sum_of (gain_of u) db.entries)
    × ((account_for u db).lifetime_spent ≡ sum_of (cost_of u) db.entries)

module _ (u v : ℕ) (a : PointsAccount) (db db' : Club) where
  account_own :
      db'.accounts ≡ update db.accounts v (some a) → (u == v) ≡ true → account_for u db' ≡ a
  unfolding account_for
  account_own accounts same = rw (accounts, same) refl

  account_other :
      db'.accounts ≡ update db.accounts v (some a)
      → (u == v) ≡ false
      → account_for u db' ≡ account_for u db
  unfolding account_for
  account_other accounts other = rw (accounts, other) refl

entry_own : (u : ℕ) (e : PointsEntry) → e.account ≡ u → delta_of u e ≡ e.delta
unfolding delta_of
entry_own u e owner = rw (owner, eq_self u) refl

entry_other :
    (u : ℕ) (e : PointsEntry)
    → (e.account == u) ≡ false
    → (delta_of u e ≡ pos 0) × (gain_of u e ≡ pos 0) × (cost_of u e ≡ pos 0)
unfolding delta_of gain_of cost_of
entry_other u e other = rw other (refl, refl, refl)

sum_more :
    (f : PointsEntry → ℤ) (e : PointsEntry) (es es' : List PointsEntry) (x y : ℤ)
    → es' ≡ es ++ (e ∷ [])
    → y ≡ x +ℤ f e
    → x ≡ sum_of f es
    → y ≡ sum_of f es'
sum_more f e es es' x y entries h1 h2 = rw (entries, sum_of-insert f e es, ← h2) h1

flip : (i j : ℕ) → (i == j) ≡ false → (j == i) ≡ false
flip i j h = ground arith

no_more : (x y : ℤ) → y ≡ pos 0 → x ≡ x +ℤ y
no_more x y h = grind int_laws

pub kept-Booked :
    (u : ℕ) (db db' : Club)
    → db'.accounts ≡ db.accounts
    → db'.entries ≡ db.entries
    → Booked u db
    → Booked u db'
unfolding account_for
kept-Booked u db db' accounts entries booked = rw (accounts, entries) booked

-- An account and an entry that are written together.
written-Booked :
    (u v : ℕ) (a : PointsAccount) (e : PointsEntry) (db db' : Club)
    → db'.accounts ≡ update db.accounts v (some a)
    → db'.entries ≡ db.entries ++ (e ∷ [])
    → e.account ≡ v
    → a.balance ≡ (account_for v db).balance +ℤ e.delta
    → pos 0 ≤ℤ a.balance
    → a.lifetime_earned ≡ (account_for v db).lifetime_earned +ℤ gain_of v e
    → a.lifetime_spent ≡ (account_for v db).lifetime_spent +ℤ cost_of v e
    → Booked u db
    → Booked u db'
written-Booked u v a e db db' accounts entries owner more fine gained paid (b, nn, g, c) =
    elim (Bool-cases (u == v)) [
      | inl same ↦
          let here : u ≡ v = eq_of_beq u v same in
          let own = account_own u v a db db' accounts same in
          let delta = entry_own u e (owner ∙ sym here) in
          let more' : a.balance ≡ (account_for u db).balance +ℤ delta_of u e =
            rw (delta, here) more in
          (
            rw own (sum_more (delta_of u) e db.entries db'.entries _ _ entries more' b),
            rw own fine,
            rw own (
                sum_more (gain_of u) e db.entries db'.entries (account_for u db).lifetime_earned
                  a.lifetime_earned entries (rw here gained) g),
            rw own (
                sum_more (cost_of u) e db.entries db'.entries (account_for u db).lifetime_spent
                  a.lifetime_spent entries (rw here paid) c),
          )
      | inr other ↦
          let kept = account_other u v a db db' accounts other in
          let (d0, g0, c0) = entry_other u e (rw owner (flip u v other)) in
          (
            rw kept (
                sum_more (delta_of u) e db.entries db'.entries (account_for u db).balance
                  (account_for u db).balance entries (no_more _ _ d0) b),
            rw kept nn,
            rw kept (
                sum_more (gain_of u) e db.entries db'.entries (account_for u db).lifetime_earned
                  (account_for u db).lifetime_earned entries (no_more _ _ g0) g),
            rw kept (
                sum_more (cost_of u) e db.entries db'.entries (account_for u db).lifetime_spent
                  (account_for u db).lifetime_spent entries (no_more _ _ c0) c),
          )
    ]

-- A movement that succeeds, of the account as it stands.
pub move_points-Booked :
    (u v : ℕ) (delta : ℤ) (kind : EntryKind) (order : Option ℕ) (db db' : Club)
    → (kind == spent) ≡ false
    → move_points v (account_for v db) delta kind order db ≡ ok db'
    → Booked u db
    → Booked u db'
unfolding move_points moved_account gain_of cost_of
move_points-Booked u v delta kind order db db' free h booked =
    let a = account_for v db in
    let (covered, h1) = guard-eq-ok (ltb_ℤ (a.balance +ℤ delta) (pos 0)) insufficient_balance _ h in
    let (moves, h2) = guard-eq-ok (beq_ℤ delta (pos 0)) integrity_error _ h1 in
    let shape = sym (ok-injective h2) in
    written-Booked u v (moved_account a a delta) (new_entry v kind delta (a.balance +ℤ delta) order)
      db db' (ap (λ (d : Club). d.accounts) shape) (ap (λ (d : Club). d.entries) shape) refl refl
      (enough (a.balance +ℤ delta) covered)
      (rw (eq_self v) (gains (ltb_ℤ (pos 0) delta) a.lifetime_earned))
      (rw (eq_self v, free) (no_more a.lifetime_spent (pos 0) refl)) booked
  where
    enough : (x : ℤ) → ltb_ℤ x (pos 0) ≡ false → pos 0 ≤ℤ x
    enough x e = grind int_laws

    gains : (b : Bool) (x : ℤ) → (if b then x +ℤ delta else x) ≡ x +ℤ (if b then delta else pos 0)
    gains true x = refl
    gains false x = no_more x (pos 0) refl

pub spend-Booked :
    (u v : ℕ) (cost : ℤ) (db db' : Club) → spend v cost db ≡ ok db' → Booked u db → Booked u db'
unfolding spend gain_of cost_of
spend-Booked u v cost db db' h booked =
    let a = account_for v db in
    let (positive, h1) = guard-eq-ok (leb_ℤ cost (pos 0)) rule_violation _ h in
    let (covered, h2) = guard-eq-ok (ltb_ℤ a.balance cost) insufficient_balance _ h1 in
    let shape = sym (ok-injective h2) in
    written-Booked u v (spent_account a cost)
      (new_entry v spent (neg cost) (a.balance -ℤ cost) none) db db'
      (ap (λ (d : Club). d.accounts) shape) (ap (λ (d : Club). d.entries) shape) refl
      (less a.balance) (enough a.balance covered)
      (rw (eq_self v, no_gain positive) (no_more a.lifetime_earned (pos 0) refl))
      (rw (eq_self v) (twice a.lifetime_spent)) booked
  where
    less : (x : ℤ) → x -ℤ cost ≡ x +ℤ neg cost
    less x = grind int_laws

    enough : (x : ℤ) → ltb_ℤ x cost ≡ false → pos 0 ≤ℤ x -ℤ cost
    enough x e = grind int_laws

    no_gain : leb_ℤ cost (pos 0) ≡ false → ltb_ℤ (pos 0) (neg cost) ≡ false
    no_gain e = grind int_laws

    twice : (x : ℤ) → x +ℤ cost ≡ x +ℤ neg (neg cost)
    twice x = grind int_laws

-- A call of the service, and the tables after a list of calls: one that raises is rolled back.
