-- ===== src/Loyalty/Replays.antt =====
-- A delivery that is credited again, and an expiry with a copy that is out of date, of
-- apps/loyalty/services.py.
use elcorazon_backend.Base.{
  ℕ, ◌≡◌, refl, sym, ap, inl, inr, Bool, true, false, ◌||◌, Option, none, some, List, [], ◌∷◌, ◌++◌,
  nat_eq, eq_self, update, if◌then◌else◌, Result, ok, insufficient_balance, integrity_error,
  guard-eq-ok, ok-injective, Bool-cases,
}
use elcorazon_backend.Base.Int.{ℤ, pos, ◌+ℤ◌, ◌-ℤ◌, neg, ltb_ℤ, leb_ℤ, beq_ℤ, int_laws}
use elcorazon_backend.Base.Rows.{exists, sum_of, sum_of-insert}
use elcorazon_backend.Money.{Money}
use elcorazon_backend.Loyalty.Points.{
  PointsAccount, earned, expired, kind_eq, PointsEntry, Club, points_for, account_for,
  moved_account, new_entry, move_points, earned_for, points_or, earn, expire_inactive,
}
use elcorazon_backend.Loyalty.Bookings.{Booked, delta_of}

exists-insert :
    (p : PointsEntry → Bool) (e : PointsEntry) (es : List PointsEntry)
    → p e ≡ true
    → exists p (es ++ (e ∷ [])) ≡ true
exists-insert p e [] h = rw h refl
exists-insert p e (x ∷ es) h = rw (exists-insert p e es h) (or_true (p x))
  where
    or_true : (b : Bool) → (b || true) ≡ true
    or_true true = refl
    or_true false = refl

-- A delivery is credited once: to credit it again, for whatever amount, changes nothing.
pub earn_twice :
    (divisor u o : ℕ) (total again : Money) (points more : Option ℤ) (db db' : Club)
    → earn divisor u o total points db ≡ ok db'
    → leb_ℤ (points_or points (points_for divisor total)) (pos 0) ≡ false
    → earn divisor u o again more db' ≡ ok db'
unfolding earn move_points earned_for
earn_twice divisor u o total again points more db db' h gains =
    elim (Bool-cases (exists (earned_for u o) db.entries)) [
      | inl before ↦
          let same : db' ≡ db = sym (ok-injective (rw (gains, before) at h)) in
          rw (same, before) (skip (leb_ℤ (points_or more (points_for divisor again)) (pos 0)) db _)
      | inr first ↦
          let a = account_for u db in
          let amount = points_or points (points_for divisor total) in
          let (covered, h1) =
            guard-eq-ok (ltb_ℤ (a.balance +ℤ amount) (pos 0)) insufficient_balance _
              (rw (gains, first) at h) in
          let (moves, h2) = guard-eq-ok (beq_ℤ amount (pos 0)) integrity_error _ h1 in
          let entry = new_entry u earned amount (a.balance +ℤ amount) (some o) in
          let booked : exists (earned_for u o) db'.entries ≡ true =
            rw (ap (λ (d : Club). d.entries) (sym (ok-injective h2)))
              (exists-insert (earned_for u o) entry db.entries (rw (eq_self u, eq_self o) refl)) in
          rw booked (skip (leb_ℤ (points_or more (points_for divisor again)) (pos 0)) db' _)
    ]
  where
    skip : (b : Bool) (d : Club) (k : Result Club) → (if b || true then ok d else k) ≡ ok d
    skip true d k = refl
    skip false d k = refl

-- An expiry that works on a copy of the account writes a balance of zero over whatever the account
-- has earned since, and books only what the copy had.
pub expire_inactive-stale :
    (u : ℕ) (copy : PointsAccount) (db : Club)
    → beq_ℤ copy.balance (pos 0) ≡ false
    → Booked u db
    → (db' : Club) × (expire_inactive u copy db ≡ ok db')
      × ((account_for u db').balance ≡ pos 0)
      × (sum_of (delta_of u) db'.entries ≡ (account_for u db).balance -ℤ copy.balance)
unfolding expire_inactive move_points account_for moved_account delta_of
expire_inactive-stale u copy db holds (b, nn, g, c) =
    let row : PointsAccount = moved_account (account_for u db) copy (neg copy.balance) in
    let entry = new_entry u expired (neg copy.balance) (copy.balance +ℤ neg copy.balance) none in
    (
      record db {
        accounts = update db.accounts u (some row);
        entries = db.entries ++ (entry ∷ []);
      },
      rw (holds, covered copy.balance, moves copy.balance holds) refl,
      rw (eq_self u) (emptied copy.balance),
      rw (sum_of-insert (delta_of u) entry db.entries, eq_self u, ← b)
          (less (account_for u db).balance copy.balance),
    )
  where
    emptied : (x : ℤ) → x +ℤ neg x ≡ pos 0
    emptied x = grind int_laws

    covered : (x : ℤ) → ltb_ℤ (x +ℤ neg x) (pos 0) ≡ false
    covered x = rw (emptied x) refl

    moves : (x : ℤ) → beq_ℤ x (pos 0) ≡ false → beq_ℤ (neg x) (pos 0) ≡ false
    moves x h = grind int_laws

    less : (x y : ℤ) → x +ℤ neg y ≡ x -ℤ y
    less x y = grind int_laws
