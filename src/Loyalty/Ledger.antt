-- ===== src/Loyalty/Ledger.antt =====
-- Histories of the points of apps/loyalty/services.py, against their journal.
use elcorazon_backend.Base.{
  ℕ, ◌≡◌, refl, sym, ap, inl, inr, not, ◌||◌, Option, none, some, List, [], ◌∷◌, nat_eq, Result, ok,
  err, value_or, rule_violation, >>=-eq-ok, guard-eq-ok, ok-injective, Bool-cases,
}
use elcorazon_backend.Base.Int.{ℤ, pos, neg, leb_ℤ, beq_ℤ}
use elcorazon_backend.Base.Rows.{exists}
use elcorazon_backend.Money.{Money}
use elcorazon_backend.Loyalty.Points.{
  PointsAccount, earned, expired, adjusted, kind_eq, Reward, Club, points_for, account_for,
  earned_for, points_or, earn, spend, redeem, adjust, expire_inactive,
}
use elcorazon_backend.Loyalty.Bookings.{Booked, kept-Booked, move_points-Booked, spend-Booked}

-- An expiry is made with whatever copy of the account the caller holds.
pub data Call : Type 0 where
  earns : ℕ → ℕ → Money → Option ℤ → Call
  redeems : ℕ → Reward → Call
  adjusts : ℕ → ℤ → Call
  expires : ℕ → PointsAccount → Call

-- An expiry is made with the account as it stands.
abbrev pub Current : Call → Club → Type 0
Current (expires u copy) db = copy ≡ account_for u db
Current _ db = Unit

module _ (divisor : ℕ) where
  unfoldable pub perform : Call → Club → Result Club
  perform (earns u o total points) db = earn divisor u o total points db
  perform (redeems u reward) db = redeem u reward db
  perform (adjusts u points) db = adjust u points db
  perform (expires u copy) db = expire_inactive u copy db

  unfoldable pub run : List Call → Club → Club
  run [] db = db
  run (call ∷ calls) db = run calls (value_or db (perform call db))

  -- Every call of a history finds what `C` says of it.
  abbrev pub Along : (Call → Club → Type 0) → List Call → Club → Type 0
  Along C [] db = Unit
  Along C (call ∷ calls) db = C call db × Along C calls (value_or db (perform call db))

  perform-Booked :
      (u : ℕ) (call : Call) (db db' : Club)
      → Current call db
      → perform call db ≡ ok db'
      → Booked u db
      → Booked u db'
  unfolding perform earn redeem adjust expire_inactive
  perform-Booked u (earns v o total points) db db' met h booked =
      let amount = points_or points (points_for divisor total) in
      elim (Bool-cases (leb_ℤ amount (pos 0) || exists (earned_for v o) db.entries)) [
        | inl skips ↦ rw (sym (ok-injective (rw skips at h))) booked
        | inr counts ↦
            move_points-Booked u v amount earned (some o) db db' refl (rw counts at h) booked
      ]
  perform-Booked u (redeems v reward) db db' met h booked =
      let (offered, h1) = guard-eq-ok (not reward.is_active) rule_violation _ h in
      let (paid, bought, h2) = >>=-eq-ok (spend v reward.points_cost db) _ h1 in
      let shape = sym (ok-injective h2) in
      kept-Booked u paid db' (ap (λ (d : Club). d.accounts) shape)
        (ap (λ (d : Club). d.entries) shape)
        (spend-Booked u v reward.points_cost db paid bought booked)
  perform-Booked u (adjusts v points) db db' met h booked =
      let (gives, h1) = guard-eq-ok (leb_ℤ points (pos 0)) rule_violation _ h in
      move_points-Booked u v points adjusted none db db' refl h1 booked
  perform-Booked u (expires v copy) db db' met h booked =
      expires-Booked u v db db' (rw met at h) booked
    where
      expires-Booked :
          (u v : ℕ) (db db' : Club)
          → expire_inactive v (account_for v db) db ≡ ok db'
          → Booked u db
          → Booked u db'
      expires-Booked u v db db' h booked =
          let a = account_for v db in
          elim (Bool-cases (beq_ℤ a.balance (pos 0))) [
            | inl empty ↦ rw (sym (ok-injective (rw empty at h))) booked
            | inr full ↦
                move_points-Booked u v (neg a.balance) expired none db db' refl (rw full at h)
                  booked
          ]

  -- Whatever orders are credited, rewards taken, adjustments made and accounts expired, failing or
  -- not, as long as every expiry is made with the account as it stands then: if at the start the
  -- balance of a customer is the sum of the journal of this customer and not negative, and what was
  -- ever earned and spent are the sums of the credits and of the exchanges, it is so at the end.
  pub points_reconcile :
      (u : ℕ) (calls : List Call) (db : Club)
      → Along Current calls db
      → Booked u db
      → Booked u (run calls db)
  unfolding run
  points_reconcile u [] db met booked = booked
  points_reconcile u (call ∷ calls) db (here, later) booked =
      points_reconcile u calls (value_or db (perform call db)) later (step (perform call db) refl)
    where
      step : (r : Result Club) → perform call db ≡ r → Booked u (value_or db r)
      step (ok d) h = perform-Booked u call db d here h booked
      step (err e) h = booked
