-- ===== src/Promotions/Releases.antt =====
-- `release` of apps/promotions/services.py, and histories of redemptions and releases.
use elcorazon_backend.Base.{
  ℕ, ◌+◌, ◌-◌, ◌≤◌, ◌≡◌, refl, ap, ◌∙◌, inl, inr, Bool, false, Option, some, List, [], ◌∷◌, nat_eq,
  ◌==◌, eq_self, eq_of_beq, Result, ok, err, value_or, Bool-cases, Option-cases, arith,
}
use elcorazon_backend.Base.Rows.{bit, count}
use elcorazon_backend.Money.{Money}
use elcorazon_backend.Promotions.Rows.{Promotion, Redemption, Codes}
use elcorazon_backend.Promotions.Codes.{used_by, used_for, redeem, give_back, release_rows, release}
use elcorazon_backend.Promotions.Quotas.{flip, use_of, Metered, Within-le, redeem-Metered}

give_back-own :
    (n m : ℕ) (promotions : ℕ → Option Promotion) (p : Promotion)
    → promotions n ≡ some p
    → m ≡ n
    → give_back m promotions n ≡ some (record p { used_count = p.used_count - 1 })
unfolding give_back
give_back-own n m promotions p found here = rw (here, found, eq_self n) refl

give_back-other :
    (n m : ℕ) (promotions : ℕ → Option Promotion)
    → (n == m) ≡ false
    → give_back m promotions n ≡ promotions n
unfolding give_back
give_back-other n m promotions other = elim (Option-cases (promotions m)) [
  | inl missing ↦ rw missing refl
  | inr (q, there) ↦ rw (there, other) refl
]

-- What a release keeps of any kind of redemptions is no more than there were.
release_rows-count :
    (keeps : Redemption → Bool) (o : ℕ) (rs : List Redemption) (promotions : ℕ → Option Promotion)
    → count keeps (release_rows o rs promotions).1 ≤ count keeps rs
unfolding release_rows
release_rows-count keeps o [] promotions = omega arith
release_rows-count keeps o (r ∷ rest) promotions = elim (Bool-cases (r.order == o)) [
  | inl goes ↦
      let fewer = release_rows-count keeps o rest (give_back r.promotion promotions) in
      rw goes (omega (arith, fewer))
  | inr stays ↦
      let fewer = release_rows-count keeps o rest promotions in rw stays (omega (arith, fewer))
]

-- The promotion `n` after a release: only its counter has changed, by the redemptions that went.
abbrev pub GivenBack :
    ℕ → Promotion → List Redemption → (ℕ → Option Promotion) → List Redemption → Type 0
GivenBack n p rs after kept =
    (p' : Promotion) × (after n ≡ some p')
    × (p'.usage_limit ≡ p.usage_limit)
    × (p'.usage_limit_per_user ≡ p.usage_limit_per_user)
    × (p'.used_count + count (use_of n) rs ≡ p.used_count + count (use_of n) kept)

release_rows-GivenBack :
    (n o : ℕ) (rs : List Redemption) (promotions : ℕ → Option Promotion) (p : Promotion)
    → promotions n ≡ some p
    → count (use_of n) rs ≤ p.used_count
    → GivenBack n p rs (release_rows o rs promotions).0 (release_rows o rs promotions).1
unfolding release_rows
release_rows-GivenBack n o [] promotions p found enough = (p, found, refl, refl, refl)
release_rows-GivenBack n o (r ∷ rest) promotions p found enough = elim (Bool-cases (r.order == o)) [
  | inl goes ↦ elim (Bool-cases (r.promotion == n)) [
    | inl own ↦
        let here : r.promotion ≡ n = eq_of_beq r.promotion n own in
        let counts : bit (use_of n r) ≡ 1 = ap bit own in
        let (p', at, l, lu, sum) =
          release_rows-GivenBack n o rest (give_back r.promotion promotions)
            (record p { used_count = p.used_count - 1 })
            (give_back-own n r.promotion promotions p found here) (omega arith) in
        rw goes (p', at, l, lu, omega arith)
    | inr other ↦
        let counts : bit (use_of n r) ≡ 0 = ap bit other in
        let (p', at, l, lu, sum) =
          release_rows-GivenBack n o rest (give_back r.promotion promotions) p
            (give_back-other n r.promotion promotions (flip r.promotion n other) ∙ found)
            (omega arith) in
        rw goes (p', at, l, lu, omega arith)
  ]
  | inr stays ↦
      let (p', at, l, lu, sum) = release_rows-GivenBack n o rest promotions p found (omega arith) in
      rw stays (p', at, l, lu, omega arith)
]

release-Metered : (n o : ℕ) (db : Codes) → Metered n db → Metered n (release o db).0
unfolding release
release-Metered n o db (p, found, counted, limited, persons, orders) =
    let (p', at, l, lu, sum) =
      release_rows-GivenBack n o db.redemptions db.promotions p found (omega arith) in
    let fewer = release_rows-count (use_of n) o db.redemptions db.promotions in
    (
      p',
      at,
      omega arith,
      rw l (Within-le p.usage_limit p.used_count p'.used_count (omega arith) limited),
      λ v. rw lu (
          Within-le p.usage_limit_per_user (count (used_by n v) db.redemptions) _
            (release_rows-count (used_by n v) o db.redemptions db.promotions) (persons v)),
      λ v.
          omega (arith, release_rows-count (used_for n v) o db.redemptions db.promotions, orders v),
    )

-- A redemption, of a promotion by a customer for an order, or the release of an order.
pub data Call : Type 0 where
  redeems : ℕ → ℕ → ℕ → Money → Call
  releases : ℕ → Call

unfoldable pub perform : Call → Codes → Result Codes
perform (redeems n u o discount) db = redeem n u o discount db
perform (releases o) db = ok (release o db).0

unfoldable pub run : List Call → Codes → Codes
run [] db = db
run (call ∷ calls) db = run calls (value_or db (perform call db))

-- In whatever order codes are used for orders and orders give them back, failing or not: if at the
-- start the counter of a promotion is the number of its uses and the limits are kept, it is so at
-- the end, and no order has used it twice.
pub quotas_hold : (n : ℕ) (calls : List Call) (db : Codes) → Metered n db → Metered n (run calls db)
unfolding run perform
quotas_hold n [] db metered = metered
quotas_hold n (releases o ∷ calls) db metered =
    quotas_hold n calls (release o db).0 (release-Metered n o db metered)
quotas_hold n (redeems m u o d ∷ calls) db metered =
    quotas_hold n calls (value_or db (redeem m u o d db)) (step (redeem m u o d db) refl)
  where
    step : (r : Result Codes) → redeem m u o d db ≡ r → Metered n (value_or db r)
    step (ok db') h = redeem-Metered n m u o d db db' metered h
    step (err e) h = metered
