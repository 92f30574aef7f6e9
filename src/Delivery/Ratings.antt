-- ===== src/Delivery/Ratings.antt =====
-- `CourierRatingService` of apps/delivery/services.py: the rating of a delivered course, and the mean
-- of a courier. A mean is a number of hundredths. The quotient of the source has 28 digits and is
-- then rounded; the division here is exact, which is the same for fewer than 10 ^ 24 ratings.
use elcorazon_backend.Base.{
  ℕ, suc, ◌+◌, ◌*◌, ◌≤◌, ◌<◌, ◌≡◌, refl, sym, ap, ◌⊎◌, inl, inr, Bool, false, not, ◌||◌, some,
  some-injective, List, [], ◌∷◌, ◌++◌, nat_eq, ◌==◌, eq_of_beq, ltb, Result, ok, err, ◌>>=◌, ◌>>◌,
  raise_if, or_raise, value_or, rule_violation, does_not_exist, integrity_error, >>=-eq-ok,
  or_raise-eq-ok, guard-eq-ok, ok-injective, Bool-cases, arith,
}
use mathlib.Core.Path.{subst}
use elcorazon_backend.Base.Rows.{row_at, bit, count, exists, count-insert, count-exists}
use elcorazon_backend.Base.Rounding.{half_up, half_up_near}
use elcorazon_backend.Delivery.States.{delivered, status_eq}
use elcorazon_backend.Delivery.Rows.{CourierProfile, Fleet}
use elcorazon_backend.Delivery.Files.{save_courier}

-- `CourierRating`
pub record CourierRating : Type 0 where
  pub assignment : ℕ
  pub customer : ℕ
  pub score : ℕ

-- The tables of the courses, and the ratings.
pub record Ratings : Type 0 where
  pub fleet : Fleet
  pub ratings : List CourierRating

-- `_recompute_average`
unfoldable pub recompute_average : CourierProfile → ℕ → CourierProfile
recompute_average k score = record k {
  rating_count = suc k.rating_count;
  rating_average = half_up (k.rating_average * k.rating_count + 100 * score) (suc k.rating_count);
}

-- The check constraint `courier_rating_score_range`.
abbrev pub out_of_range : ℕ → Bool
out_of_range score = ltb score 1 || ltb 5 score

-- `rate`
unfoldable pub rate : ℕ → ℕ → ℕ → Ratings → Result Ratings
rate n customer score db = do
  a ← or_raise (row_at n db.fleet.assignments) does_not_exist
  raise_if (not (a.status == delivered)) rule_violation
  raise_if (exists (λ (r : CourierRating). r.assignment == n) db.ratings) rule_violation
  raise_if (out_of_range score) integrity_error
  courier ← or_raise (db.fleet.couriers a.courier) does_not_exist
  ok (record {
    fleet = save_courier a.courier (recompute_average courier score) db.fleet;
    ratings = db.ratings ++ (record { assignment = n; customer = customer; score = score } ∷ []);
  })

-- The number of a course, the rating of which is given, and a customer with a score.
unfoldable pub run : List (ℕ × ℕ × ℕ) → Ratings → Ratings
run [] db = db
run ((n, customer, score) ∷ calls) db = run calls (value_or db (rate n customer score db))

scaled_le : (d m h : ℕ) → 0 < d → 2 * d * h ≤ 2 * m + d → m ≤ 500 * d → h ≤ 500
scaled_le d m h pos near small = grind arith

scaled_ge : (d m h : ℕ) → 0 < d → 2 * m < 2 * d * h + d → 100 * d ≤ m → 100 ≤ h
scaled_ge d m h pos near large = grind arith

-- Nobody is rated, or the mean is between one and five.
abbrev pub InRange : CourierProfile → Type 0
InRange k = (k.rating_count ≡ 0) ⊎ ((100 ≤ k.rating_average) × (k.rating_average ≤ 500))

-- No course has two ratings, and the means are in range.
abbrev pub Fair : Ratings → Type 0
Fair db =
    ((n : ℕ) → count (λ (r : CourierRating). r.assignment == n) db.ratings ≤ 1)
    × ((c : ℕ) (k : CourierProfile) → db.fleet.couriers c ≡ some k → InRange k)

times_le : (a b n : ℕ) → a ≤ b → a * n ≤ b * n
times_le a b n h = grind arith

mean_range :
    (n average score : ℕ)
    → (n ≡ 0) ⊎ ((100 ≤ average) × (average ≤ 500))
    → out_of_range score ≡ false
    → (100 * suc n ≤ average * n + 100 * score) × (average * n + 100 * score ≤ 500 * suc n)
mean_range n average score (inl first) h = ground arith
mean_range n average score (inr (low, high)) h =
    let at_least = times_le 100 average n low in
    let at_most = times_le average 500 n high in (ground arith, ground arith)

recompute-InRange :
    (k : CourierProfile) (score : ℕ)
    → InRange k
    → out_of_range score ≡ false
    → InRange (recompute_average k score)
unfolding recompute_average
recompute-InRange k score fair h =
    let n = k.rating_count in
    let m = k.rating_average * n + 100 * score in
    let (low, high) = half_up_near m (suc n) (omega arith) in
    let (above, below) = mean_range n k.rating_average score fair h in
    inr (
      scaled_ge (suc n) m _ (omega arith) high above,
      scaled_le (suc n) m _ (omega arith) low below,
    )

at_most_one :
    (m : ℕ) (new : CourierRating) (rows : List CourierRating)
    → exists (λ (r : CourierRating). r.assignment == new.assignment) rows ≡ false
    → count (λ (r : CourierRating). r.assignment == m) rows ≤ 1
    → count (λ (r : CourierRating). r.assignment == m) (rows ++ (new ∷ [])) ≤ 1
at_most_one m new rows fresh once = elim (Bool-cases (new.assignment == m)) [
  | inl same ↦
      let here : new.assignment ≡ m = eq_of_beq new.assignment m same in
      omega (
        arith,
        count-insert (λ (r : CourierRating). r.assignment == m) new rows,
        count-exists (λ (r : CourierRating). r.assignment == m) rows (rw here at fresh),
        ap bit same,
      )
  | inr other ↦
      omega (
        arith,
        count-insert (λ (r : CourierRating). r.assignment == m) new rows,
        once,
        ap bit other,
      )
]

rate-Fair :
    (n customer score : ℕ) (db db' : Ratings)
    → Fair db
    → rate n customer score db ≡ ok db'
    → Fair db'
unfolding rate
rate-Fair n customer score db db' (once, means) h =
    let (a, asked, h1) = >>=-eq-ok (or_raise (row_at n db.fleet.assignments) does_not_exist) _ h in
    let (over, h2) = guard-eq-ok (not (a.status == delivered)) rule_violation _ h1 in
    let (fresh, h3) =
      guard-eq-ok (exists (λ (r : CourierRating). r.assignment == n) db.ratings) rule_violation _
        h2 in
    let (sane, h4) = guard-eq-ok (out_of_range score) integrity_error _ h3 in
    let (k, known, h5) = >>=-eq-ok (or_raise (db.fleet.couriers a.courier) does_not_exist) _ h4 in
    let new : CourierRating = record { assignment = n; customer = customer; score = score } in
    rw (sym (ok-injective h5)) (
      λ m. at_most_one m new db.ratings fresh (once m),
      λ c x found. elim (Bool-cases (c == a.courier)) [
        | inl same ↦
            let this : recompute_average k score ≡ x =
              some-injective (recompute_average k score) x (rw same at found) in
            subst InRange this
              (recompute-InRange k score (means a.courier k (or_raise-eq-ok _ _ known)) sane)
        | inr other ↦ means c x (rw other at found)
      ],
    )

-- In whatever order courses are rated, with whatever scores, failing or not: no course has two
-- ratings, and the mean of a courier who is rated stays between one and five.
pub ratings_hold : (calls : List (ℕ × ℕ × ℕ)) (db : Ratings) → Fair db → Fair (run calls db)
unfolding run
ratings_hold [] db fair = fair
ratings_hold ((n, customer, score) ∷ calls) db fair =
    ratings_hold calls (value_or db (rate n customer score db))
      (step (rate n customer score db) refl)
  where
    step : (r : Result Ratings) → rate n customer score db ≡ r → Fair (value_or db r)
    step (ok d) h = rate-Fair n customer score db d fair h
    step (err e) h = fair
