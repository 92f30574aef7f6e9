-- ===== src/Money/Allocate.antt =====
-- `Money.allocate` of common/money.py: its loop, and what it gives out.
use elcorazon_backend.Base.{
  ℕ, zero, suc, ◌+◌, ◌*◌, ◌%◌, ◌≤◌, ◌<◌, ◌≡◌, ◌≢◌, refl, sym, ap, ◌∙◌, inl, inr, false, List, [],
  ◌∷◌, map, length, Bool-cases, ok, arith, ok-injective,
}
use elcorazon_backend.Base.Int.{
  ℤ, pos, negsuc, pos_part, ◌+ℤ◌, ◌-ℤ◌, ◌*ℤ◌, ◌≤ℤ◌, beq_ℤ_iff, sum_ℤ, floor_div, int_laws,
  no_neg_part, *ℤ_parts, +ℤ_parts, *ℤ-add, *ℤ-+ℤ, *ℤ-cancel, floor_div-le, lt-floor_div,
}
use native.Mathlib.Nat.{add-zero, zero-add, mod-eq_of_lt}
use native.Mathlib.Numerals.{add-one}
use elcorazon_backend.Money.{
  Currency, Money, money, any_negative, floor_shares, bump, distribute, refuses, shares_of,
  allocate,
}

sum-bump : (i : ℕ) (xs : List ℤ) → i < length xs → sum_ℤ (bump i xs) ≡ sum_ℤ xs +ℤ pos 1
unfolding bump
sum-bump i [] h = elim h [ ]
sum-bump zero (x ∷ xs) h = omega int_laws
sum-bump (suc i) (x ∷ xs) h = rw (sum-bump i xs (omega arith)) (omega int_laws)

length-bump : (i : ℕ) (xs : List ℤ) → length (bump i xs) ≡ length xs
unfolding bump
length-bump i [] = refl
length-bump zero (x ∷ xs) = refl
length-bump (suc i) (x ∷ xs) = omega (arith, length-bump i xs)

length-distribute : (k i : ℕ) (xs : List ℤ) → length (distribute k i xs) ≡ length xs
unfolding distribute
length-distribute zero i xs = refl
length-distribute (suc k) i xs =
    omega
      (arith, length-distribute k (i + 1) (bump (i % length xs) xs), length-bump (i % length xs) xs)

-- Every round of the loop gives one unit.
sum-distribute :
    (k i : ℕ) (xs : List ℤ) → 0 < length xs → sum_ℤ (distribute k i xs) ≡ sum_ℤ xs +ℤ pos k
unfolding distribute
sum-distribute zero i xs h = omega int_laws
sum-distribute (suc k) i xs h =
    rw
      (
        sum-distribute k (i + 1) (bump (i % length xs) xs)
            (omega (arith, length-bump (i % length xs) xs)),
        sum-bump (i % length xs) xs (grind arith),
      )
      (omega int_laws)

length-floor_shares : (a : ℤ) (t : ℕ) (ws : List ℤ) → length (floor_shares a t ws) ≡ length ws
unfolding floor_shares
length-floor_shares a t [] = refl
length-floor_shares a t (w ∷ ws) = omega (arith, length-floor_shares a t ws)

sum_nonneg : (ws : List ℤ) → any_negative ws ≡ false → pos 0 ≤ℤ sum_ℤ ws
unfolding any_negative
sum_nonneg [] h = omega arith
sum_nonneg (w ∷ ws) h = ground (arith, +ℤ_parts w (sum_ℤ ws), sum_nonneg ws)

pos_part_sum : (a b : ℤ) → pos 0 ≤ℤ a → pos 0 ≤ℤ b → pos_part (a +ℤ b) ≡ pos_part a + pos_part b
unfolding ◌+ℤ◌
pos_part_sum a b ha hb = ground arith

-- The floors of the shares never exceed the amount, and miss it by less than one unit each.
sum-floor_shares :
    (a : ℤ) (t : ℕ) (ws : List ℤ)
    → 0 < t
    → any_negative ws ≡ false
    → (sum_ℤ (floor_shares a t ws) *ℤ t ≤ℤ a *ℤ pos_part (sum_ℤ ws))
      × (a *ℤ pos_part (sum_ℤ ws) ≤ℤ sum_ℤ (floor_shares a t ws) *ℤ t +ℤ pos (t * length ws))
unfolding floor_shares any_negative
sum-floor_shares a t [] pt h = omega (int_laws, *ℤ_parts (pos 0) t, *ℤ_parts a 0)
sum-floor_shares a t (w ∷ ws) pt h =
    let W : ℕ = pos_part (sum_ℤ ws) in
    let S : ℤ = sum_ℤ (floor_shares a t ws) in
    let q : ℤ = floor_div (a *ℤ pos_part w) t in
    let (below, above) = sum-floor_shares a t ws pt (ground arith) in
    rw
      (
        pos_part_sum w (sum_ℤ ws) (ground arith) (sum_nonneg ws (ground arith)),
        *ℤ-add a (pos_part w) W,
        *ℤ-+ℤ q S t,
      )
      (
        omega (int_laws, floor_div-le (a *ℤ pos_part w) t pt),
        omega (int_laws, lt-floor_div (a *ℤ pos_part w) t pt),
      )

-- The first `k` shares, one unit more.
unfoldable pub add_ones : ℕ → List ℤ → List ℤ
add_ones zero xs = xs
add_ones (suc k) [] = []
add_ones (suc k) (x ∷ xs) = (x +ℤ pos 1) ∷ add_ones k xs

length-add_ones : (k : ℕ) (xs : List ℤ) → length (add_ones k xs) ≡ length xs
unfolding add_ones
length-add_ones zero xs = refl
length-add_ones (suc k) [] = refl
length-add_ones (suc k) (x ∷ xs) = omega (arith, length-add_ones k xs)

bump-add_ones : (k : ℕ) (xs : List ℤ) → k < length xs → bump k (add_ones k xs) ≡ add_ones (suc k) xs
unfolding bump add_ones
bump-add_ones k [] h = elim h [ ]
bump-add_ones zero (x ∷ xs) h = refl
bump-add_ones (suc k) (x ∷ xs) h = rw (bump-add_ones k xs (omega arith))

distribute-add_ones :
    (k i : ℕ) (xs : List ℤ)
    → i + k ≤ length xs
    → distribute k i (add_ones i xs) ≡ add_ones (i + k) xs
unfolding distribute
distribute-add_ones zero i xs h = rw add-zero
distribute-add_ones (suc k) i xs h =
    rw (length-add_ones i xs, mod-eq_of_lt (room i k h), bump-add_ones i xs (room i k h), add-one)
      (rw (distribute-add_ones k (suc i) xs (omega arith)) (rw (shift i k)))
  where
    room : (i k : ℕ) → i + suc k ≤ length xs → i < length xs
    room i k h = omega arith

    shift : (i k : ℕ) → suc i + k ≡ i + suc k
    shift i k = omega arith

unfoldable pub minors : List Money → List ℤ
minors [] = []
minors (m ∷ ms) = m.amount_minor ∷ minors ms

unfoldable pub IsIn : Currency → List Money → Type 0
IsIn c [] = Unit
IsIn c (m ∷ ms) = (m.currency ≡ c) × IsIn c ms

minors-map : (c : Currency) (xs : List ℤ) → minors (map (λ s. money s c) xs) ≡ xs
unfolding minors
minors-map c [] = refl
minors-map c (x ∷ xs) = rw (minors-map c xs)

IsIn-map : (c : Currency) (xs : List ℤ) → IsIn c (map (λ s. money s c) xs)
unfolding IsIn
IsIn-map c [] = tt
IsIn-map c (x ∷ xs) = (refl, IsIn-map c xs)

pub length-minors : (ms : List Money) → length (minors ms) ≡ length ms
unfolding minors
length-minors [] = refl
length-minors (m ∷ ms) = omega (arith, length-minors ms)

-- What the weights give before the remainder is dealt out.
unfoldable pub floors : Money → List ℤ → List ℤ
floors a ws = floor_shares a.amount_minor (pos_part (sum_ℤ ws)) ws

unfoldable pub rest_of : Money → List ℤ → ℤ
rest_of a ws = a.amount_minor -ℤ sum_ℤ (floors a ws)

pos_of_nonneg : (z : ℤ) → pos 0 ≤ℤ z → z ≢ pos 0 → 0 < pos_part z
pos_of_nonneg (pos zero) h nz = absurd (nz refl)
pos_of_nonneg (pos (suc n)) h nz = omega arith
pos_of_nonneg (negsuc n) h nz = omega arith

-- The remainder is no more than one unit for each weight.
rest_of_bounds :
    (a : Money) (ws : List ℤ)
    → any_negative ws ≡ false
    → sum_ℤ ws ≢ pos 0
    → (pos 0 ≤ℤ rest_of a ws) × (rest_of a ws ≤ℤ pos (length ws))
unfolding rest_of floors
rest_of_bounds a ws h nz =
    let t : ℕ = pos_part (sum_ℤ ws) in
    let S : ℤ = sum_ℤ (floor_shares a.amount_minor t ws) in
    let pt : 0 < t = pos_of_nonneg (sum_ℤ ws) (sum_nonneg ws h) nz in
    let (low, high) = sum-floor_shares a.amount_minor t ws pt h in
    let up : a.amount_minor ≤ℤ S +ℤ pos (length ws) =
      *ℤ-cancel a.amount_minor (S +ℤ pos (length ws)) t pt
        (rw (*ℤ-+ℤ S (pos (length ws)) t) (omega (int_laws, *ℤ_parts (pos (length ws)) t, high))) in
    let down : S ≤ℤ a.amount_minor = *ℤ-cancel S a.amount_minor t pt low in
    (omega int_laws, omega int_laws)

refuses-guard :
    (ws : List ℤ)
    → refuses ws ≡ false
    → (0 < length ws) × (any_negative ws ≡ false) × (sum_ℤ ws ≢ pos 0)
unfolding refuses
refuses-guard ws h =
    (ground arith, ground arith, λ z. ground (arith, (beq_ℤ_iff (sum_ℤ ws) (pos 0)).1 z))

-- A call that returns has passed the guard on the weights.
allocate-inv :
    (a : Money) (ws : List ℤ) {shares : List Money}
    → allocate a ws ≡ ok shares
    → (refuses ws ≡ false) × (shares ≡ map (λ s. money s a.currency) (shares_of a.amount_minor ws))
unfolding allocate
allocate-inv a ws h = elim (Bool-cases (refuses ws)) [
  | inl bad ↦ cc (rw bad at h)
  | inr fine ↦ (fine, sym (ok-injective (rw fine at h)))
]

-- `allocate` gives each weight its floor, and one unit more to as many of the first weights as the
-- floors leave units over, which are no more than there are weights.
pub allocate_lem :
    (a : Money) (ws : List ℤ) {shares : List Money}
    → allocate a ws ≡ ok shares
    → (minors shares ≡ add_ones (pos_part (rest_of a ws)) (floors a ws))
      × IsIn a.currency shares
      × (rest_of a ws ≤ℤ pos (length ws))
unfolding shares_of rest_of floors add_ones
allocate_lem a ws h =
    let (fine, built) = allocate-inv a ws h in
    let (some_weight, signs, total) = refuses-guard ws fine in
    let (low, high) = rest_of_bounds a ws signs total in
    (
      rw (built, minors-map a.currency)
          (distribute-add_ones (pos_part (rest_of a ws)) 0 (floors a ws) (
              omega (
                arith,
                no_neg_part _ low,
                length-floor_shares a.amount_minor (pos_part (sum_ℤ ws)) ws,
              ))
            ∙ rw zero-add),
      rw built (IsIn-map a.currency _),
      high,
    )

-- The shares are as many as the weights, and add up to the amount: no minor unit is lost.
pub sum-allocate :
    (a : Money) (ws : List ℤ) {shares : List Money}
    → allocate a ws ≡ ok shares
    → (length shares ≡ length ws) × (sum_ℤ (minors shares) ≡ a.amount_minor)
unfolding shares_of rest_of floors
sum-allocate a ws {shares} h =
    let (fine, built) = allocate-inv a ws h in
    let (some_weight, signs, total) = refuses-guard ws fine in
    let (low, high) = rest_of_bounds a ws signs total in
    let S : List ℤ = floors a ws in
    let counted = length-floor_shares a.amount_minor (pos_part (sum_ℤ ws)) ws in
    (
      omega (
        arith,
        length-minors shares,
        length-distribute (pos_part (rest_of a ws)) 0 S,
        counted,
        ap length (ap minors built ∙ minors-map a.currency _),
      ),
      rw
          (
            built,
            minors-map a.currency,
            sum-distribute (pos_part (rest_of a ws)) 0 S (omega (arith, counted)),
          )
          (omega (int_laws, no_neg_part _ low)),
    )
