-- ===== src/Loyalty/Tiers.antt =====
-- `tier_progress` of apps/loyalty/services.py.
use mathlib.Core.Path.{subst}
use elcorazon_backend.Base.{
  ◌≡◌, ◌⊎◌, refl, sym, inl, inr, true, false, Option, none, some, some-injective, List, [], ◌∷◌,
  All, if◌then◌else◌, Bool-cases,
}
use elcorazon_backend.Base.Int.{ℤ, ◌-ℤ◌, ◌≤ℤ◌, ◌<ℤ◌, leb_ℤ, int_laws}
use elcorazon_backend.Base.Rows.{All-imply}

-- `LoyaltyTier`, whose threshold is unique in its table; the name is left out.
pub record LoyaltyTier : Type 0 where
  pub threshold : ℤ

-- `TierProgress`
pub record TierProgress : Type 0 where
  pub tier : Option LoyaltyTier
  pub next_tier : Option LoyaltyTier
  pub points_to_next : Option ℤ

-- The loop of `tier_progress`, from the tier that is reached so far.
unfoldable pub walk_tiers : ℤ → Option LoyaltyTier → List LoyaltyTier → TierProgress
walk_tiers lifetime reached [] = record { tier = reached; next_tier = none; points_to_next = none }
walk_tiers lifetime reached (t ∷ ts) =
    let rest = walk_tiers lifetime (some t) ts in
    if leb_ℤ t.threshold lifetime then rest else record {
      tier = reached;
      next_tier = some t;
      points_to_next = some (t.threshold -ℤ lifetime);
    }

-- `tier_progress`, of the tiers in the order of their thresholds
unfoldable pub tier_progress : ℤ → List LoyaltyTier → TierProgress
tier_progress lifetime tiers = walk_tiers lifetime none tiers

-- In the order of the thresholds.
abbrev pub Ascending : List LoyaltyTier → Type 0
Ascending [] = Unit
Ascending (t ∷ ts) = All (λ p. t.threshold ≤ℤ p.threshold) ts × Ascending ts

-- A tier that is reached is no higher than the tier of the account, and the next tier is no higher
-- than one that is not.
abbrev pub Placed : ℤ → TierProgress → LoyaltyTier → Type 0
Placed lifetime r p =
    (p.threshold ≤ℤ lifetime
      → (t : LoyaltyTier) × (r.tier ≡ some t)
        × (p.threshold ≤ℤ t.threshold)
        × (t.threshold ≤ℤ lifetime))
    × (lifetime <ℤ p.threshold
        → (t : LoyaltyTier) × (r.next_tier ≡ some t)
          × (lifetime <ℤ t.threshold)
          × (t.threshold ≤ℤ p.threshold)
          × (r.points_to_next ≡ some (t.threshold -ℤ lifetime)))

le_trans : (a b c : ℤ) → a ≤ℤ b → b ≤ℤ c → a ≤ℤ c
le_trans a b c h1 h2 = grind int_laws

not_both : (a b : ℤ) → a ≤ℤ b → b <ℤ a → ⊥
not_both a b h1 h2 = absurd (omega int_laws)

reached_le : (a b : ℤ) → leb_ℤ a b ≡ true → a ≤ℤ b
reached_le a b h = grind int_laws

missed_lt : (a b : ℤ) → leb_ℤ a b ≡ false → b <ℤ a
missed_lt a b h = grind int_laws

-- From a tier that is reached, the walk goes up.
walk_tiers-tier :
    (lifetime : ℤ) (q : LoyaltyTier) (ts : List LoyaltyTier)
    → q.threshold ≤ℤ lifetime
    → Ascending (q ∷ ts)
    → (t : LoyaltyTier) × ((walk_tiers lifetime (some q) ts).tier ≡ some t)
      × (q.threshold ≤ℤ t.threshold)
      × (t.threshold ≤ℤ lifetime)
unfolding walk_tiers
walk_tiers-tier lifetime q [] reached up = (q, refl, omega int_laws, reached)
walk_tiers-tier lifetime q (p ∷ ts) reached ((first, others), up) =
    elim (Bool-cases (leb_ℤ p.threshold lifetime)) [
      | inl goes ↦
          let (t, at, above, below) =
            walk_tiers-tier lifetime p ts (reached_le p.threshold lifetime goes) up in
          (t, rw goes at, le_trans q.threshold p.threshold t.threshold first above, below)
      | inr stops ↦ (q, rw stops refl, omega int_laws, reached)
    ]

walk_tiers-Placed :
    (lifetime : ℤ) (reached : Option LoyaltyTier) (ts : List LoyaltyTier)
    → Ascending ts
    → All (Placed lifetime (walk_tiers lifetime reached ts)) ts
unfolding walk_tiers
walk_tiers-Placed lifetime reached [] up = tt
walk_tiers-Placed lifetime reached (t ∷ ts) (above, up) =
    elim (Bool-cases (leb_ℤ t.threshold lifetime)) [
      | inl goes ↦
          let le = reached_le t.threshold lifetime goes in
          let walks : walk_tiers lifetime reached (t ∷ ts) ≡ walk_tiers lifetime (some t) ts =
            rw goes refl in
          subst (λ r. All (Placed lifetime r) (t ∷ ts)) (sym walks)
            (
              (
                λ reaches. walk_tiers-tier lifetime t ts le (above, up),
                λ misses. absurd (not_both t.threshold lifetime le misses),
              ),
              walk_tiers-Placed lifetime (some t) ts up,
            )
      | inr stops ↦
          let lt = missed_lt t.threshold lifetime stops in
          let stop : TierProgress = record {
            tier = reached;
            next_tier = some t;
            points_to_next = some (t.threshold -ℤ lifetime);
          } in
          let walks : walk_tiers lifetime reached (t ∷ ts) ≡ stop = rw stops refl in
          subst (λ r. All (Placed lifetime r) (t ∷ ts)) (sym walks)
            (
              (
                λ reaches. absurd (not_both t.threshold lifetime reaches lt),
                λ misses. (t, refl, lt, omega int_laws, refl),
              ),
              All-imply (λ p. t.threshold ≤ℤ p.threshold) (Placed lifetime stop)
                  (λ p far. (
                    λ reaches. absurd (
                        not_both t.threshold lifetime
                          (le_trans t.threshold p.threshold lifetime far reaches) lt),
                    λ misses. (t, refl, lt, far, refl),
                  ))
                  ts above,
            )
    ]

abbrev pub IsAmong : LoyaltyTier → List LoyaltyTier → Type 0
IsAmong t [] = ⊥
IsAmong t (p ∷ ps) = (t ≡ p) ⊎ IsAmong t ps

-- A tier that is given is one of the tiers and is reached; a next tier that is given is one of them
-- and is not; the points that are missing are given with it and not without it.
abbrev pub Grounded : ℤ → List LoyaltyTier → TierProgress → Type 0
Grounded lifetime tiers r =
    ((t : LoyaltyTier) → r.tier ≡ some t → IsAmong t tiers × (t.threshold ≤ℤ lifetime))
    × ((t : LoyaltyTier)
        → r.next_tier ≡ some t
        → IsAmong t tiers
          × (lifetime <ℤ t.threshold)
          × (r.points_to_next ≡ some (t.threshold -ℤ lifetime)))
    × (r.next_tier ≡ none → r.points_to_next ≡ none)

nothing_there : {t : LoyaltyTier} → none ≡ some t → ⊥
nothing_there e = cc

-- The tier is one of those that are walked, or the one that was reached before.
walk_tiers-Grounded :
    (lifetime : ℤ) (reached : Option LoyaltyTier) (ts : List LoyaltyTier)
    → ((t : LoyaltyTier)
        → (walk_tiers lifetime reached ts).tier ≡ some t
        → (reached ≡ some t) ⊎ IsAmong t ts × (t.threshold ≤ℤ lifetime))
      × ((t : LoyaltyTier)
          → (walk_tiers lifetime reached ts).next_tier ≡ some t
          → IsAmong t ts
            × (lifetime <ℤ t.threshold)
            × ((walk_tiers lifetime reached ts).points_to_next ≡ some (t.threshold -ℤ lifetime)))
      × ((walk_tiers lifetime reached ts).next_tier ≡ none
          → (walk_tiers lifetime reached ts).points_to_next ≡ none)
unfolding walk_tiers
walk_tiers-Grounded lifetime reached [] =
    (λ t h. inl h, (λ t h. absurd (nothing_there h)), λ h. refl)
walk_tiers-Grounded lifetime reached (p ∷ ps) = elim (Bool-cases (leb_ℤ p.threshold lifetime)) [
  | inl goes ↦
      let (own, next, end) = walk_tiers-Grounded lifetime (some p) ps in
      rw goes (
        (λ t h. elim (own t h) [
          | inl here ↦
              let same : p ≡ t = some-injective p t here in
              inr (inl (sym same), rw (← same) (reached_le p.threshold lifetime goes))
          | inr (among, le) ↦ inr (inr among, le)
        ]),
        (λ t h. let (among, lt, missing) = next t h in (inr among, lt, missing)),
        end,
      )
  | inr stops ↦ rw stops (
    (λ t h. inl h),
    (λ t h.
        let same : p ≡ t = some-injective p t h in
        (inl (sym same), rw (← same) (missed_lt p.threshold lifetime stops), rw (← same) refl)),
    λ h. absurd (nothing_there (sym h)),
  )
]

-- For tiers in the order of their thresholds: of the tiers that an account has reached,
-- tier_progress gives the highest, of the others the lowest, with the points that are missing to it.
-- Nothing but one of the tiers is given: a tier that is not reached is never given as reached nor a
-- reached one as the next, and without a next tier no points are missing.
pub tier_progress_lem :
    (lifetime : ℤ) (tiers : List LoyaltyTier)
    → Ascending tiers
    → All (Placed lifetime (tier_progress lifetime tiers)) tiers
      × Grounded lifetime tiers (tier_progress lifetime tiers)
unfolding tier_progress
tier_progress_lem lifetime tiers up =
    let (own, next, end) = walk_tiers-Grounded lifetime none tiers in
    (
      walk_tiers-Placed lifetime none tiers up,
      (
        (λ t h. elim (own t h) [ inl before ↦ absurd (nothing_there before) | inr found ↦ found ]),
        next,
        end,
      ),
    )
