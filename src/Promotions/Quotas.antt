-- ===== src/Promotions/Quotas.antt =====
-- The quotas of apps/promotions/services.py, over histories of redemptions and releases.
use elcorazon_backend.Base.{
  ℕ, suc, ◌≤◌, ◌≡◌, refl, sym, ap, ◌∙◌, inl, inr, Bool, true, false, Option, none, some,
  some-injective, List, [], ◌∷◌, ◌++◌, nat_eq, ◌==◌, eq_self, eq_of_beq, update, ok, or_raise,
  promotion_refused, does_not_exist, >>=-eq-ok, or_raise-eq-ok, guard-eq-ok, ok-injective,
  Bool-cases, arith,
}
use elcorazon_backend.Base.Rows.{bit, count, exists, count-insert, count-exists}
use elcorazon_backend.Money.{Money}
use elcorazon_backend.Promotions.Rows.{Promotion, Redemption, Codes, reaches, is_exhausted}
use elcorazon_backend.Promotions.Codes.{used_by, used_for, new_redemption, redeem}

-- The redemptions of the promotion `n`.
abbrev pub use_of : ℕ → Redemption → Bool
use_of n r = r.promotion == n

-- No more than a limit, when there is one.
abbrev pub Within : Option ℕ → ℕ → Type 0
Within none k = Unit
Within (some limit) k = k ≤ limit

-- The counter of the promotion `n` is the number of its redemptions and within its limit; so are the
-- redemptions of each customer; and an order has one redemption of it at most.
abbrev pub Metered : ℕ → Codes → Type 0
Metered n db =
    (p : Promotion) × (db.promotions n ≡ some p)
    × (p.used_count ≡ count (use_of n) db.redemptions)
    × Within p.usage_limit p.used_count
    × ((u : ℕ) → Within p.usage_limit_per_user (count (used_by n u) db.redemptions))
    × ((o : ℕ) → count (used_for n o) db.redemptions ≤ 1)

Within-suc : (limit : Option ℕ) (k : ℕ) → reaches limit k ≡ false → Within limit (suc k)
Within-suc none k h = tt
Within-suc (some l) k h = ground arith

pub Within-le : (limit : Option ℕ) (k j : ℕ) → j ≤ k → Within limit k → Within limit j
Within-le none k j h w = tt
Within-le (some l) k j h w = omega arith

pub flip : (i j : ℕ) → (i == j) ≡ false → (j == i) ≡ false
flip i j h = ground arith

-- A redemption of another promotion.
other_use :
    (n m u o : ℕ) (d : Money)
    → (n == m) ≡ false
    → (use_of n (new_redemption m u o d) ≡ false)
      × ((v : ℕ) → used_by n v (new_redemption m u o d) ≡ false)
      × ((v : ℕ) → used_for n v (new_redemption m u o d) ≡ false)
unfolding used_by used_for
other_use n m u o d other = let apart = flip n m other in rw apart (refl, (λ v. refl), λ v. refl)

-- A new redemption of the promotion itself: what is counted of a customer, and of an order.
own_use :
    (n u o : ℕ) (d : Money) (rows : List Redemption) (limit : Option ℕ)
    → reaches limit (count (used_by n u) rows) ≡ false
    → exists (used_for n o) rows ≡ false
    → ((v : ℕ) → Within limit (count (used_by n v) rows))
    → ((v : ℕ) → count (used_for n v) rows ≤ 1)
    → (count (use_of n) (rows ++ (new_redemption n u o d ∷ [])) ≡ suc (count (use_of n) rows))
      × ((v : ℕ) → Within limit (count (used_by n v) (rows ++ (new_redemption n u o d ∷ []))))
      × ((v : ℕ) → count (used_for n v) (rows ++ (new_redemption n u o d ∷ [])) ≤ 1)
unfolding used_by used_for
own_use n u o d rows limit fresh first persons orders = (
  omega (arith, count-insert (use_of n) row rows, ap bit (eq_self n)),
  λ v. elim (Bool-cases (u == v)) [
    | inl same ↦
        let more : count (used_by n v) (rows ++ (row ∷ [])) ≡ suc (count (used_by n v) rows) =
          omega (arith, count-insert (used_by n v) row rows, ap bit (of_customer v same)) in
        rw more (Within-suc limit (count (used_by n v) rows) (rw (eq_of_beq u v same) at fresh))
    | inr other ↦
        let same_count : count (used_by n v) (rows ++ (row ∷ [])) ≡ count (used_by n v) rows =
          omega (arith, count-insert (used_by n v) row rows, ap bit (of_other v other)) in
        rw same_count (persons v)
  ],
  λ v. elim (Bool-cases (o == v)) [
    | inl same ↦ omega (
      arith,
      count-insert (used_for n v) row rows,
      count-exists (used_for n v) rows (rw (eq_of_beq o v same) at first),
      bit_le (used_for n v row),
    )
    | inr other ↦
        omega
          (arith, count-insert (used_for n v) row rows, orders v, ap bit (of_other_order v other))
  ],
)
  where
    row : Redemption
    row = new_redemption n u o d

    of_customer : (v : ℕ) → (u == v) ≡ true → used_by n v row ≡ true
    of_customer v same = rw (eq_self n, same) refl

    of_other : (v : ℕ) → (u == v) ≡ false → used_by n v row ≡ false
    of_other v other = rw (eq_self n, other) refl

    of_other_order : (v : ℕ) → (o == v) ≡ false → used_for n v row ≡ false
    of_other_order v other = rw (eq_self n, other) refl

    bit_le : (b : Bool) → bit b ≤ 1
    bit_le true = omega arith
    bit_le false = omega arith

-- A redemption that succeeds.
pub redeem-Metered :
    (n m u o : ℕ) (d : Money) (db db' : Codes)
    → Metered n db
    → redeem m u o d db ≡ ok db'
    → Metered n db'
unfolding redeem is_exhausted
redeem-Metered n m u o d db db' (p, found, counted, limited, persons, orders) h =
    let (q, asked, h1) = >>=-eq-ok (or_raise (db.promotions m) does_not_exist) _ h in
    elim (Bool-cases (exists (used_for m o) db.redemptions)) [
      | inl again ↦
          rw (sym (ok-injective (rw again at h1))) (p, found, counted, limited, persons, orders)
      | inr first ↦
          let (left, h2) =
            guard-eq-ok (reaches q.usage_limit q.used_count) promotion_refused _ (rw first at h1) in
          let (fresh, h3) =
            guard-eq-ok (reaches q.usage_limit_per_user (count (used_by m u) db.redemptions))
              promotion_refused _ h2 in
          rw (sym (ok-injective h3)) (written q (or_raise-eq-ok _ _ asked) left fresh first)
    ]
  where
    written :
        (q : Promotion)
        → db.promotions m ≡ some q
        → reaches q.usage_limit q.used_count ≡ false
        → reaches q.usage_limit_per_user (count (used_by m u) db.redemptions) ≡ false
        → exists (used_for m o) db.redemptions ≡ false
        → Metered n (record {
          promotions = update db.promotions m (some (record q { used_count = suc q.used_count }));
          redemptions = db.redemptions ++ (new_redemption m u o d ∷ []);
        })
    written q there left fresh first = elim (Bool-cases (n == m)) [
      | inl same ↦
          let here : n ≡ m = eq_of_beq n m same in
          let this : q ≡ p = some-injective q p (sym there ∙ ap db.promotions (sym here) ∙ found) in
          let (more, persons', orders') =
            own_use n u o d db.redemptions p.usage_limit_per_user (rw (this, ← here) at fresh)
              (rw (← here) at first) persons orders in
          (
            record p { used_count = suc p.used_count },
            rw (same, this) refl,
            rw (← here, more, counted) refl,
            Within-suc p.usage_limit p.used_count (rw this at left),
            rw (← here) persons',
            rw (← here) orders',
          )
      | inr other ↦
          let (not_use, not_by, not_for) = other_use n m u o d other in
          (
            p,
            rw other found,
            omega (
              arith,
              counted,
              count-insert (use_of n) (new_redemption m u o d) db.redemptions,
              ap bit not_use,
            ),
            limited,
            λ v.
                Within-le p.usage_limit_per_user (count (used_by n v) db.redemptions) _
                  (omega (
                    arith,
                    count-insert (used_by n v) (new_redemption m u o d) db.redemptions,
                    ap bit (not_by v),
                  ))
                  (persons v),
            λ v. omega (
              arith,
              count-insert (used_for n v) (new_redemption m u o d) db.redemptions,
              ap bit (not_for v),
              orders v,
            ),
          )
    ]
