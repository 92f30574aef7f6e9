-- ===== src/Promotions/Discounts.antt =====
-- What `quote` of apps/promotions/services.py grants.
use elcorazon_backend.Base.{
  ℕ, ◌≡◌, refl, sym, ap, ◌∙◌, Bool, true, false, not, Option, none, some, nat_eq, if◌then◌else◌, ok,
  or_raise, promotion_refused, >>=-eq-ok, or_raise-eq-ok, guard-eq-ok, ok-injective, arith,
}
use elcorazon_backend.Base.Int.{ℤ, ◌+ℤ◌, ◌≤ℤ◌, ltb_ℤ, leb_ℤ, int_laws}
use elcorazon_backend.Base.Rows.{count}
use elcorazon_backend.Money.{Money, money, currency_eq, add, lt, le, is_positive}
use elcorazon_backend.Money.Sums.{add-inv, lt-inv, le-inv}
use elcorazon_backend.Promotions.Rows.{Promotion, Codes, is_open_at, reaches, is_exhausted}
use elcorazon_backend.Promotions.Codes.{
  raw_discount, capped, compute, used_by, differs, check_minimum, quote,
}

-- No more than the ceiling of the promotion, when it has one.
abbrev pub UnderCeiling : Option Money → Money → Type 0
UnderCeiling none d = Unit
UnderCeiling (some ceiling) d = d.amount_minor ≤ℤ ceiling.amount_minor

not_over : (a b : ℤ) → ltb_ℤ b a ≡ false → a ≤ℤ b
not_over a b e = grind int_laws

capped-UnderCeiling :
    (ceiling : Option Money) (brut held : Money)
    → capped ceiling brut ≡ ok held
    → UnderCeiling ceiling held
unfolding capped
capped-UnderCeiling none brut held h = tt
capped-UnderCeiling (some m) brut held h =
    let (over, asked, h1) = >>=-eq-ok (lt m brut) _ h in
    cut over (lt-inv m brut asked).1 (ok-injective h1)
  where
    cut :
        (over : Bool)
        → over ≡ ltb_ℤ m.amount_minor brut.amount_minor
        → (if over then m else brut) ≡ held
        → held.amount_minor ≤ℤ m.amount_minor
    cut true e same = rw (← same) (omega int_laws)
    cut false e same = rw (← same) (not_over brut.amount_minor m.amount_minor (sym e))

-- The smaller of two amounts keeps the ceiling.
UnderCeiling-smaller :
    (ceiling : Option Money) (held whole d : Money) (fits : Bool)
    → fits ≡ leb_ℤ held.amount_minor whole.amount_minor
    → held.currency ≡ whole.currency
    → (if fits then held else whole) ≡ d
    → UnderCeiling ceiling held
    → UnderCeiling ceiling d
      × (d.currency ≡ whole.currency)
      × (d.amount_minor ≤ℤ whole.amount_minor)
UnderCeiling-smaller ceiling held whole d true e one same under =
    rw (← same) (under, one, le_of held.amount_minor whole.amount_minor (sym e))
  where
    le_of : (a b : ℤ) → leb_ℤ a b ≡ true → a ≤ℤ b
    le_of a b h = grind int_laws
UnderCeiling-smaller none held whole d false e one same under =
    rw (← same) (tt, refl, omega int_laws)
UnderCeiling-smaller (some m) held whole d false e one same under = rw (← same) (
  le_trans whole.amount_minor held.amount_minor m.amount_minor (sym e) under,
  refl,
  omega int_laws,
)
  where
    le_trans : (a b c : ℤ) → leb_ℤ b a ≡ false → b ≤ℤ c → a ≤ℤ c
    le_trans a b c h1 h2 = grind int_laws

compute-bounded :
    (p : Promotion) (subtotal fee d : Money)
    → compute p subtotal fee ≡ ok d
    → UnderCeiling p.max_discount d
      × (d.currency ≡ subtotal.currency)
      × (d.amount_minor ≤ℤ subtotal.amount_minor +ℤ fee.amount_minor)
unfolding compute
compute-bounded p subtotal fee d h =
    let (brut, raw, h1) = >>=-eq-ok (raw_discount p subtotal fee) _ h in
    let (held, cut, h2) = >>=-eq-ok (capped p.max_discount brut) _ h1 in
    let (whole, summed, h3) = >>=-eq-ok (add subtotal fee) _ h2 in
    let (fits, asked, h4) = >>=-eq-ok (le held whole) _ h3 in
    let (one, decided) = le-inv held whole asked in
    let (under, single, small) =
      UnderCeiling-smaller p.max_discount held whole d fits decided one (ok-injective h4)
        (capped-UnderCeiling p.max_discount brut held cut) in
    of_whole whole (add-inv subtotal fee summed).1 under single small
  where
    of_whole :
        (whole : Money)
        → whole ≡ money (subtotal.amount_minor +ℤ fee.amount_minor) subtotal.currency
        → UnderCeiling p.max_discount d
        → d.currency ≡ whole.currency
        → d.amount_minor ≤ℤ whole.amount_minor
        → UnderCeiling p.max_discount d
          × (d.currency ≡ subtotal.currency)
          × (d.amount_minor ≤ℤ subtotal.amount_minor +ℤ fee.amount_minor)
    of_whole whole e under single small = (under, rw e at single, rw e at small)

-- A quote that is given is of a promotion that is open at that moment, not exhausted, and for this
-- customer and this establishment when it names one; the discount is positive, in the currency of
-- the order, and no more than the ceiling of the promotion nor than the subtotal with the fee.
pub quote-bounded :
    (named : Option ℕ) (user restaurant : ℕ) (subtotal fee : Money) (instant : ℕ) (db : Codes)
    (n : ℕ) (d : Money)
    → quote named user restaurant subtotal fee instant db ≡ ok (n, d)
    → (p : Promotion) × (named ≡ some n)
      × (db.promotions n ≡ some p)
      × (is_open_at p instant ≡ true)
      × (differs p.owner user ≡ false)
      × (differs p.restaurant restaurant ≡ false)
      × (is_exhausted p ≡ false)
      × (is_positive d ≡ true)
      × UnderCeiling p.max_discount d
      × (d.currency ≡ subtotal.currency)
      × (d.amount_minor ≤ℤ subtotal.amount_minor +ℤ fee.amount_minor)
unfolding quote
quote-bounded named user restaurant subtotal fee instant db n d h =
    let (m, asked, h1) = >>=-eq-ok (or_raise named promotion_refused) _ h in
    let (p, found, h2) = >>=-eq-ok (or_raise (db.promotions m) promotion_refused) _ h1 in
    let (begun, h3) = guard-eq-ok (not (is_open_at p instant)) promotion_refused _ h2 in
    let (own, h4) = guard-eq-ok (differs p.owner user) promotion_refused _ h3 in
    let (here, h5) = guard-eq-ok (differs p.restaurant restaurant) promotion_refused _ h4 in
    let (left, h6) = guard-eq-ok (is_exhausted p) promotion_refused _ h5 in
    let (fresh, h7) =
      guard-eq-ok (reaches p.usage_limit_per_user (count (used_by m user) db.redemptions))
        promotion_refused _ h6 in
    let (u, enough, h8) = >>=-eq-ok (check_minimum p.min_order_amount subtotal) _ h7 in
    let (e, computed, h9) = >>=-eq-ok (compute p subtotal fee) _ h8 in
    let (gains, h10) = guard-eq-ok (not (is_positive e)) promotion_refused _ h9 in
    let same : ◌≡◌ {A = ℕ × Money} (m, e) (n, d) = ok-injective h10 in
    let m_n : m ≡ n = ap (λ (r : ℕ × Money). r.0) same in
    let e_d : e ≡ d = ap (λ (r : ℕ × Money). r.1) same in
    let (under, single, small) = compute-bounded p subtotal fee d (computed ∙ ap ok e_d) in
    (
      p,
      or_raise-eq-ok _ _ asked ∙ ap some m_n,
      ap db.promotions (sym m_n) ∙ or_raise-eq-ok _ _ found,
      not-false (is_open_at p instant) begun,
      own,
      here,
      left,
      ap is_positive (sym e_d) ∙ not-false (is_positive e) gains,
      under,
      single,
      small,
    )
  where
    not-false : (b : Bool) → not b ≡ false → b ≡ true
    not-false b k = ground arith
