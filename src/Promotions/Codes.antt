-- ===== src/Promotions/Codes.antt =====
-- `PromotionService` of apps/promotions/services.py. The row that a code names, without regard to
-- case, is given; the details of a refusal are left out.
use elcorazon_backend.Base.{
  ℕ, suc, ◌-◌, Bool, false, not, ◌&&◌, Option, none, some, List, [], ◌∷◌, ◌++◌, nat_eq, ◌==◌,
  update, if◌then◌else◌, Result, ok, ◌>>=◌, ◌>>◌, raise_if, or_raise, promotion_refused,
  does_not_exist,
}
use elcorazon_backend.Base.Rows.{count, exists}
use elcorazon_backend.Money.{Money, currency_eq, add, lt, le, is_positive, percentage}
use elcorazon_backend.Promotions.Rows.{
  DiscountKind, Promotion, Redemption, Codes, is_open_at, reaches, is_exhausted,
}

-- `_assert_same_currency`
unfoldable pub assert_same_currency : Money → Money → Result (Unit {0})
assert_same_currency left right = raise_if (not (left.currency == right.currency)) promotion_refused

-- The discount before its ceilings, in `_compute`.
unfoldable pub raw_discount : Promotion → Money → Money → Result Money
raw_discount p subtotal fee = of_kind p.kind
  where
    of_kind : DiscountKind → Result Money
    of_kind DiscountKind.free_delivery = ok fee
    of_kind DiscountKind.fixed = do
      montant ← or_raise p.amount promotion_refused
      assert_same_currency montant subtotal
      ok montant
    of_kind DiscountKind.percentage = ok (percentage subtotal p.hundredths)

-- `max_discount`
unfoldable pub capped : Option Money → Money → Result Money
capped none brut = ok brut
capped (some ceiling) brut = do over ← lt ceiling brut; ok (if over then ceiling else brut)

-- `_compute`
unfoldable pub compute : Promotion → Money → Money → Result Money
compute p subtotal fee = do
  brut ← raw_discount p subtotal fee
  held ← capped p.max_discount brut
  remisable ← add subtotal fee
  fits ← le held remisable
  ok (if fits then held else remisable)

-- `PromotionRedemption.objects.filter(promotion=n, user=u)`
unfoldable pub used_by : ℕ → ℕ → Redemption → Bool
used_by n u r = r.promotion == n && r.user == u

-- `PromotionRedemption.objects.filter(promotion=n, order_id=o)`
unfoldable pub used_for : ℕ → ℕ → Redemption → Bool
used_for n o r = r.promotion == n && r.order == o

-- `x is not None and x != y`
abbrev pub differs : Option ℕ → ℕ → Bool
differs none y = false
differs (some x) y = not (x == y)

-- The minimum of an order.
unfoldable pub check_minimum : Option Money → Money → Result (Unit {0})
check_minimum none subtotal = ok tt
check_minimum (some minimum) subtotal = do
  assert_same_currency minimum subtotal
  under ← lt subtotal minimum
  raise_if under promotion_refused

-- `quote`, of the row that the code names
unfoldable pub quote : Option ℕ → ℕ → ℕ → Money → Money → ℕ → Codes → Result (ℕ × Money)
quote named user restaurant subtotal fee instant db = do
  n ← or_raise named promotion_refused
  p ← or_raise (db.promotions n) promotion_refused
  raise_if (not (is_open_at p instant)) promotion_refused
  raise_if (differs p.owner user) promotion_refused
  raise_if (differs p.restaurant restaurant) promotion_refused
  raise_if (is_exhausted p) promotion_refused
  raise_if (reaches p.usage_limit_per_user (count (used_by n user) db.redemptions))
      promotion_refused
  check_minimum p.min_order_amount subtotal
  discount ← compute p subtotal fee
  raise_if (not (is_positive discount)) promotion_refused
  ok (n, discount)

abbrev pub new_redemption : ℕ → ℕ → ℕ → Money → Redemption
new_redemption n u o discount = record { promotion = n; user = u; order = o; discount = discount }

-- `redeem`, of the promotion number `n`. Under its lock no other call inserts the pair, so the
-- recovery from the unique constraint is not reached.
unfoldable pub redeem : ℕ → ℕ → ℕ → Money → Codes → Result Codes
redeem n u o discount db = do
  p ← or_raise (db.promotions n) does_not_exist
  (if exists (used_for n o) db.redemptions then ok db else (do
    raise_if (is_exhausted p) promotion_refused
    raise_if (reaches p.usage_limit_per_user (count (used_by n u) db.redemptions)) promotion_refused
    ok (record {
      promotions = update db.promotions n (some (record p { used_count = suc p.used_count }));
      redemptions = db.redemptions ++ (new_redemption n u o discount ∷ []);
    })))

-- `filter(pk=n, used_count__gt=0).update(used_count=F("used_count") - 1)`
unfoldable pub give_back : ℕ → (ℕ → Option Promotion) → ℕ → Option Promotion
give_back n promotions = written (promotions n)
  where
    written : Option Promotion → ℕ → Option Promotion
    written none = promotions
    written (some p) = update promotions n (some (record p { used_count = p.used_count - 1 }))

-- The loop of `release`: the promotions, the redemptions that are left, and how many are not.
unfoldable pub release_rows :
    ℕ → List Redemption → (ℕ → Option Promotion) → (ℕ → Option Promotion) × List Redemption × ℕ
release_rows o [] promotions = (promotions, [], 0)
release_rows o (r ∷ rest) promotions =
    let given = if r.order == o then give_back r.promotion promotions else promotions in
    let (after, kept, rendues) = release_rows o rest given in
    if r.order == o then (after, kept, suc rendues) else (after, r ∷ kept, rendues)

-- `release`
unfoldable pub release : ℕ → Codes → Codes × ℕ
release o db =
    let (after, kept, rendues) = release_rows o db.redemptions db.promotions in
    (record { promotions = after; redemptions = kept }, rendues)
