-- ===== src/Tests/Customers.antt =====
-- Runs of apps/loyalty, apps/promotions and apps/orders/idempotency.py.
use elcorazon_backend.Base.{
  ℕ, ◌≡◌, refl, true, false, Option, none, some, List, [], ◌∷◌, nat_eq, string_eq, All, update, ok,
  Result, err, value_or, rule_violation, is_blank, strip, length, String, arith,
}
use elcorazon_backend.Base.Int.{pos, ◌+ℤ◌, ◌*ℤ◌, ◌-ℤ◌, ◌≤ℤ◌, neg, floor_div, int_laws}
use elcorazon_backend.Base.Rows.{sum_of}
use elcorazon_backend.Base.Rounding.{round_half_up, half_up}
use elcorazon_backend.Money.{
  money, xof, add, lt, le, is_positive, percentage, check_currency, currency_beq,
}
use elcorazon_backend.Loyalty.Points.{
  PointsAccount, Reward, Club, free_delivery, account_for, earn, redeem, spend, adjust,
  expire_inactive, move_points, moved_account, earned_for, points_for,
}
use elcorazon_backend.Loyalty.Bookings.{Booked, delta_of}
use elcorazon_backend.Loyalty.Ledger.{earns, redeems, expires, perform, run, points_reconcile}
use elcorazon_backend.Loyalty.Ledger as Ledger
use elcorazon_backend.Loyalty.Replays.{earn_twice, expire_inactive-stale}
use elcorazon_backend.Loyalty.Tiers.{
  LoyaltyTier, Placed, Grounded, tier_progress, tier_progress_lem,
}
use elcorazon_backend.Promotions.Rows.{DiscountKind, Promotion, Codes, is_open_at, is_exhausted}
use elcorazon_backend.Promotions.Codes.{
  quote, compute, raw_discount, capped, check_minimum, assert_same_currency, differs,
}
use elcorazon_backend.Promotions.Discounts.{UnderCeiling, quote-bounded}
use elcorazon_backend.Promotions.Quotas.{Metered}
use elcorazon_backend.Promotions.Releases.{quotas_hold}
use elcorazon_backend.Promotions.Releases as Releases
use elcorazon_backend.Orders.Idempotency.{
  Scope, StoredResponse, Checkout, reserve, complete, release, first_key, replay_or_wait, finish,
  attempt, create_under, create,
}
use elcorazon_backend.Orders.Keys.{slots, take, answer, give_up}
use elcorazon_backend.Orders.Refinement.{Taken, Becomes, idempotency_refines}
use elcorazon_backend.Orders.Once.{Once}

abbrev opening : Club
opening = record { accounts = λ u. none; entries = []; redemptions = [] }

abbrev dessert : Reward
dessert = record {
  is_active = true;
  points_cost = pos 30;
  kind = free_delivery;
  discount_minor = pos 0;
  discount_currency = xof;
}

abbrev rested : PointsAccount
rested = record { balance = pos 10; lifetime_earned = pos 40; lifetime_spent = pos 30 }

abbrev month : List Ledger.Call
month =
    earns 5 1 (money (pos 4050) xof) none
    ∷ earns 5 1 (money (pos 4050) xof) none
    ∷ redeems 5 dessert
    ∷ redeems 5 dessert
    ∷ expires 5 rested
    ∷ []

opening-Booked : Booked 5 opening
unfolding account_for
opening-Booked = (refl, omega int_laws, refl, refl)

points_reconcile_example : Booked 5 (run 100 month opening)
unfolding run perform earn redeem spend adjust expire_inactive move_points moved_account points_for
    floor_div account_for earned_for ◌+ℤ◌ ◌-ℤ◌ neg
points_reconcile_example =
    points_reconcile 100 5 month opening (tt, (tt, (tt, (tt, (refl, tt))))) opening-Booked

abbrev credited : Club
credited = value_or opening (earn 100 5 1 (money (pos 4050) xof) none opening)

earn_twice_example : earn 100 5 1 (money (pos 9000) xof) (some (pos 7)) credited ≡ ok credited
unfolding earn move_points points_for floor_div account_for ◌+ℤ◌
earn_twice_example =
    earn_twice 100 5 1 (money (pos 4050) xof) (money (pos 9000) xof) none (some (pos 7)) opening
      credited refl refl

abbrev asleep : PointsAccount
asleep = record { balance = pos 12; lifetime_earned = pos 12; lifetime_spent = pos 0 }

stale_expiry :
    (db' : Club) × (expire_inactive 5 asleep opening ≡ ok db')
    × ((account_for 5 db').balance ≡ pos 0)
    × (sum_of (delta_of 5) db'.entries ≡ (account_for 5 opening).balance -ℤ pos 12)
stale_expiry = expire_inactive-stale 5 asleep opening refl opening-Booked

abbrev bronze : LoyaltyTier
bronze = record { threshold = pos 0 }

abbrev gold : LoyaltyTier
gold = record { threshold = pos 500 }

tier_progress_lem_example :
    All (Placed (pos 120) (tier_progress (pos 120) (bronze ∷ gold ∷ []))) (bronze ∷ gold ∷ [])
    × Grounded (pos 120) (bronze ∷ gold ∷ []) (tier_progress (pos 120) (bronze ∷ gold ∷ []))
tier_progress_lem_example =
    tier_progress_lem (pos 120) (bronze ∷ gold ∷ []) ((omega int_laws, tt), (tt, tt))

abbrev welcome : Promotion
welcome = record {
  kind = DiscountKind.percentage;
  hundredths = 5000;
  amount = none;
  starts_at = 10;
  ends_at = 20;
  min_order_amount = some (money (pos 1000) xof);
  max_discount = some (money (pos 1500) xof);
  usage_limit = some 2;
  usage_limit_per_user = some 1;
  used_count = 0;
  restaurant = none;
  owner = none;
  is_active = true;
}

abbrev codes : Codes
codes = record { promotions = update (λ n. none) 4 (some welcome); redemptions = [] }

quote-bounded_example :
    (p : Promotion) × (◌≡◌ {A = Option ℕ} (some 4) (some 4))
    × (codes.promotions 4 ≡ some p)
    × (is_open_at p 15 ≡ true)
    × (differs p.owner 5 ≡ false)
    × (differs p.restaurant 1 ≡ false)
    × (is_exhausted p ≡ false)
    × (is_positive (money (pos 1500) xof) ≡ true)
    × UnderCeiling p.max_discount (money (pos 1500) xof)
    × (xof ≡ xof)
    × (pos 1500 ≤ℤ pos 4000 +ℤ pos 500)
unfolding quote compute raw_discount capped check_minimum assert_same_currency is_open_at
    is_exhausted percentage round_half_up half_up lt le add check_currency currency_beq ◌*ℤ◌ ◌+ℤ◌
quote-bounded_example =
    quote-bounded (some 4) 5 1 (money (pos 4000) xof) (money (pos 500) xof) 15 codes 4
      (money (pos 1500) xof) refl

abbrev uses : List Releases.Call
uses =
    Releases.redeems 4 5 1 (money (pos 1500) xof)
    ∷ Releases.redeems 4 5 2 (money (pos 1500) xof)
    ∷ Releases.redeems 4 6 3 (money (pos 1500) xof)
    ∷ Releases.releases 1
    ∷ []

codes-Metered : Metered 4 codes
codes-Metered = (welcome, refl, refl, omega arith, (λ u. omega arith), λ o. omega arith)

quotas_hold_example : Metered 4 (Releases.run uses codes)
quotas_hold_example = quotas_hold 4 uses codes codes-Metered

abbrev checkout : Scope
checkout = record { user = 5; endpoint = "orders:create"; key = "k-1" }

abbrev created : StoredResponse
created = record { status = 201; body = "commande 9" }

idempotency_refines_example :
    Taken checkout [] (take (slots [] checkout)) (reserve checkout [])
    × ((o : ℕ) (stored : StoredResponse)
        → Becomes [] checkout (answer stored (slots [] checkout)) (complete checkout o stored []))
    × Becomes [] checkout (give_up (slots [] checkout)) (release checkout [])
idempotency_refines_example = idempotency_refines checkout [] (λ s. omega arith)

abbrev empty_checkout : Checkout (List ℕ)
empty_checkout = record { keys = []; store = [] }

-- The orders are a list of numbers; a second order would have the next number.
abbrev next_order : List ℕ → Result (ℕ × List ℕ)
next_order orders = ok (length orders, length orders ∷ orders)

abbrev detail : ℕ → List ℕ → Result String
detail o orders = ok "commande"

abbrev broken_detail : ℕ → List ℕ → Result String
broken_detail o orders = err rule_violation

-- Two calls under a key, and one without a key, create one order.
one_order :
    ((create next_order detail 5 "k-1"
        (create next_order detail 5 " k-1 " empty_checkout).1).1.store
      ≡ 0 ∷ [])
    × ((create next_order detail 5 " " empty_checkout).1.store ≡ [])
unfolding create create_under attempt finish reserve replay_or_wait first_key complete is_blank
    strip
one_order = (refl, refl)
