-- ===== src/Promotions/Rows.antt =====
-- apps/promotions/models.py. Persons, establishments and orders are numbers, a moment is a number,
-- a percentage of two decimals is a number of hundredths; texts are left out.
use elcorazon_backend.Base.{ℕ, Bool, false, ◌&&◌, Option, none, some, List, ltb, leb}
use elcorazon_backend.Money.{Money}

-- `DiscountKind`
pub data DiscountKind : Type 0 where
  percentage fixed free_delivery : DiscountKind

-- `Promotion`
pub record Promotion : Type 0 where
  pub kind : DiscountKind
  pub hundredths : ℕ
  pub amount : Option Money
  pub starts_at : ℕ
  pub ends_at : ℕ
  pub min_order_amount : Option Money
  pub max_discount : Option Money
  pub usage_limit : Option ℕ
  pub usage_limit_per_user : Option ℕ
  pub used_count : ℕ
  pub restaurant : Option ℕ
  pub owner : Option ℕ
  pub is_active : Bool

-- `PromotionRedemption`
pub record Redemption : Type 0 where
  pub promotion : ℕ
  pub user : ℕ
  pub order : ℕ
  pub discount : Money

pub record Codes : Type 0 where
  pub promotions : ℕ → Option Promotion
  pub redemptions : List Redemption

-- `is_open_at`
unfoldable pub is_open_at : Promotion → ℕ → Bool
is_open_at p instant = p.is_active && leb p.starts_at instant && ltb instant p.ends_at

-- `limit is not None and n >= limit`
abbrev pub reaches : Option ℕ → ℕ → Bool
reaches none n = false
reaches (some limit) n = leb limit n

-- `is_exhausted`
unfoldable pub is_exhausted : Promotion → Bool
is_exhausted p = reaches p.usage_limit p.used_count
