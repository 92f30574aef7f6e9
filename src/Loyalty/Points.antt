-- ===== src/Loyalty/Points.antt =====
-- apps/loyalty/services.py: the points of the customers, and the journal of their movements. An
-- account is kept under its user; a code that is minted is kept as its owner and its kind; dates,
-- labels and the random text of the code are left out. Points are integers of Python.
use elcorazon_backend.Base.{
  ℕ, Bool, false, not, ◌&&◌, ◌||◌, Option, none, some, List, [], ◌∷◌, ◌++◌, Eq, Eq-of_code, ◌≡◌,
  refl, zero, suc, nat_eq, ◌==◌, update, if◌then◌else◌, Result, ok, ◌>>=◌, ◌>>◌, raise_if,
  rule_violation, insufficient_balance, integrity_error,
}
use elcorazon_backend.Base.Int.{ℤ, pos, ◌+ℤ◌, ◌-ℤ◌, neg, ltb_ℤ, leb_ℤ, beq_ℤ, floor_div}
use elcorazon_backend.Base.Rows.{exists}
use elcorazon_backend.Money.{Money, Currency, money}

-- `PointsAccount`
pub record PointsAccount : Type 0 where
  pub balance : ℤ
  pub lifetime_earned : ℤ
  pub lifetime_spent : ℤ

-- `EntryKind`
pub data EntryKind : Type 0 where
  earned spent expired adjusted : EntryKind

abbrev pub kind_code : EntryKind → ℕ
kind_code earned = 0
kind_code spent = 1
kind_code expired = 2
kind_code adjusted = 3

abbrev kind_decode : ℕ → EntryKind
kind_decode zero = earned
kind_decode (suc zero) = spent
kind_decode (suc (suc zero)) = expired
kind_decode _ = adjusted

pub kind_decode-code : (k : EntryKind) → kind_decode (kind_code k) ≡ k
kind_decode-code earned = refl
kind_decode-code _ = refl

instance abbrev pub kind_eq : Eq EntryKind
kind_eq = Eq-of_code kind_code kind_decode kind_decode-code

-- `PointsEntry`
pub record PointsEntry : Type 0 where
  pub account : ℕ
  pub kind : EntryKind
  pub delta : ℤ
  pub balance_after : ℤ
  pub order : Option ℕ

-- `RewardKind`
pub data RewardKind : Type 0 where
  discount free_delivery : RewardKind

-- `Reward`
pub record Reward : Type 0 where
  pub is_active : Bool
  pub points_cost : ℤ
  pub kind : RewardKind
  pub discount_minor : ℤ
  pub discount_currency : Currency

-- The promotion that `_mint_code` creates, for one use by its owner.
pub record MintedCode : Type 0 where
  pub owner : ℕ
  pub amount : Option Money

-- `RewardRedemption`, with the number of its entry in the journal
pub record RewardRedemption : Type 0 where
  pub user : ℕ
  pub points_spent : ℤ
  pub minted : MintedCode

pub record Club : Type 0 where
  pub accounts : ℕ → Option PointsAccount
  pub entries : List PointsEntry
  pub redemptions : List RewardRedemption

-- `points_for`; `divisor` is `LOYALTY_MINOR_UNITS_PER_POINT`.
unfoldable pub points_for : ℕ → Money → ℤ
points_for divisor amount =
    let points = floor_div amount.amount_minor divisor in
    if ltb_ℤ points (pos 0) then pos 0 else points

abbrev pub new_account : PointsAccount
new_account = record { balance = pos 0; lifetime_earned = pos 0; lifetime_spent = pos 0 }

-- `get_or_create(user=u)`, and `account_for`
unfoldable pub account_for : ℕ → Club → PointsAccount
account_for u db = found (db.accounts u)
  where
    found : Option PointsAccount → PointsAccount
    found none = new_account
    found (some a) = a

-- The row after `_move` has saved the columns that it touches of the account `a`.
unfoldable pub moved_account : PointsAccount → PointsAccount → ℤ → PointsAccount
moved_account row a delta = record row {
  balance = a.balance +ℤ delta;
  lifetime_earned = if ltb_ℤ (pos 0) delta then a.lifetime_earned +ℤ delta else row.lifetime_earned;
}

abbrev pub new_entry : ℕ → EntryKind → ℤ → ℤ → Option ℕ → PointsEntry
new_entry u kind delta after order = record {
  account = u;
  kind = kind;
  delta = delta;
  balance_after = after;
  order = order;
}

-- `_move`, of the account `a` that the caller has read; the journal refuses an empty movement (`points_entry_not_empty`).
unfoldable pub move_points : ℕ → PointsAccount → ℤ → EntryKind → Option ℕ → Club → Result Club
move_points u a delta kind order db = do
  raise_if (ltb_ℤ (a.balance +ℤ delta) (pos 0)) insufficient_balance
  raise_if (beq_ℤ delta (pos 0)) integrity_error
  ok (record db {
    accounts = update db.accounts u (some (moved_account (account_for u db) a delta));
    entries = db.entries ++ (new_entry u kind delta (a.balance +ℤ delta) order ∷ []);
  })

abbrev pub is_order : Option ℕ → ℕ → Bool
is_order none o = false
is_order (some p) o = p == o

-- `PointsEntry.objects.filter(account=account, order=order, kind=EntryKind.EARNED)`
unfoldable pub earned_for : ℕ → ℕ → PointsEntry → Bool
earned_for u o e = e.account == u && is_order e.order o && e.kind == earned

abbrev pub points_or : Option ℤ → ℤ → ℤ
points_or none computed = computed
points_or (some points) computed = points

-- `earn`, of the order number `o`
unfoldable pub earn : ℕ → ℕ → ℕ → Money → Option ℤ → Club → Result Club
earn divisor u o total points db =
    let amount = points_or points (points_for divisor total) in
    if leb_ℤ amount (pos 0) || exists (earned_for u o) db.entries
    then ok db
    else move_points u (account_for u db) amount earned (some o) db

abbrev pub spent_account : PointsAccount → ℤ → PointsAccount
spent_account a cost = record a {
  balance = a.balance -ℤ cost;
  lifetime_spent = a.lifetime_spent +ℤ cost;
}

-- `_spend`
unfoldable pub spend : ℕ → ℤ → Club → Result Club
spend u cost db = do
  raise_if (leb_ℤ cost (pos 0)) rule_violation
  (let a = account_for u db in
      do
        raise_if (ltb_ℤ a.balance cost) insufficient_balance
        ok (record db {
          accounts = update db.accounts u (some (spent_account a cost));
          entries = db.entries ++ (new_entry u spent (neg cost) (a.balance -ℤ cost) none ∷ []);
        }))

-- `_mint_code`
unfoldable pub mint_code : ℕ → Reward → MintedCode
mint_code u reward = record { owner = u; amount = amount_of reward.kind }
  where
    amount_of : RewardKind → Option Money
    amount_of free_delivery = none
    amount_of discount = some (money reward.discount_minor reward.discount_currency)

-- `redeem`
unfoldable pub redeem : ℕ → Reward → Club → Result Club
redeem u reward db = do
  raise_if (not reward.is_active) rule_violation
  paid ← spend u reward.points_cost db
  (let r : RewardRedemption = record {
    user = u;
    points_spent = reward.points_cost;
    minted = mint_code u reward;
  } in
      ok (record paid { redemptions = paid.redemptions ++ (r ∷ []) }))

-- `adjust`
unfoldable pub adjust : ℕ → ℤ → Club → Result Club
adjust u points db = do
  raise_if (leb_ℤ points (pos 0)) rule_violation
  move_points u (account_for u db) points adjusted none db

-- `expire_inactive`, of the account `a` that the caller has read
unfoldable pub expire_inactive : ℕ → PointsAccount → Club → Result Club
expire_inactive u a db =
    if beq_ℤ a.balance (pos 0) then ok db else move_points u a (neg a.balance) expired none db
