-- ===== src/Payments/Balance.antt =====
-- What one withdrawal of apps/payments/services.py takes from a courier, and gives back.
use elcorazon_backend.Base.{
  ℕ, ◌≡◌, refl, String, true, false, Option, none, some, [], ◌∷◌, ◌++◌, nat_eq, nat_beq_iff, ◌==◌,
  update, ok, or_raise, >>=-eq-ok, or_raise-eq-ok, does_not_exist, arith, Option-cases, inl, inr,
  if◌then◌else◌, contains,
}
use elcorazon_backend.Base.Int.{ℤ, pos, ◌+ℤ◌, ◌-ℤ◌, int_laws}
use elcorazon_backend.Base.Rows.{row_at, set_row, sum_of}
use elcorazon_backend.Money.{Money, currency_eq, add, sub, money, check_currency}
use elcorazon_backend.Money.Sums.{add-inv}
use elcorazon_backend.StateMachine.{validate, can}
use elcorazon_backend.Payments.States.{
  PaymentStatus, status_eq, processing, failed, payment_machine,
}
use elcorazon_backend.Payments.Withdrawals.{
  Withdrawal, Payroll, opened_withdrawal, earnings_or_zero, settled, refused, request, settle, fail,
}

-- What a courier can still withdraw, and what withdrawals that have not failed have taken.
abbrev pub balance_of : Option (Option Money) → ℤ
balance_of none = pos 0
balance_of (some none) = pos 0
balance_of (some (some e)) = e.amount_minor

abbrev pub available : ℕ → Payroll → ℤ
available c db = balance_of (db.couriers c)

abbrev pub taken_by : ℕ → Withdrawal → ℤ
taken_by c w =
    if w.courier == c then (if w.status == failed then pos 0 else w.amount.amount_minor) else pos 0

abbrev pub taken : ℕ → Payroll → ℤ
taken c db = sum_of (taken_by c) db.withdrawals

pub request-inv :
    (courier : ℕ) (amount : Money) (db db' : Payroll)
    → request courier amount db ≡ ok db'
    → (e : Money) × (db.couriers courier ≡ some (some e))
      × (db' ≡ record {
        couriers =
            update db.couriers courier
              (some (some (money (e.amount_minor -ℤ amount.amount_minor) e.currency)));
        withdrawals = db.withdrawals ++ (opened_withdrawal courier amount ∷ []);
      })
unfolding request sub check_currency
request-inv courier amount db db' h = elim (Option-cases (db.couriers courier)) [
  | inl missing ↦ ground arith
  | inr (none, found) ↦ ground arith
  | inr (some e, found) ↦ (e, found, ground arith)
]

pub settle-inv :
    (n : ℕ) (reference : String) (actor : Option ℕ) (db db' : Payroll)
    → settle n reference actor db ≡ ok db'
    → (w : Withdrawal) × (row_at n db.withdrawals ≡ some w)
      × (validate payment_machine w.status processing ≡ ok tt)
      × (db' ≡ record db { withdrawals = set_row n (settled w reference actor) db.withdrawals })
unfolding settle
settle-inv n reference actor db db' h = elim (Option-cases (row_at n db.withdrawals)) [
  | inl missing ↦ ground arith
  | inr (w, found) ↦ (w, found, ground arith, ground arith)
]

pub fail-inv :
    (n : ℕ) (reason : String) (actor : Option ℕ) (db db' : Payroll)
    → fail n reason actor db ≡ ok db'
    → (w : Withdrawal) × (o : Option Money) × (row_at n db.withdrawals ≡ some w)
      × (validate payment_machine w.status failed ≡ ok tt)
      × (db.couriers w.courier ≡ some o)
      × (db' ≡ record {
        couriers = update db.couriers w.courier (
            some (
              some (
                money
                  ((earnings_or_zero o w.amount).amount_minor +ℤ w.amount.amount_minor)
                  (earnings_or_zero o w.amount).currency)));
        withdrawals = set_row n (refused w reason actor) db.withdrawals;
      })
unfolding fail
fail-inv n reason actor db db' h =
    let (w, f1, h1) = >>=-eq-ok (or_raise (row_at n db.withdrawals) does_not_exist) _ h in
    let (u, legal, h2) = >>=-eq-ok (validate payment_machine w.status failed) _ h1 in
    let (o, f2, h3) = >>=-eq-ok (or_raise (db.couriers w.courier) does_not_exist) _ h2 in
    let (sum, added, h4) = >>=-eq-ok (add (earnings_or_zero o w.amount) w.amount) _ h3 in
    let (same, exact) = add-inv (earnings_or_zero o w.amount) w.amount added in
    (w, o, or_raise-eq-ok _ _ f1, legal, or_raise-eq-ok _ _ f2, ground arith)

pub eq_sym : (a b : ℕ) → (a == b) ≡ true → (b == a) ≡ true
eq_sym a b h = ground arith

pub flip : (a b : ℕ) → (a == b) ≡ false → (b == a) ≡ false
flip a b h = ground arith

-- A payment that can still move has not failed.
pub not_failed :
    (s t : PaymentStatus) → validate payment_machine s t ≡ ok tt → (s == failed) ≡ false
unfolding validate can contains
not_failed failed t h = cc
not_failed _ t h = refl

pub earned :
    (o : Option Money) (amount : Money)
    → balance_of (some o) ≡ (earnings_or_zero o amount).amount_minor
earned none amount = refl
earned (some e) amount = refl

-- The balance of a courier whose row is written, and of another.
module _ (c k : ℕ) (db db' : Payroll) (o : Option Money) (m : Money) where
  pub available-set :
      (c == k) ≡ true
      → db'.couriers ≡ update db.couriers k (some (some m))
      → available c db' ≡ m.amount_minor
  available-set same shape = rw (shape, same) refl

  pub available-other :
      (c == k) ≡ false
      → db'.couriers ≡ update db.couriers k (some (some m))
      → available c db' ≡ available c db
  available-other other shape = rw (shape, other) refl

  pub available-found :
      (amount : Money)
      → (c == k) ≡ true
      → db.couriers k ≡ some o
      → available c db ≡ (earnings_or_zero o amount).amount_minor
  available-found amount same found = rw ((nat_beq_iff c k).0 same, found) (earned o amount)

-- What withdrawals have taken is replaced row by row.
pub balance : (a a' t t' x y : ℤ) → t' +ℤ x ≡ t +ℤ y → a' +ℤ y ≡ a +ℤ x → a' +ℤ t' ≡ a +ℤ t
balance a a' t t' x y h k = grind int_laws

pub taken_by-own :
    (c : ℕ) (w : Withdrawal)
    → (w.courier == c) ≡ true
    → (w.status == failed) ≡ false
    → taken_by c w ≡ w.amount.amount_minor
taken_by-own c w same fine = rw (same, fine) refl

pub taken_by-lost :
    (c : ℕ) (w : Withdrawal) → (w.courier == c) ≡ true → w.status ≡ failed → taken_by c w ≡ pos 0
taken_by-lost c w same lost = rw (same, lost) refl

pub taken_by-other : (c : ℕ) (w : Withdrawal) → (w.courier == c) ≡ false → taken_by c w ≡ pos 0
taken_by-other c w other = rw other refl

pub taken_by-same :
    (c : ℕ) (w v : Withdrawal)
    → v.courier ≡ w.courier
    → v.amount ≡ w.amount
    → (w.status == failed) ≡ false
    → (v.status == failed) ≡ false
    → taken_by c v ≡ taken_by c w
taken_by-same c w v k m h h' = rw (k, m, h, h') refl
