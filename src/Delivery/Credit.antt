-- ===== src/Delivery/Credit.antt =====
-- The counters and the earnings of a courier, of `_credit` of apps/delivery/services.py, against the
-- courses that are delivered.
use elcorazon_backend.Base.{
  ℕ, ◌+◌, ◌≡◌, refl, ap, Bool, true, false, ◌&&◌, Option, none, some, List, nat_eq, ◌==◌, contains,
  if◌then◌else◌, ok, arith,
}
use elcorazon_backend.Base.Int.{ℤ, pos, ◌+ℤ◌, int_laws}
use elcorazon_backend.Base.Rows.{row_at, set_row, bit, count, sum_of, count-set_row, sum_of-set_row}
use elcorazon_backend.Money.{Money}
use elcorazon_backend.StateMachine.{targets_from, can, validate}
use elcorazon_backend.Delivery.States.{DeliveryStatus, delivered, status_eq, delivery_machine}
use elcorazon_backend.Delivery.Rows.{CourierProfile, Assignment, Fleet}

abbrev pub amount_or_zero : Option Money → ℤ
amount_or_zero none = pos 0
amount_or_zero (some m) = m.amount_minor

abbrev completed_of : Option CourierProfile → ℕ
completed_of none = 0
completed_of (some k) = k.deliveries_completed

abbrev earned_of : Option CourierProfile → ℤ
earned_of none = pos 0
earned_of (some k) = amount_or_zero k.total_earnings

-- `deliveries_completed` and `total_earnings` of the courier `c`.
abbrev pub completed : ℕ → Fleet → ℕ
completed c db = completed_of (db.couriers c)

abbrev pub earned : ℕ → Fleet → ℤ
earned c db = earned_of (db.couriers c)

-- The courses that the courier `c` has delivered, and the fee of such a course.
unfoldable pub delivered_by : ℕ → Assignment → Bool
delivered_by c a = a.courier == c && a.status == delivered

unfoldable pub fee_of : ℕ → Assignment → ℤ
unfolding delivered_by
fee_of c a = if delivered_by c a then amount_or_zero a.courier_fee else pos 0

-- From `db` to `db'`, the courier `c` is credited for the courses that are delivered in between.
abbrev pub Credited : ℕ → Fleet → Fleet → Type 0
Credited c db db' =
    (completed c db' + count (delivered_by c) db.assignments
      ≡ completed c db + count (delivered_by c) db'.assignments)
    × (earned c db' +ℤ sum_of (fee_of c) db.assignments
        ≡ earned c db +ℤ sum_of (fee_of c) db'.assignments)

pub Credited-trans :
    (c : ℕ) (db db' db'' : Fleet) → Credited c db db' → Credited c db' db'' → Credited c db db''
Credited-trans c db db' db'' (n, m) (n', m') = (omega arith, sum_trans _ _ _ _ _ _ m m')
  where
    sum_trans :
        (e e' e'' t t' t'' : ℤ) → e' +ℤ t ≡ e +ℤ t' → e'' +ℤ t' ≡ e' +ℤ t'' → e'' +ℤ t ≡ e +ℤ t''
    sum_trans e e' e'' t t' t'' h1 h2 = grind int_laws

-- A course that moves was not delivered.
pub moving :
    (s t : DeliveryStatus) → validate delivery_machine s t ≡ ok tt → (s == delivered) ≡ false
unfolding validate can targets_from contains
moving delivered t h = cc
moving _ t h = refl

pub not_delivered :
    (c : ℕ) (a : Assignment)
    → (a.status == delivered) ≡ false
    → (delivered_by c a ≡ false) × (fee_of c a ≡ pos 0)
unfolding delivered_by fee_of
not_delivered c a h =
    let idle : delivered_by c a ≡ false = rw h (and_false (a.courier == c)) in (idle, rw idle refl)
  where
    and_false : (b : Bool) → (b && false) ≡ false
    and_false true = refl
    and_false false = refl

-- A row that was not delivered is replaced.
pub replaced :
    (c n : ℕ) (a b : Assignment) (rows : List Assignment)
    → row_at n rows ≡ some a
    → (a.status == delivered) ≡ false
    → (count (delivered_by c) (set_row n b rows)
        ≡ count (delivered_by c) rows + bit (delivered_by c b))
      × (sum_of (fee_of c) (set_row n b rows) ≡ sum_of (fee_of c) rows +ℤ fee_of c b)
replaced c n a b rows there moved =
    let (zero_count, zero_fee) = not_delivered c a moved in
    (
      omega (arith, count-set_row (delivered_by c) n a b rows there, ap bit zero_count),
      replaced_sum _ _ _ _ (sum_of-set_row (fee_of c) n a b rows there) zero_fee,
    )
  where
    replaced_sum : (t t' x y : ℤ) → t' +ℤ x ≡ t +ℤ y → x ≡ pos 0 → t' ≡ t +ℤ y
    replaced_sum t t' x y h1 h2 = grind int_laws

-- Rows that change from one status to another, neither of them delivered.
pub replaced_other :
    (c n : ℕ) (a b : Assignment) (db db' : Fleet)
    → row_at n db.assignments ≡ some a
    → (a.status == delivered) ≡ false
    → (b.status == delivered) ≡ false
    → db'.assignments ≡ set_row n b db.assignments
    → completed c db' ≡ completed c db
    → earned c db' ≡ earned c db
    → Credited c db db'
replaced_other c n a b db db' there moved moves rows same_count same_sum =
    let (counted, summed) = replaced c n a b db.assignments there moved in
    let (zero_count, zero_fee) = not_delivered c b moves in
    (
      rw (rows, same_count, counted, zero_count) (omega arith),
      rw (rows, same_sum, summed, zero_fee) (grind int_laws),
    )
