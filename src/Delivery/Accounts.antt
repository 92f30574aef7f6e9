-- ===== src/Delivery/Accounts.antt =====
-- The calls of `AssignmentService` of apps/delivery/services.py, and what they credit.
use elcorazon_backend.Base.{
  ℕ, ◌+◌, ◌≡◌, refl, sym, ap, ◌∙◌, inl, inr, String, true, false, Option, none, some, nat_eq, ◌==◌,
  eq_self, eq_of_beq, ok, >>=-eq-ok, ok-injective, Bool-cases, arith,
}
use elcorazon_backend.Base.Int.{ℤ, pos, ◌+ℤ◌, int_laws}
use elcorazon_backend.Base.Rows.{row_at, set_row, count, sum_of}
use elcorazon_backend.Money.{Money, add, zero_money}
use elcorazon_backend.Money.Sums.{add-inv}
use elcorazon_backend.Delivery.States.{DeliveryStatus, delivered, cancelled, status_eq}
use elcorazon_backend.Delivery.Rows.{Assignment, Fleet}
use elcorazon_backend.Delivery.Courses.{earnings_with, reward, credit, count_cancelled, advanced}
use elcorazon_backend.Delivery.Calls.{Stepped}
use elcorazon_backend.Delivery.Frames.{
  advanced-same, credit-inv, count_cancelled-inv, Followed-frame,
}
use elcorazon_backend.Delivery.Credit.{
  amount_or_zero, completed, earned, delivered_by, fee_of, Credited, moving, replaced,
  replaced_other,
}

earnings_with-amount :
    (held fee sum : Option Money)
    → earnings_with held fee ≡ ok sum
    → amount_or_zero sum ≡ amount_or_zero held +ℤ amount_or_zero fee
earnings_with-amount held none sum h = rw (sym (ok-injective h)) (grind int_laws)
earnings_with-amount none (some m) sum h =
    let (m', added, h1) = >>=-eq-ok (add (zero_money m.currency) m) _ h in
    rw (sym (ok-injective h1), (add-inv (zero_money m.currency) m added).1) refl
earnings_with-amount (some k) (some m) sum h =
    let (m', added, h1) = >>=-eq-ok (add k m) _ h in
    rw (sym (ok-injective h1), (add-inv k m added).1) refl

-- The counters and the tables grow by the same.
parts-Credited :
    (c d : ℕ) (x : ℤ) (db db' : Fleet)
    → completed c db' ≡ completed c db + d
    → earned c db' ≡ earned c db +ℤ x
    → count (delivered_by c) db'.assignments ≡ count (delivered_by c) db.assignments + d
    → sum_of (fee_of c) db'.assignments ≡ sum_of (fee_of c) db.assignments +ℤ x
    → Credited c db db'
parts-Credited c d x db db' h1 h2 h3 h4 = (omega arith, sum_parts _ _ _ _ h2 h4)
  where
    sum_parts : (e e' t t' : ℤ) → e' ≡ e +ℤ x → t' ≡ t +ℤ x → e' +ℤ t ≡ e +ℤ t'
    sum_parts e e' t t' m1 m2 = grind int_laws

count_cancelled-same :
    (c : ℕ) (b : Assignment) (db mid db' : Fleet)
    → mid.couriers ≡ db.couriers
    → count_cancelled b mid ≡ ok db'
    → (completed c db' ≡ completed c db) × (earned c db' ≡ earned c db)
count_cancelled-same c b db mid db' same h =
    let (k, found, shape) = count_cancelled-inv b mid db' h in
    elim (Bool-cases (c == b.courier)) [
      | inl mine ↦
          let before : db.couriers c ≡ some k =
            ap (λ f. f c) (sym same) ∙ ap mid.couriers (eq_of_beq c b.courier mine) ∙ found in
          rw (shape, mine, before) (refl, refl)
      | inr other ↦ rw (shape, other, same) (refl, refl)
    ]

flip : (a b : ℕ) → (a == b) ≡ false → (b == a) ≡ false
flip a b h = ground arith

delivered_by-own :
    (c : ℕ) (b : Assignment)
    → (c == b.courier) ≡ true
    → b.status ≡ delivered
    → (delivered_by c b ≡ true) × (fee_of c b ≡ amount_or_zero b.courier_fee)
unfolding delivered_by fee_of
delivered_by-own c b mine now =
    let same = eq_of_beq c b.courier mine in rw (same, now, eq_self b.courier) (refl, refl)

delivered_by-other :
    (c : ℕ) (b : Assignment)
    → (c == b.courier) ≡ false
    → (delivered_by c b ≡ false) × (fee_of c b ≡ pos 0)
unfolding delivered_by fee_of
delivered_by-other c b other = rw (flip c b.courier other) (refl, refl)

-- A course that is delivered is credited to its courier, and to nobody else.
delivered-Credited :
    (c n : ℕ) (a b : Assignment) (db mid db' : Fleet)
    → row_at n db.assignments ≡ some a
    → (a.status == delivered) ≡ false
    → (b.status ≡ delivered)
    → mid.assignments ≡ set_row n b db.assignments
    → mid.couriers ≡ db.couriers
    → credit b mid ≡ ok db'
    → Credited c db db'
delivered-Credited c n a b db mid db' there moved now rows same h =
    let (k, earnings, found, summed, shape) = credit-inv b mid db' h in
    let (counted, total) = replaced c n a b db.assignments there moved in
    let rows' : db'.assignments ≡ set_row n b db.assignments =
      ap (λ (d : Fleet). d.assignments) shape ∙ rows in
    let paid = earnings_with-amount k.total_earnings b.courier_fee earnings summed in
    elim (Bool-cases (c == b.courier)) [
      | inl mine ↦
          let (own, fee) = delivered_by-own c b mine now in
          let before : db.couriers c ≡ some k =
            ap (λ f. f c) (sym same) ∙ ap mid.couriers (eq_of_beq c b.courier mine) ∙ found in
          parts-Credited c 1 (amount_or_zero b.courier_fee) db db'
            (rw (shape, mine, before) (omega arith)) (rw (shape, mine, before) paid)
            (rw (rows', counted, own) refl) (rw (rows', total, fee) refl)
      | inr other ↦
          let (not_own, no_fee) = delivered_by-other c b other in
          parts-Credited c 0 (pos 0) db db' (rw (shape, other, same) (omega arith))
            (rw (shape, other, same) (grind int_laws)) (rw (rows', counted, not_own) refl)
            (rw (rows', total, no_fee) refl)
    ]

-- A step of a course credits what it delivers.
pub step-Credited :
    (c n : ℕ) (target : DeliveryStatus) (reason : String) (db db' : Fleet)
    → Stepped n target reason db db'
    → Credited c db db'
unfolding reward
step-Credited c n target reason db db'
      (a, order, saved, projected, there, found, legal, alive, fits, shape, follows, rewarded) =
    let (st, k, o, fee) = advanced-same a target reason in
    let (rows, couriers) = Followed-frame a.order order _ saved projected follows in
    let moved = moving a.status target legal in
    by_target target (advanced a target reason) st moved there
      (rows ∙ ap (λ (d : Fleet). d.assignments) shape)
      (couriers ∙ ap (λ (d : Fleet). d.couriers) shape) rewarded
  where
    unpaid :
        (t : DeliveryStatus) (b : Assignment)
        → b.status ≡ t
        → (t == delivered) ≡ false
        → (a.status == delivered) ≡ false
        → row_at n db.assignments ≡ some a
        → projected.assignments ≡ set_row n b db.assignments
        → projected.couriers ≡ db.couriers
        → ok projected ≡ ok db'
        → Credited c db db'
    unpaid t b st other moved there rows couriers h =
        let same = sym (ok-injective h) in
        replaced_other c n a b db db' there moved (rw st other) (rw same rows)
          (rw (same, couriers) refl) (rw (same, couriers) refl)

    by_target :
        (t : DeliveryStatus) (b : Assignment)
        → b.status ≡ t
        → (a.status == delivered) ≡ false
        → row_at n db.assignments ≡ some a
        → projected.assignments ≡ set_row n b db.assignments
        → projected.couriers ≡ db.couriers
        → reward t b projected ≡ ok db'
        → Credited c db db'
    by_target delivered b st moved there rows couriers h =
        delivered-Credited c n a b db projected db' there moved st rows couriers h
    by_target cancelled b st moved there rows couriers h =
        let (k, known, shape) = count_cancelled-inv b projected db' h in
        let (same_count, same_sum) = count_cancelled-same c b db projected db' couriers h in
        replaced_other c n a b db db' there moved (rw st refl)
          (ap (λ (d : Fleet). d.assignments) shape ∙ rows) same_count same_sum
    by_target _ b st moved there rows couriers h = unpaid _ b st refl moved there rows couriers h
