-- ===== src/Delivery/Fees.antt =====
-- The fee of a course, fixed by `accept` of apps/delivery/services.py.
use elcorazon_backend.Base.{
  ℕ, zero, suc, ◌≤◌, ◌≡◌, refl, sym, ap, ◌∙◌, ◌⊎◌, inl, inr, String, Bool, true, false, Option,
  some, some-injective, List, [], ◌∷◌, nat_eq, ◌==◌, eq_of_beq, contains, ok, or_raise,
  does_not_exist, >>=-eq-ok, or_raise-eq-ok, ok-injective, Bool-cases, arith,
}
use elcorazon_backend.Base.Rows.{row_at-set_row, row_at, set_row}
use elcorazon_backend.Money.{Money, percentage}
use elcorazon_backend.StateMachine.{targets_from, can, validate}
use elcorazon_backend.Orders.States.{status_eq as order_status_eq}
use elcorazon_backend.Delivery.States.{
  DeliveryStatus, offered, accepted, cancelled, status_eq, delivery_machine,
}
use elcorazon_backend.Delivery.Rows.{CourierProfile, Assignment, Order, Fleet}
use elcorazon_backend.Delivery.Courses.{
  courier_fee_for, new_course, taken_course, closed, is_open_for, close_rows,
  close_for_cancelled_order, with_order, move_order, advanced,
}
use elcorazon_backend.Delivery.Effects.{move_order-inv}
use elcorazon_backend.Delivery.Calls.{offer-inv, accept-inv, decline-inv, transition_to-inv}
use elcorazon_backend.Delivery.Frames.{advanced-same, reward-frame, Followed-frame}
use elcorazon_backend.Delivery.Histories.{
  Call, offers, accepts, declines, steps, moves, perform, run, run-keeps,
}
use elcorazon_backend.Base.Int.{pos, ◌≤ℤ◌}
use elcorazon_backend.Base.Rows.{row_at-set_row_other, row_at-insert}
use elcorazon_backend.Money.Percentage.{percentage-le, percentage_near}
use elcorazon_backend.Delivery.Courses.{accept, courier_fee_for, course_value}

-- An accepted course carries the share of the value of its delivery, not less than zero and, for a
-- share of at most 100 %, not more than that value, in its currency.
pub accept-fee :
    (share n c : ℕ) (copy : CourierProfile) (seen : List Assignment) (db db' : Fleet)
    → accept share n c copy seen db ≡ ok db'
    → share ≤ 10_000
    → ((o : ℕ) (order : Order)
        → db.orders o ≡ some order
        → pos 0 ≤ℤ (course_value order order.delivery_fee_gross).amount_minor)
    → (a : Assignment) × (order : Order) × (fee : Money) × (row_at n db'.assignments ≡ some a)
      × (db.orders a.order ≡ some order)
      × (a.status ≡ accepted)
      × (a.courier_fee ≡ some fee)
      × (fee.currency ≡ (course_value order order.delivery_fee_gross).currency)
      × (pos 0 ≤ℤ fee.amount_minor)
      × (fee.amount_minor ≤ℤ (course_value order order.delivery_fee_gross).amount_minor)
unfolding courier_fee_for percentage
accept-fee share n c copy seen db db' h small_share worth =
    let (a, order, there, found, alive, legal, fits, shape) =
      accept-inv share n c copy seen db db' h in
    let value = course_value order order.delivery_fee_gross in
    let paid = worth a.order order found in
    (
      taken_course a (percentage value share),
      order,
      percentage value share,
      rw shape (row_at-set_row n a (taken_course a (percentage value share)) db.assignments there),
      found,
      refl,
      refl,
      refl,
      (percentage_near value share paid).0,
      percentage-le value share paid small_share,
    )

-- The row `n` is there, is not only offered, and has this order, courier and fee.
abbrev pub Fixed : ℕ → ℕ → ℕ → Option Money → Fleet → Type 0
Fixed n o c fee db =
    (a : Assignment) × (row_at n db.assignments ≡ some a)
    × ((a.status == offered) ≡ false)
    × (a.order ≡ o)
    × (a.courier ≡ c)
    × (a.courier_fee ≡ fee)

-- A row that is written keeps what is fixed.
set_row-Fixed :
    (n m o c : ℕ) (fee : Option Money) (a b : Assignment) (db db' : Fleet)
    → Fixed n o c fee db
    → row_at m db.assignments ≡ some a
    → ((a.status == offered) ≡ false → (b.status == offered) ≡ false)
    → ((a.status == offered) ≡ false → b.courier_fee ≡ a.courier_fee)
    → b.order ≡ a.order
    → b.courier ≡ a.courier
    → db'.assignments ≡ set_row m b db.assignments
    → Fixed n o c fee db'
set_row-Fixed n m o c fee a b db db' (x, there, moved, xo, xc, xf) at keeps pays ko kc rows =
    elim (Bool-cases (n == m)) [
      | inl same ↦
          let here : n ≡ m = eq_of_beq n m same in
          let this : a ≡ x =
            some-injective a x (sym at ∙ ap (λ i. row_at i db.assignments) (sym here) ∙ there) in
          let moved_a : (a.status == offered) ≡ false = rw this moved in
          (
            b,
            rw (rows, here) (row_at-set_row m a b db.assignments at),
            keeps moved_a,
            ko ∙ ap (λ (r : Assignment). r.order) this ∙ xo,
            kc ∙ ap (λ (r : Assignment). r.courier) this ∙ xc,
            pays moved_a ∙ ap (λ (r : Assignment). r.courier_fee) this ∙ xf,
          )
      | inr other ↦ (
        x,
        rw rows (row_at-set_row_other n m b db.assignments (λ e. apart n m e other) ∙ there),
        moved,
        xo,
        xc,
        xf,
      )
    ]
  where
    apart : (i j : ℕ) → i ≡ j → (i == j) ≡ false → ⊥
    apart i j e f = absurd (ground arith)

-- What closing does to a row.
close_rows-row_at :
    (n o : ℕ) (reason : String) (x : Assignment) (rows rows' : List Assignment)
    → row_at n rows ≡ some x
    → close_rows o reason rows ≡ ok rows'
    → (y : Assignment) × (row_at n rows' ≡ some y) × ((y ≡ x) ⊎ (y ≡ closed x cancelled reason))
unfolding close_rows
close_rows-row_at n o reason x [] rows' there h = cc
close_rows-row_at n o reason x (a ∷ rest) rows' there h = elim (Bool-cases (is_open_for o a)) [
  | inl ends ↦
      let (u, ended, h1) =
        >>=-eq-ok (validate delivery_machine a.status cancelled) _ (rw ends at h) in
      let (tail, done, h2) = >>=-eq-ok (close_rows o reason rest) _ h1 in
      rw (sym (ok-injective h2)) (
        in_cons n (closed a cancelled reason) tail
          (λ k at. close_rows-row_at k o reason x rest tail at done) (inr refl) there)
  | inr stays ↦
      let (tail, done, h1) = >>=-eq-ok (close_rows o reason rest) _ (rw stays at h) in
      rw (sym (ok-injective h1)) (
        in_cons n a tail (λ k at. close_rows-row_at k o reason x rest tail at done) (inl refl)
          there)
]
  where
    in_cons :
        (m : ℕ) (b : Assignment) (tail : List Assignment)
        → ((k : ℕ)
            → row_at k rest ≡ some x
            → (y : Assignment) × (row_at k tail ≡ some y)
              × ((y ≡ x) ⊎ (y ≡ closed x cancelled reason)))
        → (b ≡ a) ⊎ (b ≡ closed a cancelled reason)
        → row_at m (a ∷ rest) ≡ some x
        → (y : Assignment) × (row_at m (b ∷ tail) ≡ some y)
          × ((y ≡ x) ⊎ (y ≡ closed x cancelled reason))
    in_cons zero b tail known how first =
        let same = some-injective a x first in (b, refl, rw (← same) how)
    in_cons (suc m) b tail known how later = known m later

no_way_back : (s : DeliveryStatus) → validate delivery_machine s offered ≡ ok tt → ⊥
unfolding validate can targets_from contains
no_way_back offered h = cc
no_way_back _ h = cc

-- A status that a course is moved to is not the first one.
never_offered :
    (s t : DeliveryStatus) → validate delivery_machine s t ≡ ok tt → (t == offered) ≡ false
unfolding validate can targets_from contains
never_offered s offered h = absurd (no_way_back s h)
never_offered s _ h = refl

both : (b : Bool) → b ≡ true → b ≡ false → ⊥
both b e f = absurd (ground arith)

-- Only an offered course is accepted.
only_offered :
    (s : DeliveryStatus) → validate delivery_machine s accepted ≡ ok tt → (s == offered) ≡ true
unfolding validate can targets_from contains
only_offered offered h = refl
only_offered _ h = cc

close-Fixed :
    (n o c : ℕ) (fee : Option Money) (k : ℕ) (reason : String) (db db' : Fleet)
    → Fixed n o c fee db
    → close_for_cancelled_order k reason db ≡ ok db'
    → Fixed n o c fee db'
unfolding close_for_cancelled_order
close-Fixed n o c fee k reason db db' (x, there, moved, xo, xc, xf) h =
    let (rows, done, h1) = >>=-eq-ok (close_rows k reason db.assignments) _ h in
    rw (sym (ok-injective h1))
      (pick rows (close_rows-row_at n k reason x db.assignments rows there done))
  where
    pick :
        (rows : List Assignment)
        → (y : Assignment) × (row_at n rows ≡ some y) × ((y ≡ x) ⊎ (y ≡ closed x cancelled reason))
        → Fixed n o c fee (record db { assignments = rows })
    pick rows (y, at, inl same) = (y, at, rw same moved, rw same xo, rw same xc, rw same xf)
    pick rows (y, at, inr shut) = (y, at, rw shut refl, rw shut xo, rw shut xc, rw shut xf)

module _ (share n o c : ℕ) (fee : Option Money) where
  perform-Fixed :
      (call : Call) (db db' : Fleet)
      → Fixed n o c fee db
      → perform share call db ≡ ok db'
      → Fixed n o c fee db'
  unfolding perform move_order
  perform-Fixed (offers k m) db db' (x, there, moved, xo, xc, xf) h =
      let (order, found, cooked, idle, fits, shape) = offer-inv k m db db' h in
      (x, rw shape (row_at-insert n x (new_course k m) db.assignments there), moved, xo, xc, xf)
  perform-Fixed (accepts m k copy seen) db db' fixed h =
      let (a, order, there, found, alive, legal, fits, shape) =
        accept-inv share m k copy seen db db' h in
      let first = only_offered a.status legal in
      set_row-Fixed n m o c fee a _ db db' fixed there (λ moved. refl)
        (λ moved. absurd (both (a.status == offered) first moved)) refl refl
        (ap (λ (d : Fleet). d.assignments) shape)
  perform-Fixed (declines m copy k reason) db db' fixed h =
      let (a, legal, there, fits, shape) = decline-inv m copy k reason db db' h in
      set_row-Fixed n m o c fee a _ db db' fixed there (λ moved. refl) (λ moved. refl) refl refl
        (ap (λ (d : Fleet). d.assignments) shape)
  perform-Fixed (steps m target reason) db db' fixed h =
      elim (transition_to-inv m target reason db db' h) [
        | inl still ↦ rw still fixed
        | inr
              (
                a, order, saved, projected, there, found, legal, alive, fits, shape, follows,
                rewarded,
              ) ↦
            let (st, kc, ko, kf) = advanced-same a target reason in
            set_row-Fixed n m o c fee a (advanced a target reason) db db' fixed there
              (λ moved. rw st (never_offered a.status target legal)) (λ moved. kf) ko kc
              ((reward-frame target _ projected db' rewarded).0
                ∙ (Followed-frame a.order order _ saved projected follows).0
                ∙ ap (λ (d : Fleet). d.assignments) shape)
      ]
  perform-Fixed (moves k target) db db' fixed h =
      let (order, asked, h1) = >>=-eq-ok (or_raise (db.orders k) does_not_exist) _ h in
      elim (move_order-inv k target order db db' (or_raise-eq-ok _ _ asked) h) [
        | inl (here, shape) ↦ rw shape fixed
        | inr (inl (legal, other, shape)) ↦ rw shape fixed
        | inr (inr (legal, called, done)) ↦
            close-Fixed n o c fee k _ (with_order db k order target) db' fixed done
      ]

  -- Once a course is no longer only offered, its order, its courier and its fee stay what they are,
  -- whatever calls are made, failing or not.
  pub fee_is_frozen :
      (calls : List Call) (db : Fleet) → Fixed n o c fee db → Fixed n o c fee (run share calls db)
  fee_is_frozen = run-keeps share (Fixed n o c fee) perform-Fixed
