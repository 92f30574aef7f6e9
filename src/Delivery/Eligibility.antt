-- ===== src/Delivery/Eligibility.antt =====
-- What makes a courier eligible, in `CourierService` and in `offer` of apps/delivery/services.py.
use elcorazon_backend.Base.{
  ℕ, ◌≡◌, refl, sym, ◌∙◌, ◌↔◌, ◌⊎◌, inl, inr, String, Bool, true, false, not, ◌&&◌, ◌||◌, Option,
  none, some, List, [], ◌∷◌, ◌++◌, nat_eq, ◌==◌, eq_self, eq_of_beq, contains, is_blank, ok, ◌>>=◌,
  raise_if, or_raise, rule_violation, motive_required, does_not_exist, >>=-eq-ok, or_raise-eq-ok,
  guard-eq-ok, ok-injective, Bool-cases, arith,
}
use elcorazon_backend.Base.Rows.{exists}
use elcorazon_backend.StateMachine.{is_noop, validate}
use elcorazon_backend.Orders.States.{OrderStatus, status_eq as order_status_eq}
use elcorazon_backend.Delivery.States.{
  VerificationStatus, approved, verification_eq, verification_machine,
}
use elcorazon_backend.Delivery.Rows.{
  CourierProfile, Assignment, Order, Fleet, is_empty, serves_zone, can_accept_orders, engaged_by,
  active_for,
}
use elcorazon_backend.Delivery.Courses.{offer, new_course, write_rows, breaks_unique}
use elcorazon_backend.Delivery.Effects.{is_noop-same}
use elcorazon_backend.Delivery.Files.{
  save_courier, put_expiration, put_expirations, any_expired, motivated_decisions, reviewed, review,
  in_perimeter, is_available,
}

pub put_expirations-status :
    (k : CourierProfile) (es : List (String × ℕ))
    → (put_expirations k es).verification_status ≡ k.verification_status
unfolding put_expirations put_expiration
put_expirations-status k [] = refl
put_expirations-status k ((champ, day) ∷ rest) =
    put_expirations-status (put_expiration k (champ, day)) rest ∙ one
  where
    one : (put_expiration k (champ, day)).verification_status ≡ k.verification_status
    one = ground arith

pub review-inv :
    (n : ℕ) (target : VerificationStatus) (actor : ℕ) (notes : String)
    (expirations : List (String × ℕ)) (today : ℕ) (db db' : Fleet)
    → review n target actor notes expirations today db ≡ ok db'
    → (k : CourierProfile) × (db.couriers n ≡ some k)
      × ((target == approved && any_expired today (put_expirations k expirations)) ≡ false)
      × ((k.verification_status ≡ target)
            × (db' ≡ save_courier n (put_expirations k expirations) db)
          ⊎ ((contains target motivated_decisions && is_blank notes) ≡ false)
            × (db'
                ≡ save_courier n (reviewed (put_expirations k expirations) target actor notes) db))
unfolding review
review-inv n target actor notes expirations today db db' h =
    let (k, asked, h1) = >>=-eq-ok (or_raise (db.couriers n) does_not_exist) _ h in
    let (current, h2) =
      guard-eq-ok (target == approved && any_expired today (put_expirations k expirations))
        rule_violation _ h1 in
    let (same, known, h3) =
      >>=-eq-ok (is_noop verification_machine k.verification_status target) _ h2 in
    (
      k,
      or_raise-eq-ok _ _ asked,
      current,
      elim (Bool-cases same) [
        | inl held ↦ inl (
          is_noop-same verification_machine k.verification_status target held known,
          sym (ok-injective (rw held at h3)),
        )
        | inr moves ↦ inr (step k (rw moves at h3))
      ],
    )
  where
    step :
        (k : CourierProfile)
        → (validate verification_machine k.verification_status target >>= λ u.
            raise_if (contains target motivated_decisions && is_blank notes) motive_required
            >>= λ v.
                ok
                  (save_courier n (reviewed (put_expirations k expirations) target actor notes) db))
          ≡ ok db'
        → ((contains target motivated_decisions && is_blank notes) ≡ false)
          × (db' ≡ save_courier n (reviewed (put_expirations k expirations) target actor notes) db)
    step k h4 =
        let (u, legal, h5) =
          >>=-eq-ok (validate verification_machine k.verification_status target) _ h4 in
        let (said, h6) =
          guard-eq-ok (contains target motivated_decisions && is_blank notes) motive_required _
            h5 in
        (said, sym (ok-injective h6))

-- A review that succeeds gives the file the status that is asked: an approval with no piece that is
-- out of date, on the dates that were entered too; a rejection or a suspension that was not there
-- with a reason; and a file that changes to anything else than approved puts its courier offline.
pub review_lem :
    (n : ℕ) (target : VerificationStatus) (actor : ℕ) (notes : String)
    (expirations : List (String × ℕ)) (today : ℕ) (db db' : Fleet)
    → review n target actor notes expirations today db ≡ ok db'
    → (k : CourierProfile) × (k' : CourierProfile) × (db.couriers n ≡ some k)
      × (db'.couriers n ≡ some k')
      × (k'.verification_status ≡ target)
      × (target ≡ approved → any_expired today k' ≡ false)
      × ((k.verification_status ≡ target)
          ⊎ ((contains target motivated_decisions && is_blank notes) ≡ false)
            × ((target ≡ approved) ⊎ (k'.is_online ≡ false)))
unfolding reviewed any_expired
review_lem n target actor notes expirations today db db' h =
    let (k, found, current, how) = review-inv n target actor notes expirations today db db' h in
    let dated : CourierProfile = put_expirations k expirations in
    elim how [
      | inl (same, shape) ↦ (
        k,
        dated,
        found,
        rw (shape, eq_self n) refl,
        put_expirations-status k expirations ∙ same,
        λ called. fresh dated called current,
        inl same,
      )
      | inr (said, shape) ↦ (
        k,
        reviewed dated target actor notes,
        found,
        rw (shape, eq_self n) refl,
        refl,
        λ called. fresh dated called current,
        inr (said, online dated (target == approved) refl),
      )
    ]
  where
    fresh :
        (dated : CourierProfile)
        → target ≡ approved
        → (target == approved && any_expired today dated) ≡ false
        → any_expired today dated ≡ false
    fresh dated called e = rw called at e

    online :
        (dated : CourierProfile) (b : Bool)
        → (target == approved) ≡ b
        → (target ≡ approved) ⊎ ((reviewed dated target actor notes).is_online ≡ false)
    online dated true e = inl (eq_of_beq target approved e)
    online dated false e = inr (rw e refl)

-- The query on the zones and the method of the file agree.
in_perimeter-serves_zone :
    (k : CourierProfile) (zone : Option ℕ) → in_perimeter k zone ≡ serves_zone k zone
unfolding in_perimeter serves_zone
in_perimeter-serves_zone k none = or_false (is_empty k.service_zones)
  where
    or_false : (b : Bool) → b ≡ (b || false)
    or_false true = refl
    or_false false = refl
in_perimeter-serves_zone k (some z) = refl

is_available-parts :
    (order : Order) (c : ℕ) (k : CourierProfile) (rows : List Assignment)
    → is_available order c k rows ≡ (
        k.restaurant == order.restaurant
        && can_accept_orders k
        && serves_zone k order.delivery_zone
        && not (exists (engaged_by c) rows))
unfolding is_available can_accept_orders
is_available-parts order c k rows = rw (in_perimeter-serves_zone k order.delivery_zone) refl

four :
    (r e z f : Bool)
    → (r && e && z && not f) ≡ true
    → (r ≡ true) × (e ≡ true) × (z ≡ true) × (f ≡ false)
four true true true false h = (refl, refl, refl, refl)
four true true true true h = cc
four true true false f h = cc
four true false z f h = cc
four false e z f h = cc

not-false : (b : Bool) → not b ≡ false → b ≡ true
not-false b h = ground arith

-- The couriers that are listed for an order that is ready and has no active course are those that
-- the course can be offered to, in tables that satisfy the unique constraints.
pub is_available-offer :
    (o c : ℕ) (order : Order) (k : CourierProfile) (db : Fleet)
    → db.orders o ≡ some order
    → db.couriers c ≡ some k
    → order.status ≡ OrderStatus.ready
    → exists (active_for o) db.assignments ≡ false
    → breaks_unique (new_course o c) (db.assignments ++ (new_course o c ∷ [])) ≡ false
    → (is_available order c k db.assignments ≡ true) ↔ ((db' : Fleet) × (offer o c db ≡ ok db'))
unfolding offer write_rows
is_available-offer o c order k db found known cooked idle fits = (forth, back)
  where
    forth : is_available order c k db.assignments ≡ true → (db' : Fleet) × (offer o c db ≡ ok db')
    forth h =
        let (home, able, near, free) =
          four (k.restaurant == order.restaurant) (can_accept_orders k)
            (serves_zone k order.delivery_zone) (exists (engaged_by c) db.assignments)
            (sym (is_available-parts order c k db.assignments) ∙ h) in
        (
          record db { assignments = db.assignments ++ (new_course o c ∷ []) },
          rw (found, known, cooked, able, home, near, free, idle, fits) refl,
        )

    back : (db' : Fleet) × (offer o c db ≡ ok db') → is_available order c k db.assignments ≡ true
    back (db', h) =
        let (g1, h1) =
          guard-eq-ok (not (can_accept_orders k)) rule_violation _
            (rw (found, known, cooked) at h) in
        let (g2, h2) = guard-eq-ok (not (k.restaurant == order.restaurant)) rule_violation _ h1 in
        let (g3, h3) = guard-eq-ok (not (serves_zone k order.delivery_zone)) rule_violation _ h2 in
        let (free, h4) = guard-eq-ok (exists (engaged_by c) db.assignments) rule_violation _ h3 in
        is_available-parts order c k db.assignments
        ∙ rw
            (
              not-false (k.restaurant == order.restaurant) g2,
              not-false (can_accept_orders k) g1,
              not-false (serves_zone k order.delivery_zone) g3,
              free,
            )
            refl
