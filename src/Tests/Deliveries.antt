-- ===== src/Tests/Deliveries.antt =====
-- Runs of apps/delivery/services.py.
use elcorazon_backend.Base.{
  inl, inr, some-injective, Bool-cases, ℕ, ◌+◌, ◌≤◌, ◌≡◌, ◌≢◌, ◌↔◌, refl, Bool, true, false, Option,
  none, some, List, [], ◌∷◌, ◌++◌, nat_eq, ◌==◌, contains, update, Result, ok, err, ◌>>=◌, value_or,
  integrity_error, rule_violation, arith,
}
use mathlib.Core.Path.{subst}
use elcorazon_backend.Base.Int.{pos, ◌+ℤ◌, ◌*ℤ◌}
use elcorazon_backend.Base.Rows.{row_at, set_row, count, sum_of}
use elcorazon_backend.Base.Rounding.{round_half_up, half_up}
use elcorazon_backend.Money.{money, xof, percentage, add, check_currency, currency_beq}
use elcorazon_backend.StateMachine.{targets_from, can, is_noop, validate}
use elcorazon_backend.Orders.States.{OrderStatus}
use elcorazon_backend.Delivery.States.{
  DeliveryStatus, offered, accepted, picked_up, on_the_way, delivered, declined, approved, awaiting,
  order_status_projection,
}
use elcorazon_backend.Delivery.Rows.{
  CourierProfile, Assignment, Order, Fleet, can_accept_orders, serves_zone, engaged_by, active_for,
}
use elcorazon_backend.Delivery.Courses.{
  breaks_unique, write_rows, courier_fee_for, new_course, offer, accept, closed, decline,
  move_order, close_rows, is_open_for, close_for_cancelled_order, require_following, project,
  credit, reward, advanced, transition_to,
}
use elcorazon_backend.Delivery.Histories.{Call, offers, accepts, steps, moves, perform, run}
use elcorazon_backend.Delivery.Uniqueness.{Unique}
use elcorazon_backend.Delivery.Races.{accept_race}
use elcorazon_backend.Delivery.Guards.{guards_suffice}
use elcorazon_backend.Delivery.Credit.{completed, earned, Credited}
use elcorazon_backend.Delivery.Reconciliation.{deliveries_reconcile}
use elcorazon_backend.Delivery.Agreement.{Agreed}
use elcorazon_backend.Delivery.Following.{courses_agree}
use elcorazon_backend.Delivery.Completion.{course_completes}
use elcorazon_backend.Delivery.Bypasses.{transition_to-accepted, decline-stale}
use elcorazon_backend.Delivery.Fees.{Fixed, fee_is_frozen}
use elcorazon_backend.Delivery.Files.{id_document, replace_documents, replace_pieces, is_available}
use elcorazon_backend.Delivery.Eligibility.{is_available-offer}
use elcorazon_backend.Delivery.Documents.{
  FileCall, declares, replaces, reviews, replace_documents-blocks, replace_documents-stale,
  approves,
}
use elcorazon_backend.Delivery.Documents as Documents
use elcorazon_backend.Delivery.Ratings.{Ratings, Fair, ratings_hold}
use elcorazon_backend.Delivery.Ratings as Ratings

abbrev rider : CourierProfile
rider = record {
  restaurant = 1;
  user_is_active = true;
  service_zones = [];
  verification_status = approved;
  verification_notes = "";
  verified_by = none;
  id_document = none;
  licence_document = none;
  vehicle_document = none;
  id_document_expires_on = none;
  licence_document_expires_on = none;
  vehicle_document_expires_on = none;
  is_online = true;
  deliveries_completed = 4;
  deliveries_cancelled = 0;
  rating_average = 0;
  rating_count = 0;
  total_earnings = some (money (pos 2000) xof);
}

abbrev meal : Order
meal = record {
  restaurant = 1;
  status = OrderStatus.ready;
  delivery_zone = some 5;
  delivery_fee = money (pos 0) xof;
  delivery_fee_gross = some (money (pos 1000) xof);
}

abbrev morning : Fleet
morning = record {
  couriers = update (λ c. none) 7 (some rider);
  orders = update (update (λ o. none) 3 (some meal)) 4 (some meal);
  assignments = [];
  attendants = λ o target. ok tt;
}

abbrev day : List Call
day =
    offers 3 7
    ∷ offers 4 7
    ∷ accepts 0 7 rider []
    ∷ accepts 1 7 rider []
    ∷ steps 0 picked_up ""
    ∷ steps 0 on_the_way ""
    ∷ steps 0 delivered ""
    ∷ steps 0 delivered ""
    ∷ moves 4 OrderStatus.cancelled
    ∷ []

empty-Unique : Unique []
empty-Unique = (λ c. omega arith, λ o. omega arith)

deliveries_reconcile_example : Credited 7 morning (run 8000 day morning)
deliveries_reconcile_example =
    deliveries_reconcile 8000 7 day morning (tt, (tt, (tt, (tt, (tt, (tt, (tt, (tt, (tt, tt)))))))))

courses_agree_example : Agreed (run 8000 day morning)
courses_agree_example = courses_agree 8000 day morning tt

earnings_of_the_day :
    (completed 7 (run 8000 day morning) ≡ 5) × (earned 7 (run 8000 day morning) ≡ pos 2800)
unfolding run perform offer accept transition_to move_order can_accept_orders serves_zone engaged_by
    active_for write_rows breaks_unique is_noop validate can targets_from contains courier_fee_for
    percentage round_half_up half_up require_following project reward credit advanced
    order_status_projection add check_currency currency_beq ◌+ℤ◌ ◌*ℤ◌ close_for_cancelled_order
    close_rows is_open_for
earnings_of_the_day = (refl, refl)

guards_suffice_example :
    ((o c : ℕ) → offer o c (run 8000 day morning) ≢ err integrity_error)
    × ((n c : ℕ) (copy : CourierProfile)
        → accept 8000 n c copy (run 8000 day morning).assignments (run 8000 day morning)
          ≢ err integrity_error)
guards_suffice_example = guards_suffice 8000 day morning empty-Unique

abbrev two_offers : Fleet
two_offers = record morning { assignments = new_course 3 7 ∷ new_course 4 7 ∷ [] }

two_offers-Unique : Unique two_offers.assignments
unfolding engaged_by active_for contains
two_offers-Unique = (λ c. ground arith, λ o. ground arith)

accept_race_example :
    (db' : Fleet) × (accept 8000 0 7 rider two_offers.assignments two_offers ≡ ok db')
    × (accept 8000 1 7 rider two_offers.assignments db' ≡ err integrity_error)
    × (accept 8000 1 7 rider db'.assignments db' ≡ err rule_violation)
unfolding can_accept_orders engaged_by contains
accept_race_example =
    accept_race 8000 0 1 7 rider (new_course 3 7) (new_course 4 7) meal meal two_offers
      (λ e. absurd (ground arith)) refl refl refl refl refl refl refl refl refl refl refl refl
      two_offers-Unique

abbrev course : DeliveryStatus → Assignment
course s = record {
  order = 3;
  courier = 7;
  status = s;
  courier_fee = some (money (pos 800) xof);
  decline_reason = "";
  proof_of_delivery = none;
}

abbrev with_course : DeliveryStatus → Fleet
with_course s = record morning { assignments = course s ∷ [] }

bit_small : (a : Assignment) (p : Assignment → Bool) → count p (a ∷ []) ≤ 1
bit_small a p = bit_le (p a)
  where
    bit_le : (b : Bool) → elcorazon_backend.Base.Rows.bit b + 0 ≤ 1
    bit_le true = omega arith
    bit_le false = omega arith

single-Unique : (a : Assignment) → Unique (a ∷ [])
single-Unique a = (λ c. bit_small a (engaged_by c), λ o. bit_small a (active_for o))

course_completes_example :
    (db' : Fleet) × ((transition_to 0 picked_up "" (with_course accepted) >>= λ d.
    transition_to 0 on_the_way "" d >>= λ d. transition_to 0 delivered "" d)
      ≡ ok db')
    × (row_at 0 db'.assignments ≡ some (course delivered))
    × (db'.orders 3 ≡ some (record meal { status = OrderStatus.delivered }))
    × (db'.couriers 7
        ≡ some (record rider {
          deliveries_completed = 5;
          total_earnings = some (money (pos 2800) xof);
        }))
unfolding add check_currency currency_beq ◌+ℤ◌
course_completes_example =
    course_completes 0 "" (course accepted) meal rider (some (money (pos 2800) xof))
      (with_course accepted) refl refl refl refl refl (single-Unique (course accepted)) refl
      (λ t. refl)

transition_to-accepted_example :
    (db' : Fleet) × (transition_to 0 accepted ""
        (record morning { assignments = new_course 3 7 ∷ [] })
      ≡ ok db')
    × (row_at 0 db'.assignments
        ≡ some (record (new_course 3 7) { status = accepted; courier_fee = none }))
    × (db'.couriers ≡ morning.couriers)
unfolding breaks_unique engaged_by active_for contains
transition_to-accepted_example =
    transition_to-accepted 0 "" (new_course 3 7) meal
      (record morning { assignments = new_course 3 7 ∷ [] }) refl refl refl refl refl refl

decline-stale_example :
    (db' : Fleet) × (decline 0 (course offered) 7 "trop loin" (with_course on_the_way) ≡ ok db')
    × (row_at 0 db'.assignments ≡ some (closed (course on_the_way) declined "trop loin"))
decline-stale_example =
    decline-stale 0 7 (course offered) (course on_the_way) "trop loin" (with_course on_the_way) refl
      refl refl (single-Unique (course on_the_way))

fee_is_frozen_example :
    Fixed 0 3 7 (some (money (pos 800) xof)) (run 9000 day (with_course accepted))
fee_is_frozen_example =
    fee_is_frozen 9000 0 3 7 (some (money (pos 800) xof)) day (with_course accepted)
      (course accepted, refl, refl, refl, refl, refl)

is_available-offer_example :
    (is_available meal 7 rider [] ≡ true) ↔ ((db' : Fleet) × (offer 3 7 morning ≡ ok db'))
unfolding breaks_unique engaged_by active_for contains
is_available-offer_example = is_available-offer 3 7 meal rider morning refl refl refl refl refl

abbrev renewed : Fleet
renewed = value_or morning (replace_documents 7 rider ((id_document, "cni.jpg") ∷ []) morning)

abbrev tries : List FileCall
tries =
    declares 7 true
    ∷ replaces 7 rider []
    ∷ reviews 7 awaiting 1 "" [] 20_000
    ∷ reviews 8 approved 1 "" [] 20_000
    ∷ []

replace_documents-blocks_example :
    (k : CourierProfile) × ((Documents.run tries renewed).couriers 7 ≡ some k)
    × (can_accept_orders k ≡ false)
unfolding replace_documents approves
replace_documents-blocks_example =
    replace_documents-blocks 7 rider rider ((id_document, "cni.jpg") ∷ []) morning renewed tries
      refl refl refl (refl, (refl, (refl, (refl, tt))))

abbrev once_awaiting : CourierProfile
once_awaiting = record rider { verification_status = awaiting }

stale_documents :
    (db' : Fleet) × (replace_documents 7 once_awaiting ((id_document, "cni.jpg") ∷ []) morning
      ≡ ok db')
    × (db'.couriers 7 ≡ some (replace_pieces rider ((id_document, "cni.jpg") ∷ [])))
    × (can_accept_orders (replace_pieces rider ((id_document, "cni.jpg") ∷ [])) ≡ true)
unfolding can_accept_orders
stale_documents =
    replace_documents-stale 7 once_awaiting rider ((id_document, "cni.jpg") ∷ []) morning refl refl
      refl

abbrev evening : Ratings
evening = record { fleet = with_course delivered; ratings = [] }

evening-Fair : Fair evening
evening-Fair = (λ n. omega arith, unrated)
  where
    unrated : (c : ℕ) (k : CourierProfile) → evening.fleet.couriers c ≡ some k → Ratings.InRange k
    unrated c k h = elim (Bool-cases (c == 7)) [
      | inl same ↦ subst Ratings.InRange (some-injective rider k (rw same at h)) (inl refl)
      | inr other ↦ absurd (none_some (rw other at h))
    ]
      where
        none_some : none ≡ some k → ⊥
        none_some e = cc

ratings_hold_example : Fair (Ratings.run ((0, 11, 4) ∷ (0, 11, 1) ∷ (0, 12, 9) ∷ []) evening)
ratings_hold_example = ratings_hold ((0, 11, 4) ∷ (0, 11, 1) ∷ (0, 12, 9) ∷ []) evening evening-Fair
