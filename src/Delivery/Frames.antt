-- ===== src/Delivery/Frames.antt =====
-- What the parts of a step of a course leave alone, in apps/delivery/services.py.
use elcorazon_backend.Base.{
  ℕ, suc, ◌≡◌, refl, sym, ap, inl, inr, String, Option, some, nat_eq, update, ok, or_raise,
  does_not_exist, >>=-eq-ok, or_raise-eq-ok, ok-injective,
}
use elcorazon_backend.Orders.States.{OrderStatus}
use elcorazon_backend.Money.{Money}
use elcorazon_backend.Delivery.States.{DeliveryStatus, delivered, cancelled}
use elcorazon_backend.Delivery.Rows.{CourierProfile, Assignment, Order, Fleet}
use elcorazon_backend.Delivery.Courses.{earnings_with, reward, credit, count_cancelled, advanced}
use elcorazon_backend.Delivery.Effects.{Followed}

-- Only the status and the reason of a row change.
pub advanced-same :
    (a : Assignment) (target : DeliveryStatus) (reason : String)
    → ((advanced a target reason).status ≡ target)
      × ((advanced a target reason).courier ≡ a.courier)
      × ((advanced a target reason).order ≡ a.order)
      × ((advanced a target reason).courier_fee ≡ a.courier_fee)
unfolding advanced
advanced-same a cancelled reason = (refl, refl, refl, refl)
advanced-same a _ reason = (refl, refl, refl, refl)

pub credit-inv :
    (a : Assignment) (db db' : Fleet)
    → credit a db ≡ ok db'
    → (k : CourierProfile) × (earnings : Option Money) × (db.couriers a.courier ≡ some k)
      × (earnings_with k.total_earnings a.courier_fee ≡ ok earnings)
      × (db' ≡ record db {
        couriers = update db.couriers a.courier (
            some (record k {
              deliveries_completed = suc k.deliveries_completed;
              total_earnings = earnings;
            }));
      })
unfolding credit
credit-inv a db db' h =
    let (k, found, h1) = >>=-eq-ok (or_raise (db.couriers a.courier) does_not_exist) _ h in
    let (earnings, summed, h2) = >>=-eq-ok (earnings_with k.total_earnings a.courier_fee) _ h1 in
    (k, earnings, or_raise-eq-ok _ _ found, summed, sym (ok-injective h2))

pub count_cancelled-inv :
    (a : Assignment) (db db' : Fleet)
    → count_cancelled a db ≡ ok db'
    → (k : CourierProfile) × (db.couriers a.courier ≡ some k)
      × (db' ≡ record db {
        couriers =
            update db.couriers a.courier
              (some (record k { deliveries_cancelled = suc k.deliveries_cancelled }));
      })
unfolding count_cancelled
count_cancelled-inv a db db' h =
    let (k, found, h1) = >>=-eq-ok (or_raise (db.couriers a.courier) does_not_exist) _ h in
    (k, or_raise-eq-ok _ _ found, sym (ok-injective h1))

-- A reward is written on the courier alone.
pub reward-frame :
    (target : DeliveryStatus) (a : Assignment) (db db' : Fleet)
    → reward target a db ≡ ok db'
    → (db'.assignments ≡ db.assignments) × (db'.orders ≡ db.orders)
unfolding reward
reward-frame delivered a db db' h =
    let (k, earnings, found, summed, shape) = credit-inv a db db' h in
    (ap (λ (d : Fleet). d.assignments) shape, ap (λ (d : Fleet). d.orders) shape)
reward-frame cancelled a db db' h =
    let (k, found, shape) = count_cancelled-inv a db db' h in
    (ap (λ (d : Fleet). d.assignments) shape, ap (λ (d : Fleet). d.orders) shape)
reward-frame _ a db db' h = rw (sym (ok-injective h)) (refl, refl)

-- The order that follows is written alone.
pub Followed-frame :
    (o : ℕ) (order : Order) (p : Option OrderStatus) (db db' : Fleet)
    → Followed o order p db db'
    → (db'.assignments ≡ db.assignments) × (db'.couriers ≡ db.couriers)
Followed-frame o order p db db' (inl (shape, why)) = rw shape (refl, refl)
Followed-frame o order p db db' (inr (s, asked, legal, shape)) =
    (ap (λ (d : Fleet). d.assignments) shape, ap (λ (d : Fleet). d.couriers) shape)
