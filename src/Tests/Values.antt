-- ===== src/Tests/Values.antt =====
-- Runs of common/money.py, common/quantities.py and common/state_machine.py.
use elcorazon_backend.Base.{
  ◌+◌, ◌*◌, ◌≤◌, ◌<◌, ◌≡◌, ◌⊎◌, refl, arith, true, List, [], ◌∷◌, length, ok, err, ◌>>=◌,
  cycle_detected, contains,
}
use elcorazon_backend.Base.Int.{ℤ, pos, pos_part, ◌*ℤ◌, ◌≤ℤ◌, sum_ℤ, floor_div, ◌-ℤ◌, ◌+ℤ◌}
use elcorazon_backend.Money.{Money, money, xof, allocate, percentage}
use elcorazon_backend.Money.Allocate.{
  minors, IsIn, floors, rest_of, add_ones, allocate_lem, sum-allocate,
}
use elcorazon_backend.Money.Percentage.{percentage_near, percentage-le}
use elcorazon_backend.Quantities.{Quantity, mass, kg, dimension_of, as_unit, from_unit}
use elcorazon_backend.Quantities.RoundTrip.{from_unit-as_unit}
use elcorazon_backend.StateMachine.{Way, can, assert_acyclic, assert_states_declared, is_terminal}
use elcorazon_backend.StateMachine.Fuel.{assert_acyclic_decides}
use elcorazon_backend.Orders.States.{OrderStatus, order_machine, status_eq as order_eq}
use elcorazon_backend.Delivery.States.{
  accepted, picked_up, delivered, delivery_machine, terminal_statuses, order_status_projection,
  status_eq as delivery_eq, VerificationStatus, verification_machine, verification_eq,
}
use elcorazon_backend.Lifecycles.{projection_lem, terminal_statuses_lem}

abbrev bill : Money
bill = money (pos 1000) xof

abbrev ones : List ℤ
ones = pos 1 ∷ pos 1 ∷ pos 1 ∷ []

abbrev thirds : List Money
thirds = money (pos 334) xof ∷ money (pos 333) xof ∷ money (pos 333) xof ∷ []

allocate_lem_example :
    (minors thirds ≡ add_ones (pos_part (rest_of bill ones)) (floors bill ones))
    × IsIn xof thirds
    × (rest_of bill ones ≤ℤ pos 3)
unfolding allocate floor_div ◌*ℤ◌ ◌-ℤ◌ ◌+ℤ◌
allocate_lem_example = allocate_lem bill ones refl

sum-allocate_example : (length thirds ≡ 3) × (sum_ℤ (minors thirds) ≡ pos 1000)
unfolding allocate floor_div ◌*ℤ◌ ◌-ℤ◌ ◌+ℤ◌
sum-allocate_example = sum-allocate bill ones refl

percentage_near_example :
    let x = 1000 * 1250 in
    let p = (percentage bill 1250).amount_minor in
    (pos 0 ≤ℤ p) × (20_000 * pos_part p ≤ 2 * x + 10_000) × (2 * x < 20_000 * pos_part p + 10_000)
percentage_near_example = percentage_near bill 1250 (omega arith)

percentage-le_example : (percentage bill 1250).amount_minor ≤ℤ pos 1000
percentage-le_example = percentage-le bill 1250 (omega arith) (omega arith)

abbrev sack : Quantity
sack = record { amount_base = pos 2_500_000; dimension = mass }

from_unit-as_unit_example : (as_unit sack kg >>= λ (m, k). from_unit m k kg) ≡ ok sack
unfolding dimension_of
from_unit-as_unit_example = from_unit-as_unit sack kg refl

assert_acyclic_decides_example :
    (assert_acyclic verification_machine ≡ ok tt)
      × ((s : VerificationStatus) → ¬ (Way verification_machine s s))
    ⊎ (assert_acyclic verification_machine ≡ err cycle_detected)
      × ((s : VerificationStatus) × Way verification_machine s s)
unfolding assert_states_declared contains
assert_acyclic_decides_example = assert_acyclic_decides verification_machine refl

projection_lem_example : can order_machine OrderStatus.ready OrderStatus.picked_up ≡ ok true
unfolding order_status_projection can contains
projection_lem_example = projection_lem accepted picked_up OrderStatus.picked_up refl refl

terminal_statuses_lem_example :
    is_terminal delivery_machine delivered ≡ ok (contains delivered terminal_statuses)
terminal_statuses_lem_example = terminal_statuses_lem delivered
