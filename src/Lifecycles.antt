-- ===== src/Lifecycles.antt =====
-- What the tables of apps/orders/states.py, apps/delivery/states.py, apps/payments/models.py,
-- apps/loyalty/models.py, apps/calls/states.py and apps/groupcarts/states.py say of a whole life
-- cycle.
use elcorazon_backend.Base.{◌≡◌, refl, true, none, some, contains, ok, arith}
use elcorazon_backend.StateMachine.{Way, can, is_terminal, assert_acyclic}
use elcorazon_backend.StateMachine.Acyclic.{assert_acyclic_sound}
use elcorazon_backend.Orders.States.{OrderStatus, order_machine, status_eq as order_eq, ready}
use elcorazon_backend.Delivery.States.{
  DeliveryStatus, offered, accepted, picked_up, on_the_way, delivered, declined, cancelled,
  delivery_machine, order_status_projection, terminal_statuses, status_eq as delivery_eq,
}
use elcorazon_backend.Payments.States.{PaymentStatus, payment_machine, status_eq as payment_eq}
use elcorazon_backend.Loyalty.States.{
  SubscriptionStatus, subscription_machine, status_eq as subscription_eq,
}
use elcorazon_backend.Calls.States.{CallStatus, call_machine, status_eq as call_eq}
use elcorazon_backend.GroupCarts.States.{
  GroupCartStatus, group_cart_machine, status_eq as group_cart_eq,
}

-- No chain of legal transitions brings an order, a delivery, a payment, a subscription, a call or a
-- group cart back to a status it has left.
pub life_cycles_end :
    ((s : OrderStatus) → ¬ (Way order_machine s s))
    × ((s : DeliveryStatus) → ¬ (Way delivery_machine s s))
    × ((s : PaymentStatus) → ¬ (Way payment_machine s s))
    × ((s : SubscriptionStatus) → ¬ (Way subscription_machine s s))
    × ((s : CallStatus) → ¬ (Way call_machine s s))
    × ((s : GroupCartStatus) → ¬ (Way group_cart_machine s s))
unfolding assert_acyclic contains
life_cycles_end = (
  λ s. assert_acyclic_sound order_machine s refl,
  λ s. assert_acyclic_sound delivery_machine s refl,
  λ s. assert_acyclic_sound payment_machine s refl,
  λ s. assert_acyclic_sound subscription_machine s refl,
  λ s. assert_acyclic_sound call_machine s refl,
  λ s. assert_acyclic_sound group_cart_machine s refl,
)

-- The status of the order while its delivery has a status: the projected one, or ready before the
-- courier has picked the order up.
abbrev order_during : DeliveryStatus → OrderStatus
order_during s = elim (order_status_projection s) [ some o ↦ o | none ↦ ready ]

-- Every legal transition of a delivery that projects on the order is a legal transition of the order
-- from the status that the delivery gave it before, ready when it gave none.
pub projection_lem :
    (s t : DeliveryStatus) (o : OrderStatus)
    → can delivery_machine s t ≡ ok true
    → order_status_projection t ≡ some o
    → can order_machine (order_during s) o ≡ ok true
unfolding order_status_projection can contains
projection_lem offered t o legal projects = ground arith
projection_lem accepted t o legal projects = ground arith
projection_lem picked_up t o legal projects = ground arith
projection_lem on_the_way t o legal projects = ground arith
projection_lem delivered t o legal projects = ground arith
projection_lem declined t o legal projects = ground arith
projection_lem cancelled t o legal projects = ground arith

-- `is_terminal` answers on every status of a delivery, and it answers whether the status stands in
-- `TERMINAL_STATUSES`.
pub terminal_statuses_lem :
    (s : DeliveryStatus) → is_terminal delivery_machine s ≡ ok (contains s terminal_statuses)
unfolding is_terminal contains
terminal_statuses_lem s = ground arith
