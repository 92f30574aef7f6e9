-- ===== src/Orders/States.antt =====
-- apps/orders/states.py: the life cycle of an order.
use elcorazon_backend.Base.{ℕ, zero, suc, ◌≡◌, refl, [], ◌∷◌, Eq, Eq-of_code}
use elcorazon_backend.StateMachine.{Table}

-- `OrderStatus`
pub data OrderStatus : Type 0 where
  pending confirmed preparing ready picked_up on_the_way delivered cancelled : OrderStatus

-- The rank of a member in the enumeration.
abbrev pub status_code : OrderStatus → ℕ
status_code pending = 0
status_code confirmed = 1
status_code preparing = 2
status_code ready = 3
status_code picked_up = 4
status_code on_the_way = 5
status_code delivered = 6
status_code cancelled = 7

abbrev status_decode : ℕ → OrderStatus
status_decode zero = pending
status_decode (suc zero) = confirmed
status_decode (suc (suc zero)) = preparing
status_decode (suc (suc (suc zero))) = ready
status_decode (suc (suc (suc (suc zero)))) = picked_up
status_decode (suc (suc (suc (suc (suc zero))))) = on_the_way
status_decode (suc (suc (suc (suc (suc (suc zero)))))) = delivered
status_decode _ = cancelled

pub status_decode-code : (s : OrderStatus) → status_decode (status_code s) ≡ s
status_decode-code pending = refl
status_decode-code _ = refl

instance abbrev pub status_eq : Eq OrderStatus
status_eq = Eq-of_code status_code status_decode status_decode-code

-- `ORDER_TRANSITIONS`, the table of `ORDER_MACHINE`.
abbrev pub order_machine : Table OrderStatus
order_machine =
    (pending, confirmed ∷ cancelled ∷ [])
    ∷ (confirmed, preparing ∷ cancelled ∷ [])
    ∷ (preparing, ready ∷ cancelled ∷ [])
    ∷ (ready, picked_up ∷ cancelled ∷ [])
    ∷ (picked_up, on_the_way ∷ [])
    ∷ (on_the_way, delivered ∷ [])
    ∷ (delivered, [])
    ∷ (cancelled, [])
    ∷ []
