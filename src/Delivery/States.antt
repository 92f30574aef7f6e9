-- ===== src/Delivery/States.antt =====
-- apps/delivery/states.py: the life cycles of a delivery and of a courier's file.
use elcorazon_backend.Base.{ℕ, zero, suc, ◌≡◌, refl, List, [], ◌∷◌, Eq, Eq-of_code}
use elcorazon_backend.Base.{Option, none, some}
use elcorazon_backend.StateMachine.{Table}
use elcorazon_backend.Orders.States.{OrderStatus}

-- `DeliveryStatus`
pub data DeliveryStatus : Type 0 where
  offered accepted picked_up on_the_way delivered declined cancelled : DeliveryStatus

-- The rank of a member in the enumeration.
abbrev pub status_code : DeliveryStatus → ℕ
status_code offered = 0
status_code accepted = 1
status_code picked_up = 2
status_code on_the_way = 3
status_code delivered = 4
status_code declined = 5
status_code cancelled = 6

abbrev status_decode : ℕ → DeliveryStatus
status_decode zero = offered
status_decode (suc zero) = accepted
status_decode (suc (suc zero)) = picked_up
status_decode (suc (suc (suc zero))) = on_the_way
status_decode (suc (suc (suc (suc zero)))) = delivered
status_decode (suc (suc (suc (suc (suc zero))))) = declined
status_decode _ = cancelled

pub status_decode-code : (s : DeliveryStatus) → status_decode (status_code s) ≡ s
status_decode-code offered = refl
status_decode-code _ = refl

instance abbrev pub status_eq : Eq DeliveryStatus
status_eq = Eq-of_code status_code status_decode status_decode-code

-- `DELIVERY_TRANSITIONS`, the table of `DELIVERY_MACHINE`.
abbrev pub delivery_machine : Table DeliveryStatus
delivery_machine =
    (offered, accepted ∷ declined ∷ cancelled ∷ [])
    ∷ (accepted, picked_up ∷ cancelled ∷ [])
    ∷ (picked_up, on_the_way ∷ [])
    ∷ (on_the_way, delivered ∷ [])
    ∷ (delivered, [])
    ∷ (declined, [])
    ∷ (cancelled, [])
    ∷ []

-- `ENGAGED_STATUSES`
abbrev pub engaged_statuses : List DeliveryStatus
engaged_statuses = accepted ∷ picked_up ∷ on_the_way ∷ []

-- `TERMINAL_STATUSES`
abbrev pub terminal_statuses : List DeliveryStatus
terminal_statuses = declined ∷ cancelled ∷ delivered ∷ []

-- `ORDER_STATUS_PROJECTION`
unfoldable pub order_status_projection : DeliveryStatus → Option OrderStatus
order_status_projection picked_up = some OrderStatus.picked_up
order_status_projection on_the_way = some OrderStatus.on_the_way
order_status_projection delivered = some OrderStatus.delivered
order_status_projection _ = none

-- `VerificationStatus`; `awaiting` is `PENDING`.
pub data VerificationStatus : Type 0 where
  awaiting approved rejected suspended : VerificationStatus

-- The rank of a member in the enumeration.
abbrev pub verification_code : VerificationStatus → ℕ
verification_code awaiting = 0
verification_code approved = 1
verification_code rejected = 2
verification_code suspended = 3

abbrev verification_decode : ℕ → VerificationStatus
verification_decode zero = awaiting
verification_decode (suc zero) = approved
verification_decode (suc (suc zero)) = rejected
verification_decode _ = suspended

pub verification_decode-code :
    (s : VerificationStatus) → verification_decode (verification_code s) ≡ s
verification_decode-code awaiting = refl
verification_decode-code _ = refl

instance abbrev pub verification_eq : Eq VerificationStatus
verification_eq = Eq-of_code verification_code verification_decode verification_decode-code

-- `VERIFICATION_TRANSITIONS`, built with `require_acyclic=False`.
abbrev pub verification_machine : Table VerificationStatus
verification_machine =
    (awaiting, approved ∷ rejected ∷ [])
    ∷ (approved, awaiting ∷ suspended ∷ [])
    ∷ (rejected, awaiting ∷ [])
    ∷ (suspended, approved ∷ rejected ∷ [])
    ∷ []
