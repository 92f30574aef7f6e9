-- ===== src/Loyalty/States.antt =====
-- apps/loyalty/models.py: the life cycle of a subscription.
use elcorazon_backend.Base.{ℕ, zero, suc, ◌≡◌, refl, [], ◌∷◌, Eq, Eq-of_code}
use elcorazon_backend.StateMachine.{Table}

-- `SubscriptionStatus`
pub data SubscriptionStatus : Type 0 where
  pending active cancelled expired : SubscriptionStatus

-- The rank of a member in the enumeration.
abbrev pub status_code : SubscriptionStatus → ℕ
status_code pending = 0
status_code active = 1
status_code cancelled = 2
status_code expired = 3

abbrev status_decode : ℕ → SubscriptionStatus
status_decode zero = pending
status_decode (suc zero) = active
status_decode (suc (suc zero)) = cancelled
status_decode _ = expired

pub status_decode-code : (s : SubscriptionStatus) → status_decode (status_code s) ≡ s
status_decode-code pending = refl
status_decode-code _ = refl

instance abbrev pub status_eq : Eq SubscriptionStatus
status_eq = Eq-of_code status_code status_decode status_decode-code

-- `SUBSCRIPTION_TRANSITIONS`, the table of `SUBSCRIPTION_MACHINE`.
abbrev pub subscription_machine : Table SubscriptionStatus
subscription_machine =
    (pending, active ∷ cancelled ∷ [])
    ∷ (active, cancelled ∷ expired ∷ [])
    ∷ (cancelled, [])
    ∷ (expired, [])
    ∷ []
