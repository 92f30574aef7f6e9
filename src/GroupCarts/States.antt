-- ===== src/GroupCarts/States.antt =====
-- apps/groupcarts/states.py: the life cycle of a shared cart.
use elcorazon_backend.Base.{ℕ, zero, suc, ◌≡◌, refl, [], ◌∷◌, Eq, Eq-of_code}
use elcorazon_backend.StateMachine.{Table}

-- `GroupCartStatus`; `opened` is `OPEN`.
pub data GroupCartStatus : Type 0 where
  opened locked confirmed cancelled expired : GroupCartStatus

-- The rank of a member in the enumeration.
abbrev pub status_code : GroupCartStatus → ℕ
status_code opened = 0
status_code locked = 1
status_code confirmed = 2
status_code cancelled = 3
status_code expired = 4

abbrev status_decode : ℕ → GroupCartStatus
status_decode zero = opened
status_decode (suc zero) = locked
status_decode (suc (suc zero)) = confirmed
status_decode (suc (suc (suc zero))) = cancelled
status_decode _ = expired

pub status_decode-code : (s : GroupCartStatus) → status_decode (status_code s) ≡ s
status_decode-code opened = refl
status_decode-code _ = refl

instance abbrev pub status_eq : Eq GroupCartStatus
status_eq = Eq-of_code status_code status_decode status_decode-code

-- `GROUP_CART_TRANSITIONS`, the table of `GROUP_CART_MACHINE`.
abbrev pub group_cart_machine : Table GroupCartStatus
group_cart_machine =
    (opened, locked ∷ cancelled ∷ expired ∷ [])
    ∷ (locked, confirmed ∷ cancelled ∷ expired ∷ [])
    ∷ (confirmed, [])
    ∷ (cancelled, [])
    ∷ (expired, [])
    ∷ []
