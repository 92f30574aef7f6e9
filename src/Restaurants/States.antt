-- ===== src/Restaurants/States.antt =====
-- apps/restaurants/states.py: the life cycle of an establishment.
use elcorazon_backend.Base.{ℕ, zero, suc, ◌≡◌, refl, [], ◌∷◌, Eq, Eq-of_code}
use elcorazon_backend.StateMachine.{Table}

-- `RestaurantStatus`
pub data RestaurantStatus : Type 0 where
  draft configuring ready active inactive : RestaurantStatus

-- The rank of a member in the enumeration.
abbrev pub status_code : RestaurantStatus → ℕ
status_code draft = 0
status_code configuring = 1
status_code ready = 2
status_code active = 3
status_code inactive = 4

abbrev status_decode : ℕ → RestaurantStatus
status_decode zero = draft
status_decode (suc zero) = configuring
status_decode (suc (suc zero)) = ready
status_decode (suc (suc (suc zero))) = active
status_decode _ = inactive

pub status_decode-code : (s : RestaurantStatus) → status_decode (status_code s) ≡ s
status_decode-code draft = refl
status_decode-code _ = refl

instance abbrev pub status_eq : Eq RestaurantStatus
status_eq = Eq-of_code status_code status_decode status_decode-code

-- `RESTAURANT_TRANSITIONS`, built with `require_acyclic=False`.
abbrev pub restaurant_machine : Table RestaurantStatus
restaurant_machine =
    (draft, configuring ∷ [])
    ∷ (configuring, draft ∷ ready ∷ [])
    ∷ (ready, configuring ∷ active ∷ [])
    ∷ (active, inactive ∷ [])
    ∷ (inactive, active ∷ configuring ∷ [])
    ∷ []
