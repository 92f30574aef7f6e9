-- ===== src/Calls/States.antt =====
-- apps/calls/states.py: the life cycle of a call.
use elcorazon_backend.Base.{ℕ, zero, suc, ◌≡◌, refl, [], ◌∷◌, Eq, Eq-of_code}
use elcorazon_backend.StateMachine.{Table}

-- `CallStatus`
pub data CallStatus : Type 0 where
  ringing accepted declined ended missed : CallStatus

-- The rank of a member in the enumeration.
abbrev pub status_code : CallStatus → ℕ
status_code ringing = 0
status_code accepted = 1
status_code declined = 2
status_code ended = 3
status_code missed = 4

abbrev status_decode : ℕ → CallStatus
status_decode zero = ringing
status_decode (suc zero) = accepted
status_decode (suc (suc zero)) = declined
status_decode (suc (suc (suc zero))) = ended
status_decode _ = missed

pub status_decode-code : (s : CallStatus) → status_decode (status_code s) ≡ s
status_decode-code ringing = refl
status_decode-code _ = refl

instance abbrev pub status_eq : Eq CallStatus
status_eq = Eq-of_code status_code status_decode status_decode-code

-- `CALL_TRANSITIONS`, the table of `CALL_MACHINE`.
abbrev pub call_machine : Table CallStatus
call_machine =
    (ringing, accepted ∷ declined ∷ missed ∷ [])
    ∷ (accepted, ended ∷ [])
    ∷ (declined, [])
    ∷ (ended, [])
    ∷ (missed, [])
    ∷ []
