-- ===== src/Payments/States.antt =====
-- apps/payments/models.py: the life cycle of a transaction, a share, a refund and a withdrawal.
use elcorazon_backend.Base.{ℕ, zero, suc, ◌≡◌, refl, [], ◌∷◌, Eq, Eq-of_code}
use elcorazon_backend.StateMachine.{Table}

-- `PaymentStatus`
pub data PaymentStatus : Type 0 where
  pending processing completed failed cancelled refunded : PaymentStatus

-- The rank of a member in the enumeration.
abbrev pub status_code : PaymentStatus → ℕ
status_code pending = 0
status_code processing = 1
status_code completed = 2
status_code failed = 3
status_code cancelled = 4
status_code refunded = 5

abbrev status_decode : ℕ → PaymentStatus
status_decode zero = pending
status_decode (suc zero) = processing
status_decode (suc (suc zero)) = completed
status_decode (suc (suc (suc zero))) = failed
status_decode (suc (suc (suc (suc zero)))) = cancelled
status_decode _ = refunded

pub status_decode-code : (s : PaymentStatus) → status_decode (status_code s) ≡ s
status_decode-code pending = refl
status_decode-code _ = refl

instance abbrev pub status_eq : Eq PaymentStatus
status_eq = Eq-of_code status_code status_decode status_decode-code

-- `PAYMENT_TRANSITIONS`, the table of `PAYMENT_MACHINE`.
abbrev pub payment_machine : Table PaymentStatus
payment_machine =
    (pending, processing ∷ failed ∷ cancelled ∷ [])
    ∷ (processing, completed ∷ failed ∷ [])
    ∷ (completed, refunded ∷ [])
    ∷ (refunded, [])
    ∷ (failed, [])
    ∷ (cancelled, [])
    ∷ []
