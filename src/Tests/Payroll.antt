-- ===== src/Tests/Payroll.antt =====
-- Runs of the withdrawals of apps/payments/services.py.
use elcorazon_backend.Base.{
  ◌≡◌, inl, refl, none, some, List, [], ◌∷◌, err, value_or, illegal_transition, update, nat_eq,
  contains,
}
use elcorazon_backend.Base.Int.{pos, ◌+ℤ◌, ◌-ℤ◌}
use elcorazon_backend.Money.{money, xof, currency_beq, check_currency, add, sub}
use elcorazon_backend.StateMachine.{can, validate, targets_from}
use elcorazon_backend.Payments.Withdrawals.{
  Payroll, request, settle, fail, Call, requests, settles, fails, perform, run,
}
use elcorazon_backend.Payments.Balance.{available, taken}
use elcorazon_backend.Payments.Conservation.{withdrawals_conserve, decision_is_final}

abbrev payday : Payroll
payday = record {
  couriers = update (λ c. none) 3 (some (some (money (pos 9000) xof)));
  withdrawals = [];
}

abbrev week : List Call
week =
    requests 3 (money (pos 5000) xof)
    ∷ requests 3 (money (pos 5000) xof)
    ∷ requests 3 (money (pos 1000) xof)
    ∷ settles 0 "VIR-1" (some 1)
    ∷ fails 1 "compte clos" (some 1)
    ∷ []

withdrawals_conserve_example :
    available 3 (run week payday) +ℤ taken 3 (run week payday)
    ≡ available 3 payday +ℤ taken 3 payday
withdrawals_conserve_example = withdrawals_conserve 3 week payday

week_balance : available 3 (run week payday) ≡ pos 4000
unfolding run perform request settle fail can validate targets_from add sub check_currency
    currency_beq ◌+ℤ◌ ◌-ℤ◌ contains
week_balance = refl

abbrev asked : Payroll
asked = run (requests 3 (money (pos 5000) xof) ∷ []) payday

abbrev paid : Payroll
paid = value_or asked (settle 0 "VIR-1" (some 1) asked)

decision_is_final_example :
    (settle 0 "VIR-2" none paid ≡ err illegal_transition)
    × (fail 0 "VIR-2" none paid ≡ err illegal_transition)
unfolding run perform request settle fail can validate targets_from add sub check_currency
    currency_beq ◌+ℤ◌ ◌-ℤ◌ contains
decision_is_final_example = decision_is_final 0 "VIR-1" (some 1) asked paid (inl refl) "VIR-2" none
