-- ===== src/Base/Outcome.antt =====
-- A call that may raise: Python's exceptions, one constructor for each class or, where one class
-- carries several messages, for each message. A handler that raises inside `transaction.atomic`
-- writes nothing, so an error comes without a state.
use mathlib.Core.Path.{◌≡◌, refl, ap}
use mathlib.Core.Logic.{◌≢◌}
use mathlib.Core.Bool.{Bool, true, false}
use mathlib.Core.Option.{Option, none, some}

pub data Error : Type 0 where
  out_of_fuel : Error
  undeclared_target cycle_detected unknown_state illegal_transition : Error
  unknown_currency currency_mismatch excess_precision bad_weights : Error
  unknown_unit dimension_mismatch : Error
  motive_required wrong_direction inactive_ingredient idempotency_key_reused : Error
  four_eyes_required decision_already_taken insufficient_stock integrity_error : Error
  promotion_refused insufficient_balance request_in_flight key_required : Error
  does_not_exist rule_violation : Error

-- What a call ends with: its value, or the exception that it raises.
pub data Result {ℓ} (V : Type ℓ) : Type ℓ where
  ok : V → Result V
  err : Error → Result V

-- One statement after another, in a block of `do`.
infixl 5 ◌>>=◌ ◌>>◌
abbrev pub ◌>>=◌ {ℓ κ} : {U : Type ℓ} {V : Type κ} → Result U → (U → Result V) → Result V
err raised >>= next = err raised
ok u >>= next = next u

abbrev pub ◌>>◌ {ℓ κ} : {U : Type ℓ} {V : Type κ} → Result U → Result V → Result V
first >> next = first >>= λ _. next

-- `if c: raise e`
abbrev pub raise_if : Bool → Error → Result (Unit {0})
raise_if true e = err e
raise_if false e = ok tt

abbrev pub or_raise {ℓ} : {A : Type ℓ} → Option A → Error → Result A
or_raise none e = err e
or_raise (some a) e = ok a

-- The value of a successful call, with a default.
abbrev pub value_or {ℓ} : {A : Type ℓ} → A → Result A → A
value_or d (ok a) = a
value_or d (err e) = d

-- A block that ends well has run its first statement well.
pub >>=-eq-ok {ℓ κ} :
    {U : Type ℓ} {V : Type κ} (first : Result U) (next : U → Result V) {v : V}
    → (first >>= next) ≡ ok v
    → (u : U) × (first ≡ ok u) × (next u ≡ ok v)
>>=-eq-ok (err raised) next h = cc
>>=-eq-ok (ok u) next h = (u, refl, h)

pub ok-injective {ℓ} : {A : Type ℓ} {a b : A} → ok a ≡ ok b → a ≡ b
ok-injective h = cc

-- A guard that a successful call has passed.
pub guard-eq-ok {ℓ} :
    {A : Type ℓ} (b : Bool) (e : Error) (k : Result A) {a : A}
    → (raise_if b e >> k) ≡ ok a
    → (b ≡ false) × (k ≡ ok a)
guard-eq-ok true e k h = cc
guard-eq-ok false e k h = (refl, h)

pub or_raise-eq-ok {ℓ} :
    {A : Type ℓ} (o : Option A) (e : Error) {a : A} → or_raise o e ≡ ok a → o ≡ some a
or_raise-eq-ok none e h = cc
or_raise-eq-ok (some a) e h = cc

pub err-injective {ℓ} : {A : Type ℓ} {x y : Error} → ◌≡◌ {A = Result A} (err x) (err y) → x ≡ y
err-injective h = cc

-- An error that the statements before it do not raise is raised after them.
pub guard-eq-err {ℓ} :
    {A : Type ℓ} (b : Bool) (e : Error) (k : Result A) {raised : Error}
    → e ≢ raised
    → (raise_if b e >> k) ≡ err raised
    → (b ≡ false) × (k ≡ err raised)
guard-eq-err true e k ne h = absurd (ne (err-injective h))
guard-eq-err false e k ne h = (refl, h)

pub or_raise-eq-err {ℓ κ} :
    {A : Type ℓ} {B : Type κ} (o : Option A) (e : Error) (k : A → Result B) {raised : Error}
    → e ≢ raised
    → (or_raise o e >>= k) ≡ err raised
    → (a : A) × (o ≡ some a) × (k a ≡ err raised)
or_raise-eq-err none e k ne h = absurd (ne (err-injective h))
or_raise-eq-err (some a) e k ne h = (a, refl, h)

pub >>=-eq-err {ℓ κ} :
    {A : Type ℓ} {B : Type κ} (m : Result A) (k : A → Result B) {raised : Error}
    → m ≢ err raised
    → (m >>= k) ≡ err raised
    → (a : A) × (m ≡ ok a) × (k a ≡ err raised)
>>=-eq-err (ok a) k ne h = (a, refl, h)
>>=-eq-err (err e) k ne h = absurd (ne (ap err (err-injective h)))
