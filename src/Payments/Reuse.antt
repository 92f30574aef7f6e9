-- ===== src/Payments/Reuse.antt =====
-- Payments that are asked for again: `initiate` of apps/payments/services.py.
use mathlib.Core.Path.{subst}
use elcorazon_backend.Base.{
  ℕ, ◌≡◌, refl, sym, ap, ◌∙◌, inl, inr, Bool, true, false, not, Option, none, some, contains, List,
  [], ◌∷◌, ◌++◌, string_eq, ◌==◌, eq_self, length, Result, ok, err, ◌>>=◌, >>=-eq-ok, guard-eq-ok,
  or_raise-eq-ok, ok-injective, Bool-cases, or_raise, rule_violation, integrity_error,
  does_not_exist, arith,
}
use elcorazon_backend.Base.Int.{beq_ℤ_iff}
use elcorazon_backend.Base.Rows.{set_row}
use elcorazon_backend.Money.{Money, add, same, sub, is_positive, currency_eq}
use elcorazon_backend.Orders.States.{OrderStatus, status_eq as order_status_eq}
use elcorazon_backend.Payments.States.{status_eq, processing}
use elcorazon_backend.Payments.Rows.{PaymentProvider, provider_for, Order, Transaction, Desk}
use elcorazon_backend.StateMachine.{can, validate}
use elcorazon_backend.Payments.Totals.{is_settled_for, total_of, settled_total}
use elcorazon_backend.Payments.Webhook.{move}
use elcorazon_backend.Payments.Split.{CheckoutInstruction, has_split, is_taken}
use elcorazon_backend.Payments.Initiate.{
  is_reusable, find_last, request_row, open_request, initiate,
}

pub set_row-append :
    (ts : List Transaction) (t u : Transaction)
    → set_row (length ts) u (ts ++ (t ∷ [])) ≡ ts ++ (u ∷ [])
set_row-append [] t u = refl
set_row-append (x ∷ ts) t u = ap (λ r. x ∷ r) (set_row-append ts t u)

find_last-append :
    (p : Transaction → Bool) (ts : List Transaction) (t : Transaction)
    → p t ≡ true
    → find_last p (ts ++ (t ∷ [])) ≡ some (length ts, t)
unfolding find_last
find_last-append p [] t h = rw h refl
find_last-append p (x ∷ ts) t h = rw (find_last-append p ts t h) refl

same_bind :
    (m : Result Money) {f g : Money → Result Money}
    → ((a : Money) → f a ≡ g a)
    → (m >>= f) ≡ (m >>= g)
same_bind (ok a) h = h a
same_bind (err e) h = refl

pub total_of-append :
    (o : ℕ) (total : Money) (ts : List Transaction) (t : Transaction)
    → is_settled_for o t ≡ false
    → total_of o total (ts ++ (t ∷ [])) ≡ total_of o total ts
unfolding total_of
total_of-append o total [] t h = rw h refl
total_of-append o total (x ∷ ts) t h = elim (Bool-cases (is_settled_for o x)) [
  | inl counts ↦ rw counts (same_bind (add total x.amount) (λ sum. total_of-append o sum ts t h))
  | inr skips ↦ rw skips (total_of-append o total ts t h)
]

pub same_self : (m : Money) → same m m ≡ true
unfolding same
same_self m = rw ((beq_ℤ_iff m.amount_minor m.amount_minor).1 refl, eq_self m.currency) refl

module _ (open_checkout : PaymentProvider → Money → Result CheckoutInstruction) where
  open_request-inv :
      (o : Option ℕ) (provider : PaymentProvider) (amount : Money) (db db' : Desk) (n : ℕ)
      → open_request open_checkout o provider amount db ≡ ok (db', n)
      → (instruction : CheckoutInstruction) × (open_checkout provider amount ≡ ok instruction)
        × (n ≡ length db.transactions)
        × (db' ≡ record db {
          transactions =
              db.transactions
              ++ (record (request_row o provider amount instruction) { status = processing } ∷ []);
        })
  unfolding open_request move validate can contains
  open_request-inv o provider amount db db' n h =
      let (instruction, asked, h1) = >>=-eq-ok (open_checkout provider amount) _ h in
      let (fresh, h2) =
        guard-eq-ok (is_taken instruction.provider_reference db.transactions) integrity_error _
          h1 in
      let both = ok-injective h2 in
      (
        instruction,
        asked,
        sym (ap (λ (r : Desk × ℕ). r.1) both),
        sym (ap (λ (r : Desk × ℕ). r.0) both)
            ∙ ap (λ ts. record db { transactions = ts })
                (set_row-append db.transactions (request_row o provider amount instruction)
                  (record (request_row o provider amount instruction) { status = processing })),
      )

  -- An order that has an open request for what is left to pay is given that request.
  initiate-found :
      (o : ℕ) (db : Desk) (order : Order) (paid outstanding : Money) (r : ℕ × Transaction)
      → db.orders o ≡ some order
      → (order.status == OrderStatus.cancelled) ≡ false
      → has_split (db.splits o) ≡ false
      → settled_total o order db.transactions ≡ ok paid
      → sub order.total paid ≡ ok outstanding
      → is_positive outstanding ≡ true
      → find_last (is_reusable o outstanding) db.transactions ≡ some r
      → initiate open_checkout o db ≡ ok (db, r.0)
  unfolding initiate
  initiate-found o db order paid outstanding r h1 h2 h3 h4 h5 h6 h7 =
      rw (h1, h2, h3, h4, h5, h6, h7) refl

  finish :
      ((p : PaymentProvider) (m : Money) (i : CheckoutInstruction)
        → open_checkout p m ≡ ok i
        → (i.checkout_url == "") ≡ false)
      → (o : ℕ) (db db' : Desk) (n : ℕ) (order : Order) (paid outstanding : Money)
      → db.orders o ≡ some order
      → (order.status == OrderStatus.cancelled) ≡ false
      → has_split (db.splits o) ≡ false
      → settled_total o order db.transactions ≡ ok paid
      → sub order.total paid ≡ ok outstanding
      → is_positive outstanding ≡ true
      → (r : Option (ℕ × Transaction)) → find_last (is_reusable o outstanding) db.transactions ≡ r
      → elim r [
        | some r ↦ ok (db, r.0)
        | none ↦
            open_request open_checkout (some o) (provider_for order.payment_method) outstanding db
      ]
        ≡ ok (db', n)
      → initiate open_checkout o db' ≡ ok (db', n)
  unfolding settled_total
  finish addressed o db db' n order paid outstanding h1 h2 h3 h4 h5 h6 (some r) h7 h =
      subst (λ (q : Desk × ℕ). initiate open_checkout o q.0 ≡ ok q) (ok-injective h)
        (initiate-found o db order paid outstanding r h1 h2 h3 h4 h5 h6 h7)
  finish addressed o db db' n order paid outstanding h1 h2 h3 h4 h5 h6 none h7 h =
      let (instruction, asked, num, shape) =
        open_request-inv (some o) (provider_for order.payment_method) outstanding db db' n h in
      let t : Transaction =
        record (request_row (some o) (provider_for order.payment_method) outstanding instruction) {
          status = processing;
        } in
      let unsettled : is_settled_for o t ≡ false = rw (eq_self o) refl in
      let reusable : is_reusable o outstanding t ≡ true =
        rw (eq_self o, same_self outstanding, addressed _ _ instruction asked) refl in
      rw (shape, num)
        (initiate-found o _ order paid outstanding (length db.transactions, t) h1 h2 h3
          (total_of-append o _ db.transactions t unsettled ∙ h4) h5 h6
          (find_last-append (is_reusable o outstanding) db.transactions t reusable))

  -- When the connector gives an address with every request it opens, a payment that was asked for is
  -- given again as it is when it is asked for again: the same transaction, and nothing is written.
  pub initiate_twice :
      ((p : PaymentProvider) (m : Money) (i : CheckoutInstruction)
        → open_checkout p m ≡ ok i
        → (i.checkout_url == "") ≡ false)
      → (o : ℕ) (db db' : Desk) (n : ℕ) → initiate open_checkout o db ≡ ok (db', n)
      → initiate open_checkout o db' ≡ ok (db', n)
  unfolding initiate
  initiate_twice addressed o db db' n h =
      let (order, found, h1) = >>=-eq-ok (or_raise (db.orders o) does_not_exist) _ h in
      let (live, h2) = guard-eq-ok (order.status == OrderStatus.cancelled) rule_violation _ h1 in
      let (whole, h3) = guard-eq-ok (has_split (db.splits o)) rule_violation _ h2 in
      let (paid, counted, h4) = >>=-eq-ok (settled_total o order db.transactions) _ h3 in
      let (outstanding, left, h5) = >>=-eq-ok (sub order.total paid) _ h4 in
      let (due, h6) = guard-eq-ok (not (is_positive outstanding)) rule_violation _ h5 in
      finish addressed o db db' n order paid outstanding (or_raise-eq-ok _ _ found) live whole
        counted left (positive (is_positive outstanding) due)
        (find_last (is_reusable o outstanding) db.transactions) refl h6
    where
      positive : (b : Bool) → not b ≡ false → b ≡ true
      positive b h = ground arith
