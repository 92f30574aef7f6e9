-- ===== src/Payments/Kept.antt =====
-- What the steps of a notification of apps/payments/services.py leave as it was.
use elcorazon_backend.Base.{
  ℕ, ◌≡◌, ◌⊎◌, refl, inl, inr, ◌∙◌, true, false, ◌&&◌, Option, none, some, ◌≢◌, nat_eq, string_eq,
  ◌==◌, eq_self, Result, ok, err, ◌>>=◌, Option-cases, arith, ok-injective,
}
use elcorazon_backend.Base.Rows.{set_row, find_row}
use elcorazon_backend.StateMachine.{can}
use elcorazon_backend.Payments.States.{PaymentStatus, status_eq, completed, payment_machine}
use elcorazon_backend.Payments.Rows.{PaymentProvider, provider_eq, Transaction, Desk, Notification}
use elcorazon_backend.Payments.Totals.{report_settled_total, confirm_order, confirm_paid}
use elcorazon_backend.Payments.Webhook.{
  move, on_transaction_settled, close_if_complete, settle_order, differs, with_reason, is_share_of,
  new_event, is_event,
}

-- A call that ends well leaves the events and the transactions as they were.
pub record KeepsRows (db : Desk) (r : Result Desk) : Type 0 where
  pub at : (d : Desk) → r ≡ ok d → (d.events ≡ db.events) × (d.transactions ≡ db.transactions)

module _ (db : Desk) where
  pub KeepsRows-ok :
      (d : Desk) → d.events ≡ db.events → d.transactions ≡ db.transactions → KeepsRows db (ok d)
  KeepsRows-ok d h k = record { at = λ e p. rw (← ok-injective p) (h, k) }

  pub KeepsRows-bind :
      (r : Result Desk) (k : Desk → Result Desk)
      → KeepsRows db r
      → ((d : Desk) → KeepsRows d (k d))
      → KeepsRows db (r >>= k)
  KeepsRows-bind (ok d) k h hk = record {
    at = λ e p.
        let (events, rows) = (hk d).at e p in
        let (events', rows') = h.at d refl in (events ∙ events', rows ∙ rows');
  }
  KeepsRows-bind (err x) k h hk = record { at = λ e p. absurd (ground arith) }

  pub report-KeepsRows : (o : ℕ) → KeepsRows db (report_settled_total o db)
  unfolding report_settled_total
  report-KeepsRows o = record { at = λ d h. ground arith }

  pub confirm-KeepsRows : (o : ℕ) → KeepsRows db (confirm_order o db)
  unfolding confirm_order confirm_paid
  confirm-KeepsRows o = record { at = λ d h. ground arith }

  pub close_if-KeepsRows : (o : ℕ) → KeepsRows db (close_if_complete o db)
  unfolding close_if_complete
  close_if-KeepsRows o = record { at = λ d h. ground arith }

module _ (db : Desk) where
  pub settled-KeepsRows : (n : ℕ) → KeepsRows db (on_transaction_settled n db)
  unfolding on_transaction_settled
  settled-KeepsRows n = elim (Option-cases (find_row (is_share_of n) db.shares)) [
    | inl missing ↦ record { at = λ d h. ground arith }
    | inr ((k, share), found) ↦
        let after : Desk = record db {
          shares = set_row k (record share { status = completed }) db.shares;
        } in
        let ends = (close_if-KeepsRows after share.split).at in
        record { at = λ d h. let end = ends d in ground arith }
  ]

  pub settle_order-KeepsRows : (n : ℕ) (t : Transaction) → KeepsRows db (settle_order n t db)
  unfolding settle_order
  settle_order-KeepsRows n t = go t.order
    where
      go :
          (o : Option ℕ)
          → KeepsRows db (elim o [
            | none ↦ ok db
            | some o ↦ do
              db1 ← on_transaction_settled n db
              db2 ← report_settled_total o db1
              confirm_order o db2
          ])
      go none = KeepsRows-ok db db refl refl
      go (some o) =
          KeepsRows-bind db _ _ (settled-KeepsRows n)
            (λ d. KeepsRows-bind d _ _ (report-KeepsRows d o) (λ e. confirm-KeepsRows e o))

-- The transaction of one number, before and after.
abbrev pub Moves : Notification → Transaction → Transaction → Type 0
Moves note t t' =
    (t' ≡ t)
    ⊎ ((t' ≡ record (with_reason note t) { status = note.status })
        × (can payment_machine t.status note.status ≡ ok true)
        × ((note.status == completed && differs note.amount t.amount) ≡ false))

pub move-rows :
    (n : ℕ) (t : Transaction) (target : PaymentStatus) (db d : Desk)
    → move n t target db ≡ ok d
    → (d.events ≡ db.events)
      × (d.transactions ≡ set_row n (record t { status = target }) db.transactions)
unfolding move
move-rows n t target db d h = ground arith

pub apart : (a b : ℕ) → (a == b) ≡ false → a ≢ b
apart a b h e = ground arith

pub own :
    (provider : PaymentProvider) (note : Notification)
    → is_event provider note.event_id (new_event provider note) ≡ true
own provider note = rw (eq_self provider, eq_self note.event_id) refl
