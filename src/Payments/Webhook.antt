-- ===== src/Payments/Webhook.antt =====
-- The notifications of a payment provider: `handle_webhook` and `_apply` of
-- apps/payments/services.py, with what they call of apps/payments/split.py. An event is recorded
-- before its application begins and stays when the application raises, which writes nothing else.
use Prim.Native.Char.{code}
use elcorazon_backend.Base.{
  ℕ, String, Bool, true, false, not, ◌&&◌, ◌||◌, Option, none, some, List, [], ◌∷◌, nat_eq, nat_beq,
  string_eq, ◌==◌, update, Result, ok, err, ◌>>=◌, ◌>>◌, or_raise, if◌then◌else◌, Error,
  rule_violation, does_not_exist,
}
use elcorazon_backend.Base.Rows.{set_row, find_row}
use elcorazon_backend.Money.{Money, same}
use elcorazon_backend.StateMachine.{can, is_noop, validate}
use elcorazon_backend.Payments.States.{PaymentStatus, status_eq, completed, failed, payment_machine}
use elcorazon_backend.Payments.Rows.{
  PaymentProvider, provider_eq, Transaction, Anomaly, no_transaction, refused_transition,
  amount_differs, WebhookEvent, SplitShare, Desk, Notification,
}
use elcorazon_backend.Payments.Totals.{report_settled_total, confirm_order}

-- `PaymentService._move`
unfoldable pub move : ℕ → Transaction → PaymentStatus → Desk → Result Desk
move n t target db = do
  validate payment_machine t.status target
  ok (record db { transactions = set_row n (record t { status = target }) db.transactions })

abbrev pub is_share_of : ℕ → SplitShare → Bool
is_share_of n s = elim s.transaction [ none ↦ false | some m ↦ m == n ]

-- `split.shares.exclude(status=COMPLETED).exists()`
unfoldable pub remains : ℕ → List SplitShare → Bool
remains o [] = false
remains o (s ∷ shares) = s.split == o && not (s.status == completed) || remains o shares

-- `_close_if_complete`, of the split of the order `o`
unfoldable pub close_if_complete : ℕ → Desk → Result Desk
close_if_complete o db = do
  split ← or_raise (db.splits o) does_not_exist
  closes ← can payment_machine split.status completed
  ok (
      if not (remains o db.shares) && closes
      then record db { splits = update db.splits o (some (record split { status = completed })) }
      else db)

-- `SplitService.on_transaction_settled`
unfoldable pub on_transaction_settled : ℕ → Desk → Result Desk
on_transaction_settled n db = elim (find_row (is_share_of n) db.shares) [
  | none ↦ ok db
  | some (k, share) ↦ do
    settles ← can payment_machine share.status completed
    (if settles
        then close_if_complete share.split
            (record db { shares = set_row k (record share { status = completed }) db.shares })
        else ok db)
]

-- `_close`, of the event that was recorded last
unfoldable pub close : Option Anomaly → Desk → Desk
close problem db = record db { events = closed problem db.events }
  where
    closed : Option Anomaly → List WebhookEvent → List WebhookEvent
    closed problem [] = []
    closed problem (e ∷ events) =
        record e { processing_error = problem; is_processed = true } ∷ events

-- `notification.amount is not None and notification.amount != txn.amount`
abbrev pub differs : Option Money → Money → Bool
differs none amount = false
differs (some a) amount = not (same a amount)

abbrev pub with_reason : Notification → Transaction → Transaction
with_reason note t = if note.status == failed then record t { failure_reason = note.reason } else t

-- What a payment that is completed does for its order.
unfoldable pub settle_order : ℕ → Transaction → Desk → Result Desk
settle_order n t db = elim t.order [
  | none ↦ ok db
  | some o ↦ do
    db1 ← on_transaction_settled n db
    db2 ← report_settled_total o db1
    confirm_order o db2
]

-- `not event_id.strip(":")`
abbrev pub only_colons : String → Bool
only_colons String.[] = true
only_colons (String.◌∷◌ c s) = nat_beq (code c) 58 && only_colons s

abbrev pub is_event : PaymentProvider → String → WebhookEvent → Bool
is_event provider id e = e.provider == provider && e.event_id == id

abbrev pub new_event : PaymentProvider → Notification → WebhookEvent
new_event provider note = record {
  provider = provider;
  event_id = note.event_id;
  processing_error = none;
  is_processed = false;
}

-- What a call answers: the error that it raises, or whether the event was there before.
pub data Answer : Type 0 where
  raised : Error → Answer
  replayed applied : Answer

abbrev pub outcome : Desk → Result Desk → Desk × Answer
outcome recorded (ok db) = (db, applied)
outcome recorded (err e) = (recorded, raised e)

abbrev pub is_about : PaymentProvider → String → Transaction → Bool
is_about provider reference t = t.provider == provider && t.provider_reference == reference

-- The receivers of the signals of apps/payments/signals.py write to other tables: what is left of
-- them here is whether one of them raises, for the transaction and its new status.
module _ (receivers : ℕ → PaymentStatus → Result (Unit {0})) where
  -- `_apply`, from the writing of the new status on, of the transaction number `n`.
  unfoldable pub apply_status : ℕ → Transaction → Notification → Desk → Result Desk
  apply_status n t note db = do
    db1 ← move n (with_reason note t) note.status db
    db2 ← (if note.status == completed then settle_order n t db1 else ok db1)
    (if note.status == completed || note.status == failed then receivers n note.status else ok tt)
    ok (close none db2)

  -- `_apply`
  unfoldable pub apply : PaymentProvider → Notification → Desk → Result Desk
  apply provider note db =
      elim (find_row (is_about provider note.provider_reference) db.transactions) [
        | none ↦ ok (close (some no_transaction) db)
        | some (n, t) ↦ do
          reached ← is_noop payment_machine t.status note.status
          legal ← can payment_machine t.status note.status
          (if reached
              then ok (close none db)
              else if not legal
              then ok (close (some refused_transition) db)
              else if note.status == completed && differs note.amount t.amount
              then ok (close (some amount_differs) db)
              else apply_status n t note db)
      ]

  -- `handle_webhook`
  unfoldable pub handle_webhook : PaymentProvider → Notification → Desk → Desk × Answer
  handle_webhook provider note db =
      if only_colons note.event_id
      then (db, raised rule_violation)
      else elim (find_row (is_event provider note.event_id) db.events) [
        | some e ↦ (db, replayed)
        | none ↦
            let recorded = record db { events = new_event provider note ∷ db.events } in
            outcome recorded (apply provider note recorded)
      ]
