-- ===== src/Payments/Settlement.antt =====
-- What the notifications of apps/payments/services.py may and may not change.
use elcorazon_backend.Base.{
  ℕ, ◌≡◌, ◌⊎◌, refl, inl, inr, sym, ap, ◌∙◌, Bool, true, false, ◌&&◌, ◌||◌, Option, none, some,
  some-injective, nat_beq_iff, ◌∷◌, nat_eq, string_eq, ◌==◌, Result, ok, err, if◌then◌else◌, Error,
  rule_violation, >>=-eq-ok, Bool-cases, Option-cases, arith, ok-injective,
}
use elcorazon_backend.Base.Rows.{
  row_at, set_row, find_row, find_row-eq-some, row_at-set_row, row_at-set_row_other,
}
use elcorazon_backend.StateMachine.{can}
use elcorazon_backend.Payments.States.{PaymentStatus, status_eq, completed, failed, payment_machine}
use elcorazon_backend.Payments.Rows.{
  PaymentProvider, provider_eq, Transaction, Anomaly, no_transaction, refused_transition,
  amount_differs, WebhookEvent, Desk, Notification,
}
use elcorazon_backend.Payments.Webhook.{
  move, close, settle_order, apply_status, apply, handle_webhook, outcome, differs, with_reason,
  is_about, new_event, is_event, raised, replayed, only_colons,
}
use elcorazon_backend.Payments.Kept.{
  KeepsRows, settle_order-KeepsRows, Moves, move-rows, apart, own,
}

module _ (receivers : ℕ → PaymentStatus → Result (Unit {0})) where
  -- An application that ends well has closed the last event, changed no other, and moved one
  -- transaction.
  apply_status-rows :
      (n : ℕ) (t : Transaction) (note : Notification) (db d : Desk)
      → apply_status receivers n t note db ≡ ok d
      → (d.events ≡ (close none db).events)
        × (d.transactions
            ≡ set_row n (record (with_reason note t) { status = note.status }) db.transactions)
  unfolding apply_status close
  apply_status-rows n t note db d h =
      let (db1, moved, h1) = >>=-eq-ok (move n (with_reason note t) note.status db) _ h in
      let (db2, settled, h2) =
        >>=-eq-ok (if note.status == completed then settle_order n t db1 else ok db1) _ h1 in
      let (u, heard, h3) =
        >>=-eq-ok
          (if note.status == completed || note.status == failed
            then receivers n note.status
            else ok tt)
          _ h2 in
      let (events1, rows1) = move-rows n (with_reason note t) note.status db db1 moved in
      let (events2, rows2) =
        middle (note.status == completed) (settle_order n t db1) db1 db2
          (settle_order-KeepsRows db1 n t) settled in
      rw (← ok-injective h3, events2, events1, rows2, rows1) (refl, refl)
    where
      middle :
          (b : Bool) (r : Result Desk) (db1 db2 : Desk)
          → KeepsRows db1 r
          → (if b then r else ok db1) ≡ ok db2
          → (db2.events ≡ db1.events) × (db2.transactions ≡ db1.transactions)
      middle true r db1 db2 k h = k.at db2 h
      middle false r db1 db2 k h = rw (← ok-injective h) (refl, refl)

  -- The four ways in which an application ends well.
  pub apply-cases :
      (provider : PaymentProvider) (note : Notification) (db d : Desk)
      → apply receivers provider note db ≡ ok d
      → ((problem : Option Anomaly) × (d ≡ close problem db))
        ⊎ ((n : ℕ) × (t : Transaction) × (find_row
                (is_about provider note.provider_reference)
                db.transactions
              ≡ some (n, t))
            × (can payment_machine t.status note.status ≡ ok true)
            × ((note.status == completed && differs note.amount t.amount) ≡ false)
            × (apply_status receivers n t note db ≡ ok d))
  unfolding apply
  apply-cases provider note db d h =
      elim (Option-cases (find_row (is_about provider note.provider_reference) db.transactions)) [
        | inl missing ↦ inl (some no_transaction, ground arith)
        | inr ((n, t), found) ↦ ends n t found (ground arith)
      ]
    where
      ends :
          (n : ℕ) (t : Transaction)
          → find_row (is_about provider note.provider_reference) db.transactions ≡ some (n, t)
          → (d ≡ close none db)
            ⊎ (d ≡ close (some refused_transition) db)
            ⊎ (d ≡ close (some amount_differs) db)
            ⊎ ((can payment_machine t.status note.status ≡ ok true)
                × ((note.status == completed && differs note.amount t.amount) ≡ false)
                × (apply_status receivers n t note db ≡ ok d))
          → ((problem : Option Anomaly) × (d ≡ close problem db))
            ⊎ ((n : ℕ) × (t : Transaction) × (find_row
                    (is_about provider note.provider_reference)
                    db.transactions
                  ≡ some (n, t))
                × (can payment_machine t.status note.status ≡ ok true)
                × ((note.status == completed && differs note.amount t.amount) ≡ false)
                × (apply_status receivers n t note db ≡ ok d))
      ends n t found (inl shut) = inl (none, shut)
      ends n t found (inr (inl shut)) = inl (some refused_transition, shut)
      ends n t found (inr (inr (inl shut))) = inl (some amount_differs, shut)
      ends n t found (inr (inr (inr (legal, honest, done)))) =
          inr (n, t, found, legal, honest, done)

  apply-events :
      (provider : PaymentProvider) (note : Notification) (db d : Desk)
      → apply receivers provider note db ≡ ok d
      → (problem : Option Anomaly) × (d.events ≡ (close problem db).events)
  apply-events provider note db d h = elim (apply-cases provider note db d h) [
    | inl (problem, shut) ↦ (problem, rw shut refl)
    | inr (n, t, found, legal, honest, done) ↦ (none, (apply_status-rows n t note db d done).0)
  ]

  handle_webhook-blank :
      (provider : PaymentProvider) (note : Notification) (db : Desk)
      → only_colons note.event_id ≡ true
      → handle_webhook receivers provider note db ≡ (db, raised rule_violation)
  unfolding handle_webhook
  handle_webhook-blank provider note db bad = rw bad refl

  handle_webhook-known :
      (provider : PaymentProvider) (note : Notification) (db : Desk) (found : ℕ × WebhookEvent)
      → only_colons note.event_id ≡ false
      → find_row (is_event provider note.event_id) db.events ≡ some found
      → handle_webhook receivers provider note db ≡ (db, replayed)
  unfolding handle_webhook
  handle_webhook-known provider note db e named found = rw (named, found) refl

  pub handle_webhook-fresh :
      (provider : PaymentProvider) (note : Notification) (db : Desk)
      → only_colons note.event_id ≡ false
      → find_row (is_event provider note.event_id) db.events ≡ none
      → handle_webhook receivers provider note db
        ≡ outcome
            (record db { events = new_event provider note ∷ db.events })
            (apply receivers provider note
              (record db { events = new_event provider note ∷ db.events }))
  unfolding handle_webhook
  handle_webhook-fresh provider note db named fresh = rw (named, fresh) refl

  -- Whether its application raised or not, the event of a call is found again.
  recorded-found :
      (provider : PaymentProvider) (note : Notification) (db : Desk) (r : Result Desk)
      → apply receivers provider note (record db { events = new_event provider note ∷ db.events })
        ≡ r
      → (e : ℕ × WebhookEvent) × (find_row
            (is_event provider note.event_id)
            (outcome (record db { events = new_event provider note ∷ db.events }) r).0.events
          ≡ some e)
  unfolding close
  recorded-found provider note db (err x) h =
      ((0, new_event provider note), rw (own provider note) refl)
  recorded-found provider note db (ok d) h =
      let (problem, same_events) = apply-events provider note _ d h in
      (
        (0, record (new_event provider note) { processing_error = problem; is_processed = true }),
        rw same_events (rw (own provider note) refl),
      )

  -- A notification whose identifier is not made of colons alone is recorded, whether its application
  -- raised or not: sent again, it is answered as a replay and changes nothing.
  pub handle_webhook_twice :
      (provider : PaymentProvider) (note : Notification) (db : Desk)
      → only_colons note.event_id ≡ false
      → let db' = (handle_webhook receivers provider note db).0 in
        handle_webhook receivers provider note db' ≡ (db', replayed)
  handle_webhook_twice provider note db named =
      elim (Option-cases (find_row (is_event provider note.event_id) db.events)) [
        | inl fresh ↦
            let (e, found) = recorded-found provider note db _ refl in
            rw (handle_webhook-fresh provider note db named fresh)
              (handle_webhook-known provider note _ e named found)
        | inr (e, found) ↦
            rw (handle_webhook-known provider note db e named found)
              (handle_webhook-known provider note db e named found)
      ]

  apply-Moves :
      (provider : PaymentProvider) (note : Notification) (db d : Desk) (k : ℕ) (t : Transaction)
      → apply receivers provider note db ≡ ok d
      → row_at k db.transactions ≡ some t
      → (t' : Transaction) × (row_at k d.transactions ≡ some t') × Moves note t t'
  unfolding close
  apply-Moves provider note db d k t h found = elim (apply-cases provider note db d h) [
    | inl (problem, shut) ↦ (t, rw shut found, inl refl)
    | inr (n, t1, at, legal, honest, done) ↦
        let (events, rows) = apply_status-rows n t1 note db d done in
        let (here, about) =
          find_row-eq-some (is_about provider note.provider_reference) db.transactions n t1 at in
        elim (Bool-cases (k == n)) [
          | inl here_it ↦
              let eq = (nat_beq_iff k n).0 here_it in
              let t_is : t1 ≡ t =
                some-injective t1 t
                  (sym here ∙ ap (λ i. row_at i db.transactions) (sym eq) ∙ found) in
              (
                record (with_reason note t) { status = note.status },
                rw (rows, eq, t_is) (row_at-set_row n t1 _ db.transactions here),
                inr (refl, rw (← t_is) legal, rw (← t_is) honest),
              )
          | inr other ↦ (
            t,
            rw rows (row_at-set_row_other k n _ db.transactions (apart k n other) ∙ found),
            inl refl,
          )
        ]
  ]

  -- A notification moves a transaction, if at all, to the status that it announces, by a transition of
  -- the table; it leaves the amount; and it completes it only for the very amount of the
  -- transaction, when it names an amount.
  pub handle_webhook-safe :
      (provider : PaymentProvider) (note : Notification) (db : Desk) (k : ℕ) (t : Transaction)
      → row_at k db.transactions ≡ some t
      → (t' : Transaction) × (row_at k (handle_webhook receivers provider note db).0.transactions
          ≡ some t')
        × Moves note t t'
  handle_webhook-safe provider note db k t found = elim (Bool-cases (only_colons note.event_id)) [
    | inl bad ↦ (t, rw (handle_webhook-blank provider note db bad) found, inl refl)
    | inr named ↦ elim (Option-cases (find_row (is_event provider note.event_id) db.events)) [
      | inl fresh ↦
          let (t', after, moves) = go (apply receivers provider note recorded) refl in
          (t', rw (handle_webhook-fresh provider note db named fresh) after, moves)
      | inr (e, there) ↦
          (t, rw (handle_webhook-known provider note db e named there) found, inl refl)
    ]
  ]
    where
      recorded : Desk
      recorded = record db { events = new_event provider note ∷ db.events }

      go :
          (r : Result Desk)
          → apply receivers provider note recorded ≡ r
          → (t' : Transaction) × (row_at k (outcome recorded r).0.transactions ≡ some t')
            × Moves note t t'
      go (ok d) h = apply-Moves provider note recorded d k t h found
      go (err x) h = (t, found, inl refl)

-- A new notification whose application raises is lost: no transaction and no order has changed, and
-- when it is sent again, whatever the receivers of the signals do then, it is answered as a replay
-- and changes nothing.
pub handle_webhook-lost :
    (receivers later : ℕ → PaymentStatus → Result (Unit {0})) (provider : PaymentProvider)
    (note : Notification) (db : Desk) (x : Error)
    → only_colons note.event_id ≡ false
    → find_row (is_event provider note.event_id) db.events ≡ none
    → apply receivers provider note (record db { events = new_event provider note ∷ db.events })
      ≡ err x
    → let db' = (handle_webhook receivers provider note db).0 in
      (db'.transactions ≡ db.transactions)
      × (db'.orders ≡ db.orders)
      × (handle_webhook later provider note db' ≡ (db', replayed))
handle_webhook-lost receivers later provider note db x named fresh raises =
    let (e, found) = recorded-found receivers provider note db (err x) raises in
    rw (handle_webhook-fresh receivers provider note db named fresh, raises)
      (refl, refl, handle_webhook-known later provider note _ e named found)
