-- ===== src/Payments/CashRows.antt =====
-- The row of the cash of an order, found or written, and its two moves: apps/payments/cash.py.
use elcorazon_backend.Base.{
  ℕ, ◌≡◌, refl, sym, ap, ◌∙◌, inl, inr, true, false, Option, some, nat_eq, ◌==◌, eq_self, update,
  Result, ok, >>=-eq-ok, guard-eq-ok, or_raise-eq-ok, ok-injective, or_raise, Bool-cases,
  Option-cases, does_not_exist, integrity_error, arith,
}
use elcorazon_backend.Base.Rows.{row_at, set_row}
use elcorazon_backend.Money.{Money, currency_eq, same}
use elcorazon_backend.StateMachine.{validate}
use elcorazon_backend.Payments.States.{
  PaymentStatus, status_eq, completed, pending, processing, payment_machine,
}
use elcorazon_backend.Payments.Rows.{PaymentProvider, cash, Order, Transaction, Desk}
use elcorazon_backend.Payments.Totals.{is_order, total_of, settled_total, report_settled_total}
use elcorazon_backend.Payments.Webhook.{move}
use elcorazon_backend.Payments.Initiate.{find_last, request_row}
use elcorazon_backend.Payments.Split.{CheckoutInstruction, is_taken}
use elcorazon_backend.Payments.Cash.{
  is_cash_request, CashRow, new_cash_row, find_cash_row, report_cash, settle_cash,
}
use elcorazon_backend.Payments.Reuse.{total_of-append}
use elcorazon_backend.Payments.Paid.{find_last-eq-some, set_row-set_row, row_at-append, same-eq}

-- The row of the cash: open, of the order, for what is left; finding it has settled nothing.
pub record IsOwed (o : ℕ) (rest : Money) (db : Desk) (row : CashRow) : Type 0 where
  pub at : row_at row.number row.desk.transactions ≡ some row.transaction
  pub own : is_order row.transaction.order o ≡ true
  pub owed : (row.transaction.status == completed) ≡ false
  pub amount : row.transaction.amount ≡ rest
  pub orders : row.desk.orders ≡ db.orders
  pub total : (m : Money) → total_of o m row.desk.transactions ≡ total_of o m db.transactions

module _ (open_checkout : PaymentProvider → Money → Result CheckoutInstruction)
    (receivers : ℕ → PaymentStatus → Result (Unit {0})) where
  new_cash_row-IsOwed :
      (o : ℕ) (rest : Money) (db : Desk) (row : CashRow)
      → new_cash_row open_checkout receivers o rest db ≡ ok row
      → IsOwed o rest db row
  unfolding new_cash_row
  new_cash_row-IsOwed o rest db row h =
      let (instruction, asked, h1) = >>=-eq-ok (open_checkout cash rest) _ h in
      let (fresh, h2) =
        guard-eq-ok (is_taken instruction.provider_reference db.transactions) integrity_error _
          h1 in
      let t = record (request_row (some o) cash rest instruction) { checkout_url = "" } in
      rw (← ok-injective h2) (record {
        at = row_at-append db.transactions t;
        own = eq_self o;
        owed = refl;
        amount = refl;
        orders = refl;
        total = λ m. total_of-append o m db.transactions t (rw (eq_self o) refl);
      })

  pub find_cash_row-IsOwed :
      (o : ℕ) (rest : Money) (db : Desk) (row : CashRow)
      → find_cash_row open_checkout receivers o rest db ≡ ok row
      → IsOwed o rest db row
  unfolding find_cash_row
  find_cash_row-IsOwed o rest db row h =
      elim (Option-cases (find_last (is_cash_request o rest) db.transactions)) [
        | inl missing ↦ new_cash_row-IsOwed o rest db row (rw (find_cash_row, missing) at h)
        | inr ((n, t), found) ↦
            let (at, fits) = find_last-eq-some (is_cash_request o rest) db.transactions n t found in
            let (own, owed, equal) = request t fits in
            rw (← ok-injective (rw (find_cash_row, found) at h)) (record {
              at = at;
              own = own;
              owed = owed;
              amount = same-eq t.amount rest equal;
              orders = refl;
              total = λ m. refl;
            })
      ]
    where
      request :
          (t : Transaction)
          → is_cash_request o rest t ≡ true
          → (is_order t.order o ≡ true)
            × ((t.status == completed) ≡ false)
            × (same t.amount rest ≡ true)
      request t h = ground arith

move-eq-ok :
    (n : ℕ) (t : Transaction) (target : PaymentStatus) (db d : Desk)
    → move n t target db ≡ ok d
    → d ≡ record db { transactions = set_row n (record t { status = target }) db.transactions }
unfolding move
move-eq-ok n t target db d h =
    let (u, legal, rest) = >>=-eq-ok (validate payment_machine t.status target) _ h in
    sym (ok-injective rest)

report-eq-ok :
    (o : ℕ) (db d : Desk)
    → report_settled_total o db ≡ ok d
    → (order : Order) × (paid : Money) × (db.orders o ≡ some order)
      × (settled_total o order db.transactions ≡ ok paid)
      × (d ≡ record db {
        orders = update db.orders o (some (record order { amount_paid = some paid }));
      })
unfolding report_settled_total
report-eq-ok o db d h =
    let (order, found, h1) = >>=-eq-ok (or_raise (db.orders o) does_not_exist) _ h in
    let (paid, counted, h2) = >>=-eq-ok (settled_total o order db.transactions) _ h1 in
    (order, paid, or_raise-eq-ok _ _ found, counted, sym (ok-injective h2))

-- What the two moves of a row leave: the row completed, and the sum that is paid on its order.
pub record IsSettled (o : ℕ) (row : CashRow) (db : Desk) : Type 0 where
  pub order : Order
  pub paid : Money
  pub found : row.desk.orders o ≡ some order
  pub rows :
      db.transactions
      ≡ set_row row.number (record row.transaction { status = completed }) row.desk.transactions
  pub counted : settled_total o order db.transactions ≡ ok paid
  pub orders :
      db.orders ≡ update row.desk.orders o (some (record order { amount_paid = some paid }))

module _ (open_checkout : PaymentProvider → Money → Result CheckoutInstruction)
    (receivers : ℕ → PaymentStatus → Result (Unit {0})) where
  pub settle_cash-IsSettled :
      (o : ℕ) (row : CashRow) (db : Desk) (c : Option ℕ)
      → settle_cash open_checkout receivers o row ≡ ok (db, c)
      → IsSettled o row db
  unfolding settle_cash report_cash
  settle_cash-IsSettled o row db c h =
      let t = row.transaction in
      let n = row.number in
      let ts = row.desk.transactions in
      elim (Bool-cases (t.status == pending)) [
        | inl opens ↦
            let (db1, m1, h1) =
              >>=-eq-ok (move n t processing row.desk) _ (rw (settle_cash, opens) at h) in
            let (db2, m2, h2) =
              >>=-eq-ok (move n (record t { status = processing }) completed db1) _ h1 in
            let e1 = move-eq-ok n t processing row.desk db1 m1 in
            let e2 = move-eq-ok n (record t { status = processing }) completed db1 db2 m2 in
            ends db2
              (ap (λ (d : Desk). d.orders)
                (e2
                  ∙ ap
                      (λ (d : Desk). record d {
                        transactions = set_row n (record t { status = completed }) d.transactions;
                      })
                      e1))
              (ap (λ (d : Desk). d.transactions)
                  (e2
                    ∙ ap
                        (λ (d : Desk). record d {
                          transactions = set_row n (record t { status = completed }) d.transactions;
                        })
                        e1)
                ∙ set_row-set_row n (record t { status = processing })
                    (record t { status = completed }) ts)
              h2
        | inr moved ↦
            let (db2, m2, h2) =
              >>=-eq-ok (move n t completed row.desk) _ (rw (settle_cash, moved) at h) in
            let e2 = move-eq-ok n t completed row.desk db2 m2 in
            ends db2 (ap (λ (d : Desk). d.orders) e2) (ap (λ (d : Desk). d.transactions) e2) h2
      ]
    where
      ends :
          (db2 : Desk)
          → db2.orders ≡ row.desk.orders
          → db2.transactions
            ≡ set_row row.number
                (record row.transaction { status = completed })
                row.desk.transactions
          → report_cash open_checkout receivers o row.number db2 ≡ ok (db, c)
          → IsSettled o row db
      ends db2 os ts h =
          let (db3, reported, h1) = >>=-eq-ok (report_settled_total o db2) _ h in
          let (u, heard, h2) = >>=-eq-ok (receivers row.number completed) _ h1 in
          let is : db3 ≡ db = ap (λ (r : Desk × Option ℕ). r.0) (ok-injective h2) in
          let (order, paid, found, counted, shape) = report-eq-ok o db2 db3 reported in
          let whole = sym is ∙ shape in
          record {
            order = order;
            paid = paid;
            found = ap (λ (f : ℕ → Option Order). f o) (sym os) ∙ found;
            rows = ap (λ (d : Desk). d.transactions) whole ∙ ts;
            counted = rw whole counted;
            orders =
                ap (λ (d : Desk). d.orders) whole
                ∙ ap
                    (λ (f : ℕ → Option Order).
                      update f o (some (record order { amount_paid = some paid })))
                    os;
          }
