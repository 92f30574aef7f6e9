-- ===== src/Payments/Backing.antt =====
-- Which shares the payment of a transaction settles: apps/payments/split.py.
use elcorazon_backend.Base.{
  ℕ, ◌≡◌, ◌⊎◌, refl, sym, ap, ◌∙◌, inl, inr, Bool, true, false, some, some-injective, nat_eq,
  nat_beq_iff, ◌==◌, contains, ok, ◌>>=◌, >>=-eq-ok, ok-injective, Option-cases, Bool-cases,
  if◌then◌else◌, arith,
}
use elcorazon_backend.Base.Rows.{
  row_at, set_row, find_row, find_row-eq-some, row_at-set_row, row_at-set_row_other,
}
use elcorazon_backend.StateMachine.{can}
use elcorazon_backend.Payments.States.{
  PaymentStatus, status_eq, processing, completed, payment_machine,
}
use elcorazon_backend.Payments.Rows.{SplitShare, Desk}
use elcorazon_backend.Payments.Webhook.{is_share_of, close_if_complete, on_transaction_settled}
use elcorazon_backend.Payments.Kept.{apart}

close_if-shares : (o : ℕ) (db d : Desk) → close_if_complete o db ≡ ok d → d.shares ≡ db.shares
unfolding close_if_complete
close_if-shares o db d h = ground arith

can-completed : (s : PaymentStatus) → can payment_machine s completed ≡ ok true → s ≡ processing
unfolding can contains
can-completed processing h = refl
can-completed _ h = ground arith

is_share_of-eq : (n : ℕ) (s : SplitShare) → is_share_of n s ≡ true → s.transaction ≡ some n
is_share_of-eq n s h = elim (Option-cases s.transaction) [
  | inl unlinked ↦ ground arith
  | inr (m, linked) ↦ linked ∙ ap some ((nat_beq_iff m n).0 (rw linked at h))
]

-- The payment of a transaction settles at most shares that are linked to that transaction and were
-- being paid, and changes nothing else of any share.
pub on_transaction_settled-backed :
    (n k : ℕ) (db d : Desk) (s : SplitShare)
    → on_transaction_settled n db ≡ ok d
    → row_at k db.shares ≡ some s
    → (row_at k d.shares ≡ some s)
      ⊎ ((s.transaction ≡ some n)
          × (s.status ≡ processing)
          × (row_at k d.shares ≡ some (record s { status = completed })))
unfolding on_transaction_settled
on_transaction_settled-backed n k db d s h there =
    elim (Option-cases (find_row (is_share_of n) db.shares)) [
      | inl missing ↦ inl (ground arith)
      | inr ((j, share), found) ↦ settles j share found (rw (on_transaction_settled, found) at h)
    ]
  where
    settles :
        (j : ℕ) (share : SplitShare)
        → find_row (is_share_of n) db.shares ≡ some (j, share)
        → (do
          settles ← can payment_machine share.status completed
          (if settles
              then close_if_complete share.split
                  (record db { shares = set_row j (record share { status = completed }) db.shares })
              else ok db))
          ≡ ok d
        → (row_at k d.shares ≡ some s)
          ⊎ ((s.transaction ≡ some n)
              × (s.status ≡ processing)
              × (row_at k d.shares ≡ some (record s { status = completed })))
    settles j share found h =
        let (at, linked) = find_row-eq-some (is_share_of n) db.shares j share found in
        let (legal, asked, h1) = >>=-eq-ok (can payment_machine share.status completed) _ h in
        by legal j share at linked asked h1
      where
        by :
            (legal : Bool) (j : ℕ) (share : SplitShare)
            → row_at j db.shares ≡ some share
            → is_share_of n share ≡ true
            → can payment_machine share.status completed ≡ ok legal
            → (if legal
                then close_if_complete share.split (record db {
                  shares = set_row j (record share { status = completed }) db.shares;
                })
                else ok db)
              ≡ ok d
            → (row_at k d.shares ≡ some s)
              ⊎ ((s.transaction ≡ some n)
                  × (s.status ≡ processing)
                  × (row_at k d.shares ≡ some (record s { status = completed })))
        by false j share at linked asked h = inl (rw (← ok-injective h) there)
        by true j share at linked asked h =
            let rows = close_if-shares share.split _ d h in
            elim (Bool-cases (k == j)) [
              | inl here ↦
                  let eq = (nat_beq_iff k j).0 here in
                  let is : share ≡ s =
                    some-injective share s
                      (sym at ∙ ap (λ i. row_at i db.shares) (sym eq) ∙ there) in
                  inr (
                    rw (← is) (is_share_of-eq n share linked),
                    rw (← is) (can-completed share.status asked),
                    rw (rows, eq, ← is) (row_at-set_row j share _ db.shares at),
                  )
              | inr other ↦
                  inl (rw rows (row_at-set_row_other k j _ db.shares (apart k j other) ∙ there))
            ]
