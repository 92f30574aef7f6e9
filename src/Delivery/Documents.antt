-- ===== src/Delivery/Documents.antt =====
-- Histories of the calls of `CourierService` of apps/delivery/services.py on the files of couriers.
use elcorazon_backend.Base.{
  ℕ, ◌≡◌, refl, sym, ap, ◌∙◌, inl, inr, String, Bool, true, false, not, ◌&&◌, some, some-injective,
  List, [], ◌∷◌, nat_eq, ◌==◌, eq_self, eq_of_beq, contains, map, All, Result, ok, err, or_raise,
  value_or, rule_violation, does_not_exist, >>=-eq-ok, or_raise-eq-ok, guard-eq-ok, ok-injective,
  Bool-cases, arith,
}
use elcorazon_backend.Base.Rows.{exists}
use elcorazon_backend.Orders.States.{status_eq as order_status_eq}
use elcorazon_backend.Delivery.States.{VerificationStatus, awaiting, approved, verification_eq}
use elcorazon_backend.Delivery.Rows.{CourierProfile, Fleet, can_accept_orders}
use elcorazon_backend.Delivery.Files.{
  Piece, id_document, licence_document, vehicle_document, replace_piece, reopening, save_courier,
  put_expirations, reviewed, review, set_online, DeliveryZone, is_served, set_service_zones,
  replace_pieces, reopened, replace_documents,
}
use elcorazon_backend.Delivery.Eligibility.{put_expirations-status, review-inv}

pub data FileCall : Type 0 where
  reviews : ℕ → VerificationStatus → ℕ → String → List (String × ℕ) → ℕ → FileCall
  replaces : ℕ → CourierProfile → List (Piece × String) → FileCall
  declares : ℕ → Bool → FileCall
  zones : ℕ → ℕ → List DeliveryZone → FileCall

unfoldable pub perform : FileCall → Fleet → Result Fleet
perform (reviews n target actor notes expirations today) db =
    review n target actor notes expirations today db
perform (replaces n copy documents) db = replace_documents n copy documents db
perform (declares n is_online) db = set_online n is_online db
perform (zones n ville served) db = set_service_zones n ville served db

unfoldable pub run : List FileCall → Fleet → Fleet
run [] db = db
run (call ∷ calls) db = run calls (value_or db (perform call db))

-- The call would approve the file of the courier `c`.
unfoldable pub approves : ℕ → FileCall → Bool
approves c (reviews n target actor notes expirations today) = n == c && target == approved
approves c _ = false

-- The courier `c` is there and not approved.
abbrev pub Unapproved : ℕ → Fleet → Type 0
Unapproved c db =
    (k : CourierProfile) × (db.couriers c ≡ some k) × ((k.verification_status == approved) ≡ false)

-- A file that is saved, of this courier or of another one.
save_courier-Unapproved :
    (c n : ℕ) (k k' : CourierProfile) (db : Fleet)
    → Unapproved c db
    → db.couriers n ≡ some k
    → ((n == c) ≡ true
        → (k.verification_status == approved) ≡ false
        → (k'.verification_status == approved) ≡ false)
    → Unapproved c (save_courier n k' db)
save_courier-Unapproved c n k k' db (x, found, blocked) there keeps = elim (Bool-cases (c == n)) [
  | inl same ↦
      let here : c ≡ n = eq_of_beq c n same in
      let this : k ≡ x = some-injective k x (sym there ∙ ap db.couriers (sym here) ∙ found) in
      (k', rw same refl, keeps (rw here (eq_self n)) (rw this blocked))
  | inr other ↦ (x, rw other found, blocked)
]

-- New pieces leave the status of the file, and whether its courier can take orders.
replace_pieces-status :
    (k : CourierProfile) (documents : List (Piece × String))
    → ((replace_pieces k documents).verification_status ≡ k.verification_status)
      × (can_accept_orders (replace_pieces k documents) ≡ can_accept_orders k)
unfolding replace_pieces replace_piece can_accept_orders
replace_pieces-status k [] = (refl, refl)
replace_pieces-status k ((id_document, file) ∷ rest) =
    replace_pieces-status (replace_piece k (id_document, file)) rest
replace_pieces-status k ((licence_document, file) ∷ rest) =
    replace_pieces-status (replace_piece k (licence_document, file)) rest
replace_pieces-status k ((vehicle_document, file) ∷ rest) =
    replace_pieces-status (replace_piece k (vehicle_document, file)) rest

reopened-status :
    (status : VerificationStatus) (k : CourierProfile)
    → k.verification_status ≡ status
    → ((reopened status k).verification_status == approved) ≡ false
unfolding reopened contains
reopened-status status k same = rw (← same) (ground arith)

reopened-kept :
    (status : VerificationStatus) (k : CourierProfile)
    → (k.verification_status == approved) ≡ false
    → ((reopened status k).verification_status == approved) ≡ false
unfolding reopened
reopened-kept status k blocked = elim (Bool-cases (contains status reopening)) [
  | inl again ↦ rw again refl
  | inr stays ↦ rw stays blocked
]

perform-Unapproved :
    (c : ℕ) (call : FileCall) (db db' : Fleet)
    → approves c call ≡ false
    → Unapproved c db
    → perform call db ≡ ok db'
    → Unapproved c db'
unfolding perform approves replace_documents set_online set_service_zones reviewed
perform-Unapproved c (reviews n target actor notes expirations today) db db' other blocked h =
    let (k, found, current, how) = review-inv n target actor notes expirations today db db' h in
    elim how [
      | inl (same, shape) ↦ rw shape (
          save_courier-Unapproved c n k (put_expirations k expirations) db blocked found
            (λ mine kept. rw (put_expirations-status k expirations) kept))
      | inr (said, shape) ↦ rw shape (
          save_courier-Unapproved c n k
            (reviewed (put_expirations k expirations) target actor notes) db blocked found
            (λ mine kept. rw mine at other))
    ]
perform-Unapproved c (replaces n copy documents) db db' other blocked h =
    let (k, asked, h1) = >>=-eq-ok (or_raise (db.couriers n) does_not_exist) _ h in
    rw (sym (ok-injective h1)) (
      save_courier-Unapproved c n k (reopened copy.verification_status (replace_pieces k documents))
        db blocked (or_raise-eq-ok _ _ asked)
        (λ mine kept.
          reopened-kept copy.verification_status (replace_pieces k documents)
            (rw (replace_pieces-status k documents).0 kept)))
perform-Unapproved c (declares n is_online) db db' other blocked h =
    let (k, asked, h1) = >>=-eq-ok (or_raise (db.couriers n) does_not_exist) _ h in
    rw (sym (ok-injective h1)) (
      save_courier-Unapproved c n k (record k { is_online = is_online }) db blocked
        (or_raise-eq-ok _ _ asked) (λ mine kept. kept))
perform-Unapproved c (zones n ville served) db db' other blocked h =
    let (k, asked, h1) = >>=-eq-ok (or_raise (db.couriers n) does_not_exist) _ h in
    let (near, h2) =
      guard-eq-ok (exists (λ zone. not (is_served k.restaurant ville zone)) served) rule_violation _
        h1 in
    rw (sym (ok-injective h2)) (
      save_courier-Unapproved c n k (record k { service_zones = map (λ zone. zone.key) served }) db
        blocked (or_raise-eq-ok _ _ asked) (λ mine kept. kept))

run-Unapproved :
    (c : ℕ) (calls : List FileCall) (db : Fleet)
    → All (λ call. approves c call ≡ false) calls
    → Unapproved c db
    → Unapproved c (run calls db)
unfolding run
run-Unapproved c [] db others blocked = blocked
run-Unapproved c (call ∷ calls) db (other, others) blocked =
    run-Unapproved c calls (value_or db (perform call db)) others (step (perform call db) refl)
  where
    step : (r : Result Fleet) → perform call db ≡ r → Unapproved c (value_or db r)
    step (ok d) h = perform-Unapproved c call db d other blocked h
    step (err e) h = blocked

-- After a courier has replaced pieces of the file, with a copy of it at the status that it has, no
-- calls on the files, failing or not and with whatever copies, make this courier eligible again, as
-- long as none of them is a review that approves this very file.
pub replace_documents-blocks :
    (c : ℕ) (copy before : CourierProfile) (documents : List (Piece × String)) (db db' : Fleet)
    (calls : List FileCall)
    → db.couriers c ≡ some before
    → before.verification_status ≡ copy.verification_status
    → replace_documents c copy documents db ≡ ok db'
    → All (λ call. approves c call ≡ false) calls
    → (k : CourierProfile) × ((run calls db').couriers c ≡ some k) × (can_accept_orders k ≡ false)
unfolding replace_documents can_accept_orders
replace_documents-blocks c copy before documents db db' calls there current h others =
    let (k, asked, h1) = >>=-eq-ok (or_raise (db.couriers c) does_not_exist) _ h in
    let this : before ≡ k = some-injective before k (sym there ∙ or_raise-eq-ok _ _ asked) in
    let same : k.verification_status ≡ copy.verification_status =
      ap (λ (x : CourierProfile). x.verification_status) (sym this) ∙ current in
    let (x, found, blocked) =
      run-Unapproved c calls db' others (start k same (sym (ok-injective h1))) in
    (x, found, rw blocked (and_false x.is_online x.user_is_active))
  where
    and_false : (a b : Bool) → (a && false && b) ≡ false
    and_false true b = refl
    and_false false b = refl

    start :
        (k : CourierProfile)
        → k.verification_status ≡ copy.verification_status
        → db' ≡ save_courier c (reopened copy.verification_status (replace_pieces k documents)) db
        → Unapproved c db'
    start k same shape = rw shape (
      reopened copy.verification_status (replace_pieces k documents),
      rw (eq_self c) refl,
      reopened-status copy.verification_status (replace_pieces k documents)
          ((replace_pieces-status k documents).0 ∙ same),
    )

-- With a copy of the file from when it waited for its review, pieces that are replaced since it was
-- approved are in the file, and the courier who could take orders still can.
pub replace_documents-stale :
    (c : ℕ) (copy now : CourierProfile) (documents : List (Piece × String)) (db : Fleet)
    → copy.verification_status ≡ awaiting
    → db.couriers c ≡ some now
    → can_accept_orders now ≡ true
    → (db' : Fleet) × (replace_documents c copy documents db ≡ ok db')
      × (db'.couriers c ≡ some (replace_pieces now documents))
      × (can_accept_orders (replace_pieces now documents) ≡ true)
unfolding replace_documents reopened contains
replace_documents-stale c copy now documents db stale there able = (
  save_courier c (replace_pieces now documents) db,
  rw (there, stale) refl,
  rw (eq_self c) refl,
  (replace_pieces-status now documents).1 ∙ able,
)
