-- ===== src/Delivery/Files.antt =====
-- `CourierService` of apps/delivery/services.py: the file of a courier, its review, the declaration
-- of being online, the zones, and the couriers for an order. Accounts, signals and the audit trail
-- are left out; the couriers that a query lists are given, since the map of rows is a function.
use elcorazon_backend.Base.{
  ℕ, String, Bool, false, not, ◌&&◌, ◌||◌, Option, none, some, List, [], ◌∷◌, map, nat_eq,
  string_eq, ◌==◌, ltb, contains, is_blank, strip, update, if◌then◌else◌, Result, ok, ◌>>=◌, ◌>>◌,
  raise_if, or_raise, rule_violation, motive_required, does_not_exist,
}
use elcorazon_backend.Base.Rows.{exists}
use elcorazon_backend.StateMachine.{is_noop, validate}
use elcorazon_backend.Delivery.States.{
  VerificationStatus, awaiting, approved, rejected, suspended, verification_eq,
  verification_machine,
}
use elcorazon_backend.Delivery.Rows.{CourierProfile, Assignment, Order, Fleet, is_empty, engaged_by}

-- The keys of `PIECES_DATEES`.
pub data Piece : Type 0 where
  id_document licence_document vehicle_document : Piece

abbrev pub save_courier : ℕ → CourierProfile → Fleet → Fleet
save_courier n k db = record db { couriers = update db.couriers n (some k) }

-- `setattr(courier, champ, valeur)`, of the values of `PIECES_DATEES`; another field is skipped.
unfoldable pub put_expiration : CourierProfile → String × ℕ → CourierProfile
put_expiration k (champ, day) =
    if champ == "id_document_expires_on"
    then record k { id_document_expires_on = some day }
    else if champ == "licence_document_expires_on"
    then record k { licence_document_expires_on = some day }
    else if champ == "vehicle_document_expires_on"
    then record k { vehicle_document_expires_on = some day }
    else k

-- `_poser_expirations`
unfoldable pub put_expirations : CourierProfile → List (String × ℕ) → CourierProfile
put_expirations k [] = k
put_expirations k (e ∷ rest) = put_expirations (put_expiration k e) rest

unfoldable pub is_expired : ℕ → Option ℕ → Bool
is_expired today none = false
is_expired today (some day) = ltb day today

-- The test of `_refuser_si_expire`, over the three pieces.
unfoldable pub any_expired : ℕ → CourierProfile → Bool
any_expired today k =
    is_expired today k.id_document_expires_on
    || is_expired today k.licence_document_expires_on
    || is_expired today k.vehicle_document_expires_on

-- `DECISIONS_MOTIVEES`
abbrev pub motivated_decisions : List VerificationStatus
motivated_decisions = rejected ∷ suspended ∷ []

unfoldable pub reviewed : CourierProfile → VerificationStatus → ℕ → String → CourierProfile
reviewed k target actor notes = record k {
  verification_status = target;
  verification_notes = strip notes;
  verified_by = some actor;
  is_online = if target == approved then k.is_online else false;
}

-- `review`, of the courier number `n`, on the day `today`.
unfoldable pub review :
    ℕ → VerificationStatus → ℕ → String → List (String × ℕ) → ℕ → Fleet → Result Fleet
review n target actor notes expirations today db = do
  locked ← or_raise (db.couriers n) does_not_exist
  raise_if (target == approved && any_expired today (put_expirations locked expirations))
      rule_violation
  same ← is_noop verification_machine locked.verification_status target
  (if same then ok (save_courier n (put_expirations locked expirations) db) else (do
    validate verification_machine locked.verification_status target
    raise_if (contains target motivated_decisions && is_blank notes) motive_required
    ok (save_courier n (reviewed (put_expirations locked expirations) target actor notes) db)))

-- `set_online`
unfoldable pub set_online : ℕ → Bool → Fleet → Result Fleet
set_online n is_online db = do
  courier ← or_raise (db.couriers n) does_not_exist
  ok (save_courier n (record courier { is_online = is_online }) db)

-- `DeliveryZone`: its key, its city, and its kitchen if it belongs to one.
pub record DeliveryZone : Type 0 where
  pub key : ℕ
  pub city : ℕ
  pub restaurant : Option ℕ

-- A zone that a kitchen of the city `ville` delivers to.
unfoldable pub is_served : ℕ → ℕ → DeliveryZone → Bool
is_served cuisine ville zone = own zone.restaurant
  where
    own : Option ℕ → Bool
    own none = zone.city == ville
    own (some r) = r == cuisine

-- `set_service_zones`; `ville` is the city of the kitchen.
unfoldable pub set_service_zones : ℕ → ℕ → List DeliveryZone → Fleet → Result Fleet
set_service_zones n ville zones db = do
  courier ← or_raise (db.couriers n) does_not_exist
  raise_if (exists (λ zone. not (is_served courier.restaurant ville zone)) zones) rule_violation
  ok (save_courier n (record courier { service_zones = map (λ zone. zone.key) zones }) db)

-- A new piece, without the date of the old one.
unfoldable pub replace_piece : CourierProfile → Piece × String → CourierProfile
replace_piece k (id_document, file) = record k {
  id_document = some file;
  id_document_expires_on = none;
}
replace_piece k (licence_document, file) = record k {
  licence_document = some file;
  licence_document_expires_on = none;
}
replace_piece k (vehicle_document, file) = record k {
  vehicle_document = some file;
  vehicle_document_expires_on = none;
}

unfoldable pub replace_pieces : CourierProfile → List (Piece × String) → CourierProfile
replace_pieces k [] = k
replace_pieces k (d ∷ rest) = replace_pieces (replace_piece k d) rest

-- `ROUVRE_L_INSTRUCTION`
abbrev pub reopening : List VerificationStatus
reopening = approved ∷ rejected ∷ []

-- The columns of a review that begins again, when the file is thought to have this status.
unfoldable pub reopened : VerificationStatus → CourierProfile → CourierProfile
reopened status k =
    if contains status reopening
    then record k { verification_status = awaiting; is_online = false; verification_notes = "" }
    else k

-- `replace_documents`; `copy` is the caller's copy of the courier number `n`, whose status decides,
-- and the row keeps the columns that are not touched.
unfoldable pub replace_documents : ℕ → CourierProfile → List (Piece × String) → Fleet → Result Fleet
replace_documents n copy documents db = do
  courier ← or_raise (db.couriers n) does_not_exist
  ok (save_courier n (reopened copy.verification_status (replace_pieces courier documents)) db)

-- `perimetre`, the query of `available_for` on the zones.
unfoldable pub in_perimeter : CourierProfile → Option ℕ → Bool
in_perimeter k none = is_empty k.service_zones
in_perimeter k (some z) = is_empty k.service_zones || contains z k.service_zones

-- The filter of `available_for`.
unfoldable pub is_available : Order → ℕ → CourierProfile → List Assignment → Bool
is_available order c k rows =
    k.restaurant == order.restaurant
    && (k.is_online && k.verification_status == approved && k.user_is_active)
    && in_perimeter k order.delivery_zone
    && not (exists (engaged_by c) rows)
