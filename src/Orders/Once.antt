-- ===== src/Orders/Once.antt =====
-- The handler `create` of apps/orders/views.py, called again under the same key.
use elcorazon_backend.Base.{◌≡◌, ◌⊎◌, Result, ok, err, Error, request_in_flight}
use elcorazon_backend.Orders.Idempotency.{StoredResponse, Checkout}

abbrev pub Response : Type 0 → Type 0
Response S = Result StoredResponse × Checkout S

module _ {S : Type 0} where
  -- What has been answered, and what is left, when a call was made on `st` and is made again: it has
  -- raised and left the tables; or it has answered, and does so again and leaves all as it is; or it
  -- has raised, and is refused and leaves all as it is.
  abbrev pub Once : Checkout S → Response S → (Checkout S → Response S) → Type 0
  Once st first again =
      ((e : Error) × (first.0 ≡ err e) × (first.1.store ≡ st.store))
      ⊎ ((stored : StoredResponse) × (first.0 ≡ ok stored) × (again first.1 ≡ (ok stored, first.1)))
      ⊎ ((e : Error) × (first.0 ≡ err e) × (again first.1 ≡ (err request_in_flight, first.1)))
