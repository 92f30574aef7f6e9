-- ===== src/Orders/Idempotency.antt =====
-- apps/orders/idempotency.py, and the handler `create` of apps/orders/views.py that uses it. A
-- rendered body is a text; what creates the order and what renders it are arguments.
use elcorazon_backend.Base.{
  ℕ, ◌≡◌, ◌↔◌, refl, ap, ◌∙◌, String, Bool, true, false, not, ◌&&◌, Option, none, some, List, [],
  ◌∷◌, ◌++◌, Eq, nat_eq, string_eq, ◌==◌, eq_self, eq_of_beq, if◌then◌else◌, Result, ok, err, ◌>>=◌,
  request_in_flight, key_required, is_blank, strip,
}
use elcorazon_backend.Base.Rows.{exists}

-- `idempotency_key_unique_per_user`
pub record Scope : Type 0 where
  pub user : ℕ
  pub endpoint : String
  pub key : String

abbrev pub same_scope : Scope → Scope → Bool
same_scope s t = s.user == t.user && s.endpoint == t.endpoint && s.key == t.key

abbrev pub scope : ℕ → String → String → Scope
scope u e k = record { user = u; endpoint = e; key = k }

pub same_scope_iff : (s t : Scope) → (same_scope s t ≡ true) ↔ (s ≡ t)
same_scope_iff s t = (forth, back)
  where
    both : (a b : Bool) → (a && b) ≡ true → (a ≡ true) × (b ≡ true)
    both true true h = (refl, refl)
    both true false h = cc
    both false b h = cc

    forth : same_scope s t ≡ true → s ≡ t
    forth h =
        let (h2, h4) = both (s.user == t.user && s.endpoint == t.endpoint) (s.key == t.key) h in
        let (h1, h3) = both (s.user == t.user) (s.endpoint == t.endpoint) h2 in
        ap (λ u. scope u s.endpoint s.key) (eq_of_beq s.user t.user h1)
        ∙ ap (λ e. scope t.user e s.key) (eq_of_beq s.endpoint t.endpoint h3)
        ∙ ap (scope t.user t.endpoint) (eq_of_beq s.key t.key h4)

    back : s ≡ t → same_scope s t ≡ true
    back e = rw (e, eq_self t.user, eq_self t.endpoint, eq_self t.key) refl

instance abbrev pub scope_eq : Eq Scope
scope_eq = record { beq = same_scope; beq_iff = same_scope_iff }

-- `StoredResponse`
pub record StoredResponse : Type 0 where
  pub status : ℕ
  pub body : String

-- `IdempotencyKey`; its response counts when it is completed.
pub record IdempotencyKey : Type 0 where
  pub owner : Scope
  pub order : Option ℕ
  pub response : StoredResponse
  pub is_completed : Bool

-- `filter(user=user, endpoint=endpoint, key=key)`
abbrev pub is_key : Scope → IdempotencyKey → Bool
is_key s r = r.owner == s

abbrev pub pending_key : Scope → IdempotencyKey
pending_key s = record {
  owner = s;
  order = none;
  response = record { status = 0; body = "{}" };
  is_completed = false;
}

-- `filter(...).first()`
unfoldable pub first_key : Scope → List IdempotencyKey → Option IdempotencyKey
first_key s [] = none
first_key s (r ∷ rest) = let later = first_key s rest in if is_key s r then some r else later

-- `_replay_or_wait`
unfoldable pub replay_or_wait : Scope → List IdempotencyKey → Result StoredResponse
replay_or_wait s rows = of_record (first_key s rows)
  where
    of_record : Option IdempotencyKey → Result StoredResponse
    of_record none = err request_in_flight
    of_record (some r) = if r.is_completed then ok r.response else err request_in_flight

-- `reserve`: the unique constraint refuses a second row of the key.
unfoldable pub reserve :
    Scope → List IdempotencyKey → Result (Option StoredResponse × List IdempotencyKey)
reserve s rows =
    if exists (is_key s) rows
    then (replay_or_wait s rows >>= λ stored. ok (some stored, rows))
    else ok (none, rows ++ (pending_key s ∷ []))

abbrev pub completed_key : IdempotencyKey → ℕ → StoredResponse → IdempotencyKey
completed_key r o stored = record r { order = some o; response = stored; is_completed = true }

-- `complete`
unfoldable pub complete : Scope → ℕ → StoredResponse → List IdempotencyKey → List IdempotencyKey
complete s o stored [] = []
complete s o stored (r ∷ rest) =
    let tail = complete s o stored rest in
    if is_key s r then completed_key r o stored ∷ tail else r ∷ tail

-- `release`
unfoldable pub release : Scope → List IdempotencyKey → List IdempotencyKey
release s [] = []
release s (r ∷ rest) =
    let tail = release s rest in if is_key s r && not r.is_completed then tail else r ∷ tail

-- What `create` reads and writes: the keys, and the tables of the orders.
pub record Checkout (S : Type 0) : Type 0 where
  pub keys : List IdempotencyKey
  pub store : S

abbrev pub created_response : String → StoredResponse
created_response body = record { status = 201; body = body }

-- What stands in the `try` of `create` is `work`: it creates an order in the tables, or raises and
-- leaves them. Rendering the order stands after the `try`, and may raise too.
module _ {S : Type 0} (work : S → Result (ℕ × S)) (render : ℕ → S → Result String) where
  -- The end of `create`, once the order is there.
  unfoldable pub finish : Scope → ℕ → Checkout S → Result StoredResponse × Checkout S
  finish s o st = after (render o st.store)
    where
      after : Result String → Result StoredResponse × Checkout S
      after (err e) = (err e, st)
      after (ok body) = (
        ok (created_response body),
        record st { keys = complete s o (created_response body) st.keys },
      )

  -- The `try`, with a key that is granted.
  unfoldable pub attempt : Scope → Checkout S → Result StoredResponse × Checkout S
  attempt s st = after (work st.store)
    where
      after : Result (ℕ × S) → Result StoredResponse × Checkout S
      after (err e) = (err e, record st { keys = release s st.keys })
      after (ok (o, store)) = finish s o (record st { store = store })

  unfoldable pub create_under : Scope → Checkout S → Result StoredResponse × Checkout S
  create_under s st = after (reserve s st.keys)
    where
      after :
          Result (Option StoredResponse × List IdempotencyKey) → Result StoredResponse × Checkout S
      after (err e) = (err e, st)
      after (ok (some stored, kept)) = (ok stored, record st { keys = kept })
      after (ok (none, granted)) = attempt s (record st { keys = granted })

  -- `create`, of a user, with the header as it comes: what it answers or raises, and what it leaves,
  -- which is written in both cases.
  unfoldable pub create : ℕ → String → Checkout S → Result StoredResponse × Checkout S
  create user header st =
      if is_blank header
      then (err key_required, st)
      else create_under (scope user "POST /api/v1/orders/" (strip header)) st
