-- ===== src/Gateway/Effects.antt =====
-- What a request over HTTP does to the tables: the handlers of internal/booking behind the middleware.
use yop_pms.Prelude.{
  ℕ, ◌≡◌, ◌⊎◌, inl, inr, refl, ap, ◌∙◌, coalesce, sym, subst, Bool, true, Option, none, some,
  if◌then◌else◌, Bool-cases,
}
use yop_pms.Store.{Db, Env, holds}
use yop_pms.Store.Keeps.Isolation.{Isolated}
use yop_pms.Gateway.{
  Route, create_route, metadata_route, confirm_route, cancel_route, reactivate_route,
  checkin_all_route, checkout_all_route, add_item_route, update_item_route, checkin_route,
  checkout_route, assign_room_route, no_show_route, cancel_item_route, HttpRequest, Formats,
  MetadataInput, Answered, Entry, turned_away, admitted, permission_of, permissions_of, front,
  refuse,
}
use yop_pms.Gateway.Handlers.{
  with_id, cancel_input, handle, past_front, respond, is_long, read_metadata, valid,
}
use yop_pms.Service.{
  Request, create, confirm, metadata, cancel, no_show_item, cancel_one, checkin, checkout,
  reactivate, checkin_all, checkout_all, room, item, add, serve,
}
use yop_pms.Service.Guarantees.{serve-Isolated}
use yop_pms.Gateway.Front.{OnlyChecked, front-OnlyChecked}

module _ (f : Formats) where
  -- What a handler leaves: the tables as they were, or those that a request of the service leaves.
  abbrev ServedBy : Env → Db → Db → Type 0
  ServedBy env db after = (after ≡ db) ⊎ ((r : Request) × (after ≡ serve r env db))

  valid-ServedBy :
      {I : Type 0} (is_valid : I → Bool) (o : Option I) (env : Env) (db : Db) (next : I → Answered)
      → ((i : I) → ServedBy env db (next i).db)
      → ServedBy env db (valid f is_valid o db next).db
  valid-ServedBy is_valid none env db next h = inl refl
  valid-ServedBy is_valid (some i) env db next h = elim (Bool-cases (is_valid i)) [
    | inl e ↦ rw e (h i)
    | inr e ↦ rw e (inl refl)
  ]

  metadata-ServedBy :
      (o : Option MetadataInput) (env : Env) (db : Db) (next : MetadataInput → Answered)
      → ((i : MetadataInput) → ServedBy env db (next i).db)
      → ServedBy env db (read_metadata f o db next).db
  metadata-ServedBy none env db next h = inl refl
  metadata-ServedBy (some i) env db next h = elim (Bool-cases (is_long i.notes)) [
    | inl e ↦ rw e (inl refl)
    | inr e ↦ rw e (h i)
  ]

  cancel-ServedBy :
      (req : HttpRequest) (env : Env) (db : Db) (next : Answered)
      → ServedBy env db next.db
      → ServedBy env db (cancel_input f req db next).db
  cancel-ServedBy req env db next h = elim (Bool-cases (f.is_cancel_body req.body)) [
    | inl e ↦ elim (Bool-cases (f.is_valid_cancel req.body)) [
      | inl v ↦ rw (e, v) h
      | inr v ↦ rw (e, v) (inl refl)
    ]
    | inr e ↦ rw e (inl refl)
  ]

  cancel_item-ServedBy :
      (req : HttpRequest) (env : Env) (db : Db) (next : Answered)
      → ServedBy env db next.db
      → ServedBy env db (if f.is_cancel_body req.body then next else refuse 400 db).db
  cancel_item-ServedBy req env db next h = elim (Bool-cases (f.is_cancel_body req.body)) [
    | inl e ↦ rw e h
    | inr e ↦ rw e (inl refl)
  ]

  with_id-ServedBy :
      (o : Option ℕ) (env : Env) (db : Db) (next : ℕ → Answered)
      → ((id : ℕ) → ServedBy env db (next id).db)
      → ServedBy env db (with_id f o db next).db
  with_id-ServedBy none env db next h = inl refl
  with_id-ServedBy (some id) env db next h = h id

  served_by :
      (req : HttpRequest) (env : Env) (db : Db) (next : ℕ → Answered) (r : ℕ → Request)
      → ((id : ℕ) → (next id).db ≡ serve (r id) env db)
      → ServedBy env db (with_id f (f.parse_uuid req.id) db next).db
  served_by req env db next r h =
      with_id-ServedBy (f.parse_uuid req.id) env db next (λ id. inr (r id, h id))

  handle-ServedBy :
      (route : Route) (req : HttpRequest) (env : Env) (db : Db)
      → ServedBy env db (handle f route req env db).db
  unfolding handle serve
  handle-ServedBy create_route req env db =
      valid-ServedBy f.is_valid_create (f.create_body req.body) env db _
        (λ i. inr (create i _, refl))
  handle-ServedBy metadata_route req env db = with_id-ServedBy (f.parse_uuid req.id) env db _ (λ id.
      metadata-ServedBy (f.metadata_body req.body) env db _
        (λ i. inr (metadata id i.notes i.primary_guest, refl)))
  handle-ServedBy confirm_route req env db =
      with_id-ServedBy (f.parse_uuid req.id) env db _ (λ id. inr (confirm id _, refl))
  handle-ServedBy cancel_route req env db =
      with_id-ServedBy (f.parse_uuid req.id) env db _
        (λ id. cancel-ServedBy req env db _ (inr (cancel id, refl)))
  handle-ServedBy reactivate_route req env db = served_by req env db _ reactivate (λ id. refl)
  handle-ServedBy checkin_all_route req env db = served_by req env db _ checkin_all (λ id. refl)
  handle-ServedBy checkout_all_route req env db = served_by req env db _ checkout_all (λ id. refl)
  handle-ServedBy add_item_route req env db = with_id-ServedBy (f.parse_uuid req.id) env db _ (λ id.
      valid-ServedBy f.is_valid_item (f.item_body req.body) env db _ (λ i. inr (add id i, refl)))
  handle-ServedBy update_item_route req env db =
      with_id-ServedBy (f.parse_uuid req.id) env db _ (λ id.
        valid-ServedBy f.is_valid_item (f.item_body req.body) env db _ (λ i. inr (item id i, refl)))
  handle-ServedBy checkin_route req env db = served_by req env db _ checkin (λ id. refl)
  handle-ServedBy checkout_route req env db = served_by req env db _ checkout (λ id. refl)
  handle-ServedBy assign_room_route req env db =
      with_id-ServedBy (f.parse_uuid req.id) env db _ (λ id.
        valid-ServedBy f.is_valid_room (f.room_body req.body) env db _
          (λ i. inr (room id i.room i.override_reason, refl)))
  handle-ServedBy no_show_route req env db = served_by req env db _ no_show_item (λ id. refl)
  handle-ServedBy cancel_item_route req env db =
      with_id-ServedBy (f.parse_uuid req.id) env db _
        (λ id. cancel_item-ServedBy req env db _ (inr (cancel_one id, refl)))

  -- A request, whatever it holds, leaves the tables as they were, or as one request of the service
  -- leaves them; and then its property header names that request's property, and its permissions
  -- header holds the permission of the route.
  pub respond-serve :
      (route : Route) (req : HttpRequest) (env : Env) (db : Db)
      → ((respond f route req env db).db ≡ db)
        ⊎ ((r : Request) × (e : Env) × ((respond f route req env db).db ≡ serve r e db)
            × (f.parse_uuid req.property_header ≡ some e.property)
            × (holds (permissions_of f req.permissions_header) (permission_of route) ≡ true))
  unfolding respond
  respond-serve route req env db = go (front f route req env) (front-OnlyChecked f route req env)
    where
      go :
          (e : Entry)
          → OnlyChecked f route req e
          → ((past_front f route req db e).db ≡ db)
            ⊎ ((r : Request) × (e' : Env) × ((past_front f route req db e).db ≡ serve r e' db)
                × (f.parse_uuid req.property_header ≡ some e'.property)
                × (holds (permissions_of f req.permissions_header) (permission_of route) ≡ true))
      go (turned_away status) c = inl refl
      go (admitted env') c = elim (handle-ServedBy route req env' db) [
        | inl same ↦ inl same
        | inr (r, served) ↦ inr (
          r,
          env',
          served,
          c.property,
          subst (λ l. holds l (permission_of route) ≡ true) c.permissions c.permission,
        )
      ]

  some-inj : {x y : ℕ} → some x ≡ some y → x ≡ y
  some-inj {x = x} e = ap (λ o. coalesce o x) e

  Isolated-env :
      (e env : Env) (db after : Db)
      → e.property ≡ env.property
      → Isolated e db after
      → Isolated env db after
  Isolated-env e env db after p h = record {
    reservations = rw (sym p) h.reservations;
    items = rw (sym p) h.items;
    ledger = rw (sym p) h.ledger;
    guests = rw (sym p) h.guests;
  }

  -- A request leaves the rows of every property but the one that its header names as they were.
  pub respond-Isolated :
      (route : Route) (req : HttpRequest) (env : Env) (db : Db)
      → f.parse_uuid req.property_header ≡ some env.property
      → Isolated env db (respond f route req env db).db
  respond-Isolated route req env db p = elim (respond-serve route req env db) [
    | inl same ↦
        subst (Isolated env db) (sym same)
          (record { reservations = refl; items = refl; ledger = refl; guests = refl })
    | inr (r, e, served, q, _) ↦
        Isolated-env e env db (respond f route req env db).db (some-inj (sym q ∙ p))
          (subst (Isolated e db) (sym served) (serve-Isolated r e db))
  ]
