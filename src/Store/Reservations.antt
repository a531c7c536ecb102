-- ===== src/Store/Reservations.antt =====
-- The statements on operations.reservations and identity.guests (internal/store/
-- reservation_crud.sql.go, reservation_workers.sql.go, guest.sql.go). Row-level security shows a
-- transaction the rows of its own property alone.
use yop_pms.Prelude.{
  ℕ, ◌+◌, String, Bool, ◌&&◌, Option, none, some, [], ◌∷◌, ◌++◌, ltb, ◌==◌, if◌then◌else◌, is_none,
  coalesce, or_else, find_where, update_where, count_where,
}
use yop_pms.Calendar.{Stay}
use yop_pms.Status.{ReservationStatus}
use yop_pms.Store.{
  Env, Source, Reservation, Guest, ok, err, no_rows, pg, check_violation, get_reservation,
  update_status, update_metadata, create_reservation, create_guest, get_guest,
}
use yop_pms.Store.Tx.{Tx, statement}

abbrev pub visible : Env → ℕ → Bool
visible env property = property == env.property

-- WHERE r.id = @id AND r.deleted_at IS NULL
abbrev pub is_live_reservation : Env → ℕ → Reservation → Bool
is_live_reservation env id r = r.id == id && is_none r.deleted_at && visible env r.property

-- WHERE id = @id AND version = @version
abbrev pub is_version : Env → ℕ → ℕ → Reservation → Bool
is_version env id version r = r.id == id && r.version == version && visible env r.property

-- GetReservation, less the items that it joins.
unfoldable pub find_reservation : Env → ℕ → ℕ → Tx Reservation
find_reservation env k id = statement env get_reservation k λ db.
    elim (find_where (is_live_reservation env id) db.reservations) [
      | none ↦ err no_rows
      | some r ↦ ok (r, db)
    ]

abbrev pub with_status : Env → ReservationStatus → Reservation → Reservation
with_status env status r = record r {
  status = status;
  version = r.version + 1;
  updated_at = env.now;
}

-- UpdateReservationStatus: the number of rows that it changed.
unfoldable pub update_reservation_status : Env → ℕ → ℕ → ReservationStatus → Tx ℕ
update_reservation_status env id version status = statement env update_status 0 λ db. ok (
  count_where (is_version env id version) db.reservations,
  record db {
    reservations =
        update_where (is_version env id version) (with_status env status) db.reservations;
  },
)

pub record UpdateMetadataParams : Type 0 where
  pub id : ℕ
  pub version : ℕ
  pub notes : Option String
  pub primary_guest : ℕ
  pub envelope : Option Stay

-- SET each column = COALESCE(its parameter, itself)
abbrev pub with_metadata : Env → UpdateMetadataParams → Reservation → Reservation
with_metadata env p r = record r {
  notes = or_else p.notes r.notes;
  primary_guest = p.primary_guest;
  envelope = coalesce p.envelope r.envelope;
  version = r.version + 1;
  updated_at = env.now;
}

-- CHECK (lower(stay_period_envelope) < upper(stay_period_envelope))
abbrev pub spans : Stay → Bool
spans s = ltb s.lower s.upper

-- UpdateReservationMetadata
unfoldable pub update_reservation_metadata : Env → UpdateMetadataParams → Tx Reservation
update_reservation_metadata env p = statement env update_metadata 0 λ db.
    elim (find_where (is_version env p.id p.version) db.reservations) [
      | none ↦ err no_rows
      | some r ↦
          if spans (with_metadata env p r).envelope
          then ok (
            with_metadata env p r,
            record db {
              reservations =
                  update_where (is_version env p.id p.version) (with_metadata env p)
                    db.reservations;
            },
          )
          else err (pg check_violation)
    ]

pub record CreateReservationParams : Type 0 where
  pub primary_guest : ℕ
  pub source : Source
  pub notes : Option String
  pub status : ReservationStatus
  pub envelope : Stay
  pub expires_at : Option ℕ

abbrev pub new_reservation : Env → CreateReservationParams → ℕ → Reservation
new_reservation env p id = record {
  id = id;
  property = env.property;
  primary_guest = p.primary_guest;
  source = p.source;
  notes = p.notes;
  status = p.status;
  envelope = p.envelope;
  expires_at = p.expires_at;
  version = 1;
  created_at = env.now;
  updated_at = env.now;
  deleted_at = none;
}

-- CreateReservation, for the property of the request.
unfoldable pub insert_reservation : Env → CreateReservationParams → Tx Reservation
insert_reservation env p = statement env create_reservation 0 λ db.
    let row = new_reservation env p (env.new_id db.drawn) in
    if spans p.envelope
    then ok (row, record db { reservations = db.reservations ++ row ∷ []; drawn = db.drawn + 1 })
    else err (pg check_violation)

-- CreateGuest
unfoldable pub insert_guest : Env → String → String → Tx Guest
insert_guest env first last = statement env create_guest 0 λ db.
    let row : Guest = record {
      id = env.new_id db.drawn;
      property = env.property;
      first_name = first;
      last_name = last;
      deleted_at = none;
    } in
    ok (row, record db { guests = db.guests ++ row ∷ []; drawn = db.drawn + 1 })

-- GetGuest
unfoldable pub find_guest : Env → ℕ → Tx Guest
find_guest env id = statement env get_guest 0 λ db.
    elim (find_where (λ g. g.id == id && is_none g.deleted_at && visible env g.property)
      db.guests) [ none ↦ err no_rows | some g ↦ ok (g, db) ]
