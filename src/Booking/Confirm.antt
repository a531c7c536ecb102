-- ===== src/Booking/Confirm.antt =====
-- internal/booking/service_create.go and service_read.go: confirmation of a reservation, and the
-- update of its metadata.
use yop_pms.Prelude.{ℕ, String, not, Option, none, some, [], ◌==◌, if◌then◌else◌}
use yop_pms.Status.{confirmed, same_reservation_status, validate_reservation_transition}
use yop_pms.Store.{
  Db, Env, Reservation, invalid_transition, guest_not_attached, version_mismatch, nil_uuid,
}
use yop_pms.Store.Tx.{Tx, Reply, ◌>>=◌, ◌>>◌, return, throw_if, attempt, execute_tx, ◌no_rows_as◌}
use yop_pms.Store.Reservations.{
  find_reservation, update_reservation_status, update_reservation_metadata,
}
use yop_pms.Store.Events.{notify_reservation_change, enqueue_confirmation}
use yop_pms.Booking.Response.{IncludeFlags, ReservationResponse, expand_include}

-- The answer for a row that is joined with nothing yet.
abbrev pub answer : Env → Reservation → ℕ → IncludeFlags → Tx ReservationResponse
answer env row guest include =
    expand_include env (record { row = row; items = []; guest = none }) include (some guest)

-- The part of `ConfirmReservation` for a reservation that is not confirmed.
unfoldable pub confirm_other : Env → ℕ → IncludeFlags → Reservation → Tx ReservationResponse
confirm_other env id include res = do
  throw_if (not (validate_reservation_transition res.status confirmed)) invalid_transition
  throw_if (res.primary_guest == nil_uuid) guest_not_attached
  rows ← update_reservation_status env id env.if_match confirmed
  throw_if (rows == 0) version_mismatch
  updated ← find_reservation env 1 id
  response ← answer env updated res.primary_guest include
  notify_reservation_change env "confirmed" id
  attempt (enqueue_confirmation env id)
  return response

unfoldable pub confirm_reservation_tx : Env → ℕ → IncludeFlags → Tx ReservationResponse
confirm_reservation_tx env id include = do
  res ← find_reservation env 0 id
  if same_reservation_status res.status confirmed
      then answer env res res.primary_guest include
      else confirm_other env id include res

unfoldable pub confirm_reservation : Env → ℕ → IncludeFlags → Db → Reply ReservationResponse
unfolding confirm_reservation_tx
confirm_reservation env id include = execute_tx env (confirm_reservation_tx env id include)

-- The guest to write: the one given, or the present one.
unfoldable pub metadata_guest : Env → ℕ → Option ℕ → Tx ℕ
metadata_guest env id (some g) = return g
metadata_guest env id none = do res ← find_reservation env 0 id; return res.primary_guest

unfoldable pub update_metadata_tx : Env → ℕ → Option String → Option ℕ → Tx Reservation
update_metadata_tx env id notes guest = do
  g ← metadata_guest env id guest
  updated ←
      update_reservation_metadata env (record {
        id = id;
        version = env.if_match;
        notes = notes;
        primary_guest = g;
        envelope = none;
      })
      no_rows_as version_mismatch
  attempt (notify_reservation_change env "updated" id)
  return updated

unfoldable pub update_metadata : Env → ℕ → Option String → Option ℕ → Db → Reply Reservation
unfolding update_metadata_tx
update_metadata env id notes guest = execute_tx env (update_metadata_tx env id notes guest)
