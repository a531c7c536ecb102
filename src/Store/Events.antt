-- ===== src/Store/Events.antt =====
-- The NOTIFY of `notifyReservationChange` (internal/booking/service_create.go) and the outbox insert
-- of `worker.Enqueue` (internal/platform/worker/enqueue.go). Both are part of their transaction.
use yop_pms.Prelude.{ℕ, String, [], ◌∷◌, ◌++◌}
use yop_pms.Store.{Env, ok, notify, enqueue}
use yop_pms.Store.Tx.{Tx, statement}

-- The payload always encodes, so that the statement alone can fail.
unfoldable pub notify_reservation_change : Env → String → ℕ → Tx (Unit {0})
notify_reservation_change env action id = statement env notify 0 λ db.
    ok (tt, record db { notices = db.notices ++ record { action = action; subject = id } ∷ [] })

-- Enqueue of a confirmation mail for a reservation, to be processed at once.
unfoldable pub enqueue_confirmation : Env → ℕ → Tx (Unit {0})
enqueue_confirmation env id = statement env enqueue 0 λ db.
    ok (
      tt,
      record db { outbox = db.outbox ++ record { reservation = id; process_at = env.now } ∷ [] },
    )
