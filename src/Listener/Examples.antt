-- ===== src/Listener/Examples.antt =====
-- The listener of internal/platform/events/listener.go at concrete connections.
use yop_pms.Prelude.{String, true, false, Option, some, List, [], ◌∷◌}
use yop_pms.Listener.{Registration, Connection, notified, wait_failed}

abbrev handlers : List Registration
handlers = record { channel = "reservation_changes"; handlers = 1 ∷ 2 ∷ [] } ∷ []

abbrev dropped : Connection
dropped = record {
  opens = true;
  listens = λ channel. true;
  arrivals = notified "reservation_changes" "{}" ∷ wait_failed false ∷ [];
  stopped_waiting = false;
}

abbrev whole : String → Option String
whole s = some s
