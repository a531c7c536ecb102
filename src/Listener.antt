-- ===== src/Listener.antt =====
-- internal/platform/events/listener.go: the connection that listens to PostgreSQL's notifications and passes each
-- on to the handlers of its channel.
pub mod Schedule
mod Examples
use text.Mathlib.Text.{◌==◌ as str_eq}
use yop_pms.Prelude.{
  ℕ, zero, suc, ◌*◌, String, Bool, true, false, not, Option, none, some, List, [], ◌∷◌, ◌++◌, map,
  ltb, if◌then◌else◌,
}

-- The handlers of a channel, by numbers, in the order in which they were registered.
pub record Registration : Type 0 where
  pub channel : String
  pub handlers : List ℕ

-- l.handlers[channel]
unfoldable pub handlers_of : String → List Registration → List ℕ
handlers_of channel [] = []
handlers_of channel (r ∷ handlers) =
    let rest = handlers_of channel handlers in if str_eq r.channel channel then r.handlers else rest

-- On
unfoldable pub on : String → ℕ → List Registration → List Registration
on channel handler [] = record { channel = channel; handlers = handler ∷ [] } ∷ []
on channel handler (r ∷ handlers) =
    let rest = on channel handler handlers in
    if str_eq r.channel channel
    then record r { handlers = r.handlers ++ (handler ∷ []) } ∷ handlers
    else r ∷ rest

-- A call of a handler with an event; the handlers of one event run at the same time.
pub record HandlerCall (D : Type 0) : Type 0 where
  pub handler : ℕ
  pub channel : String
  pub data_map : D

-- What a wait for a notification comes to: a notification, an error with whether the ping after it is
-- answered, or the end of the listener.
pub data Arrival : Type 0 where
  notified : String → String → Arrival
  wait_failed : Bool → Arrival
  stopped : Arrival

-- How a connection ends: with an error, or because the listener is stopped.
pub data Ending : Type 0 where
  lost shut_down : Ending

-- What a connection meets: whether it opens, whether each LISTEN succeeds, and what arrives; after
-- that the listener is stopped.
pub record Connection : Type 0 where
  pub opens : Bool
  pub listens : String → Bool
  pub arrivals : List Arrival
  pub stopped_waiting : Bool

-- What a connection does: whether it calls back after a reconnection, the handlers that it calls,
-- and its end.
pub record Session (D : Type 0) : Type 0 where
  pub called_back : Bool
  pub calls : List (HandlerCall D)
  pub ending : Ending

-- What the loop of `run` has done: its sessions, and the seconds that it waited after each.
pub record Log (D : Type 0) : Type 0 where
  pub sessions : List (Session D)
  pub waits : List ℕ

module _ {D : Type 0} (parse : String → Option D) (handlers : List Registration) where
  abbrev dispatched : String → Option D → List (HandlerCall D)
  dispatched channel none = []
  dispatched channel (some d) =
      map (λ h. record { handler = h; channel = channel; data_map = d })
        (handlers_of channel handlers)

  -- dispatch; `parse` is json.Unmarshal.
  unfoldable pub dispatch : String → String → List (HandlerCall D)
  unfolding handlers_of
  dispatch channel payload = dispatched channel (parse payload)

  abbrev calling : List (HandlerCall D) → Session D → Session D
  calling calls s = record s { calls = calls ++ s.calls }

  abbrev ended : Ending → Session D
  ended e = record { called_back = false; calls = []; ending = e }

  -- processNotifications. The wait's context is cancelled before it is looked at, so that the branch for a
  -- timeout, with its ping, is that of every error.
  unfoldable pub process_notifications : List Arrival → Session D
  unfolding dispatch
  process_notifications [] = ended shut_down
  process_notifications (notified channel payload ∷ arrivals) =
      calling (dispatch channel payload) (process_notifications arrivals)
  process_notifications (wait_failed true ∷ arrivals) = process_notifications arrivals
  process_notifications (wait_failed false ∷ arrivals) = ended lost
  process_notifications (stopped ∷ arrivals) = ended shut_down

  abbrev all_listen : (String → Bool) → List Registration → Bool
  all_listen listens [] = true
  all_listen listens (r ∷ handlers) =
      if listens r.channel then all_listen listens handlers else false

  -- connect
  unfoldable pub connect : Bool → Connection → Session D
  unfolding process_notifications
  connect is_reconnect c =
      if not c.opens
      then ended lost
      else if not (all_listen c.listens handlers)
      then ended lost
      else record (process_notifications c.arrivals) { called_back = is_reconnect }

  abbrev next_backoff : ℕ → ℕ
  next_backoff backoff = if ltb backoff 60 then backoff * 2 else backoff

  abbrev before : Session D → ℕ → Log D → Log D
  before s backoff later = record { sessions = s ∷ later.sessions; waits = backoff ∷ later.waits }

  abbrev alone : Session D → Log D
  alone s = record { sessions = s ∷ []; waits = [] }

  abbrev followed : Session D → Bool → ℕ → Log D → Log D
  followed s stops backoff later = elim s.ending [
    | shut_down ↦ alone s
    | lost ↦ if stops then alone s else before s backoff later
  ]

  -- The loop of `run` over the connections that it makes, with the backoff in seconds and
  -- `isReconnect`. A connection that ends without an error ends because the listener is stopped, so
  -- that the branch that sets the backoff back is followed by the end of the loop.
  unfoldable pub run_loop : List Connection → ℕ → Bool → Log D
  unfolding connect
  run_loop [] backoff is_reconnect = record { sessions = []; waits = [] }
  run_loop (c ∷ connections) backoff is_reconnect =
      followed (connect is_reconnect c) c.stopped_waiting backoff
        (run_loop connections (next_backoff backoff) true)

  -- run
  unfoldable pub run : List Connection → Log D
  unfolding run_loop
  run connections = run_loop connections 1 false
