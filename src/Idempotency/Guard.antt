-- ===== src/Idempotency/Guard.antt =====
-- `Idempotency` of internal/platform/middleware/idempotency.go as a whole: the reservation, the wait of a second
-- request, the handler's run, and what is saved of it.
use text.Mathlib.Text.{◌==◌ as str_eq}
use yop_pms.Prelude.{
  ℕ, String, Bool, true, false, not, ◌&&◌, ◌||◌, Option, none, some, List, [], ◌∷◌, leb, ltb,
  if◌then◌else◌,
}
use yop_pms.Redis.{idempotency, Redis}
use yop_pms.Idempotency.Capture.{Call, Captured, capture}
use yop_pms.Idempotency.{
  Incoming, SavedRecord, state_completed, Codec, Sent, served, refused, dropped, KeyReservation,
  acquired, taken, unreachable, Existing, handled, proceed, wait, failed, request_fingerprint,
  reserve, check_existing,
}

-- One round of the wait: what others have done to Redis since the last, which commands fail, and whether
-- a failure is that of a request that has been cancelled or has run out of time.
pub record Round (R : Type 0) : Type 0 where
  pub others : R → R
  pub get_down : Bool
  pub set_down : Bool
  pub abandoned : Bool

-- How a wait ends: at the deadline of 10 seconds, or because the request is cancelled.
pub data Ending : Type 0 where
  deadline cancelled : Ending

-- The rounds of a wait; there is always a first look, and the others follow the ticks of 100 ms.
pub record Wait (R : Type 0) : Type 0 where
  pub first : Round R
  pub ticks : List (Round R)
  pub ending : Ending

-- What a wait leads to.
pub data Decision (R : Type 0) : Type 0 where
  answered : Sent → R → Decision R
  run_handler fail_open : R → Decision R
  gone : R → Decision R

-- The handler's run: what it writes, what others do to Redis meanwhile, and whether the command
-- after it fails.
pub record Run (R : Type 0) : Type 0 where
  pub calls : List Call
  pub meanwhile : R → R
  pub save_down : Bool

-- What the middleware answers, whether the handler has run, and Redis after it.
pub record KeyOutcome (R : Type 0) : Type 0 where
  pub sent : Sent
  pub ran : Bool
  pub store : R

module _ {V R : Type 0} (redis : Redis V R) (codec : Codec V) where
  -- The loop of handleExistingIdempotencyKey.
  abbrev pub stopped : Ending → R → Decision R
  stopped deadline r =
      answered (refused 409 "request with this Idempotency-Key is still processing") r
  stopped cancelled r = gone r

  abbrev erred : Bool → R → Decision R
  erred true r = gone r
  erred false r = fail_open r

  abbrev pub settled : Bool → Existing R → R → Decision R → Decision R
  settled abandoned (handled sent) r later = answered sent r
  settled abandoned (proceed r') r later = run_handler r'
  settled abandoned failed r later = erred abandoned r
  settled abandoned wait r later = later

  abbrev pub look : Round R → String → String → R → Existing R
  look round key fingerprint r =
      check_existing redis codec round.get_down round.set_down key fingerprint (round.others r)

  unfoldable pub poll : List (Round R) → Ending → String → String → R → Decision R
  unfolding check_existing
  poll [] ending key fingerprint r = stopped ending r
  poll (round ∷ ticks) ending key fingerprint r =
      let later = poll ticks ending key fingerprint (round.others r) in
      settled round.abandoned (look round key fingerprint r) (round.others r) later

  -- handleExistingIdempotencyKey
  unfoldable pub handle_existing : Wait R → String → String → R → Decision R
  unfolding poll
  handle_existing w key fingerprint r = poll (w.first ∷ w.ticks) w.ending key fingerprint r

  -- cacheResponse, as a record
  unfoldable pub cached_response : String → Captured → SavedRecord
  cached_response fingerprint rc = record {
    state = state_completed;
    fingerprint = fingerprint;
    response =
        some
          (record { status = rc.status; headers = rc.headers_copy; body = codec.encode rc.body });
  }

  abbrev pub is_success : ℕ → Bool
  is_success status = leb 200 status && ltb status 300

  -- The SET or DEL after the handler has run.
  unfoldable pub save : Bool → String → String → Captured → R → R
  unfolding cached_response
  save true key fingerprint rc r = r
  save false key fingerprint rc r =
      if is_success rc.status
      then redis.set (idempotency key) (codec.write (cached_response fingerprint rc)) r
      else redis.del (idempotency key) r

  abbrev pub protected : Run R → String → String → R → KeyOutcome R
  protected run key fingerprint r = record {
    sent = served run.calls;
    ran = true;
    store = save run.save_down key fingerprint (capture run.calls) (run.meanwhile r);
  }

  abbrev pub unprotected : Run R → R → KeyOutcome R
  unprotected run r = record { sent = served run.calls; ran = true; store = run.meanwhile r }

  abbrev ended : Sent → R → KeyOutcome R
  ended sent r = record { sent = sent; ran = false; store = r }

  abbrev pub decided : Run R → String → String → Decision R → KeyOutcome R
  decided run key fingerprint (answered sent r) = ended sent r
  decided run key fingerprint (run_handler r) = protected run key fingerprint r
  decided run key fingerprint (fail_open r) = unprotected run r
  decided run key fingerprint (gone r) = ended dropped r

  abbrev pub entered : Wait R → Run R → String → String → R → KeyReservation R → KeyOutcome R
  entered w run key fingerprint r (acquired r') = protected run key fingerprint r'
  entered w run key fingerprint r taken =
      decided run key fingerprint (handle_existing w key fingerprint r)
  entered w run key fingerprint r unreachable = unprotected run r

  abbrev pub is_guarded : String → Bool
  is_guarded method = str_eq method "POST" || str_eq method "PATCH"

  -- The middleware for a request whose body can be read, with its fingerprint.
  unfoldable pub enter : Bool → Wait R → Run R → String → String → R → KeyOutcome R
  unfolding reserve save handle_existing capture
  enter down w run key fingerprint r =
      entered w run key fingerprint r (reserve redis codec down key fingerprint r)

  abbrev pub read_body : Bool → Wait R → Run R → Incoming → R → Option String → KeyOutcome R
  read_body down w run req r none = ended (refused 400 "failed to read request body") r
  read_body down w run req r (some body) =
      enter down w run req.key (request_fingerprint redis codec req body) r

  -- Idempotency; `down` says that the first reservation gives an error.
  unfoldable pub guard : Bool → Wait R → Run R → Incoming → R → KeyOutcome R
  unfolding enter request_fingerprint
  guard down w run req r =
      if not (is_guarded req.method)
      then unprotected run r
      else if str_eq req.key ""
      then ended (refused 400 "Idempotency-Key header is required") r
      else read_body down w run req r req.body
