-- ===== src/Idempotency/Replays.antt =====
-- The answers of `Idempotency` in internal/platform/middleware/idempotency.go: what a second request under a
-- key gets.
use text.Mathlib.Text.{◌==◌ as str_eq}
use yop_pms.Prelude.{◌≡◌, refl, ap, ◌∙◌, String, Bool, true, false, none, some, List, [], ◌∷◌}
use yop_pms.Redis.{idempotency, Redis, IsRedis}
use yop_pms.Idempotency.Capture.{Captured, capture}
use yop_pms.Idempotency.{
  Incoming, SavedRecord, Codec, IsCodec, Sent, served, replayed, refused, handled,
  request_fingerprint, processing_record, check_existing,
}
use yop_pms.Idempotency.Guard.{
  Round, Wait, Run, poll, handle_existing, cached_response, is_success, save, is_guarded, enter,
  guard, Ending, deadline, stopped,
}
use yop_pms.Idempotency.Held.{
  Held, reserve-free, reserve-Held, check_existing-completed, check_existing-other,
  check_existing-processing_record,
}

module _ {V R : Type 0} (redis : Redis V R) (codec : Codec V) (laws : IsRedis redis)
    (lawful : IsCodec codec) where
  -- The request is one that the middleware guards, and `body` is its body.
  abbrev pub Guarded : Incoming → String → Type 0
  Guarded req body =
      (is_guarded redis codec req.method ≡ true)
      × (str_eq req.key "" ≡ false)
      × (req.body ≡ some body)

  guard-enter :
      (down : Bool) (w : Wait R) (run : Run R) (req : Incoming) (body : String) (r : R)
      → Guarded req body
      → guard redis codec down w run req r
        ≡ enter redis codec down w run req.key (request_fingerprint redis codec req body) r
  unfolding guard
  guard-enter down w run req body r (g, k, b) = rw (g, k, b) refl

  enter-free :
      (w : Wait R) (run : Run R) (key fingerprint : String) (r : R)
      → redis.get (idempotency key) r ≡ none
      → enter redis codec false w run key fingerprint r ≡ record {
        sent = served run.calls;
        ran = true;
        store = save redis codec run.save_down key fingerprint (capture run.calls) (
            run.meanwhile (
              redis.set
                (idempotency key)
                (codec.write (processing_record redis codec fingerprint))
                r));
      }
  unfolding enter
  enter-free w run key fingerprint r h =
      rw (reserve-free redis codec laws lawful key fingerprint r h) refl

  enter-handled :
      (w : Wait R) (run : Run R) (key fingerprint : String) (s : SavedRecord) (r : R) (sent : Sent)
      → Held redis codec laws lawful key s r
      → check_existing redis codec w.first.get_down w.first.set_down key fingerprint
          (w.first.others r)
        ≡ handled sent
      → enter redis codec false w run key fingerprint r
        ≡ record { sent = sent; ran = false; store = w.first.others r }
  unfolding enter handle_existing poll
  enter-handled w run key fingerprint s r sent h c =
      rw (reserve-Held redis codec laws lawful key fingerprint s r h, c) refl

  -- A request under a key that another request has used, whether that is still running or not, is
  -- refused as a conflict and does not run its handler, if Redis answers and holds the key's record
  -- through the first look at it.
  pub guard-conflict :
      (w : Wait R) (run : Run R) (req : Incoming) (body : String) (s : SavedRecord) (r : R)
      → Guarded req body
      → w.first.get_down ≡ false
      → Held redis codec laws lawful req.key s r
      → Held redis codec laws lawful req.key s (w.first.others r)
      → str_eq s.fingerprint (request_fingerprint redis codec req body) ≡ false
      → guard redis codec false w run req r ≡ record {
        sent = refused 409 "Idempotency-Key was already used for a different request";
        ran = false;
        store = w.first.others r;
      }
  guard-conflict w run req body s r g u h k d =
      let fp = request_fingerprint redis codec req body in
      guard-enter false w run req body r g
      ∙ enter-handled w run req.key fp s r
          (refused 409 "Idempotency-Key was already used for a different request") h
          (rw u (
            check_existing-other redis codec laws lawful w.first.set_down req.key fp s
              (w.first.others r) k d))

  save-Held :
      (key fingerprint : String) (rc : Captured) (r : R)
      → is_success redis codec rc.status ≡ true
      → Held redis codec laws lawful key
          (cached_response redis codec fingerprint rc)
          (save redis codec false key fingerprint rc r)
  unfolding save
  save-Held key fingerprint rc r h = rw h (
      laws.get-set_same (idempotency key) (codec.write (cached_response redis codec fingerprint rc))
        r)

  -- A request that runs under a free key and answers with a status in 200..299 is answered from
  -- the record when it comes again: with the status, headers and body that the first run gave, and
  -- without a second run. Redis answers, and others leave the record as it is.
  pub guard-replays :
      (w w' : Wait R) (run run' : Run R) (req : Incoming) (body : String) (r : R)
      → Guarded req body
      → redis.get (idempotency req.key) r ≡ none
      → run.save_down ≡ false
      → is_success redis codec (capture run.calls).status ≡ true
      → w'.first.get_down ≡ false
      → ((x : R)
          → redis.get (idempotency req.key) (w'.first.others x) ≡ redis.get (idempotency req.key) x)
      → guard redis codec false w' run' req (guard redis codec false w run req r).store ≡ record {
        sent =
            replayed
              (capture run.calls).status
              (capture run.calls).headers_copy
              (capture run.calls).body;
        ran = false;
        store = w'.first.others (guard redis codec false w run req r).store;
      }
  guard-replays w w' run run' req body r g n d ok u others =
      let fp = request_fingerprint redis codec req body in
      let rc = capture run.calls in
      let store = (guard redis codec false w run req r).store in
      let first : Held redis codec laws lawful req.key (cached_response redis codec fp rc) store =
        rw (guard-enter false w run req body r g, enter-free w run req.key fp r n, d)
          (save-Held req.key fp rc _ ok) in
      guard-enter false w' run' req body store g
      ∙ enter-handled w' run' req.key fp (cached_response redis codec fp rc) store
          (replayed rc.status rc.headers_copy rc.body) first
          (rw u (
            check_existing-completed redis codec laws lawful w'.first.set_down req.key fp rc
              (w'.first.others store) (others store ∙ first)))

  -- A request that runs under a free key and answers with any other status leaves the key free, so
  -- that the request runs when it comes again. Redis answers.
  pub guard-retries :
      (w w' : Wait R) (run run' : Run R) (req : Incoming) (body : String) (r : R)
      → Guarded req body
      → redis.get (idempotency req.key) r ≡ none
      → run.save_down ≡ false
      → is_success redis codec (capture run.calls).status ≡ false
      → (redis.get (idempotency req.key) (guard redis codec false w run req r).store ≡ none)
        × ((guard redis codec false w' run' req (guard redis codec false w run req r).store).ran
            ≡ true)
  unfolding save
  guard-retries w w' run run' req body r g n d f =
      let fp = request_fingerprint redis codec req body in
      let store = (guard redis codec false w run req r).store in
      let free : redis.get (idempotency req.key) store ≡ none =
        rw (guard-enter false w run req body r g, enter-free w run req.key fp r n, d, f)
          (laws.get-del_same (idempotency req.key) _) in
      (
        free,
        ap (λ o. o.ran)
            (guard-enter false w' run' req body store g ∙ enter-free w' run' req.key fp store free),
      )

  -- In every round of a wait Redis answers with the record of the same request, still running.
  abbrev pub StillRunning : String → String → List (Round R) → R → Type 0
  StillRunning key fingerprint [] r = Unit
  StillRunning key fingerprint (round ∷ ticks) r =
      (round.get_down ≡ false)
      × Held redis codec laws lawful key (processing_record redis codec fingerprint)
          (round.others r)
      × StillRunning key fingerprint ticks (round.others r)

  -- What the others have done to Redis after a wait.
  abbrev pub after_rounds : List (Round R) → R → R
  after_rounds [] r = r
  after_rounds (round ∷ ticks) r = after_rounds ticks (round.others r)

  poll-StillRunning :
      (ticks : List (Round R)) (ending : Ending) (key fingerprint : String) (r : R)
      → StillRunning key fingerprint ticks r
      → poll redis codec ticks ending key fingerprint r
        ≡ stopped redis codec ending (after_rounds ticks r)
  unfolding poll
  poll-StillRunning [] ending key fingerprint r h = refl
  poll-StillRunning (round ∷ ticks) ending key fingerprint r (u, h, rest) =
      rw
        (
          u,
          check_existing-processing_record redis codec laws lawful round.set_down key fingerprint
              (round.others r) h,
        )
        (poll-StillRunning ticks ending key fingerprint (round.others r) rest)

  -- A request that finds the first run of it still going on, at every look until the deadline, is
  -- refused as a conflict and does not run its handler.
  pub guard-waits :
      (w : Wait R) (run : Run R) (req : Incoming) (body : String) (r : R)
      → Guarded req body
      → Held redis codec laws lawful req.key
          (processing_record redis codec (request_fingerprint redis codec req body))
          r
      → StillRunning req.key (request_fingerprint redis codec req body) (w.first ∷ w.ticks) r
      → w.ending ≡ deadline
      → guard redis codec false w run req r ≡ record {
        sent = refused 409 "request with this Idempotency-Key is still processing";
        ran = false;
        store = after_rounds (w.first ∷ w.ticks) r;
      }
  unfolding enter handle_existing
  guard-waits w run req body r g h q e =
      let fp = request_fingerprint redis codec req body in
      guard-enter false w run req body r g
      ∙ rw
          (
            reserve-Held redis codec laws lawful req.key fp (processing_record redis codec fp) r h,
            poll-StillRunning (w.first ∷ w.ticks) w.ending req.key fp r q,
            e,
          )
          refl
