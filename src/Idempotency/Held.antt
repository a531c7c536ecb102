-- ===== src/Idempotency/Held.antt =====
-- A key of `Idempotency` (internal/platform/middleware/idempotency.go) that is free, or held by a record.
use text.Mathlib.Text.{◌==◌ as str_eq}
use text.Mathlib.TextPositions.{eq_refl}
use yop_pms.Prelude.{◌≡◌, refl, String, Bool, false, none, some}
use yop_pms.Redis.{idempotency, Redis, IsRedis}
use yop_pms.Idempotency.Capture.{Captured}
use yop_pms.Idempotency.{
  SavedRecord, Codec, IsCodec, replayed, refused, acquired, taken, handled, wait, reserve,
  processing_record, replay, check_existing,
}
use yop_pms.Idempotency.Guard.{cached_response}

module _ {V R : Type 0} (redis : Redis V R) (codec : Codec V) (laws : IsRedis redis)
    (lawful : IsCodec codec) where
  -- The key is held by a record.
  abbrev pub Held : String → SavedRecord → R → Type 0
  Held key s r = redis.get (idempotency key) r ≡ some (codec.write s)

  pub reserve-free :
      (key fingerprint : String) (r : R)
      → redis.get (idempotency key) r ≡ none
      → reserve redis codec false key fingerprint r
        ≡ acquired (
            redis.set (idempotency key) (codec.write (processing_record redis codec fingerprint)) r)
  unfolding reserve
  reserve-free key fingerprint r h =
      rw
        (
          laws.set_nx-get (idempotency key)
              (codec.write (processing_record redis codec fingerprint)) r,
          h,
        )
        refl

  pub reserve-Held :
      (key fingerprint : String) (s : SavedRecord) (r : R)
      → Held key s r
      → reserve redis codec false key fingerprint r ≡ taken
  unfolding reserve
  reserve-Held key fingerprint s r h =
      rw
        (
          laws.set_nx-get (idempotency key)
              (codec.write (processing_record redis codec fingerprint)) r,
          h,
        )
        refl

  pub check_existing-completed :
      (down : Bool) (key fingerprint : String) (rc : Captured) (r : R)
      → Held key (cached_response redis codec fingerprint rc) r
      → check_existing redis codec false down key fingerprint r
        ≡ handled (replayed rc.status rc.headers_copy rc.body)
  unfolding check_existing cached_response replay
  check_existing-completed down key fingerprint rc r h =
      rw
        (
          h,
          lawful.read-write (cached_response redis codec fingerprint rc),
          eq_refl fingerprint,
          lawful.decode-encode rc.body,
        )
        refl

  pub check_existing-other :
      (down : Bool) (key fingerprint : String) (s : SavedRecord) (r : R)
      → Held key s r
      → str_eq s.fingerprint fingerprint ≡ false
      → check_existing redis codec false down key fingerprint r
        ≡ handled (refused 409 "Idempotency-Key was already used for a different request")
  unfolding check_existing
  check_existing-other down key fingerprint s r h d = rw (h, lawful.read-write s, d) refl

  pub check_existing-processing_record :
      (down : Bool) (key fingerprint : String) (r : R)
      → Held key (processing_record redis codec fingerprint) r
      → check_existing redis codec false down key fingerprint r ≡ wait
  unfolding check_existing
  check_existing-processing_record down key fingerprint r h =
      rw (h, lawful.read-write (processing_record redis codec fingerprint), eq_refl fingerprint)
        refl
