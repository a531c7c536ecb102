-- ===== src/Idempotency/Exclusion.antt =====
-- Requests under Idempotency-Keys that run at once (internal/platform/middleware/idempotency.go): the
-- reservations, the ends of handlers and the expiries in Redis, in any order.
use text.Mathlib.Text.{◌==◌ as str_eq}
use text.Mathlib.TextPositions.{eq_refl}
use text.Mathlib.TextEquality.{eq_iff}
use yop_pms.Prelude.{
  ℕ, ◌+◌, ◌≤◌, ◌≡◌, refl, ap, subst, not, ◌&&◌, inl, inr, Bool-cases, String, Bool, true, false,
  Option, none, some, List, [], ◌∷◌, ◌++◌, if◌then◌else◌, count_where, arith,
}
use yop_pms.Redis.{idempotency, Redis, IsRedis}
use yop_pms.Idempotency.Capture.{Captured}
use yop_pms.Idempotency.{
  SavedRecord, state_processing, Codec, IsCodec, acquired, reserve, processing_record,
}
use yop_pms.Idempotency.Guard.{cached_response, save}

-- A handler that runs behind the middleware, with its key and fingerprint, and whether its key was reserved.
pub record Running : Type 0 where
  pub key : String
  pub fingerprint : String
  pub guarded : Bool

-- Redis, the handlers that run, the keys whose lock has expired, once for each expiry, and the keys of the
-- requests that were let through because Redis gave an error.
pub record World (R : Type 0) : Type 0 where
  pub store : R
  pub running : List Running
  pub lapsed : List String
  pub let_through : List String

module _ {V R : Type 0} (redis : Redis V R) (codec : Codec V) where
  abbrev is_lock_record : Option SavedRecord → Bool
  is_lock_record none = false
  is_lock_record (some s) = str_eq s.state state_processing

  abbrev is_lock_value : Option V → Bool
  is_lock_value none = false
  is_lock_value (some v) = is_lock_record (codec.read v)

  -- The key holds the lock of a request that runs.
  abbrev pub is_locked : String → R → Bool
  is_locked key r = is_lock_value (redis.get (idempotency key) r)

  -- What the end of a handler does to Redis: nothing where its key was not reserved.
  abbrev pub after_run : Running → Bool → Captured → R → R
  after_run h down rc r = if h.guarded then save redis codec down h.key h.fingerprint rc r else r

  -- One step: a request reserves its key and starts its handler, Redis gives an error and the handler starts
  -- without, a handler ends and its response is saved or its key deleted, or a key expires.
  pub data Step (w : World R) : World R → Type 0 where
    starts :
        (key fingerprint : String) (r : R)
        → reserve redis codec false key fingerprint w.store ≡ acquired r
        → Step w (record {
          store = r;
          running = record { key = key; fingerprint = fingerprint; guarded = true } ∷ w.running;
          lapsed = w.lapsed;
          let_through = w.let_through;
        })
    fails_open :
        (key fingerprint : String)
        → Step w (record {
          store = w.store;
          running = record { key = key; fingerprint = fingerprint; guarded = false } ∷ w.running;
          lapsed = w.lapsed;
          let_through = key ∷ w.let_through;
        })
    ends :
        (before after : List Running) (h : Running) (down : Bool) (rc : Captured)
        → w.running ≡ before ++ (h ∷ after)
        → Step w (record {
          store = after_run h down rc w.store;
          running = before ++ after;
          lapsed = w.lapsed;
          let_through = w.let_through;
        })
    expires :
        (key : String)
        → Step w (record {
          store = redis.del (idempotency key) w.store;
          running = w.running;
          lapsed = if is_locked key w.store then key ∷ w.lapsed else w.lapsed;
          let_through = w.let_through;
        })

  pub data Reach (r : R) : World R → Type 0 where
    start : Reach r (record { store = r; running = []; lapsed = []; let_through = [] })
    later : {v w : World R} → Reach r v → Step v w → Reach r w

  abbrev pub running_under : String → World R → ℕ
  running_under key w = count_where (λ h. str_eq h.key key) w.running

  abbrev pub lapses_of : String → World R → ℕ
  lapses_of key w = count_where (λ k. str_eq k key) w.lapsed

  -- The runs under a key that were started without its reservation, ended ones included.
  abbrev pub failures_of : String → World R → ℕ
  failures_of key w = count_where (λ k. str_eq k key) w.let_through

  abbrev locks : String → R → ℕ
  locks key r = if is_locked key r then 1 else 0

  module _ (laws : IsRedis redis) (lawful : IsCodec codec) where
    unfoldable Bounded : String → World R → Type 0
    Bounded key w = running_under key w ≤ locks key w.store + lapses_of key w + failures_of key w

    count-split :
        (p : Running → Bool) (before after : List Running) (h : Running)
        → count_where p (before ++ (h ∷ after))
          ≡ (if p h then 1 else 0) + count_where p (before ++ after)
    unfolding count_where
    count-split p [] after h = ground arith
    count-split p (x ∷ before) after h = ground (arith, count-split p before after h)

    set-locked :
        (k key : String) (s : SavedRecord) (r : R)
        → is_locked k (redis.set (idempotency key) (codec.write s) r)
          ≡ (if str_eq key k then str_eq s.state state_processing else is_locked k r)
    set-locked k key s r = elim (Bool-cases (str_eq key k)) [
      | inl e ↦
          subst
            (λ x.
              is_locked x (redis.set (idempotency key) (codec.write s) r)
              ≡ (if str_eq key x then str_eq s.state state_processing else is_locked x r))
            ((eq_iff key k).0 e)
            (rw
              (
                laws.get-set_same (idempotency key) (codec.write s) r,
                lawful.read-write s,
                eq_refl key,
              )
              refl)
      | inr e ↦
          rw (laws.get-set_other (idempotency key) (idempotency k) (codec.write s) r e, e) refl
    ]

    del-locked :
        (k key : String) (r : R)
        → is_locked k (redis.del (idempotency key) r)
          ≡ (if str_eq key k then false else is_locked k r)
    del-locked k key r = elim (Bool-cases (str_eq key k)) [
      | inl e ↦
          subst
            (λ x.
              is_locked x (redis.del (idempotency key) r)
              ≡ (if str_eq key x then false else is_locked x r))
            ((eq_iff key k).0 e) (rw (laws.get-del_same (idempotency key) r, eq_refl key) refl)
      | inr e ↦ rw (laws.get-del_other (idempotency key) (idempotency k) r e, e) refl
    ]

    locked-same : (k key : String) (r : R) → str_eq key k ≡ true → is_locked key r ≡ is_locked k r
    locked-same k key r e = ap (λ x. is_locked x r) ((eq_iff key k).0 e)

    reserve-locked :
        (k key fingerprint : String) (r r' : R)
        → reserve redis codec false key fingerprint r ≡ acquired r'
        → (is_locked key r ≡ false)
          × (is_locked k r' ≡ (if str_eq key k then true else is_locked k r))
    unfolding reserve
    reserve-locked k key fingerprint r r' e = ground (
      arith,
      e,
      laws.set_nx-get (idempotency key) (codec.write (processing_record redis codec fingerprint)) r,
      set-locked k key (processing_record redis codec fingerprint) r,
    )

    save-locked :
        (k key fingerprint : String) (down : Bool) (rc : Captured) (r : R)
        → is_locked k (save redis codec down key fingerprint rc r)
          ≡ (if str_eq key k && not down then false else is_locked k r)
    unfolding save cached_response
    save-locked k key fingerprint true rc r = ground arith
    save-locked k key fingerprint false rc r =
        ground (
          arith,
          del-locked k key r,
          set-locked k key (cached_response redis codec fingerprint rc) r,
        )

    -- Each step keeps the handlers under a key within its lock and the expiries of its lock.
    step-Bounded : (k : String) (v w : World R) → Step v w → Bounded k v → Bounded k w
    unfolding Bounded count_where
    step-Bounded k v _ (starts key fingerprint r e) h =
        ground (arith, h, reserve-locked k key fingerprint v.store r e, locked-same k key v.store)
    step-Bounded k v _ (ends before after x down rc e) h = ground (
      arith,
      h,
      save-locked k x.key x.fingerprint down rc v.store,
      count-split (λ y. str_eq y.key k) before after x,
      ap (count_where (λ y. str_eq y.key k)) e,
    )
    step-Bounded k v _ (fails_open key fingerprint) h = ground (arith, h)
    step-Bounded k v _ (expires key) h =
        ground (arith, h, del-locked k key v.store, locked-same k key v.store)

    Reach-Bounded : (r : R) (w : World R) (key : String) → Reach r w → Bounded key w
    unfolding Bounded count_where
    Reach-Bounded r _ key start = ground arith
    Reach-Bounded r w key (later {v = v} h t) = step-Bounded key v w t (Reach-Bounded r v key h)

    locks_le : (key : String) (r : R) → locks key r ≤ 1
    locks_le key r = ground arith

    -- However the requests run, the handlers that run at once under one Idempotency-Key are at most
    -- one more than the number of times that its lock has expired, plus the number of requests with it that
    -- were let through at an error of Redis.
    pub Reach-exclusive :
        (r : R) (w : World R) (key : String)
        → Reach r w
        → running_under key w ≤ 1 + lapses_of key w + failures_of key w
    unfolding count_where Bounded
    Reach-exclusive r w key h = omega (arith, Reach-Bounded r w key h, locks_le key w.store)
