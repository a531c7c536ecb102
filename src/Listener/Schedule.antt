-- ===== src/Listener/Schedule.antt =====
-- The waits between the connections of internal/platform/events/listener.go, and the handlers that an event calls.
use text.Mathlib.Text.{◌==◌ as str_eq}
use text.Mathlib.TextEquality.{eq_iff}
use yop_pms.Prelude.{
  ℕ, zero, suc, ◌+◌, ◌*◌, ◌^◌, ◌≡◌, refl, ap, String, Bool, true, false, Option, List, [], ◌∷◌,
  ◌++◌, ltb, if◌then◌else◌, length, append-empty, least, power-64, arith,
}
use yop_pms.Listener.{
  Registration, handlers_of, on, Connection, Session, Ending, lost, shut_down, connect, Log,
  followed, run_loop, run,
}

-- A handler is called for the channel that it was registered for, after those registered before,
-- and for no other.
pub handlers_of-on :
    (channel other : String) (handler : ℕ) (handlers : List Registration)
    → handlers_of other (on channel handler handlers)
      ≡ handlers_of other handlers ++ (if str_eq channel other then (handler ∷ []) else [])
unfolding handlers_of on
handlers_of-on channel other handler [] = refl
handlers_of-on channel other handler (r ∷ handlers) = ground (
  arith,
  handlers_of-on channel other handler handlers,
  eq_iff r.channel channel,
  eq_iff r.channel other,
  eq_iff channel other,
  append-empty r.handlers,
  append-empty (handlers_of other handlers),
)

-- The seconds to wait after the connection number `k`.
abbrev pub wait_after : ℕ → ℕ
wait_after k = least (2 ^ k) 64

unfoldable pub waits_from : ℕ → ℕ → List ℕ
waits_from k zero = []
waits_from k (suc n) = wait_after k ∷ waits_from (suc k) n

next-wait_high :
    (k j : ℕ)
    → k ≡ j + 6
    → (if ltb (wait_after k) 60 then wait_after k * 2 else wait_after k) ≡ wait_after (suc k)
next-wait_high k j h = ground (arith, power-64 k j h, power-64 (suc k) (suc j) (omega arith))

next-wait :
    (k : ℕ)
    → (if ltb (wait_after k) 60 then wait_after k * 2 else wait_after k) ≡ wait_after (suc k)
next-wait zero = refl
next-wait (suc zero) = refl
next-wait (suc (suc zero)) = refl
next-wait (suc (suc (suc zero))) = refl
next-wait (suc (suc (suc (suc zero)))) = refl
next-wait (suc (suc (suc (suc (suc zero))))) = refl
next-wait (suc (suc (suc (suc (suc (suc j)))))) =
    next-wait_high (suc (suc (suc (suc (suc (suc j)))))) j (omega arith)

module _ {D : Type 0} (parse : String → Option D) (handlers : List Registration) where
  followed-waits :
      (s : Session D) (stops : Bool) (k : ℕ) (later : Log D)
      → later.waits ≡ waits_from (suc k) (length later.waits)
      → (followed parse handlers s stops (wait_after k) later).waits
        ≡ waits_from k (length (followed parse handlers s stops (wait_after k) later).waits)
  unfolding waits_from
  followed-waits s stops k later h = go s.ending stops
    where
      go :
          (e : Ending) (b : Bool)
          → (followed parse handlers (record s { ending = e }) b (wait_after k) later).waits
            ≡ waits_from k (
                length
                  (followed parse handlers (record s { ending = e }) b (wait_after k) later).waits)
      go shut_down b = refl
      go lost true = refl
      go lost false = ap (λ l. wait_after k ∷ l) h

  run_loop-waits :
      (connections : List Connection) (k : ℕ) (again : Bool)
      → (run_loop parse handlers connections (wait_after k) again).waits
        ≡ waits_from k (length (run_loop parse handlers connections (wait_after k) again).waits)
  unfolding run_loop waits_from
  run_loop-waits [] k again = refl
  run_loop-waits (c ∷ connections) k again =
      followed-waits (connect parse handlers again c) c.stopped_waiting k _
        (rw (next-wait k) (run_loop-waits connections (suc k) true))

  -- Whatever the connections meet, the listener waits 1, 2, 4 seconds and so on after them, up to
  -- 64, and stays at 64: a connection that has served for however long does not set the wait back.
  pub run-waits :
      (connections : List Connection)
      → (run parse handlers connections).waits
        ≡ waits_from 0 (length (run parse handlers connections).waits)
  unfolding run
  run-waits connections = run_loop-waits connections 0 false
