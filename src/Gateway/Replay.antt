-- ===== src/Gateway/Replay.antt =====
-- The order of the middleware in cmd/server/api.go: `Idempotency` comes before `StubAuth`.
use yop_pms.Prelude.{◌≡◌, String, true, false, none, some}
use yop_pms.Redis.{idempotency, Redis, IsRedis}
use yop_pms.Idempotency.Capture.{capture}
use yop_pms.Idempotency.{Incoming, Codec, IsCodec, replayed}
use yop_pms.Idempotency.Guard.{Wait, Run, is_success, guard}
use yop_pms.Idempotency.Replays.{Guarded, guard-replays}
use yop_pms.Gateway.{HttpRequest}

-- A request with what the idempotency middleware reads of it besides its body.
pub record Sending : Type 0 where
  pub method : String
  pub uri : String
  pub key : String
  pub authorization : String
  pub http : HttpRequest

-- What the middleware sees; the property, the permissions and the version are not in it.
abbrev pub incoming_of : Sending → Incoming
incoming_of s = record {
  method = s.method;
  key = s.key;
  uri = s.uri;
  authorization = s.authorization;
  body = some s.http.body;
}

module _ {V R : Type 0} (redis : Redis V R) (codec : Codec V) (laws : IsRedis redis)
    (lawful : IsCodec codec) where
  -- A request with the method, URI, key, authorization and body of one that succeeded before is
  -- answered with that one's response and does not reach the check of its property and its
  -- permissions, whatever these and its version are. Redis answers, the key was free before the
  -- first, and others leave its record as it is.
  pub guard-ignores_property :
      (w w' : Wait R) (run run' : Run R) (first second : Sending) (r : R)
      → Guarded redis codec laws lawful (incoming_of first) first.http.body
      → incoming_of second ≡ incoming_of first
      → redis.get (idempotency first.key) r ≡ none
      → run.save_down ≡ false
      → is_success redis codec (capture run.calls).status ≡ true
      → w'.first.get_down ≡ false
      → ((x : R)
          → redis.get (idempotency first.key) (w'.first.others x)
            ≡ redis.get (idempotency first.key) x)
      → guard redis codec false w' run'
          (incoming_of second)
          (guard redis codec false w run (incoming_of first) r).store
        ≡ record {
          sent =
              replayed
                (capture run.calls).status
                (capture run.calls).headers_copy
                (capture run.calls).body;
          ran = false;
          store = w'.first.others (guard redis codec false w run (incoming_of first) r).store;
        }
  guard-ignores_property w w' run run' first second r g e n d ok u others = rw e (
      guard-replays redis codec laws lawful w w' run run' (incoming_of first) first.http.body r g n
        d ok u others)
