-- ===== src/Idempotency.antt =====
-- internal/platform/middleware/idempotency.go: the middleware that lets a POST or PATCH run once for each
-- Idempotency-Key.
pub mod Capture
pub mod Guard
pub mod Held
pub mod Replays
pub mod Exclusion
mod Examples
use Prim.Native.String.{◌++◌ as append}
use text.Mathlib.Text.{◌==◌ as str_eq}
use yop_pms.Prelude.{
  ℕ, ◌≡◌, String, Bool, true, false, not, ◌&&◌, ◌||◌, Option, none, some, List, [], ◌∷◌, leb, ltb,
  if◌then◌else◌,
}
use yop_pms.Redis.{Key, idempotency, Redis}
use Capture.{Call, Captured, capture}

-- What the middleware reads of a request; a body that cannot be read is `none`.
pub record Incoming : Type 0 where
  pub method : String
  pub key : String
  pub uri : String
  pub authorization : String
  pub body : Option String

-- idempotencyResponse
pub record SavedResponse : Type 0 where
  pub status : ℕ
  pub headers : List (String × String)
  pub body : String

-- idempotencyRecord
pub record SavedRecord : Type 0 where
  pub state : String
  pub fingerprint : String
  pub response : Option SavedResponse

abbrev pub state_processing : String
state_processing = "processing"

abbrev pub state_completed : String
state_completed = "completed"

-- encoding/json on a record, encoding/base64 on a body, and the hexadecimal text of crypto/sha256.
pub record Codec (V : Type 0) : Type 0 where
  pub write : SavedRecord → V
  pub read : V → Option SavedRecord
  pub encode : String → String
  pub decode : String → Option String
  pub digest : String → String

-- What their documentation says: what was written reads back.
pub record IsCodec {V : Type 0} (codec : Codec V) : Type 0 where
  pub read-write : (s : SavedRecord) → codec.read (codec.write s) ≡ some s
  pub decode-encode : (s : String) → codec.decode (codec.encode s) ≡ some s

-- What the client gets: what the handler writes, a saved response, an error of the middleware, or nothing.
pub data Sent : Type 0 where
  served : List Call → Sent
  replayed : ℕ → List (String × String) → String → Sent
  refused : ℕ → String → Sent
  dropped : Sent

-- What the attempt to reserve a key leads to.
pub data KeyReservation (R : Type 0) : Type 0 where
  acquired : R → KeyReservation R
  taken unreachable : KeyReservation R

-- What a look at an existing key leads to.
pub data Existing (R : Type 0) : Type 0 where
  handled : Sent → Existing R
  proceed : R → Existing R
  wait failed : Existing R

module _ {V R : Type 0} (redis : Redis V R) (codec : Codec V) where
  -- requestFingerprint
  unfoldable pub request_fingerprint : Incoming → String → String
  request_fingerprint req body = codec.digest (
      append req.method (
        append "\0" (
          append req.uri (
            append "\0"
              (append (codec.digest req.authorization) (append "\0" (codec.digest body)))))))

  abbrev reserved : Option R → KeyReservation R
  reserved none = taken
  reserved (some r) = acquired r

  abbrev pub processing_record : String → SavedRecord
  processing_record fingerprint = record {
    state = state_processing;
    fingerprint = fingerprint;
    response = none;
  }

  -- reserveIdempotencyKey; `down` says that Redis gives an error.
  unfoldable pub reserve : Bool → String → String → R → KeyReservation R
  reserve true key fingerprint r = unreachable
  reserve false key fingerprint r =
      reserved (redis.set_nx (idempotency key) (codec.write (processing_record fingerprint)) r)

  -- replayCachedResponse
  abbrev decoded : SavedResponse → Option String → Sent
  decoded cached none = refused 500 "cached body is corrupted"
  decoded cached (some body) = replayed cached.status cached.headers body

  unfoldable pub replay : SavedResponse → Sent
  replay cached = decoded cached (codec.decode cached.body)

  abbrev corrupted : Existing R
  corrupted = handled (refused 500 "cached response is corrupted")

  abbrev completed : Option SavedResponse → Existing R
  completed none = corrupted
  completed (some response) = handled (replay response)

  abbrev examined : String → SavedRecord → Existing R
  examined fingerprint s =
      if not (str_eq s.fingerprint fingerprint)
      then handled (refused 409 "Idempotency-Key was already used for a different request")
      else if str_eq s.state state_completed
      then completed s.response
      else if str_eq s.state state_processing
      then wait
      else corrupted

  abbrev unmarshalled : String → Option SavedRecord → Existing R
  unmarshalled fingerprint none = corrupted
  unmarshalled fingerprint (some s) = examined fingerprint s

  abbrev tried : KeyReservation R → Existing R
  tried (acquired r) = proceed r
  tried taken = wait
  tried unreachable = failed

  abbrev looked : Bool → String → String → R → Option V → Existing R
  looked down key fingerprint r none = tried (reserve down key fingerprint r)
  looked down key fingerprint r (some v) = unmarshalled fingerprint (codec.read v)

  -- checkExistingIdempotencyKey
  unfoldable pub check_existing : Bool → Bool → String → String → R → Existing R
  check_existing get_down set_down key fingerprint r =
      if get_down then failed else looked set_down key fingerprint r (redis.get (idempotency key) r)
