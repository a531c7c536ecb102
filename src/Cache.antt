-- ===== src/Cache.antt =====
-- internal/platform/cache/cache.go: the client of the cache, over a Redis server whose keys are texts.
pub mod Invalidation
pub mod Evictions
pub mod Described
pub mod Changes
pub mod ReadThrough
mod Examples
use Prim.Native.String.{◌++◌ as append}
use yop_pms.Prelude.{
  ℕ, ◌≡◌, String, Bool, true, false, not, ◌&&◌, Option, none, some, List, [], ◌∷◌, ◌==◌,
  if◌then◌else◌, select_where, is_nil,
}
use yop_pms.Prelude.Dict.{contains_text}

-- GET, SET with the seconds after which the entry expires, and DEL of several keys, over a store `R` of values
-- `V`.
pub record Server (V R : Type 0) : Type 0 where
  pub get : String → R → Option V
  pub set : String → V → ℕ → R → R
  pub del : List String → R → R

-- What their documentation says of them, where no entry expires in between.
pub record IsServer {V R : Type 0} (server : Server V R) : Type 0 where
  pub get-set_same :
      (k : String) (v : V) (ttl : ℕ) (r : R) → server.get k (server.set k v ttl r) ≡ some v
  pub get-del :
      (k : String) (ks : List String) (r : R)
      → server.get k (server.del ks r) ≡ (if contains_text k ks then none else server.get k r)

-- json.Marshal, and json.Unmarshal into a destination: what it leaves there, and whether it succeeds.
pub record Codec (A V : Type 0) : Type 0 where
  pub marshal : A → Option V
  pub unmarshal : V → A → A × Bool

-- A round of SCAN and DEL: the server's reply, the keys of a page and the next cursor, or an error; and
-- whether a DEL that follows succeeds.
pub record Round : Type 0 where
  pub page : Option (List String × ℕ)
  pub deletes : Bool

-- How an invalidation ends.
pub data Invalidated : Type 0 where
  invalidated scan_error delete_error : Invalidated

-- How a read ends: with a value, a miss, an error of Redis, or text that cannot be decoded.
pub data Read : Type 0 where
  hit miss redis_error undecodable : Read

abbrev read_of : {A : Type 0} → A × Bool → A × Read
read_of (dst, true) = (dst, hit)
read_of (dst, false) = (dst, undecodable)

-- The end of a round: the scan is over when the cursor is 0 again.
abbrev turn : {R : Type 0} → ℕ → (R → Invalidated × R) → R → Invalidated × R
turn cursor next r = if cursor == 0 then (invalidated, r) else next r

module _ {V R : Type 0} (server : Server V R) where
  abbrev pub drop_page :
      Option (List String × ℕ) → Bool → (R → Invalidated × R) → R → Invalidated × R
  drop_page none deletes next r = (scan_error, r)
  drop_page (some (keys, cursor)) deletes next r =
      if is_nil keys
      then turn cursor next r
      else if deletes
      then turn cursor next (server.del keys r)
      else (delete_error, r)

  -- Invalidate, by the rounds that the server's replies make up. Without a reply the connection is gone.
  unfoldable pub invalidate : List Round → R → Invalidated × R
  invalidate [] r = (scan_error, r)
  invalidate (round ∷ rounds) r = drop_page round.page round.deletes (invalidate rounds) r

  module _ (should_delete : String → Bool) where
    abbrev pub drop_some :
        Option (List String × ℕ) → Bool → (R → Invalidated × R) → R → Invalidated × R
    drop_some none deletes next r = (scan_error, r)
    drop_some (some (keys, cursor)) deletes next r =
        let to_delete = select_where should_delete keys in
        if is_nil to_delete
        then turn cursor next r
        else if deletes
        then turn cursor next (server.del to_delete r)
        else (delete_error, r)

    -- InvalidateIf
    unfoldable pub invalidate_if : List Round → R → Invalidated × R
    unfolding select_where
    invalidate_if [] r = (scan_error, r)
    invalidate_if (round ∷ rounds) r = drop_some round.page round.deletes (invalidate_if rounds) r

  module _ {A : Type 0} (codec : Codec A V) (prefix : String) where
    abbrev decoded : A → Option V → A × Read
    decoded dst none = (dst, miss)
    decoded dst (some v) = read_of (codec.unmarshal v dst)

    -- Get into `dst`; `answers` says whether Redis does.
    unfoldable pub get_value : Bool → String → A → R → A × Read
    get_value answers key dst r =
        if answers then decoded dst (server.get (append prefix key) r) else (dst, redis_error)

    abbrev stored : Bool → String → ℕ → Option V → R → R
    stored writes key ttl none r = r
    stored writes key ttl (some v) r = if writes then server.set (append prefix key) v ttl r else r

    -- Set
    unfoldable pub set_value : Bool → String → A → ℕ → R → R
    set_value writes key a ttl r = stored writes key ttl (codec.marshal a) r

    -- Delete
    unfoldable pub delete_value : Bool → String → R → R
    delete_value deletes key r = if deletes then server.del (append prefix key ∷ []) r else r

    abbrev again : A → Option V → A × Bool
    again dst none = (dst, false)
    again dst (some v) = codec.unmarshal v dst

    abbrev pub loaded : Bool → String → A → ℕ → Option A → R → (A × Bool) × R
    loaded writes key dst ttl none r = ((dst, false), r)
    loaded writes key dst ttl (some a) r =
        (again dst (codec.marshal a), set_value writes key a ttl r)

    -- What the read has left in the destination stays there for the decoding of the loader's value.
    abbrev pub read_or_load : Bool → String → ℕ → Option A → R → A × Read → (A × Bool) × R
    read_or_load writes key ttl value r (dst, hit) = ((dst, true), r)
    read_or_load writes key ttl value r (dst, _) = loaded writes key dst ttl value r

    -- GetOrSet: what is in the destination, and whether there is no error, with what the loader would answer.
    unfoldable pub get_or_set : Bool → Bool → String → A → ℕ → Option A → R → (A × Bool) × R
    unfolding get_value set_value
    get_or_set answers writes key dst ttl value r =
        read_or_load writes key ttl value r (get_value answers key dst r)
