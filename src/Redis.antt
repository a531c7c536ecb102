-- ===== src/Redis.antt =====
-- The Redis server, as internal/booking/availability.go and internal/platform/middleware/idempotency.go
-- use it: a store that the code reaches through single commands.
pub mod Table
use text.Mathlib.Text.{◌==◌ as str_eq}
use yop_pms.Prelude.{
  ℕ, String, ◌≡◌, Bool, true, false, Option, none, some, ◌==◌, ◌&&◌, if◌then◌else◌, is_none,
}

-- A key, by what the code formats into its text. UUIDs and dates have texts of a fixed length, so
-- that the text of a key determines these parts; an idempotency key comes after its prefix whole.
pub data Key : Type 0 where
  availability : ℕ → ℕ → ℕ → Key
  idempotency : String → Key

abbrev pub same_key : Key → Key → Bool
same_key (availability p t d) (availability p' t' d') = p == p' && t == t' && d == d'
same_key (idempotency k) (idempotency k') = str_eq k k'
same_key _ _ = false

-- The commands, over a store `R` of values `V`: GET, SET, SET with the mode NX, which says whether it has set
-- the value, and DEL.
pub record Redis (V R : Type 0) : Type 0 where
  pub get : Key → R → Option V
  pub set : Key → V → R → R
  pub set_nx : Key → V → R → Option R
  pub del : Key → R → R

-- What their documentation says of them, for a key that has not expired.
pub record IsRedis {V R : Type 0} (redis : Redis V R) : Type 0 where
  pub get-set_same : (k : Key) (v : V) (r : R) → redis.get k (redis.set k v r) ≡ some v
  pub get-set_other :
      (k j : Key) (v : V) (r : R)
      → same_key k j ≡ false
      → redis.get j (redis.set k v r) ≡ redis.get j r
  pub set_nx-get :
      (k : Key) (v : V) (r : R)
      → redis.set_nx k v r ≡ (if is_none (redis.get k r) then some (redis.set k v r) else none)
  pub get-del_same : (k : Key) (r : R) → redis.get k (redis.del k r) ≡ none
  pub get-del_other :
      (k j : Key) (r : R) → same_key k j ≡ false → redis.get j (redis.del k r) ≡ redis.get j r
