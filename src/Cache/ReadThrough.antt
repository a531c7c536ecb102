-- ===== src/Cache/ReadThrough.antt =====
-- GetOrSet of internal/platform/cache/cache.go: a value that is loaded once.
use Prim.Native.String.{◌++◌ as append}
use yop_pms.Prelude.{ℕ, ◌≡◌, refl, ap, ◌∙◌, String, Bool, true, false, Option, some, arith}
use yop_pms.Cache.{
  Server, IsServer, Codec, Read, hit, miss, redis_error, undecodable, get_value, set_value,
  get_or_set, loaded, read_or_load,
}

-- Whether a read has found a value.
abbrev pub is_hit : Read → Bool
is_hit hit = true
is_hit _ = false

abbrev pub is_undecodable : Read → Bool
is_undecodable undecodable = true
is_undecodable _ = false

module _ {V R A : Type 0} (server : Server V R) (laws : IsServer server) (codec : Codec A V)
    (prefix : String) where
  no_hit :
      (writes : Bool) (key : String) (ttl : ℕ) (value : Option A) (r : R) (found : A × Read)
      → is_hit found.1 ≡ false
      → read_or_load server codec prefix writes key ttl value r found
        ≡ loaded server codec prefix writes key found.0 ttl value r
  no_hit writes key ttl value r (dst, hit) h = cc
  no_hit writes key ttl value r (dst, miss) h = refl
  no_hit writes key ttl value r (dst, redis_error) h = refl
  no_hit writes key ttl value r (dst, undecodable) h = refl

  loads :
      (answers writes : Bool) (key : String) (dst a : A) (v : V) (ttl : ℕ) (r : R)
      → is_hit (get_value server codec prefix answers key dst r).1 ≡ false
      → codec.marshal a ≡ some v
      → get_or_set server codec prefix answers writes key dst ttl (some a) r ≡ (
        codec.unmarshal v (get_value server codec prefix answers key dst r).0,
        set_value server codec prefix writes key a ttl r,
      )
  unfolding get_or_set
  loads answers writes key dst a v ttl r n e =
      no_hit writes key ttl (some a) r (get_value server codec prefix answers key dst r) n
      ∙ rw e refl

  hits :
      (key : String) (dst a b : A) (v : V) (ttl : ℕ) (r : R)
      → codec.marshal a ≡ some v
      → codec.unmarshal v dst ≡ (b, true)
      → get_value server codec prefix true key dst (set_value server codec prefix true key a ttl r)
        ≡ (b, hit)
  unfolding get_value set_value
  hits key dst a b v ttl r e d = rw (e, laws.get-set_same (append prefix key) v ttl r, d) refl

  -- A read that finds nothing, or an error of Redis, leaves the destination as it is.
  untouched :
      (answers : Bool) (key : String) (dst : A) (r : R)
      → is_hit (get_value server codec prefix answers key dst r).1 ≡ false
      → is_undecodable (get_value server codec prefix answers key dst r).1 ≡ false
      → (get_value server codec prefix answers key dst r).0 ≡ dst
  unfolding get_value
  untouched answers key dst r n m = ground (arith, n, m)

  -- Where the read gives no value, the destination is that of the loader's value, encoded and decoded over what
  -- the read has left there, which is what the caller had unless the read met text that it could not decode. If
  -- the value could be written, the next caller that can decode it is given it as well, whatever the loader would
  -- answer by then, and the cache stays as it is; the entry has not expired.
  pub get_or_set-loads :
      (answers writes : Bool) (key : String) (dst a : A) (v : V) (ttl : ℕ) (r : R)
      → is_hit (get_value server codec prefix answers key dst r).1 ≡ false
      → codec.marshal a ≡ some v
      → let left = get_value server codec prefix answers key dst r in
        let out = get_or_set server codec prefix answers writes key dst ttl (some a) r in
        (out.0 ≡ codec.unmarshal v left.0)
        × (is_undecodable left.1 ≡ false → out.0 ≡ codec.unmarshal v dst)
        × (writes ≡ true
            → (dst' b : A) (later : Option A) (written : Bool) (ttl' : ℕ)
            → codec.unmarshal v dst' ≡ (b, true)
            → get_or_set server codec prefix true written key dst' ttl' later out.1
              ≡ ((b, true), out.1))
  unfolding get_or_set
  get_or_set-loads answers writes key dst a v ttl r n e =
      let l = loads answers writes key dst a v ttl r n e in
      (
        ap (λ x. x.0) l,
        λ m. ap (λ x. x.0) l ∙ ap (codec.unmarshal v) (untouched answers key dst r n m),
        λ w dst' b later written ttl' d. rw (l, w, hits key dst' a b v ttl r e d) refl,
      )
