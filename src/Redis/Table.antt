-- ===== src/Redis/Table.antt =====
-- A table of keys and values that satisfies what Redis.antt says of the server's commands (the client that
-- internal/platform/cache hands out).
use text.Mathlib.TextPositions.{eq_refl}
use text.Mathlib.TextEquality.{eq_iff}
use yop_pms.Prelude.{
  ◌≡◌, refl, ap, true, false, Option, none, some, List, [], ◌∷◌, ==_refl, if◌then◌else◌, is_none,
  delete_where, arith,
}
use yop_pms.Redis.{Key, availability, idempotency, same_key, Redis, IsRedis}

same_key_refl : (k : Key) → same_key k k ≡ true
same_key_refl (availability p t d) = ground (arith, ==_refl p, ==_refl t, ==_refl d)
same_key_refl (idempotency k) = eq_refl k

same_key-eq : (k j : Key) → same_key k j ≡ true → k ≡ j
same_key-eq (availability p t d) (availability p' t' d') h = ground arith
same_key-eq (availability p t d) (idempotency j) h = cc
same_key-eq (idempotency k) (availability p t d) h = cc
same_key-eq (idempotency k) (idempotency j) h = ap idempotency ((eq_iff k j).0 h)

module _ {V : Type 0} where
  unfoldable pub get : Key → List (Key × V) → Option V
  get k [] = none
  get k (e ∷ r) = let rest = get k r in if same_key e.0 k then some e.1 else rest

  unfoldable pub del : Key → List (Key × V) → List (Key × V)
  unfolding delete_where
  del k r = delete_where (λ e. same_key e.0 k) r

  unfoldable pub set_nx : Key → V → List (Key × V) → Option (List (Key × V))
  unfolding get
  set_nx k v r = if is_none (get k r) then some ((k, v) ∷ r) else none

  abbrev pub table : Redis V (List (Key × V))
  table = record { get = get; set = λ k v r. (k, v) ∷ r; set_nx = set_nx; del = del }

  get-del_same : (k : Key) (r : List (Key × V)) → get k (del k r) ≡ none
  unfolding get del delete_where
  get-del_same k [] = refl
  get-del_same k (e ∷ r) = ground (arith, get-del_same k r)

  get-del_other :
      (k j : Key) (r : List (Key × V)) → same_key k j ≡ false → get j (del k r) ≡ get j r
  unfolding get del delete_where
  get-del_other k j [] h = refl
  get-del_other k j (e ∷ r) h = ground (arith, get-del_other k j r h, same_key-eq e.0 k)

  pub table-IsRedis : IsRedis table
  unfolding get set_nx
  table-IsRedis = record {
    get-set_same = λ k v r. rw (same_key_refl k) refl;
    get-set_other = λ k j v r h. rw h refl;
    set_nx-get = λ k v r. refl;
    get-del_same = get-del_same;
    get-del_other = get-del_other;
  }
