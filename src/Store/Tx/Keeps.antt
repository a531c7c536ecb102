-- ===== src/Store/Tx/Keeps.antt =====
-- What a chain of statements keeps: a rule for each way to build one.
use yop_pms.Prelude.{
  Bool, true, false, Option, none, some, ℕ, if◌then◌else◌, Bool-cases, Option-cases, inl, inr,
}
use yop_pms.Store.{
  Db, Env, Err, ApiError, PgError, Query, Result, ok, err, api, no_rows, pg, plain, unexpected,
  commit,
}
use yop_pms.Store.Tx.{
  Tx, continue, ◌>>=◌, return, throw_if, fail_if, statement, attempt, recover, ◌no_rows_as◌,
  or_no_rows, finish, opening, execute_tx,
}

-- `P` of the tables that a chain leaves, where it does not fail.
abbrev pub After : {A : Type 0} → (Db → Type 0) → Result (A × Db) → Type 0
After P (ok (a, db)) = P db
After P (err e) = Unit

-- `m` keeps `P`, where it does not fail.
pub record Keeps {A : Type 0} (P : Db → Type 0) (m : Tx A) : Type 0 where
  pub at : (db : Db) → P db → After P (m db)

refused-After :
    {A : Type 0} (P : Db → Type 0) (r : Result (A × Db)) (e : ApiError)
    → After P r
    → After P (or_no_rows e r)
refused-After P (ok r) e h = h
refused-After P (err (api x)) e h = tt
refused-After P (err no_rows) e h = tt
refused-After P (err (pg x)) e h = tt
refused-After P (err plain) e h = tt

statement-After :
    {A : Type 0} (P : Db → Type 0) (b : Bool) (fault : Option PgError) (r : Result (A × Db))
    → After P r
    → After P (if b then err (pg unexpected) else elim fault [ some e ↦ err (pg e) | none ↦ r ])
statement-After P true fault r h = tt
statement-After P false none r h = h
statement-After P false (some e) r h = tt

module _ {A : Type 0} {P : Db → Type 0} where
  pub Keeps-return : (a : A) → Keeps P (return a)
  Keeps-return a = record { at = λ db h. h }

  pub continue-After :
      {B : Type 0} (r : Result (A × Db)) (f : A → Tx B)
      → After P r
      → ((a : A) → Keeps P (f a))
      → After P (continue r f)
  continue-After (ok (a, db)) f h k = (k a).at db h
  continue-After (err e) f h k = tt

  pub Keeps-bind :
      {B : Type 0} (m : Tx A) (f : A → Tx B)
      → Keeps P m
      → ((a : A) → Keeps P (f a))
      → Keeps P (m >>= f)
  Keeps-bind m f km kf = record { at = λ db h. continue-After (m db) f (km.at db h) kf }

  pub Keeps-if : (b : Bool) (m n : Tx A) → Keeps P m → Keeps P n → Keeps P (if b then m else n)
  Keeps-if true m n km kn = km
  Keeps-if false m n km kn = kn

  pub Keeps-no_rows_as : (m : Tx A) (e : ApiError) → Keeps P m → Keeps P (m no_rows_as e)
  Keeps-no_rows_as m e km = record { at = λ db h. refused-After P (m db) e (km.at db h) }

  pub Keeps-statement :
      (env : Env) (q : Query) (k : ℕ) (body : Tx A)
      → Keeps P body
      → Keeps P (statement env q k body)
  Keeps-statement env q k body kb = record {
    at = λ db h. statement-After P db.aborted (env.fault q k) (body db) (kb.at db h);
  }

module _ {P : Db → Type 0} where
  pub Keeps-throw_if : (b : Bool) (e : ApiError) → Keeps P (throw_if b e)
  Keeps-throw_if true e = record { at = λ db h. tt }
  Keeps-throw_if false e = record { at = λ db h. h }

  pub Keeps-fail_if : (b : Bool) (e : Err) → Keeps P (fail_if b e)
  Keeps-fail_if true e = record { at = λ db h. tt }
  Keeps-fail_if false e = record { at = λ db h. h }

module _ {A : Type 0} {P : Db → Type 0}
    (blind : (db : Db) (b : Bool) → P db → P (record db { aborted = b })) where
  recover-After : (db : Db) (r : Result (A × Db)) → P db → After P r → After P (recover db r)
  recover-After db (ok (a, db')) h k = k
  recover-After db (err (api e)) h k = h
  recover-After db (err no_rows) h k = h
  recover-After db (err (pg e)) h k = blind db true h
  recover-After db (err plain) h k = h

  pub Keeps-attempt : (m : Tx A) → Keeps P m → Keeps P (attempt m)
  Keeps-attempt m km = record { at = λ db h. recover-After db (m db) h (km.at db h) }

module _ {A : Type 0} (P : Db → Type 0) where
  pub finish_keeps :
      (env : Env) (db : Db) (r : Result (A × Db)) → P db → After P r → P (finish env db r).db
  unfolding finish
  finish_keeps env db (err e) h k = h
  finish_keeps env db (ok (a, db')) h k = elim (Option-cases (env.fault commit 0)) [
    | inl e ↦ elim (Bool-cases db'.aborted) [
      | inl b ↦ rw (e, b, finish) h
      | inr b ↦ rw (e, finish) (simp b k)
    ]
    | inr (x, e) ↦ rw (e, finish) h
  ]

  -- A request keeps what its chain of statements keeps.
  pub execute_tx-keeps :
      (env : Env) (body : Tx A) (db : Db) → Keeps P body → P db → P (execute_tx env body db).db
  unfolding execute_tx
  execute_tx-keeps env body db kb h = elim (Option-cases (opening env)) [
    | inl e ↦ rw (e, execute_tx) (finish_keeps env db (body db) h (kb.at db h))
    | inr (x, e) ↦ rw (e, execute_tx) h
  ]

pub ruleset keeps_rules = (
  Keeps-return, Keeps-bind, Keeps-if, Keeps-no_rows_as, Keeps-statement, Keeps-throw_if,
  Keeps-fail_if,
)
