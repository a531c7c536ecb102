-- ===== src/Store/Tx.antt =====
-- Transactions: a chain of statements over the tables that stops at the first error, and
-- `ExecuteTx` of internal/platform/db/tx.go, which commits its result or rolls it back.
pub mod Keeps
use yop_pms.Prelude.{
  ℕ, ◌≡◌, refl, Bool, true, false, Option, none, some, List, [], ◌∷◌, ◌==◌, if◌then◌else◌, arith,
}
use yop_pms.Store.{
  Db, Env, Err, ApiError, PgError, Query, Result, ok, err, api, no_rows, pg, plain, not_found,
  bad_request, conflict, internal_error, unprocessable, unique_violation, foreign_key_violation,
  check_violation, exclusion_violation, raise_exception, unexpected, nil_uuid, begin, commit,
  set_property, set_user,
}

abbrev pub Tx : Type 0 → Type 0
Tx A = Db → Result (A × Db)

-- The rest of a chain after a step.
abbrev pub continue : {A B : Type 0} → Result (A × Db) → (A → Tx B) → Result (B × Db)
continue (ok (a, db)) f = f a db
continue (err e) f = err e

infixl 5 ◌>>=◌ ◌>>◌
abbrev pub ◌>>=◌ : {A B : Type 0} → Tx A → (A → Tx B) → Tx B
◌>>=◌ m f db = continue (m db) f

abbrev pub ◌>>◌ : {A B : Type 0} → Tx A → Tx B → Tx B
m >> k = m >>= λ _. k

abbrev pub return : {A : Type 0} → A → Tx A
return a db = ok (a, db)

abbrev pub throw : {A : Type 0} → ApiError → Tx A
throw e db = err (api e)

-- if test { return nil, e }
abbrev pub throw_if : Bool → ApiError → Tx (Unit {0})
throw_if true e db = err (api e)
throw_if false e db = ok (tt, db)

abbrev pub fail_if : Bool → Err → Tx (Unit {0})
fail_if true e db = err e
fail_if false e db = ok (tt, db)

-- A statement that the database may refuse, and does in an aborted transaction.
abbrev pub statement : {A : Type 0} → Env → Query → ℕ → Tx A → Tx A
statement env q k body db =
    if db.aborted
    then err (pg unexpected)
    else elim (env.fault q k) [ some e ↦ err (pg e) | none ↦ body db ]

-- A statement whose error the caller handles and goes on from: a PostgreSQL error has aborted the
-- transaction, an empty answer has not.
abbrev pub recover : {A : Type 0} → Db → Result (A × Db) → Result (Result A × Db)
recover db (ok (a, db')) = ok (ok a, db')
recover db (err (pg e)) = ok (err (pg e), record db { aborted = true })
recover db (err e) = ok (err e, db)

abbrev pub attempt : {A : Type 0} → Tx A → Tx (Result A)
attempt m db = recover db (m db)

-- errors.Is(err, pgx.ErrNoRows) → e
abbrev pub or_no_rows : {A : Type 0} → ApiError → Result (A × Db) → Result (A × Db)
or_no_rows e (ok r) = ok r
or_no_rows e (err no_rows) = err (api e)
or_no_rows e (err other) = err other

infixl 6 ◌no_rows_as◌
abbrev pub ◌no_rows_as◌ : {A : Type 0} → Tx A → ApiError → Tx A
◌no_rows_as◌ m e db = or_no_rows e (m db)

-- MapPostgresError
unfoldable pub map_postgres_error : PgError → ApiError
map_postgres_error unique_violation = conflict
map_postgres_error foreign_key_violation = bad_request
map_postgres_error check_violation = unprocessable
map_postgres_error exclusion_violation = conflict
map_postgres_error raise_exception = unprocessable
map_postgres_error unexpected = internal_error

-- The error that `ExecuteTx` makes of its body's: an API error as it is, any other mapped.
unfoldable pub surface : Err → ApiError
unfolding map_postgres_error
surface (api e) = e
surface (pg e) = map_postgres_error e
surface no_rows = internal_error
surface plain = internal_error

-- What a request leaves behind: its answer, and the tables as they are committed.
pub record Reply (A : Type 0) : Type 0 where
  pub result : Result A
  pub db : Db

-- The body's outcome, rolled back unless it and the commit succeed; an aborted transaction does not
-- commit.
unfoldable pub finish : {A : Type 0} → Env → Db → Result (A × Db) → Reply A
unfolding surface
finish env db (err e) = record { result = err (api (surface e)); db = db }
finish env db (ok (a, db')) = elim (env.fault commit 0) [
  | some e ↦ record { result = err (pg e); db = db }
  | none ↦
      if db'.aborted
      then record { result = err plain; db = db }
      else record { result = ok a; db = db' }
]

-- The steps of `ExecuteTx` before its body: `none` where they pass.
unfoldable pub opening : Env → Option Err
opening env = elim (env.fault begin 0) [
  | some e ↦ some (pg e)
  | none ↦
      if env.property == nil_uuid then some (api bad_request) else elim (env.fault set_property 0) [
        | some e ↦ some (pg e)
        | none ↦
            if env.user == nil_uuid
            then none
            else elim (env.fault set_user 0) [ some e ↦ some (pg e) | none ↦ none ]
      ]
]

unfoldable pub execute_tx : {A : Type 0} → Env → Tx A → Db → Reply A
unfolding finish opening
execute_tx env body db = elim (opening env) [
  | some e ↦ record { result = err e; db = db }
  | none ↦ finish env db (body db)
]

-- A failed request leaves the tables as they were.
pub execute_tx_rollback :
    {A : Type 0} (env : Env) (body : Tx A) (db : Db) (e : Err)
    → (execute_tx env body db).result ≡ err e
    → (execute_tx env body db).db ≡ db
unfolding execute_tx
execute_tx_rollback env body db e h = ground arith

-- A successful request ran its body to the end, in its own property, and committed what it wrote.
pub execute_tx_commit :
    {A : Type 0} (env : Env) (body : Tx A) (db : Db) (a : A)
    → (execute_tx env body db).result ≡ ok a
    → (body db ≡ ok (a, (execute_tx env body db).db)) × ((env.property == nil_uuid) ≡ false)
unfolding execute_tx
execute_tx_commit env body db a h = ground arith
