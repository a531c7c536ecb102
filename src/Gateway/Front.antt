-- ===== src/Gateway/Front.antt =====
-- What the middleware lets through (internal/platform/middleware, internal/booking/router.go).
use yop_pms.Prelude.{
  ℕ, ◌≡◌, inl, inr, refl, subst, true, Option, none, some, if◌then◌else◌, Bool-cases,
}
use yop_pms.Store.{Env, holds}
use yop_pms.Gateway.{
  Route, HttpRequest, Formats, Entry, turned_away, admitted, permission_of, needs_version,
  permissions_of, version_of, front, permitted, versioned, matched, in_context, authenticated,
  is_empty,
}

module _ (f : Formats) where
  -- What the middleware has checked of the context that a handler gets.
  pub record Checked (route : Route) (req : HttpRequest) (env : Env) : Type 0 where
    pub property : f.parse_uuid req.property_header ≡ some env.property
    pub permissions : env.permissions ≡ permissions_of f req.permissions_header
    pub permission : holds env.permissions (permission_of route) ≡ true
    pub version :
        (if needs_version route then version_of f req.if_match_header else some 0)
        ≡ some env.if_match

  abbrev pub OnlyChecked : Route → HttpRequest → Entry → Type 0
  OnlyChecked route req (turned_away status) = Unit
  OnlyChecked route req (admitted env) = Checked route req env

  permitted-OnlyChecked :
      (route : Route) (req : HttpRequest) (env : Env)
      → f.parse_uuid req.property_header ≡ some env.property
      → env.permissions ≡ permissions_of f req.permissions_header
      → (if needs_version route then version_of f req.if_match_header else some 0)
        ≡ some env.if_match
      → OnlyChecked route req (permitted f route env)
  permitted-OnlyChecked route req env p q v =
      elim (Bool-cases (holds env.permissions (permission_of route))) [
        | inl h ↦ rw h (record { property = p; permissions = q; permission = h; version = v })
        | inr h ↦ rw h tt
      ]

  versioned-OnlyChecked :
      (route : Route) (req : HttpRequest) (env : Env) (v : Option ℕ)
      → f.parse_uuid req.property_header ≡ some env.property
      → env.permissions ≡ permissions_of f req.permissions_header
      → (if needs_version route then version_of f req.if_match_header else some 0) ≡ v
      → OnlyChecked route req (versioned f route env v)
  versioned-OnlyChecked route req env none p q e = tt
  versioned-OnlyChecked route req env (some v) p q e =
      permitted-OnlyChecked route req (record env { if_match = v }) p q e

  matched-OnlyChecked :
      (route : Route) (req : HttpRequest) (env : Env)
      → f.parse_uuid req.property_header ≡ some env.property
      → env.permissions ≡ permissions_of f req.permissions_header
      → env.if_match ≡ 0
      → OnlyChecked route req (matched f route req env)
  matched-OnlyChecked route req env p q z = elim (Bool-cases (needs_version route)) [
    | inl n ↦
        rw n
          (versioned-OnlyChecked route req env (version_of f req.if_match_header) p q (rw n refl))
    | inr n ↦ rw n (permitted-OnlyChecked route req env p q (rw (n, z) refl))
  ]

  authenticated-OnlyChecked :
      (route : Route) (req : HttpRequest) (env : Env) (p : Option ℕ)
      → f.parse_uuid req.property_header ≡ p
      → OnlyChecked route req (authenticated f route req env p)
  authenticated-OnlyChecked route req env none e = tt
  authenticated-OnlyChecked route req env (some p) e =
      matched-OnlyChecked route req (in_context f env p (permissions_of f req.permissions_header)) e
        refl refl

  pub front-OnlyChecked :
      (route : Route) (req : HttpRequest) (env : Env)
      → OnlyChecked route req (front f route req env)
  unfolding front
  front-OnlyChecked route req env = elim (Bool-cases (is_empty req.property_header)) [
    | inl e ↦ rw e tt
    | inr e ↦ rw e (authenticated-OnlyChecked route req env (f.parse_uuid req.property_header) refl)
  ]

  -- A handler runs only for a request that names a property, holds the permission of its route and,
  -- where the route wants one, gives a version of at least 1; its context holds these.
  pub front-Checked :
      (route : Route) (req : HttpRequest) (env env' : Env)
      → front f route req env ≡ admitted env'
      → Checked route req env'
  front-Checked route req env env' h =
      subst (OnlyChecked route req) h (front-OnlyChecked route req env)
