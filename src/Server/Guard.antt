-- ===== src/Server/Guard.antt =====
-- internal/server/authorization.go (requiredAdministrativePermission, currentAdministrativeRoles)
-- and internal/server/server.go adminGuard: who reaches the administrative handlers.
pub mod Passed
use Prim.Native.String.{String}
use stumpfworks_identity.Auth.Primitives.{Primitives}
use stumpfworks_identity.Auth.Permissions.{
  Role, Permission, admin, dashboard_read, identity_read, identity_write, credentials_read,
  credentials_write, audit_read, oidc_read, oidc_write, oidc_sessions_read, oidc_sessions_revoke,
  clients_read, client_updates_write, system_read, allowed,
}
use stumpfworks_identity.Auth.Sessions.{Sessions, verify_for, verify, verify_csrf}
use stumpfworks_identity.Store.Emergency.{active_emergency_admin_session}
use stumpfworks_identity.Store.Schema.{Database, is_null}
use stumpfworks_identity.Base.{
  ℕ, Bool, true, false, not, ◌&&◌, ◌||◌, Option, none, some, List, [], ◌∷◌, Text, codes, text_eq,
  strip_prefix, length, ◌==◌, if◌then◌else◌, ok, err, Faults,
}

-- The parts of an http.Request that the guard reads; a missing header or form value is empty.
pub record Request : Type 0 where
  pub path : Text
  pub method : Text
  pub emergency_cookie : Option Text
  pub admin_cookie : Option Text
  pub form_csrf : Text
  pub header_csrf : Text

-- directory.ErrNotAuthorized, or any other error of the directory.
pub data RoleError : Type 0 where
  not_authorized unavailable : RoleError

pub data Roles : Type 0 where
  found : List Role → Roles
  failing : RoleError → Roles

-- The server's parts that the guard uses; `directory` is `none` for an adapter that is not an
-- AdministrativeDirectory.
pub record Guarded : Type 0 where
  pub protect : Bool
  pub primitives : Primitives
  pub sessions : Sessions
  pub directory : Option (Text → Roles)

-- `passed none` is the call of the next handler with the request as it is, `passed (some roles)`
-- that with the roles in its context.
pub data Outcome : Type 0 where
  passed : Option (List Role) → Outcome
  csrf_invalid authorization_required authorization_unavailable : Outcome
  authentication_required redirected : Outcome

unfoldable pub has_prefix : Text → Text → Bool
has_prefix prefix t = not (is_null (strip_prefix prefix t))

unfoldable pub has_suffix : Text → Text → Bool
has_suffix suffix [] = text_eq [] suffix
has_suffix suffix (c ∷ t) = text_eq (c ∷ t) suffix || has_suffix suffix t

abbrev pub is : Text → String → Bool
is path s = text_eq path (codes s)

abbrev pub under : Text → String → Bool
under path s = has_prefix (codes s) path

unfoldable pub is_mutating : Text → Bool
is_mutating method = not (is method "GET") && (not (is method "HEAD") && not (is method "OPTIONS"))

unfoldable pub required_permission : Text → Bool → Permission
required_permission path mutating =
    if is path "/client-updates" || under path "/client-updates/"
    then (if mutating then client_updates_write else clients_read)
    else if is path "/audit"
    then audit_read
    else if is path "/oidc-clients" || under path "/oidc-clients/"
    then (if mutating then oidc_write else oidc_read)
    else if is path "/oidc-sessions" || under path "/oidc-sessions/"
    then (if mutating then oidc_sessions_revoke else oidc_sessions_read)
    else if is path "/api/v1/clients"
        || (is path "/clients" || is path "/api/v1/clients/certificates")
    then clients_read
    else if is path "/status"
    then system_read
    else if is path "/pin" || (under path "/users/" && has_suffix (codes "/pin") path)
    then (if mutating then credentials_write else credentials_read)
    else if is path "/badges"
        || (under path "/badges/" || (is path "/api/v1/badges" || under path "/api/v1/badges/"))
    then (if mutating then credentials_write else credentials_read)
    else if is path "/users"
        || (under path "/directory/users/"
            || (is path "/api/v1/users"
                || (under path "/api/v1/users/" || is path "/api/v1/directory/users")))
    then (if mutating then identity_write else identity_read)
    else dashboard_read

unfoldable pub is_exempt : Text → Bool
is_exempt path =
    is path "/login"
    || (is path "/emergency-login"
        || (is path "/api/v1/health"
            || (is path "/api/v1/client/status"
                || (is path "/api/v1/auth/badge"
                    || (is path "/api/v1/auth/pkinit"
                        || (is path "/.well-known/openid-configuration"
                            || (under path "/oauth2/"
                                || (under path "/self-service" || under path "/static/"))))))))

-- r.FormValue("_csrf"), or else the header.
abbrev pub csrf_token : Request → Text
csrf_token r = if length r.form_csrf == 0 then r.header_csrf else r.form_csrf

unfoldable pub csrf_holds : Guarded → Request → Text → Bool
csrf_holds g r cookie = verify_csrf g.primitives g.sessions cookie (csrf_token r)

unfoldable pub current_roles : Guarded → Text → Roles
current_roles g username = elim g.directory [
  | none ↦ found (admin ∷ [])
  | some roles ↦ roles username
]

abbrev pub hash_of : Primitives → Text → Text
hash_of p session = p.hex_encode (p.sha256 session)

-- Whether the emergency cookie is that of an active emergency session.
unfoldable pub emergency_holds : Guarded → Faults → ℕ → Database → Text → Bool
emergency_holds g faults now db cookie =
    elim (verify_for g.primitives g.sessions cookie (codes "emergency-admin") now) [
      | err e ↦ false
      | ok session ↦
          elim (active_emergency_admin_session faults (hash_of g.primitives session) now db) [
            | err e ↦ false
            | ok grant ↦ true
          ]
    ]

unfoldable pub emergency_branch : Guarded → Request → Text → Outcome
emergency_branch g r cookie =
    if is_mutating r.method && not (csrf_holds g r cookie)
    then csrf_invalid
    else passed (some (admin ∷ []))

unfoldable pub roles_branch : Guarded → Request → Text → Roles → Outcome
roles_branch g r cookie (failing not_authorized) = authorization_required
roles_branch g r cookie (failing unavailable) = authorization_unavailable
roles_branch g r cookie (found roles) =
    if not (allowed (required_permission r.path (is_mutating r.method)) roles)
    then authorization_required
    else if is_mutating r.method && not (csrf_holds g r cookie)
    then csrf_invalid
    else passed (some roles)

unfoldable pub user_branch : Guarded → Request → Text → Text → Outcome
user_branch g r cookie username =
    if is r.path "/logout"
    then (if csrf_holds g r cookie then passed none else csrf_invalid)
    else roles_branch g r cookie (current_roles g username)

unfoldable pub unauthenticated : Text → Outcome
unauthenticated path = if under path "/api/" then authentication_required else redirected

unfoldable pub admin_branch : Guarded → Request → ℕ → Outcome
admin_branch g r now = elim r.admin_cookie [
  | none ↦ unauthenticated r.path
  | some cookie ↦ elim (verify g.primitives g.sessions cookie now) [
    | err e ↦ unauthenticated r.path
    | ok username ↦ user_branch g r cookie username
  ]
]

unfoldable pub admin_guard : Guarded → Faults → Request → ℕ → Database → Outcome
admin_guard g faults r now db =
    if not g.protect || is_exempt r.path then passed none else elim r.emergency_cookie [
      | none ↦ admin_branch g r now
      | some cookie ↦
          if emergency_holds g faults now db cookie
          then emergency_branch g r cookie
          else admin_branch g r now
    ]
