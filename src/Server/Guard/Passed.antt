-- ===== src/Server/Guard/Passed.antt =====
-- Who passes the guard of the administrative handlers, and with which roles.
use stumpfworks_identity.Auth.Permissions.{Role, admin, allowed}
use stumpfworks_identity.Auth.Sessions.{verify_for, verify}
use stumpfworks_identity.Store.Emergency.{active_emergency_admin_session}
use stumpfworks_identity.Store.Schema.{Database, EmergencyAdminGrant}
use stumpfworks_identity.Server.Guard.{
  Request, Roles, found, failing, Guarded, passed, is, is_mutating, required_permission, is_exempt,
  csrf_holds, current_roles, hash_of, emergency_holds, emergency_branch, roles_branch, user_branch,
  unauthenticated, admin_branch, admin_guard, not_authorized, unavailable,
}
use stumpfworks_identity.Base.{
  not, ◌||◌, ℕ, ◌≡◌, refl, ◌⊎◌, inl, inr, true, false, Option, none, some, List, [], ◌∷◌, arith,
  Text, codes, Bool-cases, Option-cases, ok, Result-cases, Faults,
}

-- A live emergency session behind the cookie.
abbrev pub Emergency : Guarded → Faults → ℕ → Database → Text → Type 0
Emergency g faults now db cookie =
    (session : Text) × (grant : EmergencyAdminGrant) × (verify_for g.primitives g.sessions cookie
        (codes "emergency-admin") now
      ≡ ok session)
    × (active_emergency_admin_session faults (hash_of g.primitives session) now db ≡ ok grant)

-- A request that changes state carries the CSRF token of its cookie.
abbrev pub CsrfChecked : Guarded → Request → Text → Type 0
CsrfChecked g r cookie = (not (is_mutating r.method) || csrf_holds g r cookie) ≡ true

abbrev pub ByEmergency : Guarded → Faults → Request → ℕ → Database → Option (List Role) → Type 0
ByEmergency g faults r now db context =
    (cookie : Text) × (r.emergency_cookie ≡ some cookie)
    × Emergency g faults now db cookie
    × CsrfChecked g r cookie
    × (context ≡ some (admin ∷ []))

abbrev pub ByRoles : Guarded → Request → Text → Text → Option (List Role) → Type 0
ByRoles g r cookie username context =
    (roles : List Role) × (current_roles g username ≡ found roles)
    × (allowed (required_permission r.path (is_mutating r.method)) roles ≡ true)
    × CsrfChecked g r cookie
    × (context ≡ some roles)

abbrev pub ByLogout : Guarded → Request → Text → Option (List Role) → Type 0
ByLogout g r cookie context =
    (is r.path "/logout" ≡ true) × (csrf_holds g r cookie ≡ true) × (context ≡ none)

abbrev pub ByUser : Guarded → Request → ℕ → Option (List Role) → Type 0
ByUser g r now context =
    (cookie : Text) × (username : Text) × (r.admin_cookie ≡ some cookie)
    × (verify g.primitives g.sessions cookie now ≡ ok username)
    × (ByLogout g r cookie context ⊎ ByRoles g r cookie username context)

Emergency-found :
    (g : Guarded) (faults : Faults) (now : ℕ) (db : Database) (cookie : Text)
    → emergency_holds g faults now db cookie ≡ true
    → Emergency g faults now db cookie
unfolding emergency_holds
Emergency-found g faults now db cookie h =
    elim (Result-cases (verify_for g.primitives g.sessions cookie (codes "emergency-admin") now)) [
      | inr (e, w) ↦ absurd (ground arith)
      | inl (session, w) ↦
          elim (Result-cases
            (active_emergency_admin_session faults (hash_of g.primitives session) now db)) [
              | inr (e, v) ↦ absurd (ground arith)
              | inl (grant, v) ↦ (session, grant, w, v)
            ]
    ]

emergency_branch-passed :
    (g : Guarded) (r : Request) (cookie : Text) (context : Option (List Role))
    → emergency_branch g r cookie ≡ passed context
    → CsrfChecked g r cookie × (context ≡ some (admin ∷ []))
unfolding emergency_branch
emergency_branch-passed g r cookie context h = ground arith

roles_branch-passed :
    (g : Guarded) (r : Request) (cookie : Text) (answer : Roles) (context : Option (List Role))
    → roles_branch g r cookie answer ≡ passed context
    → (roles : List Role) × (answer ≡ found roles)
      × (allowed (required_permission r.path (is_mutating r.method)) roles ≡ true)
      × CsrfChecked g r cookie
      × (context ≡ some roles)
unfolding roles_branch
roles_branch-passed g r cookie (failing not_authorized) context h = absurd (ground arith)
roles_branch-passed g r cookie (failing unavailable) context h = absurd (ground arith)
roles_branch-passed g r cookie (found roles) context h =
    (roles, refl, ground arith, ground arith, ground arith)

user_branch-passed :
    (g : Guarded) (r : Request) (cookie username : Text) (context : Option (List Role))
    → user_branch g r cookie username ≡ passed context
    → ByLogout g r cookie context ⊎ ByRoles g r cookie username context
unfolding user_branch
user_branch-passed g r cookie username context h = elim (Bool-cases (is r.path "/logout")) [
  | inl e ↦ inl (e, ground arith, ground arith)
  | inr e ↦ inr (roles_branch-passed g r cookie (current_roles g username) context (ground arith))
]

admin_branch-passed :
    (g : Guarded) (r : Request) (now : ℕ) (context : Option (List Role))
    → admin_branch g r now ≡ passed context
    → ByUser g r now context
unfolding admin_branch unauthenticated
admin_branch-passed g r now context h = elim (Option-cases r.admin_cookie) [
  | inl e ↦ absurd (ground arith)
  | inr (cookie, e) ↦ elim (Result-cases (verify g.primitives g.sessions cookie now)) [
    | inr (f, w) ↦ absurd (ground arith)
    | inl (username, w) ↦
        (cookie, username, e, w, user_branch-passed g r cookie username context (ground arith))
  ]
]

-- A request for a protected path that the guard passes on came with the cookie of a live emergency
-- session and has the role admin, or it came with a valid administrator's cookie: then either it
-- signs out and carries the CSRF token, or the roles that the directory names for that user allow the
-- permission of its path and method and go with it. Under either cookie a request that changes state
-- carries that cookie's CSRF token.
pub admin_guard-passed :
    (g : Guarded) (faults : Faults) (r : Request) (now : ℕ) (db : Database)
    (context : Option (List Role))
    → g.protect ≡ true
    → is_exempt r.path ≡ false
    → admin_guard g faults r now db ≡ passed context
    → ByEmergency g faults r now db context ⊎ ByUser g r now context
unfolding admin_guard
admin_guard-passed g faults r now db context protected path h =
    elim (Option-cases r.emergency_cookie) [
      | inl e ↦ inr (admin_branch-passed g r now context (ground arith))
      | inr (cookie, e) ↦ elim (Bool-cases (emergency_holds g faults now db cookie)) [
        | inr w ↦ inr (admin_branch-passed g r now context (ground arith))
        | inl w ↦
            (let (csrf, roles) = emergency_branch-passed g r cookie context (ground arith) in
              inl (cookie, e, Emergency-found g faults now db cookie w, csrf, roles))
      ]
    ]
