-- ===== src/Server/BadgeLogin.antt =====
-- internal/server/server.go auth: from a badge with its PIN to a login grant.
pub mod Granted
use stumpfworks_identity.Base.{
  ℕ, Bool, true, false, not, ◌||◌, Option, none, some, List, [], ◌∷◌, Text, codes, find,
  if◌then◌else◌, Error, no_rows, ok, err, Faults,
}
use stumpfworks_identity.Store.Schema.{AuditEntry, User, Badge, Database, auth_failed, insert_audit}
use stumpfworks_identity.Auth.Primitives.{Primitives}
use stumpfworks_identity.Auth.Badge.{verify_token}
use stumpfworks_identity.Store.Badges.{
  badge_by_code, record_badge_authentication_success, Externals, user_with,
}
use stumpfworks_identity.Server.Grants.{Grants, save_login_grant}
use stumpfworks_identity.Server.Limiter.{failures_allowed, record_failure}

-- Why a badge is refused.
pub data Reason : Type 0 where
  badge_unknown database_error badge_disabled invalid_token : Reason
  pin_required pin_rate_limited invalid_pin : Reason

abbrev pub reason_text : Reason → Text
reason_text badge_unknown = codes "badge_unknown"
reason_text database_error = codes "database_error"
reason_text badge_disabled = codes "badge_disabled"
reason_text invalid_token = codes "invalid_token"
reason_text pin_required = codes "pin_required"
reason_text pin_rate_limited = codes "pin_rate_limited"
reason_text invalid_pin = codes "invalid_pin"

pub record AuthRequest : Type 0 where
  pub badge_id : Text
  pub token : Text
  pub client_id : Text
  pub pin : Text

pub data Response : Type 0 where
  problem : ℕ → Response
  denied : Reason → Response
  granted : Text → Text → Response

-- The server's memory and the database; `pin_attempts` are those under the key of the request.
pub record State : Type 0 where
  pub grants : Grants
  pub pin_attempts : List ℕ
  pub database : Database

-- pin.Verify with its Argon2id, the badge primitives, and rand.Read for the grant token (`none` is a
-- failure of the random source).
pub record Outside : Type 0 where
  pub primitives : Primitives
  pub store : Externals
  pub verify_pin : Text → Text → Bool
  pub random_token : Option Text

-- The owner's PIN hash, which the store joins to the badge.
unfoldable pub owner_of : Database → Badge → Option User
owner_of db b = find (user_with b.user_id) db.users

abbrev pub is_empty : Text → Bool
is_empty [] = true
is_empty (c ∷ cs) = false

-- The chain of tests; with it the PIN attempts, which the limiter prunes and a wrong PIN extends.
unfoldable pub check_pin : Outside → AuthRequest → Text → ℕ → List ℕ → List ℕ × Option Reason
check_pin o r hash now attempts =
    if is_empty hash
    then (attempts, none)
    else if is_empty r.pin
    then (attempts, some pin_required)
    else (let allowed = failures_allowed now attempts in
        if not allowed.1
        then (allowed.0, some pin_rate_limited)
        else if o.verify_pin r.pin hash
        then (allowed.0, none)
        else (record_failure now allowed.0, some invalid_pin))

abbrev pub store_reason : Error → Reason
store_reason no_rows = badge_unknown
store_reason _ = database_error

unfoldable pub check_badge :
    Outside → AuthRequest → ℕ → Database → Badge → List ℕ → List ℕ × Option Reason
check_badge o r now db b attempts =
    if not b.enabled
    then (attempts, some badge_disabled)
    else if not (verify_token o.primitives r.token b.token_hash)
    then (attempts, some invalid_token)
    else elim (owner_of db b) [
      | none ↦ (attempts, some badge_unknown)
      | some u ↦ check_pin o r u.pin_hash now attempts
    ]

abbrev pub failure_entry : AuthRequest → Text → Reason → AuditEntry
failure_entry r ip reason = record {
  event = auth_failed;
  badge_id = r.badge_id;
  username = [];
  client_id = r.client_id;
  success = false;
  ip_address = ip;
  details = reason_text reason;
}

-- The audit of a denial is best effort: a failing driver only loses the entry.
abbrev pub deny : Bool → AuthRequest → Text → Reason → State → State × Response
deny fault r ip reason s = (
  (if fault
      then s
      else record s { database = insert_audit (failure_entry r ip reason) s.database }),
  denied reason,
)

unfoldable pub accept :
    Outside → Faults → AuthRequest → Text → ℕ → ℕ → Badge → User → State → State × Response
accept o faults r ip now clock b u s = elim o.random_token [
  | none ↦ (s, problem 500)
  | some token ↦
      (let recorded =
          record_badge_authentication_success o.store faults b.id r.client_id ip clock s.database in
        elim recorded.1 [
          | err e ↦ (record s { database = recorded.0 }, problem 503)
          | ok _ ↦ (
            record s {
              grants = save_login_grant token u.username r.client_id now s.grants;
              pin_attempts = [];
              database = recorded.0;
            },
            granted u.username token,
          )
        ])
]

unfoldable pub decide :
    Outside → Faults → Faults → AuthRequest → Text → ℕ → ℕ → Badge → State → State × Response
decide o reading faults r ip now clock b s =
    let checked = check_badge o r now s.database b s.pin_attempts in
    let after = record s { pin_attempts = checked.0 } in
    elim checked.1 [
      | some reason ↦ deny (reading 1) r ip reason after
      | none ↦ elim (owner_of s.database b) [
        | none ↦ deny (reading 1) r ip badge_unknown after
        | some u ↦ accept o faults r ip now clock b u after
      ]
    ]

-- The handler of POST /api/v1/auth/badge for a request that decodes.
unfoldable pub auth :
    Outside → Faults → Faults → AuthRequest → Text → ℕ → ℕ → State → State × Response
auth o reading faults r ip now clock s =
    if is_empty r.badge_id || (is_empty r.token || is_empty r.client_id)
    then (s, problem 400)
    else elim (badge_by_code reading r.badge_id s.database) [
      | err e ↦ deny (reading 1) r ip (store_reason e) s
      | ok b ↦ decide o reading faults r ip now clock b s
    ]
