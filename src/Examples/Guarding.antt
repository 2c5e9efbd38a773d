-- ===== src/Examples/Guarding.antt =====
-- A badge login, and a request that passes the guard.
use stumpfworks_identity.Examples.Data.{works, empty}
use stumpfworks_identity.Examples.Primitives.{shifting}
use stumpfworks_identity.Store.Schema.{User, Badge}
use stumpfworks_identity.Base.{
  ◌≡◌, refl, ◌⊎◌, true, false, none, some, [], ◌∷◌, Text, codes, text_eq, split, strip_prefix, find,
  filter, count, any, update, ok,
}
use stumpfworks_identity.Auth.Permissions.{operator, allowed, role_permissions, permissions}
use stumpfworks_identity.Auth.Sessions.{
  issue, csrf, verify, verify_for, issue_for, issue_for_duration, audience_user, pieces,
  signed_part, verify_csrf, verify_pieces,
}
use stumpfworks_identity.Auth.Badge.{hash_token, verify_token}
use stumpfworks_identity.Store.Badges.{
  badge_by_code, record_badge_authentication_success, success_body,
}
use stumpfworks_identity.Server.Limiter.{failures_allowed}
use stumpfworks_identity.Server.Guard.{
  has_prefix, has_suffix, admin_branch, user_branch, roles_branch, current_roles, csrf_holds,
  is_mutating, required_permission, Request, found, Guarded, admin_guard, is_exempt,
}
use stumpfworks_identity.Server.Guard.Passed.{ByEmergency, ByUser, admin_guard-passed}
use stumpfworks_identity.Server.BadgeLogin.{
  decide, accept, check_badge, check_pin, owner_of, invalid_pin, AuthRequest, State, Outside, auth,
}
use stumpfworks_identity.Server.BadgeLogin.Granted.{Passed, Left, Denied, auth-granted, auth-denied}

abbrev outside : Outside
outside = record {
  primitives = shifting;
  store = record { parse_ip = λ t. true; format_code = λ n. n ∷ [] };
  verify_pin = λ pin hash. text_eq pin hash;
  random_token = some (9 ∷ []);
}

abbrev alice : User
alice = record {
  id = 1;
  username = 65 ∷ [];
  display_name = [];
  pin_hash = 1 ∷ 2 ∷ [];
  oidc_subject = [];
}

abbrev card : Badge
card = record {
  id = 3;
  badge_code = 66 ∷ [];
  user_id = 1;
  token_hash = 7 ∷ 8 ∷ [];
  enabled = true;
  activation_pending = false;
  description = [];
  last_used_at = none;
  revoked_at = none;
}

abbrev start : State
start = record {
  grants = [];
  pin_attempts = [];
  database = record empty { users = alice ∷ []; badges = card ∷ [] };
}

abbrev right : AuthRequest
right = record { badge_id = 66 ∷ []; token = 8 ∷ []; client_id = 5 ∷ []; pin = 1 ∷ 2 ∷ [] }

abbrev wrong : AuthRequest
wrong = record right { pin = 1 ∷ [] }

auth-granted_example :
    (b : Badge) × (u : User) × (badge_by_code works right.badge_id start.database ≡ ok b)
    × Passed outside right 20 start (65 ∷ []) b u
    × Left outside works right [] 20 20 start b u
        (9 ∷ [])
        (auth outside works works right [] 20 20 start).0
unfolding auth decide accept check_badge check_pin owner_of verify_token hash_token badge_by_code
    record_badge_authentication_success success_body failures_allowed filter find any count update
    text_eq
auth-granted_example = auth-granted outside works works right [] 20 20 start (65 ∷ []) (9 ∷ []) refl

auth-denied_example :
    Denied false wrong [] invalid_pin start (auth outside works works wrong [] 20 20 start).0
unfolding auth decide accept check_badge check_pin owner_of verify_token hash_token badge_by_code
    record_badge_authentication_success success_body failures_allowed filter find any count update
    text_eq
auth-denied_example = auth-denied outside works works wrong [] 20 20 start invalid_pin refl

abbrev server : Guarded
server = record {
  protect = true;
  primitives = shifting;
  sessions = record { key = 1 ∷ []; lifetime = 60000000000 };
  directory = some (λ name. found (operator ∷ []));
}

abbrev cookie : Text
cookie = issue shifting server.sessions (codes "alice") 0

abbrev request : Request
request = record {
  path = codes "/badges";
  method = codes "POST";
  emergency_cookie = none;
  admin_cookie = some cookie;
  form_csrf = [];
  header_csrf = csrf shifting server.sessions cookie;
}

admin_guard-passed_example :
    ByEmergency server works request 0 empty (some (operator ∷ []))
    ⊎ ByUser server request 0 (some (operator ∷ []))
unfolding admin_guard is_exempt text_eq has_prefix strip_prefix admin_branch verify verify_for split
    issue issue_for issue_for_duration user_branch roles_branch current_roles allowed any
    role_permissions permissions audience_user csrf pieces signed_part verify_csrf verify_pieces
    csrf_holds has_suffix is_mutating required_permission
admin_guard-passed_example =
    admin_guard-passed server works request 0 empty (some (operator ∷ [])) refl refl refl
