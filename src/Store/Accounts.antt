-- ===== src/Store/Accounts.antt =====
-- internal/database/administrative_audit.go, session_audit.go and oidc_administration_audit.go: the
-- users, their subjects and PINs, and the audited forms of the operations on self-service sessions.
pub mod Subjects
use stumpfworks_identity.Store.Schema.{
  Event, AuditEntry, User, SelfServiceSession, Database, oidc_subject_created, self_service_login,
  self_service_sessions_revoked, self_service_logout, insert_audit, is_null, query_row, exec,
}
use stumpfworks_identity.Base.{
  ℕ, ◌+◌, Bool, true, ◌&&◌, Option, none, List, [], ◌∷◌, ◌++◌, Text, codes, text_eq, length, find,
  count, any, update, ltb, ◌==◌, if◌then◌else◌, no_rows, constraint, unavailable, Result, ok, ◌>>=◌,
  ◌>>◌, require, refuse, or_fail, Faults,
}
use stumpfworks_identity.Store.Oidc.{Externals, oidc_entry, username_of, audited}
use stumpfworks_identity.Store.SelfService.{
  session_with, owned_by, set_self_service, insert_session, ended, is_other,
}

abbrev pub user_entry : Event → Text → Text → Text → AuditEntry
user_entry event username ip details = oidc_entry event username [] true ip details

abbrev pub numbered : ℕ → User → Bool
numbered id u = u.id == id

abbrev pub set_users : Database → List User → Database
set_users db rows = record db { users = rows }

-- AUTOINCREMENT gives a number above every number in the table.
unfoldable pub max_user_id : List User → ℕ
max_user_id [] = 0
max_user_id (u ∷ us) = let rest = max_user_id us in if ltb rest u.id then u.id else rest

abbrev pub new_user : Text → Text → Database → User
new_user username display db = record {
  id = max_user_id db.users + 1;
  username = username;
  display_name = display;
  pin_hash = [];
  oidc_subject = [];
}

-- UNIQUE(username)
unfoldable pub insert_user : Bool → User → Database → Result Database
insert_user fault u db = do
  refuse (any (λ (row : User). text_eq row.username u.username) db.users) constraint
  exec fault (set_users db (u ∷ db.users))

unfoldable pub create_user_body :
    Faults → Text → Text → Event → Text → Database → Result (User × Database)
create_user_body faults username display event ip db = do
  inserted ← insert_user (faults 2) (new_user username display db) db
  u ← query_row (faults 3) (find (numbered (max_user_id db.users + 1)) inserted.users)
  done ← exec (faults 4) (insert_audit (user_entry event u.username ip []) inserted)
  ok (u, done)

unfoldable pub create_user_with_audit :
    Externals → Faults → Text → Text → Event → Text → Database → Database × Result User
create_user_with_audit x faults username display event ip db =
    audited x faults ip db (create_user_body faults username display event ip)

unfoldable pub get_user : Faults → ℕ → Database → Result User
get_user faults id db = query_row (faults 0) (find (numbered id) db.users)

-- lower(username)=lower(?)
unfoldable pub user_by_username : Externals → Faults → Text → Database → Result User
user_by_username x faults username db =
    query_row (faults 0)
      (find (λ (u : User). text_eq (x.lower u.username) (x.lower username)) db.users)

abbrev pub has_pin : Text → User → User
has_pin hash u = record u { pin_hash = hash }

unfoldable pub set_pin_body :
    Faults → ℕ → Text → Event → Text → Database → Result (Unit {0} × Database)
set_pin_body faults id hash event ip db = do
  username ← username_of faults 2 id db
  updated ← exec (faults 3) (set_users db (update (numbered id) (has_pin hash) db.users))
  require (count (numbered id) db.users == 1) no_rows
  done ← exec (faults 4) (insert_audit (user_entry event username ip []) updated)
  ok (tt, done)

unfoldable pub set_user_pin_with_audit :
    Externals → Faults → ℕ → Text → Event → Text → Database → Database × Result (Unit {0})
set_user_pin_with_audit x faults id hash event ip db =
    audited x faults ip db (set_pin_body faults id hash event ip)

-- id=? AND oidc_subject=''
abbrev pub unnamed : ℕ → User → Bool
unnamed id u = numbered id u && (length u.oidc_subject == 0)

abbrev pub has_subject : Text → User → User
has_subject subject u = record u { oidc_subject = subject }

unfoldable pub give_subject :
    Faults → ℕ → Option Text → User → Text → Database → Result (Text × Database)
give_subject faults id random u ip db = do
  subject ← or_fail random unavailable
  updated ← exec (faults 3) (set_users db (update (unnamed id) (has_subject subject) db.users))
  require (count (unnamed id) db.users == 1) no_rows
  done ← exec (faults 4) (insert_audit (user_entry oidc_subject_created u.username ip []) updated)
  ok (subject, done)

-- `random` is the encoding of what rand.Read gives. A user that has a subject keeps it.
unfoldable pub ensure_subject_body :
    Faults → ℕ → Option Text → Text → Database → Result (Text × Database)
ensure_subject_body faults id random ip db = do
  u ← query_row (faults 2) (find (numbered id) db.users)
  (if length u.oidc_subject == 0
      then give_subject faults id random u ip db
      else ok (u.oidc_subject, db))

unfoldable pub ensure_oidc_subject_with_audit :
    Externals → Faults → ℕ → Option Text → Text → Database → Database × Result Text
ensure_oidc_subject_with_audit x faults id random ip db =
    audited x faults ip db (ensure_subject_body faults id random ip)

unfoldable pub login_body :
    Faults → Text → Text → ℕ → ℕ → Text → Database → Result (Unit {0} × Database)
login_body faults id username expires clock ip db = do
  inserted ←
      insert_session (faults 2)
        (record {
          id = id;
          username = username;
          created_at = clock;
          expires_at = expires;
          revoked_at = none;
        })
        db
  done ← exec (faults 3) (insert_audit (user_entry self_service_login username ip []) inserted)
  ok (tt, done)

unfoldable pub create_self_service_session_with_audit :
    Externals → Faults → Text → Text → ℕ → ℕ → Text → Database → Database × Result (Unit {0})
create_self_service_session_with_audit x faults id username expires clock ip db =
    audited x faults ip db (login_body faults id username expires clock ip)

unfoldable pub others_body :
    Externals → Faults → Text → Text → ℕ → Text → Database → Result (ℕ × Database)
others_body x faults username current clock ip db =
    let other = is_other x username current clock in
    let changed = count other db.self_service_sessions in
    do
      updated ←
          exec (faults 2)
            (set_self_service db (update other (ended clock) db.self_service_sessions))
      done ← exec (faults 3) (
          insert_audit
            (user_entry self_service_sessions_revoked username ip
              (codes "count=" ++ x.format_count changed))
            updated)
      ok (changed, done)

unfoldable pub revoke_other_self_service_sessions_with_audit :
    Externals → Faults → Text → Text → ℕ → Text → Database → Database × Result ℕ
revoke_other_self_service_sessions_with_audit x faults username current clock ip db =
    audited x faults ip db (others_body x faults username current clock ip)

-- id=? AND lower(username)=lower(?) AND revoked_at IS NULL
unfoldable pub signs_out : Externals → Text → Text → SelfServiceSession → Bool
signs_out x id username s = session_with id s && (owned_by x username s && is_null s.revoked_at)

unfoldable pub logout_body :
    Externals → Faults → Text → Text → ℕ → Text → Database → Result (Unit {0} × Database)
logout_body x faults id username clock ip db =
    let leaves = signs_out x id username in
    do
      updated ←
          exec (faults 2)
            (set_self_service db (update leaves (ended clock) db.self_service_sessions))
      require (count leaves db.self_service_sessions == 1) no_rows
      done ← exec (faults 3) (insert_audit (user_entry self_service_logout username ip []) updated)
      ok (tt, done)

unfoldable pub revoke_self_service_session_with_audit :
    Externals → Faults → Text → Text → ℕ → Text → Database → Database × Result (Unit {0})
revoke_self_service_session_with_audit x faults id username clock ip db =
    audited x faults ip db (logout_body x faults id username clock ip)
