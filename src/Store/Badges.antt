-- ===== src/Store/Badges.antt =====
-- internal/database/database.go and audit_mutations.go: badges, from issue over replacement and
-- activation to revocation. CreateBadge, ReplaceBadgePending and Revoke are the unaudited forms; those
-- with an audit entry, which the server calls, are in Audited.
pub mod Audited
pub mod Rows
pub mod Revoked
use stumpfworks_identity.Base.{
  ℕ, ◌+◌, Bool, true, false, not, ◌&&◌, none, some, List, [], ◌∷◌, Text, codes, text_eq, length,
  find, count, any, update, ltb, ◌==◌, if◌then◌else◌, no_rows, driver, constraint, invalid, Result,
  ok, err, ◌>>=◌, ◌>>◌, require, refuse, or_fail, Faults, transaction,
}
use stumpfworks_identity.Store.Schema.{
  Event, AuditEntry, User, Badge, Database, auth_success, badge_self_service_revoked,
  badge_self_service_activated, insert_audit, query_row, exec,
}

-- fmt.Sprintf("SW-%04d", n) and net.ParseIP.
pub record Externals : Type 0 where
  pub format_code : ℕ → Text
  pub parse_ip : Text → Bool

-- COALESCE(MAX(id),0)
unfoldable pub max_id : List Badge → ℕ
max_id [] = 0
max_id (b ∷ bs) = let rest = max_id bs in if ltb rest b.id then b.id else rest

unfoldable pub next_code : Externals → List Badge → Text
next_code x badges = x.format_code (max_id badges + 1)

abbrev pub has_id : ℕ → Badge → Bool
has_id id b = b.id == id

abbrev pub user_with : ℕ → User → Bool
user_with id u = u.id == id

-- id=? AND enabled=1
abbrev pub enabled_with : ℕ → Badge → Bool
enabled_with id b = has_id id b && b.enabled

-- id=? AND user_id=? AND enabled=1
abbrev pub enabled_of : ℕ → ℕ → Badge → Bool
enabled_of id user b = has_id id b && ((b.user_id == user) && b.enabled)

-- id=? AND user_id=? AND enabled=0 AND activation_pending=1
abbrev pub pending_of : ℕ → ℕ → Badge → Bool
pending_of id user b =
    has_id id b && ((b.user_id == user) && (not b.enabled && b.activation_pending))

abbrev pub set_badges : Database → List Badge → Database
set_badges db rows = record db { badges = rows }

-- INSERT with UNIQUE(badge_code) and the reference to users; AUTOINCREMENT gives a number above
-- every number in the table.
unfoldable pub insert_badge : Bool → Badge → Database → Result Database
insert_badge fault b db = do
  refuse fault driver
  require (any (user_with b.user_id) db.users) constraint
  refuse (any (λ row. text_eq row.badge_code b.badge_code) db.badges) constraint
  ok (set_badges db (b ∷ db.badges))

abbrev pub new_badge : Externals → ℕ → Text → Text → Database → Badge
new_badge x user hash desc db = record {
  id = max_id db.badges + 1;
  badge_code = next_code x db.badges;
  user_id = user;
  token_hash = hash;
  enabled = true;
  activation_pending = false;
  description = desc;
  last_used_at = none;
  revoked_at = none;
}

abbrev pub get_badge : Bool → ℕ → Database → Result Badge
get_badge fault id db =
    query_row fault (find (λ b. has_id id b && any (user_with b.user_id) db.users) db.badges)

-- GetBadge after the commit: its failure does not undo the insertion.
unfoldable pub read_back : Bool → ℕ → Database × Result (Unit {0}) → Database × Result Badge
read_back fault id (db, err e) = (db, err e)
read_back fault id (db, ok u) = (db, get_badge fault id db)

unfoldable pub create_body :
    Externals → Faults → ℕ → Text → Text → Database → Result (Unit {0} × Database)
create_body x faults user hash desc db = do
  refuse (faults 2) driver
  inserted ← insert_badge (faults 3) (new_badge x user hash desc db) db
  ok (tt, inserted)

unfoldable pub create_badge :
    Externals → Faults → ℕ → Text → Text → Database → Database × Result Badge
create_badge x faults user hash desc db =
    read_back (faults 4) (max_id db.badges + 1)
      (transaction faults db (create_body x faults user hash desc))

abbrev pub disable : ℕ → Badge → Badge
disable clock b = record b { enabled = false; activation_pending = false; revoked_at = some clock }

-- The old badge is revoked and its replacement waits for activation.
unfoldable pub replace_body :
    Externals → Faults → ℕ → Text → Text → ℕ → Database → Result (Unit {0} × Database)
replace_body x faults old hash desc clock db = do
  b ← query_row (faults 2) (find (enabled_with old) db.badges)
  refuse (faults 3) driver
  refuse (faults 4) driver
  require (count (enabled_with old) db.badges == 1) no_rows
  inserted ←
      insert_badge (faults 5)
        (record (new_badge x b.user_id hash desc db) { enabled = false; activation_pending = true })
        (set_badges db (update (enabled_with old) (disable clock) db.badges))
  ok (tt, inserted)

unfoldable pub replace_badge_pending :
    Externals → Faults → ℕ → Text → Text → ℕ → Database → Database × Result Badge
replace_badge_pending x faults old hash desc clock db =
    read_back (faults 6) (max_id db.badges + 1)
      (transaction faults db (replace_body x faults old hash desc clock))

unfoldable pub badge_by_code : Faults → Text → Database → Result Badge
badge_by_code faults code db =
    query_row (faults 0)
      (find (λ b. text_eq b.badge_code code && any (user_with b.user_id) db.users) db.badges)

abbrev pub badge_entry : Event → Text → Text → Text → Text → AuditEntry
badge_entry event code username ip details = record {
  event = event;
  badge_id = code;
  username = username;
  client_id = [];
  success = true;
  ip_address = ip;
  details = details;
}

-- JOIN users u ON u.id=b.user_id
abbrev pub owner : Faults → ℕ → (Badge → Bool) → Database → Result (Badge × User)
owner faults call selects db = do
  b ← query_row (faults call) (find selects db.badges)
  u ← or_fail (find (user_with b.user_id) db.users) no_rows
  ok (b, u)

-- The revocation of a lost badge leaves activation_pending as it is; an enabled badge has it unset.
abbrev pub lose : ℕ → Badge → Badge
lose clock b = record b { enabled = false; revoked_at = some clock }

unfoldable pub lost_body : Faults → ℕ → ℕ → Text → ℕ → Database → Result (Badge × Database)
lost_body faults id user ip clock db = do
  found ← owner faults 2 (enabled_of id user) db
  updated ← exec (faults 3) (set_badges db (update (enabled_of id user) (lose clock) db.badges))
  require (count (enabled_of id user) db.badges == 1) no_rows
  audited ← exec (faults 4) (
      insert_audit
        (badge_entry badge_self_service_revoked found.0.badge_code found.1.username ip
          (codes "lost_badge"))
        updated)
  ok (found.0, audited)

unfoldable pub revoke_active_badge_for_user :
    Externals → Faults → ℕ → ℕ → Text → ℕ → Database → Database × Result Badge
revoke_active_badge_for_user x faults id user ip clock db =
    if not (length ip == 0) && not (x.parse_ip ip)
    then (db, err invalid)
    else transaction faults db (lost_body faults id user ip clock)

abbrev pub activated : Badge → Badge
activated b = record b { enabled = true; activation_pending = false; revoked_at = none }

unfoldable pub activate_body : Faults → ℕ → ℕ → Text → Database → Result (Unit {0} × Database)
activate_body faults id user ip db = do
  found ← owner faults 2 (pending_of id user) db
  updated ← exec (faults 3) (set_badges db (update (pending_of id user) activated db.badges))
  require (count (pending_of id user) db.badges == 1) no_rows
  audited ← exec (faults 4) (
      insert_audit
        (badge_entry badge_self_service_activated found.0.badge_code found.1.username ip
          (codes "replacement_badge"))
        updated)
  ok (tt, audited)

unfoldable pub activate_pending_badge_for_user :
    Externals → Faults → ℕ → ℕ → Text → Database → Database × Result (Unit {0})
activate_pending_badge_for_user x faults id user ip db =
    if not (length ip == 0) && not (x.parse_ip ip)
    then (db, err invalid)
    else transaction faults db (activate_body faults id user ip)

-- One statement outside a transaction; the number of rows is not looked at.
unfoldable pub revoke : Faults → ℕ → ℕ → Database → Database × Result (Unit {0})
revoke faults id clock db =
    if faults 0
    then (db, err driver)
    else (set_badges db (update (has_id id) (disable clock) db.badges), ok tt)

abbrev pub used : ℕ → Badge → Badge
used clock b = record b { last_used_at = some clock }

unfoldable pub success_body : Faults → ℕ → Text → Text → ℕ → Database → Result (Unit {0} × Database)
success_body faults id client ip clock db = do
  found ← owner faults 2 (enabled_with id) db
  updated ← exec (faults 3) (set_badges db (update (enabled_with id) (used clock) db.badges))
  require (count (enabled_with id) db.badges == 1) no_rows
  audited ← exec (faults 4) (
      insert_audit
        (record (badge_entry auth_success found.0.badge_code found.1.username ip []) {
          client_id = client;
        })
        updated)
  ok (tt, audited)

unfoldable pub record_badge_authentication_success :
    Externals → Faults → ℕ → Text → Text → ℕ → Database → Database × Result (Unit {0})
record_badge_authentication_success x faults id client ip clock db =
    if not (length ip == 0) && not (x.parse_ip ip)
    then (db, err invalid)
    else transaction faults db (success_body faults id client ip clock)
