-- ===== src/Store/Badges/Audited.antt =====
-- internal/database/administrative_audit.go: the creation, revocation and replacement of a badge by an
-- administrator, each with its audit entry.
use stumpfworks_identity.Base.{
  ℕ, ◌+◌, true, false, not, ◌&&◌, [], ◌++◌, Text, codes, length, count, update, ◌==◌, if◌then◌else◌,
  no_rows, driver, invalid, Result, ok, err, ◌>>=◌, ◌>>◌, require, refuse, Faults, transaction,
}
use stumpfworks_identity.Store.Schema.{
  Badge, Database, badge_created, badge_revoked, badge_replaced, insert_audit, exec,
}
use stumpfworks_identity.Store.Badges.{
  Externals, max_id, has_id, enabled_with, set_badges, insert_badge, new_badge, disable,
  badge_entry, owner,
}

-- The badge that was inserted is read with its owner before the commit.
unfoldable pub audited_create_body :
    Externals → Faults → ℕ → Text → Text → Text → Database → Result (Badge × Database)
audited_create_body x faults user hash desc ip db = do
  refuse (faults 2) driver
  inserted ← insert_badge (faults 3) (new_badge x user hash desc db) db
  made ← owner faults 4 (has_id (max_id db.badges + 1)) inserted
  audited ←
      exec (faults 5)
        (insert_audit (badge_entry badge_created made.0.badge_code made.1.username ip []) inserted)
  ok (made.0, audited)

unfoldable pub create_badge_with_audit :
    Externals → Faults → ℕ → Text → Text → Text → Database → Database × Result Badge
create_badge_with_audit x faults user hash desc ip db =
    if not (length ip == 0) && not (x.parse_ip ip)
    then (db, err invalid)
    else transaction faults db (audited_create_body x faults user hash desc ip)

-- Only an enabled badge is revoked.
unfoldable pub audited_revoke_body : Faults → ℕ → Text → ℕ → Database → Result (Unit {0} × Database)
audited_revoke_body faults id ip clock db = do
  found ← owner faults 2 (enabled_with id) db
  updated ← exec (faults 3) (set_badges db (update (enabled_with id) (disable clock) db.badges))
  require (count (enabled_with id) db.badges == 1) no_rows
  audited ←
      exec (faults 4)
        (insert_audit (badge_entry badge_revoked found.0.badge_code found.1.username ip []) updated)
  ok (tt, audited)

unfoldable pub revoke_badge_with_audit :
    Externals → Faults → ℕ → Text → ℕ → Database → Database × Result (Unit {0})
revoke_badge_with_audit x faults id ip clock db =
    if not (length ip == 0) && not (x.parse_ip ip)
    then (db, err invalid)
    else transaction faults db (audited_revoke_body faults id ip clock)

unfoldable pub audited_replace_body :
    Externals → Faults → ℕ → Text → Text → Text → ℕ → Database → Result (Badge × Database)
audited_replace_body x faults old hash desc ip clock db = do
  found ← owner faults 2 (enabled_with old) db
  refuse (faults 3) driver
  refuse (faults 4) driver
  require (count (enabled_with old) db.badges == 1) no_rows
  inserted ←
      insert_badge (faults 5)
        (record (new_badge x found.0.user_id hash desc db) {
          enabled = false;
          activation_pending = true;
        })
        (set_badges db (update (enabled_with old) (disable clock) db.badges))
  made ← owner faults 6 (has_id (max_id db.badges + 1)) inserted
  audited ← exec (faults 7) (
      insert_audit
        (badge_entry badge_replaced found.0.badge_code found.1.username ip
          (codes "new_badge=" ++ made.0.badge_code))
        inserted)
  ok (made.0, audited)

unfoldable pub replace_badge_pending_with_audit :
    Externals → Faults → ℕ → Text → Text → Text → ℕ → Database → Database × Result Badge
replace_badge_pending_with_audit x faults old hash desc ip clock db =
    if not (length ip == 0) && not (x.parse_ip ip)
    then (db, err invalid)
    else transaction faults db (audited_replace_body x faults old hash desc ip clock)
