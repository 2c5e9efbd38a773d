-- ===== src/Store/Emergency.antt =====
-- internal/database/emergency_admin.go: time-limited grants for emergency administration. A grant's
-- token is exchanged once for a session, which ends when it expires or is revoked.
pub mod Single
pub mod Spent
use stumpfworks_identity.Base.{
  Text, text_eq, length, ltb, ◌==◌, ◌&&◌, ◌||◌, not, Bool, true, false, none, some, ℕ, ◌-◌, ◌*◌,
  List, ◌∷◌, [], find, filter, any, update, count, if◌then◌else◌, Result, ok, err, invalid,
  constraint, no_rows, ◌>>=◌, ◌>>◌, require, refuse, Faults, transaction,
}
use stumpfworks_identity.Store.Schema.{
  Database, EmergencyAdminGrant, AuditEntry, emergency_admin_grant_created, emergency_admin_login,
  emergency_admin_grant_revoked, insert_audit, is_null, query_row, exec, Event,
}

abbrev pub minute : ℕ
minute = 60000000000

abbrev pub hour : ℕ
hour = 3600000000000

abbrev pub audit_entry : Event → Text → AuditEntry
audit_entry event ip = record {
  event = event;
  badge_id = [];
  username = [];
  client_id = [];
  success = true;
  ip_address = ip;
  details = [];
}

-- `ExpiresAt.Sub(CreatedAt)` is negative where the truncated difference is 0: both are refused.
unfoldable pub validate_emergency_admin_grant : EmergencyAdminGrant → Result (Unit {0})
validate_emergency_admin_grant grant =
    let duration = grant.expires_at - grant.created_at in
    refuse
      (ltb (length grant.id) 16
        || (ltb 128 (length grant.id)
            || (not (length grant.token_hash == 64)
                || (ltb duration (5 * minute) || ltb hour duration))))
      invalid

-- PRIMARY KEY(id), UNIQUE(token_hash)
abbrev pub clashes : EmergencyAdminGrant → EmergencyAdminGrant → Bool
clashes grant row = text_eq row.id grant.id || text_eq row.token_hash grant.token_hash

unfoldable pub create_emergency_admin_grant :
    Faults → EmergencyAdminGrant → Text → Database → Database × Result (Unit {0})
unfolding validate_emergency_admin_grant
create_emergency_admin_grant faults grant ip db = elim (validate_emergency_admin_grant grant) [
  | err e ↦ (db, err e)
  | ok _ ↦ transaction faults db λ tx. do
    refuse (any (clashes grant) tx.emergency_admin_grants) constraint
    inserted ← exec (faults 2) (record tx {
      emergency_admin_grants =
          record grant { session_hash = none; consumed_at = none; revoked_at = none }
          ∷ tx.emergency_admin_grants;
    })
    audited ← exec (faults 3) (insert_audit (audit_entry emergency_admin_grant_created ip) inserted)
    ok (tt, audited)
]

-- token_hash=? AND consumed_at IS NULL AND revoked_at IS NULL AND expires_at>?
abbrev pub consumable : Text → ℕ → EmergencyAdminGrant → Bool
consumable token_hash now row =
    text_eq row.token_hash token_hash
    && (is_null row.consumed_at && (is_null row.revoked_at && ltb now row.expires_at))

abbrev pub consumed : Text → ℕ → EmergencyAdminGrant → EmergencyAdminGrant
consumed session_hash now row = record row {
  session_hash = some session_hash;
  consumed_at = some now;
}

abbrev pub has_session : Text → EmergencyAdminGrant → Bool
has_session session_hash row = elim row.session_hash [
  | none ↦ false
  | some h ↦ text_eq h session_hash
]

-- UPDATE … RETURNING: the row as it is after the update. UNIQUE(session_hash) is checked by it.
unfoldable pub consume_emergency_admin_grant :
    Faults → Text → Text → ℕ → Text → Database → Database × Result EmergencyAdminGrant
consume_emergency_admin_grant faults token_hash session_hash now ip db =
    if not (length token_hash == 64) || not (length session_hash == 64)
    then (db, err invalid)
    else transaction faults db λ tx. do
      row ← query_row (faults 2) (find (consumable token_hash now) tx.emergency_admin_grants)
      refuse (any (has_session session_hash) tx.emergency_admin_grants) constraint
      let updated = record tx {
        emergency_admin_grants =
            update (consumable token_hash now) (consumed session_hash now)
              tx.emergency_admin_grants;
      }
      audited ← exec (faults 3) (insert_audit (audit_entry emergency_admin_login ip) updated)
      ok (consumed session_hash now row, audited)

-- session_hash=? AND consumed_at IS NOT NULL AND revoked_at IS NULL AND expires_at>?
abbrev pub is_active : Text → ℕ → EmergencyAdminGrant → Bool
is_active session_hash now row =
    has_session session_hash row
    && (not (is_null row.consumed_at) && (is_null row.revoked_at && ltb now row.expires_at))

unfoldable pub active_emergency_admin_session :
    Faults → Text → ℕ → Database → Result EmergencyAdminGrant
active_emergency_admin_session faults session_hash now db =
    query_row (faults 0) (find (is_active session_hash now) db.emergency_admin_grants)

unfoldable pub emergency_admin_grants : Faults → ℕ → Database → Result (List EmergencyAdminGrant)
emergency_admin_grants faults now db =
    exec (faults 0) (filter (λ row. ltb now row.expires_at) db.emergency_admin_grants)

-- The two columns that the revocation may select by.
pub data Selector : Type 0 where
  by_id by_session_hash : Selector

abbrev pub selects : Selector → Text → EmergencyAdminGrant → Bool
selects by_id value row = text_eq row.id value
selects by_session_hash value row = has_session value row

abbrev pub revocable : Selector → Text → ℕ → EmergencyAdminGrant → Bool
revocable column value clock row =
    selects column value row && (is_null row.revoked_at && ltb clock row.expires_at)

-- `clock` is the CURRENT_TIMESTAMP of the statement.
unfoldable pub revoke_emergency_admin :
    Faults → Selector → Text → Text → ℕ → Database → Database × Result (Unit {0})
revoke_emergency_admin faults column value ip clock db = transaction faults db λ tx. do
  updated ← exec (faults 2) (record tx {
    emergency_admin_grants =
        update (revocable column value clock) (λ row. record row { revoked_at = some clock })
          tx.emergency_admin_grants;
  })
  require (count (revocable column value clock) tx.emergency_admin_grants == 1) no_rows
  audited ← exec (faults 3) (insert_audit (audit_entry emergency_admin_grant_revoked ip) updated)
  ok (tt, audited)

unfoldable pub revoke_emergency_admin_grant :
    Faults → Text → Text → ℕ → Database → Database × Result (Unit {0})
unfolding revoke_emergency_admin
revoke_emergency_admin_grant faults id ip clock db =
    revoke_emergency_admin faults by_id id ip clock db

unfoldable pub revoke_emergency_admin_session :
    Faults → Text → Text → ℕ → Database → Database × Result (Unit {0})
unfolding revoke_emergency_admin
revoke_emergency_admin_session faults session_hash ip clock db =
    if not (length session_hash == 64)
    then (db, err invalid)
    else revoke_emergency_admin faults by_session_hash session_hash ip clock db
