-- ===== src/Store/Jobs/Scheduling.antt =====
-- internal/database/client_update_jobs.go: how a job is scheduled, once for every request.
use stumpfworks_identity.Base.{
  ℕ, ◌-◌, Bool, true, false, not, ◌&&◌, ◌||◌, none, some, ◌∷◌, Text, text_eq, length, find, any,
  ltb, leb, ◌==◌, driver, constraint, invalid, conflict, Result, ok, ◌>>=◌, ◌>>◌, require, refuse,
  or_fail, Faults, transaction,
}
use stumpfworks_identity.Store.Schema.{
  UpdateJob, Database, scheduled, dispatched, expired, insert_audit, exec, validate_audit_ip,
}
use stumpfworks_identity.Store.Jobs.{
  from_unix, unix, validate, state_eq, Externals, job_entry, require_device, change_update_job,
}

abbrev pub bool_eq : Bool → Bool → Bool
bool_eq true b = b
bool_eq false b = not b

-- The fields of the immutable request, compared with those of the stored job.
unfoldable pub same_request : UpdateJob → UpdateJob → Bool
same_request old j =
    text_eq old.client_id j.client_id
    && (text_eq old.release_id j.release_id
        && (text_eq old.release_version j.release_version
            && (text_eq old.package_sha256 j.package_sha256
                && ((old.not_before == j.not_before)
                    && ((old.expires_at == j.expires_at)
                        && bool_eq old.maintenance j.maintenance)))))

abbrev pub is_open : UpdateJob → Bool
is_open j = state_eq j.state scheduled || state_eq j.state dispatched

abbrev pub open_of : Text → UpdateJob → Bool
open_of client j = text_eq j.client_id client && is_open j

-- The CHECK clauses of the table.
unfoldable pub row_fits : UpdateJob → Bool
row_fits j =
    leb 16 (length j.id)
    && (leb (length j.id) 64
        && (leb 16 (length j.release_id)
            && (leb (length j.release_id) 64
                && (leb 1 (length j.release_version)
                    && (leb (length j.release_version) 64
                        && ((length j.package_sha256 == 64)
                            && (ltb j.not_before j.expires_at
                                && leb (j.expires_at - j.not_before) 86400)))))))

-- INSERT with the primary key, the CHECK clauses, the reference to clients and the unique index on
-- the open jobs of a client.
unfoldable pub insert_job : Faults → UpdateJob → Database → Result Database
insert_job faults j db = do
  refuse (faults 8) driver
  require (row_fits j) constraint
  require (any (λ c. text_eq c.client_id j.client_id) db.clients) constraint
  refuse (any (λ row. text_eq row.id j.id) db.update_jobs) constraint
  refuse (any (open_of j.client_id) db.update_jobs) constraint
  ok (record db { update_jobs = j ∷ db.update_jobs })

-- client_id=$1 AND state='scheduled' AND expires_at<=$2
abbrev pub overdue : Text → ℕ → UpdateJob → Bool
overdue client now j =
    text_eq j.client_id client && (state_eq j.state scheduled && leb j.expires_at (unix now))

-- A scheduled job of the client whose window has ended is expired before the next one is added.
unfoldable pub expire_overdue :
    Externals → Faults → Text → Text → Text → ℕ → Database → Result Database
expire_overdue x faults client actor ip now db = do
  refuse (faults 3) driver
  elim (find (overdue client now) db.update_jobs) [
    | none ↦ ok db
    | some previous ↦ (do
      changed ← change_update_job x faults 4 previous.id client expired false actor ip now db
      ok changed.1)
  ]

abbrev pub stored : UpdateJob → ℕ → UpdateJob
stored j now = record j {
  state = scheduled;
  rollback_available = false;
  created_at = unix now;
  updated_at = unix now;
}

unfoldable pub add_job :
    Faults → UpdateJob → Text → Text → ℕ → Database → Result (Unit {0} × Database)
add_job faults j actor ip now db = do
  inserted ← insert_job faults (stored j now) db
  audited ← exec (faults 9) (insert_audit (job_entry scheduled j.client_id actor ip j.id) inserted)
  ok (tt, audited)

unfoldable pub schedule_new :
    Externals → Faults → UpdateJob → Text → Text → ℕ → Database → Result (Unit {0} × Database)
schedule_new x faults j actor ip now db = do
  ready ← expire_overdue x faults j.client_id actor ip now db
  add_job faults j actor ip now ready

-- createUpdateJob
unfoldable pub create_update_job :
    Externals → Faults → UpdateJob → Text → Text → ℕ → Database → Result (Unit {0} × Database)
create_update_job x faults j actor ip now db = do
  refuse
      (not (x.is_identifier j.id)
        || (not (x.is_identifier j.release_id)
            || (ltb 64 (length j.client_id)
                || ((length j.client_id == 0) || ltb 128 (length actor)))))
      invalid
  digest ← or_fail (x.hex_decode j.package_sha256) invalid
  require (length digest == 32) invalid
  validate
      (record {
        not_before = from_unix j.not_before;
        expires_at = from_unix j.expires_at;
        lightdm_maintenance = j.maintenance;
      })
      now false
  validate_audit_ip x.parse_ip ip
  require_device faults 1 j.client_id db
  refuse (faults 2) driver
  elim (find (λ row. text_eq row.id j.id) db.update_jobs) [
    | none ↦ schedule_new x faults j actor ip now db
    | some old ↦ (do require (same_request old j) conflict; ok (tt, db))
  ]

unfoldable pub create_client_update_job :
    Externals
    → Faults
    → Faults
    → UpdateJob
    → Text
    → Text
    → ℕ
    → Database
    → Database × Result (Unit {0})
create_client_update_job x outer faults j actor ip now db =
    transaction outer db λ tx. create_update_job x faults j actor ip now tx
