-- ===== src/Store/Jobs.antt =====
-- internal/clientupdate/job.go and internal/database/client_update_jobs.go: the window of a
-- client update and its changes of state; Scheduling has its creation.
pub mod Scheduling
pub mod Lifecycle
pub mod Open
pub mod Repeat
use stumpfworks_identity.Base.{
  ℕ, ◌+◌, ◌-◌, ◌*◌, ◌/◌, Bool, true, false, not, ◌&&◌, ◌||◌, Option, [], ◌++◌, Text, codes, text_eq,
  length, find, count, update, ltb, ◌==◌, if◌then◌else◌, invalid, conflict, Result, ok, ◌>>=◌, ◌>>◌,
  require, refuse, Faults, transaction,
}
use stumpfworks_identity.Store.Schema.{
  Event, AuditEntry, AuthMode, JobState, UpdateJob, Database, client_update_scheduled,
  client_update_dispatched, client_update_succeeded, client_update_failed, client_update_cancelled,
  client_update_expired, token_only, scheduled, dispatched, succeeded, failed, cancelled, expired,
  insert_audit, query_row, exec, validate_audit_ip,
}

abbrev pub second : ℕ
second = 1000000000

-- time.Unix(s, 0), with seconds counted from the zero time as the instants are.
abbrev pub from_unix : ℕ → ℕ
from_unix s = s * second

abbrev pub unix : ℕ → ℕ
unix t = t / second

abbrev pub day : ℕ
day = 86400 * second

pub record JobWindow : Type 0 where
  pub not_before : ℕ
  pub expires_at : ℕ
  pub lightdm_maintenance : Bool

-- JobWindow.Validate. Of the two tests on the length, the first refuses every window that ends
-- before it begins, so the truncated difference is read only where it is exact.
unfoldable pub validate : JobWindow → ℕ → Bool → Result (Unit {0})
validate w now requires_lightdm = do
  refuse
      (w.not_before == 0
        || (w.expires_at == 0
            || (not (ltb w.not_before w.expires_at)
                || (ltb day (w.expires_at - w.not_before)
                    || (not (ltb now w.expires_at) || ltb (now + 90 * day) w.not_before)))))
      invalid
  refuse (requires_lightdm && not w.lightdm_maintenance) invalid

abbrev pub state_eq : JobState → JobState → Bool
state_eq scheduled scheduled = true
state_eq dispatched dispatched = true
state_eq succeeded succeeded = true
state_eq failed failed = true
state_eq cancelled cancelled = true
state_eq expired expired = true
state_eq _ _ = false

-- JobWindow.Transition: the cases in which it returns nil.
unfoldable pub may_move : JobWindow → JobState → JobState → ℕ → Bool
may_move w succeeded succeeded now = true
may_move w failed failed now = true
may_move w cancelled cancelled now = true
may_move w expired expired now = true
may_move w scheduled cancelled now = true
may_move w scheduled expired now = not (ltb now w.expires_at)
may_move w scheduled dispatched now = not (ltb now w.not_before) && ltb now w.expires_at
may_move w dispatched succeeded now = true
may_move w dispatched failed now = true
may_move w _ _ now = false

unfoldable pub transition : JobWindow → JobState → JobState → ℕ → Result (Unit {0})
transition w from to now = require (may_move w from to now) conflict

-- What the package reads of other packages: regexp's match of an identifier, hex.DecodeString,
-- net.ParseIP.
pub record Externals : Type 0 where
  pub is_identifier : Text → Bool
  pub hex_decode : Text → Option Text
  pub parse_ip : Text → Bool

abbrev pub is_token_only : AuthMode → Bool
is_token_only token_only = true
is_token_only _ = false

abbrev pub job_event : JobState → Event
job_event scheduled = client_update_scheduled
job_event dispatched = client_update_dispatched
job_event succeeded = client_update_succeeded
job_event failed = client_update_failed
job_event cancelled = client_update_cancelled
job_event expired = client_update_expired

abbrev pub job_entry : JobState → Text → Text → Text → Text → AuditEntry
job_entry state client actor ip id = record {
  event = job_event state;
  badge_id = [];
  username = actor;
  client_id = client;
  success = true;
  ip_address = ip;
  details = codes "job=" ++ id;
}

-- id=$1 AND client_id=$2
abbrev pub is_job : Text → Text → UpdateJob → Bool
is_job id client j = text_eq j.id id && text_eq j.client_id client

-- The device must be enabled and must not authenticate by token alone.
unfoldable pub require_device : Faults → ℕ → Text → Database → Result (Unit {0})
require_device faults call client db = do
  device ← query_row (faults call) (find (λ c. text_eq c.client_id client) db.clients)
  refuse (not device.enabled || is_token_only device.auth_mode) conflict

-- The UPDATE of changeUpdateJob with its check, and the audit entry; `calls` is the number of the
-- first of its driver calls.
unfoldable pub move_job :
    Faults
    → ℕ
    → UpdateJob
    → JobState
    → Bool
    → Text
    → Text
    → ℕ
    → Database
    → Result (Unit {0} × Database)
move_job faults calls j to rollback actor ip now db = do
  let selected = λ (row : UpdateJob). is_job j.id j.client_id row && state_eq row.state j.state
  updated ← exec (faults (calls + 2)) (record db {
    update_jobs =
        update selected
          (λ row. record row { state = to; rollback_available = rollback; updated_at = unix now })
          db.update_jobs;
  })
  require (count selected db.update_jobs == 1) conflict
  audited ←
      exec (faults (calls + 3)) (insert_audit (job_entry to j.client_id actor ip j.id) updated)
  ok (tt, audited)

-- A report of the state that the job is in already.
unfoldable pub repeat_job : UpdateJob → Bool → Database → Result (Unit {0} × Database)
repeat_job j rollback db = do
  let agrees = (j.rollback_available && rollback) || (not j.rollback_available && not rollback)
  require agrees conflict
  ok (tt, db)

unfoldable pub change_found :
    Faults
    → ℕ
    → UpdateJob
    → JobState
    → Bool
    → Text
    → Text
    → ℕ
    → Database
    → Result (Unit {0} × Database)
change_found faults calls j to rollback actor ip now db =
    if state_eq j.state to then repeat_job j rollback db else (do
      transition
          (record {
            not_before = from_unix j.not_before;
            expires_at = from_unix j.expires_at;
            lightdm_maintenance = false;
          })
          j.state to now
      if state_eq to dispatched then require_device faults (calls + 1) j.client_id db else ok tt
      move_job faults calls j to rollback actor ip now db)

-- changeUpdateJob. The row that is found has the identifier and the client that were asked for.
unfoldable pub change_update_job :
    Externals
    → Faults
    → ℕ
    → Text
    → Text
    → JobState
    → Bool
    → Text
    → Text
    → ℕ
    → Database
    → Result (Unit {0} × Database)
change_update_job x faults calls id client to rollback actor ip now db = do
  refuse (not (x.is_identifier id) || ltb 128 (length actor)) invalid
  validate_audit_ip x.parse_ip ip
  j ← query_row (faults calls) (find (is_job id client) db.update_jobs)
  change_found faults calls j to rollback actor ip now db

unfoldable pub change_client_update_job :
    Externals
    → Faults
    → Faults
    → Text
    → Text
    → JobState
    → Bool
    → Text
    → Text
    → ℕ
    → Database
    → Database × Result (Unit {0})
change_client_update_job x outer faults id client to rollback actor ip now db =
    transaction outer db λ tx. change_update_job x faults 0 id client to rollback actor ip now tx
