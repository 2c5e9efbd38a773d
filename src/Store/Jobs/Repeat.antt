-- ===== src/Store/Jobs/Repeat.antt =====
-- Repeated reports: a change that was made may be asked for again.
use stumpfworks_identity.Base.{
  ℕ, ◌≤◌, ◌≡◌, refl, ◌∙◌, Bool, true, false, some, arith, Text, text_eq_refl, length, find, update,
  find-update_stable, if◌then◌else◌, ok, Faults,
}
use stumpfworks_identity.Store.Schema.{JobState, UpdateJob, Database, validate_audit_ip}
use stumpfworks_identity.Store.Jobs.{
  Externals, is_job, state_eq, change_update_job, change_found, repeat_job,
}
use stumpfworks_identity.Store.Jobs.Lifecycle.{
  Effect, repeated, changed, change-Effect, selected, moved,
}

found_after :
    (j : UpdateJob) (id client : Text) (to : JobState) (rollback : Bool) (now : ℕ) (db : Database)
    → find (is_job id client) db.update_jobs ≡ some j
    → find (is_job id client) (update (selected j) (moved to rollback now) db.update_jobs)
      ≡ some (if selected j j then moved to rollback now j else j)
found_after j id client to rollback now db found =
    find-update_stable (selected j) (moved to rollback now) (is_job id client) db.update_jobs j
      found λ row. ground arith

selected_self : (j : UpdateJob) → selected j j ≡ true
selected_self j = ground (arith, text_eq_refl j.id, text_eq_refl j.client_id)

-- After a change that was made, the job is found in the new state with the reported flag.
settled :
    {faults : Faults} {j : UpdateJob} {to : JobState} {rollback : Bool} {actor ip : Text} {now : ℕ}
    {db after : Database} (id client : Text)
    → Effect faults j to rollback actor ip now db after
    → find (is_job id client) db.update_jobs ≡ some j
    → (k : UpdateJob) × (find (is_job id client) after.update_jobs ≡ some k)
      × (k.state ≡ to)
      × (k.rollback_available ≡ rollback)
settled {j = j} id client (repeated s r e) found = (j, rw e found, s, r)
settled {j = j} {to = to} {rollback = rollback} {now = now} {db = db} id client (changed _ _ _ _ e)
      found =
    (
      moved to rollback now j,
      rw e (found_after j id client to rollback now db found ∙ rw (selected_self j)),
      refl,
      refl,
    )

settled_repeat :
    (j : UpdateJob) (rollback : Bool) (db : Database)
    → j.rollback_available ≡ rollback
    → repeat_job j rollback db ≡ ok (tt, db)
unfolding repeat_job
settled_repeat j true db e = ground arith
settled_repeat j false db e = ground arith

state_eq_same : (s t : JobState) → s ≡ t → state_eq s t ≡ true
state_eq_same s t e = ground arith

-- A change that was made may be asked for again at any time, by any actor with a short name and
-- from any valid address: if the one driver call works, it succeeds and leaves the whole database,
-- the audit log included, as it was.
pub change_twice :
    (x : Externals) (faults again : Faults) (calls later_calls : ℕ) (id client : Text)
    (to : JobState) (rollback : Bool) (actor actor' ip ip' : Text) (now later : ℕ)
    (db after : Database)
    → change_update_job x faults calls id client to rollback actor ip now db ≡ ok (tt, after)
    → again later_calls ≡ false
    → length actor' ≤ 128
    → validate_audit_ip x.parse_ip ip' ≡ ok tt
    → change_update_job x again later_calls id client to rollback actor' ip' later after
      ≡ ok (tt, after)
unfolding change_update_job change_found
change_twice x faults again calls later_calls id client to rollback actor actor' ip ip' now later db
      after h w len valid =
    let (j, found, effect) =
      change-Effect x faults calls id client to rollback actor ip now db after h in
    let (k, found', state, flag) = settled id client effect found in
    ground
      (arith, valid, found', state_eq_same k.state to state, settled_repeat k rollback after flag)
