-- ===== src/Store/Jobs/Lifecycle.antt =====
-- The lifecycle of an update job: what a change of state does, and what it never does.
use stumpfworks_identity.Base.{
  ℕ, ◌+◌, ◌≤◌, ◌<◌, ◌≡◌, refl, subst, ◌≢◌, inl, inr, Bool, true, false, ◌&&◌, some, List, [], ◌∷◌,
  arith, Text, text_eq_refl, text_eq_sound, find-update_stable, find_sound, ◌∙◌, text_eq, find,
  count, update, Bool-cases, ok, Faults,
}
use stumpfworks_identity.Store.Schema.{
  Client, JobState, UpdateJob, Database, token_only, scheduled, dispatched, succeeded, failed,
  cancelled, expired, insert_audit,
}
use stumpfworks_identity.Store.Jobs.{
  JobWindow, may_move, transition, state_eq, Externals, is_job, require_device, move_job,
  repeat_job, change_found, change_update_job, from_unix, unix, job_entry,
}

-- The diagram of the lifecycle.
infix 40 ◌⟶◌
pub data ◌⟶◌ : JobState → JobState → Type 0 where
  cancel : scheduled ⟶ cancelled
  expire : scheduled ⟶ expired
  dispatch : scheduled ⟶ dispatched
  succeed : dispatched ⟶ succeeded
  fail : dispatched ⟶ failed
  again : {s : JobState} → s ⟶ s

may_move-⟶ :
    (w : JobWindow) (from to : JobState) (now : ℕ) → may_move w from to now ≡ true → from ⟶ to
unfolding may_move
may_move-⟶ w from to now h = grind (arith, cancel, expire, dispatch, succeed, fail, again)

state_eq_refl : (s : JobState) → state_eq s s ≡ true
state_eq_refl s = ground arith

pub state_eq_sound : (s t : JobState) → state_eq s t ≡ true → s ≡ t
state_eq_sound s t h = ground arith

abbrev pub window : UpdateJob → JobWindow
window j = record {
  not_before = from_unix j.not_before;
  expires_at = from_unix j.expires_at;
  lightdm_maintenance = false;
}

abbrev pub selected : UpdateJob → UpdateJob → Bool
selected j row = is_job j.id j.client_id row && state_eq row.state j.state

abbrev pub moved : JobState → Bool → ℕ → UpdateJob → UpdateJob
moved to rollback now row = record row {
  state = to;
  rollback_available = rollback;
  updated_at = unix now;
}

-- What a change that is made has done: the job was found, and either it had the state already and
-- nothing is changed, or the lifecycle permits the change, exactly the job was changed, and one
-- audit entry was added.
pub data Effect (faults : Faults) (j : UpdateJob) (to : JobState) (rollback : Bool)
    (actor ip : Text) (now : ℕ) (db after : Database) : Type 0 where
  repeated :
      j.state ≡ to
      → j.rollback_available ≡ rollback
      → after ≡ db
      → Effect faults j to rollback actor ip now db after
  changed :
      may_move (window j) j.state to now ≡ true
      → state_eq j.state to ≡ false
      → (to ≡ dispatched → (call : ℕ) × (require_device faults call j.client_id db ≡ ok tt))
      → count (selected j) db.update_jobs ≡ 1
      → after
        ≡ insert_audit
            (job_entry to j.client_id actor ip j.id)
            (record db { update_jobs = update (selected j) (moved to rollback now) db.update_jobs })
      → Effect faults j to rollback actor ip now db after

move-ok :
    (faults : Faults) (calls : ℕ) (j : UpdateJob) (to : JobState) (rollback : Bool)
    (actor ip : Text) (now : ℕ) (db after : Database)
    → move_job faults calls j to rollback actor ip now db ≡ ok (tt, after)
    → (count (selected j) db.update_jobs ≡ 1)
      × (after
          ≡ insert_audit (job_entry to j.client_id actor ip j.id) (record db {
            update_jobs = update (selected j) (moved to rollback now) db.update_jobs;
          }))
unfolding move_job
move-ok faults calls j to rollback actor ip now db after h = ground arith

repeat-ok :
    (j : UpdateJob) (rollback : Bool) (db after : Database)
    → repeat_job j rollback db ≡ ok (tt, after)
    → (j.rollback_available ≡ rollback) × (after ≡ db)
unfolding repeat_job
repeat-ok j rollback db after h = ground arith

transition-ok :
    (w : JobWindow) (from to : JobState) (now : ℕ) (u : Unit {0})
    → transition w from to now ≡ ok u
    → may_move w from to now ≡ true
unfolding transition
transition-ok w from to now u h = ground arith

found-ok :
    (faults : Faults) (calls : ℕ) (j : UpdateJob) (to : JobState) (rollback : Bool)
    (actor ip : Text) (now : ℕ) (db after : Database)
    → change_found faults calls j to rollback actor ip now db ≡ ok (tt, after)
    → Effect faults j to rollback actor ip now db after
unfolding change_found
found-ok faults calls j to rollback actor ip now db after h =
    elim (Bool-cases (state_eq j.state to)) [
      | inl same ↦
          let (flag, kept) = repeat-ok j rollback db after (ground (arith, same)) in
          repeated (state_eq_sound j.state to same) flag kept
      | inr differ ↦
          let (counted, effect) =
            move-ok faults calls j to rollback actor ip now db after (ground (arith, differ)) in
          changed (ground (arith, differ, transition-ok (window j) j.state to now tt)) differ
            (λ e. (calls + 1, ground (arith, differ, e))) counted effect
    ]

change-ok :
    (x : Externals) (faults : Faults) (calls : ℕ) (id client : Text) (to : JobState)
    (rollback : Bool) (actor ip : Text) (now : ℕ) (db after : Database)
    → change_update_job x faults calls id client to rollback actor ip now db ≡ ok (tt, after)
    → (j : UpdateJob) × (find (is_job id client) db.update_jobs ≡ some j)
      × (change_found faults calls j to rollback actor ip now db ≡ ok (tt, after))
unfolding change_update_job
change-ok x faults calls id client to rollback actor ip now db after h = ground arith

-- A change that is made: the job that it found and the effect.
pub change-Effect :
    (x : Externals) (faults : Faults) (calls : ℕ) (id client : Text) (to : JobState)
    (rollback : Bool) (actor ip : Text) (now : ℕ) (db after : Database)
    → change_update_job x faults calls id client to rollback actor ip now db ≡ ok (tt, after)
    → (j : UpdateJob) × (find (is_job id client) db.update_jobs ≡ some j)
      × Effect faults j to rollback actor ip now db after
change-Effect x faults calls id client to rollback actor ip now db after h =
    let (j, found, made) = change-ok x faults calls id client to rollback actor ip now db after h in
    (j, found, found-ok faults calls j to rollback actor ip now db after made)

-- The job that was found, as the change leaves it.
moved-found :
    (j : UpdateJob) (to : JobState) (rollback : Bool) (now : ℕ) (id client : Text)
    (rows : List UpdateJob)
    → find (is_job id client) rows ≡ some j
    → find (is_job id client) (update (selected j) (moved to rollback now) rows)
      ≡ some (moved to rollback now j)
moved-found j to rollback now id client rows found =
    let own : selected j j ≡ true =
      rw (text_eq_refl j.id, text_eq_refl j.client_id) (state_eq_refl j.state) in
    let left =
      find-update_stable (selected j) (moved to rollback now) (is_job id client) rows j found
        (λ row. ground arith) in
    rw own at left

-- What a change leaves of the jobs: the one that was found is in the state asked for.
Effect-left :
    {faults : Faults} {j : UpdateJob} {to : JobState} {rollback : Bool} {actor ip : Text} {now : ℕ}
    {db after : Database} (id client : Text)
    → find (is_job id client) db.update_jobs ≡ some j
    → Effect faults j to rollback actor ip now db after
    → (k : UpdateJob) × (find (is_job id client) after.update_jobs ≡ some k)
      × (k.state ≡ to)
      × (k.rollback_available ≡ rollback)
      × (j.state ⟶ k.state)
Effect-left {j = j} id client found (repeated e r same) = (j, rw same found, e, r, again)
Effect-left {j = j} {to = to} {rollback = rollback} {now = now} {db = db} id client found
      (changed m _ _ _ same) =
    (
      moved to rollback now j,
      rw same (moved-found j to rollback now id client db.update_jobs found),
      refl,
      refl,
      may_move-⟶ (window j) j.state to now m,
    )

find-update_off :
    (p q : UpdateJob → Bool) (f : UpdateJob → UpdateJob) (rows : List UpdateJob)
    → ((row : UpdateJob) → p row ≡ true → (q row ≡ false) × (q (f row) ≡ false))
    → find q (update p f rows) ≡ find q rows
unfolding find update
find-update_off p q f [] k = refl
find-update_off p q f (row ∷ rows) k = ground (arith, k row, find-update_off p q f rows k)

selected_job :
    (id client : Text) (j row : UpdateJob)
    → is_job id client j ≡ true
    → selected j row ≡ true
    → (row.id ≡ id) × (row.client_id ≡ client)
selected_job id client j row h e = (
  text_eq_sound row.id j.id (ground (arith, e)) ∙ text_eq_sound j.id id (ground (arith, h)),
  text_eq_sound row.client_id j.client_id (ground (arith, e))
      ∙ text_eq_sound j.client_id client (ground (arith, h)),
)

Effect-others :
    {faults : Faults} {j : UpdateJob} {to : JobState} {rollback : Bool} {actor ip : Text} {now : ℕ}
    {db after : Database} (id client other device : Text)
    → find (is_job id client) db.update_jobs ≡ some j
    → (text_eq id other && text_eq client device) ≡ false
    → Effect faults j to rollback actor ip now db after
    → find (is_job other device) after.update_jobs ≡ find (is_job other device) db.update_jobs
Effect-others id client other device found apart (repeated _ _ same) = rw same refl
Effect-others {j = j} {to = to} {rollback = rollback} {now = now} {db = db} id client other device
      found apart (changed _ _ _ _ same) =
    let found_job = find_sound (is_job id client) db.update_jobs j found in
    rw same (
      find-update_off (selected j) (is_job other device) (moved to rollback now) db.update_jobs
        λ row e.
          let (own, owner) = selected_job id client j row found_job e in
          let differs : is_job other device row ≡ false = rw (own, owner) apart in
          (differs, differs))

-- A change of state that is made leaves the job that it found in the state that was asked for, with
-- the rollback that was reported, and follows the lifecycle diagram from the state before: a job
-- leaves scheduled for cancelled, expired or dispatched, dispatched for succeeded or failed, and
-- nothing leaves the other states. A job of another identifier or client is found as before.
pub change-⟶ :
    (x : Externals) (faults : Faults) (calls : ℕ) (id client other device : Text) (to : JobState)
    (rollback : Bool) (actor ip : Text) (now : ℕ) (db after : Database)
    → change_update_job x faults calls id client to rollback actor ip now db ≡ ok (tt, after)
    → (text_eq id other && text_eq client device) ≡ false
    → ((j : UpdateJob) × (k : UpdateJob) × (find (is_job id client) db.update_jobs ≡ some j)
        × (find (is_job id client) after.update_jobs ≡ some k)
        × (k.state ≡ to)
        × (k.rollback_available ≡ rollback)
        × (j.state ⟶ k.state))
      × (find (is_job other device) after.update_jobs ≡ find (is_job other device) db.update_jobs)
change-⟶ x faults calls id client other device to rollback actor ip now db after h apart =
    let (j, found, effect) =
      change-Effect x faults calls id client to rollback actor ip now db after h in
    let (k, left, state, flag, step) = Effect-left id client found effect in
    (
      (j, k, found, left, state, flag, step),
      Effect-others id client other device found apart effect,
    )

dispatch_window :
    (j : UpdateJob) (now : ℕ)
    → may_move (window j) j.state dispatched now ≡ true
    → state_eq j.state dispatched ≡ false
    → (j.state ≡ scheduled) × (from_unix j.not_before ≤ now) × (now < from_unix j.expires_at)
unfolding may_move
dispatch_window j now m d = ground arith

device-ok :
    (faults : Faults) (call : ℕ) (client : Text) (db : Database)
    → require_device faults call client db ≡ ok tt
    → (c : Client) × (find (λ (c : Client). text_eq c.client_id client) db.clients ≡ some c)
      × (c.enabled ≡ true)
      × (c.auth_mode ≢ token_only)
unfolding require_device
device-ok faults call client db h = ground arith

-- A job that becomes dispatched was scheduled, lies in its execution window at that instant, and
-- its device is enabled and authenticates by certificate.
pub dispatch_safe :
    (x : Externals) (faults : Faults) (calls : ℕ) (id client : Text) (rollback : Bool)
    (actor ip : Text) (now : ℕ) (db after : Database) (j : UpdateJob)
    → change_update_job x faults calls id client dispatched rollback actor ip now db
      ≡ ok (tt, after)
    → find (is_job id client) db.update_jobs ≡ some j
    → j.state ≢ dispatched
    → (j.state ≡ scheduled)
      × (from_unix j.not_before ≤ now)
      × (now < from_unix j.expires_at)
      × ((c : Client) × (find (λ (c : Client). text_eq c.client_id j.client_id) db.clients ≡ some c)
          × (c.enabled ≡ true)
          × (c.auth_mode ≢ token_only))
dispatch_safe x faults calls id client rollback actor ip now db after j h found fresh =
    let (k, found', effect) =
      change-Effect x faults calls id client dispatched rollback actor ip now db after h in
    let same : k ≡ j = ground (arith, found') in
    safe (subst (λ r. Effect faults r dispatched rollback actor ip now db after) same effect)
  where
    safe :
        Effect faults j dispatched rollback actor ip now db after
        → (j.state ≡ scheduled)
          × (from_unix j.not_before ≤ now)
          × (now < from_unix j.expires_at)
          × ((c : Client) × (find (λ (c : Client). text_eq c.client_id j.client_id) db.clients
                ≡ some c)
              × (c.enabled ≡ true)
              × (c.auth_mode ≢ token_only))
    safe (repeated e _ _) = absurd (fresh e)
    safe (changed m d device _ _) =
        let (call, granted) = device refl in
        let (was, started, early) = dispatch_window j now m d in
        (was, started, early, device-ok faults call j.client_id db granted)
