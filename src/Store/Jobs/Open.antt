-- ===== src/Store/Jobs/Open.antt =====
-- At most one open job for each client, and repeated reports.
use stumpfworks_identity.Base.{
  ℕ, ◌≤◌, ◌≡◌, refl, ◌⊎◌, inl, inr, Bool, true, false, List, [], ◌∷◌, arith, Text, text_eq_sound,
  text_eq, find, count, any, count_of_any-false, count-update-le, if◌then◌else◌, Bool-cases,
  Option-cases, Result, ok, err, Faults, transaction,
}
use stumpfworks_identity.Store.Schema.{
  JobState, UpdateJob, Database, scheduled, expired, insert_audit,
}
use stumpfworks_identity.Store.Jobs.{
  may_move, state_eq, Externals, change_update_job, change_client_update_job, job_entry,
}
use stumpfworks_identity.Store.Jobs.Scheduling.{
  open_of, create_update_job, schedule_new, insert_job, create_client_update_job, overdue,
  expire_overdue, add_job, stored,
}
use stumpfworks_identity.Store.Jobs.Lifecycle.{
  Effect, repeated, changed, change-Effect, window, selected, moved,
}

abbrev pub OneOpen : Database → Type 0
OneOpen db = (client : Text) → count (open_of client) db.update_jobs ≤ 1

-- A permitted change opens no job that is closed.
moved_opens_none :
    (j row : UpdateJob) (to : JobState) (rollback : Bool) (now : ℕ) (client : Text)
    → may_move (window j) j.state to now ≡ true
    → state_eq j.state to ≡ false
    → open_of client (if selected j row then moved to rollback now row else row) ≡ true
    → open_of client row ≡ true
unfolding may_move
moved_opens_none j row to rollback now client m d h = ground arith

Effect-OneOpen :
    {faults : Faults} {j : UpdateJob} {to : JobState} {rollback : Bool} {actor ip : Text} {now : ℕ}
    {db after : Database}
    → Effect faults j to rollback actor ip now db after
    → OneOpen db
    → OneOpen after
Effect-OneOpen (repeated _ _ e) h client = rw e (h client)
Effect-OneOpen {j = j} {to = to} {rollback = rollback} {now = now} {db = db} (changed m d _ _ e) h
      client =
    rw e (
      omega (
        arith,
        h client,
        count-update-le (selected j) (moved to rollback now) (open_of client) db.update_jobs
            λ row. moved_opens_none j row to rollback now client m d,
      ))

change-OneOpen :
    (x : Externals) (faults : Faults) (calls : ℕ) (id client : Text) (to : JobState)
    (rollback : Bool) (actor ip : Text) (now : ℕ) (db after : Database)
    → change_update_job x faults calls id client to rollback actor ip now db ≡ ok (tt, after)
    → OneOpen db
    → OneOpen after
change-OneOpen x faults calls id client to rollback actor ip now db after e h =
    let (_, _, effect) =
      change-Effect x faults calls id client to rollback actor ip now db after e in
    Effect-OneOpen effect h

insert-ok :
    (faults : Faults) (j : UpdateJob) (db after : Database)
    → insert_job faults j db ≡ ok after
    → (any (open_of j.client_id) db.update_jobs ≡ false)
      × (after ≡ record db { update_jobs = j ∷ db.update_jobs })
unfolding insert_job
insert-ok faults j db after h = ground arith

insert-OneOpen :
    (faults : Faults) (j : UpdateJob) (db after : Database)
    → insert_job faults j db ≡ ok after
    → OneOpen db
    → OneOpen after
insert-OneOpen faults j db after e h client =
    let (free, same) = insert-ok faults j db after e in
    rw same (counted (Bool-cases (text_eq j.client_id client)) free)
  where
    counted :
        (text_eq j.client_id client ≡ true) ⊎ (text_eq j.client_id client ≡ false)
        → any (open_of j.client_id) db.update_jobs ≡ false
        → count (open_of client) (j ∷ db.update_jobs) ≤ 1
    counted (inl own) free =
        let none_open = count_of_any-false (open_of j.client_id) db.update_jobs free in
        unfold count in ground (arith, none_open, text_eq_sound j.client_id client own)
    counted (inr other) free = unfold count in ground (arith, h client, other)

expire-OneOpen :
    (x : Externals) (faults : Faults) (client actor ip : Text) (now : ℕ) (db ready : Database)
    → expire_overdue x faults client actor ip now db ≡ ok ready
    → OneOpen db
    → OneOpen ready
unfolding expire_overdue
expire-OneOpen x faults client actor ip now db ready e h =
    elim (Option-cases (find (overdue client now) db.update_jobs)) [
      | inl nothing ↦ let same : ready ≡ db = ground (arith, nothing) in rw same h
      | inr (previous, found) ↦
          change-OneOpen x faults 4 previous.id client expired false actor ip now db ready
            (ground (arith, found)) h
    ]

add-OneOpen :
    (faults : Faults) (j : UpdateJob) (actor ip : Text) (now : ℕ) (db after : Database)
    → add_job faults j actor ip now db ≡ ok (tt, after)
    → OneOpen db
    → OneOpen after
unfolding add_job
add-OneOpen faults j actor ip now db after e h =
    let (inserted, i, a) = added in rw a (insert-OneOpen faults (stored j now) db inserted i h)
  where
    added :
        (inserted : Database) × (insert_job faults (stored j now) db ≡ ok inserted)
        × (after ≡ insert_audit (job_entry scheduled j.client_id actor ip j.id) inserted)
    added = ground arith

schedule-OneOpen :
    (x : Externals) (faults : Faults) (j : UpdateJob) (actor ip : Text) (now : ℕ)
    (db after : Database)
    → schedule_new x faults j actor ip now db ≡ ok (tt, after)
    → OneOpen db
    → OneOpen after
unfolding schedule_new
schedule-OneOpen x faults j actor ip now db after e h =
    let (ready, expiring, adding) = parts in
    add-OneOpen faults j actor ip now ready after adding
      (expire-OneOpen x faults j.client_id actor ip now db ready expiring h)
  where
    parts :
        (ready : Database) × (expire_overdue x faults j.client_id actor ip now db ≡ ok ready)
        × (add_job faults j actor ip now ready ≡ ok (tt, after))
    parts = ground arith

-- A request that succeeds has added nothing, or has gone through the scheduling of a new job.
create-ok :
    (x : Externals) (faults : Faults) (j : UpdateJob) (actor ip : Text) (now : ℕ)
    (db after : Database)
    → create_update_job x faults j actor ip now db ≡ ok (tt, after)
    → (after ≡ db) ⊎ (schedule_new x faults j actor ip now db ≡ ok (tt, after))
unfolding create_update_job
create-ok x faults j actor ip now db after e =
    elim (Option-cases (find (λ (row : UpdateJob). text_eq row.id j.id) db.update_jobs)) [
      | inl fresh ↦ inr (ground (arith, fresh))
      | inr (old, found) ↦ inl (ground (arith, found))
    ]

create-OneOpen :
    (x : Externals) (faults : Faults) (j : UpdateJob) (actor ip : Text) (now : ℕ)
    (db after : Database)
    → create_update_job x faults j actor ip now db ≡ ok (tt, after)
    → OneOpen db
    → OneOpen after
create-OneOpen x faults j actor ip now db after e h =
    elim (create-ok x faults j actor ip now db after e) [
      | inl same ↦ rw same h
      | inr made ↦ schedule-OneOpen x faults j actor ip now db after made h
    ]

-- The two operations on jobs, each as a transaction with its own driver failures.
pub data Operation : Type 0 where
  create : UpdateJob → Operation
  change : Text → Text → JobState → Bool → Operation

pub record Call : Type 0 where
  pub outer : Faults
  pub inner : Faults
  pub actor : Text
  pub ip : Text
  pub now : ℕ
  pub operation : Operation

unfoldable pub apply : Externals → Call → Database → Database
apply x c db = elim c.operation [
  | create j ↦ (create_client_update_job x c.outer c.inner j c.actor c.ip c.now db).0
  | change id client to rollback ↦
      (change_client_update_job x c.outer c.inner id client to rollback c.actor c.ip c.now db).0
]

unfoldable pub run : Externals → List Call → Database → Database
run x [] db = db
run x (c ∷ cs) db = run x cs (apply x c db)

transaction-OneOpen :
    (faults : Faults) (db : Database) (body : Result (Unit {0} × Database))
    → OneOpen db
    → ((after : Database) → body ≡ ok (tt, after) → OneOpen after)
    → OneOpen (transaction faults db (λ _. body)).0
transaction-OneOpen faults db (err e) h k = elim (Bool-cases (faults 0)) [
  | inl t ↦ rw t h
  | inr t ↦ rw t h
]
transaction-OneOpen faults db (ok (u, after)) h k = elim (Bool-cases (faults 0)) [
  | inl t ↦ rw t h
  | inr t ↦ rw t (elim (Bool-cases (faults 1)) [ inl c ↦ rw c h | inr c ↦ rw c (k after refl) ])
]

apply-OneOpen : (x : Externals) (c : Call) (db : Database) → OneOpen db → OneOpen (apply x c db)
apply-OneOpen x c db h = by_operation c.operation
  where
    by_operation : (o : Operation) → OneOpen (apply x (record c { operation = o }) db)
    by_operation (create j) =
        unfold apply create_client_update_job in
        transaction-OneOpen c.outer db (create_update_job x c.inner j c.actor c.ip c.now db) h
          λ after e. create-OneOpen x c.inner j c.actor c.ip c.now db after e h
    by_operation (change id client to rollback) =
        unfold apply change_client_update_job in
        transaction-OneOpen c.outer db
          (change_update_job x c.inner 0 id client to rollback c.actor c.ip c.now db) h
          λ after e.
            change-OneOpen x c.inner 0 id client to rollback c.actor c.ip c.now db after e h

-- Any history of scheduling requests and changes of state, with any arguments and any driver
-- failures, keeps at most one scheduled or dispatched job for every client.
pub run-OneOpen :
    (x : Externals) (cs : List Call) (db : Database) → OneOpen db → OneOpen (run x cs db)
unfolding run
run-OneOpen x [] db h = h
run-OneOpen x (c ∷ cs) db h = run-OneOpen x cs (apply x c db) (apply-OneOpen x c db h)
