-- ===== src/Updates/Worker.antt =====
-- internal/clientupdate/worker.go: the worker that executes the update jobs of the server on a
-- client, for a valid configuration. What one run meets outside is a `World`: the answers of the
-- server, the calls that fail, the clock, and what a loss of power during the installation leaves.
-- The instants of a job are seconds after the epoch.
pub mod Resume
pub mod Run
pub mod Budget
pub mod Once
use stumpfworks_identity.Base.{
  ℕ, ◌-◌, Bool, true, false, not, ◌&&◌, Option, none, some, List, ◌++◌, Text, codes, text_eq,
  length, ltb, leb, ◌==◌, if◌then◌else◌,
}
use stumpfworks_identity.Store.Schema.{JobState, scheduled, dispatched}
use stumpfworks_identity.Updates.Versions.{valid_version, greater, compare_versions}
use stumpfworks_identity.Updates.Manifest.{Manifest}
use stumpfworks_identity.Updates.Install.{
  StagePlan, Files, Snapshot, UpdateTransaction, Machine, Call, Hashing,
}

pub record RemoteJob : Type 0 where
  pub id : Text
  pub client_id : Text
  pub release_id : Text
  pub release_version : Text
  pub package_sha256 : Text
  pub not_before : ℕ
  pub expires_at : ℕ
  pub maintenance : Bool
  pub state : JobState

-- `unknown` is every other text.
pub data Phase : Type 0 where
  prepared executing succeeded failed unknown : Phase

pub record WorkerJournal : Type 0 where
  pub job : RemoteJob
  pub phase : Phase
  pub rollback : Bool

-- job.json: not there, too large or of another form, or a journal.
pub data JournalFile : Type 0 where
  no_journal garbled : JournalFile
  written : WorkerJournal → JournalFile

-- The snapshots are by their directories, and `rollback_path` is the one that the record of the
-- transaction names. `installations` is no file: it lists the jobs whose installation was called.
pub record Node : Type 0 where
  pub targets : Files
  pub snapshots : Text → Option Snapshot
  pub transaction : Option UpdateTransaction
  pub rollback_path : Text
  pub journal : JournalFile
  pub installed_version : Option Text
  pub installations : List Text

pub record UpdateState : Type 0 where
  pub version : Text
  pub is_success : Bool

pub data Place : Type 0 where
  lock_error lock_taken read_journal find_rollback check_rollback check_result restart_services :
      Place
  write_failed_state remove_journal load_key make_directory write_package : Place
  make_stage read_installed write_installed sync_installed read_pending : Place
  write_journal sync_journal : Phase → Place

-- A request is answered by none when it fails, else by its status, and by the body where it is read.
-- `verify_package` and `verify_and_stage` are VerifyPackage and VerifyAndStage with the key and the
-- platform given; the latter yields the payload of the stage directory with the plan.
pub record World : Type 0 where
  pub fails : Place → Bool
  pub recovering : Call → Bool
  pub restoring : Call → Bool
  pub installing : Call → Bool
  pub client_id : Text
  pub version : Text
  pub poll_answer : Option (ℕ × Option RemoteJob)
  pub download_answer : Option (ℕ × Option Text)
  pub start_answer : Option ℕ
  pub result_answer : Option ℕ
  pub now : ℕ
  pub now_staged : ℕ
  pub now_started : ℕ
  pub state_before : Option (Option UpdateState)
  pub state_after : Option (Option UpdateState)
  pub power_loss : Option Machine
  pub hashing : Hashing
  pub hex_decode : Text → Option Text
  pub id_match : Text → Bool
  pub marshal : Text → Text
  pub unmarshal : Text → Option Text
  pub verify_package : Text → Text → Option Manifest
  pub verify_and_stage : Text → Text → Option (StagePlan × (Text → Option Text))

abbrev pub is_job_state : JobState → Bool
is_job_state scheduled = true
is_job_state dispatched = true
is_job_state _ = false

abbrev pub is_digest : Option Text → Bool
is_digest none = false
is_digest (some bytes) = length bytes == 32

-- validRemoteJob
unfoldable pub valid_remote_job : World → RemoteJob → Bool
valid_remote_job w j =
    text_eq j.client_id w.client_id
    && (w.id_match j.id
        && (w.id_match j.release_id
            && (valid_version j.release_version
                && (is_digest (w.hex_decode j.package_sha256)
                    && (ltb j.not_before j.expires_at
                        && (leb (j.expires_at - j.not_before) 86400 && is_job_state j.state))))))

-- workerRollbackPath below the root of the installation
abbrev pub worker_rollback_path : RemoteJob → Text
worker_rollback_path j = codes "/var/backups/stumpfworks-badge/job-" ++ j.id

-- workerRollback
unfoldable pub worker_rollback : World → RemoteJob → Node → Bool
worker_rollback w j n = elim (n.snapshots (worker_rollback_path j)) [
  | none ↦ false
  | some snap ↦ not (w.fails check_result) && text_eq snap.for_release j.release_version
]

-- writeWorkerJournal: the journal is there when only the call on the directory fails.
unfoldable pub write_worker_journal : World → WorkerJournal → Node → Node × Bool
write_worker_journal w entry n =
    if w.fails (write_journal entry.phase)
    then (n, false)
    else (record n { journal = written entry }, not (w.fails (sync_journal entry.phase)))

unfoldable pub forget_journal : World → Node → Node × Bool
forget_journal w n =
    if w.fails remove_journal then (n, false) else (record n { journal = no_journal }, true)

abbrev pub is_later : Text → Text → Bool
is_later a b = elim (compare_versions a b) [ some greater ↦ true | _ ↦ false ]

unfoldable pub save_installed : World → Text → Node → Node × Bool
save_installed w v n =
    if w.fails write_installed
    then (n, false)
    else (record n { installed_version = some (w.marshal v) }, not (w.fails sync_installed))

-- The version of the program, or the one that is saved when it is later.
unfoldable pub saved_version : World → Node → Option Text
saved_version w n = if w.fails read_installed then none else elim n.installed_version [
  | none ↦ some w.version
  | some raw ↦ if ltb 128 (length raw) then none else elim (w.unmarshal raw) [
    | none ↦ none
    | some saved ↦
        if valid_version saved
        then some (if is_later saved w.version then saved else w.version)
        else none
  ]
]

-- workerInstalledVersion, where `state` is what is read from the state of the last update.
unfoldable pub worker_installed_version :
    World → Option (Option UpdateState) → Node → Node × Option Text
worker_installed_version w state n = elim (saved_version w n) [
  | none ↦ (n, none)
  | some current ↦ elim state [
    | none ↦ (n, none)
    | some none ↦ (n, some current)
    | some (some s) ↦
        if s.is_success && is_later s.version current
        then (let saved = save_installed w s.version n in
            (saved.0, if saved.1 then some s.version else none))
        else (n, some current)
  ]
]
