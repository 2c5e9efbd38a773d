-- ===== src/Updates/Worker/Run.antt =====
-- internal/clientupdate/worker.go RunWorker: one run, from the recovery to the result.
use stumpfworks_identity.Base.{
  ℕ, Bool, true, false, not, ◌&&◌, ◌||◌, Option, none, some, List, [], ◌∷◌, Text, codes, text_eq,
  length, ltb, leb, ◌==◌, if◌then◌else◌,
}
use stumpfworks_identity.Store.Schema.{dispatched}
use stumpfworks_identity.Updates.Install.{StagePlan, Machine, requires_lightdm_maintenance}
use stumpfworks_identity.Updates.Install.Rollback.{Outcome, installed, install_staged}
use stumpfworks_identity.Updates.Install.Recovery.{Recovery, not_recovered, recover_locked}
use stumpfworks_identity.Updates.Worker.{
  RemoteJob, Phase, WorkerJournal, JournalFile, Node, World, valid_remote_job, worker_rollback_path,
  worker_rollback, write_worker_journal, forget_journal, worker_installed_version, prepared,
  executing, succeeded, failed, unknown, no_journal, garbled, written, lock_error, lock_taken,
  read_journal, load_key, make_directory, write_package, make_stage, read_pending,
}
use stumpfworks_identity.Updates.Worker.Resume.{
  finish_worker, settle, machine_at, with_machine, no_payload, give_up, resume_executing,
}

-- A step before the installation: an error, a job that the server withdrew, or what the step yields.
pub data Step {ℓ} (A : Type ℓ) : Type ℓ where
  stopped withdrawn : Step A
  gained : A → Step A

abbrev pub refused_status {ℓ} : {A : Type ℓ} → ℕ → Step A
refused_status status = if (status == 409) || (status == 404) then withdrawn else stopped

-- maxPackageSize with the allowance of 1 << 20
abbrev pub max_download : ℕ
max_download = 269484032

unfoldable pub download : World → RemoteJob → Step Text
download w j =
    if w.fails load_key || w.fails make_directory then stopped else elim w.download_answer [
      | none ↦ stopped
      | some (status, body) ↦ if not (status == 200) then refused_status status else elim body [
        | none ↦ stopped
        | some bytes ↦
            if leb (length bytes) max_download
              && (text_eq (w.hashing.digest bytes) j.package_sha256 && not (w.fails write_package))
            then gained bytes
            else stopped
      ]
    ]

-- VerifyPackage with the tests on what it yields, then VerifyAndStage with the tests on the plan.
unfoldable pub stage_package :
    World → RemoteJob → Text → Text → Step (StagePlan × (Text → Option Text))
stage_package w j bytes current = elim (w.verify_package bytes current) [
  | none ↦ stopped
  | some manifest ↦
      if text_eq manifest.channel (codes "stable")
        && (text_eq manifest.release_version j.release_version && not (w.fails make_stage))
      then elim (w.verify_and_stage bytes current) [
        | none ↦ stopped
        | some (plan, payload) ↦
            if (requires_lightdm_maintenance plan && not j.maintenance)
              || leb j.expires_at w.now_staged
            then stopped
            else gained (plan, payload)
      ]
      else stopped
]

unfoldable pub grant : World → Step (Unit {0})
grant w = elim w.start_answer [
  | none ↦ stopped
  | some status ↦ if status == 204 then gained tt else refused_status status
]

abbrev pub after_step : {A : Type 0} → World → Node → (A → Node × Bool) → Step A → Node × Bool
after_step w n continue stopped = (n, false)
after_step w n continue withdrawn = forget_journal w n
after_step w n continue (gained a) = continue a

abbrev pub phase_of : Outcome → Phase
phase_of installed = succeeded
phase_of _ = failed

-- What follows the installation: while a transaction is left, the journal stays as it is.
unfoldable pub record_outcome : World → RemoteJob → Outcome → Node → Node × Bool
record_outcome w j outcome n = elim n.transaction [
  | some left ↦ (n, false)
  | none ↦
      if w.fails read_pending
      then (n, false)
      else settle w (record { job = j; phase = phase_of outcome; rollback = worker_rollback w j n })
          n
]

-- installStagedWithTransaction, and what is recorded of it.
unfoldable pub install_and_record :
    World → RemoteJob → StagePlan → (Text → Option Text) → Node → Node × Bool
install_and_record w j plan payload n =
    let path = worker_rollback_path j in
    let done =
      install_staged w.hashing w.installing true j.maintenance w.now_started (some plan)
        (machine_at n path payload) in
    record_outcome w j done.1 (with_machine path done.0 n)

-- A loss of power in the installation leaves the machine anyhow.
unfoldable pub attempt_install :
    World → RemoteJob → StagePlan → (Text → Option Text) → Option Machine → Node → Node × Bool
attempt_install w j plan payload (some left) n =
    (with_machine (worker_rollback_path j) left n, false)
attempt_install w j plan payload none n = install_and_record w j plan payload n

unfoldable pub install_job :
    World → RemoteJob → StagePlan × (Text → Option Text) → Node → Node × Bool
install_job w j (plan, payload) n =
    attempt_install w j plan payload w.power_loss
      (record n { installations = j.id ∷ n.installations })

-- The worker writes no rollback into a journal that is prepared, so none is kept here.
unfoldable pub start_job : World → RemoteJob → StagePlan × (Text → Option Text) → Node → Node × Bool
start_job w j staged n =
    let begun =
      write_worker_journal w (record { job = j; phase = executing; rollback = false }) n in
    if begun.1 then install_job w j staged begun.0 else (begun.0, false)

unfoldable pub prepare_above : World → RemoteJob → Text → Option Text → Node → Node × Bool
prepare_above w j bytes none n = (n, false)
prepare_above w j bytes (some current) n =
    after_step w n (λ staged. after_step w n (λ granted. start_job w j staged n) (grant w))
      (stage_package w j bytes current)

unfoldable pub prepare_job : World → RemoteJob → Text → Node → Node × Bool
prepare_job w j bytes n =
    let current = worker_installed_version w w.state_before n in
    prepare_above w j bytes current.1 current.0

unfoldable pub execute_job : World → RemoteJob → Node → Node × Bool
execute_job w j n =
    if ltb w.now j.not_before || leb j.expires_at w.now
    then forget_journal w n
    else after_step w n (λ bytes. prepare_job w j bytes n) (download w j)

unfoldable pub resume_in : World → Phase → WorkerJournal → Node → Node × Bool
resume_in w prepared entry n = execute_job w entry.job n
resume_in w executing entry n = resume_executing w entry.job n
resume_in w succeeded entry n = finish_worker w entry n
resume_in w failed entry n = finish_worker w entry n
resume_in w unknown entry n = (n, false)

-- A new job is written down first.
unfoldable pub accept_new : World → RemoteJob → Node → Node × Bool
accept_new w j n =
    let kept = write_worker_journal w (record { job = j; phase = prepared; rollback = false }) n in
    if kept.1 then execute_job w j kept.0 else (kept.0, false)

-- A job that was dispatched already has lost its journal here, and is not executed.
unfoldable pub accept_job : World → RemoteJob → Node → Node × Bool
accept_job w j n = elim j.state [ dispatched ↦ give_up w j n | _ ↦ accept_new w j n ]

unfoldable pub poll_job : World → Node → Node × Bool
poll_job w n = elim w.poll_answer [
  | none ↦ (n, false)
  | some (status, body) ↦ if status == 204 then (n, true) else elim body [
    | none ↦ (n, false)
    | some j ↦ if (status == 200) && valid_remote_job w j then accept_job w j n else (n, false)
  ]
]

unfoldable pub work_on : World → JournalFile → Node → Node × Bool
work_on w no_journal n = poll_job w n
work_on w garbled n = (n, false)
work_on w (written entry) n =
    if valid_remote_job w entry.job then resume_in w entry.phase entry n else (n, false)

unfoldable pub work : World → Node → Node × Bool
work w n = if w.fails read_journal then (n, false) else work_on w n.journal n

unfoldable pub after_recovery : World → Recovery → Node → Node × Bool
after_recovery w not_recovered n = (n, false)
after_recovery w _ n = work w n

-- RunWorker. Another update that holds the lock ends the run without an error.
unfoldable pub run_worker : World → Node → Node × Bool
run_worker w n =
    if w.fails lock_error
    then (n, false)
    else (if w.fails lock_taken
        then (n, true)
        else (let done =
              recover_locked w.hashing w.recovering (machine_at n n.rollback_path no_payload) in
            after_recovery w done.1
              (record n { targets = done.0.targets; transaction = done.0.transaction })))

-- The runs of the timer, each in its own world.
unfoldable pub run_all : List World → Node → Node
run_all [] n = n
run_all (w ∷ ws) n = run_all ws (run_worker w n).0
