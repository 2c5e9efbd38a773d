-- ===== src/Updates/Worker/Resume.antt =====
-- internal/clientupdate/worker.go finishWorker, and what a run does with a job that was executing.
use stumpfworks_identity.Base.{
  Bool, true, false, not, ◌&&◌, ◌||◌, Option, none, some, Text, text_eq, ◌==◌, if◌then◌else◌,
}
use stumpfworks_identity.Updates.Install.{Snapshot, Machine}
use stumpfworks_identity.Updates.Install.Rollback.{restore_rollback}
use stumpfworks_identity.Updates.Worker.{
  RemoteJob, WorkerJournal, Node, World, worker_rollback_path, worker_rollback,
  write_worker_journal, forget_journal, is_later, save_installed, worker_installed_version,
  succeeded, failed, find_rollback, check_rollback, restart_services, write_failed_state,
}

unfoldable pub is_acknowledged : World → Bool
is_acknowledged w = elim w.result_answer [ none ↦ false | some status ↦ status == 204 ]

unfoldable pub keep_floor : World → WorkerJournal → Node → Node × Bool
keep_floor w entry n =
    let current = worker_installed_version w w.state_after n in
    elim current.1 [
      | none ↦ (current.0, false)
      | some v ↦
          if is_later entry.job.release_version v
          then save_installed w entry.job.release_version current.0
          else (current.0, true)
    ]

unfoldable pub note_success : World → WorkerJournal → Node → Node × Bool
note_success w entry n = elim entry.phase [ succeeded ↦ keep_floor w entry n | _ ↦ (n, true) ]

-- finishWorker: the journal goes only when the server has acknowledged the result.
unfoldable pub finish_worker : World → WorkerJournal → Node → Node × Bool
finish_worker w entry n =
    let noted = note_success w entry n in
    if noted.1 && is_acknowledged w then forget_journal w noted.0 else (noted.0, false)

unfoldable pub settle : World → WorkerJournal → Node → Node × Bool
settle w entry n =
    let kept = write_worker_journal w entry n in
    if kept.1 then finish_worker w entry kept.0 else (kept.0, false)

abbrev pub machine_at : Node → Text → (Text → Option Text) → Machine
machine_at n path payload = record {
  targets = n.targets;
  payload = payload;
  snapshot = n.snapshots path;
  transaction = n.transaction;
}

abbrev pub put_snapshot : Text → Option Snapshot → (Text → Option Snapshot) → Text → Option Snapshot
put_snapshot path snap snapshots = λ p. if text_eq p path then snap else snapshots p

-- A transaction that is begun names the snapshot of its job.
abbrev pub with_machine : Text → Machine → Node → Node
with_machine path m n = record n {
  targets = m.targets;
  snapshots = put_snapshot path m.snapshot n.snapshots;
  transaction = m.transaction;
  rollback_path = path;
}

abbrev pub no_payload : Text → Option Text
no_payload name = none

-- A journal that is executing: the snapshot of its job, if there is one, is put back.
unfoldable pub restore_interrupted : World → RemoteJob → Node → Node × Bool
restore_interrupted w j n =
    if w.fails find_rollback then (n, false) else elim (n.snapshots (worker_rollback_path j)) [
      | none ↦ (n, true)
      | some snap ↦
          if w.fails check_rollback || not (text_eq snap.for_release j.release_version)
          then (n, false)
          else (let restored =
                restore_rollback w.hashing w.restoring
                  (machine_at n (worker_rollback_path j) no_payload) in
              (
                record n { targets = restored.0.targets },
                restored.1 && not (w.fails restart_services || w.fails write_failed_state),
              ))
    ]

unfoldable pub give_up : World → RemoteJob → Node → Node × Bool
give_up w j n = settle w (record { job = j; phase = failed; rollback = worker_rollback w j n }) n

unfoldable pub resume_executing : World → RemoteJob → Node → Node × Bool
resume_executing w j n =
    let restored = restore_interrupted w j n in
    if restored.1 then give_up w j restored.0 else (restored.0, false)
