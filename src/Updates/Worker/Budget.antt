-- ===== src/Updates/Worker/Budget.antt =====
-- internal/clientupdate/worker.go: how many installations the journal of a client still allows, and
-- what the steps of a run leave of them.
use stumpfworks_identity.Base.{
  ℕ, ◌+◌, ◌≤◌, Text, true, false, Option, none, some, length, ◌≡◌, refl, arith,
}
use stumpfworks_identity.Updates.Install.{Machine, StagePlan}
use stumpfworks_identity.Updates.Install.Rollback.{
  install_staged, Outcome, installed, refused, rolled_back, rollback_failed, recovery_failed,
  cleanup_failed,
}
use stumpfworks_identity.Updates.Worker.{
  RemoteJob, Phase, UpdateState, prepared, executing, succeeded, failed, unknown, WorkerJournal,
  JournalFile, no_journal, garbled, written, Node, World, write_worker_journal, forget_journal,
  save_installed, worker_installed_version, worker_rollback, worker_rollback_path,
}
use stumpfworks_identity.Updates.Worker.Resume.{
  is_acknowledged, keep_floor, note_success, finish_worker, settle, restore_interrupted, give_up,
  resume_executing, with_machine, machine_at,
}
use stumpfworks_identity.Updates.Worker.Run.{
  phase_of, record_outcome, attempt_install, install_and_record,
}

-- The installations that a journal still allows: none once it is executing or has a result.
unfoldable pub phase_chances : Phase → ℕ
phase_chances prepared = 1
phase_chances unknown = 1
phase_chances _ = 0

unfoldable pub chances : JournalFile → ℕ
chances no_journal = 1
chances garbled = 1
chances (written entry) = phase_chances entry.phase

unfoldable pub budget : Node → ℕ
budget n = length n.installations + chances n.journal

phase_chances-le : (p : Phase) → phase_chances p ≤ 1
unfolding phase_chances
phase_chances-le prepared = omega arith
phase_chances-le executing = omega arith
phase_chances-le succeeded = omega arith
phase_chances-le failed = omega arith
phase_chances-le unknown = omega arith

chances-le : (f : JournalFile) → chances f ≤ 1
unfolding chances
chances-le no_journal = omega arith
chances-le garbled = omega arith
chances-le (written entry) = phase_chances-le entry.phase

save_installed-budget :
    (w : World) (v : Text) (n : Node) → budget (save_installed w v n).0 ≡ budget n
unfolding budget save_installed
save_installed-budget w v n = ground arith

pub worker_installed_version-budget :
    (w : World) (state : Option (Option UpdateState)) (n : Node)
    → budget (worker_installed_version w state n).0 ≡ budget n
unfolding worker_installed_version
worker_installed_version-budget w state n = grind (arith, save_installed-budget)

keep_floor-budget :
    (w : World) (entry : WorkerJournal) (n : Node) → budget (keep_floor w entry n).0 ≡ budget n
unfolding keep_floor
keep_floor-budget w entry n = grind (arith, save_installed-budget, worker_installed_version-budget)

note_success-budget :
    (w : World) (entry : WorkerJournal) (n : Node) → budget (note_success w entry n).0 ≡ budget n
unfolding note_success
note_success-budget w entry n = grind (arith, keep_floor-budget)

pub forget_journal-budget :
    (w : World) (n : Node) → chances n.journal ≡ 1 → budget (forget_journal w n).0 ≡ budget n
unfolding budget forget_journal chances
forget_journal-budget w n h = ground arith

pub finish_worker-budget :
    (w : World) (entry : WorkerJournal) (n : Node)
    → is_acknowledged w ≡ false
    → budget (finish_worker w entry n).0 ≡ budget n
unfolding finish_worker
finish_worker-budget w entry n h = grind (arith, note_success-budget)

-- A journal that allows nothing more.
pub write_worker_journal-budget :
    (w : World) (entry : WorkerJournal) (n : Node)
    → phase_chances entry.phase ≤ chances n.journal
    → budget (write_worker_journal w entry n).0 ≤ budget n
unfolding budget write_worker_journal chances
write_worker_journal-budget w entry n h = ground arith

settle-budget :
    (w : World) (entry : WorkerJournal) (n : Node)
    → is_acknowledged w ≡ false
    → phase_chances entry.phase ≤ chances n.journal
    → budget (settle w entry n).0 ≤ budget n
unfolding settle
settle-budget w entry n u h =
    let kept = write_worker_journal-budget w entry n h in
    let finished = finish_worker-budget w entry (write_worker_journal w entry n).0 u in ground arith

pub give_up-budget :
    (w : World) (j : RemoteJob) (n : Node)
    → is_acknowledged w ≡ false
    → budget (give_up w j n).0 ≤ budget n
unfolding give_up phase_chances
give_up-budget w j n u = settle-budget w _ n u (omega arith)

restore_interrupted-budget :
    (w : World) (j : RemoteJob) (n : Node) → budget (restore_interrupted w j n).0 ≡ budget n
unfolding budget restore_interrupted
restore_interrupted-budget w j n = ground arith

pub resume_executing-budget :
    (w : World) (j : RemoteJob) (n : Node)
    → is_acknowledged w ≡ false
    → budget (resume_executing w j n).0 ≤ budget n
unfolding resume_executing
resume_executing-budget w j n u =
    let restored = restore_interrupted-budget w j n in
    let given = give_up-budget w j (restore_interrupted w j n).0 u in ground arith

phase_of-chances : (outcome : Outcome) → phase_chances (phase_of outcome) ≡ 0
unfolding phase_chances
phase_of-chances installed = refl
phase_of-chances refused = refl
phase_of-chances rolled_back = refl
phase_of-chances rollback_failed = refl
phase_of-chances recovery_failed = refl
phase_of-chances cleanup_failed = refl

record_outcome-budget :
    (w : World) (j : RemoteJob) (outcome : Outcome) (n : Node)
    → is_acknowledged w ≡ false
    → budget (record_outcome w j outcome n).0 ≤ budget n
unfolding record_outcome
record_outcome-budget w j outcome n u =
    let settled =
      settle-budget w
        (record { job = j; phase = phase_of outcome; rollback = worker_rollback w j n }) n u
        (let none_left = phase_of-chances outcome in omega arith) in
    ground arith

with_machine-budget :
    (path : Text) (m : Machine) (n : Node) → budget (with_machine path m n) ≡ budget n
unfolding budget
with_machine-budget path m n = refl

pub attempt_install-budget :
    (w : World) (j : RemoteJob) (plan : StagePlan) (payload : Text → Option Text)
    (power_loss : Option Machine) (n : Node)
    → is_acknowledged w ≡ false
    → budget (attempt_install w j plan payload power_loss n).0 ≤ budget n
unfolding attempt_install install_and_record
attempt_install-budget w j plan payload (some left) n u =
    let same = with_machine-budget (worker_rollback_path j) left n in omega arith
attempt_install-budget w j plan payload none n u =
    let done =
      install_staged w.hashing w.installing true j.maintenance w.now_started (some plan)
        (machine_at n (worker_rollback_path j) payload) in
    let noted =
      record_outcome-budget w j done.1 (with_machine (worker_rollback_path j) done.0 n) u in
    let same = with_machine-budget (worker_rollback_path j) done.0 n in omega arith
