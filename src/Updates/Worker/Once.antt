-- ===== src/Updates/Worker/Once.antt =====
-- internal/clientupdate/worker.go: how often an installation is called.
use stumpfworks_identity.Base.{
  ◌+◌, ◌≤◌, Text, ap, ◌∙◌, Bool, true, false, Option, none, some, List, [], ◌∷◌, length, ◌≡◌, refl,
  arith, All,
}
use stumpfworks_identity.Updates.Install.{Machine, StagePlan}
use stumpfworks_identity.Updates.Install.Recovery.{
  Recovery, busy, nothing_pending, recovered, not_recovered, recover_locked,
}
use stumpfworks_identity.Updates.Worker.{
  RemoteJob, Phase, UpdateState, prepared, executing, succeeded, failed, unknown, WorkerJournal,
  JournalFile, no_journal, garbled, written, Node, World, write_worker_journal, save_installed,
  worker_installed_version,
}
use stumpfworks_identity.Updates.Worker.Resume.{is_acknowledged, machine_at, no_payload}
use stumpfworks_identity.Updates.Worker.Run.{
  Step, stopped, withdrawn, gained, download, stage_package, grant, after_step, install_job,
  start_job, prepare_job, execute_job, prepare_above, resume_in, accept_new, work_on, accept_job,
  poll_job, work, after_recovery, run_worker, run_all,
}
use stumpfworks_identity.Updates.Worker.Budget.{
  phase_chances, chances, budget, worker_installed_version-budget, forget_journal-budget,
  finish_worker-budget, write_worker_journal-budget, give_up-budget, resume_executing-budget,
  attempt_install-budget,
}

called-budget :
    (j : RemoteJob) (n : Node)
    → budget (record n { installations = j.id ∷ n.installations }) ≡ budget n + 1
unfolding budget
called-budget j n = omega arith

write_executing-budget :
    (w : World) (j : RemoteJob) (n : Node)
    → chances n.journal ≡ 1
    → (write_worker_journal w (record { job = j; phase = executing; rollback = false }) n).1 ≡ true
    → budget (write_worker_journal w (record { job = j; phase = executing; rollback = false }) n).0
        + 1
      ≤ budget n
unfolding budget write_worker_journal chances phase_chances
write_executing-budget w j n h e = ground arith

install_job-budget :
    (w : World) (j : RemoteJob) (staged : StagePlan × (Text → Option Text)) (n : Node)
    → is_acknowledged w ≡ false
    → budget (install_job w j staged n).0 ≤ budget n + 1
unfolding install_job
install_job-budget w j (plan, payload) n u =
    let called = record n { installations = j.id ∷ n.installations } in
    let attempted = attempt_install-budget w j plan payload w.power_loss called u in
    let one_more = called-budget j n in omega arith

start_job-budget :
    (w : World) (j : RemoteJob) (staged : StagePlan × (Text → Option Text)) (n : Node)
    → is_acknowledged w ≡ false
    → chances n.journal ≡ 1
    → budget (start_job w j staged n).0 ≤ budget n
unfolding start_job phase_chances
start_job-budget w j staged n u h =
    let begun = write_executing-budget w j n h in
    let kept =
      write_worker_journal-budget w (record { job = j; phase = executing; rollback = false }) n
        (omega arith) in
    let run =
      install_job-budget w j staged
        (write_worker_journal w (record { job = j; phase = executing; rollback = false }) n).0 u in
    ground (arith, begun, run)

worker_installed_version-journal :
    (w : World) (state : Option (Option UpdateState)) (n : Node)
    → (worker_installed_version w state n).0.journal ≡ n.journal
unfolding worker_installed_version save_installed
worker_installed_version-journal w state n = ground arith

after_step-budget :
    {A : Type 0} (w : World) (n : Node) (continue : A → Node × Bool)
    → chances n.journal ≡ 1
    → ((a : A) → budget (continue a).0 ≤ budget n)
    → (s : Step A) → budget (after_step w n continue s).0 ≤ budget n
after_step-budget w n continue h k stopped = omega arith
after_step-budget w n continue h k withdrawn =
    let forgotten = forget_journal-budget w n h in omega arith
after_step-budget w n continue h k (gained a) = k a

prepare_above-budget :
    (w : World) (j : RemoteJob) (bytes : Text) (current : Option Text) (n : Node)
    → is_acknowledged w ≡ false
    → chances n.journal ≡ 1
    → budget (prepare_above w j bytes current n).0 ≤ budget n
unfolding prepare_above
prepare_above-budget w j bytes none n u h = omega arith
prepare_above-budget w j bytes (some current) n u h =
    after_step-budget w n _ h
      (λ staged. after_step-budget w n _ h (λ granted. start_job-budget w j staged n u h) (grant w))
      (stage_package w j bytes current)

prepare_job-budget :
    (w : World) (j : RemoteJob) (bytes : Text) (n : Node)
    → is_acknowledged w ≡ false
    → chances n.journal ≡ 1
    → budget (prepare_job w j bytes n).0 ≤ budget n
unfolding prepare_job
prepare_job-budget w j bytes n u h =
    let current = worker_installed_version w w.state_before n in
    let same = worker_installed_version-budget w w.state_before n in
    let prepared_budget =
      prepare_above-budget w j bytes current.1 current.0 u
        (ap chances (worker_installed_version-journal w w.state_before n) ∙ h) in
    omega arith

execute_job-budget :
    (w : World) (j : RemoteJob) (n : Node)
    → is_acknowledged w ≡ false
    → chances n.journal ≡ 1
    → budget (execute_job w j n).0 ≤ budget n
unfolding execute_job
execute_job-budget w j n u h =
    let forgotten = forget_journal-budget w n h in
    let executed =
      after_step-budget w n (λ bytes. prepare_job w j bytes n) h
        (λ bytes. prepare_job-budget w j bytes n u h) (download w j) in
    ground arith

written-chances : (entry : WorkerJournal) → chances (written entry) ≡ phase_chances entry.phase
unfolding chances
written-chances entry = refl

resume_in-budget :
    (w : World) (phase : Phase) (entry : WorkerJournal) (n : Node)
    → is_acknowledged w ≡ false
    → n.journal ≡ written entry
    → entry.phase ≡ phase
    → budget (resume_in w phase entry n).0 ≤ budget n
unfolding resume_in phase_chances
resume_in-budget w prepared entry n u e p =
    execute_job-budget w entry.job n u (ap chances e ∙ written-chances entry ∙ ap phase_chances p)
resume_in-budget w executing entry n u e p = resume_executing-budget w entry.job n u
resume_in-budget w succeeded entry n u e p =
    let same = finish_worker-budget w entry n u in omega arith
resume_in-budget w failed entry n u e p = let same = finish_worker-budget w entry n u in omega arith
resume_in-budget w unknown entry n u e p = omega arith

write_prepared-budget :
    (w : World) (j : RemoteJob) (n : Node)
    → chances n.journal ≡ 1
    → (chances
          (write_worker_journal w
            (record { job = j; phase = prepared; rollback = false })
            n).0.journal
        ≡ 1)
      × (budget
            (write_worker_journal w (record { job = j; phase = prepared; rollback = false }) n).0
          ≡ budget n)
unfolding budget write_worker_journal chances phase_chances
write_prepared-budget w j n h = (ground arith, ground arith)

accept_new-budget :
    (w : World) (j : RemoteJob) (n : Node)
    → is_acknowledged w ≡ false
    → chances n.journal ≡ 1
    → budget (accept_new w j n).0 ≤ budget n
unfolding accept_new
accept_new-budget w j n u h =
    let kept = write_prepared-budget w j n h in
    let executed =
      execute_job-budget w j
        (write_worker_journal w (record { job = j; phase = prepared; rollback = false }) n).0 u
        kept.0 in
    let same = kept.1 in ground arith

poll_job-budget :
    (w : World) (n : Node)
    → is_acknowledged w ≡ false
    → chances n.journal ≡ 1
    → budget (poll_job w n).0 ≤ budget n
unfolding poll_job accept_job
poll_job-budget w n u h = grind (arith, accept_new-budget, give_up-budget)

work_on-budget :
    (w : World) (file : JournalFile) (n : Node)
    → is_acknowledged w ≡ false
    → n.journal ≡ file
    → budget (work_on w file n).0 ≤ budget n
unfolding work_on chances
work_on-budget w no_journal n u e = poll_job-budget w n u (ap chances e)
work_on-budget w garbled n u e = omega arith
work_on-budget w (written entry) n u e =
    let resumed = resume_in-budget w entry.phase entry n u e refl in ground arith

work-budget : (w : World) (n : Node) → is_acknowledged w ≡ false → budget (work w n).0 ≤ budget n
unfolding work
work-budget w n u = let worked = work_on-budget w n.journal n u refl in ground arith

recovered_node-budget :
    (m : Machine) (n : Node)
    → budget (record n { targets = m.targets; transaction = m.transaction }) ≡ budget n
unfolding budget
recovered_node-budget m n = refl

after_recovery-budget :
    (w : World) (recovery : Recovery) (n : Node)
    → is_acknowledged w ≡ false
    → budget (after_recovery w recovery n).0 ≤ budget n
unfolding after_recovery
after_recovery-budget w busy n u = work-budget w n u
after_recovery-budget w nothing_pending n u = work-budget w n u
after_recovery-budget w recovered n u = work-budget w n u
after_recovery-budget w not_recovered n u = omega arith

run_worker-budget :
    (w : World) (n : Node) → is_acknowledged w ≡ false → budget (run_worker w n).0 ≤ budget n
unfolding run_worker
run_worker-budget w n u =
    let done = recover_locked w.hashing w.recovering (machine_at n n.rollback_path no_payload) in
    let next = record n { targets = done.0.targets; transaction = done.0.transaction } in
    let same = recovered_node-budget done.0 n in
    let ran = after_recovery-budget w done.1 next u in ground arith

run_all-budget :
    (ws : List World) (n : Node)
    → All (λ (w : World). is_acknowledged w ≡ false) ws
    → budget (run_all ws n) ≤ budget n
unfolding run_all
run_all-budget [] n us = omega arith
run_all-budget (w ∷ ws) n (u, us) =
    let first = run_worker-budget w n u in
    let others = run_all-budget ws (run_worker w n).0 us in omega arith

-- However many times the worker runs, whatever the server answers, whichever calls fail and wherever
-- the power is lost in an installation: as long as the server acknowledges no result, at most one
-- installation is called, and none when the journal is executing or has a result.
pub executed_once :
    (ws : List World) (n : Node)
    → All (λ (w : World). is_acknowledged w ≡ false) ws
    → length (run_all ws n).installations ≤ length n.installations + chances n.journal
unfolding budget
executed_once ws n us = let bounded = run_all-budget ws n us in omega arith
