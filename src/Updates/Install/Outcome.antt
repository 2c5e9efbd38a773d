-- ===== src/Updates/Install/Outcome.antt =====
-- How an installation ends: every way but one leaves the files as they were or as they should be.
use stumpfworks_identity.Base.{
  ℕ, ◌≡◌, refl, sym, ap, subst, ◌∙◌, ◌⊎◌, inl, inr, Bool, true, false, Option, some, List, [],
  arith, Text, All, any, Result-cases, Bool-cases, Option-cases, ok,
}
use stumpfworks_identity.Updates.Install.{
  StagePlan, Files, RollbackFile, Snapshot, Call, Machine, Hashing, Ready, install_all, prepare_all,
}
use stumpfworks_identity.Updates.Install.Rollback.{
  save_files, publish, create_rollback, check_copies, checked_copies, restore_all, restore_rollback,
  Outcome, installed, refused, rolled_back, rollback_failed, recovery_failed, cleanup_failed,
  after_restoration, rollback_install_failure, finish_install, prepared_components, apply_ready,
  apply_plan, write_update_transaction, begin_transaction, checked_plan, install_plan,
  install_staged,
}
use stumpfworks_identity.Updates.Install.Restored.{
  at_path, staged_at, Saved, save_files-ok, check_copies-ok, restore_all-Saved, install_all-off,
  prepare_all-ok,
}

-- The outcomes after which the old files are in place, by what the code reports.
unfoldable pub keeps_old : Outcome → Bool
keeps_old installed = false
keeps_old refused = true
keeps_old rolled_back = true
keeps_old rollback_failed = false
keeps_old recovery_failed = true
keeps_old cleanup_failed = true

-- The outcomes that leave the recovery to the next start.
unfoldable pub is_pending : Outcome → Bool
is_pending installed = false
is_pending refused = false
is_pending rolled_back = false
is_pending rollback_failed = true
is_pending recovery_failed = true
is_pending cleanup_failed = true

-- The machine has a snapshot of the original files, and differs from them at its paths only.
pub record Covered (original : Files) (m : Machine) : Type 0 where
  pub snap : Snapshot
  pub has : m.snapshot ≡ some snap
  pub saved : All (Saved original) snap.files
  pub others :
      (path : Text) → any (at_path path) snap.files ≡ false → m.targets path ≡ original path

module _ (x : Hashing) (fails : Call → Bool) (tracked : Bool) where
  -- What the restoration does to the files is what the failure leaves.
  after_restoration-restored :
      (m : Machine) (restored : Bool)
      → keeps_old (after_restoration fails tracked (m, restored)).1 ≡ true
      → (restored ≡ true) × ((after_restoration fails tracked (m, restored)).0.targets ≡ m.targets)
  unfolding after_restoration keeps_old
  after_restoration-restored m true h = (refl, ground arith)
  after_restoration-restored m false h = ground arith

  pub checked-same :
      (snap : Snapshot) (m : Machine) (files : List RollbackFile)
      → m.snapshot ≡ some snap
      → checked_copies x fails m ≡ ok files
      → files ≡ snap.files
  unfolding checked_copies
  checked-same snap m files has h =
      let checked : check_copies x fails snap.files ≡ ok files = ground (arith, has) in
      check_copies-ok x fails snap.files files checked

  rollback-original :
      (original : Files) (snap : Snapshot) (m : Machine) (path : Text)
      → m.snapshot ≡ some snap
      → All (Saved original) snap.files
      → (any (at_path path) snap.files ≡ false → m.targets path ≡ original path)
      → keeps_old (rollback_install_failure x fails tracked m).1 ≡ true
      → (rollback_install_failure x fails tracked m).0.targets path ≡ original path
  unfolding rollback_install_failure restore_rollback
  rollback-original original snap m path has saved off h =
      elim (Result-cases (checked_copies x fails m)) [
        | inr (e, w) ↦
            let (bad, _) =
              after_restoration-restored m false
                (rw (w, rollback_install_failure, restore_rollback) at h) in
            absurd (ground arith)
        | inl (files, w) ↦
            let same : files ≡ snap.files = checked-same snap m files has w in
            let done = restore_all x fails files m.targets in
            let (through, left) =
              after_restoration-restored (record m { targets = done.0 }) done.1
                (rw (w, rollback_install_failure, restore_rollback) at h) in
            rw (w, rollback_install_failure, restore_rollback)
              (ap (λ t. t path) left
                ∙ restore_all-Saved x fails original files m.targets path (rw same saved)
                    (λ out. off (rw same at out)) through)
      ]

  Covered-original :
      (original : Files) (m : Machine) (path : Text)
      → Covered original m
      → keeps_old (rollback_install_failure x fails tracked m).1 ≡ true
      → (rollback_install_failure x fails tracked m).0.targets path ≡ original path
  Covered-original original m path c h =
      rollback-original original c.snap m path c.has c.saved (c.others path) h

  -- An installation that is not complete after its files are in place is undone.
  pub finish-cases :
      (m : Machine)
      → (finish_install x fails tracked m ≡ rollback_install_failure x fails tracked m)
        ⊎ ((finish_install x fails tracked m).1 ≡ installed)
  unfolding finish_install
  finish-cases m = ground arith

  finish-original :
      (original : Files) (m : Machine) (path : Text)
      → Covered original m
      → keeps_old (finish_install x fails tracked m).1 ≡ true
      → (finish_install x fails tracked m).0.targets path ≡ original path
  unfolding keeps_old
  finish-original original m path c h = elim (finish-cases m) [
    | inl e ↦ rw e (Covered-original original m path c (rw e at h))
    | inr e ↦ absurd (ground (arith, e))
  ]

  apply-original :
      (original : Files) (ready : List Ready) (snap : Snapshot) (m : Machine) (path : Text)
      → m.snapshot ≡ some snap
      → All (Saved original) snap.files
      → m.targets ≡ original
      → ((p : Text) → any (λ (r : Ready). staged_at p r.staged) ready ≡ any (at_path p) snap.files)
      → keeps_old (apply_ready x fails tracked ready m).1 ≡ true
      → (apply_ready x fails tracked ready m).0.targets path ≡ original path
  unfolding apply_ready
  apply-original original ready snap m path has saved same paths h =
      let after = record m { targets = (install_all x fails ready m.targets).0 } in
      let covered : Covered original after = record {
        snap = snap;
        has = has;
        saved = saved;
        others =
            λ p out. install_all-off x fails ready m.targets p (paths p ∙ out) ∙ ap (λ t. t p) same;
      } in
      elim (Bool-cases (install_all x fails ready m.targets).1) [
        | inl e ↦
            rw (e, apply_ready)
              (finish-original original after path covered (rw (e, apply_ready) at h))
        | inr e ↦
            rw (e, apply_ready)
              (Covered-original original after path covered (rw (e, apply_ready) at h))
      ]

  apply_plan-original :
      (plan : StagePlan) (snap : Snapshot) (m : Machine) (path : Text)
      → m.snapshot ≡ some snap
      → All (Saved m.targets) snap.files
      → ((p : Text) → any (at_path p) snap.files ≡ any (staged_at p) plan.components)
      → keeps_old (apply_plan x fails tracked plan m).1 ≡ true
      → (apply_plan x fails tracked plan m).0.targets path ≡ m.targets path
  unfolding apply_plan prepared_components
  apply_plan-original plan snap m path has saved paths h =
      elim (Result-cases (prepared_components x fails plan m)) [
        | inr (e, w) ↦
            rw (w, apply_plan)
              (Covered-original m.targets m path
                (record { snap = snap; has = has; saved = saved; others = λ p out. refl })
                (rw (w, apply_plan) at h))
        | inl (ready, w) ↦
            let prepared : prepare_all x fails m plan.components ≡ ok ready = ground (arith, w) in
            rw (w, apply_plan)
              (apply-original m.targets ready snap m path has saved refl
                (λ p. prepare_all-ok x fails m plan.components ready prepared p ∙ sym (paths p))
                (rw (w, apply_plan) at h))
      ]

  pub begin-keeps :
      (plan : StagePlan) (now : ℕ) (m : Machine)
      → ((begin_transaction fails tracked plan now m).0.targets ≡ m.targets)
        × ((begin_transaction fails tracked plan now m).0.snapshot ≡ m.snapshot)
  unfolding begin_transaction write_update_transaction
  begin-keeps plan now m = (ground arith, ground arith)

  pub create-ok :
      (plan : StagePlan) (m : Machine) → ((create_rollback x fails plan m).0.targets ≡ m.targets)
  unfolding create_rollback publish
  create-ok plan m = elim (Option-cases m.snapshot) [
    | inr (old, w) ↦ ground (arith, w)
    | inl w ↦ elim (Result-cases (save_files x fails m.targets [] plan.components)) [
      | inr (e, v) ↦ ground (arith, w, v)
      | inl (files, v) ↦ ground (arith, w, v)
    ]
  ]

  pub created-snapshot :
      (plan : StagePlan) (m : Machine)
      → (create_rollback x fails plan m).1 ≡ ok tt
      → (snap : Snapshot) × ((create_rollback x fails plan m).0.snapshot ≡ some snap)
        × (save_files x fails m.targets [] plan.components ≡ ok snap.files)
  unfolding create_rollback publish
  created-snapshot plan m h =
      elim (Result-cases (save_files x fails m.targets [] plan.components)) [
        | inr (e, v) ↦ absurd (ground (arith, v))
        | inl (files, v) ↦
            (record { for_release = plan.release_version; files = files }, ground (arith, v), v)
      ]

  install_plan-original :
      (now : ℕ) (plan : StagePlan) (m : Machine) (path : Text)
      → keeps_old (install_plan x fails tracked now plan m).1 ≡ true
      → (install_plan x fails tracked now plan m).0.targets path ≡ m.targets path
  unfolding install_plan
  install_plan-original now plan m path h =
      let created = (create_rollback x fails plan m).0 in
      let begun = begin_transaction fails tracked plan now created in
      let kept = create-ok plan m in
      let (same, still) = begin-keeps plan now created in
      elim (Result-cases (create_rollback x fails plan m).1) [
        | inr (e, w) ↦ rw (w, install_plan) (ap (λ t. t path) kept)
        | inl (u, w) ↦ elim (Bool-cases begun.1) [
          | inr v ↦ rw (w, v, install_plan) (ap (λ t. t path) (same ∙ kept))
          | inl v ↦
              let (snap, has, saved) = created-snapshot plan m w in
              let (all_saved, paths) =
                save_files-ok x fails m.targets [] plan.components snap.files saved in
              rw (w, v, install_plan)
                (apply_plan-original plan snap begun.0 path (still ∙ has)
                    (subst (λ t. All (Saved t) snap.files) (sym (same ∙ kept)) all_saved) paths
                    (rw (w, v, install_plan) at h)
                  ∙ ap (λ t. t path) (same ∙ kept))
        ]
      ]

-- An installation that is refused, or that fails and reports that the files were restored, leaves
-- every file of the machine as it was, at whichever call it failed: only a success changes files,
-- or a rollback that failed itself.
pub files_restored :
    (x : Hashing) (fails : Call → Bool) (tracked allow_lightdm : Bool) (now : ℕ)
    (decoded : Option StagePlan) (m : Machine) (path : Text)
    → keeps_old (install_staged x fails tracked allow_lightdm now decoded m).1 ≡ true
    → (install_staged x fails tracked allow_lightdm now decoded m).0.targets path ≡ m.targets path
unfolding install_staged
files_restored x fails tracked allow_lightdm now decoded m path h =
    elim (Result-cases (checked_plan x fails allow_lightdm decoded m)) [
      | inr (e, w) ↦ rw (w, install_staged) refl
      | inl (plan, w) ↦
          rw (w, install_staged)
            (install_plan-original x fails tracked now plan m path (rw (w, install_staged) at h))
    ]
