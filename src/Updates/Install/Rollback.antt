-- ===== src/Updates/Install/Rollback.antt =====
-- internal/clientupdate/rollback.go, restore.go, transaction.go and install.go: the snapshot before
-- an installation, its restoration, and the installation that falls back on it.
use stumpfworks_identity.Base.{
  ℕ, Bool, true, false, not, ◌&&◌, Option, none, some, List, [], ◌∷◌, Text, length, ltb, leb,
  if◌then◌else◌, invalid, conflict, unavailable, Result, ok, err, ◌>>=◌, ◌>>◌, require, refuse,
  or_fail,
}
use stumpfworks_identity.Updates.Versions.{valid_version}
use stumpfworks_identity.Updates.Manifest.{max_file_size}
use stumpfworks_identity.Updates.Install.{
  StagedComponent, StagePlan, Content, Files, RollbackFile, Snapshot, Machine, Call, snapshot_file,
  publish_snapshot, sync_snapshot, write_transaction, sync_transaction, clear_prepared,
  make_prepared, health, remove_transaction, verify_rollback, clear_restore, make_restore,
  prepare_restore, restore_directory, remove_target, copy_old, rename_old, recovery,
  remove_after_rollback, Hashing, copy_and_verify, set_target, is_specified, is_seen,
  requires_lightdm_maintenance, load_stage_plan, validate_staged_payload, Ready, prepare_all,
  install_all,
}

abbrev pub absent_record : StagedComponent → RollbackFile
absent_record c = record {
  component = c.component;
  target = c.target;
  content = none;
  size = 0;
  sha256 = [];
}

abbrev pub present_record : Hashing → StagedComponent → Content → RollbackFile
present_record x c content = record {
  component = c.component;
  target = c.target;
  content = some content;
  size = length content.bytes;
  sha256 = x.digest content.bytes;
}

-- copyRollbackFile and the record of one component.
unfoldable pub save_file :
    Hashing → (Call → Bool) → Files → List Text → StagedComponent → Result RollbackFile
save_file x fails files seen c = do
  require (is_specified c && not (is_seen seen c.component)) invalid
  refuse (fails (snapshot_file c.component)) unavailable
  elim (files c.target) [
    | none ↦ ok (absent_record c)
    | some content ↦
        if leb (length content.bytes) max_file_size
        then ok (present_record x c content)
        else err invalid
  ]

unfoldable pub save_files :
    Hashing → (Call → Bool) → Files → List Text → List StagedComponent → Result (List RollbackFile)
save_files x fails files seen [] = ok []
save_files x fails files seen (c ∷ cs) = do
  one ← save_file x fails files seen c
  rest ← save_files x fails files (c.component ∷ seen) cs
  ok (one ∷ rest)

-- The snapshot is written aside and published by a renaming; what fails before leaves none.
unfoldable pub publish : (Call → Bool) → Snapshot → Machine → Machine × Result (Unit {0})
publish fails snap m =
    if fails publish_snapshot
    then (m, err unavailable)
    else (record m { snapshot = some snap }, if fails sync_snapshot then err unavailable else ok tt)

-- A rollback directory that is there already is not written over.
unfoldable pub create_rollback :
    Hashing → (Call → Bool) → StagePlan → Machine → Machine × Result (Unit {0})
create_rollback x fails plan m = elim m.snapshot [
  | some old ↦ (m, err conflict)
  | none ↦ elim (save_files x fails m.targets [] plan.components) [
    | err e ↦ (m, err e)
    | ok files ↦ publish fails (record { for_release = plan.release_version; files = files }) m
  ]
]

-- The copies that a restoration prepares, each checked against its record.
unfoldable pub check_copy : Hashing → (Call → Bool) → RollbackFile → Result RollbackFile
check_copy x fails f = elim f.content [
  | none ↦ ok f
  | some content ↦ (do
    copy ←
        copy_and_verify x (fails (prepare_restore f.component)) content.bytes f.size f.sha256
          content.mode
    ok (record f { content = some copy }))
]

unfoldable pub check_copies :
    Hashing → (Call → Bool) → List RollbackFile → Result (List RollbackFile)
check_copies x fails [] = ok []
check_copies x fails (f ∷ fs) = do
  one ← check_copy x fails f
  rest ← check_copies x fails fs
  ok (one ∷ rest)

-- A target that did not exist is removed; another gets its old content by a renaming.
unfoldable pub restore_one : Hashing → (Call → Bool) → RollbackFile → Files → Result Files
restore_one x fails f files = do
  refuse (fails (restore_directory f.component)) unavailable
  elim f.content [
    | none ↦
        if fails (remove_target f.component)
        then err unavailable
        else ok (set_target f.target none files)
    | some content ↦ (do
      copy ←
          copy_and_verify x (fails (copy_old f.component)) content.bytes f.size f.sha256
            content.mode
      refuse (fails (rename_old f.component)) unavailable
      ok (set_target f.target (some copy) files))
  ]

unfoldable pub restore_all : Hashing → (Call → Bool) → List RollbackFile → Files → Files × Bool
restore_all x fails [] files = (files, true)
restore_all x fails (f ∷ fs) files = elim (restore_one x fails f files) [
  | err e ↦ (files, false)
  | ok next ↦ restore_all x fails fs next
]

unfoldable pub checked_copies : Hashing → (Call → Bool) → Machine → Result (List RollbackFile)
checked_copies x fails m = do
  snap ← or_fail m.snapshot unavailable
  refuse (fails verify_rollback) invalid
  refuse (fails clear_restore) unavailable
  refuse (fails make_restore) unavailable
  check_copies x fails snap.files

unfoldable pub restore_rollback : Hashing → (Call → Bool) → Machine → Machine × Bool
restore_rollback x fails m = elim (checked_copies x fails m) [
  | err e ↦ (m, false)
  | ok files ↦
      (let restored = restore_all x fails files m.targets in
        (record m { targets = restored.0 }, restored.1))
]

-- How an installation ends. `refused` is before anything was applied; the last three leave the
-- record of the transaction.
pub data Outcome : Type 0 where
  installed refused rolled_back rollback_failed recovery_failed cleanup_failed : Outcome

-- `tracked` is whether there is a path for the record of the transaction.
unfoldable pub after_restoration : (Call → Bool) → Bool → Machine × Bool → Machine × Outcome
after_restoration fails tracked (m, false) = (m, rollback_failed)
after_restoration fails tracked (m, true) =
    if fails recovery
    then (m, recovery_failed)
    else (if tracked
        then (if fails remove_after_rollback
            then (m, cleanup_failed)
            else (record m { transaction = none }, rolled_back))
        else (m, rolled_back))

unfoldable pub rollback_install_failure :
    Hashing → (Call → Bool) → Bool → Machine → Machine × Outcome
rollback_install_failure x fails tracked m =
    after_restoration fails tracked (restore_rollback x fails m)

unfoldable pub finish_install : Hashing → (Call → Bool) → Bool → Machine → Machine × Outcome
finish_install x fails tracked m =
    if fails health
    then rollback_install_failure x fails tracked m
    else (if tracked
        then (if fails remove_transaction
            then rollback_install_failure x fails tracked m
            else (record m { transaction = none }, installed))
        else (m, installed))

unfoldable pub prepared_components :
    Hashing → (Call → Bool) → StagePlan → Machine → Result (List Ready)
prepared_components x fails plan m = do
  refuse (fails clear_prepared) unavailable
  refuse (fails make_prepared) unavailable
  prepare_all x fails m plan.components

unfoldable pub apply_ready :
    Hashing → (Call → Bool) → Bool → List Ready → Machine → Machine × Outcome
apply_ready x fails tracked ready m =
    let applied = install_all x fails ready m.targets in
    let after = record m { targets = applied.0 } in
    if applied.1
    then finish_install x fails tracked after
    else rollback_install_failure x fails tracked after

unfoldable pub apply_plan : Hashing → (Call → Bool) → Bool → StagePlan → Machine → Machine × Outcome
apply_plan x fails tracked plan m = elim (prepared_components x fails plan m) [
  | err e ↦ rollback_install_failure x fails tracked m
  | ok ready ↦ apply_ready x fails tracked ready m
]

-- WriteUpdateTransaction, for a release that validVersion accepts and a time that is set; the
-- record is there when only the last call, on its directory, fails.
unfoldable pub write_update_transaction : (Call → Bool) → StagePlan → ℕ → Machine → Machine × Bool
write_update_transaction fails plan now m =
    if valid_version plan.release_version && (ltb 0 now && not (fails write_transaction))
    then (
      record m {
        transaction = some (record { release_version = plan.release_version; started_at = now });
      },
      not (fails sync_transaction),
    )
    else (m, false)

unfoldable pub begin_transaction : (Call → Bool) → Bool → StagePlan → ℕ → Machine → Machine × Bool
begin_transaction fails tracked plan now m =
    if tracked then write_update_transaction fails plan now m else (m, true)

-- The checks before anything is written.
unfoldable pub checked_plan :
    Hashing → (Call → Bool) → Bool → Option StagePlan → Machine → Result StagePlan
checked_plan x fails allow_lightdm decoded m = do
  plan ← load_stage_plan decoded
  refuse (requires_lightdm_maintenance plan && not allow_lightdm) conflict
  validate_staged_payload x fails m plan
  ok plan

unfoldable pub install_plan :
    Hashing → (Call → Bool) → Bool → ℕ → StagePlan → Machine → Machine × Outcome
install_plan x fails tracked now plan m =
    let saved = create_rollback x fails plan m in
    elim saved.1 [
      | err e ↦ (saved.0, refused)
      | ok _ ↦
          (let begun = begin_transaction fails tracked plan now saved.0 in
            if begun.1 then apply_plan x fails tracked plan begun.0 else (begun.0, refused))
    ]

unfoldable pub install_staged :
    Hashing → (Call → Bool) → Bool → Bool → ℕ → Option StagePlan → Machine → Machine × Outcome
install_staged x fails tracked allow_lightdm now decoded m =
    elim (checked_plan x fails allow_lightdm decoded m) [
      | err e ↦ (m, refused)
      | ok plan ↦ install_plan x fails tracked now plan m
    ]
