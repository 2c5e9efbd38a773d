-- ===== src/Examples/Install.antt =====
-- An installation that succeeds, one that is rolled back, and one that the next start undoes.
use stumpfworks_identity.Base.{
  ◌≡◌, refl, Bool, true, false, none, some, [], ◌∷◌, codes, text_eq, split, All, find, any, all, ok,
}
use stumpfworks_identity.Examples.Data.{repeated}
use stumpfworks_identity.Updates.Install.{
  StagedComponent, StagePlan, Content, Files, Call, health, recovery, Machine, Hashing, unit_file,
}
use stumpfworks_identity.Updates.Install.Rollback.{
  installed, rolled_back, recovery_failed, checked_plan, install_staged,
}
use stumpfworks_identity.Updates.Install.Outcome.{files_restored}
use stumpfworks_identity.Updates.Install.Recovery.{recovered, recover_pending_update}
use stumpfworks_identity.Updates.Install.Recovered.{pending_recovered}
use stumpfworks_identity.Updates.Install.Installed.{Verified, laid_out, install_installed}

abbrev pub hashing : Hashing
hashing = record { digest = λ t. repeated 64 1; equal_fold = text_eq }

abbrev timer : StagedComponent
timer = record {
  component = codes "swbadge-client-status.timer";
  target = codes "/etc/systemd/system/swbadge-client-status.timer";
  mode = unit_file;
  sha256 = repeated 64 1;
  restart_lightdm = false;
}

abbrev pub plan : StagePlan
plan = record {
  release_version = codes "1.0.0";
  architecture = codes "linux-amd64";
  components = timer ∷ [];
}

abbrev pub machine : Machine
machine = record {
  targets = λ path. some (record { bytes = 1 ∷ []; mode = unit_file });
  payload = λ name. some (2 ∷ []);
  snapshot = none;
  transaction = none;
}

abbrev pub all_work : Call → Bool
all_work c = false

abbrev unhealthy : Call → Bool
unhealthy health = true
unhealthy c = false

abbrev unrecovered : Call → Bool
unrecovered health = true
unrecovered recovery = true
unrecovered c = false

install_run : (install_staged hashing all_work true false 5 (some plan) machine).1 ≡ installed
unfolding install_staged checked_plan stumpfworks_identity.Updates.Install.load_stage_plan
    stumpfworks_identity.Updates.Versions.valid_version
    stumpfworks_identity.Updates.Versions.valid_build stumpfworks_identity.Updates.Versions.cut
    stumpfworks_identity.Updates.Versions.valid_pre stumpfworks_identity.Updates.Versions.valid_main
    split all stumpfworks_identity.Updates.Versions.valid_number
    stumpfworks_identity.Updates.Install.requires_lightdm_maintenance any
    stumpfworks_identity.Updates.Install.validate_staged_payload
    stumpfworks_identity.Updates.Install.validate_components
    stumpfworks_identity.Updates.Install.validate_component
    stumpfworks_identity.Updates.Install.is_specified find text_eq
    stumpfworks_identity.Updates.Install.Rollback.after_restoration
    stumpfworks_identity.Updates.Install.Rollback.apply_plan
    stumpfworks_identity.Updates.Install.Rollback.apply_ready
    stumpfworks_identity.Updates.Install.Rollback.begin_transaction
    stumpfworks_identity.Updates.Install.Rollback.check_copies
    stumpfworks_identity.Updates.Install.Rollback.check_copy
    stumpfworks_identity.Updates.Install.Rollback.checked_copies
    stumpfworks_identity.Updates.Install.Rollback.create_rollback
    stumpfworks_identity.Updates.Install.Rollback.finish_install
    stumpfworks_identity.Updates.Install.Rollback.install_plan
    stumpfworks_identity.Updates.Install.Rollback.prepared_components
    stumpfworks_identity.Updates.Install.Rollback.publish
    stumpfworks_identity.Updates.Install.Rollback.restore_all
    stumpfworks_identity.Updates.Install.Rollback.restore_one
    stumpfworks_identity.Updates.Install.Rollback.restore_rollback
    stumpfworks_identity.Updates.Install.Rollback.rollback_install_failure
    stumpfworks_identity.Updates.Install.Rollback.save_file
    stumpfworks_identity.Updates.Install.Rollback.save_files
    stumpfworks_identity.Updates.Install.Rollback.write_update_transaction
    stumpfworks_identity.Updates.Install.component_specs
    stumpfworks_identity.Updates.Install.copy_and_verify
    stumpfworks_identity.Updates.Install.install_all
    stumpfworks_identity.Updates.Install.install_one
    stumpfworks_identity.Updates.Install.prepare_all
    stumpfworks_identity.Updates.Install.prepare_one
    stumpfworks_identity.Updates.Install.restarts_as_specified
    stumpfworks_identity.Updates.Install.spec_of
    stumpfworks_identity.Updates.Versions.valid_identifiers
install_run = refl

rollback_run : (install_staged hashing unhealthy true false 5 (some plan) machine).1 ≡ rolled_back
unfolding install_staged checked_plan stumpfworks_identity.Updates.Install.load_stage_plan
    stumpfworks_identity.Updates.Versions.valid_version
    stumpfworks_identity.Updates.Versions.valid_build stumpfworks_identity.Updates.Versions.cut
    stumpfworks_identity.Updates.Versions.valid_pre stumpfworks_identity.Updates.Versions.valid_main
    split all stumpfworks_identity.Updates.Versions.valid_number
    stumpfworks_identity.Updates.Install.requires_lightdm_maintenance any
    stumpfworks_identity.Updates.Install.validate_staged_payload
    stumpfworks_identity.Updates.Install.validate_components
    stumpfworks_identity.Updates.Install.validate_component
    stumpfworks_identity.Updates.Install.is_specified find text_eq
    stumpfworks_identity.Updates.Install.Rollback.after_restoration
    stumpfworks_identity.Updates.Install.Rollback.apply_plan
    stumpfworks_identity.Updates.Install.Rollback.apply_ready
    stumpfworks_identity.Updates.Install.Rollback.begin_transaction
    stumpfworks_identity.Updates.Install.Rollback.check_copies
    stumpfworks_identity.Updates.Install.Rollback.check_copy
    stumpfworks_identity.Updates.Install.Rollback.checked_copies
    stumpfworks_identity.Updates.Install.Rollback.create_rollback
    stumpfworks_identity.Updates.Install.Rollback.finish_install
    stumpfworks_identity.Updates.Install.Rollback.install_plan
    stumpfworks_identity.Updates.Install.Rollback.prepared_components
    stumpfworks_identity.Updates.Install.Rollback.publish
    stumpfworks_identity.Updates.Install.Rollback.restore_all
    stumpfworks_identity.Updates.Install.Rollback.restore_one
    stumpfworks_identity.Updates.Install.Rollback.restore_rollback
    stumpfworks_identity.Updates.Install.Rollback.rollback_install_failure
    stumpfworks_identity.Updates.Install.Rollback.save_file
    stumpfworks_identity.Updates.Install.Rollback.save_files
    stumpfworks_identity.Updates.Install.Rollback.write_update_transaction
    stumpfworks_identity.Updates.Install.component_specs
    stumpfworks_identity.Updates.Install.copy_and_verify
    stumpfworks_identity.Updates.Install.install_all
    stumpfworks_identity.Updates.Install.install_one
    stumpfworks_identity.Updates.Install.prepare_all
    stumpfworks_identity.Updates.Install.prepare_one
    stumpfworks_identity.Updates.Install.restarts_as_specified
    stumpfworks_identity.Updates.Install.spec_of
    stumpfworks_identity.Updates.Versions.valid_identifiers
rollback_run = refl

pending_run :
    (install_staged hashing unrecovered true false 5 (some plan) machine).1 ≡ recovery_failed
unfolding install_staged checked_plan stumpfworks_identity.Updates.Install.load_stage_plan
    stumpfworks_identity.Updates.Versions.valid_version
    stumpfworks_identity.Updates.Versions.valid_build stumpfworks_identity.Updates.Versions.cut
    stumpfworks_identity.Updates.Versions.valid_pre stumpfworks_identity.Updates.Versions.valid_main
    split all stumpfworks_identity.Updates.Versions.valid_number
    stumpfworks_identity.Updates.Install.requires_lightdm_maintenance any
    stumpfworks_identity.Updates.Install.validate_staged_payload
    stumpfworks_identity.Updates.Install.validate_components
    stumpfworks_identity.Updates.Install.validate_component
    stumpfworks_identity.Updates.Install.is_specified find text_eq
    stumpfworks_identity.Updates.Install.Rollback.after_restoration
    stumpfworks_identity.Updates.Install.Rollback.apply_plan
    stumpfworks_identity.Updates.Install.Rollback.apply_ready
    stumpfworks_identity.Updates.Install.Rollback.begin_transaction
    stumpfworks_identity.Updates.Install.Rollback.check_copies
    stumpfworks_identity.Updates.Install.Rollback.check_copy
    stumpfworks_identity.Updates.Install.Rollback.checked_copies
    stumpfworks_identity.Updates.Install.Rollback.create_rollback
    stumpfworks_identity.Updates.Install.Rollback.finish_install
    stumpfworks_identity.Updates.Install.Rollback.install_plan
    stumpfworks_identity.Updates.Install.Rollback.prepared_components
    stumpfworks_identity.Updates.Install.Rollback.publish
    stumpfworks_identity.Updates.Install.Rollback.restore_all
    stumpfworks_identity.Updates.Install.Rollback.restore_one
    stumpfworks_identity.Updates.Install.Rollback.restore_rollback
    stumpfworks_identity.Updates.Install.Rollback.rollback_install_failure
    stumpfworks_identity.Updates.Install.Rollback.save_file
    stumpfworks_identity.Updates.Install.Rollback.save_files
    stumpfworks_identity.Updates.Install.Rollback.write_update_transaction
    stumpfworks_identity.Updates.Install.component_specs
    stumpfworks_identity.Updates.Install.copy_and_verify
    stumpfworks_identity.Updates.Install.install_all
    stumpfworks_identity.Updates.Install.install_one
    stumpfworks_identity.Updates.Install.prepare_all
    stumpfworks_identity.Updates.Install.prepare_one
    stumpfworks_identity.Updates.Install.restarts_as_specified
    stumpfworks_identity.Updates.Install.spec_of
    stumpfworks_identity.Updates.Versions.valid_identifiers
pending_run = refl

recovery_run :
    (recover_pending_update hashing all_work
      (install_staged hashing unrecovered true false 5 (some plan) machine).0).1
    ≡ recovered
unfolding recover_pending_update stumpfworks_identity.Updates.Install.Recovery.recover_locked
    install_staged checked_plan stumpfworks_identity.Updates.Install.load_stage_plan
    stumpfworks_identity.Updates.Versions.valid_version
    stumpfworks_identity.Updates.Versions.valid_build stumpfworks_identity.Updates.Versions.cut
    stumpfworks_identity.Updates.Versions.valid_pre stumpfworks_identity.Updates.Versions.valid_main
    split all stumpfworks_identity.Updates.Versions.valid_number
    stumpfworks_identity.Updates.Install.requires_lightdm_maintenance any
    stumpfworks_identity.Updates.Install.validate_staged_payload
    stumpfworks_identity.Updates.Install.validate_components find text_eq
    stumpfworks_identity.Updates.Install.Recovery.after_restored
    stumpfworks_identity.Updates.Install.Recovery.is_rollback_of
    stumpfworks_identity.Updates.Install.Recovery.pending_rollback
    stumpfworks_identity.Updates.Install.Recovery.recover_transaction
    stumpfworks_identity.Updates.Install.Recovery.valid_rollback_files
    stumpfworks_identity.Updates.Install.Rollback.after_restoration
    stumpfworks_identity.Updates.Install.Rollback.apply_plan
    stumpfworks_identity.Updates.Install.Rollback.apply_ready
    stumpfworks_identity.Updates.Install.Rollback.begin_transaction
    stumpfworks_identity.Updates.Install.Rollback.check_copies
    stumpfworks_identity.Updates.Install.Rollback.check_copy
    stumpfworks_identity.Updates.Install.Rollback.checked_copies
    stumpfworks_identity.Updates.Install.Rollback.create_rollback
    stumpfworks_identity.Updates.Install.Rollback.finish_install
    stumpfworks_identity.Updates.Install.Rollback.install_plan
    stumpfworks_identity.Updates.Install.Rollback.prepared_components
    stumpfworks_identity.Updates.Install.Rollback.publish
    stumpfworks_identity.Updates.Install.Rollback.restore_all
    stumpfworks_identity.Updates.Install.Rollback.restore_one
    stumpfworks_identity.Updates.Install.Rollback.restore_rollback
    stumpfworks_identity.Updates.Install.Rollback.rollback_install_failure
    stumpfworks_identity.Updates.Install.Rollback.save_file
    stumpfworks_identity.Updates.Install.Rollback.save_files
    stumpfworks_identity.Updates.Install.Rollback.write_update_transaction
    stumpfworks_identity.Updates.Install.component_specs
    stumpfworks_identity.Updates.Install.copy_and_verify
    stumpfworks_identity.Updates.Install.install_all
    stumpfworks_identity.Updates.Install.install_one
    stumpfworks_identity.Updates.Install.is_specified
    stumpfworks_identity.Updates.Install.prepare_all
    stumpfworks_identity.Updates.Install.prepare_one
    stumpfworks_identity.Updates.Install.restarts_as_specified
    stumpfworks_identity.Updates.Install.spec_of
    stumpfworks_identity.Updates.Install.validate_component
    stumpfworks_identity.Updates.Versions.valid_identifiers
recovery_run = refl

install_installed_example :
    (checked : StagePlan) × (checked_plan hashing all_work false (some plan) machine ≡ ok checked)
    × (all_work health ≡ false)
    × All (Verified hashing machine.payload) checked.components
    × ((install_staged hashing all_work true false 5 (some plan) machine).0.targets
        ≡ laid_out machine.payload checked.components machine.targets)
install_installed_example =
    install_installed hashing all_work true false 5 (some plan) machine install_run

files_restored_example :
    (install_staged hashing unhealthy true false 5 (some plan) machine).0.targets timer.target
    ≡ some (record { bytes = 1 ∷ []; mode = unit_file })
unfolding stumpfworks_identity.Updates.Install.Outcome.keeps_old install_staged checked_plan
    stumpfworks_identity.Updates.Install.load_stage_plan
    stumpfworks_identity.Updates.Versions.valid_version
    stumpfworks_identity.Updates.Versions.valid_build stumpfworks_identity.Updates.Versions.cut
    stumpfworks_identity.Updates.Versions.valid_pre stumpfworks_identity.Updates.Versions.valid_main
    split all stumpfworks_identity.Updates.Versions.valid_number
    stumpfworks_identity.Updates.Install.requires_lightdm_maintenance any
    stumpfworks_identity.Updates.Install.validate_staged_payload
    stumpfworks_identity.Updates.Install.validate_components
    stumpfworks_identity.Updates.Install.validate_component find text_eq
    stumpfworks_identity.Updates.Install.Rollback.after_restoration
    stumpfworks_identity.Updates.Install.Rollback.apply_plan
    stumpfworks_identity.Updates.Install.Rollback.apply_ready
    stumpfworks_identity.Updates.Install.Rollback.begin_transaction
    stumpfworks_identity.Updates.Install.Rollback.check_copies
    stumpfworks_identity.Updates.Install.Rollback.check_copy
    stumpfworks_identity.Updates.Install.Rollback.checked_copies
    stumpfworks_identity.Updates.Install.Rollback.create_rollback
    stumpfworks_identity.Updates.Install.Rollback.finish_install
    stumpfworks_identity.Updates.Install.Rollback.install_plan
    stumpfworks_identity.Updates.Install.Rollback.prepared_components
    stumpfworks_identity.Updates.Install.Rollback.publish
    stumpfworks_identity.Updates.Install.Rollback.restore_all
    stumpfworks_identity.Updates.Install.Rollback.restore_one
    stumpfworks_identity.Updates.Install.Rollback.restore_rollback
    stumpfworks_identity.Updates.Install.Rollback.rollback_install_failure
    stumpfworks_identity.Updates.Install.Rollback.save_file
    stumpfworks_identity.Updates.Install.Rollback.save_files
    stumpfworks_identity.Updates.Install.Rollback.write_update_transaction
    stumpfworks_identity.Updates.Install.component_specs
    stumpfworks_identity.Updates.Install.copy_and_verify
    stumpfworks_identity.Updates.Install.install_all
    stumpfworks_identity.Updates.Install.install_one
    stumpfworks_identity.Updates.Install.is_specified
    stumpfworks_identity.Updates.Install.prepare_all
    stumpfworks_identity.Updates.Install.prepare_one
    stumpfworks_identity.Updates.Install.restarts_as_specified
    stumpfworks_identity.Updates.Install.spec_of
    stumpfworks_identity.Updates.Versions.valid_identifiers
files_restored_example =
    files_restored hashing unhealthy true false 5 (some plan) machine timer.target refl

pending_recovered_example :
    ((recover_pending_update hashing all_work
          (install_staged hashing unrecovered true false 5 (some plan) machine).0).0.targets
        timer.target
      ≡ some (record { bytes = 1 ∷ []; mode = unit_file }))
    × ((recover_pending_update hashing all_work
          (install_staged hashing unrecovered true false 5 (some plan) machine).0).0.transaction
        ≡ none)
unfolding stumpfworks_identity.Updates.Install.Outcome.is_pending install_staged checked_plan
    stumpfworks_identity.Updates.Install.load_stage_plan
    stumpfworks_identity.Updates.Versions.valid_version
    stumpfworks_identity.Updates.Versions.valid_build stumpfworks_identity.Updates.Versions.cut
    stumpfworks_identity.Updates.Versions.valid_pre stumpfworks_identity.Updates.Versions.valid_main
    split all stumpfworks_identity.Updates.Versions.valid_number
    stumpfworks_identity.Updates.Install.requires_lightdm_maintenance any
    stumpfworks_identity.Updates.Install.validate_staged_payload
    stumpfworks_identity.Updates.Install.validate_components
    stumpfworks_identity.Updates.Install.validate_component find text_eq
    stumpfworks_identity.Updates.Install.Rollback.after_restoration
    stumpfworks_identity.Updates.Install.Rollback.apply_plan
    stumpfworks_identity.Updates.Install.Rollback.apply_ready
    stumpfworks_identity.Updates.Install.Rollback.begin_transaction
    stumpfworks_identity.Updates.Install.Rollback.check_copies
    stumpfworks_identity.Updates.Install.Rollback.check_copy
    stumpfworks_identity.Updates.Install.Rollback.checked_copies
    stumpfworks_identity.Updates.Install.Rollback.create_rollback
    stumpfworks_identity.Updates.Install.Rollback.finish_install
    stumpfworks_identity.Updates.Install.Rollback.install_plan
    stumpfworks_identity.Updates.Install.Rollback.prepared_components
    stumpfworks_identity.Updates.Install.Rollback.publish
    stumpfworks_identity.Updates.Install.Rollback.restore_all
    stumpfworks_identity.Updates.Install.Rollback.restore_one
    stumpfworks_identity.Updates.Install.Rollback.restore_rollback
    stumpfworks_identity.Updates.Install.Rollback.rollback_install_failure
    stumpfworks_identity.Updates.Install.Rollback.save_file
    stumpfworks_identity.Updates.Install.Rollback.save_files
    stumpfworks_identity.Updates.Install.Rollback.write_update_transaction
    stumpfworks_identity.Updates.Install.component_specs
    stumpfworks_identity.Updates.Install.copy_and_verify
    stumpfworks_identity.Updates.Install.install_all
    stumpfworks_identity.Updates.Install.install_one
    stumpfworks_identity.Updates.Install.is_specified
    stumpfworks_identity.Updates.Install.prepare_all
    stumpfworks_identity.Updates.Install.prepare_one
    stumpfworks_identity.Updates.Install.restarts_as_specified
    stumpfworks_identity.Updates.Install.spec_of
    stumpfworks_identity.Updates.Versions.valid_identifiers
pending_recovered_example =
    pending_recovered hashing unrecovered all_work true false 5 (some plan) machine timer.target
      refl recovery_run
