-- ===== src/Examples/Worker.antt =====
-- A client on which the power is lost in an installation, and its next run.
use stumpfworks_identity.Base.{
  ◌≡◌, ◌≤◌, ◌+◌, refl, Bool, true, false, none, some, [], ◌∷◌, Text, codes, length, text_eq, All,
}
use stumpfworks_identity.Examples.Data.{repeated}
use stumpfworks_identity.Examples.Install.{hashing, plan, machine, all_work}
use stumpfworks_identity.Store.Schema.{scheduled}
use stumpfworks_identity.Updates.Manifest.{Manifest}
use stumpfworks_identity.Updates.Versions.{pos}
use stumpfworks_identity.Updates.Worker.{
  RemoteJob, WorkerJournal, JournalFile, no_journal, written, executing, Node, World, Place,
}
use stumpfworks_identity.Updates.Worker.Resume.{is_acknowledged}
use stumpfworks_identity.Updates.Worker.Run.{run_worker, run_all}
use stumpfworks_identity.Updates.Worker.Budget.{chances}
use stumpfworks_identity.Updates.Worker.Once.{executed_once}

abbrev job : RemoteJob
job = record {
  id = codes "job";
  client_id = codes "client";
  release_id = codes "release";
  release_version = codes "1.0.0";
  package_sha256 = repeated 64 1;
  not_before = 10;
  expires_at = 20;
  maintenance = true;
  state = scheduled;
}

abbrev manifest : Manifest
manifest = record {
  schema_version = pos 1;
  release_version = codes "1.0.0";
  channel = codes "stable";
  architecture = codes "linux-amd64";
  minimum_version = codes "0.1.0";
  created_at = 1;
  files = [];
}

abbrev no_failure : Place → Bool
no_failure p = false

abbrev client : Node
client = record {
  targets = machine.targets;
  snapshots = λ path. none;
  transaction = none;
  rollback_path = [];
  journal = no_journal;
  installed_version = none;
  installations = [];
}

-- The server offers the job, grants its start and acknowledges no result.
abbrev power_lost : World
power_lost = record {
  fails = no_failure;
  recovering = all_work;
  restoring = all_work;
  installing = all_work;
  client_id = codes "client";
  version = codes "0.1.0";
  poll_answer = some (200, some job);
  download_answer = some (200, some (7 ∷ []));
  start_answer = some 204;
  result_answer = none;
  now = 12;
  now_staged = 13;
  now_started = 14;
  state_before = some none;
  state_after = some none;
  power_loss = some machine;
  hashing = hashing;
  hex_decode = λ t. some (repeated 32 1);
  id_match = λ t. true;
  marshal = λ t. t;
  unmarshal = λ t. some t;
  verify_package = λ bytes current. some manifest;
  verify_and_stage = λ bytes current. some (plan, machine.payload);
}

abbrev power_back : World
power_back = record power_lost { power_loss = none }

lost_run : length (run_all (power_lost ∷ power_back ∷ []) client).installations ≡ 1
unfolding stumpfworks_identity.Updates.Worker.valid_remote_job
    stumpfworks_identity.Updates.Worker.worker_rollback
    stumpfworks_identity.Updates.Worker.write_worker_journal
    stumpfworks_identity.Updates.Worker.forget_journal
    stumpfworks_identity.Updates.Worker.save_installed
    stumpfworks_identity.Updates.Worker.saved_version
    stumpfworks_identity.Updates.Worker.worker_installed_version
    stumpfworks_identity.Updates.Worker.Run.download
    stumpfworks_identity.Updates.Worker.Run.stage_package
    stumpfworks_identity.Updates.Worker.Run.grant
    stumpfworks_identity.Updates.Worker.Run.record_outcome
    stumpfworks_identity.Updates.Worker.Run.install_and_record
    stumpfworks_identity.Updates.Worker.Run.attempt_install
    stumpfworks_identity.Updates.Worker.Run.install_job
    stumpfworks_identity.Updates.Worker.Run.start_job
    stumpfworks_identity.Updates.Worker.Run.prepare_above
    stumpfworks_identity.Updates.Worker.Run.prepare_job
    stumpfworks_identity.Updates.Worker.Run.execute_job
    stumpfworks_identity.Updates.Worker.Run.resume_in
    stumpfworks_identity.Updates.Worker.Run.accept_new
    stumpfworks_identity.Updates.Worker.Run.accept_job
    stumpfworks_identity.Updates.Worker.Run.poll_job stumpfworks_identity.Updates.Worker.Run.work_on
    stumpfworks_identity.Updates.Worker.Run.work
    stumpfworks_identity.Updates.Worker.Run.after_recovery run_worker run_all is_acknowledged
    stumpfworks_identity.Updates.Worker.Resume.keep_floor
    stumpfworks_identity.Updates.Worker.Resume.note_success
    stumpfworks_identity.Updates.Worker.Resume.finish_worker
    stumpfworks_identity.Updates.Worker.Resume.settle
    stumpfworks_identity.Updates.Worker.Resume.restore_interrupted
    stumpfworks_identity.Updates.Worker.Resume.give_up
    stumpfworks_identity.Updates.Worker.Resume.resume_executing
    stumpfworks_identity.Updates.Install.component_specs
    stumpfworks_identity.Updates.Install.spec_of
    stumpfworks_identity.Updates.Install.copy_and_verify
    stumpfworks_identity.Updates.Install.requires_lightdm_maintenance
    stumpfworks_identity.Updates.Install.load_stage_plan
    stumpfworks_identity.Updates.Install.is_specified
    stumpfworks_identity.Updates.Install.restarts_as_specified
    stumpfworks_identity.Updates.Install.validate_component
    stumpfworks_identity.Updates.Install.validate_components
    stumpfworks_identity.Updates.Install.validate_staged_payload
    stumpfworks_identity.Updates.Install.prepare_one
    stumpfworks_identity.Updates.Install.prepare_all
    stumpfworks_identity.Updates.Install.install_one
    stumpfworks_identity.Updates.Install.install_all
    stumpfworks_identity.Updates.Install.Rollback.save_file
    stumpfworks_identity.Updates.Install.Rollback.save_files
    stumpfworks_identity.Updates.Install.Rollback.publish
    stumpfworks_identity.Updates.Install.Rollback.create_rollback
    stumpfworks_identity.Updates.Install.Rollback.check_copy
    stumpfworks_identity.Updates.Install.Rollback.check_copies
    stumpfworks_identity.Updates.Install.Rollback.restore_one
    stumpfworks_identity.Updates.Install.Rollback.restore_all
    stumpfworks_identity.Updates.Install.Rollback.checked_copies
    stumpfworks_identity.Updates.Install.Rollback.restore_rollback
    stumpfworks_identity.Updates.Install.Rollback.after_restoration
    stumpfworks_identity.Updates.Install.Rollback.rollback_install_failure
    stumpfworks_identity.Updates.Install.Rollback.finish_install
    stumpfworks_identity.Updates.Install.Rollback.prepared_components
    stumpfworks_identity.Updates.Install.Rollback.apply_ready
    stumpfworks_identity.Updates.Install.Rollback.apply_plan
    stumpfworks_identity.Updates.Install.Rollback.write_update_transaction
    stumpfworks_identity.Updates.Install.Rollback.begin_transaction
    stumpfworks_identity.Updates.Install.Rollback.checked_plan
    stumpfworks_identity.Updates.Install.Rollback.install_plan
    stumpfworks_identity.Updates.Install.Rollback.install_staged
    stumpfworks_identity.Updates.Install.Recovery.is_rollback_of
    stumpfworks_identity.Updates.Install.Recovery.valid_rollback_files
    stumpfworks_identity.Updates.Install.Recovery.pending_rollback
    stumpfworks_identity.Updates.Install.Recovery.after_restored
    stumpfworks_identity.Updates.Install.Recovery.recover_transaction
    stumpfworks_identity.Updates.Install.Recovery.recover_locked
    stumpfworks_identity.Updates.Install.Recovery.recover_pending_update
    stumpfworks_identity.Updates.Versions.cut
    stumpfworks_identity.Updates.Versions.valid_identifiers
    stumpfworks_identity.Updates.Versions.valid_number
    stumpfworks_identity.Updates.Versions.valid_main stumpfworks_identity.Updates.Versions.valid_pre
    stumpfworks_identity.Updates.Versions.valid_build
    stumpfworks_identity.Updates.Versions.valid_version stumpfworks_identity.Updates.Versions.int_lt
    stumpfworks_identity.Updates.Versions.decimal
    stumpfworks_identity.Updates.Versions.atoi_unsigned stumpfworks_identity.Updates.Versions.atoi
    stumpfworks_identity.Updates.Versions.numbers stumpfworks_identity.Updates.Versions.parse
    stumpfworks_identity.Updates.Versions.compare_int stumpfworks_identity.Updates.Versions.text_lt
    stumpfworks_identity.Updates.Versions.compare_identifier
    stumpfworks_identity.Updates.Versions.compare_pre
    stumpfworks_identity.Updates.Versions.compare_releases
    stumpfworks_identity.Updates.Versions.compare_parsed
    stumpfworks_identity.Updates.Versions.compare_versions stumpfworks_identity.Base.find
    stumpfworks_identity.Base.any stumpfworks_identity.Base.all stumpfworks_identity.Base.text_eq
    stumpfworks_identity.Base.split
lost_run = refl

executed_once_example :
    length (run_all (power_lost ∷ power_back ∷ power_lost ∷ []) client).installations
    ≤ length client.installations + chances client.journal
unfolding is_acknowledged
executed_once_example =
    executed_once (power_lost ∷ power_back ∷ power_lost ∷ []) client (refl, (refl, (refl, tt)))
