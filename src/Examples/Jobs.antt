-- ===== src/Examples/Jobs.antt =====
-- An update job that is dispatched in its window.
use stumpfworks_identity.Examples.Data.{repeated, works, empty}
use stumpfworks_identity.Store.Schema.{
  AuditEntry, Client, UpdateJob, Database, client_update_dispatched, token_only,
  certificate_required, scheduled, dispatched, validate_audit_ip,
}
use stumpfworks_identity.Base.{
  ◌≤◌, ◌<◌, ◌≡◌, refl, ◌≢◌, true, false, some, [], ◌∷◌, ◌++◌, arith, codes, text_eq, find, count,
  update, ok,
}
use stumpfworks_identity.Store.Jobs.{
  change_found, transition, may_move, require_device, move_job, Externals, change_update_job,
  from_unix, is_job,
}
use stumpfworks_identity.Store.Jobs.Open.{create, change, run, OneOpen, run-OneOpen}
use stumpfworks_identity.Store.Jobs.Lifecycle.{dispatch_safe, change-⟶, ◌⟶◌}

abbrev anything : Externals
anything = record {
  is_identifier = λ t. true;
  hex_decode = λ t. some (repeated 32 0);
  parse_ip = λ t. true;
}

abbrev kiosk : Client
kiosk = record {
  client_id = 5 ∷ [];
  token_hash = [];
  auth_mode = certificate_required;
  enabled = true;
}

abbrev job : UpdateJob
job = record {
  id = repeated 16 1;
  client_id = 5 ∷ [];
  release_id = repeated 16 2;
  release_version = 49 ∷ [];
  package_sha256 = repeated 64 3;
  not_before = 10;
  expires_at = 100;
  maintenance = false;
  state = scheduled;
  rollback_available = false;
  created_at = 1;
  updated_at = 1;
}

abbrev ready : Database
ready = record empty { clients = kiosk ∷ []; update_jobs = job ∷ [] }

abbrev entry : AuditEntry
entry = record {
  event = client_update_dispatched;
  badge_id = [];
  username = [];
  client_id = 5 ∷ [];
  success = true;
  ip_address = [];
  details = codes "job=" ++ repeated 16 1;
}

abbrev sent : Database
sent = record ready {
  update_jobs = record job { state = dispatched; updated_at = 20 } ∷ [];
  audit_log = entry ∷ [];
}

run-OneOpen_example : OneOpen (
    run anything
      (record {
        outer = works;
        inner = works;
        actor = [];
        ip = [];
        now = 5000000000;
        operation = create job;
      }
        ∷ record {
          outer = works;
          inner = works;
          actor = [];
          ip = [];
          now = 20000000000;
          operation = change (repeated 16 1) (5 ∷ []) dispatched false;
        }
        ∷ [])
      (record empty { clients = kiosk ∷ [] }))
unfolding count
run-OneOpen_example =
    run-OneOpen anything
      (record {
        outer = works;
        inner = works;
        actor = [];
        ip = [];
        now = 5000000000;
        operation = create job;
      }
        ∷ record {
          outer = works;
          inner = works;
          actor = [];
          ip = [];
          now = 20000000000;
          operation = change (repeated 16 1) (5 ∷ []) dispatched false;
        }
        ∷ [])
      (record empty { clients = kiosk ∷ [] }) (λ client. omega arith)

dispatch_run :
    change_update_job anything works 0
      (repeated 16 1)
      (5 ∷ [])
      dispatched
      false
      []
      []
      20000000000
      ready
    ≡ ok (tt, sent)
unfolding change_update_job find text_eq update count validate_audit_ip change_found transition
    may_move require_device move_job
dispatch_run = refl

dispatch_safe_example :
    (job.state ≡ scheduled)
    × (from_unix job.not_before ≤ 20000000000)
    × (20000000000 < from_unix job.expires_at)
    × ((c : Client) × (find (λ (c : Client). text_eq c.client_id job.client_id) ready.clients
          ≡ some c)
        × (c.enabled ≡ true)
        × (c.auth_mode ≢ token_only))
unfolding find text_eq
dispatch_safe_example =
    dispatch_safe anything works 0 (repeated 16 1) (5 ∷ []) false [] [] 20000000000 ready sent job
      dispatch_run refl (ground arith)

change-⟶_example :
    ((j : UpdateJob) × (k : UpdateJob) × (find (is_job (repeated 16 1) (5 ∷ [])) ready.update_jobs
        ≡ some j)
      × (find (is_job (repeated 16 1) (5 ∷ [])) sent.update_jobs ≡ some k)
      × (k.state ≡ dispatched)
      × (k.rollback_available ≡ false)
      × (j.state ⟶ k.state))
    × (find (is_job (repeated 16 2) (5 ∷ [])) sent.update_jobs
        ≡ find (is_job (repeated 16 2) (5 ∷ [])) ready.update_jobs)
unfolding text_eq
change-⟶_example =
    change-⟶ anything works 0 (repeated 16 1) (5 ∷ []) (repeated 16 2) (5 ∷ []) dispatched false []
      [] 20000000000 ready sent dispatch_run refl
