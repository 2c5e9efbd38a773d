-- ===== src/Examples/Data.antt =====
-- The inputs of the tests.
use stumpfworks_identity.Store.Schema.{Database}
use stumpfworks_identity.Base.{ℕ, zero, suc, false, [], ◌∷◌, Text, Faults}

abbrev pub repeated : ℕ → ℕ → Text
repeated zero c = []
repeated (suc n) c = c ∷ repeated n c

abbrev pub works : Faults
works call = false

abbrev pub empty : Database
empty = record {
  users = [];
  badges = [];
  audit_log = [];
  clients = [];
  emergency_admin_grants = [];
  enrollment_tokens = [];
  device_credentials = [];
  update_jobs = [];
  oidc_clients = [];
  oidc_codes = [];
  oidc_sessions = [];
  self_service_sessions = [];
  webauthn_users = [];
  webauthn_ceremonies = [];
  webauthn_credentials = [];
}
