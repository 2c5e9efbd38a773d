-- ===== src/Store/Schema.antt =====
-- internal/database/database.go: the tables of the SQLite database and their rows. Instants are
-- nanoseconds since Go's zero time. Columns that no modelled statement reads (updated_at, the
-- identifiers and times of audit rows) are left out.
use stumpfworks_identity.Base.{
  Text, Bool, List, ◌∷◌, Option, none, some, ℕ, Result, ok, err, driver, invalid, or_fail, no_rows,
  if◌then◌else◌, length, ◌==◌, ◌||◌, true, false, require,
}

-- The event types that the modelled operations record.
pub data Event : Type 0 where
  emergency_admin_grant_created emergency_admin_login emergency_admin_grant_revoked : Event
  client_enrollment_created client_device_enrollment_staged client_device_renewal_staged : Event
  client_device_enrolled client_device_renewed client_device_revoked : Event
  client_authentication_mode_changed : Event
  client_update_scheduled client_update_dispatched client_update_succeeded : Event
  client_update_failed client_update_cancelled client_update_expired : Event
  auth_success auth_failed badge_self_service_revoked badge_self_service_activated : Event
  badge_created badge_revoked badge_replaced : Event
  oidc_login oidc_consent oidc_code_issued oidc_token_issued oidc_token_denied : Event
  oidc_user_sessions_revoked oidc_client_sessions_revoked oidc_all_sessions_revoked : Event
  oidc_session_revoked oidc_user_provisioned oidc_subject_created passkey_registered passkey_login
        passkey_revoked :
      Event
  pkinit_issued pkinit_denied oidc_authorization_denied oidc_login_denied : Event
  oidc_client_created oidc_client_secret_rotated oidc_client_configuration_updated : Event
  oidc_client_enabled oidc_client_disabled user_created : Event
  self_service_login self_service_sessions_revoked self_service_logout : Event
  client_registered client_token_rotated client_enabled client_disabled : Event

pub record AuditEntry : Type 0 where
  pub event : Event
  pub badge_id : Text
  pub username : Text
  pub client_id : Text
  pub success : Bool
  pub ip_address : Text
  pub details : Text

pub record User : Type 0 where
  pub id : ℕ
  pub username : Text
  pub display_name : Text
  pub pin_hash : Text
  pub oidc_subject : Text

pub record Badge : Type 0 where
  pub id : ℕ
  pub badge_code : Text
  pub user_id : ℕ
  pub token_hash : Text
  pub enabled : Bool
  pub activation_pending : Bool
  pub description : Text
  pub last_used_at : Option ℕ
  pub revoked_at : Option ℕ

pub data AuthMode : Type 0 where
  token_only certificate_preferred certificate_required : AuthMode

pub record Client : Type 0 where
  pub client_id : Text
  pub token_hash : Text
  pub auth_mode : AuthMode
  pub enabled : Bool

pub record EmergencyAdminGrant : Type 0 where
  pub id : Text
  pub token_hash : Text
  pub session_hash : Option Text
  pub created_at : ℕ
  pub expires_at : ℕ
  pub consumed_at : Option ℕ
  pub revoked_at : Option ℕ

pub record EnrollmentToken : Type 0 where
  pub id : Text
  pub client_id : Text
  pub token_hash : Text
  pub created_at : ℕ
  pub expires_at : ℕ
  pub consumed_at : Option ℕ
  pub revoked_at : Option ℕ

pub data CredentialStatus : Type 0 where
  pending active superseded revoked : CredentialStatus

pub record DeviceCredential : Type 0 where
  pub id : Text
  pub client_id : Text
  pub fingerprint_sha256 : Text
  pub serial : Text
  pub uri_san : Text
  pub public_key_algorithm : Text
  pub issuer_id : Text
  pub issued_at : ℕ
  pub expires_at : ℕ
  pub status : CredentialStatus
  pub supersedes_id : Option Text
  pub revoked_at : Option ℕ
  pub created_at : ℕ

pub data JobState : Type 0 where
  scheduled dispatched succeeded failed cancelled expired : JobState

-- not_before, expires_at, created_at and updated_at are seconds.
pub record UpdateJob : Type 0 where
  pub id : Text
  pub client_id : Text
  pub release_id : Text
  pub release_version : Text
  pub package_sha256 : Text
  pub not_before : ℕ
  pub expires_at : ℕ
  pub maintenance : Bool
  pub state : JobState
  pub rollback_available : Bool
  pub created_at : ℕ
  pub updated_at : ℕ

pub record OidcClient : Type 0 where
  pub client_id : Text
  pub secret_hash : Text
  pub redirect_uris : Text
  pub scopes : Text
  pub enabled : Bool

pub record OidcCode : Type 0 where
  pub code_hash : Text
  pub client_id : Text
  pub user_id : ℕ
  pub redirect_uri : Text
  pub scope : Text
  pub nonce : Text
  pub code_challenge : Text
  pub expires_at : ℕ
  pub consumed_at : Option ℕ

pub record OidcSession : Type 0 where
  pub session_id : Text
  pub access_token_hash : Text
  pub client_id : Text
  pub user_id : ℕ
  pub scope : Text
  pub issued_at : ℕ
  pub expires_at : ℕ
  pub revoked_at : Option ℕ

pub record SelfServiceSession : Type 0 where
  pub id : Text
  pub username : Text
  pub created_at : ℕ
  pub expires_at : ℕ
  pub revoked_at : Option ℕ

pub record WebauthnUser : Type 0 where
  pub user_id : ℕ
  pub user_handle : Text

pub record WebauthnCeremony : Type 0 where
  pub id : Text
  pub kind : Text
  pub audience : Text
  pub user_id : Option ℕ
  pub session_data : Text
  pub created_at : ℕ
  pub expires_at : ℕ
  pub consumed_at : Option ℕ

pub record WebauthnCredential : Type 0 where
  pub credential_id : Text
  pub management_id : Text
  pub user_id : ℕ
  pub public_key : Text
  pub rp_id : Text
  pub name : Text
  pub transports : Text
  pub attestation_type : Text
  pub attestation_format : Text
  pub flags : ℕ
  pub sign_count : ℕ
  pub backup_eligible : Bool
  pub backup_state : Bool
  pub created_at : ℕ
  pub last_used_at : Option ℕ
  pub revoked_at : Option ℕ

pub record Database : Type 0 where
  pub users : List User
  pub badges : List Badge
  pub audit_log : List AuditEntry
  pub clients : List Client
  pub emergency_admin_grants : List EmergencyAdminGrant
  pub enrollment_tokens : List EnrollmentToken
  pub device_credentials : List DeviceCredential
  pub update_jobs : List UpdateJob
  pub oidc_clients : List OidcClient
  pub oidc_codes : List OidcCode
  pub oidc_sessions : List OidcSession
  pub self_service_sessions : List SelfServiceSession
  pub webauthn_users : List WebauthnUser
  pub webauthn_ceremonies : List WebauthnCeremony
  pub webauthn_credentials : List WebauthnCredential

-- INSERT INTO audit_log: the newest entry first.
abbrev pub insert_audit : AuditEntry → Database → Database
insert_audit entry db = record db { audit_log = entry ∷ db.audit_log }

abbrev pub is_null {ℓ} : {A : Type ℓ} → Option A → Bool
is_null none = true
is_null (some a) = false

-- QueryRow(...).Scan(...)
abbrev pub query_row {ℓ} : {A : Type ℓ} → Bool → Option A → Result A
query_row fault row = if fault then err driver else or_fail row no_rows

-- Exec(...)
abbrev pub exec {ℓ} : {A : Type ℓ} → Bool → A → Result A
exec fault after = if fault then err driver else ok after

-- validateAuditIP: an address for net.ParseIP, or empty.
unfoldable pub validate_audit_ip : (Text → Bool) → Text → Result (Unit {0})
validate_audit_ip parse_ip ip = require (length ip == 0 || parse_ip ip) invalid
