-- ===== src/Store/Devices.antt =====
-- internal/database/client_device_authentication.go: enrollment tokens, and the enrollment
-- and renewal of the certificates of client devices; their activation and revocation are in Activation.
mod Validation
pub use Validation.{Externals, minute, day, activation_window}
unfoldable pub use Validation.{
  is_public_byte, valid_public_identifier, valid_sha256, valid_certificate_serial,
  validate_enrollment_token, validate_device_credential,
}
pub mod Activation
pub mod Rows
pub mod Unique
pub mod Enrollment
pub mod Spent
use stumpfworks_identity.Base.{
  ℕ, ◌+◌, Bool, true, false, not, ◌&&◌, ◌||◌, Option, none, some, [], ◌∷◌, ◌++◌, Text, codes,
  text_eq, find, count, any, update, ltb, leb, ◌==◌, if◌then◌else◌, no_rows, driver, constraint,
  invalid, Result, ok, err, ◌>>=◌, ◌>>◌, require, refuse, Faults, transaction,
}
use stumpfworks_identity.Store.Schema.{
  Event, AuditEntry, Client, EnrollmentToken, CredentialStatus, DeviceCredential, Database,
  client_enrollment_created, client_device_enrollment_staged, client_device_renewal_staged, pending,
  active, superseded, revoked, insert_audit, is_null, query_row, exec, validate_audit_ip,
}

abbrev pub entry : Event → Text → Text → Text → AuditEntry
entry event client ip details = record {
  event = event;
  badge_id = [];
  username = [];
  client_id = client;
  success = true;
  ip_address = ip;
  details = details;
}

abbrev pub status_eq : CredentialStatus → CredentialStatus → Bool
status_eq pending pending = true
status_eq active active = true
status_eq superseded superseded = true
status_eq revoked revoked = true
status_eq _ _ = false

abbrev pub with_status : CredentialStatus → Text → DeviceCredential → Bool
with_status status client c = text_eq c.client_id client && status_eq c.status status

abbrev pub is_credential : Text → Text → CredentialStatus → DeviceCredential → Bool
is_credential id client status c = text_eq c.id id && with_status status client c

abbrev pub set_status : CredentialStatus → DeviceCredential → DeviceCredential
set_status status c = record c { status = status }

-- status='pending' AND created_at<=now-10m; written without a subtraction.
abbrev pub abandoned : Text → ℕ → DeviceCredential → Bool
abandoned client now c = with_status pending client c && leb (c.created_at + activation_window) now

-- INSERT … 'pending': the primary key, the unique columns and the unique index on the pending
-- credential of a client, then the other columns.
abbrev pub clashes : DeviceCredential → DeviceCredential → Bool
clashes c row =
    text_eq row.id c.id
    || (text_eq row.fingerprint_sha256 c.fingerprint_sha256
        || (text_eq row.serial c.serial || with_status pending c.client_id row))

unfoldable pub insert_pending :
    Bool → DeviceCredential → Option Text → ℕ → Database → Result Database
insert_pending fault c supersedes now db = do
  refuse fault driver
  require (any (λ k. text_eq k.client_id c.client_id) db.clients) constraint
  refuse (any (clashes c) db.device_credentials) constraint
  ok (record db {
    device_credentials =
        record c {
          status = pending;
          supersedes_id = supersedes;
          revoked_at = none;
          created_at = now;
        }
        ∷ db.device_credentials;
  })

-- The part that enrollment and renewal share: abandoned credentials are superseded, no other may be
-- pending, and the new one is inserted.
unfoldable pub stage_pending :
    Faults → DeviceCredential → Option Text → ℕ → Database → Result Database
stage_pending faults c supersedes now db = do
  swept ← exec (faults 3) (record db {
    device_credentials =
        update (abandoned c.client_id now) (set_status superseded) db.device_credentials;
  })
  refuse (faults 4) no_rows
  require (count (with_status pending c.client_id) swept.device_credentials == 0) no_rows
  insert_pending (faults 5) c supersedes now swept

unfoldable pub stage_renewal_body :
    Faults → Text → ℕ → DeviceCredential → Text → Database → Result (Unit {0} × Database)
stage_renewal_body faults current now c ip db = do
  refuse (faults 2) driver
  require
      (count (λ row. is_credential current c.client_id active row && ltb now row.expires_at)
          db.device_credentials
        == 1)
      no_rows
  staged ← stage_pending faults c (some current) now db
  audited ← exec (faults 6) (
      insert_audit
        (entry client_device_renewal_staged c.client_id ip
          (codes "credential_id=" ++ c.id ++ codes ",supersedes=" ++ current))
        staged)
  ok (tt, audited)

unfoldable pub stage_client_device_credential_renewal :
    Externals
    → Faults
    → Text
    → ℕ
    → DeviceCredential
    → Text
    → Database
    → Database × Result (Unit {0})
stage_client_device_credential_renewal x faults current now c ip db =
    elim (do
      require (valid_public_identifier x current) invalid
      validate_device_credential x c
      validate_audit_ip x.parse_ip ip
      refuse (now == 0) invalid) [
        | err e ↦ (db, err e)
        | ok _ ↦ transaction faults db (stage_renewal_body faults current now c ip)
      ]

-- UNIQUE(token_hash) and PRIMARY KEY(id) of the enrollment tokens.
abbrev pub token_clashes : EnrollmentToken → EnrollmentToken → Bool
token_clashes token row = text_eq row.id token.id || text_eq row.token_hash token.token_hash

abbrev pub enabled_client : Text → Client → Bool
enabled_client client k = text_eq k.client_id client && k.enabled

-- INSERT … SELECT inserts no row for a client that is missing or disabled; the count of rows with
-- the identifier is then 1 only if an earlier token has it.
unfoldable pub insert_token : EnrollmentToken → Database → Result Database
insert_token token db =
    if any (enabled_client token.client_id) db.clients
    then (do
      refuse (any (token_clashes token) db.enrollment_tokens) constraint
      ok (record db {
        enrollment_tokens =
            record token { consumed_at = none; revoked_at = none } ∷ db.enrollment_tokens;
      }))
    else ok db

unfoldable pub token_body :
    Faults → EnrollmentToken → Text → Database → Result (Unit {0} × Database)
token_body faults token ip db = do
  refuse (faults 2) driver
  inserted ← insert_token token db
  refuse (faults 3) no_rows
  require (count (λ row. text_eq row.id token.id) inserted.enrollment_tokens == 1) no_rows
  audited ← exec (faults 4) (
      insert_audit
        (entry client_enrollment_created token.client_id ip (codes "enrollment_id=" ++ token.id))
        inserted)
  ok (tt, audited)

unfoldable pub create_client_enrollment_token :
    Externals → Faults → EnrollmentToken → Text → Database → Database × Result (Unit {0})
create_client_enrollment_token x faults token ip db =
    elim (do validate_enrollment_token x token; validate_audit_ip x.parse_ip ip) [
      | err e ↦ (db, err e)
      | ok _ ↦ transaction faults db (token_body faults token ip)
    ]

-- client_id=? AND token_hash=? AND consumed_at IS NULL AND revoked_at IS NULL AND expires_at>=?
abbrev pub usable : Text → Text → ℕ → EnrollmentToken → Bool
usable client token_hash now t =
    text_eq t.client_id client
    && (text_eq t.token_hash token_hash
        && (is_null t.consumed_at && (is_null t.revoked_at && leb now t.expires_at)))

unfoldable pub valid_client_enrollment_token :
    Externals → Faults → Text → Text → ℕ → Database → Result Bool
valid_client_enrollment_token x faults client token_hash now db = do
  refuse (not (valid_public_identifier x client) || (not (valid_sha256 x token_hash) || (now == 0)))
      invalid
  refuse (faults 0) driver
  ok (
      any (enabled_client client) db.clients
      && (count (usable client token_hash now) db.enrollment_tokens == 1))

abbrev pub spend : ℕ → EnrollmentToken → EnrollmentToken
spend now t = record t { consumed_at = some now }

abbrev pub spendable : Text → Text → ℕ → Database → EnrollmentToken → Bool
spendable client token_hash now db t =
    usable client token_hash now t && any (enabled_client client) db.clients

unfoldable pub enroll_body :
    Faults → Text → ℕ → DeviceCredential → Text → Database → Result (Unit {0} × Database)
enroll_body faults token_hash now c ip db = do
  spent ← exec (faults 2) (record db {
    enrollment_tokens =
        update (spendable c.client_id token_hash now db) (spend now) db.enrollment_tokens;
  })
  require (count (spendable c.client_id token_hash now db) db.enrollment_tokens == 1) no_rows
  staged ← stage_pending faults c none now spent
  audited ← exec (faults 6) (
      insert_audit
        (entry client_device_enrollment_staged c.client_id ip (codes "credential_id=" ++ c.id))
        staged)
  ok (tt, audited)

unfoldable pub enroll_client_device_credential :
    Externals
    → Faults
    → Text
    → ℕ
    → DeviceCredential
    → Text
    → Database
    → Database × Result (Unit {0})
enroll_client_device_credential x faults token_hash now c ip db =
    elim (do
      require (valid_sha256 x token_hash) invalid
      validate_device_credential x c
      validate_audit_ip x.parse_ip ip
      refuse (now == 0) invalid) [
        | err e ↦ (db, err e)
        | ok _ ↦ transaction faults db (enroll_body faults token_hash now c ip)
      ]

-- status='active' AND issued_at<=? AND expires_at>?
abbrev pub current : Text → ℕ → DeviceCredential → Bool
current client now c = with_status active client c && (leb c.issued_at now && ltb now c.expires_at)

unfoldable pub active_client_device_credential :
    Externals → Faults → Text → ℕ → Database → Result DeviceCredential
active_client_device_credential x faults client now db = do
  refuse (not (valid_public_identifier x client) || (now == 0)) invalid
  query_row (faults 0) (find (current client now) db.device_credentials)

-- status='pending' AND created_at>now-10m AND expires_at>?
abbrev pub awaiting : Text → ℕ → DeviceCredential → Bool
awaiting client now c =
    with_status pending client c
    && (ltb now (c.created_at + activation_window) && ltb now c.expires_at)

unfoldable pub pending_client_device_credential :
    Externals → Faults → Text → ℕ → Database → Result DeviceCredential
pending_client_device_credential x faults client now db = do
  refuse (not (valid_public_identifier x client) || (now == 0)) invalid
  query_row (faults 0) (find (awaiting client now) db.device_credentials)
