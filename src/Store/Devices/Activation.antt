-- ===== src/Store/Devices/Activation.antt =====
-- internal/database/client_device_authentication.go: activation and revocation of device credentials,
-- and the authentication mode of a client.
use stumpfworks_identity.Base.{
  ℕ, Bool, true, not, ◌&&◌, ◌||◌, Option, none, some, List, [], ◌++◌, Text, codes, text_eq, find,
  count, any, update, ltb, leb, ◌==◌, no_rows, driver, constraint, invalid, Result, ok, err, ◌>>=◌,
  ◌>>◌, require, refuse, Faults, transaction,
}
use stumpfworks_identity.Store.Schema.{
  Event, AuthMode, Client, DeviceCredential, Database, client_device_enrolled,
  client_device_renewed, client_device_revoked, client_authentication_mode_changed, token_only,
  certificate_preferred, certificate_required, pending, active, superseded, revoked, insert_audit,
  query_row, exec, validate_audit_ip,
}
use stumpfworks_identity.Store.Devices.{
  entry, with_status, is_credential, set_status, awaiting, Externals, valid_public_identifier,
}

abbrev pub set_credentials : Database → List DeviceCredential → Database
set_credentials db rows = record db { device_credentials = rows }

-- The credential that the new one replaces is superseded; without one, none may be active.
unfoldable pub retire : Faults → Text → Option Text → Database → Result (Event × Database)
retire faults client none db = do
  refuse (faults 3) no_rows
  require (count (with_status active client) db.device_credentials == 0) no_rows
  ok (client_device_enrolled, db)
retire faults client (some old) db = do
  refuse (faults 3) driver
  require (count (is_credential old client active) db.device_credentials == 1) no_rows
  ok (
    client_device_renewed,
    set_credentials db
        (update (is_credential old client active) (set_status superseded) db.device_credentials),
  )

-- The partial unique index on active credentials is checked by the update.
unfoldable pub promote : Faults → Text → Text → Database → Result Database
promote faults id client db = do
  refuse (faults 4) driver
  let updated = update (is_credential id client pending) (set_status active) db.device_credentials
  require (leb (count (with_status active client) updated) 1) constraint
  require (count (is_credential id client pending) db.device_credentials == 1) no_rows
  ok (set_credentials db updated)

abbrev pub supersedes_text : Option Text → Text
supersedes_text none = []
supersedes_text (some old) = codes ",supersedes=" ++ old

unfoldable pub activate_found :
    Faults → Text → Text → Text → Option Text → Database → Result (Unit {0} × Database)
activate_found faults client id ip supersedes db = do
  retired ← retire faults client supersedes db
  promoted ← promote faults id client retired.1
  audited ← exec (faults 5) (
      insert_audit
        (entry retired.0 client ip (codes "credential_id=" ++ id ++ supersedes_text supersedes))
        promoted)
  ok (tt, audited)

unfoldable pub activate_body :
    Faults → Text → Text → Text → ℕ → Database → Result (Unit {0} × Database)
activate_body faults client id ip now db = do
  c ←
      query_row (faults 2)
        (find (λ row. text_eq row.id id && awaiting client now row) db.device_credentials)
  activate_found faults client id ip c.supersedes_id db

-- The arguments that activation and revocation share.
unfoldable pub check_request : Externals → Text → Text → Text → ℕ → Result (Unit {0})
check_request x client id ip now = do
  refuse (not (valid_public_identifier x client) || not (valid_public_identifier x id)) invalid
  validate_audit_ip x.parse_ip ip
  refuse (now == 0) invalid

unfoldable pub activate_client_device_credential :
    Externals → Faults → Text → Text → Text → ℕ → Database → Database × Result (Unit {0})
activate_client_device_credential x faults client id ip now db =
    elim (check_request x client id ip now) [
      | err e ↦ (db, err e)
      | ok _ ↦ transaction faults db (activate_body faults client id ip now)
    ]

abbrev pub revoke_row : ℕ → DeviceCredential → DeviceCredential
revoke_row now c = record c { status = revoked; revoked_at = some now }

unfoldable pub revoke_body :
    Faults → Text → Text → Text → ℕ → Database → Result (Unit {0} × Database)
revoke_body faults client id ip now db = do
  updated ← exec (faults 2) (
      set_credentials db
        (update (is_credential id client active) (revoke_row now) db.device_credentials))
  require (count (is_credential id client active) db.device_credentials == 1) no_rows
  audited ←
      exec (faults 3) (
        insert_audit (entry client_device_revoked client ip (codes "credential_id=" ++ id)) updated)
  ok (tt, audited)

unfoldable pub revoke_client_device_credential :
    Externals → Faults → Text → Text → Text → ℕ → Database → Database × Result (Unit {0})
revoke_client_device_credential x faults client id ip now db =
    elim (check_request x client id ip now) [
      | err e ↦ (db, err e)
      | ok _ ↦ transaction faults db (revoke_body faults client id ip now)
    ]

abbrev pub mode_text : AuthMode → Text
mode_text token_only = codes "token_only"
mode_text certificate_preferred = codes "certificate_preferred"
mode_text certificate_required = codes "certificate_required"

-- For a mode with certificates the client must have an active credential that has not expired.
abbrev pub may_use_mode : AuthMode → Text → ℕ → Database → Bool
may_use_mode token_only client now db = true
may_use_mode _ client now db =
    any (λ c. with_status active client c && ltb now c.expires_at) db.device_credentials

abbrev pub eligible : AuthMode → Text → ℕ → Database → Client → Bool
eligible mode client now db k = text_eq k.client_id client && may_use_mode mode client now db

unfoldable pub mode_body :
    Faults → Text → AuthMode → Text → ℕ → Database → Result (Unit {0} × Database)
mode_body faults client mode ip now db = do
  updated ← exec (faults 2) (record db {
    clients = update (eligible mode client now db) (λ k. record k { auth_mode = mode }) db.clients;
  })
  require (count (eligible mode client now db) db.clients == 1) no_rows
  audited ← exec (faults 3) (
      insert_audit
        (entry client_authentication_mode_changed client ip (codes "mode=" ++ mode_text mode))
        updated)
  ok (tt, audited)

unfoldable pub set_client_authentication_mode :
    Externals → Faults → Text → AuthMode → Text → ℕ → Database → Database × Result (Unit {0})
set_client_authentication_mode x faults client mode ip now db =
    elim (do
      require (valid_public_identifier x client) invalid
      validate_audit_ip x.parse_ip ip
      refuse (now == 0) invalid) [
        | err e ↦ (db, err e)
        | ok _ ↦ transaction faults db (mode_body faults client mode ip now)
      ]
