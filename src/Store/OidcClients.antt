-- ===== src/Store/OidcClients.antt =====
-- internal/database/oidc_administration_audit.go: the administration of OIDC clients.
pub mod Disabled
use stumpfworks_identity.Store.Schema.{
  Event, AuditEntry, OidcClient, OidcSession, Database, oidc_client_created,
  oidc_client_secret_rotated, oidc_client_configuration_updated, oidc_client_enabled,
  oidc_client_disabled, insert_audit, is_null, query_row, exec,
}
use stumpfworks_identity.Base.{
  ℕ, Bool, true, false, ◌&&◌, List, [], ◌∷◌, Text, text_eq, find, count, any, update, ◌==◌,
  if◌then◌else◌, no_rows, constraint, Result, ok, ◌>>=◌, ◌>>◌, require, refuse, Faults,
}
use stumpfworks_identity.Store.Oidc.{Externals, oidc_entry, audited, set_sessions}
use stumpfworks_identity.Store.Oidc.Sessions.{revoke}

abbrev pub client_entry : Event → Text → Text → AuditEntry
client_entry event client ip = oidc_entry event [] client true ip []

abbrev pub oidc_client_with : Text → OidcClient → Bool
oidc_client_with id c = text_eq c.client_id id

abbrev pub set_oidc_clients : Database → List OidcClient → Database
set_oidc_clients db rows = record db { oidc_clients = rows }

-- PRIMARY KEY(client_id), enabled DEFAULT 1
unfoldable pub create_client_body :
    Faults → Text → Text → Text → Text → Text → Database → Result (Unit {0} × Database)
create_client_body faults id secret uris scopes ip db = do
  refuse (any (oidc_client_with id) db.oidc_clients) constraint
  inserted ← exec (faults 2) (
      set_oidc_clients db (
        record {
          client_id = id;
          secret_hash = secret;
          redirect_uris = uris;
          scopes = scopes;
          enabled = true;
        }
        ∷ db.oidc_clients))
  done ← exec (faults 3) (insert_audit (client_entry oidc_client_created id ip) inserted)
  ok (tt, done)

unfoldable pub create_oidc_client_with_audit :
    Externals → Faults → Text → Text → Text → Text → Text → Database → Database × Result (Unit {0})
create_oidc_client_with_audit x faults id secret uris scopes ip db =
    audited x faults ip db (create_client_body faults id secret uris scopes ip)

unfoldable pub update_client_body :
    Faults
    → Text
    → Text
    → Event
    → (OidcClient → OidcClient)
    → Database
    → Result (Unit {0} × Database)
update_client_body faults id ip event change db = do
  updated ←
      exec (faults 2) (set_oidc_clients db (update (oidc_client_with id) change db.oidc_clients))
  require (count (oidc_client_with id) db.oidc_clients == 1) no_rows
  done ← exec (faults 3) (insert_audit (client_entry event id ip) updated)
  ok (tt, done)

unfoldable pub update_oidc_client_with_audit :
    Externals
    → Faults
    → Text
    → Text
    → Event
    → (OidcClient → OidcClient)
    → Database
    → Database × Result (Unit {0})
update_oidc_client_with_audit x faults id ip event change db =
    audited x faults ip db (update_client_body faults id ip event change)

unfoldable pub rotate_oidc_client_secret_with_audit :
    Externals → Faults → Text → Text → Text → Database → Database × Result (Unit {0})
rotate_oidc_client_secret_with_audit x faults id secret ip db =
    update_oidc_client_with_audit x faults id ip oidc_client_secret_rotated
      (λ c. record c { secret_hash = secret }) db

unfoldable pub update_oidc_client_configuration_with_audit :
    Externals → Faults → Text → Text → Text → Text → Database → Database × Result (Unit {0})
update_oidc_client_configuration_with_audit x faults id uris scopes ip db =
    update_oidc_client_with_audit x faults id ip oidc_client_configuration_updated
      (λ c. record c { redirect_uris = uris; scopes = scopes }) db

abbrev pub switched : Bool → OidcClient → OidcClient
switched enabled c = record c { enabled = enabled }

-- client_id=? AND revoked_at IS NULL
abbrev pub open_for : Text → OidcSession → Bool
open_for id s = text_eq s.client_id id && is_null s.revoked_at

-- A client that is disabled loses its sessions.
unfoldable pub disable_body : Faults → Text → ℕ → Text → Database → Result (Unit {0} × Database)
disable_body faults id clock ip db = do
  updated ←
      exec (faults 2)
        (set_oidc_clients db (update (oidc_client_with id) (switched false) db.oidc_clients))
  require (count (oidc_client_with id) db.oidc_clients == 1) no_rows
  ended ←
      exec (faults 3)
        (set_sessions updated (update (open_for id) (revoke clock) updated.oidc_sessions))
  done ← exec (faults 4) (insert_audit (client_entry oidc_client_disabled id ip) ended)
  ok (tt, done)

unfoldable pub set_oidc_client_enabled_with_audit :
    Externals → Faults → Text → Bool → ℕ → Text → Database → Database × Result (Unit {0})
set_oidc_client_enabled_with_audit x faults id enabled clock ip db =
    if enabled
    then update_oidc_client_with_audit x faults id ip oidc_client_enabled (switched true) db
    else audited x faults ip db (disable_body faults id clock ip)

unfoldable pub oidc_client_by_id : Faults → Text → Database → Result OidcClient
oidc_client_by_id faults id db = query_row (faults 0) (find (oidc_client_with id) db.oidc_clients)
