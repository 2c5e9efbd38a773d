-- ===== src/Provider.antt =====
-- internal/oidc/provider.go: the OIDC provider over the store, the directory and the limiter.
pub mod Token
pub mod Authorize
pub mod Access
pub mod Issued
pub mod Once
use stumpfworks_identity.Store.Schema.{Event, AuditEntry, OidcClient, Database, insert_audit}
use stumpfworks_identity.Base.{
  ℕ, Bool, false, ◌&&◌, Option, none, some, List, [], ◌∷◌, ◌++◌, Text, text_eq, contains,
  if◌then◌else◌, Result, ok, err, Faults,
}
use stumpfworks_identity.Auth.Primitives.{Primitives}
use stumpfworks_identity.Store.Oidc as Codes
use stumpfworks_identity.Store.Oidc.{oidc_entry}
use stumpfworks_identity.Store.OidcClients.{oidc_client_by_id}
use stumpfworks_identity.Server.Limiter.{allowed_limit}

pub record DirectoryUser : Type 0 where
  pub username : Text
  pub display_name : Text
  pub mail : Text

-- The claims of an ID token; exp and iat are the seconds of the instants here.
pub record Claims : Type 0 where
  pub issuer : Text
  pub subject : Text
  pub audience : Text
  pub expires_at : ℕ
  pub issued_at : ℕ
  pub nonce : Text
  pub session_id : Text
  pub name : Option Text
  pub preferred_username : Option Text
  pub email : Option Text

-- What stands outside: bcrypt, the LDAP directory, the signer of tokens, strings.Fields, and
-- net/url, which reads the host of a callback and adds the code and the state to it.
pub record Externals : Type 0 where
  pub store : Codes.Externals
  pub primitives : Primitives
  pub issuer : Text
  pub compare_hash : Text → Text → Bool
  pub directory_user : Text → Option DirectoryUser
  pub authenticate_user : Text → Text → Option DirectoryUser
  pub sign : Claims → Option Text
  pub fields : Text → List Text
  pub host : Text → Text
  pub callback : Text → Text → Text → Text

-- The attempts are Go's map from a key to instants.
pub record State : Type 0 where
  pub database : Database
  pub attempts : Text → List ℕ

-- p.now() at the points of a request.
pub record Clock : Type 0 where
  pub attempted : ℕ
  pub exchanged : ℕ
  pub issued : ℕ

-- Which calls fail in each call of the store, by its number in the handler.
abbrev pub Failures : Type 0
Failures = ℕ → Faults

-- What rand.Read gives, by the number of the call.
abbrev pub Random : Type 0
Random = ℕ → Option Text

-- allowedLimit for a key of the map.
unfoldable pub limit_key : ℕ → Text → ℕ → State → State × Bool
limit_key maximum key now s =
    let decided = allowed_limit maximum now (s.attempts key) in
    (record s { attempts = λ k. if text_eq k key then decided.0 else s.attempts k }, decided.1)

-- An audit whose failure is only logged.
abbrev pub audit : Bool → AuditEntry → Database → Database
audit fault entry db = if fault then db else insert_audit entry db

abbrev pub denied_entry : Event → Text → Text → Text → Text → AuditEntry
denied_entry event username client ip details = oidc_entry event username client false ip details

-- How a client names itself: Basic authentication, or the fields of the form.
pub record Credentials : Type 0 where
  pub basic : Option (Text × Text)
  pub client_id : Text
  pub client_secret : Text

abbrev pub given_credentials : Credentials → Text × Text
given_credentials r = elim r.basic [ none ↦ (r.client_id, r.client_secret) | some pair ↦ pair ]

abbrev pub holds_secret : Externals → Text → Result OidcClient → Bool
holds_secret x secret (err e) = false
holds_secret x secret (ok c) = c.enabled && x.compare_hash c.secret_hash secret

unfoldable pub authenticate_client : Externals → Faults → Credentials → Database → Text × Bool
authenticate_client x faults r db =
    let given = given_credentials r in
    (given.0, holds_secret x given.1 (oidc_client_by_id faults given.0 db))

-- hex(sha256(t)), as codes and access tokens are stored.
abbrev pub token_hash : Externals → Text → Text
token_hash x t = x.primitives.hex_encode (x.primitives.sha256 t)

-- strings.Contains(" "+scope+" ", " "+name+" ")
abbrev pub has_scope : Text → Text → Bool
has_scope name scope = contains (32 ∷ name ++ 32 ∷ []) (32 ∷ scope ++ 32 ∷ [])
