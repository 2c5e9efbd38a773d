-- ===== src/Provider/Access.antt =====
-- internal/oidc/provider.go introspect and revoke: what a client learns of a token, and how it ends
-- one.
pub mod Ended
use stumpfworks_identity.Store.Schema.{User, OidcSession, Database}
use stumpfworks_identity.Base.{
  ℕ, Bool, not, Option, none, some, ◌++◌, Text, codes, find, if◌then◌else◌, no_rows, driver,
  constraint, invalid, conflict, unavailable, Result, ok, err, ◌>>=◌, ◌>>◌,
}
use stumpfworks_identity.Store.Oidc.Sessions.{
  oidc_session_by_token_hash, revoke_oidc_session_by_token_hash_with_audit,
}
use stumpfworks_identity.Store.Accounts.{numbered}
use stumpfworks_identity.Provider.{
  Externals, State, Clock, Failures, limit_key, Credentials, authenticate_client, token_hash,
  has_scope,
}

pub record AccessRequest : Type 0 where
  pub ip : Text
  pub parses : Bool
  pub credentials : Credentials
  pub token : Text

pub record Introspection : Type 0 where
  pub client_id : Text
  pub sub : Text
  pub scope : Text
  pub iat : ℕ
  pub exp : ℕ
  pub sid : Text
  pub username : Option Text

pub data AccessResponse : Type 0 where
  oauth_error : Text → ℕ → AccessResponse
  inactive : AccessResponse
  active : Introspection → AccessResponse
  revoked : AccessResponse

-- The subject and the name are those of the user that the query joins.
abbrev pub introspection : OidcSession → User → Introspection
introspection s u = record {
  client_id = s.client_id;
  sub = u.oidc_subject;
  scope = s.scope;
  iat = s.issued_at;
  exp = s.expires_at;
  sid = s.session_id;
  username = if has_scope (codes "profile") s.scope then some u.username else none;
}

module _ (x : Externals) (faults : Failures) (at : Clock) (r : AccessRequest) where
  unfoldable pub look_up : Text → Database → AccessResponse
  look_up client db =
      elim (oidc_session_by_token_hash (faults 1) (token_hash x r.token) client at.exchanged db) [
        | err e ↦ inactive
        | ok s ↦ elim (find (numbered s.user_id) db.users) [
          | none ↦ inactive
          | some u ↦ active (introspection s u)
        ]
      ]

  -- The guards that introspect and revoke have in common, and what follows for the client.
  unfoldable pub for_client :
      (Text → Database → Database × AccessResponse) → State → State × AccessResponse
  for_client handle s =
      let allowed = limit_key 600 (codes "oidc-client-api:" ++ r.ip) at.attempted s in
      if not allowed.1
      then (allowed.0, oauth_error (codes "temporarily_unavailable") 429)
      else (if not r.parses
          then (allowed.0, oauth_error (codes "invalid_request") 400)
          else (let client = authenticate_client x (faults 0) r.credentials s.database in
              if client.1
              then (let done = handle client.0 s.database in
                  (record allowed.0 { database = done.0 }, done.1))
              else (allowed.0, oauth_error (codes "invalid_client") 401)))

  unfoldable pub introspect : State → State × AccessResponse
  introspect s = for_client (λ client db. (db, look_up client db)) s

  -- A token that is not there counts as revoked.
  abbrev pub revocation_answer : Result (Unit {0}) → AccessResponse
  revocation_answer (ok done) = revoked
  revocation_answer (err no_rows) = revoked
  revocation_answer (err driver) = oauth_error (codes "temporarily_unavailable") 503
  revocation_answer (err constraint) = oauth_error (codes "temporarily_unavailable") 503
  revocation_answer (err invalid) = oauth_error (codes "temporarily_unavailable") 503
  revocation_answer (err conflict) = oauth_error (codes "temporarily_unavailable") 503
  revocation_answer (err unavailable) = oauth_error (codes "temporarily_unavailable") 503

  unfoldable pub end_session : Text → Database → Database × AccessResponse
  end_session client db =
      let ended =
        revoke_oidc_session_by_token_hash_with_audit x.store (faults 1) (token_hash x r.token)
          client at.exchanged r.ip db in
      (ended.0, revocation_answer ended.1)

  unfoldable pub revoke : State → State × AccessResponse
  revoke s = for_client end_session s
