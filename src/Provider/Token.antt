-- ===== src/Provider/Token.antt =====
-- internal/oidc/provider.go token: from an authorization code to tokens.
use stumpfworks_identity.Store.Schema.{User, OidcCode, Database, oidc_token_denied}
use stumpfworks_identity.Base.{
  ℕ, ◌+◌, Bool, not, ◌&&◌, Option, none, some, [], ◌++◌, Text, codes, text_eq, length, leb, ◌==◌,
  if◌then◌else◌, Error, no_rows, Result, ok, err,
}
use stumpfworks_identity.Store.Oidc.{oidc_code_for_exchange, consume_oidc_code_denial_with_audit}
use stumpfworks_identity.Store.Oidc.Sessions.{consume_oidc_code_with_session_audit}
use stumpfworks_identity.Store.Accounts.{get_user, ensure_oidc_subject_with_audit}
use stumpfworks_identity.Provider.{
  DirectoryUser, Claims, Externals, State, Clock, Failures, Random, limit_key, audit, denied_entry,
  Credentials, authenticate_client, token_hash, has_scope,
}

pub record TokenRequest : Type 0 where
  pub ip : Text
  pub parses : Bool
  pub grant_type : Text
  pub credentials : Credentials
  pub code : Text
  pub redirect_uri : Text
  pub code_verifier : Text

-- An error with its status, or the access token, the ID token and the scope.
pub data TokenResponse : Type 0 where
  oauth_error : Text → ℕ → TokenResponse
  tokens : Text → Text → Text → TokenResponse

-- 5 * time.Minute
abbrev pub token_lifetime : ℕ
token_lifetime = 300000000000

unfoldable pub verifies : Externals → Text → OidcCode → Bool
verifies x verifier stored =
    leb 43 (length verifier)
    && (leb (length verifier) 128
        && text_eq (x.primitives.base64_encode (x.primitives.sha256 verifier))
            stored.code_challenge)

abbrev pub only_if : Bool → Text → Option Text
only_if b t = if b then some t else none

unfoldable pub claims_of :
    Externals → Text → Text → User → DirectoryUser → OidcCode → Text → ℕ → Claims
claims_of x subject client u du stored session issued = record {
  issuer = x.issuer;
  subject = subject;
  audience = client;
  expires_at = issued + token_lifetime;
  issued_at = issued;
  nonce = stored.nonce;
  session_id = session;
  name = only_if (has_scope (codes "profile") stored.scope) u.display_name;
  preferred_username = only_if (has_scope (codes "profile") stored.scope) u.username;
  email = only_if (has_scope (codes "email") stored.scope && not (length du.mail == 0)) du.mail;
}

module _ (x : Externals) (faults : Failures) (random : Random) (at : Clock) (r : TokenRequest)
    (client : Text) where
  abbrev pub denial_of : Text → Database → Database × Result (Unit {0})
  denial_of reason db =
      consume_oidc_code_denial_with_audit x.store (faults 5) (token_hash x r.code) client
        r.redirect_uri at.exchanged r.ip reason db

  -- consumeDeniedCode
  unfoldable pub consume_denied_code : Text → Database → Database × TokenResponse
  consume_denied_code reason db =
      let denied = denial_of reason db in
      (
        denied.0,
        elim denied.1 [
          | err e ↦ oauth_error (codes "temporarily_unavailable") 503
          | ok _ ↦ oauth_error (codes "invalid_grant") 400
        ],
      )

  abbrev pub invalid_grant : Database → Database × TokenResponse
  invalid_grant db = (
    audit (faults 6 0) (denied_entry oidc_token_denied [] client r.ip (codes "invalid_grant")) db,
    oauth_error (codes "invalid_grant") 400,
  )

  -- errors.Is(err, sql.ErrNoRows)
  unfoldable pub refuse_exchange : Error → Database → Database × TokenResponse
  refuse_exchange no_rows db = invalid_grant db
  refuse_exchange e db = (db, oauth_error (codes "temporarily_unavailable") 503)

  abbrev pub session_exchange : Text → Text → Database → Database × Result OidcCode
  session_exchange session access db =
      consume_oidc_code_with_session_audit x.store (faults 4) (token_hash x r.code) client
        r.redirect_uri at.exchanged
        (record {
          session_id = session;
          access_token_hash = token_hash x access;
          expires_at = at.issued + token_lifetime;
        })
        r.ip db

  unfoldable pub exchange : OidcCode → Text → Text → Text → Database → Database × TokenResponse
  exchange stored session id_token access db =
      let made = session_exchange session access db in
      elim made.1 [
        | err e ↦ refuse_exchange e made.0
        | ok _ ↦ (made.0, tokens access id_token stored.scope)
      ]

  abbrev pub server_error : TokenResponse
  server_error = oauth_error (codes "server_error") 500

  unfoldable pub sign_and_exchange :
      OidcCode → User → DirectoryUser → Text → Text → Database → Database × TokenResponse
  sign_and_exchange stored u du subject session db =
      elim (x.sign (claims_of x subject client u du stored session at.issued)) [
        | none ↦ (db, server_error)
        | some id_token ↦ elim (random 2) [
          | none ↦ (db, server_error)
          | some raw ↦ exchange stored session id_token (x.primitives.base64_encode raw) db
        ]
      ]

  unfoldable pub issue_tokens :
      OidcCode → User → DirectoryUser → Text → Database → Database × TokenResponse
  issue_tokens stored u du subject db = elim (random 1) [
    | none ↦ (db, server_error)
    | some raw ↦ sign_and_exchange stored u du subject (x.primitives.base64_encode raw) db
  ]

  abbrev pub ensured_subject : User → Database → Database × Result Text
  ensured_subject u db =
      ensure_oidc_subject_with_audit x.store (faults 3) u.id
        (elim (random 0) [ none ↦ none | some raw ↦ some (x.primitives.base64_encode raw) ]) r.ip db

  unfoldable pub issue_to : OidcCode → User → DirectoryUser → Database → Database × TokenResponse
  issue_to stored u du db =
      let named = ensured_subject u db in
      elim named.1 [
        | err e ↦ (named.0, server_error)
        | ok subject ↦ issue_tokens stored u du subject named.0
      ]

  unfoldable pub exchange_for_user : OidcCode → Database → Database × TokenResponse
  exchange_for_user stored db = elim (get_user (faults 2) stored.user_id db) [
    | err e ↦ consume_denied_code (codes "user_unavailable") db
    | ok u ↦ elim (x.directory_user u.username) [
      | none ↦ consume_denied_code (codes "user_inactive") db
      | some du ↦ issue_to stored u du db
    ]
  ]

  abbrev pub stored_code : Database → Result OidcCode
  stored_code db =
      oidc_code_for_exchange (faults 1) (token_hash x r.code) client r.redirect_uri at.exchanged db

  unfoldable pub exchange_code : Database → Database × TokenResponse
  exchange_code db = elim (stored_code db) [
    | err e ↦ invalid_grant db
    | ok stored ↦
        if verifies x r.code_verifier stored
        then exchange_for_user stored db
        else consume_denied_code (codes "pkce_failed") db
  ]

unfoldable pub token_form :
    Externals → Failures → Random → Clock → TokenRequest → Database → Database × TokenResponse
token_form x faults random at r db =
    if not r.parses
    then (db, oauth_error (codes "invalid_request") 400)
    else (if not (text_eq r.grant_type (codes "authorization_code"))
        then (db, oauth_error (codes "unsupported_grant_type") 400)
        else (let client = authenticate_client x (faults 0) r.credentials db in
            if client.1 then exchange_code x faults random at r client.0 db else (
              audit (faults 6 0)
                  (denied_entry oidc_token_denied [] client.0 r.ip (codes "invalid_client")) db,
              oauth_error (codes "invalid_client") 401,
            )))

unfoldable pub token :
    Externals → Failures → Random → Clock → TokenRequest → State → State × TokenResponse
token x faults random at r s =
    let allowed = limit_key 10 (codes "oidc-token:" ++ r.ip) at.attempted s in
    if allowed.1
    then (let done = token_form x faults random at r s.database in
        (record allowed.0 { database = done.0 }, done.1))
    else (allowed.0, oauth_error (codes "temporarily_unavailable") 429)
