-- ===== src/Examples/Provider.antt =====
-- A code that is issued and exchanged, and a token that is introspected and revoked.
use stumpfworks_identity.Store.Schema.{
  User, OidcClient, OidcCode, OidcSession, Database, validate_audit_ip,
}
use stumpfworks_identity.Base.{
  ◌<◌, ◌≡◌, refl, ◌≢◌, true, false, ◌&&◌, none, some, [], ◌∷◌, ◌++◌, arith, Text, codes, text_eq,
  split, strip_prefix, contains, find, filter, count, any, all, update, ok,
}
use stumpfworks_identity.Auth.Primitives.{Primitives}
use stumpfworks_identity.Examples.Data.{works, empty, repeated}
use stumpfworks_identity.Examples.Oidc.{anything, alice}
use stumpfworks_identity.Store.Oidc.{exchangeable}
use stumpfworks_identity.Store.OidcClients.{oidc_client_by_id, set_oidc_client_enabled_with_audit}
use stumpfworks_identity.Store.OidcClients.Disabled.{disabled_for_good}
use stumpfworks_identity.Store.Oidc.Sessions.{oidc_session_by_token_hash}
use stumpfworks_identity.Store.Accounts.{numbered, get_user, ensure_oidc_subject_with_audit}
use stumpfworks_identity.Provider.{
  DirectoryUser, Claims, Externals, State, Clock, Failures, Random, Credentials, token_hash,
}
use stumpfworks_identity.Provider.Token.{
  TokenRequest, oauth_error, tokens, verifies, claims_of, ensured_subject, session_exchange,
  stored_code, token,
}
use stumpfworks_identity.Provider.Issued.{client_of, token_issued}
use stumpfworks_identity.Provider.Once.{token_once, wrong_verifier_spends}
use stumpfworks_identity.Provider.Authorize.{
  Request, AuthorizeForm, redirect, is_one_of, valid_scope, valid_challenge, new_code, local_user,
  authorize,
}
use stumpfworks_identity.Provider.Authorize.Registered.{Stored, code_issued}
use stumpfworks_identity.Provider.Access.{AccessRequest, Introspection, introspection, introspect}
use stumpfworks_identity.Provider.Access as Access
use stumpfworks_identity.Provider.Access.Ended.{asking_client, introspect_active, revoked_inactive}

abbrev plain : Primitives
plain = record {
  sha256 = λ t. t;
  hmac = λ k t. t;
  hex_encode = λ t. t;
  hex_decode = λ t. some t;
  base64_encode = λ t. t;
  base64_decode = λ t. some (repeated 32 0);
  format_int = λ n. n ∷ [];
  parse_int = λ t. none;
}

abbrev member : DirectoryUser
member = record { username = 65 ∷ []; display_name = []; mail = [] }

abbrev outside : Externals
outside = record {
  store = anything;
  primitives = plain;
  issuer = [];
  compare_hash = text_eq;
  directory_user = λ name. some member;
  authenticate_user = λ name password. some member;
  sign = λ claims. some claims.nonce;
  fields = λ t. t ∷ [];
  host = λ t. [];
  callback = λ uri code state. uri ++ code ++ state;
}

abbrev client : OidcClient
client = record {
  client_id = 5 ∷ [];
  secret_hash = 4 ∷ [];
  redirect_uris = 6 ∷ [];
  scopes = codes "openid";
  enabled = true;
}

abbrev verifier : Text
verifier = repeated 43 1

abbrev code : OidcCode
code = record {
  code_hash = 7 ∷ [];
  client_id = 5 ∷ [];
  user_id = 1;
  redirect_uri = 6 ∷ [];
  scope = codes "openid";
  nonce = 3 ∷ [];
  code_challenge = verifier;
  expires_at = 100;
  consumed_at = none;
}

abbrev known : User
known = record alice { oidc_subject = 2 ∷ [] }

abbrev before : State
before = record {
  database = record empty {
    users = known ∷ [];
    oidc_clients = client ∷ [];
    oidc_codes = code ∷ [];
  };
  attempts = λ key. [];
}

abbrev all_work : Failures
all_work n = works

abbrev bytes : Random
bytes n = some (n ∷ [])

abbrev clock : Clock
clock = record { attempted = 20; exchanged = 20; issued = 20 }

abbrev secret : Credentials
secret = record { basic = none; client_id = 5 ∷ []; client_secret = 4 ∷ [] }

abbrev asking : Text → TokenRequest
asking proof = record {
  ip = [];
  parses = true;
  grant_type = codes "authorization_code";
  credentials = secret;
  code = 7 ∷ [];
  redirect_uri = 6 ∷ [];
  code_verifier = proof;
}

token_run :
    (token outside all_work bytes clock (asking verifier) before).1
    ≡ tokens (2 ∷ []) (3 ∷ []) (codes "openid")
unfolding token stumpfworks_identity.Provider.limit_key
    stumpfworks_identity.Server.Limiter.allowed_limit filter
    stumpfworks_identity.Provider.Token.token_form text_eq
    stumpfworks_identity.Provider.authenticate_client oidc_client_by_id find
    stumpfworks_identity.Provider.Token.exchange_code
    stumpfworks_identity.Store.Oidc.oidc_code_for_exchange exchangeable verifies
    stumpfworks_identity.Provider.Token.exchange_for_user get_user
    stumpfworks_identity.Provider.Token.issue_to ensure_oidc_subject_with_audit any count update
    contains strip_prefix claims_of stumpfworks_identity.Provider.Token.consume_denied_code
    stumpfworks_identity.Provider.Token.exchange stumpfworks_identity.Provider.Token.issue_tokens
    stumpfworks_identity.Provider.Token.refuse_exchange
    stumpfworks_identity.Provider.Token.sign_and_exchange
    stumpfworks_identity.Store.Accounts.ensure_subject_body
    stumpfworks_identity.Store.Accounts.give_subject
    stumpfworks_identity.Store.Oidc.Sessions.consume_oidc_code_with_session_audit
    stumpfworks_identity.Store.Oidc.Sessions.insert_session
    stumpfworks_identity.Store.Oidc.Sessions.session_body
    stumpfworks_identity.Store.Oidc.consume_oidc_code_denial_with_audit
    stumpfworks_identity.Store.Oidc.denial_body stumpfworks_identity.Store.Oidc.references
    stumpfworks_identity.Store.Oidc.take_code validate_audit_ip
token_run = refl

token_issued_example :
    (stored : OidcCode) × (u : User) × (du : DirectoryUser) × (subject : Text) × (session : Text)
    × (c : OidcCode) × ((client_of outside all_work (asking verifier) before).1 ≡ true)
    × (stored_code outside all_work bytes clock (asking verifier) (5 ∷ []) before.database
        ≡ ok stored)
    × (verifies outside verifier stored ≡ true)
    × (get_user works stored.user_id before.database ≡ ok u)
    × (outside.directory_user u.username ≡ some du)
    × ((ensured_subject outside all_work bytes clock (asking verifier) (5 ∷ []) u before.database).1
        ≡ ok subject)
    × (outside.sign (claims_of outside subject (5 ∷ []) u du stored session 20) ≡ some (3 ∷ []))
    × (codes "openid" ≡ stored.scope)
    × ((session_exchange outside all_work bytes clock
          (asking verifier)
          (5 ∷ [])
          session
          (2 ∷ [])
          (ensured_subject outside all_work bytes clock
            (asking verifier)
            (5 ∷ [])
            u
            before.database).0).1
        ≡ ok c)
    × ((token outside all_work bytes clock (asking verifier) before).0.database
        ≡ (session_exchange outside all_work bytes clock
            (asking verifier)
            (5 ∷ [])
            session
            (2 ∷ [])
            (ensured_subject outside all_work bytes clock
              (asking verifier)
              (5 ∷ [])
              u
              before.database).0).0)
unfolding stumpfworks_identity.Provider.authenticate_client
token_issued_example =
    token_issued outside all_work bytes clock (asking verifier) before (2 ∷ []) (3 ∷ [])
      (codes "openid") token_run

token_once_example :
    (token outside all_work bytes clock
      (asking verifier)
      (token outside all_work bytes clock (asking verifier) before).0).1
    ≢ tokens (2 ∷ []) (3 ∷ []) (codes "openid")
token_once_example =
    token_once outside all_work all_work bytes bytes clock clock (asking verifier) (asking verifier)
      before (2 ∷ []) (3 ∷ []) (codes "openid") (2 ∷ []) (3 ∷ []) (codes "openid") token_run refl

wrong_run :
    (token outside all_work bytes clock (asking (repeated 43 9)) before).1
    ≡ oauth_error (codes "invalid_grant") 400
unfolding token stumpfworks_identity.Provider.limit_key
    stumpfworks_identity.Server.Limiter.allowed_limit filter
    stumpfworks_identity.Provider.Token.token_form text_eq
    stumpfworks_identity.Provider.authenticate_client oidc_client_by_id find
    stumpfworks_identity.Provider.Token.exchange_code
    stumpfworks_identity.Store.Oidc.oidc_code_for_exchange exchangeable verifies
    stumpfworks_identity.Provider.Token.consume_denied_code
    stumpfworks_identity.Store.Oidc.consume_oidc_code_denial_with_audit validate_audit_ip
    stumpfworks_identity.Store.Oidc.denial_body any count update contains strip_prefix claims_of
    stumpfworks_identity.Provider.Token.exchange
    stumpfworks_identity.Provider.Token.exchange_for_user
    stumpfworks_identity.Provider.Token.issue_to stumpfworks_identity.Provider.Token.issue_tokens
    stumpfworks_identity.Provider.Token.refuse_exchange
    stumpfworks_identity.Provider.Token.sign_and_exchange ensure_oidc_subject_with_audit
    stumpfworks_identity.Store.Accounts.ensure_subject_body get_user
    stumpfworks_identity.Store.Accounts.give_subject
    stumpfworks_identity.Store.Oidc.Sessions.consume_oidc_code_with_session_audit
    stumpfworks_identity.Store.Oidc.Sessions.insert_session
    stumpfworks_identity.Store.Oidc.Sessions.session_body stumpfworks_identity.Store.Oidc.references
    stumpfworks_identity.Store.Oidc.take_code
wrong_run = refl

wrong_verifier_spends_example :
    (token outside all_work bytes clock
      (asking verifier)
      (token outside all_work bytes clock (asking (repeated 43 9)) before).0).1
    ≢ tokens (2 ∷ []) (3 ∷ []) (codes "openid")
unfolding stumpfworks_identity.Provider.authenticate_client oidc_client_by_id find text_eq
    stumpfworks_identity.Store.Oidc.oidc_code_for_exchange exchangeable verifies
wrong_verifier_spends_example =
    wrong_verifier_spends outside all_work all_work bytes bytes clock clock (asking (repeated 43 9))
      (asking verifier) before code (2 ∷ []) (3 ∷ []) (codes "openid") refl refl refl wrong_run refl

abbrev wanted : Request
wanted = record {
  client_id = 5 ∷ [];
  redirect_uri = 6 ∷ [];
  scope = codes "openid";
  state = 1 ∷ [];
  nonce = 1 ∷ [];
  challenge = verifier;
}

abbrev form : AuthorizeForm
form = record {
  ip = [];
  parses = true;
  is_get = false;
  response_type = codes "code";
  code_challenge_method = codes "S256";
  request = wanted;
  username = 65 ∷ [];
  password = [];
}

authorize_run : (authorize outside all_work bytes clock form before).1 ≡ redirect (6 ∷ 1 ∷ 1 ∷ [])
unfolding authorize stumpfworks_identity.Provider.Authorize.validate text_eq oidc_client_by_id find
    stumpfworks_identity.Provider.Authorize.validate_for any split valid_scope all valid_challenge
    stumpfworks_identity.Provider.Authorize.authorize_post stumpfworks_identity.Provider.limit_key
    stumpfworks_identity.Server.Limiter.allowed_limit filter
    stumpfworks_identity.Provider.Authorize.log_in
    stumpfworks_identity.Provider.Authorize.authorize_user count update
    stumpfworks_identity.Provider.Authorize.authorize_page
    stumpfworks_identity.Provider.Authorize.issue_code local_user
    stumpfworks_identity.Provider.Authorize.provision
    stumpfworks_identity.Provider.Authorize.store_code
    stumpfworks_identity.Store.Accounts.create_user_body
    stumpfworks_identity.Store.Accounts.create_user_with_audit ensure_oidc_subject_with_audit
    stumpfworks_identity.Store.Accounts.ensure_subject_body
    stumpfworks_identity.Store.Accounts.give_subject stumpfworks_identity.Store.Accounts.insert_user
    stumpfworks_identity.Store.Accounts.max_user_id
    stumpfworks_identity.Store.Accounts.user_by_username stumpfworks_identity.Store.Oidc.create_body
    stumpfworks_identity.Store.Oidc.create_oidc_code_with_audit
    stumpfworks_identity.Store.Oidc.drop_expired stumpfworks_identity.Store.Oidc.references
    validate_audit_ip
authorize_run = refl

code_issued_example :
    (c : OidcClient) × (du : DirectoryUser) × (u : User) × (oidc_client_by_id works
        (5 ∷ [])
        before.database
      ≡ ok c)
    × (c.enabled ≡ true)
    × (is_one_of (split 10 c.redirect_uris) (6 ∷ []) ≡ true)
    × (valid_scope outside c.scopes (codes "openid") ≡ true)
    × (valid_challenge outside verifier ≡ true)
    × (outside.authenticate_user (65 ∷ []) [] ≡ some du)
    × ((local_user outside all_work bytes clock form du before.database).1 ≡ ok u)
    × Stored outside all_work bytes clock form 60
        (6 ∷ 1 ∷ 1 ∷ [])
        u
        (authorize outside all_work bytes clock form before).0.database
code_issued_example =
    code_issued outside all_work bytes clock form 60 (6 ∷ 1 ∷ 1 ∷ []) before (omega arith)
      authorize_run

abbrev session : OidcSession
session = record {
  session_id = 1 ∷ [];
  access_token_hash = 2 ∷ [];
  client_id = 5 ∷ [];
  user_id = 1;
  scope = codes "openid";
  issued_at = 10;
  expires_at = 100;
  revoked_at = none;
}

abbrev live : State
live = record before { database = record before.database { oidc_sessions = session ∷ [] } }

abbrev query : AccessRequest
query = record { ip = []; parses = true; credentials = secret; token = 2 ∷ [] }

introspect_active_example :
    (row : OidcSession) × (u : User) × ((asking_client outside all_work query live).1 ≡ true)
    × (find
          (stumpfworks_identity.Store.Oidc.Sessions.is_live (2 ∷ []) (5 ∷ []) 20 live.database)
          live.database.oidc_sessions
        ≡ some row)
    × (row.access_token_hash ≡ 2 ∷ [])
    × (row.client_id ≡ 5 ∷ [])
    × (row.revoked_at ≡ none)
    × (20 < row.expires_at)
    × (any (λ (c : OidcClient). text_eq c.client_id row.client_id && c.enabled) (client ∷ [])
        ≡ true)
    × (find (numbered row.user_id) (known ∷ []) ≡ some u)
    × (introspection session known ≡ introspection row u)
    × ((introspect outside all_work clock query live).0.database ≡ live.database)
unfolding introspect Access.for_client stumpfworks_identity.Provider.limit_key
    stumpfworks_identity.Server.Limiter.allowed_limit filter
    stumpfworks_identity.Provider.authenticate_client oidc_client_by_id find text_eq Access.look_up
    oidc_session_by_token_hash stumpfworks_identity.Store.Oidc.Sessions.is_live any
introspect_active_example =
    introspect_active outside all_work clock query live (introspection session known) refl

revoked_inactive_example :
    (introspect outside all_work clock query (Access.revoke outside all_work clock query live).0).1
    ≢ Access.active (introspection session known)
unfolding count text_eq stumpfworks_identity.Provider.authenticate_client Access.revoke
    Access.for_client stumpfworks_identity.Provider.limit_key
    stumpfworks_identity.Server.Limiter.allowed_limit filter oidc_client_by_id find
    Access.end_session
    stumpfworks_identity.Store.Oidc.Sessions.revoke_oidc_session_by_token_hash_with_audit
    stumpfworks_identity.Store.Oidc.Sessions.revoke_oidc_session validate_audit_ip
    stumpfworks_identity.Store.Oidc.Sessions.revoke_body
revoked_inactive_example =
    revoked_inactive outside all_work all_work clock clock query query live
      (introspection session known) (omega arith) refl refl refl

disabled_for_good_example :
    let disabled =
      (set_oidc_client_enabled_with_audit anything works (5 ∷ []) false 20 [] live.database).0 in
    let enabled =
      (set_oidc_client_enabled_with_audit anything works (5 ∷ []) true 30 [] disabled).0 in
    (oidc_session_by_token_hash works (2 ∷ []) (5 ∷ []) 40 disabled ≢ ok session)
    × (oidc_session_by_token_hash works (2 ∷ []) (5 ∷ []) 40 enabled ≢ ok session)
unfolding set_oidc_client_enabled_with_audit validate_audit_ip
    stumpfworks_identity.Store.OidcClients.disable_body count text_eq
disabled_for_good_example =
    disabled_for_good anything works works works (5 ∷ []) 20 30 [] [] (2 ∷ []) 40 live.database
      session session refl

abbrev nameless : Database
nameless = record empty { users = alice ∷ [] }

abbrev chosen : Text
chosen = 9 ∷ []
