-- ===== src/Provider/Authorize.antt =====
-- internal/oidc/provider.go validate and authorize: from a login at the provider to a code.
pub mod Registered
use stumpfworks_identity.Store.Schema.{
  User, OidcClient, OidcCode, Database, oidc_user_provisioned, oidc_authorization_denied,
  oidc_login_denied,
}
use stumpfworks_identity.Base.{
  ℕ, ◌+◌, Bool, false, not, ◌&&◌, ◌||◌, Option, none, some, List, [], ◌++◌, Text, codes, text_eq,
  split, length, any, all, ltb, leb, ◌==◌, if◌then◌else◌, Error, no_rows, invalid, unavailable,
  Result, ok, err, ◌>>=◌, ◌>>◌, Faults,
}
use stumpfworks_identity.Store.Oidc.{create_oidc_code_with_audit}
use stumpfworks_identity.Store.OidcClients.{oidc_client_by_id}
use stumpfworks_identity.Store.Accounts.{
  user_by_username, create_user_with_audit, ensure_oidc_subject_with_audit,
}
use stumpfworks_identity.Provider.{
  DirectoryUser, Externals, State, Clock, Failures, Random, limit_key, audit, denied_entry,
  token_hash,
}

pub record Request : Type 0 where
  pub client_id : Text
  pub redirect_uri : Text
  pub scope : Text
  pub state : Text
  pub nonce : Text
  pub challenge : Text

-- The form of an authorization request.
pub record AuthorizeForm : Type 0 where
  pub ip : Text
  pub parses : Bool
  pub is_get : Bool
  pub response_type : Text
  pub code_challenge_method : Text
  pub request : Request
  pub username : Text
  pub password : Text

pub data AuthorizeResponse : Type 0 where
  problem : Text → ℕ → AuthorizeResponse
  page : AuthorizeResponse
  redirect : Text → AuthorizeResponse

abbrev pub is_one_of : List Text → Text → Bool
is_one_of ts t = any (text_eq t) ts

unfoldable pub valid_challenge : Externals → Text → Bool
valid_challenge x challenge =
    leb 43 (length challenge)
    && (leb (length challenge) 128 && elim (x.primitives.base64_decode challenge) [
      | none ↦ false
      | some decoded ↦ length decoded == 32
    ])

unfoldable pub valid_scope : Externals → Text → Text → Bool
valid_scope x allowed requested =
    is_one_of (x.fields requested) (codes "openid")
    && all (is_one_of (x.fields allowed)) (x.fields requested)

-- The checks of the request against the client.
unfoldable pub validate_for : Externals → Request → OidcClient → Option Text
validate_for x a c =
    if not c.enabled
    then some (codes "unauthorized_client")
    else (if not (is_one_of (split 10 c.redirect_uris) a.redirect_uri)
        then some (codes "redirect_uri_mismatch")
        else (if not (valid_scope x c.scopes a.scope)
            then some (codes "invalid_scope")
            else (if valid_challenge x a.challenge then none else some (codes "invalid_request"))))

abbrev pub well_formed : AuthorizeForm → Bool
well_formed f =
    text_eq f.response_type (codes "code")
    && (text_eq f.code_challenge_method (codes "S256")
        && (ltb 0 (length f.request.state)
            && (leb (length f.request.state) 512
                && (ltb 0 (length f.request.nonce) && leb (length f.request.nonce) 256))))

-- The error, if there is one.
unfoldable pub validate : Externals → Faults → AuthorizeForm → Database → Option Text
validate x faults f db =
    if well_formed f
    then elim (oidc_client_by_id faults f.request.client_id db) [
      | err e ↦ some (codes "unauthorized_client")
      | ok c ↦ validate_for x f.request c
    ]
    else some (codes "invalid_request")

-- 90 * time.Second
abbrev pub code_lifetime : ℕ
code_lifetime = 90000000000

module _ (x : Externals) (faults : Failures) (random : Random) (at : Clock)
    (f : AuthorizeForm) where
  abbrev pub unavailable_page : AuthorizeResponse
  unavailable_page = problem (codes "unavailable") 503

  abbrev pub new_code : Text → User → OidcCode
  new_code code u = record {
    code_hash = token_hash x code;
    client_id = f.request.client_id;
    user_id = u.id;
    redirect_uri = f.request.redirect_uri;
    scope = f.request.scope;
    nonce = f.request.nonce;
    code_challenge = f.request.challenge;
    expires_at = at.issued + code_lifetime;
    consumed_at = none;
  }

  unfoldable pub store_code : Text → User → Database → Database × AuthorizeResponse
  store_code code u db =
      let stored =
        create_oidc_code_with_audit x.store (faults 5) (new_code code u) u.username f.ip
          at.exchanged db in
      (
        stored.0,
        elim stored.1 [
          | err e ↦ unavailable_page
          | ok _ ↦ redirect (x.callback f.request.redirect_uri code f.request.state)
        ],
      )

  abbrev pub named_user : User → Database → Database × Result Text
  named_user u db =
      ensure_oidc_subject_with_audit x.store (faults 4) u.id
        (elim (random 0) [ none ↦ none | some raw ↦ some (x.primitives.base64_encode raw) ]) f.ip db

  unfoldable pub issue_code : User → Database → Database × AuthorizeResponse
  issue_code u db =
      let named = named_user u db in
      elim named.1 [
        | err e ↦ (named.0, unavailable_page)
        | ok subject ↦ elim (random 1) [
          | none ↦ (named.0, unavailable_page)
          | some raw ↦ store_code (x.primitives.base64_encode raw) u named.0
        ]
      ]

  -- A user of the directory that the store does not know is provisioned.
  unfoldable pub provision : DirectoryUser → Error → Database → Database × Result User
  provision du no_rows db =
      create_user_with_audit x.store (faults 3) du.username du.display_name oidc_user_provisioned
        f.ip db
  provision du e db = (db, err e)

  unfoldable pub local_user : DirectoryUser → Database → Database × Result User
  local_user du db = elim (user_by_username x.store (faults 2) du.username db) [
    | err e ↦ provision du e db
    | ok u ↦ (db, ok u)
  ]

  unfoldable pub authorize_user : DirectoryUser → Database → Database × AuthorizeResponse
  authorize_user du db =
      let found = local_user du db in
      elim found.1 [ err e ↦ (found.0, unavailable_page) | ok u ↦ issue_code u found.0 ]

  abbrev pub login_denied : Text → Database → Database
  login_denied reason db =
      audit (faults 1 0)
        (denied_entry oidc_login_denied (x.store.trim_space f.username) f.request.client_id f.ip
          reason)
        db

  unfoldable pub log_in : Database → Database × AuthorizeResponse
  log_in db = elim (x.authenticate_user (x.store.trim_space f.username) f.password) [
    | none ↦
        (login_denied (codes "invalid_credentials") db, problem (codes "invalid credentials") 401)
    | some du ↦ authorize_user du db
  ]

  unfoldable pub authorize_post : State → State × AuthorizeResponse
  authorize_post s =
      let allowed = limit_key 10 (codes "oidc:" ++ f.ip) at.attempted s in
      if allowed.1
      then (let done = log_in s.database in (record allowed.0 { database = done.0 }, done.1))
      else (
        record allowed.0 { database = login_denied (codes "rate_limited") s.database },
        problem (codes "rate limited") 429,
      )

  -- The characters of " \t\r\n;'*", which the header of the page must not have.
  abbrev pub breaks_header : ℕ → Bool
  breaks_header c =
      (c == 32)
      || ((c == 9) || ((c == 13) || ((c == 10) || ((c == 59) || ((c == 39) || (c == 42))))))

  unfoldable pub authorize_page : State → State × AuthorizeResponse
  authorize_page s =
      if any breaks_header (x.host f.request.redirect_uri)
      then (s, problem (codes "invalid callback origin") 400)
      else (s, page)

  unfoldable pub authorize : State → State × AuthorizeResponse
  authorize s =
      if not f.parses
      then (s, problem (codes "invalid request") 400)
      else elim (validate x (faults 0) f s.database) [
        | some e ↦ (
          record s {
            database =
                audit (faults 1 0)
                  (denied_entry oidc_authorization_denied [] f.request.client_id f.ip e) s.database;
          },
          problem e 400,
        )
        | none ↦ if f.is_get then authorize_page s else authorize_post s
      ]
