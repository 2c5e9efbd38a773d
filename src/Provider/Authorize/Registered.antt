-- ===== src/Provider/Authorize/Registered.antt =====
-- What a code of the provider comes from.
use stumpfworks_identity.Store.Schema.{User, OidcClient, OidcCode, Database}
use stumpfworks_identity.Base.{
  ℕ, ◌+◌, ◌≤◌, ◌≡◌, sym, subst, inl, inr, true, none, some, ◌∷◌, arith, Text, text_eq_refl, split,
  find, Result-cases, Bool-cases, Option-cases, ok, Faults,
}
use stumpfworks_identity.Store.Oidc.{
  create_body, create_oidc_code_with_audit, drop_expired, exchangeable,
}
use stumpfworks_identity.Store.Oidc.Taking.{audited-ok}
use stumpfworks_identity.Store.OidcClients.{oidc_client_by_id}
use stumpfworks_identity.Provider.{
  DirectoryUser, Externals, State, Clock, Failures, Random, token_hash,
}
use stumpfworks_identity.Provider.Authorize.{
  AuthorizeForm, redirect, is_one_of, valid_challenge, valid_scope, validate_for, well_formed,
  validate, code_lifetime, new_code, named_user, store_code, issue_code, local_user, authorize_user,
  log_in, authorize_post, authorize_page, authorize,
}

-- A request that passes is well formed, names a client that is enabled, one of its callbacks, only
-- scopes that it may have and openid, and a challenge that decodes to 32 bytes.
pub validate-passed :
    (x : Externals) (faults : Faults) (f : AuthorizeForm) (db : Database)
    → validate x faults f db ≡ none
    → (c : OidcClient) × (oidc_client_by_id faults f.request.client_id db ≡ ok c)
      × (well_formed f ≡ true)
      × (c.enabled ≡ true)
      × (is_one_of (split 10 c.redirect_uris) f.request.redirect_uri ≡ true)
      × (valid_scope x c.scopes f.request.scope ≡ true)
      × (valid_challenge x f.request.challenge ≡ true)
unfolding validate validate_for
validate-passed x faults f db h = elim (Bool-cases (well_formed f)) [
  | inr e ↦ absurd (ground (arith, e))
  | inl e ↦ elim (Result-cases (oidc_client_by_id faults f.request.client_id db)) [
    | inr (_, w) ↦ absurd (ground (arith, e, w))
    | inl (c, w) ↦
        let checks : validate_for x f.request c ≡ none = ground (arith, e, w) in
        (
          c,
          w,
          e,
          ground (arith, checks),
          ground (arith, checks),
          ground (arith, checks),
          ground (arith, checks),
        )
  ]
]

create_body-ok :
    (faults : Faults) (code : OidcCode) (username ip : Text) (clock : ℕ) (db after : Database)
    → create_body faults code username ip clock db ≡ ok (tt, after)
    → after.oidc_codes ≡ record code { consumed_at = none } ∷ drop_expired 100 clock db.oidc_codes
unfolding create_body
create_body-ok faults code username ip clock db after h = ground arith

module _ (x : Externals) (faults : Failures) (random : Random) (at : Clock) (f : AuthorizeForm)
    (now : ℕ) where
  -- The code of the answer is stored for its client and callback, and is found for an exchange.
  abbrev pub Stored : Text → User → Database → Type 0
  Stored uri u after =
      (code : Text) × (uri ≡ x.callback f.request.redirect_uri code f.request.state)
      × (find (exchangeable (token_hash x code) f.request.client_id f.request.redirect_uri now)
            after.oidc_codes
          ≡ some (new_code x faults random at f code u))

  store_code-redirect :
      (code uri : Text) (u : User) (db : Database)
      → now ≤ at.issued + code_lifetime
      → (store_code x faults random at f code u db).1 ≡ redirect uri
      → Stored uri u (store_code x faults random at f code u db).0
  unfolding store_code create_oidc_code_with_audit find exchangeable
  store_code-redirect code uri u db le h =
      let (unit, made) =
        elim (Result-cases
            (create_oidc_code_with_audit x.store (faults 5) (new_code x faults random at f code u)
              u.username f.ip at.exchanged db).1)
          as (λ m.
            (a : Unit {0}) × ((create_oidc_code_with_audit x.store (faults 5)
                (new_code x faults random at f code u) u.username f.ip at.exchanged db).1
              ≡ ok a)) [ inl p ↦ p | inr (e, w) ↦ absurd (ground (arith, w)) ] in
      let (after, body, left) =
        audited-ok x.store (faults 5) f.ip db
          (create_body (faults 5) (new_code x faults random at f code u) u.username f.ip
            at.exchanged)
          tt made in
      let rows =
        create_body-ok (faults 5) (new_code x faults random at f code u) u.username f.ip
          at.exchanged db after body in
      (
        code,
        ground (arith, made),
        rw (left, rows)
            (rw
              (
                text_eq_refl (token_hash x code),
                text_eq_refl f.request.client_id,
                text_eq_refl f.request.redirect_uri,
              )
              (ground (arith, le))),
      )

  issue_code-redirect :
      (uri : Text) (u : User) (db : Database)
      → now ≤ at.issued + code_lifetime
      → (issue_code x faults random at f u db).1 ≡ redirect uri
      → Stored uri u (issue_code x faults random at f u db).0
  unfolding issue_code
  issue_code-redirect uri u db le h = elim (Result-cases (named_user x faults random at f u db).1) [
    | inr (e, w) ↦ absurd (ground (arith, w))
    | inl (subject, w) ↦ elim (Option-cases (random 1)) [
      | inl v ↦ absurd (ground (arith, w, v))
      | inr (raw, v) ↦
          rw (w, v, issue_code)
            (store_code-redirect (x.primitives.base64_encode raw) uri u
              (named_user x faults random at f u db).0 le (rw (w, v, issue_code) at h))
    ]
  ]

  -- What a redirection comes from, behind the checks of the request and the limit.
  log_in-redirect :
      (uri : Text) (db : Database)
      → now ≤ at.issued + code_lifetime
      → (log_in x faults random at f db).1 ≡ redirect uri
      → (du : DirectoryUser) × (u : User) × (x.authenticate_user
            (x.store.trim_space f.username)
            f.password
          ≡ some du)
        × ((local_user x faults random at f du db).1 ≡ ok u)
        × Stored uri u (log_in x faults random at f db).0
  unfolding log_in authorize_user
  log_in-redirect uri db le h =
      elim (Option-cases (x.authenticate_user (x.store.trim_space f.username) f.password)) [
        | inl w ↦ absurd (ground (arith, w))
        | inr (du, w) ↦ elim (Result-cases (local_user x faults random at f du db).1) [
          | inr (e, v) ↦ absurd (ground (arith, w, v))
          | inl (u, v) ↦ (
            du,
            u,
            w,
            v,
            rw (w, v, log_in, authorize_user)
                (issue_code-redirect uri u (local_user x faults random at f du db).0 le
                  (rw (w, v, log_in, authorize_user) at h)),
          )
        ]
      ]

  authorize-post :
      (uri : Text) (s : State)
      → (authorize x faults random at f s).1 ≡ redirect uri
      → (validate x (faults 0) f s.database ≡ none)
        × ((log_in x faults random at f s.database).1 ≡ redirect uri)
        × ((authorize x faults random at f s).0.database
            ≡ (log_in x faults random at f s.database).0)
  unfolding authorize authorize_post authorize_page
  authorize-post uri s h = elim (Option-cases (validate x (faults 0) f s.database)) [
    | inr (e, w) ↦ absurd (ground (arith, w))
    | inl w ↦ (w, ground (arith, w), ground (arith, w))
  ]

  -- The provider sends the browser back with a code only for a request with an enabled client, one
  -- of its registered callbacks, scopes that it may have with openid among them and a challenge that
  -- decodes to 32 bytes, after the directory authenticated the user; the code is stored for that
  -- client, callback, scope, nonce and challenge and for the local user of that name, and can be
  -- exchanged for 90 seconds.
  pub code_issued :
      (uri : Text) (s : State)
      → now ≤ at.issued + code_lifetime
      → (authorize x faults random at f s).1 ≡ redirect uri
      → (c : OidcClient) × (du : DirectoryUser) × (u : User) × (oidc_client_by_id
            (faults 0)
            f.request.client_id
            s.database
          ≡ ok c)
        × (c.enabled ≡ true)
        × (is_one_of (split 10 c.redirect_uris) f.request.redirect_uri ≡ true)
        × (valid_scope x c.scopes f.request.scope ≡ true)
        × (valid_challenge x f.request.challenge ≡ true)
        × (x.authenticate_user (x.store.trim_space f.username) f.password ≡ some du)
        × ((local_user x faults random at f du s.database).1 ≡ ok u)
        × Stored uri u (authorize x faults random at f s).0.database
  code_issued uri s le h =
      let (valid, done, left) = authorize-post uri s h in
      let (c, found, _, enabled, is_registered, scoped, challenged) =
        validate-passed x (faults 0) f s.database valid in
      let (du, u, authenticated, local, kept) = log_in-redirect uri s.database le done in
      (
        c,
        du,
        u,
        found,
        enabled,
        is_registered,
        scoped,
        challenged,
        authenticated,
        local,
        subst (Stored uri u) (sym left) kept,
      )
