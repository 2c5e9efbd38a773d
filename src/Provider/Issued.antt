-- ===== src/Provider/Issued.antt =====
-- Who gets tokens, and that a code gives them once.
use stumpfworks_identity.Store.Schema.{User, OidcCode, Database}
use stumpfworks_identity.Base.{
  ◌≡◌, ap, subst, ◌∙◌, ◌≢◌, inl, inr, Bool, true, some, ◌++◌, arith, Text, codes, text_eq,
  Result-cases, Bool-cases, Option-cases, Error, no_rows, driver, constraint, invalid, conflict,
  unavailable, ok,
}
use stumpfworks_identity.Store.Accounts.{get_user}
use stumpfworks_identity.Provider.{
  DirectoryUser, Externals, State, Clock, Failures, Random, limit_key, authenticate_client,
}
use stumpfworks_identity.Provider.Token.{
  TokenRequest, tokens, verifies, claims_of, consume_denied_code, refuse_exchange, exchange,
  sign_and_exchange, issue_tokens, ensured_subject, session_exchange, issue_to, exchange_for_user,
  stored_code, exchange_code, token_form, token,
}

module _ (x : Externals) (faults : Failures) (random : Random) (at : Clock) (r : TokenRequest)
    (client : Text) where
  denied-tokens :
      (reason : Text) (db : Database) (access id_token scope : Text)
      → (consume_denied_code x faults random at r client reason db).1 ≢ tokens access id_token scope
  unfolding consume_denied_code
  denied-tokens reason db access id_token scope h = ground arith

  refuse-tokens :
      (e : Error) (db : Database) (access id_token scope : Text)
      → (refuse_exchange x faults random at r client e db).1 ≢ tokens access id_token scope
  unfolding refuse_exchange
  refuse-tokens no_rows db access id_token scope h = ground arith
  refuse-tokens driver db access id_token scope h = ground arith
  refuse-tokens constraint db access id_token scope h = ground arith
  refuse-tokens invalid db access id_token scope h = ground arith
  refuse-tokens conflict db access id_token scope h = ground arith
  refuse-tokens unavailable db access id_token scope h = ground arith

  exchange-tokens :
      (stored : OidcCode) (session signed given : Text) (db : Database)
      (access id_token scope : Text)
      → (exchange x faults random at r client stored session signed given db).1
        ≡ tokens access id_token scope
      → (c : OidcCode) × ((session_exchange x faults random at r client session access db).1 ≡ ok c)
        × (signed ≡ id_token)
        × (scope ≡ stored.scope)
        × ((exchange x faults random at r client stored session signed given db).0
            ≡ (session_exchange x faults random at r client session access db).0)
  unfolding exchange
  exchange-tokens stored session signed given db access id_token scope h =
      elim (Result-cases (session_exchange x faults random at r client session given db).1) [
        | inr (e, w) ↦ absurd (
            refuse-tokens e (session_exchange x faults random at r client session given db).0 access
              id_token scope (rw (w, exchange) at h))
        | inl (c, w) ↦
            let same : tokens given signed stored.scope ≡ tokens access id_token scope =
              rw (w, exchange) at h in
            let given_access : given ≡ access = ground arith in
            (
              c,
              subst (λ a. (session_exchange x faults random at r client session a db).1 ≡ ok c)
                  given_access w,
              ground arith,
              ground arith,
              rw (w, exchange)
                  (ap (λ a. (session_exchange x faults random at r client session a db).0)
                    given_access),
            )
      ]

  issue_tokens-tokens :
      (stored : OidcCode) (u : User) (du : DirectoryUser) (subject : Text) (db : Database)
      (access id_token scope : Text)
      → (issue_tokens x faults random at r client stored u du subject db).1
        ≡ tokens access id_token scope
      → (session : Text) × (c : OidcCode) × (x.sign
            (claims_of x subject client u du stored session at.issued)
          ≡ some id_token)
        × (scope ≡ stored.scope)
        × ((session_exchange x faults random at r client session access db).1 ≡ ok c)
        × ((issue_tokens x faults random at r client stored u du subject db).0
            ≡ (session_exchange x faults random at r client session access db).0)
  unfolding issue_tokens sign_and_exchange
  issue_tokens-tokens stored u du subject db access id_token scope h =
      elim (Option-cases (random 1)) [
        | inl e ↦ absurd (ground (arith, e))
        | inr (raw, e) ↦
            let session = x.primitives.base64_encode raw in
            elim (Option-cases
              (x.sign (claims_of x subject client u du stored session at.issued))) [
                | inl w ↦ absurd (ground (arith, e, w))
                | inr (made, w) ↦ elim (Option-cases (random 2)) [
                  | inl v ↦ absurd (ground (arith, e, w, v))
                  | inr (other, v) ↦
                      let (c, done, same, asked, left) =
                        exchange-tokens stored session made (x.primitives.base64_encode other) db
                          access id_token scope
                          (rw (e, w, v, issue_tokens, sign_and_exchange) at h) in
                      (
                        session,
                        c,
                        w ∙ ap some same,
                        asked,
                        done,
                        rw (e, w, v, issue_tokens, sign_and_exchange) left,
                      )
                ]
              ]
      ]

  exchange_code-tokens :
      (db : Database) (access id_token scope : Text)
      → (exchange_code x faults random at r client db).1 ≡ tokens access id_token scope
      → (stored : OidcCode) × (u : User) × (du : DirectoryUser) × (subject : Text)
        × (session : Text) × (c : OidcCode) × (stored_code x faults random at r client db
            ≡ ok stored)
        × (verifies x r.code_verifier stored ≡ true)
        × (get_user (faults 2) stored.user_id db ≡ ok u)
        × (x.directory_user u.username ≡ some du)
        × ((ensured_subject x faults random at r client u db).1 ≡ ok subject)
        × (x.sign (claims_of x subject client u du stored session at.issued) ≡ some id_token)
        × (scope ≡ stored.scope)
        × ((session_exchange x faults random at r client session access
              (ensured_subject x faults random at r client u db).0).1
            ≡ ok c)
        × ((exchange_code x faults random at r client db).0
            ≡ (session_exchange x faults random at r client session access
                (ensured_subject x faults random at r client u db).0).0)
  unfolding exchange_code exchange_for_user issue_to
  exchange_code-tokens db access id_token scope h =
      elim (Result-cases (stored_code x faults random at r client db)) [
        | inr (e, w) ↦ absurd (ground (arith, w))
        | inl (stored, w) ↦ elim (Bool-cases (verifies x r.code_verifier stored)) [
          | inr v ↦ absurd (
              denied-tokens (codes "pkce_failed") db access id_token scope
                (rw (w, v, exchange_code) at h))
          | inl v ↦ elim (Result-cases (get_user (faults 2) stored.user_id db)) [
            | inr (e, g) ↦ absurd (
                denied-tokens (codes "user_unavailable") db access id_token scope
                  (rw (w, v, g, exchange_code, exchange_for_user) at h))
            | inl (u, g) ↦ elim (Option-cases (x.directory_user u.username)) [
              | inl d ↦ absurd (
                  denied-tokens (codes "user_inactive") db access id_token scope
                    (rw (w, v, g, d, exchange_code, exchange_for_user) at h))
              | inr (du, d) ↦
                  elim (Result-cases (ensured_subject x faults random at r client u db).1) [
                    | inr (e, n) ↦ absurd (ground (arith, w, v, g, d, n))
                    | inl (subject, n) ↦
                        let (session, c, signed, asked, done, left) =
                          issue_tokens-tokens stored u du subject
                            (ensured_subject x faults random at r client u db).0 access id_token
                            scope
                            (rw (w, v, g, d, n, exchange_code, exchange_for_user, issue_to) at h) in
                        (
                          stored,
                          u,
                          du,
                          subject,
                          session,
                          c,
                          w,
                          v,
                          g,
                          d,
                          n,
                          signed,
                          asked,
                          done,
                          rw (w, v, g, d, n, exchange_code, exchange_for_user, issue_to) left,
                        )
                  ]
            ]
          ]
        ]
      ]

abbrev pub client_of : Externals → Failures → TokenRequest → State → Text × Bool
client_of x faults r s = authenticate_client x (faults 0) r.credentials s.database

-- The guards in front of the exchange.
pub token-tokens :
    (x : Externals) (faults : Failures) (random : Random) (at : Clock) (r : TokenRequest)
    (s : State) (access id_token scope : Text)
    → (token x faults random at r s).1 ≡ tokens access id_token scope
    → let client = client_of x faults r s in
      (client.1 ≡ true)
      × ((exchange_code x faults random at r client.0 s.database).1 ≡ tokens access id_token scope)
      × ((token x faults random at r s).0.database
          ≡ (exchange_code x faults random at r client.0 s.database).0)
unfolding token token_form
token-tokens x faults random at r s access id_token scope h =
    let passed : (limit_key 10 (codes "oidc-token:" ++ r.ip) at.attempted s).1 ≡ true =
      ground arith in
    let parsed : r.parses ≡ true = ground arith in
    let granted : text_eq r.grant_type (codes "authorization_code") ≡ true = ground arith in
    let known : (client_of x faults r s).1 ≡ true = ground arith in
    (
      known,
      ground (arith, passed, parsed, granted, known),
      ground (arith, passed, parsed, granted, known),
    )

-- The token endpoint answers with tokens only to a client that authenticated, for a stored code of
-- that client and callback that is neither used nor expired, with a verifier of 43 to 128 bytes
-- whose hash is the code's challenge, and while the directory knows the code's user; the ID token is
-- signed for that user's subject and the code's nonce, the scope is the code's, and the code is
-- exchanged for the session of the access token, as the store is left.
pub token_issued :
    (x : Externals) (faults : Failures) (random : Random) (at : Clock) (r : TokenRequest)
    (s : State) (access id_token scope : Text)
    → (token x faults random at r s).1 ≡ tokens access id_token scope
    → let client = client_of x faults r s in
      (stored : OidcCode) × (u : User) × (du : DirectoryUser) × (subject : Text) × (session : Text)
      × (c : OidcCode) × (client.1 ≡ true)
      × (stored_code x faults random at r client.0 s.database ≡ ok stored)
      × (verifies x r.code_verifier stored ≡ true)
      × (get_user (faults 2) stored.user_id s.database ≡ ok u)
      × (x.directory_user u.username ≡ some du)
      × ((ensured_subject x faults random at r client.0 u s.database).1 ≡ ok subject)
      × (x.sign (claims_of x subject client.0 u du stored session at.issued) ≡ some id_token)
      × (scope ≡ stored.scope)
      × ((session_exchange x faults random at r client.0 session access
            (ensured_subject x faults random at r client.0 u s.database).0).1
          ≡ ok c)
      × ((token x faults random at r s).0.database
          ≡ (session_exchange x faults random at r client.0 session access
              (ensured_subject x faults random at r client.0 u s.database).0).0)
token_issued x faults random at r s access id_token scope h =
    let (known, answer, left) = token-tokens x faults random at r s access id_token scope h in
    let (stored, u, du, subject, session, c, w, v, g, d, n, signed, asked, done, after) =
      exchange_code-tokens x faults random at r (client_of x faults r s).0 s.database access
        id_token scope answer in
    (stored, u, du, subject, session, c, known, w, v, g, d, n, signed, asked, done, left ∙ after)
