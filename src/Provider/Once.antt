-- ===== src/Provider/Once.antt =====
-- That a code gives tokens once, and what its access token is worth afterwards.
use stumpfworks_identity.Store.Schema.{OidcCode, Database}
use stumpfworks_identity.Base.{
  ◌+◌, ◌≡◌, sym, subst, ◌∙◌, ◌≢◌, inl, inr, true, false, ◌++◌, arith, Text, codes, text_eq,
  Result-cases, find-none_of_stronger, ok,
}
use stumpfworks_identity.Store.Oidc.{exchangeable, unconsumed, oidc_code_for_exchange}
use stumpfworks_identity.Store.Oidc.Taking.{Spent, Taken-spends}
use stumpfworks_identity.Store.Oidc.Replay.{session-Taken, deny-Taken}
use stumpfworks_identity.Provider.{Externals, State, Clock, Failures, Random, token_hash, limit_key}
use stumpfworks_identity.Provider.Token.{
  TokenRequest, oauth_error, tokens, token_lifetime, verifies, consume_denied_code, denial_of,
  ensured_subject, session_exchange, stored_code, exchange_code, token_form, token,
}
use stumpfworks_identity.Provider.Issued.{client_of, token_issued}

-- A code that is spent is not found for an exchange.
Spent-stored_code :
    (x : Externals) (faults : Failures) (random : Random) (at : Clock) (r : TokenRequest)
    (client : Text) (db : Database) (stored : OidcCode)
    → Spent (token_hash x r.code) db
    → stored_code x faults random at r client db ≢ ok stored
unfolding oidc_code_for_exchange exchangeable
Spent-stored_code x faults random at r client db stored spent h =
    let nothing =
      find-none_of_stronger (unconsumed (token_hash x r.code))
        (exchangeable (token_hash x r.code) client r.redirect_uri at.exchanged) db.oidc_codes
        (λ c. ground arith) spent in
    ground (arith, nothing)

Spent-token :
    (x : Externals) (faults : Failures) (random : Random) (at : Clock) (r : TokenRequest)
    (s : State) (access id_token scope : Text)
    → Spent (token_hash x r.code) s.database
    → (token x faults random at r s).1 ≢ tokens access id_token scope
Spent-token x faults random at r s access id_token scope spent h =
    let (stored, _, _, _, _, _, _, found, _, _, _, _, _, _, _, _) =
      token_issued x faults random at r s access id_token scope h in
    Spent-stored_code x faults random at r (client_of x faults r s).0 s.database stored spent found

token-spends :
    (x : Externals) (faults : Failures) (random : Random) (at : Clock) (r : TokenRequest)
    (s : State) (access id_token scope : Text)
    → (token x faults random at r s).1 ≡ tokens access id_token scope
    → Spent (token_hash x r.code) (token x faults random at r s).0.database
token-spends x faults random at r s access id_token scope h =
    let client = (client_of x faults r s).0 in
    let (_, u, _, _, session, c, _, _, _, _, _, _, _, _, done, after) =
      token_issued x faults random at r s access id_token scope h in
    let before = (ensured_subject x faults random at r client u s.database).0 in
    subst (Spent (token_hash x r.code)) (sym after) (
      Taken-spends (faults 4) (token_hash x r.code) client r.redirect_uri at.exchanged before
        (session_exchange x faults random at r client session access before).0
        (session-Taken x.store (faults 4) (token_hash x r.code) client r.redirect_uri at.exchanged
          (record {
            session_id = session;
            access_token_hash = token_hash x access;
            expires_at = at.issued + token_lifetime;
          })
          r.ip before c done))

-- A code gives tokens once: after a request that was answered with tokens, no request with the same
-- code is, from whichever client, with whichever verifier and whatever fails.
pub token_once :
    (x : Externals) (faults again : Failures) (random random' : Random) (at later : Clock)
    (r r' : TokenRequest) (s : State) (access id_token scope access' id_token' scope' : Text)
    → (token x faults random at r s).1 ≡ tokens access id_token scope
    → r'.code ≡ r.code
    → (token x again random' later r' (token x faults random at r s).0).1
      ≢ tokens access' id_token' scope'
token_once x faults again random random' at later r r' s access id_token scope access' id_token'
      scope' h same =
    let after = (token x faults random at r s).0 in
    Spent-token x again random' later r' after access' id_token' scope' (
      subst (λ c. Spent (token_hash x c) after.database) (sym same)
        (token-spends x faults random at r s access id_token scope h))

token-denied :
    (x : Externals) (faults : Failures) (random : Random) (at : Clock) (r : TokenRequest)
    (s : State)
    → (client_of x faults r s).1 ≡ true
    → (token x faults random at r s).1 ≡ oauth_error (codes "invalid_grant") 400
    → ((exchange_code x faults random at r (client_of x faults r s).0 s.database).1
        ≡ oauth_error (codes "invalid_grant") 400)
      × ((token x faults random at r s).0.database
          ≡ (exchange_code x faults random at r (client_of x faults r s).0 s.database).0)
unfolding token token_form
token-denied x faults random at r s known h =
    let passed : (limit_key 10 (codes "oidc-token:" ++ r.ip) at.attempted s).1 ≡ true =
      ground arith in
    let parsed : r.parses ≡ true = ground arith in
    let granted : text_eq r.grant_type (codes "authorization_code") ≡ true = ground arith in
    (ground (arith, passed, parsed, granted), ground (arith, passed, parsed, granted))

wrong-denied :
    (x : Externals) (faults : Failures) (random : Random) (at : Clock) (r : TokenRequest)
    (client : Text) (db : Database) (stored : OidcCode)
    → stored_code x faults random at r client db ≡ ok stored
    → verifies x r.code_verifier stored ≡ false
    → (exchange_code x faults random at r client db).1 ≡ oauth_error (codes "invalid_grant") 400
    → ((denial_of x faults random at r client (codes "pkce_failed") db).1 ≡ ok tt)
      × ((exchange_code x faults random at r client db).0
          ≡ (denial_of x faults random at r client (codes "pkce_failed") db).0)
unfolding exchange_code consume_denied_code
wrong-denied x faults random at r client db stored found wrong h =
    elim (Result-cases (denial_of x faults random at r client (codes "pkce_failed") db).1) [
      | inl (u, w) ↦ (w, ground (arith, found, wrong, w))
      | inr (e, w) ↦ absurd (ground (arith, found, wrong, w))
    ]

-- A code that its client presents with a wrong verifier, when the denial can be recorded, gives
-- no tokens afterwards, not even with the right verifier.
pub wrong_verifier_spends :
    (x : Externals) (faults again : Failures) (random random' : Random) (at later : Clock)
    (r r' : TokenRequest) (s : State) (stored : OidcCode) (access id_token scope : Text)
    → (client_of x faults r s).1 ≡ true
    → stored_code x faults random at r (client_of x faults r s).0 s.database ≡ ok stored
    → verifies x r.code_verifier stored ≡ false
    → (token x faults random at r s).1 ≡ oauth_error (codes "invalid_grant") 400
    → r'.code ≡ r.code
    → (token x again random' later r' (token x faults random at r s).0).1
      ≢ tokens access id_token scope
wrong_verifier_spends x faults again random random' at later r r' s stored access id_token scope
      known found wrong h same =
    let client = (client_of x faults r s).0 in
    let after = (token x faults random at r s).0 in
    let (answer, left) = token-denied x faults random at r s known h in
    let (done, made) =
      wrong-denied x faults random at r client s.database stored found wrong answer in
    Spent-token x again random' later r' after access id_token scope (
      subst (λ c. Spent (token_hash x c) after.database) (sym same)
        (subst (Spent (token_hash x r.code)) (sym (left ∙ made)) (
          Taken-spends (faults 5) (token_hash x r.code) client r.redirect_uri at.exchanged
            s.database (denial_of x faults random at r client (codes "pkce_failed") s.database).0
            (deny-Taken x.store (faults 5) (token_hash x r.code) client r.redirect_uri at.exchanged
              r.ip (codes "pkce_failed") s.database done))))
