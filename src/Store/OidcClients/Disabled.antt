-- ===== src/Store/OidcClients/Disabled.antt =====
-- What a disabled client loses.
use stumpfworks_identity.Store.Schema.{
  Event, OidcClient, OidcSession, Database, oidc_client_enabled,
}
use stumpfworks_identity.Base.{
  ℕ, ◌≡◌, ◌≢◌, true, false, arith, Text, count, update, find-none_of_stronger, count-update_none,
  ok, Faults,
}
use stumpfworks_identity.Store.Oidc.{Externals}
use stumpfworks_identity.Store.Oidc.Taking.{audited-ok, audited-keeps}
use stumpfworks_identity.Store.Oidc.Sessions.{revoke, oidc_session_by_token_hash, is_live}
use stumpfworks_identity.Store.OidcClients.{
  switched, open_for, disable_body, update_client_body, update_oidc_client_with_audit,
  set_oidc_client_enabled_with_audit,
}

-- No session of the client is open.
abbrev pub Closed : Text → Database → Type 0
Closed id db = count (open_for id) db.oidc_sessions ≡ 0

disable_body-ok :
    (faults : Faults) (id : Text) (clock : ℕ) (ip : Text) (db after : Database)
    → disable_body faults id clock ip db ≡ ok (tt, after)
    → after.oidc_sessions ≡ update (open_for id) (revoke clock) db.oidc_sessions
unfolding disable_body
disable_body-ok faults id clock ip db after h = ground arith

update_body-ok :
    (faults : Faults) (id ip : Text) (event : Event) (change : OidcClient → OidcClient)
    (db after : Database)
    → update_client_body faults id ip event change db ≡ ok (tt, after)
    → after.oidc_sessions ≡ db.oidc_sessions
unfolding update_client_body
update_body-ok faults id ip event change db after h = ground arith

disable-Closed :
    (x : Externals) (faults : Faults) (id : Text) (clock : ℕ) (ip : Text) (db : Database)
    → (set_oidc_client_enabled_with_audit x faults id false clock ip db).1 ≡ ok tt
    → Closed id (set_oidc_client_enabled_with_audit x faults id false clock ip db).0
unfolding set_oidc_client_enabled_with_audit
disable-Closed x faults id clock ip db h =
    let (after, body, left) = audited-ok x faults ip db (disable_body faults id clock ip) tt h in
    rw (left, disable_body-ok faults id clock ip db after body)
      (count-update_none (open_for id) (revoke clock) (open_for id) db.oidc_sessions
        (λ s. ground arith))

enable-Closed :
    (x : Externals) (faults : Faults) (id : Text) (clock : ℕ) (ip : Text) (db : Database)
    → Closed id db
    → Closed id (set_oidc_client_enabled_with_audit x faults id true clock ip db).0
unfolding set_oidc_client_enabled_with_audit update_oidc_client_with_audit
enable-Closed x faults id clock ip db h =
    audited-keeps (Closed id) x faults ip db
      (update_client_body faults id ip oidc_client_enabled (switched true))
      (λ u after w.
        rw (update_body-ok faults id ip oidc_client_enabled (switched true) db after w) h)
      h

unanswered :
    (later : Faults) (id token : Text) (now : ℕ) (db : Database) (s : OidcSession)
    → Closed id db
    → oidc_session_by_token_hash later token id now db ≢ ok s
unfolding oidc_session_by_token_hash is_live
unanswered later id token now db s closed k =
    let nothing =
      find-none_of_stronger (open_for id) (is_live token id now db) db.oidc_sessions
        (λ r. ground arith) closed in
    ground (arith, nothing)

-- A client that is disabled loses its access tokens for good: none is answered for afterwards, and
-- none when the client has been enabled again, whether or not that succeeds.
pub disabled_for_good :
    (x : Externals) (faults enabling later : Faults) (id : Text) (clock clock' : ℕ) (ip ip' : Text)
    (token : Text) (now : ℕ) (db : Database) (s s' : OidcSession)
    → (set_oidc_client_enabled_with_audit x faults id false clock ip db).1 ≡ ok tt
    → let disabled = (set_oidc_client_enabled_with_audit x faults id false clock ip db).0 in
      let enabled = (set_oidc_client_enabled_with_audit x enabling id true clock' ip' disabled).0 in
      (oidc_session_by_token_hash later token id now disabled ≢ ok s)
      × (oidc_session_by_token_hash later token id now enabled ≢ ok s')
disabled_for_good x faults enabling later id clock clock' ip ip' token now db s s' h =
    let disabled = (set_oidc_client_enabled_with_audit x faults id false clock ip db).0 in
    let enabled = (set_oidc_client_enabled_with_audit x enabling id true clock' ip' disabled).0 in
    let closed = disable-Closed x faults id clock ip db h in
    (
      unanswered later id token now disabled s closed,
      unanswered later id token now enabled s'
          (enable-Closed x enabling id clock' ip' disabled closed),
    )
