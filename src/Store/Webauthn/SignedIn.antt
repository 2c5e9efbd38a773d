-- ===== src/Store/Webauthn/SignedIn.antt =====
-- What a login by passkey takes and gives, and what no later login can repeat.
use stumpfworks_identity.Store.Schema.{
  User, SelfServiceSession, WebauthnCeremony, WebauthnCredential, Database, passkey_login,
}
use stumpfworks_identity.Base.{
  ℕ, ◌+◌, ◌≤◌, ◌<◌, ◌≡◌, sym, ap, subst, ◌∙◌, ◌≢◌, inl, inr, Bool, true, false, ◌&&◌, some, List,
  ◌∷◌, arith, Text, codes, text_eq_refl, text_eq_sound, find, count, update, count-update_none,
  All-find, find_sound, count_of_find, any_of_count, count_of_stronger-le, any-update,
  count-update_drop, any_of_find, All-update_only, ltb, Bool-cases, ok, Faults,
}
use stumpfworks_identity.Store.Oidc.{Externals}
use stumpfworks_identity.Store.Oidc.Taking.{transaction-ok, audited-ok}
use stumpfworks_identity.Store.SelfService.{active_self_service_session, is_active}
use stumpfworks_identity.Store.Webauthn.Validation.{
  AuthenticationUpdate, valid_webauthn_authentication, valid_webauthn_sign_count, fifteen_minutes,
  valid_lookup, length_within,
}
use stumpfworks_identity.Store.Webauthn.{
  ceremony_with, unconsumed, completed, waiting, consume_webauthn_ceremony, consume_body, user_with,
}
use stumpfworks_identity.Store.Webauthn.Passkeys.{
  passkey_entry, credential_with, unrevoked, revocable, withdrawn, counted_at, signed, matches,
  opened, authentication_body, complete_webauthn_authentication, revocation_body,
  revoke_webauthn_credential_with_audit,
}
use stumpfworks_identity.Store.Webauthn.Changes.{
  consume_body-ok, revocation_body-ok, authentication_body-ok,
}
use stumpfworks_identity.Store.Webauthn.History.{Step, run}
use stumpfworks_identity.Store.Webauthn.Spent.{
  Completed, run-Completed, Withdrawn, run-Withdrawn, AtLeast, Reached, run-Reached,
}

authenticate-passed :
    (x : Externals) (faults : Faults) (id : Text) (now : ℕ) (new : AuthenticationUpdate)
    (session : SelfServiceSession) (ip : Text) (db : Database)
    → (complete_webauthn_authentication x faults id now new session ip db).1 ≡ ok tt
    → (valid_webauthn_authentication id now new session ≡ true)
      × (authentication_body faults id now new session ip db
          ≡ ok (tt, (complete_webauthn_authentication x faults id now new session ip db).0))
unfolding complete_webauthn_authentication
authenticate-passed x faults id now new session ip db h =
    elim (Bool-cases (valid_webauthn_authentication id now new session)) [
      | inr e ↦ absurd (ground (arith, e))
      | inl e ↦
          let (after, made, left) =
            audited-ok x faults ip db (authentication_body faults id now new session ip) tt
              (rw e at h) in
          (e, rw (e, left) made)
    ]

-- A login by passkey answers to a ceremony that was waiting, with a passkey of the named user that
-- is not revoked and whose counter the new one exceeds unless both are 0; afterwards the passkey
-- counts from the new one, the login is in the audit, and the session it opens is the user's and is
-- active until it expires, a quarter of an hour later at most.
pub signed_in :
    (x : Externals) (faults later : Faults) (id : Text) (now time : ℕ) (new : AuthenticationUpdate)
    (session : SelfServiceSession) (ip : Text) (db : Database)
    → (complete_webauthn_authentication x faults id now new session ip db).1 ≡ ok tt
    → later 0 ≡ false
    → time ≤ session.expires_at
    → let after = (complete_webauthn_authentication x faults id now new session ip db).0 in
      (ceremony : WebauthnCeremony) × (c : WebauthnCredential) × (u : User) × (find
          (waiting id (codes "authentication") (codes "self-service") now)
          db.webauthn_ceremonies
        ≡ some ceremony)
      × (find (unrevoked new.credential_id) db.webauthn_credentials ≡ some c)
      × (find (user_with c.user_id) db.users ≡ some u)
      × (u.username ≡ session.username)
      × (valid_webauthn_sign_count c.sign_count new.sign_count ≡ true)
      × (after.webauthn_credentials
          ≡ update (counted_at new c.sign_count) (signed new now) db.webauthn_credentials)
      × (after.audit_log ≡ passkey_entry passkey_login u.username ip ∷ db.audit_log)
      × (active_self_service_session x later session.id u.username time after
          ≡ ok (opened session u.username now))
      × (session.expires_at ≤ now + fifteen_minutes)
unfolding active_self_service_session is_active find matches valid_webauthn_authentication
signed_in x faults later id now time new session ip db h up until =
    let (valid, body) = authenticate-passed x faults id now new session ip db h in
    let (ceremony, c, u, waits, holds, owner, agrees, _, _, made) =
      authentication_body-ok faults id now new session ip db
        (complete_webauthn_authentication x faults id now new session ip db).0 body in
    let own = text_eq_refl session.id in
    let same = text_eq_refl (x.lower u.username) in
    (
      ceremony,
      c,
      u,
      waits,
      holds,
      owner,
      text_eq_sound u.username session.username (ground (arith, agrees)),
      ground (arith, agrees),
      ap (λ d. d.webauthn_credentials) made,
      ap (λ d. d.audit_log) made,
      rw made (ground (arith, own, same, up, until)),
      ground (arith, valid),
    )

authenticate-Completed :
    (x : Externals) (faults : Faults) (id : Text) (now : ℕ) (new : AuthenticationUpdate)
    (session : SelfServiceSession) (ip : Text) (db : Database)
    → (complete_webauthn_authentication x faults id now new session ip db).1 ≡ ok tt
    → Completed id
        (complete_webauthn_authentication x faults id now new session ip db).0.webauthn_ceremonies
unfolding waiting
authenticate-Completed x faults id now new session ip db h =
    let (valid, body) = authenticate-passed x faults id now new session ip db h in
    let (ceremony, c, u, waits, holds, owner, agrees, _, _, made) =
      authentication_body-ok faults id now new session ip db
        (complete_webauthn_authentication x faults id now new session ip db).0 body in
    let seen =
      any_of_count (waiting id (codes "authentication") (codes "self-service") now)
        (ceremony_with id) db.webauthn_ceremonies (λ r. ground arith)
        (count_of_find (waiting id (codes "authentication") (codes "self-service") now)
          db.webauthn_ceremonies ceremony waits) in
    rw made (
      any-update (unconsumed id) (completed now) (ceremony_with id) db.webauthn_ceremonies
            (λ r. ground arith)
          ∙ seen,
      count-update_none (unconsumed id) (completed now) (unconsumed id) db.webauthn_ceremonies
          (λ r. ground arith),
    )

refused-Completed :
    (p : WebauthnCeremony → Bool) (id : Text) (rows : List WebauthnCeremony) (c : WebauthnCeremony)
    → ((r : WebauthnCeremony) → p r ≡ true → unconsumed id r ≡ true)
    → Completed id rows
    → find p rows ≢ some c
refused-Completed p id rows c stronger h found =
    let one = count_of_find p rows c found in
    let le = count_of_stronger-le p (unconsumed id) rows stronger in omega (arith, one, le, h.1)

-- A ceremony that a login completed is never waiting again: after any history neither a login nor
-- a consumption of that ceremony succeeds.
pub ceremony_once :
    (x : Externals) (faults again : Faults) (id kind audience : Text) (now time : ℕ)
    (new new' : AuthenticationUpdate) (session session' : SelfServiceSession) (ip ip' : Text)
    (steps : List Step) (db : Database) (c : WebauthnCeremony)
    → (complete_webauthn_authentication x faults id now new session ip db).1 ≡ ok tt
    → let later =
        run x steps (complete_webauthn_authentication x faults id now new session ip db).0 in
      ((complete_webauthn_authentication x again id time new' session' ip' later).1 ≢ ok tt)
      × ((consume_webauthn_ceremony again id kind audience time later).1 ≢ ok c)
unfolding waiting consume_webauthn_ceremony
ceremony_once x faults again id kind audience now time new new' session session' ip ip' steps db c
      h =
    let first = (complete_webauthn_authentication x faults id now new session ip db).0 in
    let later = run x steps first in
    let done =
      run-Completed id x steps first (authenticate-Completed x faults id now new session ip db h) in
    (
      (λ k.
          let (_, body) = authenticate-passed x again id time new' session' ip' later k in
          let (ceremony, _, _, waits, _, _, _, _, _, _) =
            authentication_body-ok again id time new' session' ip' later
              (complete_webauthn_authentication x again id time new' session' ip' later).0 body in
          refused-Completed (waiting id (codes "authentication") (codes "self-service") time) id
            later.webauthn_ceremonies ceremony (λ r. ground arith) done waits),
      (λ k. elim (Bool-cases (valid_lookup id kind audience time)) [
        | inr e ↦ ground (arith, e)
        | inl e ↦
            let (after, body, _) =
              transaction-ok again later (consume_body again id kind audience time) c (rw e at k) in
            let (_, one) = consume_body-ok again id kind audience time c later after body in
            omega (arith, one, done.1)
      ]),
    )

revoke-Withdrawn :
    (x : Externals) (faults : Faults) (managed : Text) (user : ℕ) (username ip : Text) (now : ℕ)
    (db : Database) (c : WebauthnCredential)
    → find (revocable managed user) db.webauthn_credentials ≡ some c
    → count (credential_with c.credential_id) db.webauthn_credentials ≤ 1
    → (revoke_webauthn_credential_with_audit x faults managed user username ip now db).1 ≡ ok tt
    → Withdrawn c.credential_id
        (revoke_webauthn_credential_with_audit x faults managed user username ip now
          db).0.webauthn_credentials
unfolding revoke_webauthn_credential_with_audit revocable
revoke-Withdrawn x faults managed user username ip now db c found single h =
    elim (Bool-cases (
      length_within 16 128 managed
      && (ltb 0 user && (length_within 1 256 username && ltb 0 now)))) [
        | inr e ↦ absurd (ground (arith, e))
        | inl e ↦
            let (after, body, left) =
              audited-ok x faults ip db (revocation_body faults managed user username ip now) tt
                (rw e at h) in
            let (_, made, _) =
              revocation_body-ok faults managed user username ip now db after body in
            let own = text_eq_refl c.credential_id in
            let chosen = find_sound (revocable managed user) db.webauthn_credentials c found in
            let fewer =
              count-update_drop (revocable managed user) (withdrawn now) (unrevoked c.credential_id)
                db.webauthn_credentials c found (ground (arith, own, chosen)) (λ r. ground arith) in
            let le =
              count_of_stronger-le (unrevoked c.credential_id) (credential_with c.credential_id)
                db.webauthn_credentials (λ r. ground arith) in
            rw (e, left, made)
              (
                any-update (revocable managed user) (withdrawn now)
                      (credential_with c.credential_id) db.webauthn_credentials (λ r. ground arith)
                    ∙ any_of_find (revocable managed user) (credential_with c.credential_id)
                        db.webauthn_credentials c found own,
                omega (arith, fewer, le, single),
              )
      ]

-- A passkey whose identifier no other row has, revoked under its management identifier, never logs
-- in again, after any history.
pub passkey_revoked_final :
    (x : Externals) (faults again : Faults) (managed : Text) (user : ℕ) (username ip : Text)
    (now : ℕ) (id : Text) (time : ℕ) (new : AuthenticationUpdate) (session : SelfServiceSession)
    (ip' : Text) (steps : List Step) (db : Database) (c : WebauthnCredential)
    → find (revocable managed user) db.webauthn_credentials ≡ some c
    → count (credential_with c.credential_id) db.webauthn_credentials ≤ 1
    → (revoke_webauthn_credential_with_audit x faults managed user username ip now db).1 ≡ ok tt
    → new.credential_id ≡ c.credential_id
    → (complete_webauthn_authentication x again id time new session ip' (
        run x steps
          (revoke_webauthn_credential_with_audit x faults managed user username ip now db).0)).1
      ≢ ok tt
passkey_revoked_final x faults again managed user username ip now id time new session ip' steps db c
      found single h same k =
    let first =
      (revoke_webauthn_credential_with_audit x faults managed user username ip now db).0 in
    let later = run x steps first in
    let gone =
      run-Withdrawn c.credential_id x steps first
        (revoke-Withdrawn x faults managed user username ip now db c found single h) in
    let (_, body) = authenticate-passed x again id time new session ip' later k in
    let (_, r, _, _, holds, _, _, _, _, _) =
      authentication_body-ok again id time new session ip' later
        (complete_webauthn_authentication x again id time new session ip' later).0 body in
    let one = count_of_find (unrevoked new.credential_id) later.webauthn_credentials r holds in
    let none_left =
      subst (λ i. count (unrevoked i) later.webauthn_credentials ≡ 0) (sym same) gone.1 in
    omega (arith, one, none_left)

authenticate-Reached :
    (x : Externals) (faults : Faults) (id : Text) (now : ℕ) (new : AuthenticationUpdate)
    (session : SelfServiceSession) (ip : Text) (db : Database)
    → count (credential_with new.credential_id) db.webauthn_credentials ≤ 1
    → (complete_webauthn_authentication x faults id now new session ip db).1 ≡ ok tt
    → Reached new.sign_count new.credential_id
        (complete_webauthn_authentication x faults id now new session ip db).0.webauthn_credentials
unfolding counted_at
authenticate-Reached x faults id now new session ip db single h =
    let (_, body) = authenticate-passed x faults id now new session ip db h in
    let (_, c, _, _, holds, _, _, _, one, made) =
      authentication_body-ok faults id now new session ip db
        (complete_webauthn_authentication x faults id now new session ip db).0 body in
    let own = find_sound (unrevoked new.credential_id) db.webauthn_credentials c holds in
    rw made (
      any-update (counted_at new c.sign_count) (signed new now) (credential_with new.credential_id)
            db.webauthn_credentials (λ r. ground arith)
          ∙ any_of_find (unrevoked new.credential_id) (credential_with new.credential_id)
              db.webauthn_credentials c holds (ground (arith, own)),
      All-update_only (counted_at new c.sign_count) (signed new now)
          (credential_with new.credential_id) (λ r. new.sign_count ≤ r.sign_count)
          db.webauthn_credentials (λ r. ground arith) (λ r _. omega arith) (omega (arith, one))
          single,
    )

-- A passkey that logged in with a counter that is not 0, its identifier being that of one row at
-- most, logs in again only with a greater counter, after any history.
pub counter_grows :
    (x : Externals) (faults again : Faults) (id id' : Text) (now time : ℕ)
    (new new' : AuthenticationUpdate) (session session' : SelfServiceSession) (ip ip' : Text)
    (steps : List Step) (db : Database)
    → 0 < new.sign_count
    → count (credential_with new.credential_id) db.webauthn_credentials ≤ 1
    → (complete_webauthn_authentication x faults id now new session ip db).1 ≡ ok tt
    → new'.credential_id ≡ new.credential_id
    → (complete_webauthn_authentication x again id' time new' session' ip'
        (run x steps (complete_webauthn_authentication x faults id now new session ip db).0)).1
      ≡ ok tt
    → new.sign_count < new'.sign_count
unfolding matches valid_webauthn_sign_count
counter_grows x faults again id id' now time new new' session session' ip ip' steps db positive
      single h same k =
    let first = (complete_webauthn_authentication x faults id now new session ip db).0 in
    let later = run x steps first in
    let reached =
      run-Reached new.sign_count new.credential_id x steps first
        (authenticate-Reached x faults id now new session ip db single h) in
    let (_, body) = authenticate-passed x again id' time new' session' ip' later k in
    let (ceremony, c, u, _, holds, _, agrees, _, _, _) =
      authentication_body-ok again id' time new' session' ip' later
        (complete_webauthn_authentication x again id' time new' session' ip' later).0 body in
    let own = find_sound (unrevoked new'.credential_id) later.webauthn_credentials c holds in
    let named = subst (λ i. unrevoked i c ≡ true) same own in
    let le =
      All-find (AtLeast new.sign_count new.credential_id) (unrevoked new'.credential_id)
        later.webauthn_credentials c holds reached.1 (ground (arith, named)) in
    ground (arith, le, agrees, positive)
