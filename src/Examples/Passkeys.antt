-- ===== src/Examples/Passkeys.antt =====
-- A passkey that logs in, and is revoked.
use stumpfworks_identity.Store.Schema.{
  User, SelfServiceSession, WebauthnCeremony, WebauthnCredential, Database, passkey_login,
  validate_audit_ip,
}
use stumpfworks_identity.Base.{
  ℕ, ◌+◌, ◌≤◌, ◌<◌, ◌≡◌, refl, ◌≢◌, true, false, none, some, [], ◌∷◌, arith, Text, codes, text_eq,
  find, count, any, update, ok,
}
use stumpfworks_identity.Examples.Data.{works, empty, repeated}
use stumpfworks_identity.Examples.Oidc.{anything, alice}
use stumpfworks_identity.Store.SelfService.{insert_session, active_self_service_session}
use stumpfworks_identity.Store.Webauthn.Validation.{
  AuthenticationUpdate, valid_webauthn_authentication, valid_webauthn_sign_count, fifteen_minutes,
}
use stumpfworks_identity.Store.Webauthn.{
  waiting, complete_ceremony, consume_webauthn_ceremony, user_with,
}
use stumpfworks_identity.Store.Webauthn.Passkeys.{
  passkey_entry, unrevoked, opened, revocable, counted_at, signed, matches, authentication_body,
  complete_webauthn_authentication, revocation_body, revoke_webauthn_credential_with_audit,
}
use stumpfworks_identity.Store.Webauthn.History.{Step, authenticate, run, apply}
use stumpfworks_identity.Store.Webauthn.SignedIn.{
  signed_in, ceremony_once, passkey_revoked_final, counter_grows,
}

abbrev passkey : WebauthnCredential
passkey = record {
  credential_id = 3 ∷ [];
  management_id = repeated 16 4;
  user_id = 1;
  public_key = 5 ∷ [];
  rp_id = codes "id";
  name = codes "key";
  transports = [];
  attestation_type = [];
  attestation_format = [];
  flags = 0;
  sign_count = 7;
  backup_eligible = false;
  backup_state = false;
  created_at = 1;
  last_used_at = none;
  revoked_at = none;
}

abbrev asked : Text → WebauthnCeremony
asked id = record {
  id = id;
  kind = codes "authentication";
  audience = codes "self-service";
  user_id = none;
  session_data = 1 ∷ [];
  created_at = 10;
  expires_at = 100;
  consumed_at = none;
}

abbrev db : Database
db = record empty {
  users = alice ∷ [];
  webauthn_credentials = passkey ∷ [];
  webauthn_ceremonies = asked (8 ∷ []) ∷ asked (9 ∷ []) ∷ [];
}

abbrev counts : ℕ → AuthenticationUpdate
counts n = record { credential_id = 3 ∷ []; user_id = 1; sign_count = n; backup_state = true }

abbrev fresh : Text → SelfServiceSession
fresh id = record {
  id = id;
  username = 65 ∷ [];
  created_at = 0;
  expires_at = 500;
  revoked_at = none;
}

abbrev attempt : Step
attempt = record {
  faults = works;
  ip = [];
  operation = authenticate (8 ∷ []) 30 (counts 9) (fresh (21 ∷ []));
}

abbrev after_login : Database
after_login =
    (complete_webauthn_authentication anything works (8 ∷ []) 20 (counts 8) (fresh (20 ∷ [])) []
      db).0

login_run :
    (complete_webauthn_authentication anything works
      (8 ∷ [])
      20
      (counts 8)
      (fresh (20 ∷ []))
      []
      db).1
    ≡ ok tt
unfolding complete_webauthn_authentication valid_webauthn_authentication validate_audit_ip
    authentication_body find waiting text_eq matches valid_webauthn_sign_count count counted_at
    insert_session any complete_ceremony
login_run = refl

signed_in_example :
    (ceremony : WebauthnCeremony) × (c : WebauthnCredential) × (u : User) × (find
        (waiting (8 ∷ []) (codes "authentication") (codes "self-service") 20)
        db.webauthn_ceremonies
      ≡ some ceremony)
    × (find (unrevoked (3 ∷ [])) db.webauthn_credentials ≡ some c)
    × (find (user_with c.user_id) db.users ≡ some u)
    × (u.username ≡ 65 ∷ [])
    × (valid_webauthn_sign_count c.sign_count 8 ≡ true)
    × (after_login.webauthn_credentials
        ≡ update
            (counted_at (counts 8) c.sign_count)
            (signed (counts 8) 20)
            db.webauthn_credentials)
    × (after_login.audit_log ≡ passkey_entry passkey_login u.username [] ∷ [])
    × (active_self_service_session anything works (20 ∷ []) u.username 400 after_login
        ≡ ok (opened (fresh (20 ∷ [])) u.username 20))
    × (500 ≤ 20 + fifteen_minutes)
signed_in_example =
    signed_in anything works works (8 ∷ []) 20 400 (counts 8) (fresh (20 ∷ [])) [] db login_run refl
      (omega arith)

ceremony_once_example :
    let later = run anything (attempt ∷ []) after_login in
    ((complete_webauthn_authentication anything works
        (8 ∷ [])
        40
        (counts 12)
        (fresh (22 ∷ []))
        []
        later).1
      ≢ ok tt)
    × ((consume_webauthn_ceremony works
          (8 ∷ [])
          (codes "authentication")
          (codes "self-service")
          40
          later).1
        ≢ ok (asked (8 ∷ [])))
ceremony_once_example =
    ceremony_once anything works works (8 ∷ []) (codes "authentication") (codes "self-service") 20
      40 (counts 8) (counts 12) (fresh (20 ∷ [])) (fresh (22 ∷ [])) [] [] (attempt ∷ []) db
      (asked (8 ∷ [])) login_run

second_run :
    (complete_webauthn_authentication anything works
      (9 ∷ [])
      40
      (counts 12)
      (fresh (22 ∷ []))
      []
      (run anything (attempt ∷ []) after_login)).1
    ≡ ok tt
unfolding complete_webauthn_authentication valid_webauthn_authentication validate_audit_ip
    authentication_body find run apply waiting text_eq matches valid_webauthn_sign_count count
    counted_at insert_session any complete_ceremony update
second_run = refl

counter_grows_example : 8 < 12
unfolding count text_eq
counter_grows_example =
    counter_grows anything works works (8 ∷ []) (9 ∷ []) 20 40 (counts 8) (counts 12)
      (fresh (20 ∷ [])) (fresh (22 ∷ [])) [] [] (attempt ∷ []) db (omega arith) (omega arith)
      login_run refl second_run

revocation_run :
    (revoke_webauthn_credential_with_audit anything works (repeated 16 4) 1 (65 ∷ []) [] 15 db).1
    ≡ ok tt
unfolding revoke_webauthn_credential_with_audit validate_audit_ip revocation_body find revocable
    text_eq count
revocation_run = refl

passkey_revoked_final_example :
    (complete_webauthn_authentication anything works (9 ∷ []) 40 (counts 12) (fresh (22 ∷ [])) [] (
      run anything
        (attempt ∷ [])
        (revoke_webauthn_credential_with_audit anything works
          (repeated 16 4)
          1
          (65 ∷ [])
          []
          15
          db).0)).1
    ≢ ok tt
unfolding find revocable text_eq count
passkey_revoked_final_example =
    passkey_revoked_final anything works works (repeated 16 4) 1 (65 ∷ []) [] 15 (9 ∷ []) 40
      (counts 12) (fresh (22 ∷ [])) [] (attempt ∷ []) db passkey refl (omega arith) revocation_run
      refl

abbrev two : Database
two = record empty { self_service_sessions = fresh (20 ∷ []) ∷ fresh (21 ∷ []) ∷ [] }

abbrev first : Text
first = 20 ∷ []
