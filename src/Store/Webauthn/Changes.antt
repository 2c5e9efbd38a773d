-- ===== src/Store/Webauthn/Changes.antt =====
-- How the tables of ceremonies and passkeys change: every operation is one step of two relations.
use stumpfworks_identity.Store.Schema.{
  User, SelfServiceSession, WebauthnCeremony, WebauthnCredential, Database, passkey_login,
}
use stumpfworks_identity.Base.{
  ℕ, ◌≡◌, Bool, true, false, none, some, List, ◌∷◌, arith, Text, codes, text_eq, find, count, any,
  update, ok, Faults,
}
use stumpfworks_identity.Store.Webauthn.Validation.{AuthenticationUpdate, valid_webauthn_sign_count}
use stumpfworks_identity.Store.SelfService.{insert_session}
use stumpfworks_identity.Store.Webauthn.{
  user_with, insert_handle, ensure_body, ceremony_with, insert_ceremony, unconsumed, completed,
  complete_ceremony, consume_body, waiting,
}
use stumpfworks_identity.Store.Webauthn.Passkeys.{
  passkey_entry, credential_clashes, insert_credential, registration_body, revocable, withdrawn,
  revocation_body, unrevoked, counted_at, signed, matches, opened, authentication_body,
}

pub data CeremonyChange : List WebauthnCeremony → List WebauthnCeremony → Type 0 where
  same : (rows : List WebauthnCeremony) → CeremonyChange rows rows
  begun :
      (c : WebauthnCeremony) (rows : List WebauthnCeremony)
      → any (ceremony_with c.id) rows ≡ false
      → CeremonyChange rows (c ∷ rows)
  finished :
      (id : Text) (now : ℕ) (rows : List WebauthnCeremony)
      → CeremonyChange rows (update (unconsumed id) (completed now) rows)

pub data PasskeyChange : List WebauthnCredential → List WebauthnCredential → Type 0 where
  unchanged : (rows : List WebauthnCredential) → PasskeyChange rows rows
  registered :
      (c : WebauthnCredential) (rows : List WebauthnCredential)
      → any (credential_clashes c) rows ≡ false
      → PasskeyChange rows (c ∷ rows)
  ended :
      (id : Text) (user now : ℕ) (rows : List WebauthnCredential)
      → PasskeyChange rows (update (revocable id user) (withdrawn now) rows)
  advanced :
      (new : AuthenticationUpdate) (previous now : ℕ) (rows : List WebauthnCredential)
      → valid_webauthn_sign_count previous new.sign_count ≡ true
      → PasskeyChange rows (update (counted_at new previous) (signed new now) rows)

abbrev pub Changed : Database → Database → Type 0
Changed db after =
    CeremonyChange db.webauthn_ceremonies after.webauthn_ceremonies
    × PasskeyChange db.webauthn_credentials after.webauthn_credentials

pub Changed-refl : (db : Database) → Changed db db
Changed-refl db = (same db.webauthn_ceremonies, unchanged db.webauthn_credentials)

pub ensure_body-ok :
    (faults : Faults) (user : ℕ) (handle out : Text) (db after : Database)
    → ensure_body faults user handle db ≡ ok (out, after)
    → (after.webauthn_ceremonies ≡ db.webauthn_ceremonies)
      × (after.webauthn_credentials ≡ db.webauthn_credentials)
unfolding ensure_body insert_handle
ensure_body-ok faults user handle out db after h = ground arith

pub insert_ceremony-ok :
    (fault : Bool) (c : WebauthnCeremony) (db after : Database)
    → insert_ceremony fault c db ≡ ok after
    → (after.webauthn_ceremonies ≡ record c { consumed_at = none } ∷ db.webauthn_ceremonies)
      × (after.webauthn_credentials ≡ db.webauthn_credentials)
      × (any (ceremony_with c.id) db.webauthn_ceremonies ≡ false)
unfolding insert_ceremony
insert_ceremony-ok fault c db after h = ground arith

pub consume_body-ok :
    (faults : Faults) (id kind audience : Text) (now : ℕ) (c : WebauthnCeremony)
    (db after : Database)
    → consume_body faults id kind audience now db ≡ ok (c, after)
    → (after ≡ record db {
      webauthn_ceremonies = update (unconsumed id) (completed now) db.webauthn_ceremonies;
    })
      × (count (unconsumed id) db.webauthn_ceremonies ≡ 1)
unfolding consume_body complete_ceremony
consume_body-ok faults id kind audience now c db after h = ground arith

pub registration_body-ok :
    (faults : Faults) (id audience : Text) (now : ℕ) (new : WebauthnCredential) (username ip : Text)
    (db after : Database)
    → registration_body faults id audience now new username ip db ≡ ok (tt, after)
    → (after.webauthn_ceremonies ≡ update (unconsumed id) (completed now) db.webauthn_ceremonies)
      × (after.webauthn_credentials ≡ new ∷ db.webauthn_credentials)
      × (any (credential_clashes new) db.webauthn_credentials ≡ false)
unfolding registration_body insert_credential complete_ceremony
registration_body-ok faults id audience now new username ip db after h = ground arith

pub revocation_body-ok :
    (faults : Faults) (id : Text) (user : ℕ) (username ip : Text) (now : ℕ) (db after : Database)
    → revocation_body faults id user username ip now db ≡ ok (tt, after)
    → (after.webauthn_ceremonies ≡ db.webauthn_ceremonies)
      × (after.webauthn_credentials
          ≡ update (revocable id user) (withdrawn now) db.webauthn_credentials)
      × (count (revocable id user) db.webauthn_credentials ≡ 1)
unfolding revocation_body
revocation_body-ok faults id user username ip now db after h = ground arith

-- What an authentication goes through.
pub authentication_body-ok :
    (faults : Faults) (id : Text) (now : ℕ) (new : AuthenticationUpdate)
    (session : SelfServiceSession) (ip : Text) (db after : Database)
    → authentication_body faults id now new session ip db ≡ ok (tt, after)
    → (ceremony : WebauthnCeremony) × (c : WebauthnCredential) × (u : User) × (find
          (waiting id (codes "authentication") (codes "self-service") now)
          db.webauthn_ceremonies
        ≡ some ceremony)
      × (find (unrevoked new.credential_id) db.webauthn_credentials ≡ some c)
      × (find (user_with c.user_id) db.users ≡ some u)
      × (matches ceremony.user_id c u.username new session ≡ true)
      × (any (λ (r : SelfServiceSession). text_eq r.id session.id) db.self_service_sessions ≡ false)
      × (count (counted_at new c.sign_count) db.webauthn_credentials ≡ 1)
      × (after ≡ record db {
        webauthn_ceremonies = update (unconsumed id) (completed now) db.webauthn_ceremonies;
        webauthn_credentials =
            update (counted_at new c.sign_count) (signed new now) db.webauthn_credentials;
        self_service_sessions = opened session u.username now ∷ db.self_service_sessions;
        audit_log = passkey_entry passkey_login u.username ip ∷ db.audit_log;
      })
unfolding authentication_body insert_session complete_ceremony
authentication_body-ok faults id now new session ip db after h = ground arith
