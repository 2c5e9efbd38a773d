-- ===== src/Store/Webauthn/History.antt =====
-- Histories of ceremonies and passkeys, each operation with its own failures and address.
use stumpfworks_identity.Store.Schema.{
  SelfServiceSession, WebauthnCeremony, WebauthnCredential, Database,
}
use stumpfworks_identity.Base.{
  ℕ, ◌≡◌, inl, inr, true, ◌&&◌, Option, none, some, List, [], ◌∷◌, arith, Text, Result-cases, ltb,
  Bool-cases, Faults,
}
use stumpfworks_identity.Store.Oidc.{Externals}
use stumpfworks_identity.Store.Oidc.Taking.{transaction-keeps, audited-keeps}
use stumpfworks_identity.Store.Webauthn.Validation.{
  length_within, AuthenticationUpdate, valid_webauthn_ceremony, valid_lookup, is_audience,
  valid_webauthn_authentication, valid_webauthn_credential, valid_webauthn_sign_count,
}
use stumpfworks_identity.Store.Webauthn.{
  ensure_body, ensure_webauthn_user_handle, insert_ceremony, dated, consume_body,
  create_webauthn_ceremony, consume_webauthn_ceremony,
}
use stumpfworks_identity.Store.Webauthn.Passkeys.{
  registration_body, managed, register_managed, complete_webauthn_registration, revocation_body,
  revoke_webauthn_credential_with_audit, authentication_body, complete_webauthn_authentication,
  matches,
}
use stumpfworks_identity.Store.Webauthn.Changes.{
  same, begun, finished, unchanged, registered, ended, advanced, Changed, Changed-refl,
  ensure_body-ok, insert_ceremony-ok, consume_body-ok, registration_body-ok, revocation_body-ok,
  authentication_body-ok,
}

pub data Operation : Type 0 where
  ensure : ℕ → Option Text → Operation
  begin : WebauthnCeremony → ℕ → Operation
  consume : Text → Text → Text → ℕ → Operation
  register : Option Text → Text → Text → ℕ → WebauthnCredential → Text → Operation
  withdraw : Text → ℕ → Text → ℕ → Operation
  authenticate : Text → ℕ → AuthenticationUpdate → SelfServiceSession → Operation

pub record Step : Type 0 where
  pub faults : Faults
  pub ip : Text
  pub operation : Operation

unfoldable pub apply : Externals → Faults → Text → Operation → Database → Database
apply x faults ip (ensure user random) db = (ensure_webauthn_user_handle faults user random db).0
apply x faults ip (begin c clock) db = (create_webauthn_ceremony faults c clock db).0
apply x faults ip (consume id kind audience now) db =
    (consume_webauthn_ceremony faults id kind audience now db).0
apply x faults ip (register random id audience now c username) db =
    (complete_webauthn_registration x faults random id audience now c username ip db).0
apply x faults ip (withdraw id user username now) db =
    (revoke_webauthn_credential_with_audit x faults id user username ip now db).0
apply x faults ip (authenticate id now new session) db =
    (complete_webauthn_authentication x faults id now new session ip db).0

unfoldable pub run : Externals → List Step → Database → Database
run x [] db = db
run x (s ∷ steps) db = run x steps (apply x s.faults s.ip s.operation db)

matches-signed :
    (invited : Option ℕ) (c : WebauthnCredential) (username : Text) (new : AuthenticationUpdate)
    (session : SelfServiceSession)
    → matches invited c username new session ≡ true
    → valid_webauthn_sign_count c.sign_count new.sign_count ≡ true
unfolding matches
matches-signed invited c username new session h = ground arith

ensure-Changed :
    (faults : Faults) (user : ℕ) (random : Option Text) (db : Database)
    → Changed db (ensure_webauthn_user_handle faults user random db).0
unfolding ensure_webauthn_user_handle
ensure-Changed faults user none db = elim (Bool-cases (ltb 0 user)) [
  | inr e ↦ rw e (Changed-refl db)
  | inl e ↦ rw e (Changed-refl db)
]
ensure-Changed faults user (some handle) db = elim (Bool-cases (ltb 0 user)) [
  | inr e ↦ rw e (Changed-refl db)
  | inl e ↦ rw e (
      transaction-keeps (Changed db) faults db (ensure_body faults user handle)
        (λ out after h.
          let (ceremonies, passkeys) = ensure_body-ok faults user handle out db after h in
          rw (ceremonies, passkeys) (Changed-refl db))
        (Changed-refl db))
]

begin-Changed :
    (faults : Faults) (c : WebauthnCeremony) (clock : ℕ) (db : Database)
    → Changed db (create_webauthn_ceremony faults c clock db).0
unfolding create_webauthn_ceremony
begin-Changed faults c clock db = elim (Bool-cases (valid_webauthn_ceremony (dated clock c))) [
  | inr e ↦ rw e (Changed-refl db)
  | inl e ↦ elim (Result-cases (insert_ceremony (faults 0) (dated clock c) db)) [
    | inr (_, w) ↦ rw (e, w) (Changed-refl db)
    | inl (after, w) ↦
        let (ceremonies, passkeys, fresh) =
          insert_ceremony-ok (faults 0) (dated clock c) db after w in
        rw (e, w, ceremonies, passkeys)
          (
            begun (record (dated clock c) { consumed_at = none }) db.webauthn_ceremonies fresh,
            unchanged db.webauthn_credentials,
          )
  ]
]

consume-Changed :
    (faults : Faults) (id kind audience : Text) (now : ℕ) (db : Database)
    → Changed db (consume_webauthn_ceremony faults id kind audience now db).0
unfolding consume_webauthn_ceremony
consume-Changed faults id kind audience now db =
    elim (Bool-cases (valid_lookup id kind audience now)) [
      | inr e ↦ rw e (Changed-refl db)
      | inl e ↦ rw e (
          transaction-keeps (Changed db) faults db (consume_body faults id kind audience now)
            (λ c after h.
              let (made, _) = consume_body-ok faults id kind audience now c db after h in
              rw made (finished id now db.webauthn_ceremonies, unchanged db.webauthn_credentials))
            (Changed-refl db))
    ]

managed-Changed :
    (x : Externals) (faults : Faults) (id audience : Text) (now : ℕ) (c : WebauthnCredential)
    (username ip : Text) (db : Database)
    → Changed db (register_managed x faults id audience now c username ip db).0
unfolding register_managed
managed-Changed x faults id audience now c username ip db =
    elim (Bool-cases (
      length_within 1 128 id
      && (is_audience audience && (ltb 0 now && valid_webauthn_credential x c)))) [
        | inr e ↦ rw e (Changed-refl db)
        | inl e ↦
            let new = record c { created_at = now } in
            rw e (
              audited-keeps (Changed db) x faults ip db
                (registration_body faults id audience now new username ip)
                (λ u after h.
                  let (ceremonies, passkeys, fresh) =
                    registration_body-ok faults id audience now new username ip db after h in
                  rw (ceremonies, passkeys)
                    (
                      finished id now db.webauthn_ceremonies,
                      registered new db.webauthn_credentials fresh,
                    ))
                (Changed-refl db))
      ]

register-Changed :
    (x : Externals) (faults : Faults) (random : Option Text) (id audience : Text) (now : ℕ)
    (c : WebauthnCredential) (username ip : Text) (db : Database)
    → Changed db (complete_webauthn_registration x faults random id audience now c username ip db).0
unfolding complete_webauthn_registration
register-Changed x faults random id audience now c username ip db =
    elim (Result-cases (managed random c)) [
      | inr (_, w) ↦ rw (w, complete_webauthn_registration) (Changed-refl db)
      | inl (new, w) ↦
          rw (w, complete_webauthn_registration)
            (managed-Changed x faults id audience now new username ip db)
    ]

withdraw-Changed :
    (x : Externals) (faults : Faults) (id : Text) (user : ℕ) (username ip : Text) (now : ℕ)
    (db : Database)
    → Changed db (revoke_webauthn_credential_with_audit x faults id user username ip now db).0
unfolding revoke_webauthn_credential_with_audit
withdraw-Changed x faults id user username ip now db =
    elim (Bool-cases
      (length_within 16 128 id && (ltb 0 user && (length_within 1 256 username && ltb 0 now)))) [
        | inr e ↦ rw e (Changed-refl db)
        | inl e ↦ rw e (
            audited-keeps (Changed db) x faults ip db
              (revocation_body faults id user username ip now)
              (λ u after h.
                let (ceremonies, passkeys, _) =
                  revocation_body-ok faults id user username ip now db after h in
                rw (ceremonies, passkeys)
                  (same db.webauthn_ceremonies, ended id user now db.webauthn_credentials))
              (Changed-refl db))
      ]

authenticate-Changed :
    (x : Externals) (faults : Faults) (id : Text) (now : ℕ) (new : AuthenticationUpdate)
    (session : SelfServiceSession) (ip : Text) (db : Database)
    → Changed db (complete_webauthn_authentication x faults id now new session ip db).0
unfolding complete_webauthn_authentication
authenticate-Changed x faults id now new session ip db =
    elim (Bool-cases (valid_webauthn_authentication id now new session)) [
      | inr e ↦ rw e (Changed-refl db)
      | inl e ↦ rw e (
          audited-keeps (Changed db) x faults ip db
            (authentication_body faults id now new session ip)
            (λ u after h.
              let (ceremony, c, user, _, _, _, agrees, _, _, made) =
                authentication_body-ok faults id now new session ip db after h in
              rw made (
                finished id now db.webauthn_ceremonies,
                advanced new c.sign_count now db.webauthn_credentials
                    (matches-signed ceremony.user_id c user.username new session agrees),
              ))
            (Changed-refl db))
    ]

pub apply-Changed :
    (x : Externals) (faults : Faults) (ip : Text) (operation : Operation) (db : Database)
    → Changed db (apply x faults ip operation db)
unfolding apply
apply-Changed x faults ip (ensure user random) db = ensure-Changed faults user random db
apply-Changed x faults ip (begin c clock) db = begin-Changed faults c clock db
apply-Changed x faults ip (consume id kind audience now) db =
    consume-Changed faults id kind audience now db
apply-Changed x faults ip (register random id audience now c username) db =
    register-Changed x faults random id audience now c username ip db
apply-Changed x faults ip (withdraw id user username now) db =
    withdraw-Changed x faults id user username ip now db
apply-Changed x faults ip (authenticate id now new session) db =
    authenticate-Changed x faults id now new session ip db

-- What every change of the two tables keeps, a history keeps.
pub run-keeps :
    (P : Database → Type 0)
    → ((db after : Database) → Changed db after → P db → P after)
    → (x : Externals) (steps : List Step) (db : Database) → P db
    → P (run x steps db)
unfolding run
run-keeps P keeps x [] db h = h
run-keeps P keeps x (s ∷ steps) db h =
    run-keeps P keeps x steps (apply x s.faults s.ip s.operation db) (
      keeps db (apply x s.faults s.ip s.operation db) (apply-Changed x s.faults s.ip s.operation db)
        h)
