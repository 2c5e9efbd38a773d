-- ===== src/Store/Webauthn/Passkeys.antt =====
-- internal/database/webauthn.go: registration, revocation and authentication of passkeys.
use stumpfworks_identity.Store.Schema.{
  Event, AuditEntry, User, SelfServiceSession, WebauthnUser, WebauthnCredential, Database,
  passkey_registered, passkey_login, passkey_revoked, insert_audit, is_null, query_row, exec,
}
use stumpfworks_identity.Base.{
  ℕ, Bool, true, ◌&&◌, ◌||◌, Option, none, some, [], ◌∷◌, Text, codes, text_eq, length, find, count,
  any, update, ltb, ◌==◌, if◌then◌else◌, no_rows, constraint, invalid, unavailable, Result, ok, err,
  ◌>>=◌, ◌>>◌, require, refuse, or_fail, Faults,
}
use stumpfworks_identity.Store.Oidc.{Externals, oidc_entry, audited}
use stumpfworks_identity.Store.SelfService.{insert_session}
use stumpfworks_identity.Store.Webauthn.Validation.{
  length_within, valid_webauthn_credential, is_audience, AuthenticationUpdate,
  valid_webauthn_authentication, valid_webauthn_sign_count,
}
use stumpfworks_identity.Store.Webauthn.{user_with, set_credentials, waiting, complete_ceremony}

abbrev pub passkey_entry : Event → Text → Text → AuditEntry
passkey_entry event username ip = oidc_entry event username [] true ip []

abbrev pub credential_with : Text → WebauthnCredential → Bool
credential_with id c = text_eq c.credential_id id

-- PRIMARY KEY(credential_id), UNIQUE(management_id)
abbrev pub credential_clashes : WebauthnCredential → WebauthnCredential → Bool
credential_clashes new c =
    credential_with new.credential_id c || text_eq c.management_id new.management_id

-- The reference is to webauthn_users(user_id).
unfoldable pub insert_credential : Bool → WebauthnCredential → Database → Result Database
insert_credential fault new db = do
  refuse (any (credential_clashes new) db.webauthn_credentials) constraint
  require (any (λ (w : WebauthnUser). w.user_id == new.user_id) db.webauthn_users) constraint
  exec fault (set_credentials db (new ∷ db.webauthn_credentials))

-- The user of a ceremony: `JOIN users u ON u.id=c.user_id`.
abbrev pub joined_user : Option ℕ → Database → Result User
joined_user none db = err no_rows
joined_user (some user) db = or_fail (find (user_with user) db.users) no_rows

unfoldable pub registration_body :
    Faults
    → Text
    → Text
    → ℕ
    → WebauthnCredential
    → Text
    → Text
    → Database
    → Result (Unit {0} × Database)
registration_body faults id audience now new username ip db = do
  c ←
      query_row (faults 2)
        (find (waiting id (codes "registration") audience now) db.webauthn_ceremonies)
  u ← joined_user c.user_id db
  require ((u.id == new.user_id) && text_eq u.username username) no_rows
  inserted ← insert_credential (faults 3) new db
  recorded ← exec (faults 4) (insert_audit (passkey_entry passkey_registered username ip) inserted)
  done ← complete_ceremony (faults 5) id now recorded
  ok (tt, done)

-- A missing management identifier is `random`, what newWebAuthnManagementID gives.
unfoldable pub managed : Option Text → WebauthnCredential → Result WebauthnCredential
managed random c =
    if length c.management_id == 0
    then elim random [ none ↦ err unavailable | some id ↦ ok (record c { management_id = id }) ]
    else ok c

unfoldable pub register_managed :
    Externals
    → Faults
    → Text
    → Text
    → ℕ
    → WebauthnCredential
    → Text
    → Text
    → Database
    → Database × Result (Unit {0})
register_managed x faults id audience now c username ip db =
    if length_within 1 128 id
      && (is_audience audience && (ltb 0 now && valid_webauthn_credential x c))
    then audited x faults ip db
        (registration_body faults id audience now (record c { created_at = now }) username ip)
    else (db, err invalid)

unfoldable pub complete_webauthn_registration :
    Externals
    → Faults
    → Option Text
    → Text
    → Text
    → ℕ
    → WebauthnCredential
    → Text
    → Text
    → Database
    → Database × Result (Unit {0})
complete_webauthn_registration x faults random id audience now c username ip db =
    elim (managed random c) [
      | err e ↦ (db, err e)
      | ok new ↦ register_managed x faults id audience now new username ip db
    ]

-- management_id=? AND user_id=? AND revoked_at IS NULL
unfoldable pub revocable : Text → ℕ → WebauthnCredential → Bool
revocable id user c = text_eq c.management_id id && ((c.user_id == user) && is_null c.revoked_at)

abbrev pub withdrawn : ℕ → WebauthnCredential → WebauthnCredential
withdrawn now c = record c { revoked_at = some now }

unfoldable pub revocation_body :
    Faults → Text → ℕ → Text → Text → ℕ → Database → Result (Unit {0} × Database)
revocation_body faults id user username ip now db = do
  c ← query_row (faults 2) (find (revocable id user) db.webauthn_credentials)
  u ← or_fail (find (user_with c.user_id) db.users) no_rows
  require (text_eq u.username username) no_rows
  updated ←
      exec (faults 3)
        (set_credentials db (update (revocable id user) (withdrawn now) db.webauthn_credentials))
  require (count (revocable id user) db.webauthn_credentials == 1) no_rows
  done ← exec (faults 4) (insert_audit (passkey_entry passkey_revoked username ip) updated)
  ok (tt, done)

unfoldable pub revoke_webauthn_credential_with_audit :
    Externals → Faults → Text → ℕ → Text → Text → ℕ → Database → Database × Result (Unit {0})
revoke_webauthn_credential_with_audit x faults id user username ip now db =
    if length_within 16 128 id && (ltb 0 user && (length_within 1 256 username && ltb 0 now))
    then audited x faults ip db (revocation_body faults id user username ip now)
    else (db, err invalid)

abbrev pub unrevoked : Text → WebauthnCredential → Bool
unrevoked id c = credential_with id c && is_null c.revoked_at

-- credential_id=? AND user_id=? AND revoked_at IS NULL AND sign_count=?
unfoldable pub counted_at : AuthenticationUpdate → ℕ → WebauthnCredential → Bool
counted_at new previous c =
    unrevoked new.credential_id c && ((c.user_id == new.user_id) && (c.sign_count == previous))

abbrev pub signed : AuthenticationUpdate → ℕ → WebauthnCredential → WebauthnCredential
signed new now c = record c {
  sign_count = new.sign_count;
  backup_state = new.backup_state;
  last_used_at = some now;
}

-- What the ceremony, the passkey and its user must have in common.
unfoldable pub matches :
    Option ℕ → WebauthnCredential → Text → AuthenticationUpdate → SelfServiceSession → Bool
matches invited c username new session =
    (c.user_id == new.user_id)
    && (elim invited [ none ↦ true | some user ↦ user == new.user_id ]
        && (text_eq username session.username
            && valid_webauthn_sign_count c.sign_count new.sign_count))

abbrev pub opened : SelfServiceSession → Text → ℕ → SelfServiceSession
opened session username now = record session {
  username = username;
  created_at = now;
  revoked_at = none;
}

unfoldable pub authentication_body :
    Faults
    → Text
    → ℕ
    → AuthenticationUpdate
    → SelfServiceSession
    → Text
    → Database
    → Result (Unit {0} × Database)
authentication_body faults id now new session ip db = do
  ceremony ←
      query_row (faults 2) (
        find (waiting id (codes "authentication") (codes "self-service") now)
          db.webauthn_ceremonies)
  c ← query_row (faults 3) (find (unrevoked new.credential_id) db.webauthn_credentials)
  u ← or_fail (find (user_with c.user_id) db.users) no_rows
  require (matches ceremony.user_id c u.username new session) no_rows
  updated ← exec (faults 4) (
      set_credentials db
        (update (counted_at new c.sign_count) (signed new now) db.webauthn_credentials))
  require (count (counted_at new c.sign_count) db.webauthn_credentials == 1) no_rows
  inserted ← insert_session (faults 5) (opened session u.username now) updated
  recorded ← exec (faults 6) (insert_audit (passkey_entry passkey_login u.username ip) inserted)
  done ← complete_ceremony (faults 7) id now recorded
  ok (tt, done)

unfoldable pub complete_webauthn_authentication :
    Externals
    → Faults
    → Text
    → ℕ
    → AuthenticationUpdate
    → SelfServiceSession
    → Text
    → Database
    → Database × Result (Unit {0})
complete_webauthn_authentication x faults id now new session ip db =
    if valid_webauthn_authentication id now new session
    then audited x faults ip db (authentication_body faults id now new session ip)
    else (db, err invalid)
