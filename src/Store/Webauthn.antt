-- ===== src/Store/Webauthn.antt =====
-- internal/database/webauthn.go: the ceremonies of WebAuthn, each completed once, and the passkeys
-- that they register and authenticate.
pub mod Validation
pub mod Passkeys
pub mod Changes
pub mod History
pub mod Spent
pub mod SignedIn
use stumpfworks_identity.Store.Schema.{
  User, WebauthnUser, WebauthnCeremony, WebauthnCredential, Database, is_null, query_row, exec,
}
use stumpfworks_identity.Base.{
  ℕ, Bool, true, not, ◌&&◌, ◌||◌, Option, none, some, List, ◌∷◌, Text, text_eq, find, count, any,
  update, ltb, leb, ◌==◌, if◌then◌else◌, no_rows, constraint, invalid, unavailable, Result, ok, err,
  ◌>>=◌, ◌>>◌, require, or_fail, Faults, transaction,
}
use stumpfworks_identity.Store.Webauthn.Validation.{
  length_within, valid_webauthn_ceremony, valid_lookup,
}

abbrev pub user_with : ℕ → User → Bool
user_with id u = u.id == id

-- PRIMARY KEY(user_id), UNIQUE(user_handle), CHECK(length(user_handle) BETWEEN 32 AND 64)
abbrev pub ignored : ℕ → Text → Database → Bool
ignored user handle db =
    not (length_within 32 64 handle)
    || any (λ (w : WebauthnUser). (w.user_id == user) || text_eq w.user_handle handle)
        db.webauthn_users

-- INSERT OR IGNORE; the reference to users is not among what OR IGNORE passes over.
unfoldable pub insert_handle : Bool → ℕ → Text → Database → Result Database
insert_handle fault user handle db =
    if ignored user handle db
    then exec fault db
    else (require (any (user_with user) db.users) constraint
        >> exec fault (record db {
          webauthn_users = record { user_id = user; user_handle = handle } ∷ db.webauthn_users;
        }))

unfoldable pub ensure_body : Faults → ℕ → Text → Database → Result (Text × Database)
ensure_body faults user handle db = do
  inserted ← insert_handle (faults 2) user handle db
  row ←
      query_row (faults 3) (find (λ (w : WebauthnUser). w.user_id == user) inserted.webauthn_users)
  ok (row.user_handle, inserted)

-- `random` is what rand.Read gives.
unfoldable pub ensure_webauthn_user_handle :
    Faults → ℕ → Option Text → Database → Database × Result Text
ensure_webauthn_user_handle faults user random db =
    if ltb 0 user
    then elim random [
      | none ↦ (db, err unavailable)
      | some handle ↦ transaction faults db (ensure_body faults user handle)
    ]
    else (db, err invalid)

abbrev pub set_ceremonies : Database → List WebauthnCeremony → Database
set_ceremonies db rows = record db { webauthn_ceremonies = rows }

abbrev pub set_credentials : Database → List WebauthnCredential → Database
set_credentials db rows = record db { webauthn_credentials = rows }

abbrev pub ceremony_with : Text → WebauthnCeremony → Bool
ceremony_with id c = text_eq c.id id

-- PRIMARY KEY(id), REFERENCES users(id)
abbrev pub ceremony_allowed : WebauthnCeremony → Database → Bool
ceremony_allowed c db =
    not (any (ceremony_with c.id) db.webauthn_ceremonies)
    && elim c.user_id [ none ↦ true | some user ↦ any (user_with user) db.users ]

unfoldable pub insert_ceremony : Bool → WebauthnCeremony → Database → Result Database
insert_ceremony fault c db = do
  require (ceremony_allowed c db) constraint
  exec fault (set_ceremonies db (record c { consumed_at = none } ∷ db.webauthn_ceremonies))

-- A statement outside a transaction.
abbrev pub settle : Database → Result Database → Database × Result (Unit {0})
settle db (err e) = (db, err e)
settle db (ok after) = (after, ok tt)

-- `clock` is time.Now().
abbrev pub dated : ℕ → WebauthnCeremony → WebauthnCeremony
dated clock c = if c.created_at == 0 then record c { created_at = clock } else c

unfoldable pub create_webauthn_ceremony :
    Faults → WebauthnCeremony → ℕ → Database → Database × Result (Unit {0})
create_webauthn_ceremony faults c clock db =
    if valid_webauthn_ceremony (dated clock c)
    then settle db (insert_ceremony (faults 0) (dated clock c) db)
    else (db, err invalid)

-- id=? AND kind=? AND audience=? AND consumed_at IS NULL AND expires_at>=?
unfoldable pub waiting : Text → Text → Text → ℕ → WebauthnCeremony → Bool
waiting id kind audience now c =
    ceremony_with id c
    && (text_eq c.kind kind
        && (text_eq c.audience audience && (is_null c.consumed_at && leb now c.expires_at)))

unfoldable pub active_webauthn_ceremony :
    Faults → Text → Text → Text → ℕ → Database → Result WebauthnCeremony
active_webauthn_ceremony faults id kind audience now db =
    if valid_lookup id kind audience now
    then query_row (faults 0) (find (waiting id kind audience now) db.webauthn_ceremonies)
    else err no_rows

abbrev pub unconsumed : Text → WebauthnCeremony → Bool
unconsumed id c = ceremony_with id c && is_null c.consumed_at

abbrev pub completed : ℕ → WebauthnCeremony → WebauthnCeremony
completed now c = record c { consumed_at = some now }

-- UPDATE webauthn_ceremonies … WHERE id=? AND consumed_at IS NULL, and the count of rows.
unfoldable pub complete_ceremony : Bool → Text → ℕ → Database → Result Database
complete_ceremony fault id now db = do
  updated ←
      exec fault (set_ceremonies db (update (unconsumed id) (completed now) db.webauthn_ceremonies))
  require (count (unconsumed id) db.webauthn_ceremonies == 1) no_rows
  ok updated

unfoldable pub consume_body :
    Faults → Text → Text → Text → ℕ → Database → Result (WebauthnCeremony × Database)
consume_body faults id kind audience now db = do
  c ← query_row (faults 2) (find (waiting id kind audience now) db.webauthn_ceremonies)
  done ← complete_ceremony (faults 3) id now db
  ok (completed now c, done)

unfoldable pub consume_webauthn_ceremony :
    Faults → Text → Text → Text → ℕ → Database → Database × Result WebauthnCeremony
consume_webauthn_ceremony faults id kind audience now db =
    if valid_lookup id kind audience now
    then transaction faults db (consume_body faults id kind audience now)
    else (db, err no_rows)

unfoldable pub webauthn_user_by_handle : Faults → Text → Database → Result User
webauthn_user_by_handle faults handle db =
    if length_within 32 64 handle
    then (do
      w ←
          query_row (faults 0)
            (find (λ (w : WebauthnUser). text_eq w.user_handle handle) db.webauthn_users)
      or_fail (find (user_with w.user_id) db.users) no_rows)
    else err no_rows
