-- ===== src/Store/SelfService.antt =====
-- internal/database/database.go: the sessions of self-service. `clock` is CURRENT_TIMESTAMP.
pub mod Ended
use stumpfworks_identity.Store.Schema.{SelfServiceSession, Database, is_null, query_row, exec}
use stumpfworks_identity.Base.{
  ℕ, Bool, not, ◌&&◌, none, some, List, ◌∷◌, Text, text_eq, find, count, any, update, leb,
  constraint, Result, ok, err, ◌>>=◌, ◌>>◌, refuse, Faults,
}
use stumpfworks_identity.Store.Oidc.{Externals}

-- lower(username)=lower(?)
abbrev pub owned_by : Externals → Text → SelfServiceSession → Bool
owned_by x username s = text_eq (x.lower s.username) (x.lower username)

abbrev pub session_with : Text → SelfServiceSession → Bool
session_with id s = text_eq s.id id

abbrev pub set_self_service : Database → List SelfServiceSession → Database
set_self_service db rows = record db { self_service_sessions = rows }

-- PRIMARY KEY(id)
unfoldable pub insert_session : Bool → SelfServiceSession → Database → Result Database
insert_session fault s db = do
  refuse (any (session_with s.id) db.self_service_sessions) constraint
  exec fault (set_self_service db (s ∷ db.self_service_sessions))

-- A statement outside a transaction.
abbrev pub settle {ℓ} : {A : Type ℓ} → Database → Result (A × Database) → Database × Result A
settle db (err e) = (db, err e)
settle db (ok (a, after)) = (after, ok a)

unfoldable pub create_self_service_session :
    Faults → Text → Text → ℕ → ℕ → Database → Database × Result (Unit {0})
create_self_service_session faults id username expires clock db = settle db (do
  after ←
      insert_session (faults 0)
        (record {
          id = id;
          username = username;
          created_at = clock;
          expires_at = expires;
          revoked_at = none;
        })
        db
  ok (tt, after))

abbrev pub is_open : ℕ → SelfServiceSession → Bool
is_open now s = is_null s.revoked_at && leb now s.expires_at

unfoldable pub is_active : Externals → Text → Text → ℕ → SelfServiceSession → Bool
is_active x id username now s = session_with id s && (owned_by x username s && is_open now s)

unfoldable pub active_self_service_session :
    Externals → Faults → Text → Text → ℕ → Database → Result SelfServiceSession
active_self_service_session x faults id username now db =
    query_row (faults 0) (find (is_active x id username now) db.self_service_sessions)

abbrev pub ended : ℕ → SelfServiceSession → SelfServiceSession
ended clock s = record s { revoked_at = some clock }

-- lower(username)=lower(?) AND id<>? AND revoked_at IS NULL AND expires_at>=CURRENT_TIMESTAMP
unfoldable pub is_other : Externals → Text → Text → ℕ → SelfServiceSession → Bool
is_other x username current clock s =
    owned_by x username s && (not (session_with current s) && is_open clock s)

unfoldable pub revoke_other_self_service_sessions :
    Externals → Faults → Text → Text → ℕ → Database → Database × Result ℕ
revoke_other_self_service_sessions x faults username current clock db =
    let other = is_other x username current clock in
    settle db (do
      after ←
          exec (faults 0)
            (set_self_service db (update other (ended clock) db.self_service_sessions))
      ok (count other db.self_service_sessions, after))

unfoldable pub revoke_self_service_session :
    Externals → Faults → Text → Text → ℕ → Database → Database × Result (Unit {0})
revoke_self_service_session x faults id username clock db = settle db (do
  after ← exec (faults 0) (
      set_self_service db (
        update (λ s. session_with id s && owned_by x username s) (ended clock)
          db.self_service_sessions))
  ok (tt, after))
