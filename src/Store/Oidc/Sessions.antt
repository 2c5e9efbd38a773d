-- ===== src/Store/Oidc/Sessions.antt =====
-- internal/database/oidc_sessions.go: the sessions of access tokens.
use stumpfworks_identity.Store.Schema.{
  Event, User, OidcCode, OidcSession, Database, oidc_token_issued, oidc_user_sessions_revoked,
  oidc_client_sessions_revoked, oidc_all_sessions_revoked, oidc_session_revoked, insert_audit,
  is_null, query_row, exec,
}
use stumpfworks_identity.Base.{
  ℕ, ◌+◌, Bool, true, false, ◌&&◌, ◌||◌, none, some, [], ◌∷◌, ◌++◌, Text, codes, text_eq, length,
  find, filter, count, any, update, ltb, leb, ◌==◌, if◌then◌else◌, no_rows, constraint, invalid,
  Result, ok, err, ◌>>=◌, ◌>>◌, require, refuse, Faults,
}
use stumpfworks_identity.Store.Oidc.{
  Externals, oidc_entry, username_of, references, set_sessions, audited, take_code,
}

-- The arguments of a new session that the statement uses; client, user and scope are the code's.
pub record NewSession : Type 0 where
  pub session_id : Text
  pub access_token_hash : Text
  pub expires_at : ℕ

-- PRIMARY KEY(session_id), UNIQUE(access_token_hash)
abbrev pub session_clashes : NewSession → OidcSession → Bool
session_clashes new row =
    text_eq row.session_id new.session_id || text_eq row.access_token_hash new.access_token_hash

abbrev pub week : ℕ
week = 604800000000000

unfoldable pub insert_session : Faults → NewSession → OidcCode → ℕ → Database → Result Database
insert_session faults new code now db = do
  refuse (any (session_clashes new) db.oidc_sessions) constraint
  require (references code.client_id code.user_id db) constraint
  exec (faults 6) (
      set_sessions db (
        record {
          session_id = new.session_id;
          access_token_hash = new.access_token_hash;
          client_id = code.client_id;
          user_id = code.user_id;
          scope = code.scope;
          issued_at = now;
          expires_at = new.expires_at;
          revoked_at = none;
        }
        ∷ db.oidc_sessions))

-- `expires_at < now - 7 days` is written without the subtraction.
unfoldable pub session_body :
    Faults → Text → Text → Text → ℕ → NewSession → Text → Database → Result (OidcCode × Database)
session_body faults hash client uri now new ip db = do
  taken ← take_code faults hash client uri now db
  username ← username_of faults 4 taken.0.user_id taken.1
  pruned ←
      exec (faults 5) (
        set_sessions taken.1
          (filter (λ row. leb now (row.expires_at + week)) taken.1.oidc_sessions))
  inserted ← insert_session faults new taken.0 now pruned
  done ←
      exec (faults 7)
        (insert_audit (oidc_entry oidc_token_issued username client true ip []) inserted)
  ok (taken.0, done)

unfoldable pub consume_oidc_code_with_session_audit :
    Externals
    → Faults
    → Text
    → Text
    → Text
    → ℕ
    → NewSession
    → Text
    → Database
    → Database × Result OidcCode
consume_oidc_code_with_session_audit x faults hash client uri now new ip db =
    if length new.session_id == 0 || (length new.access_token_hash == 0 || leb new.expires_at now)
    then (db, err invalid)
    else audited x faults ip db (session_body faults hash client uri now new ip)

-- The row that the query of OIDCSessionByTokenHash selects: the joined user exists and the client
-- is enabled.
unfoldable pub is_live : Text → Text → ℕ → Database → OidcSession → Bool
is_live token client now db row =
    text_eq row.access_token_hash token
    && (text_eq row.client_id client
        && (is_null row.revoked_at
            && (ltb now row.expires_at
                && (any (λ (u : User). u.id == row.user_id) db.users
                    && any (λ c. text_eq c.client_id row.client_id && c.enabled) db.oidc_clients))))

unfoldable pub oidc_session_by_token_hash : Faults → Text → Text → ℕ → Database → Result OidcSession
oidc_session_by_token_hash faults token client now db =
    query_row (faults 0) (find (is_live token client now db) db.oidc_sessions)

-- `session_id=?`, or `access_token_hash=? AND client_id=?`
pub data Target : Type 0 where
  by_session : Text → Target
  by_token : Text → Text → Target

abbrev pub targets : Target → OidcSession → Bool
targets (by_session id) row = text_eq row.session_id id
targets (by_token token client) row =
    text_eq row.access_token_hash token && text_eq row.client_id client

abbrev pub unrevoked : Target → OidcSession → Bool
unrevoked target row = targets target row && is_null row.revoked_at

abbrev pub revoke : ℕ → OidcSession → OidcSession
revoke now row = record row { revoked_at = some now }

unfoldable pub revoke_body :
    Faults → Target → ℕ → Text → Text → Database → Result (Unit {0} × Database)
revoke_body faults target now ip reason db = do
  row ← query_row (faults 2) (find (unrevoked target) db.oidc_sessions)
  username ← username_of (λ _. false) 0 row.user_id db
  updated ←
      exec (faults 3) (set_sessions db (update (unrevoked target) (revoke now) db.oidc_sessions))
  require (count (unrevoked target) db.oidc_sessions == 1) no_rows
  done ←
      exec (faults 4) (
        insert_audit (oidc_entry oidc_session_revoked username row.client_id true ip reason)
          updated)
  ok (tt, done)

unfoldable pub revoke_oidc_session :
    Externals → Faults → Target → ℕ → Text → Text → Database → Database × Result (Unit {0})
revoke_oidc_session x faults target now ip reason db =
    audited x faults ip db (revoke_body faults target now ip reason)

unfoldable pub revoke_oidc_session_with_audit :
    Externals → Faults → Text → ℕ → Text → Text → Database → Database × Result (Unit {0})
revoke_oidc_session_with_audit x faults id now ip reason db =
    revoke_oidc_session x faults (by_session id) now ip reason db

unfoldable pub revoke_oidc_session_by_token_hash_with_audit :
    Externals → Faults → Text → Text → ℕ → Text → Database → Database × Result (Unit {0})
revoke_oidc_session_by_token_hash_with_audit x faults token client now ip db =
    revoke_oidc_session x faults (by_token token client) now ip (codes "client_revocation") db

-- The three predicates of the revocations in bulk.
pub data Group : Type 0 where
  of_user : ℕ → Group
  of_client : Text → Group
  everyone : Group

abbrev pub belongs : Group → OidcSession → Bool
belongs (of_user id) row = row.user_id == id
belongs (of_client client) row = text_eq row.client_id client
belongs everyone row = true

-- `clock` is CURRENT_TIMESTAMP and `now` time.Now().
abbrev pub open_in : Group → ℕ → OidcSession → Bool
open_in group clock row = belongs group row && (is_null row.revoked_at && ltb clock row.expires_at)

unfoldable pub bulk_body :
    Externals
    → Faults
    → Group
    → Event
    → Text
    → Text
    → ℕ
    → ℕ
    → Text
    → Text
    → Database
    → Result (ℕ × Database)
bulk_body x faults group event username client now clock ip reason db = do
  updated ←
      exec (faults 2) (set_sessions db (update (open_in group clock) (revoke now) db.oidc_sessions))
  let changed = count (open_in group clock) db.oidc_sessions
  refuse (changed == 0) no_rows
  done ← exec (faults 3) (
      insert_audit
        (oidc_entry event username client true ip
          (reason ++ codes ",count=" ++ x.format_count changed))
        updated)
  ok (changed, done)

unfoldable pub revoke_bulk :
    Externals
    → Faults
    → Group
    → Event
    → Text
    → Text
    → ℕ
    → ℕ
    → Text
    → Text
    → Database
    → Database × Result ℕ
revoke_bulk x faults group event username client now clock ip reason db =
    audited x faults ip db (bulk_body x faults group event username client now clock ip reason)

abbrev pub named : Externals → Text → User → Bool
named x username u = text_eq (x.lower u.username) (x.lower username)

unfoldable pub revoke_oidc_sessions_by_user_with_audit :
    Externals → Faults → Text → ℕ → ℕ → Text → Database → Database × Result ℕ
revoke_oidc_sessions_by_user_with_audit x faults username now clock ip db =
    elim (query_row (faults 4) (find (named x username) db.users)) [
      | err e ↦ (db, err e)
      | ok u ↦ elim (find (named x u.username) db.users) [
        | none ↦ (db, err no_rows)
        | some v ↦
            revoke_bulk x faults (of_user v.id) oidc_user_sessions_revoked u.username [] now clock
              ip (codes "admin_user_revocation") db
      ]
    ]

unfoldable pub revoke_oidc_sessions_by_client_with_audit :
    Externals → Faults → Text → ℕ → ℕ → Text → Database → Database × Result ℕ
revoke_oidc_sessions_by_client_with_audit x faults client now clock ip db =
    revoke_bulk x faults (of_client client) oidc_client_sessions_revoked [] client now clock ip
      (codes "admin_client_revocation") db

unfoldable pub revoke_all_oidc_sessions_with_audit :
    Externals → Faults → ℕ → ℕ → Text → Database → Database × Result ℕ
revoke_all_oidc_sessions_with_audit x faults now clock ip db =
    revoke_bulk x faults everyone oidc_all_sessions_revoked [] [] now clock ip
      (codes "admin_global_revocation") db
