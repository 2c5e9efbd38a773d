-- ===== src/Provider/Access/Ended.antt =====
-- What introspection says of a token, and that revocation ends it.
use stumpfworks_identity.Store.Schema.{User, OidcSession, Database}
use stumpfworks_identity.Base.{
  ℕ, ◌≤◌, ◌<◌, ◌≡◌, sym, subst, ◌≢◌, inl, inr, Bool, true, ◌&&◌, none, some, ◌++◌, arith, Text,
  codes, text_eq_sound, text_eq, find, count, any, update, Result-cases, find-none_of_stronger,
  count-update_none, find_sound, count_of_find, count_of_stronger-le, find_unique,
  count_of_find-none, find_of_any, ◌==◌, Option-cases, no_rows, driver, constraint, invalid,
  conflict, unavailable, Result, ok, err, Faults,
}
use stumpfworks_identity.Store.Oidc.Taking.{audited-ok, audited-no_rows}
use stumpfworks_identity.Store.Oidc.Sessions as Sessions
use stumpfworks_identity.Store.Oidc.Sessions.{
  oidc_session_by_token_hash, is_live, by_token, targets, unrevoked, revoke_body,
  revoke_oidc_session, revoke_oidc_session_by_token_hash_with_audit,
}
use stumpfworks_identity.Store.Accounts.{numbered}
use stumpfworks_identity.Provider.{
  Externals, State, Clock, Failures, limit_key, authenticate_client, token_hash,
}
use stumpfworks_identity.Provider.Access.{
  AccessRequest, Introspection, AccessResponse, oauth_error, inactive, introspection, look_up,
  for_client, introspect, revocation_answer, end_session,
}
use stumpfworks_identity.Provider.Access as Access

abbrev pub asking_client : Externals → Failures → AccessRequest → State → Text × Bool
asking_client x faults r s = authenticate_client x (faults 0) r.credentials s.database

look_up-active :
    (x : Externals) (faults : Failures) (at : Clock) (r : AccessRequest) (client : Text)
    (db : Database) (i : Introspection)
    → look_up x faults at r client db ≡ Access.active i
    → (row : OidcSession) × (u : User) × (find
          (is_live (token_hash x r.token) client at.exchanged db)
          db.oidc_sessions
        ≡ some row)
      × (find (numbered row.user_id) db.users ≡ some u)
      × (i ≡ introspection row u)
unfolding look_up oidc_session_by_token_hash
look_up-active x faults at r client db i h =
    elim (Result-cases
      (oidc_session_by_token_hash (faults 1) (token_hash x r.token) client at.exchanged db)) [
        | inr (e, w) ↦ absurd (ground (arith, w))
        | inl (row, w) ↦ elim (Option-cases (find (numbered row.user_id) db.users)) [
          | inl v ↦ absurd (ground (arith, w, v))
          | inr (u, v) ↦ (row, u, ground (arith, w), v, ground (arith, w, v))
        ]
      ]

introspect-active :
    (x : Externals) (faults : Failures) (at : Clock) (r : AccessRequest) (s : State)
    (i : Introspection)
    → (introspect x faults at r s).1 ≡ Access.active i
    → ((asking_client x faults r s).1 ≡ true)
      × (look_up x faults at r (asking_client x faults r s).0 s.database ≡ Access.active i)
      × ((introspect x faults at r s).0.database ≡ s.database)
unfolding introspect for_client
introspect-active x faults at r s i h =
    let passed : (limit_key 600 (codes "oidc-client-api:" ++ r.ip) at.attempted s).1 ≡ true =
      ground arith in
    let parsed : r.parses ≡ true = ground arith in
    let known : (asking_client x faults r s).1 ≡ true = ground arith in
    (known, ground (arith, passed, parsed, known), ground (arith, passed, parsed, known))

-- Introspection calls a token active only if the table has a session with the token's hash, of the
-- client that authenticated, and while that client is enabled and the session is neither revoked nor
-- expired; what it says is that session's scope and times and its user's subject, and it changes no
-- table.
pub introspect_active :
    (x : Externals) (faults : Failures) (at : Clock) (r : AccessRequest) (s : State)
    (i : Introspection)
    → (introspect x faults at r s).1 ≡ Access.active i
    → let client = asking_client x faults r s in
      (row : OidcSession) × (u : User) × (client.1 ≡ true)
      × (find
            (is_live (token_hash x r.token) client.0 at.exchanged s.database)
            s.database.oidc_sessions
          ≡ some row)
      × (row.access_token_hash ≡ token_hash x r.token)
      × (row.client_id ≡ client.0)
      × (row.revoked_at ≡ none)
      × (at.exchanged < row.expires_at)
      × (any (λ c. text_eq c.client_id row.client_id && c.enabled) s.database.oidc_clients ≡ true)
      × (find (numbered row.user_id) s.database.users ≡ some u)
      × (i ≡ introspection row u)
      × ((introspect x faults at r s).0.database ≡ s.database)
unfolding is_live
introspect_active x faults at r s i h =
    let client = (asking_client x faults r s).0 in
    let (known, answer, left) = introspect-active x faults at r s i h in
    let (row, u, found, owner, said) = look_up-active x faults at r client s.database i answer in
    let live =
      find_sound (is_live (token_hash x r.token) client at.exchanged s.database)
        s.database.oidc_sessions row found in
    (
      row,
      u,
      known,
      found,
      text_eq_sound row.access_token_hash (token_hash x r.token) (ground (arith, live)),
      text_eq_sound row.client_id client (ground (arith, live)),
      ground (arith, live),
      ground (arith, live),
      ground (arith, live),
      owner,
      said,
      left,
    )

-- The sessions of the client with the token's hash.
abbrev pub held : Text → Text → Database → ℕ
held hash client db = count (targets (by_token hash client)) db.oidc_sessions

-- No session is found by the hash for the client.
abbrev Dead : Text → Text → Database → Type 0
Dead hash client db =
    (now : ℕ) (row : OidcSession) → find (is_live hash client now db) db.oidc_sessions ≢ some row

revoked-Dead :
    (faults : Faults) (hash client : Text) (now : ℕ) (ip reason : Text) (db after : Database)
    → revoke_body faults (by_token hash client) now ip reason db ≡ ok (tt, after)
    → Dead hash client after
unfolding revoke_body is_live
revoked-Dead faults hash client now ip reason db after h time row found =
    let rows : after.oidc_sessions
        ≡ update (unrevoked (by_token hash client)) (Sessions.revoke now) db.oidc_sessions =
      ground arith in
    let ended =
      count-update_none (unrevoked (by_token hash client)) (Sessions.revoke now)
        (unrevoked (by_token hash client)) db.oidc_sessions (λ r. ground arith) in
    let nothing =
      find-none_of_stronger (unrevoked (by_token hash client)) (is_live hash client time after)
        after.oidc_sessions (λ r. ground arith) (rw rows ended) in
    ground (arith, nothing, found)

-- A revocation that finds nothing to end leaves nothing live.
missing-Dead :
    (faults : Faults) (hash client : Text) (now : ℕ) (ip reason : Text) (db : Database)
    → held hash client db ≤ 1
    → revoke_body faults (by_token hash client) now ip reason db ≡ err no_rows
    → Dead hash client db
unfolding revoke_body is_live
missing-Dead faults hash client now ip reason db single h time row found =
    let le =
      count_of_stronger-le (unrevoked (by_token hash client)) (targets (by_token hash client))
        db.oidc_sessions (λ r. ground arith) in
    elim (Option-cases (find (unrevoked (by_token hash client)) db.oidc_sessions)) [
      | inl w ↦
          let absent = count_of_find-none (unrevoked (by_token hash client)) db.oidc_sessions w in
          let nothing =
            find-none_of_stronger (unrevoked (by_token hash client)) (is_live hash client time db)
              db.oidc_sessions (λ r. ground arith) absent in
          ground (arith, nothing, found)
      | inr (first, w) ↦
          let same =
            find_unique (unrevoked (by_token hash client)) (is_live hash client time db)
              db.oidc_sessions first row (λ r. ground arith) (omega (arith, le, single)) w found in
          let one = count_of_find (unrevoked (by_token hash client)) db.oidc_sessions first w in
          let live = find_sound (is_live hash client time db) db.oidc_sessions row found in
          let (u, owner) =
            find_of_any (λ (v : User). v.id == first.user_id) db.users
              (rw same (ground (arith, live))) in
          ground (arith, w, owner, one, le, single)
    ]

abbrev ended_by :
    Externals → Failures → Clock → AccessRequest → Text → Database → Database × Result (Unit {0})
ended_by x faults at r client db =
    revoke_oidc_session_by_token_hash_with_audit x.store (faults 1) (token_hash x r.token) client
      at.exchanged r.ip db

end_session-Dead :
    (x : Externals) (faults : Failures) (at : Clock) (r : AccessRequest) (client : Text)
    (db : Database)
    → held (token_hash x r.token) client db ≤ 1
    → (end_session x faults at r client db).1 ≡ Access.revoked
    → Dead (token_hash x r.token) client (end_session x faults at r client db).0
unfolding end_session revoke_oidc_session_by_token_hash_with_audit revoke_oidc_session
end_session-Dead x faults at r client db single h =
    elim (Result-cases (ended_by x faults at r client db).1) [
      | inl (u, w) ↦
          let (after, body, left) =
            audited-ok x.store (faults 1) r.ip db
              (revoke_body (faults 1) (by_token (token_hash x r.token) client) at.exchanged r.ip
                (codes "client_revocation"))
              tt w in
          rw left (
            revoked-Dead (faults 1) (token_hash x r.token) client at.exchanged r.ip
              (codes "client_revocation") db after body)
      | inr (no_rows, w) ↦
          let (body, left) =
            audited-no_rows x.store (faults 1) r.ip db
              (revoke_body (faults 1) (by_token (token_hash x r.token) client) at.exchanged r.ip
                (codes "client_revocation"))
              w in
          rw left (
            missing-Dead (faults 1) (token_hash x r.token) client at.exchanged r.ip
              (codes "client_revocation") db single body)
      | inr (driver, w) ↦ absurd (ground (arith, w, h))
      | inr (constraint, w) ↦ absurd (ground (arith, w, h))
      | inr (invalid, w) ↦ absurd (ground (arith, w, h))
      | inr (conflict, w) ↦ absurd (ground (arith, w, h))
      | inr (unavailable, w) ↦ absurd (ground (arith, w, h))
    ]

revoke-passed :
    (x : Externals) (faults : Failures) (at : Clock) (r : AccessRequest) (s : State)
    → (Access.revoke x faults at r s).1 ≡ Access.revoked
    → let client = asking_client x faults r s in
      ((end_session x faults at r client.0 s.database).1 ≡ Access.revoked)
      × ((Access.revoke x faults at r s).0.database
          ≡ (end_session x faults at r client.0 s.database).0)
unfolding Access.revoke for_client
revoke-passed x faults at r s h =
    let passed : (limit_key 600 (codes "oidc-client-api:" ++ r.ip) at.attempted s).1 ≡ true =
      ground arith in
    let parsed : r.parses ≡ true = ground arith in
    let known : (asking_client x faults r s).1 ≡ true = ground arith in
    (ground (arith, passed, parsed, known), ground (arith, passed, parsed, known))

-- When the revocation endpoint answers a client with success, be it that the token was revoked or
-- that there was none, introspection never calls that token active for the client afterwards, if
-- one session at most of the client has the token's hash.
pub revoked_inactive :
    (x : Externals) (faults later : Failures) (at at' : Clock) (r r' : AccessRequest) (s : State)
    (i : Introspection)
    → held (token_hash x r.token) (asking_client x faults r s).0 s.database ≤ 1
    → (Access.revoke x faults at r s).1 ≡ Access.revoked
    → r'.token ≡ r.token
    → (asking_client x later r' (Access.revoke x faults at r s).0).0
      ≡ (asking_client x faults r s).0
    → (introspect x later at' r' (Access.revoke x faults at r s).0).1 ≢ Access.active i
revoked_inactive x faults later at at' r r' s i single h same_token same_client k =
    let client = (asking_client x faults r s).0 in
    let after = (Access.revoke x faults at r s).0 in
    let (done, left) = revoke-passed x faults at r s h in
    let dead =
      subst (Dead (token_hash x r.token) client) (sym left)
        (end_session-Dead x faults at r client s.database single done) in
    let (_, answer, _) = introspect-active x later at' r' after i k in
    let (row, _, found, _, _) =
      look_up-active x later at' r' (asking_client x later r' after).0 after.database i answer in
    dead at'.exchanged row (
      subst
        (λ t.
          find (is_live (token_hash x t) client at'.exchanged after.database)
            after.database.oidc_sessions
          ≡ some row)
        same_token
        (subst
          (λ c.
            find (is_live (token_hash x r'.token) c at'.exchanged after.database)
              after.database.oidc_sessions
            ≡ some row)
          same_client found))
