-- ===== src/Store/Oidc/Revocation.antt =====
-- Sessions of access tokens: the one that an exchange opens, and those that a revocation ends.
use stumpfworks_identity.Store.Schema.{Event, OidcCode, OidcSession, Database, exec}
use stumpfworks_identity.Base.{
  ℕ, ◌+◌, ◌≤◌, ◌<◌, ◌≡◌, sym, ap, subst, ◌∙◌, inl, inr, Bool, true, false, ◌&&◌, none, some, List,
  [], ◌∷◌, arith, Text, text_eq_refl, text_eq, All, find, filter, count, any, update, All-find,
  find_sound, leb, if◌then◌else◌, Bool-cases, Result-cases, Result, ok, err, >>=-eq-ok, Faults,
}
use stumpfworks_identity.Store.Oidc.{
  Externals, username_of, references, set_sessions, exchangeable, take_code,
}
use stumpfworks_identity.Store.Oidc.Taking.{session-ok, audited-ok, take_code-ok}
use stumpfworks_identity.Store.Oidc.Sessions.{
  NewSession, insert_session, session_body, consume_oidc_code_with_session_audit, is_live,
  oidc_session_by_token_hash, revoke, Group, belongs, open_in, bulk_body, revoke_bulk,
}

-- What every row has after an update, whatever it was before.
All-of-update {ℓ κ} :
    {A : Type ℓ} (P : A → Type κ) (p : A → Bool) (f : A → A) (xs : List A)
    → ((x : A) → P (if p x then f x else x))
    → All P (update p f xs)
unfolding update
All-of-update P p f [] h = tt
All-of-update P p f (x ∷ xs) h = (h x, All-of-update P p f xs h)

bulk_body-ok :
    (x : Externals) (faults : Faults) (group : Group) (event : Event) (username client : Text)
    (now clock : ℕ) (ip reason : Text) (db after : Database) (n : ℕ)
    → bulk_body x faults group event username client now clock ip reason db ≡ ok (n, after)
    → (after.oidc_sessions ≡ update (open_in group clock) (revoke now) db.oidc_sessions)
      × (n ≡ count (open_in group clock) db.oidc_sessions)
      × (1 ≤ n)
unfolding bulk_body
bulk_body-ok x faults group event username client now clock ip reason db after n h = ground arith

-- A live session after a revocation is none of the group's.
unfoldable Spared : Group → Text → Text → ℕ → Database → OidcSession → Type 0
Spared group token client later db row =
    is_live token client later db row ≡ true → belongs group row ≡ false

Spared-revoke :
    (group : Group) (token client : Text) (now clock later : ℕ) (db : Database) (row : OidcSession)
    → clock ≤ later
    → Spared group token client later db (if open_in group clock row then revoke now row else row)
unfolding Spared is_live
Spared-revoke group token client now clock later db row le =
    elim (Bool-cases (open_in group clock row)) [
      | inl e ↦ rw e (λ h. absurd (ground arith))
      | inr e ↦ rw e (λ h. ground arith)
    ]

-- A lookup that finds a session of the group.
abbrev pub finds : Group → Result OidcSession → Bool
finds group (ok row) = belongs group row
finds group (err e) = false

Spared-finds :
    (reading : Faults) (group : Group) (token client : Text) (later : ℕ) (after : Database)
    → All (Spared group token client later after) after.oidc_sessions
    → finds group (oidc_session_by_token_hash reading token client later after) ≡ false
unfolding oidc_session_by_token_hash Spared
Spared-finds reading group token client later after kept =
    elim (Result-cases (oidc_session_by_token_hash reading token client later after)) [
      | inr (e, w) ↦ ap (finds group) w
      | inl (row, w) ↦
          let found : find (is_live token client later after) after.oidc_sessions ≡ some row =
            ground arith in
          let spared =
            All-find (Spared group token client later after) (is_live token client later after)
              after.oidc_sessions row found kept in
          ap (finds group) w
          ∙ spared (find_sound (is_live token client later after) after.oidc_sessions row found)
    ]

-- After a revocation in bulk that succeeds, the count that is returned is that of the sessions of
-- the group that were open, at least one; and no lookup by token, of any client, at that instant or
-- later, finds a session of the group: none of the user or the client, or none at all if all were
-- revoked.
pub revoke_bulk-cuts_off :
    (x : Externals) (faults reading : Faults) (group : Group) (event : Event) (username name : Text)
    (now clock later : ℕ) (ip reason token client : Text) (db : Database) (n : ℕ)
    → clock ≤ later
    → (revoke_bulk x faults group event username name now clock ip reason db).1 ≡ ok n
    → (n ≡ count (open_in group clock) db.oidc_sessions)
      × (1 ≤ n)
      × (finds group (
            oidc_session_by_token_hash reading token client later
              (revoke_bulk x faults group event username name now clock ip reason db).0)
          ≡ false)
unfolding revoke_bulk
revoke_bulk-cuts_off x faults reading group event username name now clock later ip reason token
      client db n le h =
    let after = (revoke_bulk x faults group event username name now clock ip reason db).0 in
    let (done, w, same) =
      audited-ok x faults ip db (bulk_body x faults group event username name now clock ip reason) n
        h in
    let (rows, counted, some_row) =
      bulk_body-ok x faults group event username name now clock ip reason db done n w in
    let kept =
      All-of-update (Spared group token client later after) (open_in group clock) (revoke now)
        db.oidc_sessions (λ r. Spared-revoke group token client now clock later after r le) in
    (
      counted,
      some_row,
      Spared-finds reading group token client later after (
          subst (All (Spared group token client later after))
            (sym (ap (λ (d : Database). d.oidc_sessions) same ∙ rows)) kept),
    )

-- The session that an exchange of the code opens.
unfoldable pub opened : NewSession → OidcCode → ℕ → OidcSession
opened new code now = record {
  session_id = new.session_id;
  access_token_hash = new.access_token_hash;
  client_id = code.client_id;
  user_id = code.user_id;
  scope = code.scope;
  issued_at = now;
  expires_at = new.expires_at;
  revoked_at = none;
}

insert_session-opened :
    (faults : Faults) (new : NewSession) (code : OidcCode) (now : ℕ) (db after : Database)
    → insert_session faults new code now db ≡ ok after
    → (after ≡ set_sessions db (opened new code now ∷ db.oidc_sessions))
      × (references code.client_id code.user_id db ≡ true)
unfolding insert_session opened
insert_session-opened faults new code now db after h = ground arith

-- What an exchange leaves of the tables that the lookup of a token reads.
session_body-opened :
    (faults : Faults) (hash client uri : Text) (now : ℕ) (new : NewSession) (ip : Text)
    (db after : Database) (code : OidcCode)
    → session_body faults hash client uri now new ip db ≡ ok (code, after)
    → (rest : List OidcSession) × (after.oidc_sessions ≡ opened new code now ∷ rest)
      × (after.users ≡ db.users)
      × (after.oidc_clients ≡ db.oidc_clients)
      × (references code.client_id code.user_id db ≡ true)
      × (find (exchangeable hash client uri now) db.oidc_codes ≡ some code)
unfolding session_body references
session_body-opened faults hash client uri now new ip db after code h =
    let (taken, w, rest) = >>=-eq-ok (take_code faults hash client uri now db) _ _ h in
    let (username, v, rest') = >>=-eq-ok (username_of faults 4 taken.0.user_id taken.1) _ _ rest in
    let (pruned, u, rest'') =
      >>=-eq-ok
        (exec (faults 5) (
          set_sessions taken.1
            (filter (λ row. leb now (row.expires_at + 604800000000000)) taken.1.oidc_sessions)))
        _ _ rest' in
    let (inserted, t, last) = >>=-eq-ok (insert_session faults new taken.0 now pruned) _ _ rest'' in
    let (found, _, same) = take_code-ok faults hash client uri now db taken.0 taken.1 w in
    let (left, linked) = insert_session-opened faults new taken.0 now pruned inserted t in
    let code_is : taken.0 ≡ code = ground arith in
    (
      pruned.oidc_sessions,
      ground (arith, left, code_is),
      ground (arith, left, same),
      ground (arith, left, same),
      ground (arith, linked, same, code_is),
      found ∙ ap (λ c. some c) code_is,
    )

-- An exchange returns the code as it is stored under its hash for that client and redirect address,
-- neither taken nor expired; and while the client is enabled, the token is found until it expires,
-- with the user and the scope of the code.
pub session_opened :
    (x : Externals) (faults working : Faults) (hash client uri : Text) (now later : ℕ)
    (new : NewSession) (ip : Text) (db : Database) (code : OidcCode)
    → (consume_oidc_code_with_session_audit x faults hash client uri now new ip db).1 ≡ ok code
    → working 0 ≡ false
    → later < new.expires_at
    → any (λ c. text_eq c.client_id code.client_id && c.enabled) db.oidc_clients ≡ true
    → (find (exchangeable hash client uri now) db.oidc_codes ≡ some code)
      × (exchangeable hash client uri now code ≡ true)
      × (oidc_session_by_token_hash working new.access_token_hash code.client_id later
            (consume_oidc_code_with_session_audit x faults hash client uri now new ip db).0
          ≡ ok (opened new code now))
unfolding oidc_session_by_token_hash is_live opened references find
session_opened x faults working hash client uri now later new ip db code h w lt enabled =
    let (after, body, same) = session-ok x faults hash client uri now new ip db code h in
    let (rest, rows, users, clients, linked, was) =
      session_body-opened faults hash client uri now new ip db after code body in
    (
      was,
      find_sound (exchangeable hash client uri now) db.oidc_codes code was,
      subst
          (λ d.
            oidc_session_by_token_hash working new.access_token_hash code.client_id later d
            ≡ ok (opened new code now))
          (sym same)
          (rw (oidc_session_by_token_hash, rows, users, clients)
            (rw (text_eq_refl new.access_token_hash, text_eq_refl code.client_id) (ground arith))),
    )
