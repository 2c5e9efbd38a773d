-- ===== src/Store/Oidc.antt =====
-- internal/database/oidc_audit.go and internal/database/oidc_sessions.go: authorization codes, which
-- are exchanged once, and the sessions of the access tokens they give.
pub mod Taking
pub mod Replay
pub mod Sessions
pub mod Revocation
use stumpfworks_identity.Store.Schema.{
  Event, AuditEntry, User, OidcCode, OidcSession, Database, oidc_login, oidc_consent,
  oidc_code_issued, oidc_token_issued, oidc_token_denied, insert_audit, is_null, query_row, exec,
  validate_audit_ip,
}
use stumpfworks_identity.Base.{
  ℕ, zero, suc, Bool, true, false, ◌&&◌, ◌||◌, none, some, List, [], ◌∷◌, Text, codes, text_eq,
  find, count, any, update, ltb, leb, ◌==◌, if◌then◌else◌, no_rows, constraint, invalid, Result, ok,
  err, ◌>>=◌, ◌>>◌, require, refuse, Faults, transaction,
}

-- net.ParseIP, lower (of SQLite and of package strings), strconv's format of a count, and
-- strings.TrimSpace.
pub record Externals : Type 0 where
  pub parse_ip : Text → Bool
  pub lower : Text → Text
  pub format_count : ℕ → Text
  pub trim_space : Text → Text

abbrev pub oidc_entry : Event → Text → Text → Bool → Text → Text → AuditEntry
oidc_entry event username client success ip details = record {
  event = event;
  badge_id = [];
  username = username;
  client_id = client;
  success = success;
  ip_address = ip;
  details = details;
}

-- SELECT username FROM users WHERE id=?
abbrev pub username_of : Faults → ℕ → ℕ → Database → Result Text
username_of faults call id db = do
  u ← query_row (faults call) (find (λ (u : User). u.id == id) db.users)
  ok u.username

-- DELETE … WHERE code_hash IN (SELECT … LIMIT 100): a hundred expired codes at most. SQL
-- leaves open which; here they are the newest.
unfoldable pub drop_expired : ℕ → ℕ → List OidcCode → List OidcCode
drop_expired zero clock codes = codes
drop_expired (suc n) clock [] = []
drop_expired (suc n) clock (c ∷ codes) =
    let dropped = drop_expired n clock codes in
    let kept = drop_expired (suc n) clock codes in
    if ltb c.expires_at clock then dropped else c ∷ kept

-- REFERENCES oidc_clients(client_id), REFERENCES users(id)
unfoldable pub references : Text → ℕ → Database → Bool
references client user db =
    any (λ c. text_eq c.client_id client) db.oidc_clients
    && any (λ (u : User). u.id == user) db.users

abbrev pub set_codes : Database → List OidcCode → Database
set_codes db rows = record db { oidc_codes = rows }

abbrev pub set_sessions : Database → List OidcSession → Database
set_sessions db rows = record db { oidc_sessions = rows }

abbrev pub code_with : Text → OidcCode → Bool
code_with hash c = text_eq c.code_hash hash

unfoldable pub create_body :
    Faults → OidcCode → Text → Text → ℕ → Database → Result (Unit {0} × Database)
create_body faults code username ip clock db = do
  pruned ← exec (faults 2) (set_codes db (drop_expired 100 clock db.oidc_codes))
  refuse (any (code_with code.code_hash) pruned.oidc_codes) constraint
  require (references code.client_id code.user_id pruned) constraint
  inserted ←
      exec (faults 3) (set_codes pruned (record code { consumed_at = none } ∷ pruned.oidc_codes))
  stored ← username_of faults 4 code.user_id inserted
  require (text_eq stored username) invalid
  login ←
      exec (faults 5)
        (insert_audit (oidc_entry oidc_login stored code.client_id true ip []) inserted)
  consent ←
      exec (faults 6)
        (insert_audit (oidc_entry oidc_consent stored code.client_id true ip code.scope) login)
  issued ←
      exec (faults 7)
        (insert_audit (oidc_entry oidc_code_issued stored code.client_id true ip []) consent)
  ok (tt, issued)

-- `validateAuditIP`, and then the transaction.
abbrev pub audited {ℓ} :
    {A : Type ℓ}
    → Externals
    → Faults
    → Text
    → Database
    → (Database → Result (A × Database))
    → Database × Result A
audited x faults ip db body = elim (validate_audit_ip x.parse_ip ip) [
  | err e ↦ (db, err e)
  | ok _ ↦ transaction faults db body
]

unfoldable pub create_oidc_code_with_audit :
    Externals → Faults → OidcCode → Text → Text → ℕ → Database → Database × Result (Unit {0})
create_oidc_code_with_audit x faults code username ip clock db =
    audited x faults ip db (create_body faults code username ip clock)

-- code_hash=? AND client_id=? AND redirect_uri=? AND consumed_at IS NULL AND expires_at>=?
unfoldable pub exchangeable : Text → Text → Text → ℕ → OidcCode → Bool
exchangeable hash client uri now c =
    code_with hash c
    && (text_eq c.client_id client
        && (text_eq c.redirect_uri uri && (is_null c.consumed_at && leb now c.expires_at)))

unfoldable pub oidc_code_for_exchange : Faults → Text → Text → Text → ℕ → Database → Result OidcCode
oidc_code_for_exchange faults hash client uri now db =
    query_row (faults 0) (find (exchangeable hash client uri now) db.oidc_codes)

abbrev pub unconsumed : Text → OidcCode → Bool
unconsumed hash c = code_with hash c && is_null c.consumed_at

abbrev pub consume : ℕ → OidcCode → OidcCode
consume now c = record c { consumed_at = some now }

-- The select and the update that the three ways to consume a code begin with.
unfoldable pub take_code : Faults → Text → Text → Text → ℕ → Database → Result (OidcCode × Database)
take_code faults hash client uri now db = do
  code ← query_row (faults 2) (find (exchangeable hash client uri now) db.oidc_codes)
  taken ← exec (faults 3) (set_codes db (update (unconsumed hash) (consume now) db.oidc_codes))
  require (count (unconsumed hash) db.oidc_codes == 1) no_rows
  ok (code, taken)

unfoldable pub denial_body :
    Faults → Text → Text → Text → ℕ → Text → Text → Database → Result (Unit {0} × Database)
denial_body faults hash client uri now ip reason db = do
  taken ← take_code faults hash client uri now db
  username ← username_of faults 4 taken.0.user_id taken.1
  done ←
      exec (faults 5)
        (insert_audit (oidc_entry oidc_token_denied username client false ip reason) taken.1)
  ok (tt, done)

abbrev pub is_denial_reason : Text → Bool
is_denial_reason reason =
    text_eq reason (codes "pkce_failed")
    || (text_eq reason (codes "user_unavailable") || text_eq reason (codes "user_inactive"))

unfoldable pub consume_oidc_code_denial_with_audit :
    Externals
    → Faults
    → Text
    → Text
    → Text
    → ℕ
    → Text
    → Text
    → Database
    → Database × Result (Unit {0})
consume_oidc_code_denial_with_audit x faults hash client uri now ip reason db =
    if is_denial_reason reason
    then audited x faults ip db (denial_body faults hash client uri now ip reason)
    else (db, err invalid)

unfoldable pub consume_body :
    Faults → Text → Text → Text → ℕ → Text → Database → Result (OidcCode × Database)
consume_body faults hash client uri now ip db = do
  taken ← take_code faults hash client uri now db
  username ← username_of faults 4 taken.0.user_id taken.1
  done ←
      exec (faults 5)
        (insert_audit (oidc_entry oidc_token_issued username client true ip []) taken.1)
  ok (taken.0, done)

unfoldable pub consume_oidc_code_with_audit :
    Externals → Faults → Text → Text → Text → ℕ → Text → Database → Database × Result OidcCode
consume_oidc_code_with_audit x faults hash client uri now ip db =
    audited x faults ip db (consume_body faults hash client uri now ip)
