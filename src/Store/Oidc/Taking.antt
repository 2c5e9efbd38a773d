-- ===== src/Store/Oidc/Taking.antt =====
-- What it is to take an authorization code, and what the operations on codes do with their rows.
use stumpfworks_identity.Store.Schema.{OidcCode, Database, exec, validate_audit_ip}
use stumpfworks_identity.Base.{
  ℕ, zero, suc, ◌+◌, ◌≤◌, ◌≡◌, refl, sym, ap, subst, ◌∙◌, ◌≢◌, inl, inr, Bool, false, ◌||◌, some,
  List, [], ◌∷◌, arith, Text, codes, length, find, filter, count, update, Result-cases,
  count-update_none, count-update-le, leb, ◌==◌, Bool-cases, Error, no_rows, Result, ok, err,
  >>=-eq-ok, Faults, finish, transaction,
}
use stumpfworks_identity.Store.Oidc.{
  Externals, username_of, drop_expired, set_codes, set_sessions, code_with, create_body, audited,
  exchangeable, unconsumed, consume, take_code, denial_body, consume_body,
}
use stumpfworks_identity.Store.Oidc.Sessions.{
  NewSession, insert_session, session_body, consume_oidc_code_with_session_audit,
}

-- No row with the hash is left to be taken.
abbrev pub Spent : Text → Database → Type 0
Spent hash db = count (unconsumed hash) db.oidc_codes ≡ 0

-- What a transaction keeps if its body keeps it.
pub finish-keeps {ℓ} :
    {A : Type ℓ} (P : Database → Type 0) (faults : Faults) (db : Database)
    (m : Result (A × Database))
    → ((a : A) (after : Database) → m ≡ ok (a, after) → P after)
    → P db
    → P (finish faults db m).0
finish-keeps P faults db (err e) keeps h = h
finish-keeps P faults db (ok (a, after)) keeps h = elim (Bool-cases (faults 1)) [
  | inl f ↦ rw f h
  | inr f ↦ rw f (keeps a after refl)
]

pub transaction-keeps {ℓ} :
    {A : Type ℓ} (P : Database → Type 0) (faults : Faults) (db : Database)
    (body : Database → Result (A × Database))
    → ((a : A) (after : Database) → body db ≡ ok (a, after) → P after)
    → P db
    → P (transaction faults db body).0
transaction-keeps P faults db body keeps h = elim (Bool-cases (faults 0)) [
  | inl f ↦ rw (f, transaction) h
  | inr f ↦ rw (f, transaction) (finish-keeps P faults db (body db) keeps h)
]

pub audited-keeps {ℓ} :
    {A : Type ℓ} (P : Database → Type 0) (x : Externals) (faults : Faults) (ip : Text)
    (db : Database) (body : Database → Result (A × Database))
    → ((a : A) (after : Database) → body db ≡ ok (a, after) → P after)
    → P db
    → P (audited x faults ip db body).0
audited-keeps P x faults ip db body keeps h =
    elim (Result-cases (validate_audit_ip x.parse_ip ip)) [
      | inl (u, w) ↦ rw (w, audited) (transaction-keeps P faults db body keeps h)
      | inr (e, w) ↦ rw (w, audited) h
    ]

pub take_code-ok :
    (faults : Faults) (hash client uri : Text) (now : ℕ) (db : Database) (code : OidcCode)
    (after : Database)
    → take_code faults hash client uri now db ≡ ok (code, after)
    → (find (exchangeable hash client uri now) db.oidc_codes ≡ some code)
      × (count (unconsumed hash) db.oidc_codes ≡ 1)
      × (after ≡ set_codes db (update (unconsumed hash) (consume now) db.oidc_codes))
unfolding take_code
take_code-ok faults hash client uri now db code after h = ground arith

-- Taking a code spends it, and spends no other less.
pub take_code-spends :
    (faults : Faults) (hash client uri : Text) (now : ℕ) (db : Database) (code : OidcCode)
    (after : Database)
    → take_code faults hash client uri now db ≡ ok (code, after)
    → Spent hash after
take_code-spends faults hash client uri now db code after h =
    let (_, _, same) = take_code-ok faults hash client uri now db code after h in
    subst (Spent hash) (sym same) (
      count-update_none (unconsumed hash) (consume now) (unconsumed hash) db.oidc_codes
        (λ c. ground arith))

pub take_code-keeps :
    (other : Text) (faults : Faults) (hash client uri : Text) (now : ℕ) (db : Database)
    (code : OidcCode) (after : Database)
    → Spent other db
    → take_code faults hash client uri now db ≡ ok (code, after)
    → Spent other after
take_code-keeps other faults hash client uri now db code after spent h =
    let (_, _, same) = take_code-ok faults hash client uri now db code after h in
    let le =
      count-update-le (unconsumed hash) (consume now) (unconsumed other) db.oidc_codes
        (λ c. ground arith) in
    subst (Spent other) (sym same) (omega (arith, le, spent))

-- A spent code is not taken.
pub take_code-refuses :
    (faults : Faults) (hash client uri : Text) (now : ℕ) (db : Database) (code : OidcCode)
    (after : Database)
    → Spent hash db
    → take_code faults hash client uri now db ≢ ok (code, after)
take_code-refuses faults hash client uri now db code after spent h =
    let (_, one, _) = take_code-ok faults hash client uri now db code after h in
    omega (arith, one, spent)

pub count-drop_expired :
    (p : OidcCode → Bool) (n clock : ℕ) (codes : List OidcCode)
    → count p (drop_expired n clock codes) ≤ count p codes
unfolding count drop_expired
count-drop_expired p zero clock codes = omega arith
count-drop_expired p (suc n) clock [] = omega arith
count-drop_expired p (suc n) clock (c ∷ codes) =
    ground (arith, count-drop_expired p n clock codes, count-drop_expired p (suc n) clock codes)

-- What the three bodies that take a code have in common.
abbrev pub Taken : Faults → Text → Text → Text → ℕ → Database → Database → Type 0
Taken faults hash client uri now db after =
    (code : OidcCode) × (tx : Database) × (take_code faults hash client uri now db ≡ ok (code, tx))
    × (after.oidc_codes ≡ tx.oidc_codes)

pub denial_body-ok :
    (faults : Faults) (hash client uri : Text) (now : ℕ) (ip reason : Text) (db after : Database)
    → denial_body faults hash client uri now ip reason db ≡ ok (tt, after)
    → Taken faults hash client uri now db after
unfolding denial_body
denial_body-ok faults hash client uri now ip reason db after h =
    let (taken, w, rest) = >>=-eq-ok (take_code faults hash client uri now db) _ _ h in
    (taken.0, taken.1, w, ground arith)

pub consume_body-ok :
    (faults : Faults) (hash client uri : Text) (now : ℕ) (ip : Text) (db after : Database)
    (code : OidcCode)
    → consume_body faults hash client uri now ip db ≡ ok (code, after)
    → Taken faults hash client uri now db after
unfolding consume_body
consume_body-ok faults hash client uri now ip db after code h =
    let (taken, w, rest) = >>=-eq-ok (take_code faults hash client uri now db) _ _ h in
    (taken.0, taken.1, w, ground arith)

pub insert_session-ok :
    (faults : Faults) (new : NewSession) (code : OidcCode) (now : ℕ) (db after : Database)
    → insert_session faults new code now db ≡ ok after
    → after.oidc_codes ≡ db.oidc_codes
unfolding insert_session
insert_session-ok faults new code now db after h = ground arith

pub session_rest :
    (faults : Faults) (hash client uri : Text) (now : ℕ) (new : NewSession) (ip : Text)
    (db after : Database) (code : OidcCode)
    → session_body faults hash client uri now new ip db ≡ ok (code, after)
    → Taken faults hash client uri now db after
unfolding session_body
session_rest faults hash client uri now new ip db after code h =
    let (taken, w, rest) = >>=-eq-ok (take_code faults hash client uri now db) _ _ h in
    let (username, v, rest') = >>=-eq-ok (username_of faults 4 taken.0.user_id taken.1) _ _ rest in
    let (pruned, u, rest'') =
      >>=-eq-ok
        (exec (faults 5) (
          set_sessions taken.1
            (filter (λ row. leb now (row.expires_at + 604800000000000)) taken.1.oidc_sessions)))
        _ _ rest' in
    let (inserted, t, last) = >>=-eq-ok (insert_session faults new taken.0 now pruned) _ _ rest'' in
    (
      taken.0,
      taken.1,
      w,
      ground (arith, insert_session-ok faults new taken.0 now pruned inserted t),
    )

pub create_body-keeps :
    (hash : Text) (faults : Faults) (code : OidcCode) (username ip : Text) (clock : ℕ)
    (db after : Database)
    → code_with hash code ≡ false
    → Spent hash db
    → create_body faults code username ip clock db ≡ ok (tt, after)
    → Spent hash after
unfolding create_body count
create_body-keeps hash faults code username ip clock db after other spent h =
    ground (arith, count-drop_expired (unconsumed hash) 100 clock db.oidc_codes)

pub Taken-keeps :
    (other : Text) (faults : Faults) (hash client uri : Text) (now : ℕ) (db after : Database)
    → Spent other db
    → Taken faults hash client uri now db after
    → Spent other after
Taken-keeps other faults hash client uri now db after spent (code, tx, w, same) =
    ap (count (unconsumed other)) same
    ∙ take_code-keeps other faults hash client uri now db code tx spent w

pub Taken-spends :
    (faults : Faults) (hash client uri : Text) (now : ℕ) (db after : Database)
    → Taken faults hash client uri now db after
    → Spent hash after
Taken-spends faults hash client uri now db after (code, tx, w, same) =
    ap (count (unconsumed hash)) same ∙ take_code-spends faults hash client uri now db code tx w

pub transaction-ok {ℓ} :
    {A : Type ℓ} (faults : Faults) (db : Database) (body : Database → Result (A × Database)) (a : A)
    → (transaction faults db body).1 ≡ ok a
    → (after : Database) × (body db ≡ ok (a, after)) × ((transaction faults db body).0 ≡ after)
transaction-ok faults db body a h = elim (Result-cases (body db)) [
  | inr (e, w) ↦ absurd (ground arith)
  | inl (p, w) ↦ (p.1, ground arith, ground arith)
]

pub audited-open {ℓ} :
    {A : Type ℓ} (x : Externals) (faults : Faults) (ip : Text) (db : Database)
    (body : Database → Result (A × Database))
    → validate_audit_ip x.parse_ip ip ≡ ok tt
    → audited x faults ip db body ≡ transaction faults db body
audited-open x faults ip db body w = rw (w, audited) refl

pub audited-shut {ℓ} :
    {A : Type ℓ} (x : Externals) (faults : Faults) (ip : Text) (db : Database)
    (body : Database → Result (A × Database)) (e : Error)
    → validate_audit_ip x.parse_ip ip ≡ err e
    → audited x faults ip db body ≡ (db, err e)
audited-shut x faults ip db body e w = rw (w, audited) refl

pub audited-ok {ℓ} :
    {A : Type ℓ} (x : Externals) (faults : Faults) (ip : Text) (db : Database)
    (body : Database → Result (A × Database)) (a : A)
    → (audited x faults ip db body).1 ≡ ok a
    → (after : Database) × (body db ≡ ok (a, after)) × ((audited x faults ip db body).0 ≡ after)
audited-ok x faults ip db body a h = elim (Result-cases (validate_audit_ip x.parse_ip ip)) [
  | inr (e, w) ↦
      (let same = audited-shut x faults ip db body e w in
        let bad = ap (λ p. p.1) (sym same) ∙ h in absurd (ground (arith, bad)))
  | inl (u, w) ↦
      (let same = audited-open x faults ip db body w in
        let (after, v, t) = transaction-ok faults db body a (ap (λ p. p.1) (sym same) ∙ h) in
        (after, v, ap (λ p. p.0) same ∙ t))
]

-- What an exchange that succeeds has checked and run.
pub transaction-no_rows {ℓ} :
    {A : Type ℓ} (faults : Faults) (db : Database) (body : Database → Result (A × Database))
    → (transaction faults db body).1 ≡ err no_rows
    → (body db ≡ err no_rows) × ((transaction faults db body).0 ≡ db)
transaction-no_rows faults db body h = elim (Result-cases (body db)) [
  | inr (e, w) ↦ (ground arith, ground arith)
  | inl (p, w) ↦ absurd (ground arith)
]

-- Only the body of an audited operation answers that there are no rows.
pub audited-no_rows {ℓ} :
    {A : Type ℓ} (x : Externals) (faults : Faults) (ip : Text) (db : Database)
    (body : Database → Result (A × Database))
    → (audited x faults ip db body).1 ≡ err no_rows
    → (body db ≡ err no_rows) × ((audited x faults ip db body).0 ≡ db)
unfolding validate_audit_ip
audited-no_rows x faults ip db body h = elim (Bool-cases (length ip == 0 || x.parse_ip ip)) [
  | inr e ↦ absurd (ground (arith, e))
  | inl e ↦
      rw (e, audited, validate_audit_ip)
        (transaction-no_rows faults db body (rw (e, audited, validate_audit_ip) at h))
]

pub session-ok :
    (x : Externals) (faults : Faults) (hash client uri : Text) (now : ℕ) (new : NewSession)
    (ip : Text) (db : Database) (code : OidcCode)
    → (consume_oidc_code_with_session_audit x faults hash client uri now new ip db).1 ≡ ok code
    → (after : Database) × (session_body faults hash client uri now new ip db ≡ ok (code, after))
      × ((consume_oidc_code_with_session_audit x faults hash client uri now new ip db).0 ≡ after)
unfolding consume_oidc_code_with_session_audit
session-ok x faults hash client uri now new ip db code h =
    elim (Bool-cases (
      length new.session_id == 0
      || (length new.access_token_hash == 0 || leb new.expires_at now))) [
        | inl e ↦ absurd (ground arith)
        | inr e ↦
            (let (after, w, same) =
                audited-ok x faults ip db (session_body faults hash client uri now new ip) code
                  (ground arith) in
              (after, w, rw (e, consume_oidc_code_with_session_audit) same))
      ]
