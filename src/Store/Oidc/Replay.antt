-- ===== src/Store/Oidc/Replay.antt =====
-- An authorization code is taken at most once, whatever happens in between.
use stumpfworks_identity.Store.Schema.{OidcCode, Database}
use stumpfworks_identity.Base.{
  ℕ, ◌≡◌, sym, subst, ◌≢◌, inl, inr, false, ◌||◌, List, [], ◌∷◌, arith, Text, length, All, leb,
  ◌==◌, Bool-cases, ok, Faults,
}
use stumpfworks_identity.Store.Oidc.{
  Externals, code_with, create_body, create_oidc_code_with_audit, denial_body, is_denial_reason,
  consume_oidc_code_denial_with_audit, consume_body, consume_oidc_code_with_audit,
}
use stumpfworks_identity.Store.Oidc.Sessions.{
  NewSession, session_body, consume_oidc_code_with_session_audit,
}
use stumpfworks_identity.Store.Oidc.Taking.{
  Spent, Taken, audited-keeps, take_code-refuses, denial_body-ok, consume_body-ok, session_rest,
  create_body-keeps, Taken-keeps, Taken-spends, audited-ok,
}

-- The operations on codes with their arguments.
pub data Operation : Type 0 where
  create : OidcCode → Text → Operation
  deny : Text → Text → Text → Text → Operation
  exchange : Text → Text → Text → Operation
  exchange_session : Text → Text → Text → NewSession → Operation

pub record Step : Type 0 where
  pub faults : Faults
  pub ip : Text
  pub now : ℕ
  pub operation : Operation

unfoldable pub apply : Externals → Faults → Text → ℕ → Operation → Database → Database
apply x faults ip now (create code username) db =
    (create_oidc_code_with_audit x faults code username ip now db).0
apply x faults ip now (deny hash client uri reason) db =
    (consume_oidc_code_denial_with_audit x faults hash client uri now ip reason db).0
apply x faults ip now (exchange hash client uri) db =
    (consume_oidc_code_with_audit x faults hash client uri now ip db).0
apply x faults ip now (exchange_session hash client uri new) db =
    (consume_oidc_code_with_session_audit x faults hash client uri now new ip db).0

unfoldable pub run : Externals → List Step → Database → Database
run x [] db = db
run x (s ∷ steps) db = run x steps (apply x s.faults s.ip s.now s.operation db)

-- An operation that does not create a code with the hash again (the hash of a random code).
unfoldable pub Avoids : Text → Operation → Type 0
Avoids hash (create code username) = code_with hash code ≡ false
Avoids hash operation = Unit

deny-Spent :
    (hash : Text) (x : Externals) (faults : Faults) (wanted client uri : Text) (now : ℕ)
    (ip reason : Text) (db : Database)
    → Spent hash db
    → Spent hash (consume_oidc_code_denial_with_audit x faults wanted client uri now ip reason db).0
unfolding consume_oidc_code_denial_with_audit
deny-Spent hash x faults wanted client uri now ip reason db h =
    elim (Bool-cases (is_denial_reason reason)) [
      | inr e ↦ rw (e, consume_oidc_code_denial_with_audit) h
      | inl e ↦
          rw (e, consume_oidc_code_denial_with_audit)
            (audited-keeps (Spent hash) x faults ip db
              (denial_body faults wanted client uri now ip reason)
              (λ u after w.
                Taken-keeps hash faults wanted client uri now db after h
                  (denial_body-ok faults wanted client uri now ip reason db after w))
              h)
    ]

session-Spent :
    (hash : Text) (x : Externals) (faults : Faults) (wanted client uri : Text) (now : ℕ)
    (new : NewSession) (ip : Text) (db : Database)
    → Spent hash db
    → Spent hash (consume_oidc_code_with_session_audit x faults wanted client uri now new ip db).0
unfolding consume_oidc_code_with_session_audit
session-Spent hash x faults wanted client uri now new ip db h =
    elim (Bool-cases (
      length new.session_id == 0
      || (length new.access_token_hash == 0 || leb new.expires_at now))) [
        | inl e ↦ rw (e, consume_oidc_code_with_session_audit) h
        | inr e ↦
            rw (e, consume_oidc_code_with_session_audit)
              (audited-keeps (Spent hash) x faults ip db
                (session_body faults wanted client uri now new ip)
                (λ code after w.
                  Taken-keeps hash faults wanted client uri now db after h
                    (session_rest faults wanted client uri now new ip db after code w))
                h)
      ]

apply-Spent :
    (hash : Text) (x : Externals) (faults : Faults) (ip : Text) (now : ℕ) (o : Operation)
    (db : Database)
    → Avoids hash o
    → Spent hash db
    → Spent hash (apply x faults ip now o db)
unfolding apply create_oidc_code_with_audit consume_oidc_code_with_audit Avoids
apply-Spent hash x faults ip now (create code username) db a h =
    audited-keeps (Spent hash) x faults ip db (create_body faults code username ip now)
      (λ u after w. create_body-keeps hash faults code username ip now db after a h w) h
apply-Spent hash x faults ip now (deny wanted client uri reason) db a h =
    deny-Spent hash x faults wanted client uri now ip reason db h
apply-Spent hash x faults ip now (exchange wanted client uri) db a h =
    audited-keeps (Spent hash) x faults ip db (consume_body faults wanted client uri now ip)
      (λ code after w.
        Taken-keeps hash faults wanted client uri now db after h
          (consume_body-ok faults wanted client uri now ip db after code w))
      h
apply-Spent hash x faults ip now (exchange_session wanted client uri new) db a h =
    session-Spent hash x faults wanted client uri now new ip db h

run-Spent :
    (hash : Text) (x : Externals) (steps : List Step) (db : Database)
    → All (λ (s : Step). Avoids hash s.operation) steps
    → Spent hash db
    → Spent hash (run x steps db)
unfolding run
run-Spent hash x [] db a h = h
run-Spent hash x (s ∷ steps) db a h =
    run-Spent hash x steps (apply x s.faults s.ip s.now s.operation db) a.1
      (apply-Spent hash x s.faults s.ip s.now s.operation db a.0 h)

pub session-Taken :
    (x : Externals) (faults : Faults) (hash client uri : Text) (now : ℕ) (new : NewSession)
    (ip : Text) (db : Database) (code : OidcCode)
    → (consume_oidc_code_with_session_audit x faults hash client uri now new ip db).1 ≡ ok code
    → Taken faults hash client uri now db
        (consume_oidc_code_with_session_audit x faults hash client uri now new ip db).0
unfolding consume_oidc_code_with_session_audit
session-Taken x faults hash client uri now new ip db code h =
    elim (Bool-cases (
      length new.session_id == 0
      || (length new.access_token_hash == 0 || leb new.expires_at now))) [
        | inl e ↦ absurd (ground arith)
        | inr e ↦
            (let (after, w, same) =
                audited-ok x faults ip db (session_body faults hash client uri now new ip) code
                  (ground arith) in
              rw (e, consume_oidc_code_with_session_audit)
                (subst (Taken faults hash client uri now db) (sym same)
                  (session_rest faults hash client uri now new ip db after code w)))
      ]

pub deny-Taken :
    (x : Externals) (faults : Faults) (hash client uri : Text) (now : ℕ) (ip reason : Text)
    (db : Database)
    → (consume_oidc_code_denial_with_audit x faults hash client uri now ip reason db).1 ≡ ok tt
    → Taken faults hash client uri now db
        (consume_oidc_code_denial_with_audit x faults hash client uri now ip reason db).0
unfolding consume_oidc_code_denial_with_audit
deny-Taken x faults hash client uri now ip reason db h =
    elim (Bool-cases (is_denial_reason reason)) [
      | inr e ↦ absurd (ground arith)
      | inl e ↦
          (let (after, w, same) =
              audited-ok x faults ip db (denial_body faults hash client uri now ip reason) tt
                (ground arith) in
            rw (e, consume_oidc_code_denial_with_audit)
              (subst (Taken faults hash client uri now db) (sym same)
                (denial_body-ok faults hash client uri now ip reason db after w)))
    ]

-- A code that was exchanged for a session is not exchanged again, by whichever client and after any
-- operations on codes and whichever failures of the driver, if no code with its hash is created again.
pub exchange_once :
    (x : Externals) (faults again : Faults) (hash client client' uri uri' : Text) (now later : ℕ)
    (new new' : NewSession) (ip ip' : Text) (steps : List Step) (db : Database)
    (code code' : OidcCode)
    → All (λ (s : Step). Avoids hash s.operation) steps
    → (consume_oidc_code_with_session_audit x faults hash client uri now new ip db).1 ≡ ok code
    → (consume_oidc_code_with_session_audit x again hash client' uri' later new' ip' (
        run x steps
          (consume_oidc_code_with_session_audit x faults hash client uri now new ip db).0)).1
      ≢ ok code'
exchange_once x faults again hash client client' uri uri' now later new new' ip ip' steps db code
      code' a h k =
    let first = (consume_oidc_code_with_session_audit x faults hash client uri now new ip db).0 in
    let spent = run-Spent hash x steps first a (
      Taken-spends faults hash client uri now db first
        (session-Taken x faults hash client uri now new ip db code h)) in
    let (c, tx, w, _) =
      session-Taken x again hash client' uri' later new' ip' (run x steps first) code' k in
    take_code-refuses again hash client' uri' later (run x steps first) c tx spent w

-- A code whose exchange was denied, for a failed PKCE check or for its user, is not exchanged
-- afterwards, under the same conditions.
pub denied_for_good :
    (x : Externals) (faults again : Faults) (hash client client' uri uri' : Text) (now later : ℕ)
    (reason : Text) (new : NewSession) (ip ip' : Text) (steps : List Step) (db : Database)
    (code : OidcCode)
    → All (λ (s : Step). Avoids hash s.operation) steps
    → (consume_oidc_code_denial_with_audit x faults hash client uri now ip reason db).1 ≡ ok tt
    → (consume_oidc_code_with_session_audit x again hash client' uri' later new ip' (
        run x steps
          (consume_oidc_code_denial_with_audit x faults hash client uri now ip reason db).0)).1
      ≢ ok code
denied_for_good x faults again hash client client' uri uri' now later reason new ip ip' steps db
      code a h k =
    let first = (consume_oidc_code_denial_with_audit x faults hash client uri now ip reason db).0 in
    let spent = run-Spent hash x steps first a (
      Taken-spends faults hash client uri now db first
        (deny-Taken x faults hash client uri now ip reason db h)) in
    let (c, tx, w, _) =
      session-Taken x again hash client' uri' later new ip' (run x steps first) code k in
    take_code-refuses again hash client' uri' later (run x steps first) c tx spent w
