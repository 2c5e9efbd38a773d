-- ===== src/Store/Devices/Spent.antt =====
-- internal/database/client_device_authentication.go: the single use of enrollment tokens.
use stumpfworks_identity.Base.{
  ℕ, ◌≤◌, ◌≡◌, ◌≢◌, sym, subst, ◌∙◌, Bool, true, false, ◌&&◌, Option, none, some, List, [], ◌∷◌,
  arith, Text, text_eq, text_eq_sound, count, any, update, count-update_leave, count-update-le,
  count_of_stronger-le, any-update, any-false_of_weaker, ok, Faults, inl, inr, Bool-cases,
  Result-cases, >>=-eq-ok,
}
use stumpfworks_identity.Store.Schema.{Event, EnrollmentToken, DeviceCredential, Database, is_null}
use stumpfworks_identity.Store.Devices.{
  Externals, token_clashes, enabled_client, insert_token, token_body,
  create_client_enrollment_token, stage_pending, insert_pending, stage_renewal_body, enroll_body,
  spend, spendable, usable, enroll_client_device_credential, valid_client_enrollment_token,
  stage_client_device_credential_renewal,
}
use stumpfworks_identity.Store.Devices.Activation.{
  activate_body, activate_found, retire, promote, revoke_body, activate_client_device_credential,
  revoke_client_device_credential,
}
use stumpfworks_identity.Store.Devices.Rows.{enroll-ok}
use stumpfworks_identity.Store.Devices.Unique.{
  Operation, create_token, enroll, renew, activate, revoke, apply, activate-ok, checked-keeps,
}

abbrev pub has_hash : Text → EnrollmentToken → Bool
has_hash token_hash t = text_eq t.token_hash token_hash

abbrev pub unspent : Text → EnrollmentToken → Bool
unspent token_hash t = has_hash token_hash t && is_null t.consumed_at

-- There is a token with the hash, and every such token is spent.
abbrev pub Spent : Text → Database → Type 0
Spent token_hash db =
    (any (has_hash token_hash) db.enrollment_tokens ≡ true)
    × (count (unspent token_hash) db.enrollment_tokens ≡ 0)

stage-tokens :
    (faults : Faults) (c : DeviceCredential) (supersedes : Option Text) (now : ℕ)
    (db after : Database)
    → stage_pending faults c supersedes now db ≡ ok after
    → after.enrollment_tokens ≡ db.enrollment_tokens
unfolding stage_pending insert_pending
stage-tokens faults c supersedes now db after h = ground arith

enroll-tokens :
    (faults : Faults) (token_hash : Text) (now : ℕ) (c : DeviceCredential) (ip : Text)
    (db after : Database)
    → enroll_body faults token_hash now c ip db ≡ ok (tt, after)
    → after.enrollment_tokens
      ≡ update (spendable c.client_id token_hash now db) (spend now) db.enrollment_tokens
enroll-tokens faults token_hash now c ip db after e =
    let (staged, s, _, tokens, _) = enroll-ok faults token_hash now c ip db after e in
    tokens ∙ stage-tokens faults c none now _ staged s

enroll-counted :
    (faults : Faults) (token_hash : Text) (now : ℕ) (c : DeviceCredential) (ip : Text)
    (db after : Database)
    → enroll_body faults token_hash now c ip db ≡ ok (tt, after)
    → count (spendable c.client_id token_hash now db) db.enrollment_tokens ≡ 1
unfolding enroll_body
enroll-counted faults token_hash now c ip db after e = ground arith

any_of_counted :
    (p q : EnrollmentToken → Bool) (rows : List EnrollmentToken)
    → ((t : EnrollmentToken) → p t ≡ true → q t ≡ true)
    → 1 ≤ count p rows
    → any q rows ≡ true
unfolding count any
any_of_counted p q [] k h = absurd (omega (arith, h))
any_of_counted p q (t ∷ rows) k h = ground (arith, k t, any_of_counted p q rows k)

-- An enrollment spends the only token with its hash.
enroll-Spent :
    (faults : Faults) (token_hash : Text) (now : ℕ) (c : DeviceCredential) (ip : Text)
    (db after : Database)
    → count (has_hash token_hash) db.enrollment_tokens ≤ 1
    → enroll_body faults token_hash now c ip db ≡ ok (tt, after)
    → Spent token_hash after
enroll-Spent faults token_hash now c ip db after single e =
    let p = spendable c.client_id token_hash now db in
    let one = enroll-counted faults token_hash now c ip db after e in
    let le =
      count_of_stronger-le (unspent token_hash) (has_hash token_hash) db.enrollment_tokens
        (λ t k. ground arith) in
    let left =
      count-update_leave p (spend now) (unspent token_hash) db.enrollment_tokens
        (λ t k. ground arith) (λ t k. ground arith) in
    let known =
      any_of_counted p (has_hash token_hash) db.enrollment_tokens (λ t k. ground arith)
        (omega (arith, one)) in
    rw (enroll-tokens faults token_hash now c ip db after e) (
      any-update p (spend now) (has_hash token_hash) db.enrollment_tokens (λ t. ground arith)
          ∙ known,
      omega (arith, le, single, left, one),
    )

-- Any enrollment spends more tokens, if any.
enroll-keeps :
    (faults : Faults) (hash token_hash : Text) (now : ℕ) (c : DeviceCredential) (ip : Text)
    (db after : Database)
    → Spent hash db
    → enroll_body faults token_hash now c ip db ≡ ok (tt, after)
    → Spent hash after
enroll-keeps faults hash token_hash now c ip db after h e =
    let p = spendable c.client_id token_hash now db in
    let le =
      count-update-le p (spend now) (unspent hash) db.enrollment_tokens (λ t. ground arith) in
    rw (enroll-tokens faults token_hash now c ip db after e) (
      any-update p (spend now) (has_hash hash) db.enrollment_tokens (λ t. ground arith) ∙ h.0,
      omega (arith, le, h.1),
    )

fresh-token :
    (hash : Text) (token : EnrollmentToken) (rows : List EnrollmentToken)
    → any (has_hash hash) rows ≡ true
    → any (token_clashes token) rows ≡ false
    → text_eq token.token_hash hash ≡ false
fresh-token hash token rows h k = elim (Bool-cases (text_eq token.token_hash hash)) [
  | inr other ↦ other
  | inl own ↦
      let same = text_eq_sound token.token_hash hash own in
      let nothing =
        any-false_of_weaker (has_hash token.token_hash) (token_clashes token) rows
          (λ t e. ground (arith, e)) k in
      absurd (ground (arith, subst (λ t. any (has_hash t) rows ≡ false) same nothing, h))
]

insert_token-Spent :
    (hash : Text) (token : EnrollmentToken) (db after : Database)
    → Spent hash db
    → insert_token token db ≡ ok after
    → Spent hash after
unfolding insert_token any count
insert_token-Spent hash token db after h e =
    elim (Bool-cases (any (token_clashes token) db.enrollment_tokens)) [
      | inl clash ↦
          let same : after.enrollment_tokens ≡ db.enrollment_tokens = ground arith in rw same h
      | inr free ↦
          let other = fresh-token hash token db.enrollment_tokens h.0 free in
          elim (Bool-cases (any (enabled_client token.client_id) db.clients)) [
            | inl on ↦ (ground (arith, on, free, other, h), ground (arith, on, free, other, h))
            | inr off ↦
                let same : after.enrollment_tokens ≡ db.enrollment_tokens = ground arith in
                rw same h
          ]
    ]

token-keeps :
    (faults : Faults) (hash : Text) (token : EnrollmentToken) (ip : Text) (db after : Database)
    → Spent hash db
    → token_body faults token ip db ≡ ok (tt, after)
    → Spent hash after
unfolding token_body
token-keeps faults hash token ip db after h e = elim (Result-cases (insert_token token db)) [
  | inr (f, w) ↦ absurd (ground (arith, w))
  | inl (inserted, w) ↦
      let same : after.enrollment_tokens ≡ inserted.enrollment_tokens = ground (arith, w) in
      rw same (insert_token-Spent hash token db inserted h w)
]

renewal-tokens :
    (faults : Faults) (id : Text) (now : ℕ) (c : DeviceCredential) (ip : Text) (db after : Database)
    → stage_renewal_body faults id now c ip db ≡ ok (tt, after)
    → after.enrollment_tokens ≡ db.enrollment_tokens
unfolding stage_renewal_body stage_pending insert_pending
renewal-tokens faults id now c ip db after e = ground arith

retire-tokens :
    (faults : Faults) (client : Text) (supersedes : Option Text) (db : Database)
    (retired : Event × Database)
    → retire faults client supersedes db ≡ ok retired
    → retired.1.enrollment_tokens ≡ db.enrollment_tokens
unfolding retire
retire-tokens faults client none db retired e = ground arith
retire-tokens faults client (some old) db retired e = ground arith

activate-tokens :
    (faults : Faults) (client id ip : Text) (now : ℕ) (db after : Database)
    → activate_body faults client id ip now db ≡ ok (tt, after)
    → after.enrollment_tokens ≡ db.enrollment_tokens
unfolding activate_body activate_found promote
activate-tokens faults client id ip now db after e =
    let (c, _, found) = activate-ok faults client id ip now db after e in
    let (retired, r, rest) =
      >>=-eq-ok (retire faults client c.supersedes_id db) _ (tt, after) found in
    let same = retire-tokens faults client c.supersedes_id db retired r in
    ground (arith, rest, same)

revoke-tokens :
    (faults : Faults) (client id ip : Text) (now : ℕ) (db after : Database)
    → revoke_body faults client id ip now db ≡ ok (tt, after)
    → after.enrollment_tokens ≡ db.enrollment_tokens
unfolding revoke_body
revoke-tokens faults client id ip now db after e = ground arith

apply-Spent :
    (x : Externals) (faults : Faults) (hash ip : Text) (now : ℕ) (o : Operation) (db : Database)
    → Spent hash db
    → Spent hash (apply x faults ip now o db)
unfolding apply create_client_enrollment_token enroll_client_device_credential
    stage_client_device_credential_renewal activate_client_device_credential
    revoke_client_device_credential
apply-Spent x faults hash ip now (create_token token) db h =
    checked-keeps (Spent hash) faults db _ (token_body faults token ip) h
      (λ after e. token-keeps faults hash token ip db after h e)
apply-Spent x faults hash ip now (enroll token_hash c) db h =
    checked-keeps (Spent hash) faults db _ (enroll_body faults token_hash now c ip) h
      (λ after e. enroll-keeps faults hash token_hash now c ip db after h e)
apply-Spent x faults hash ip now (renew id c) db h =
    checked-keeps (Spent hash) faults db _ (stage_renewal_body faults id now c ip) h
      (λ after e. rw (renewal-tokens faults id now c ip db after e) h)
apply-Spent x faults hash ip now (activate client id) db h =
    checked-keeps (Spent hash) faults db _ (activate_body faults client id ip now) h
      (λ after e. rw (activate-tokens faults client id ip now db after e) h)
apply-Spent x faults hash ip now (revoke client id) db h =
    checked-keeps (Spent hash) faults db _ (revoke_body faults client id ip now) h
      (λ after e. rw (revoke-tokens faults client id ip now db after e) h)

pub record Step : Type 0 where
  pub faults : Faults
  pub ip : Text
  pub now : ℕ
  pub operation : Operation

unfoldable pub run : Externals → List Step → Database → Database
run x [] db = db
run x (s ∷ steps) db = run x steps (apply x s.faults s.ip s.now s.operation db)

run-Spent :
    (x : Externals) (hash : Text) (steps : List Step) (db : Database)
    → Spent hash db
    → Spent hash (run x steps db)
unfolding run
run-Spent x hash [] db h = h
run-Spent x hash (s ∷ steps) db h =
    run-Spent x hash steps (apply x s.faults s.ip s.now s.operation db)
      (apply-Spent x s.faults hash s.ip s.now s.operation db h)

enroll_client-ok :
    (x : Externals) (faults : Faults) (token_hash : Text) (now : ℕ) (c : DeviceCredential)
    (ip : Text) (db : Database)
    → (enroll_client_device_credential x faults token_hash now c ip db).1 ≡ ok tt
    → (after : Database) × (enroll_body faults token_hash now c ip db ≡ ok (tt, after))
      × ((enroll_client_device_credential x faults token_hash now c ip db).0 ≡ after)
unfolding enroll_client_device_credential
enroll_client-ok x faults token_hash now c ip db h = ground arith

Spent-enroll :
    (x : Externals) (faults : Faults) (token_hash : Text) (now : ℕ) (c : DeviceCredential)
    (ip : Text) (db : Database)
    → Spent token_hash db
    → (enroll_client_device_credential x faults token_hash now c ip db).1 ≢ ok tt
Spent-enroll x faults token_hash now c ip db h e =
    let (after, body, _) = enroll_client-ok x faults token_hash now c ip db e in
    let one = enroll-counted faults token_hash now c ip db after body in
    let le =
      count_of_stronger-le (spendable c.client_id token_hash now db) (unspent token_hash)
        db.enrollment_tokens (λ t k. ground arith) in
    absurd (omega (arith, one, le, h.1))

Spent-valid :
    (x : Externals) (faults : Faults) (client token_hash : Text) (now : ℕ) (db : Database)
    → Spent token_hash db
    → valid_client_enrollment_token x faults client token_hash now db ≢ ok true
unfolding valid_client_enrollment_token
Spent-valid x faults client token_hash now db h e =
    let le =
      count_of_stronger-le (usable client token_hash now) (unspent token_hash) db.enrollment_tokens
        (λ t k. ground arith) in
    let nothing : count (usable client token_hash now) db.enrollment_tokens ≡ 0 =
      omega (arith, le, h.1) in
    ground (arith, nothing, e)

-- Where at most one token has the hash, as the column is unique, an enrollment token is good for one
-- enrollment: after one that succeeds, and after any creations of tokens, enrollments, renewals,
-- activations and revocations, no enrollment with the token succeeds and the token is not reported
-- as valid, for any client and at any instant.
pub enroll_once :
    (x : Externals) (faults again reading : Faults) (token_hash client : Text) (now later : ℕ)
    (c d : DeviceCredential) (ip ip' : Text) (steps : List Step) (db : Database)
    → count (has_hash token_hash) db.enrollment_tokens ≤ 1
    → (enroll_client_device_credential x faults token_hash now c ip db).1 ≡ ok tt
    → let after = run x steps (enroll_client_device_credential x faults token_hash now c ip db).0 in
      ((enroll_client_device_credential x again token_hash later d ip' after).1 ≢ ok tt)
      × (valid_client_enrollment_token x reading client token_hash later after ≢ ok true)
enroll_once x faults again reading token_hash client now later c d ip ip' steps db single e =
    let first = (enroll_client_device_credential x faults token_hash now c ip db).0 in
    let (after, body, same) = enroll_client-ok x faults token_hash now c ip db e in
    let spent = run-Spent x token_hash steps first (
      subst (Spent token_hash) (sym same)
        (enroll-Spent faults token_hash now c ip db after single body)) in
    (
      Spent-enroll x again token_hash later d ip' (run x steps first) spent,
      Spent-valid x reading client token_hash later (run x steps first) spent,
    )
