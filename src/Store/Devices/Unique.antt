-- ===== src/Store/Devices/Unique.antt =====
-- A client has at most one active and at most one pending credential.

use stumpfworks_identity.Base.{
  ℕ, ◌≡◌, refl, inl, inr, ◌&&◌, Option, none, some, arith, Text, text_eq, find, count, update,
  Bool-cases, Result, ok, err, >>=-eq-ok, Faults, finish, transaction,
}
use stumpfworks_identity.Store.Schema.{Event, EnrollmentToken, DeviceCredential, Database, active}
use stumpfworks_identity.Store.Devices.{
  Externals, insert_token, token_body, create_client_enrollment_token, is_credential,
  stage_renewal_body, enroll_body, stage_client_device_credential_renewal,
  enroll_client_device_credential, awaiting,
}
use stumpfworks_identity.Store.Devices.Activation.{
  retire, promote, activate_body, activate_found, revoke_row, revoke_body,
  activate_client_device_credential, revoke_client_device_credential,
}
use stumpfworks_identity.Store.Devices.Rows.{
  OneEach, demote-OneEach, stage-OneEach, renewal-ok, enroll-ok, retire-OneEach, promote-OneEach,
}

pub activate_found-ok :
    (faults : Faults) (client id ip : Text) (supersedes : Option Text) (db after : Database)
    → activate_found faults client id ip supersedes db ≡ ok (tt, after)
    → (retired : Event × Database) × (promoted : Database) × (retire faults client supersedes db
        ≡ ok retired)
      × (promote faults id client retired.1 ≡ ok promoted)
      × (after.device_credentials ≡ promoted.device_credentials)
unfolding activate_found
activate_found-ok faults client id ip supersedes db after h =
    let (retired, r, rest) = >>=-eq-ok (retire faults client supersedes db) _ (tt, after) h in
    let (promoted, p, last) = >>=-eq-ok (promote faults id client retired.1) _ (tt, after) rest in
    (retired, promoted, r, p, ground arith)

pub activate-ok :
    (faults : Faults) (client id ip : Text) (now : ℕ) (db after : Database)
    → activate_body faults client id ip now db ≡ ok (tt, after)
    → (c : DeviceCredential) × (find
          (λ (row : DeviceCredential). text_eq row.id id && awaiting client now row)
          db.device_credentials
        ≡ some c)
      × (activate_found faults client id ip c.supersedes_id db ≡ ok (tt, after))
unfolding activate_body
activate-ok faults client id ip now db after h = ground arith

pub revoke-ok :
    (faults : Faults) (client id ip : Text) (now : ℕ) (db after : Database)
    → revoke_body faults client id ip now db ≡ ok (tt, after)
    → (after.device_credentials
        ≡ update (is_credential id client active) (revoke_row now) db.device_credentials)
      × (count (is_credential id client active) db.device_credentials ≡ 1)
unfolding revoke_body
revoke-ok faults client id ip now db after h = ground arith

renewal-OneEach :
    (faults : Faults) (id : Text) (now : ℕ) (c : DeviceCredential) (ip : Text) (db after : Database)
    → stage_renewal_body faults id now c ip db ≡ ok (tt, after)
    → OneEach db.device_credentials
    → OneEach after.device_credentials
renewal-OneEach faults id now c ip db after e h =
    let (staged, s, same) = renewal-ok faults id now c ip db after e in
    rw same (stage-OneEach faults c (some id) now db staged s h)

enroll-OneEach :
    (faults : Faults) (token_hash : Text) (now : ℕ) (c : DeviceCredential) (ip : Text)
    (db after : Database)
    → enroll_body faults token_hash now c ip db ≡ ok (tt, after)
    → OneEach db.device_credentials
    → OneEach after.device_credentials
enroll-OneEach faults token_hash now c ip db after e h =
    let (staged, s, same, _, _) = enroll-ok faults token_hash now c ip db after e in
    rw same (stage-OneEach faults c none now _ staged s h)

activate-OneEach :
    (faults : Faults) (client id ip : Text) (now : ℕ) (db after : Database)
    → activate_body faults client id ip now db ≡ ok (tt, after)
    → OneEach db.device_credentials
    → OneEach after.device_credentials
activate-OneEach faults client id ip now db after e h =
    let (c, _, found) = activate-ok faults client id ip now db after e in
    let (retired, promoted, r, p, same) =
      activate_found-ok faults client id ip c.supersedes_id db after found in
    rw same (
      promote-OneEach faults client id retired.1 promoted p
        (retire-OneEach faults client c.supersedes_id db retired.1 retired.0 r h))

revoke-OneEach :
    (faults : Faults) (client id ip : Text) (now : ℕ) (db after : Database)
    → revoke_body faults client id ip now db ≡ ok (tt, after)
    → OneEach db.device_credentials
    → OneEach after.device_credentials
revoke-OneEach faults client id ip now db after e h =
    rw (revoke-ok faults client id ip now db after e).0 (
      demote-OneEach (is_credential id client active) (revoke_row now) db.device_credentials
        (λ d. (refl, refl)) h)

pub data Operation : Type 0 where
  create_token : EnrollmentToken → Operation
  enroll : Text → DeviceCredential → Operation
  renew : Text → DeviceCredential → Operation
  activate : Text → Text → Operation
  revoke : Text → Text → Operation

unfoldable pub apply : Externals → Faults → Text → ℕ → Operation → Database → Database
apply x faults ip now (create_token token) db =
    (create_client_enrollment_token x faults token ip db).0
apply x faults ip now (enroll token_hash c) db =
    (enroll_client_device_credential x faults token_hash now c ip db).0
apply x faults ip now (renew id c) db =
    (stage_client_device_credential_renewal x faults id now c ip db).0
apply x faults ip now (activate client id) db =
    (activate_client_device_credential x faults client id ip now db).0
apply x faults ip now (revoke client id) db =
    (revoke_client_device_credential x faults client id ip now db).0

-- A transaction keeps what its body keeps.
module _ (P : Database → Type 0) (faults : Faults) (db : Database) where
  finish-keeps :
      (r : Result (Unit {0} × Database))
      → P db
      → ((after : Database) → r ≡ ok (tt, after) → P after)
      → P (finish faults db r).0
  finish-keeps (err e) h k = h
  finish-keeps (ok (u, after)) h k = elim (Bool-cases (faults 1)) [
    | inl c ↦ rw c h
    | inr c ↦ rw c (k after refl)
  ]

  pub transaction-keeps :
      (body : Database → Result (Unit {0} × Database))
      → P db
      → ((after : Database) → body db ≡ ok (tt, after) → P after)
      → P (transaction faults db body).0
  transaction-keeps body h k = elim (Bool-cases (faults 0)) [
    | inl t ↦ rw t h
    | inr t ↦ rw t (finish-keeps (body db) h k)
  ]

  pub checked-keeps :
      (check : Result (Unit {0})) (body : Database → Result (Unit {0} × Database))
      → P db
      → ((after : Database) → body db ≡ ok (tt, after) → P after)
      → P
          (let r : Database × Result (Unit {0}) = elim check [
            | err e ↦ (db, err e)
            | ok _ ↦ transaction faults db body
          ] in
            r).0
  checked-keeps (err e) body h k = h
  checked-keeps (ok u) body h k = transaction-keeps body h k

abbrev Unique : Database → Type 0
Unique db = OneEach db.device_credentials

token-credentials :
    (faults : Faults) (token : EnrollmentToken) (ip : Text) (db after : Database)
    → token_body faults token ip db ≡ ok (tt, after)
    → after.device_credentials ≡ db.device_credentials
unfolding token_body insert_token
token-credentials faults token ip db after e = ground arith

-- Creation of tokens, enrollment, renewal, activation and revocation, with any arguments and any
-- driver failures, keep at most one active and at most one pending credential for every client.
pub apply-OneEach :
    (x : Externals) (faults : Faults) (ip : Text) (now : ℕ) (o : Operation) (db : Database)
    → OneEach db.device_credentials
    → OneEach (apply x faults ip now o db).device_credentials
unfolding apply create_client_enrollment_token enroll_client_device_credential
    stage_client_device_credential_renewal activate_client_device_credential
    revoke_client_device_credential
apply-OneEach x faults ip now (create_token token) db h =
    checked-keeps Unique faults db _ (token_body faults token ip) h
      λ after e. rw (token-credentials faults token ip db after e) h
apply-OneEach x faults ip now (enroll token_hash c) db h =
    checked-keeps Unique faults db _ (enroll_body faults token_hash now c ip) h
      λ after e. enroll-OneEach faults token_hash now c ip db after e h
apply-OneEach x faults ip now (renew id c) db h =
    checked-keeps Unique faults db _ (stage_renewal_body faults id now c ip) h
      λ after e. renewal-OneEach faults id now c ip db after e h
apply-OneEach x faults ip now (activate client id) db h =
    checked-keeps Unique faults db _ (activate_body faults client id ip now) h
      λ after e. activate-OneEach faults client id ip now db after e h
apply-OneEach x faults ip now (revoke client id) db h =
    checked-keeps Unique faults db _ (revoke_body faults client id ip now) h
      λ after e. revoke-OneEach faults client id ip now db after e h
