-- ===== src/Store/Devices/Rows.antt =====
-- internal/database/client_device_authentication.go: what the statements on device credentials leave
-- of one pending and one active row for every client.
use native.Mathlib.Nat.{le_trans}
use stumpfworks_identity.Base.{
  ℕ, ◌≤◌, ◌≡◌, refl, subst, inl, inr, Bool, false, Option, none, some, List, [], ◌∷◌, arith, Text,
  text_eq_refl, text_eq_sound, text_eq, count, any, update, count-update-le, Bool-cases, ok, Faults,
}
use stumpfworks_identity.Store.Schema.{
  Event, DeviceCredential, Database, pending, active, superseded,
}
use stumpfworks_identity.Store.Devices.{
  status_eq, with_status, is_credential, set_status, abandoned, clashes, insert_pending,
  stage_pending, stage_renewal_body, enroll_body, spend, spendable, current,
}
use stumpfworks_identity.Store.Devices.Activation.{set_credentials, retire, promote}

abbrev pub OneEach : List DeviceCredential → Type 0
OneEach rows =
    (client : Text)
    → (count (with_status active client) rows ≤ 1) × (count (with_status pending client) rows ≤ 1)

-- An update that makes no credential active or pending.
pub demote-OneEach :
    (p : DeviceCredential → Bool) (f : DeviceCredential → DeviceCredential)
    (rows : List DeviceCredential)
    → ((c : DeviceCredential)
        → (status_eq (f c).status active ≡ false) × (status_eq (f c).status pending ≡ false))
    → OneEach rows
    → OneEach (update p f rows)
demote-OneEach p f rows k h client = (
  le_trans (count-update-le p f (with_status active client) rows (λ c. ground (arith, k c)))
      (h client).0,
  le_trans (count-update-le p f (with_status pending client) rows (λ c. ground (arith, k c)))
      (h client).1,
)

insert-ok :
    (fault : Bool) (c : DeviceCredential) (supersedes : Option Text) (now : ℕ) (db after : Database)
    → insert_pending fault c supersedes now db ≡ ok after
    → (any (clashes c) db.device_credentials ≡ false)
      × (after.device_credentials
          ≡ record c {
            status = pending;
            supersedes_id = supersedes;
            revoked_at = none;
            created_at = now;
          }
            ∷ db.device_credentials)
unfolding insert_pending
insert-ok fault c supersedes now db after h = ground arith

count_weaker :
    (c : DeviceCredential) (rows : List DeviceCredential)
    → any (clashes c) rows ≡ false
    → count (with_status pending c.client_id) rows ≡ 0
unfolding any count
count_weaker c [] h = refl
count_weaker c (x ∷ rows) h = ground (arith, count_weaker c rows)

insert-OneEach :
    (fault : Bool) (c : DeviceCredential) (supersedes : Option Text) (now : ℕ) (db after : Database)
    → insert_pending fault c supersedes now db ≡ ok after
    → OneEach db.device_credentials
    → OneEach after.device_credentials
unfolding count
insert-OneEach fault c supersedes now db after e h client =
    let (free, same) = insert-ok fault c supersedes now db after e in
    let none_pending = count_weaker c db.device_credentials free in
    elim (Bool-cases (text_eq c.client_id client)) [
      | inl own ↦
          ground (arith, same, none_pending, h client, own, text_eq_sound c.client_id client own)
      | inr other ↦ ground (arith, same, h client, other)
    ]

pub stage-OneEach :
    (faults : Faults) (c : DeviceCredential) (supersedes : Option Text) (now : ℕ)
    (db after : Database)
    → stage_pending faults c supersedes now db ≡ ok after
    → OneEach db.device_credentials
    → OneEach after.device_credentials
unfolding stage_pending
stage-OneEach faults c supersedes now db after e h =
    insert-OneEach (faults 5) c supersedes now
      (set_credentials db
        (update (abandoned c.client_id now) (set_status superseded) db.device_credentials))
      after (ground arith)
      (demote-OneEach (abandoned c.client_id now) (set_status superseded) db.device_credentials
        (λ d. (refl, refl)) h)

pub renewal-ok :
    (faults : Faults) (current : Text) (now : ℕ) (c : DeviceCredential) (ip : Text)
    (db after : Database)
    → stage_renewal_body faults current now c ip db ≡ ok (tt, after)
    → (staged : Database) × (stage_pending faults c (some current) now db ≡ ok staged)
      × (after.device_credentials ≡ staged.device_credentials)
unfolding stage_renewal_body
renewal-ok faults current now c ip db after h = ground arith

pub enroll-ok :
    (faults : Faults) (token_hash : Text) (now : ℕ) (c : DeviceCredential) (ip : Text)
    (db after : Database)
    → enroll_body faults token_hash now c ip db ≡ ok (tt, after)
    → (staged : Database) × (stage_pending faults c none now (record db {
      enrollment_tokens =
          update (spendable c.client_id token_hash now db) (spend now) db.enrollment_tokens;
    })
        ≡ ok staged)
      × (after.device_credentials ≡ staged.device_credentials)
      × (after.enrollment_tokens ≡ staged.enrollment_tokens)
      × (after.clients ≡ staged.clients)
unfolding enroll_body
enroll-ok faults token_hash now c ip db after h = ground arith

pub retire-OneEach :
    (faults : Faults) (client : Text) (old : Option Text) (db retired : Database) (event : Event)
    → retire faults client old db ≡ ok (event, retired)
    → OneEach db.device_credentials
    → OneEach retired.device_credentials
unfolding retire
retire-OneEach faults client none db retired event e h =
    let same : retired ≡ db = ground arith in rw same h
retire-OneEach faults client (some old) db retired event e h =
    let same : retired
        ≡ set_credentials db (
            update (is_credential old client active) (set_status superseded)
              db.device_credentials) =
      ground arith in
    rw same (
      demote-OneEach (is_credential old client active) (set_status superseded) db.device_credentials
        (λ d. (refl, refl)) h)

pub promote-ok :
    (faults : Faults) (client id : Text) (db after : Database)
    → promote faults id client db ≡ ok after
    → (count (with_status active client) after.device_credentials ≤ 1)
      × (count (is_credential id client pending) db.device_credentials ≡ 1)
      × (after
          ≡ set_credentials db
              (update (is_credential id client pending) (set_status active) db.device_credentials))
unfolding promote
promote-ok faults client id db after h = ground arith

pub promote-OneEach :
    (faults : Faults) (client id : Text) (db after : Database)
    → promote faults id client db ≡ ok after
    → OneEach db.device_credentials
    → OneEach after.device_credentials
promote-OneEach faults client id db after e h other =
    let (one, _, same) = promote-ok faults client id db after e in
    let p = is_credential id client pending in
    let fewer =
      count-update-le p (set_status active) (with_status pending other) db.device_credentials
        (λ c. ground arith) in
    elim (Bool-cases (text_eq client other)) [
      | inl own ↦ (
        subst (λ k. count (with_status active k) after.device_credentials ≤ 1)
            (text_eq_sound client other own) one,
        rw same (le_trans fewer (h other).1),
      )
      | inr differ ↦ rw same (
        le_trans
            (count-update-le p (set_status active) (with_status active other) db.device_credentials
              (λ c. ground (
                arith,
                differ,
                text_eq_sound c.client_id client,
                text_eq_sound c.client_id other,
                text_eq_refl client,
              )))
            (h other).0,
        le_trans fewer (h other).1,
      )
    ]
