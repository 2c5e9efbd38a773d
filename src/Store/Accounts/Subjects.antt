-- ===== src/Store/Accounts/Subjects.antt =====
-- The subject that a user has in tokens.
use stumpfworks_identity.Store.Schema.{User, Database}
use stumpfworks_identity.Base.{
  ℕ, ◌<◌, ◌≡◌, refl, ap, ◌∙◌, ◌⊎◌, inl, inr, true, false, Option, some, arith, Text, length, find,
  update, find-update_stable, find_sound, ◌==◌, ok, Faults,
}
use stumpfworks_identity.Store.Oidc.{Externals}
use stumpfworks_identity.Store.Oidc.Taking.{audited-ok}
use stumpfworks_identity.Store.Accounts.{
  numbered, unnamed, has_subject, ensure_subject_body, give_subject, ensure_oidc_subject_with_audit,
}

-- Either the user had the subject, or it is the random one and was recorded.
ensure_body-ok :
    (faults : Faults) (id : ℕ) (random : Option Text) (ip subject : Text) (db after : Database)
    → ensure_subject_body faults id random ip db ≡ ok (subject, after)
    → (u : User) × (find (numbered id) db.users ≡ some u)
      × (((u.oidc_subject ≡ subject) × (after ≡ db) × ((length u.oidc_subject == 0) ≡ false))
          ⊎ ((random ≡ some subject)
              × ((length u.oidc_subject == 0) ≡ true)
              × (after.users ≡ update (unnamed id) (has_subject subject) db.users)))
unfolding ensure_subject_body give_subject
ensure_body-ok faults id random ip subject db after h = ground arith

ensured :
    (x : Externals) (faults : Faults) (id : ℕ) (random : Option Text) (ip subject : Text)
    (db : Database)
    → (ensure_oidc_subject_with_audit x faults id random ip db).1 ≡ ok subject
    → ensure_subject_body faults id random ip db
      ≡ ok (subject, (ensure_oidc_subject_with_audit x faults id random ip db).0)
unfolding ensure_oidc_subject_with_audit
ensured x faults id random ip subject db h =
    let (after, body, left) =
      audited-ok x faults ip db (ensure_subject_body faults id random ip) subject h in
    rw left body

-- The user has the subject.
pub ensure-names :
    (x : Externals) (faults : Faults) (id : ℕ) (random : Option Text) (ip subject : Text)
    (db : Database)
    → (ensure_oidc_subject_with_audit x faults id random ip db).1 ≡ ok subject
    → (u : User) × (find
          (numbered id)
          (ensure_oidc_subject_with_audit x faults id random ip db).0.users
        ≡ some u)
      × (u.oidc_subject ≡ subject)
ensure-names x faults id random ip subject db h =
    let (u, found, made) =
      ensure_body-ok faults id random ip subject db
        (ensure_oidc_subject_with_audit x faults id random ip db).0
        (ensured x faults id random ip subject db h) in
    elim made [
      | inl (same, kept, _) ↦ (u, rw kept found, same)
      | inr (_, empty, changed) ↦ (
        has_subject subject u,
        rw changed (
            find-update_stable (unnamed id) (has_subject subject) (numbered id) db.users u found
              (λ r. ground arith)
            ∙ ap some (ground (arith, empty, find_sound (numbered id) db.users u found))),
        refl,
      )
    ]

-- The subject of a user never changes: once EnsureOIDCSubject has answered with one that is not
-- empty, it answers with the same, whatever random bytes come.
pub subject_stable :
    (x : Externals) (faults again : Faults) (id : ℕ) (random other : Option Text)
    (ip ip' subject subject' : Text) (db : Database)
    → (ensure_oidc_subject_with_audit x faults id random ip db).1 ≡ ok subject
    → 0 < length subject
    → (ensure_oidc_subject_with_audit x again id other ip'
        (ensure_oidc_subject_with_audit x faults id random ip db).0).1
      ≡ ok subject'
    → (subject' ≡ subject)
      × ((ensure_oidc_subject_with_audit x again id other ip'
            (ensure_oidc_subject_with_audit x faults id random ip db).0).0
          ≡ (ensure_oidc_subject_with_audit x faults id random ip db).0)
subject_stable x faults again id random other ip ip' subject subject' db h long k =
    let first = (ensure_oidc_subject_with_audit x faults id random ip db).0 in
    let (u, found, named) = ensure-names x faults id random ip subject db h in
    let (v, seen, made) =
      ensure_body-ok again id other ip' subject' first
        (ensure_oidc_subject_with_audit x again id other ip' first).0
        (ensured x again id other ip' subject' first k) in
    elim made [
      | inl (same, kept, _) ↦ (ground arith, kept)
      | inr (_, empty, _) ↦ absurd (ground arith)
    ]
