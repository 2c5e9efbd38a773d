-- ===== src/Store/Badges/Revoked.antt =====
-- A revoked badge stays revoked.

use stumpfworks_identity.Base.{
  ℕ, ◌+◌, ◌≤◌, ◌≡◌, refl, ◌≢◌, inl, inr, Bool, true, false, some, List, [], ◌∷◌, arith, Text, All,
  find, count, update, count-update_none, if◌then◌else◌, Bool-cases, driver, invalid, Result, ok,
  err, Faults,
}
use stumpfworks_identity.Store.Schema.{Badge, Database}
use stumpfworks_identity.Store.Badges.{
  Externals, max_id, has_id, enabled_with, enabled_of, pending_of, set_badges, new_badge, read_back,
  create_badge, create_body, disable, replace_body, replace_badge_pending, lose, lost_body,
  revoke_active_badge_for_user, activated, activate_body, activate_pending_badge_for_user, revoke,
  used, success_body, record_badge_authentication_success,
}
use stumpfworks_identity.Store.Badges.Audited.{
  audited_create_body, create_badge_with_audit, audited_revoke_body, revoke_badge_with_audit,
  audited_replace_body, replace_badge_pending_with_audit,
}
use stumpfworks_identity.Store.Badges.Rows.{
  audited_create-ok, audited_revoke-ok, audited_replace-ok, DeadRow, IsRevoked, max_id-update,
  update-IsRevoked, insert-ok, fresh-IsRevoked, transaction-IsRevoked, create-ok, replace-ok,
  lost-ok, activate-ok, success-ok,
}

pub data Operation : Type 0 where
  create : ℕ → Text → Text → Operation
  replace : ℕ → Text → Text → Operation
  lost : ℕ → ℕ → Operation
  activate : ℕ → ℕ → Operation
  withdraw : ℕ → Operation
  create_audited : ℕ → Text → Text → Operation
  replace_audited : ℕ → Text → Text → Operation
  withdraw_audited : ℕ → Operation
  authenticate : ℕ → Text → Operation

-- One operation, from one address and at one time of the database.
unfoldable pub apply : Externals → Faults → Text → ℕ → Operation → Database → Database
apply x faults ip clock (create user hash desc) db = (create_badge x faults user hash desc db).0
apply x faults ip clock (replace old hash desc) db =
    (replace_badge_pending x faults old hash desc clock db).0
apply x faults ip clock (lost id user) db =
    (revoke_active_badge_for_user x faults id user ip clock db).0
apply x faults ip clock (activate id user) db =
    (activate_pending_badge_for_user x faults id user ip db).0
apply x faults ip clock (withdraw id) db = (revoke faults id clock db).0
apply x faults ip clock (create_audited user hash desc) db =
    (create_badge_with_audit x faults user hash desc ip db).0
apply x faults ip clock (replace_audited old hash desc) db =
    (replace_badge_pending_with_audit x faults old hash desc ip clock db).0
apply x faults ip clock (withdraw_audited id) db =
    (revoke_badge_with_audit x faults id ip clock db).0
apply x faults ip clock (authenticate id client) db =
    (record_badge_authentication_success x faults id client ip clock db).0

read_back-db :
    (fault : Bool) (id : ℕ) (r : Database × Result (Unit {0})) → (read_back fault id r).0 ≡ r.0
unfolding read_back
read_back-db fault id (db, err e) = refl
read_back-db fault id (db, ok u) = refl

guarded :
    {A : Type 0} (id : ℕ) (bad : Bool) (db : Database) (r : Database × Result A)
    → IsRevoked id db.badges
    → IsRevoked id r.0.badges
    → IsRevoked id (if bad then (db, err invalid) else r).0.badges
guarded id true db r h k = h
guarded id false db r h k = k

apply-IsRevoked :
    (id : ℕ) (x : Externals) (faults : Faults) (ip : Text) (clock : ℕ) (o : Operation)
    (db : Database)
    → IsRevoked id db.badges
    → IsRevoked id (apply x faults ip clock o db).badges
unfolding apply create_badge replace_badge_pending revoke_active_badge_for_user
    activate_pending_badge_for_user revoke record_badge_authentication_success
    create_badge_with_audit replace_badge_pending_with_audit revoke_badge_with_audit
apply-IsRevoked id x faults ip clock (create user hash desc) db h = rw read_back-db (
    transaction-IsRevoked id faults db (create_body x faults user hash desc)
      (λ u after e.
        rw
          (insert-ok (faults 3) (new_badge x user hash desc db) db after
            (create-ok x faults user hash desc db after e))
          (fresh-IsRevoked id (new_badge x user hash desc db) db.badges db.badges refl refl h))
      h)
apply-IsRevoked id x faults ip clock (replace old hash desc) db h = rw read_back-db (
    transaction-IsRevoked id faults db (replace_body x faults old hash desc clock)
      (λ u after e.
        let (b, _, i) = replace-ok x faults old hash desc clock db after e in
        rw (insert-ok (faults 5) _ _ after i) (
          fresh-IsRevoked id _ db.badges _ refl
            (max_id-update (enabled_with old) (disable clock) db.badges (λ c. refl))
            (update-IsRevoked id (enabled_with old) (disable clock) db.badges (λ c. refl)
              (λ c _ _ _. (refl, refl)) h)))
      h)
apply-IsRevoked id x faults ip clock (lost badge user) db h = guarded id _ db _ h (
    transaction-IsRevoked id faults db (lost_body faults badge user ip clock)
      (λ b after e. rw (lost-ok faults badge user ip clock db after b e) (
        update-IsRevoked id (enabled_of badge user) (lose clock) db.badges (λ c. refl)
          (λ c _ d k. (refl, (d k).1)) h))
      h)
apply-IsRevoked id x faults ip clock (activate badge user) db h = guarded id _ db _ h (
    transaction-IsRevoked id faults db (activate_body faults badge user ip)
      (λ u after e. rw (activate-ok faults badge user ip db after e) (
        update-IsRevoked id (pending_of badge user) activated db.badges (λ c. refl)
          (λ c p d k. absurd (ground (arith, p, d k))) h))
      h)
apply-IsRevoked id x faults ip clock (withdraw badge) db h = withdrawn (faults 0) (
    update-IsRevoked id (has_id badge) (disable clock) db.badges (λ c. refl)
      (λ c _ _ _. (refl, refl)) h)
  where
    withdrawn :
        (down : Bool)
        → IsRevoked id (update (has_id badge) (disable clock) db.badges)
        → IsRevoked id
            (if◌then◌else◌ {A = Database × Result (Unit {0})} down
              (db, err driver)
              (set_badges db (update (has_id badge) (disable clock) db.badges), ok tt)).0.badges
    withdrawn true k = h
    withdrawn false k = k
apply-IsRevoked id x faults ip clock (create_audited user hash desc) db h = guarded id _ db _ h (
    transaction-IsRevoked id faults db (audited_create_body x faults user hash desc ip)
      (λ b after e.
        let (inserted, made, same) = audited_create-ok x faults user hash desc ip db after b e in
        rw (same, insert-ok (faults 3) (new_badge x user hash desc db) db inserted made)
          (fresh-IsRevoked id (new_badge x user hash desc db) db.badges db.badges refl refl h))
      h)
apply-IsRevoked id x faults ip clock (replace_audited old hash desc) db h = guarded id _ db _ h (
    transaction-IsRevoked id faults db (audited_replace_body x faults old hash desc ip clock)
      (λ b after e.
        let (_, inserted, made, same) =
          audited_replace-ok x faults old hash desc ip clock db after b e in
        rw (same, insert-ok (faults 5) _ _ inserted made)
          (fresh-IsRevoked id _ db.badges _ refl
            (max_id-update (enabled_with old) (disable clock) db.badges (λ c. refl))
            (update-IsRevoked id (enabled_with old) (disable clock) db.badges (λ c. refl)
              (λ c _ _ _. (refl, refl)) h)))
      h)
apply-IsRevoked id x faults ip clock (withdraw_audited badge) db h = guarded id _ db _ h (
    transaction-IsRevoked id faults db (audited_revoke_body faults badge ip clock)
      (λ u after e. rw (audited_revoke-ok faults badge ip clock db after e) (
        update-IsRevoked id (enabled_with badge) (disable clock) db.badges (λ c. refl)
          (λ c _ _ _. (refl, refl)) h))
      h)
apply-IsRevoked id x faults ip clock (authenticate badge client) db h = guarded id _ db _ h (
    transaction-IsRevoked id faults db (success_body faults badge client ip clock)
      (λ u after e. rw (success-ok faults badge client ip clock db after e).0 (
        update-IsRevoked id (enabled_with badge) (used clock) db.badges (λ c. refl) (λ c _ d k. d k)
          h))
      h)

pub record Step : Type 0 where
  pub faults : Faults
  pub ip : Text
  pub clock : ℕ
  pub operation : Operation

unfoldable pub run : Externals → List Step → Database → Database
run x [] db = db
run x (s ∷ steps) db = run x steps (apply x s.faults s.ip s.clock s.operation db)

run-IsRevoked :
    (id : ℕ) (x : Externals) (steps : List Step) (db : Database)
    → IsRevoked id db.badges
    → IsRevoked id (run x steps db).badges
unfolding run
run-IsRevoked id x [] db h = h
run-IsRevoked id x (s ∷ steps) db h =
    run-IsRevoked id x steps (apply x s.faults s.ip s.clock s.operation db)
      (apply-IsRevoked id x s.faults s.ip s.clock s.operation db h)

update-dead :
    (id clock : ℕ) (badges : List Badge)
    → All (DeadRow id) (update (has_id id) (disable clock) badges)
unfolding update
update-dead id clock [] = tt
update-dead id clock (b ∷ bs) = (ground arith, update-dead id clock bs)

revoke-IsRevoked :
    (id clock : ℕ) (faults : Faults) (db : Database)
    → id ≤ max_id db.badges
    → (revoke faults id clock db).1 ≡ ok tt
    → IsRevoked id (revoke faults id clock db).0.badges
unfolding revoke
revoke-IsRevoked id clock faults db given h = elim (Bool-cases (faults 0)) [
  | inl t ↦ absurd (ground (arith, t))
  | inr t ↦ rw t (record {
    given = rw (max_id-update (has_id id) (disable clock) db.badges (λ b. refl)) given;
    dead = update-dead id clock db.badges;
  })
]

none_enabled :
    (id : ℕ) (badges : List Badge) → All (DeadRow id) badges → count (enabled_with id) badges ≡ 0
unfolding count
none_enabled id [] h = refl
none_enabled id (b ∷ bs) h = ground (arith, h.0, none_enabled id bs h.1)

revoke_body_final :
    (id clock : ℕ) (x : Externals) (faults last : Faults) (steps : List Step) (client ip : Text)
    (later : ℕ) (db after : Database)
    → id ≤ max_id db.badges
    → (revoke faults id clock db).1 ≡ ok tt
    → success_body last id client ip later (run x steps (revoke faults id clock db).0)
      ≢ ok (tt, after)
revoke_body_final id clock x faults last steps client ip later db after given h e =
    let final = run x steps (revoke faults id clock db).0 in
    let kept =
      run-IsRevoked id x steps (revoke faults id clock db).0
        (revoke-IsRevoked id clock faults db given h) in
    let (_, one) = success-ok last id client ip later final after e in
    let zero_rows = none_enabled id final.badges kept.dead in absurd (omega (arith, one, zero_rows))

replace_body_pending :
    (x : Externals) (faults : Faults) (old : ℕ) (hash desc : Text) (clock : ℕ) (db after : Database)
    → replace_body x faults old hash desc clock db ≡ ok (tt, after)
    → (b new : Badge) × (find (enabled_with old) db.badges ≡ some b)
      × (after.badges ≡ new ∷ update (enabled_with old) (disable clock) db.badges)
      × (new.user_id ≡ b.user_id)
      × (new.enabled ≡ false)
      × (new.activation_pending ≡ true)
      × (new.id ≡ max_id db.badges + 1)
      × (count (enabled_with old) after.badges ≡ 0)
unfolding count
replace_body_pending x faults old hash desc clock db after h =
    let (b, found, i) = replace-ok x faults old hash desc clock db after h in
    let new = record (new_badge x b.user_id hash desc db) {
      enabled = false;
      activation_pending = true;
    } in
    let rows = insert-ok (faults 5) _ _ after i in
    let zero_rows =
      count-update_none (enabled_with old) (disable clock) (enabled_with old) db.badges
        (λ c. ground arith) in
    (b, new, found, rows, refl, refl, refl, refl, rw rows (ground (arith, zero_rows)))

record-ok :
    (x : Externals) (faults : Faults) (id : ℕ) (client ip : Text) (clock : ℕ) (db : Database)
    → (record_badge_authentication_success x faults id client ip clock db).1 ≡ ok tt
    → (after : Database) × (success_body faults id client ip clock db ≡ ok (tt, after))
      × ((record_badge_authentication_success x faults id client ip clock db).0 ≡ after)
unfolding record_badge_authentication_success
record-ok x faults id client ip clock db h = ground arith

-- Once a badge that was given out is revoked, no later history of badges being created, replaced,
-- reported lost, activated, revoked or used,
-- with or without an audit entry, with any driver failures, ends in a database in which
-- an authentication with that badge is recorded as a success.
pub revoke_final :
    (id clock : ℕ) (x : Externals) (faults last : Faults) (steps : List Step) (client ip : Text)
    (later : ℕ) (db : Database)
    → id ≤ max_id db.badges
    → (revoke faults id clock db).1 ≡ ok tt
    → (record_badge_authentication_success x last id client ip later
        (run x steps (revoke faults id clock db).0)).1
      ≢ ok tt
revoke_final id clock x faults last steps client ip later db given h e =
    let final = run x steps (revoke faults id clock db).0 in
    let (after, w, _) = record-ok x last id client ip later final e in
    revoke_body_final id clock x faults last steps client ip later db after given h w

replaced-ok :
    (x : Externals) (faults : Faults) (old : ℕ) (hash desc : Text) (clock : ℕ) (db : Database)
    (b : Badge)
    → (replace_badge_pending x faults old hash desc clock db).1 ≡ ok b
    → (after : Database) × (replace_body x faults old hash desc clock db ≡ ok (tt, after))
      × ((replace_badge_pending x faults old hash desc clock db).0 ≡ after)
unfolding replace_badge_pending read_back
replaced-ok x faults old hash desc clock db b h = ground arith

-- A replacement that succeeds leaves the old badge revoked and adds a badge of the same user, with
-- a new number, that is not enabled and waits for activation.
pub replace_pending :
    (x : Externals) (faults : Faults) (old : ℕ) (hash desc : Text) (clock : ℕ) (db : Database)
    (answer : Badge)
    → (replace_badge_pending x faults old hash desc clock db).1 ≡ ok answer
    → let rows = (replace_badge_pending x faults old hash desc clock db).0.badges in
      (b new : Badge) × (find (enabled_with old) db.badges ≡ some b)
      × (rows ≡ new ∷ update (enabled_with old) (disable clock) db.badges)
      × (new.user_id ≡ b.user_id)
      × (new.enabled ≡ false)
      × (new.activation_pending ≡ true)
      × (new.id ≡ max_id db.badges + 1)
      × (count (enabled_with old) rows ≡ 0)
replace_pending x faults old hash desc clock db answer h =
    let (after, w, same) = replaced-ok x faults old hash desc clock db answer h in
    let (b, new, found, rows, user, off, waits, id, gone) =
      replace_body_pending x faults old hash desc clock db after w in
    (b, new, found, rw same rows, user, off, waits, id, rw same gone)
