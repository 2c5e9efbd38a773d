-- ===== src/Store/Badges/Rows.antt =====
-- internal/database/database.go and audit_mutations.go: what the statements on badges leave of a row
-- that was revoked.
use stumpfworks_identity.Base.{
  Result-cases, >>=-eq-ok, inl, inr, ℕ, ◌+◌, ◌≤◌, ◌≡◌, refl, inl, inr, Bool, true, false, some,
  List, [], ◌∷◌, arith, Text, All, find, count, update, All-update, Bool-cases, Result, ok, err,
  Faults, finish, transaction,
}
use stumpfworks_identity.Store.Schema.{User, Badge, Database}
use stumpfworks_identity.Store.Badges.Audited.{
  audited_create_body, audited_revoke_body, audited_replace_body,
}
use stumpfworks_identity.Store.Badges.{
  Externals, max_id, enabled_with, enabled_of, pending_of, set_badges, owner, insert_badge,
  new_badge, create_body, disable, replace_body, lose, lost_body, activated, activate_body, used,
  success_body,
}

-- The number was given out, and no row with it is enabled or waits for activation.
abbrev pub DeadRow : ℕ → Badge → Type 0
DeadRow id b = b.id ≡ id → (b.enabled ≡ false) × (b.activation_pending ≡ false)

pub record IsRevoked (id : ℕ) (badges : List Badge) : Type 0 where
  pub given : id ≤ max_id badges
  pub dead : All (DeadRow id) badges

pub max_id-update :
    (p : Badge → Bool) (f : Badge → Badge) (badges : List Badge)
    → ((b : Badge) → (f b).id ≡ b.id)
    → max_id (update p f badges) ≡ max_id badges
unfolding max_id update
max_id-update p f [] h = refl
max_id-update p f (b ∷ bs) h = ground (arith, h b, max_id-update p f bs h)

pub update-IsRevoked :
    (id : ℕ) (p : Badge → Bool) (f : Badge → Badge) (badges : List Badge)
    → ((b : Badge) → (f b).id ≡ b.id)
    → ((b : Badge) → p b ≡ true → DeadRow id b → DeadRow id (f b))
    → IsRevoked id badges
    → IsRevoked id (update p f badges)
update-IsRevoked id p f badges same keep h = record {
  given = rw (max_id-update p f badges same) h.given;
  dead = All-update (DeadRow id) p f badges keep h.dead;
}

pub insert-ok :
    (fault : Bool) (b : Badge) (db after : Database)
    → insert_badge fault b db ≡ ok after
    → after.badges ≡ b ∷ db.badges
unfolding insert_badge
insert-ok fault b db after h = ground arith

pub fresh-IsRevoked :
    (id : ℕ) (b : Badge) (badges rows : List Badge)
    → b.id ≡ max_id badges + 1
    → max_id rows ≡ max_id badges
    → IsRevoked id rows
    → IsRevoked id (b ∷ rows)
unfolding max_id
fresh-IsRevoked id b badges rows e m h = record {
  given = ground (arith, h.given);
  dead = (λ k. absurd (omega (arith, h.given)), h.dead);
}

-- A transaction keeps what its body keeps.
pub transaction-IsRevoked {ℓ} :
    {A : Type ℓ} (id : ℕ) (faults : Faults) (db : Database)
    (body : Database → Result (A × Database))
    → ((a : A) (after : Database) → body db ≡ ok (a, after) → IsRevoked id after.badges)
    → IsRevoked id db.badges
    → IsRevoked id (transaction faults db body).0.badges
transaction-IsRevoked {A = A} id faults db body k h = elim (Bool-cases (faults 0)) [
  | inl t ↦ rw t h
  | inr t ↦ rw t (finished (body db) (λ a after e. k a after e))
]
  where
    finished :
        (r : Result (A × Database))
        → ((a : A) (after : Database) → r ≡ ok (a, after) → IsRevoked id after.badges)
        → IsRevoked id (finish faults db r).0.badges
    finished (err e) j = h
    finished (ok (a, after)) j = elim (Bool-cases (faults 1)) [
      | inl c ↦ rw c h
      | inr c ↦ rw c (j a after refl)
    ]

pub create-ok :
    (x : Externals) (faults : Faults) (user : ℕ) (hash desc : Text) (db after : Database)
    → create_body x faults user hash desc db ≡ ok (tt, after)
    → insert_badge (faults 3) (new_badge x user hash desc db) db ≡ ok after
unfolding create_body
create-ok x faults user hash desc db after h = ground arith

pub replace-ok :
    (x : Externals) (faults : Faults) (old : ℕ) (hash desc : Text) (clock : ℕ) (db after : Database)
    → replace_body x faults old hash desc clock db ≡ ok (tt, after)
    → (b : Badge) × (find (enabled_with old) db.badges ≡ some b)
      × (insert_badge
            (faults 5)
            (record (new_badge x b.user_id hash desc db) {
              enabled = false;
              activation_pending = true;
            })
            (set_badges db (update (enabled_with old) (disable clock) db.badges))
          ≡ ok after)
unfolding replace_body
replace-ok x faults old hash desc clock db after h = ground arith

pub audited_create-ok :
    (x : Externals) (faults : Faults) (user : ℕ) (hash desc ip : Text) (db after : Database)
    (b : Badge)
    → audited_create_body x faults user hash desc ip db ≡ ok (b, after)
    → (inserted : Database) × (insert_badge (faults 3) (new_badge x user hash desc db) db
        ≡ ok inserted)
      × (after.badges ≡ inserted.badges)
unfolding audited_create_body
audited_create-ok x faults user hash desc ip db after b h =
    elim (Result-cases (insert_badge (faults 3) (new_badge x user hash desc db) db)) [
      | inl (inserted, w) ↦ (inserted, w, ground (arith, w))
      | inr (e, w) ↦ absurd (ground (arith, w))
    ]

pub audited_revoke-ok :
    (faults : Faults) (id : ℕ) (ip : Text) (clock : ℕ) (db after : Database)
    → audited_revoke_body faults id ip clock db ≡ ok (tt, after)
    → after.badges ≡ update (enabled_with id) (disable clock) db.badges
unfolding audited_revoke_body
audited_revoke-ok faults id ip clock db after h = ground arith

pub audited_replace-ok :
    (x : Externals) (faults : Faults) (old : ℕ) (hash desc ip : Text) (clock : ℕ)
    (db after : Database) (b : Badge)
    → audited_replace_body x faults old hash desc ip clock db ≡ ok (b, after)
    → (found : Badge × User) × (inserted : Database) × (insert_badge
          (faults 5)
          (record (new_badge x found.0.user_id hash desc db) {
            enabled = false;
            activation_pending = true;
          })
          (set_badges db (update (enabled_with old) (disable clock) db.badges))
        ≡ ok inserted)
      × (after.badges ≡ inserted.badges)
unfolding audited_replace_body
audited_replace-ok x faults old hash desc ip clock db after b h =
    let (found, w, rest) = >>=-eq-ok (owner faults 2 (enabled_with old) db) _ (b, after) h in
    elim (Result-cases (
      insert_badge (faults 5)
        (record (new_badge x found.0.user_id hash desc db) {
          enabled = false;
          activation_pending = true;
        })
        (set_badges db (update (enabled_with old) (disable clock) db.badges)))) [
          | inl (inserted, v) ↦ (found, inserted, v, ground (arith, v, rest))
          | inr (e, v) ↦ absurd (ground (arith, v, rest))
        ]

pub lost-ok :
    (faults : Faults) (id user : ℕ) (ip : Text) (clock : ℕ) (db after : Database) (b : Badge)
    → lost_body faults id user ip clock db ≡ ok (b, after)
    → after.badges ≡ update (enabled_of id user) (lose clock) db.badges
unfolding lost_body
lost-ok faults id user ip clock db after b h = ground arith

pub activate-ok :
    (faults : Faults) (id user : ℕ) (ip : Text) (db after : Database)
    → activate_body faults id user ip db ≡ ok (tt, after)
    → after.badges ≡ update (pending_of id user) activated db.badges
unfolding activate_body
activate-ok faults id user ip db after h = ground arith

pub success-ok :
    (faults : Faults) (id : ℕ) (client ip : Text) (clock : ℕ) (db after : Database)
    → success_body faults id client ip clock db ≡ ok (tt, after)
    → (after.badges ≡ update (enabled_with id) (used clock) db.badges)
      × (count (enabled_with id) db.badges ≡ 1)
unfolding success_body
success-ok faults id client ip clock db after h = ground arith
