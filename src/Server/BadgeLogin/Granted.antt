-- ===== src/Server/BadgeLogin/Granted.antt =====
-- When a badge login is granted, and what it leaves.
use stumpfworks_identity.Base.{
  if◌then◌else◌, ℕ, ◌≡◌, sym, ap, subst, ◌∙◌, ◌⊎◌, inl, inr, Bool, true, none, some, List, [],
  arith, Text, Option-cases, Error, ok, Result-cases, err, Faults,
}
use stumpfworks_identity.Store.Schema.{User, Badge, Database, insert_audit}
use stumpfworks_identity.Auth.Badge.{verify_token}
use stumpfworks_identity.Store.Badges.{badge_by_code, record_badge_authentication_success}
use stumpfworks_identity.Server.Grants.{save_login_grant}
use stumpfworks_identity.Server.Limiter.{failures_allowed}
use stumpfworks_identity.Server.BadgeLogin.{
  Reason, AuthRequest, denied, granted, State, Outside, owner_of, check_pin, check_badge,
  failure_entry, deny, accept, decide, auth,
}

pin-ok :
    (o : Outside) (r : AuthRequest) (hash : Text) (now : ℕ) (attempts : List ℕ)
    → (check_pin o r hash now attempts).1 ≡ none
    → (hash ≡ []) ⊎ ((o.verify_pin r.pin hash ≡ true) × ((failures_allowed now attempts).1 ≡ true))
unfolding check_pin
pin-ok o r hash now attempts h = ground arith

check-ok :
    (o : Outside) (r : AuthRequest) (now : ℕ) (db : Database) (b : Badge) (attempts : List ℕ)
    (u : User)
    → owner_of db b ≡ some u
    → (check_badge o r now db b attempts).1 ≡ none
    → (b.enabled ≡ true)
      × (verify_token o.primitives r.token b.token_hash ≡ true)
      × ((check_pin o r u.pin_hash now attempts).1 ≡ none)
unfolding check_badge
check-ok o r now db b attempts u w h = ground arith

accept-ok :
    (o : Outside) (faults : Faults) (r : AuthRequest) (ip : Text) (now clock : ℕ) (b : Badge)
    (u : User) (s : State) (name token : Text)
    → (accept o faults r ip now clock b u s).1 ≡ granted name token
    → (name ≡ u.username)
      × ((record_badge_authentication_success o.store faults b.id r.client_id ip clock s.database).1
          ≡ ok tt)
      × ((accept o faults r ip now clock b u s).0.grants
          ≡ save_login_grant token u.username r.client_id now s.grants)
      × ((accept o faults r ip now clock b u s).0.database
          ≡ (record_badge_authentication_success o.store faults b.id r.client_id ip clock
              s.database).0)
unfolding accept
accept-ok o faults r ip now clock b u s name token h = ground arith

-- What auth answers with `granted` has passed.
pub record Passed (o : Outside) (r : AuthRequest) (now : ℕ) (s : State) (name : Text) (b : Badge)
    (u : User) : Type 0 where
  pub owner : owner_of s.database b ≡ some u
  pub named : name ≡ u.username
  pub is_enabled : b.enabled ≡ true
  pub verified : verify_token o.primitives r.token b.token_hash ≡ true
  pub pin :
      (u.pin_hash ≡ [])
      ⊎ ((o.verify_pin r.pin u.pin_hash ≡ true) × ((failures_allowed now s.pin_attempts).1 ≡ true))

-- What is left once the grant is given: the success is in the database, and the grant in memory.
abbrev pub Left :
    Outside → Faults → AuthRequest → Text → ℕ → ℕ → State → Badge → User → Text → State → Type 0
Left o faults r ip now clock s b u token after =
    ((record_badge_authentication_success o.store faults b.id r.client_id ip clock s.database).1
      ≡ ok tt)
    × (after.grants ≡ save_login_grant token u.username r.client_id now s.grants)
    × (after.database
        ≡ (record_badge_authentication_success o.store faults b.id r.client_id ip clock
            s.database).0)

decide-none :
    (o : Outside) (reading faults : Faults) (r : AuthRequest) (ip : Text) (now clock : ℕ)
    (b : Badge) (s : State) (name token : Text)
    → (decide o reading faults r ip now clock b s).1 ≡ granted name token
    → ¬ (owner_of s.database b ≡ none)
unfolding decide
decide-none o reading faults r ip now clock b s name token h w = ground arith

decide-checked :
    (o : Outside) (reading faults : Faults) (r : AuthRequest) (ip : Text) (now clock : ℕ)
    (b : Badge) (s : State) (name token : Text) (u : User)
    → owner_of s.database b ≡ some u
    → (decide o reading faults r ip now clock b s).1 ≡ granted name token
    → ((check_badge o r now s.database b s.pin_attempts).1 ≡ none)
      × (decide o reading faults r ip now clock b s
          ≡ accept o faults r ip now clock b u
              (record s { pin_attempts = (check_badge o r now s.database b s.pin_attempts).0 }))
unfolding decide
decide-checked o reading faults r ip now clock b s name token u w h = ground arith

auth-found :
    (o : Outside) (reading faults : Faults) (r : AuthRequest) (ip : Text) (now clock : ℕ)
    (s : State) (name token : Text)
    → (auth o reading faults r ip now clock s).1 ≡ granted name token
    → ((b : Badge) × (badge_by_code reading r.badge_id s.database ≡ ok b)
        × (auth o reading faults r ip now clock s ≡ decide o reading faults r ip now clock b s))
unfolding auth
auth-found o reading faults r ip now clock s name token h = ground arith

decide-granted :
    (o : Outside) (reading faults : Faults) (r : AuthRequest) (ip : Text) (now clock : ℕ)
    (b : Badge) (s : State) (name token : Text)
    → (decide o reading faults r ip now clock b s).1 ≡ granted name token
    → ((u : User) × Passed o r now s name b u
        × Left o faults r ip now clock s b u token (decide o reading faults r ip now clock b s).0)
decide-granted o reading faults r ip now clock b s name token h =
    elim (Option-cases (owner_of s.database b)) [
      | inl w ↦ absurd (decide-none o reading faults r ip now clock b s name token h w)
      | inr (u, w) ↦
          (let (passed, same) =
              decide-checked o reading faults r ip now clock b s name token u w h in
            let (enabled, verified, pin) =
              check-ok o r now s.database b s.pin_attempts u w passed in
            let (named, recorded, grants, database) =
              accept-ok o faults r ip now clock b u
                (record s { pin_attempts = (check_badge o r now s.database b s.pin_attempts).0 })
                name token (ap (λ x. x.1) (sym same) ∙ h) in
            (
              u,
              record {
                owner = w;
                named = named;
                is_enabled = enabled;
                verified = verified;
                pin = pin-ok o r u.pin_hash now s.pin_attempts pin;
              },
              (
                recorded,
                ap (λ x. x.0.grants) same ∙ grants,
                ap (λ x. x.0.database) same ∙ database,
              ),
            ))
    ]

-- When auth answers `granted`, the badge was found by its code, it is enabled and its token was
-- verified, its owner exists and is the user that is named, a PIN was verified under the limit of
-- attempts if the owner has one; and the success is recorded in the database with no error, and the
-- grant is saved under the token for that user and client.
pub auth-granted :
    (o : Outside) (reading faults : Faults) (r : AuthRequest) (ip : Text) (now clock : ℕ)
    (s : State) (name token : Text)
    → (auth o reading faults r ip now clock s).1 ≡ granted name token
    → (b : Badge) × (u : User) × (badge_by_code reading r.badge_id s.database ≡ ok b)
      × Passed o r now s name b u
      × Left o faults r ip now clock s b u token (auth o reading faults r ip now clock s).0
auth-granted o reading faults r ip now clock s name token h =
    let (b, found, same) = auth-found o reading faults r ip now clock s name token h in
    let (u, passed, (recorded, grants, database)) =
      decide-granted o reading faults r ip now clock b s name token
        (ap (λ x. x.1) (sym same) ∙ h) in
    (
      b,
      u,
      found,
      passed,
      (recorded, ap (λ x. x.0.grants) same ∙ grants, ap (λ x. x.0.database) same ∙ database),
    )

-- What a denial leaves: the grants as they were, and the failure in the audit unless the driver fails.
abbrev pub Denied : Bool → AuthRequest → Text → Reason → State → State → Type 0
Denied fault r ip reason s after =
    (after.grants ≡ s.grants)
    × (after.database
        ≡ (if fault then s.database else insert_audit (failure_entry r ip reason) s.database))

decide-denied :
    (o : Outside) (reading faults : Faults) (r : AuthRequest) (ip : Text) (now clock : ℕ)
    (b : Badge) (s : State) (reason : Reason)
    → (decide o reading faults r ip now clock b s).1 ≡ denied reason
    → Denied (reading 1) r ip reason s (decide o reading faults r ip now clock b s).0
unfolding decide accept
decide-denied o reading faults r ip now clock b s reason h = ground arith

auth-err :
    (o : Outside) (reading faults : Faults) (r : AuthRequest) (ip : Text) (now clock : ℕ)
    (s : State) (reason : Reason) (e : Error)
    → badge_by_code reading r.badge_id s.database ≡ err e
    → (auth o reading faults r ip now clock s).1 ≡ denied reason
    → auth o reading faults r ip now clock s ≡ deny (reading 1) r ip reason s
unfolding auth
auth-err o reading faults r ip now clock s reason e w h = ground arith

auth-known :
    (o : Outside) (reading faults : Faults) (r : AuthRequest) (ip : Text) (now clock : ℕ)
    (s : State) (reason : Reason) (b : Badge)
    → badge_by_code reading r.badge_id s.database ≡ ok b
    → (auth o reading faults r ip now clock s).1 ≡ denied reason
    → auth o reading faults r ip now clock s ≡ decide o reading faults r ip now clock b s
unfolding auth
auth-known o reading faults r ip now clock s reason b w h = ground arith

deny-Denied :
    (fault : Bool) (r : AuthRequest) (ip : Text) (reason : Reason) (s : State)
    → Denied fault r ip reason s (deny fault r ip reason s).0
deny-Denied fault r ip reason s = ground arith

-- When auth answers `denied`, no grant was added or removed, and unless the driver failed the
-- database has one more audit entry, of the failure with its reason, and no other change.
pub auth-denied :
    (o : Outside) (reading faults : Faults) (r : AuthRequest) (ip : Text) (now clock : ℕ)
    (s : State) (reason : Reason)
    → (auth o reading faults r ip now clock s).1 ≡ denied reason
    → Denied (reading 1) r ip reason s (auth o reading faults r ip now clock s).0
auth-denied o reading faults r ip now clock s reason h =
    elim (Result-cases (badge_by_code reading r.badge_id s.database)) [
      | inl (b, w) ↦
          (let same = auth-known o reading faults r ip now clock s reason b w h in
            subst (λ x. Denied (reading 1) r ip reason s x.0) (sym same)
              (decide-denied o reading faults r ip now clock b s reason
                (ap (λ x. x.1) (sym same) ∙ h)))
      | inr (e, w) ↦
          subst (λ x. Denied (reading 1) r ip reason s x.0)
            (sym (auth-err o reading faults r ip now clock s reason e w h))
            (deny-Denied (reading 1) r ip reason s)
    ]
