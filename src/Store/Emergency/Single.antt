-- ===== src/Store/Emergency/Single.antt =====
-- The session that a login opens, its end, and what holds of every stored grant.
use stumpfworks_identity.Base.{
  none, some, Bool, if◌then◌else◌, ltb, ℕ, ◌+◌, ◌*◌, ◌≤◌, ◌<◌, ◌≡◌, refl, ◌≢◌, true, false, List,
  [], ◌∷◌, arith, Text, text_eq_refl, All, find, any, update, find-update-none, find-update_same,
  All-update, find_sound, ok, Faults,
}
use stumpfworks_identity.Store.Schema.{
  EmergencyAdminGrant, Database, emergency_admin_login, insert_audit, is_null,
}
use stumpfworks_identity.Store.Emergency.{
  consumable, consumed, is_active, has_session, revocable, by_session_hash, audit_entry, minute,
  hour, create_emergency_admin_grant, consume_emergency_admin_grant, active_emergency_admin_session,
  revoke_emergency_admin, revoke_emergency_admin_session, Selector,
}

-- What a login that succeeds has done: one row was consumable, every such row is consumed now, and
-- one audit entry was added.
pub consume-ok :
    (faults : Faults) (token_hash session_hash : Text) (now : ℕ) (ip : Text) (db : Database)
    (grant : EmergencyAdminGrant)
    → (consume_emergency_admin_grant faults token_hash session_hash now ip db).1 ≡ ok grant
    → let after = (consume_emergency_admin_grant faults token_hash session_hash now ip db).0 in
      (row : EmergencyAdminGrant) × (find (consumable token_hash now) db.emergency_admin_grants
        ≡ some row)
      × (grant ≡ consumed session_hash now row)
      × (any (has_session session_hash) db.emergency_admin_grants ≡ false)
      × (after
          ≡ insert_audit (audit_entry emergency_admin_login ip) (record db {
            emergency_admin_grants =
                update
                  (consumable token_hash now)
                  (consumed session_hash now)
                  db.emergency_admin_grants;
          }))
unfolding consume_emergency_admin_grant
consume-ok faults token_hash session_hash now ip db grant h = ground arith

active_after :
    (token_hash session_hash : Text) (now later : ℕ) (row : EmergencyAdminGrant)
    → consumable token_hash now row ≡ true
    → later < row.expires_at
    → is_active session_hash later (consumed session_hash now row) ≡ true
active_after token_hash session_hash now later row c lt = ground (arith, text_eq_refl session_hash)

inactive_without :
    (session_hash : Text) (later : ℕ) (row : EmergencyAdminGrant)
    → has_session session_hash row ≡ false
    → is_active session_hash later row ≡ false
inactive_without session_hash later row h = ground arith

-- The session that a login grants is found again, as the grant that the login returned, at every
-- instant before the grant expires at which the driver call works.
pub active-consume :
    (faults working : Faults) (token_hash session_hash : Text) (now later : ℕ) (ip : Text)
    (db : Database) (grant : EmergencyAdminGrant)
    → (consume_emergency_admin_grant faults token_hash session_hash now ip db).1 ≡ ok grant
    → working 0 ≡ false
    → later < grant.expires_at
    → active_emergency_admin_session working session_hash later
        (consume_emergency_admin_grant faults token_hash session_hash now ip db).0
      ≡ ok grant
unfolding active_emergency_admin_session
active-consume faults working token_hash session_hash now later ip db grant h w lt =
    let (row, found, same, fresh, after) =
      consume-ok faults token_hash session_hash now ip db grant h in
    ground (
      arith,
      after,
      find-update_same (consumable token_hash now) (consumed session_hash now)
          (is_active session_hash later) (has_session session_hash) db.emergency_admin_grants row
          found fresh (inactive_without session_hash later)
          (active_after token_hash session_hash now later row
            (find_sound (consumable token_hash now) db.emergency_admin_grants row found)
            (ground (arith, same))),
    )

revoked_inactive :
    (session_hash : Text) (clock later : ℕ) (row : EmergencyAdminGrant)
    → clock ≤ later
    → is_active session_hash later (
        if revocable by_session_hash session_hash clock row
        then record row { revoked_at = some clock }
        else row)
      ≡ false
revoked_inactive session_hash clock later row le = ground arith

-- After a logout that succeeds the session is not active at any later instant.
pub active-revoke :
    (faults reading : Faults) (session_hash ip : Text) (clock later : ℕ) (db : Database)
    (found : EmergencyAdminGrant)
    → clock ≤ later
    → (revoke_emergency_admin_session faults session_hash ip clock db).1 ≡ ok tt
    → active_emergency_admin_session reading session_hash later
        (revoke_emergency_admin_session faults session_hash ip clock db).0
      ≢ ok found
unfolding revoke_emergency_admin_session active_emergency_admin_session
active-revoke faults reading session_hash ip clock later db found le h e = ground (
  arith,
  find-update-none (revocable by_session_hash session_hash clock)
      (λ row. record row { revoked_at = some clock }) (is_active session_hash later)
      db.emergency_admin_grants λ r. revoked_inactive session_hash clock later r le,
)

-- A grant that was consumed was consumed before it expired.
abbrev pub consumed_in_time : EmergencyAdminGrant → Bool
consumed_in_time row = elim row.consumed_at [ none ↦ true | some t ↦ ltb t row.expires_at ]

-- What holds of every stored grant: it lives for five minutes to one hour, has a session exactly if
-- it was consumed, and was consumed before it expired.
pub record IsSound (row : EmergencyAdminGrant) : Type 0 where
  pub lifetime :
      (row.created_at + 5 * minute ≤ row.expires_at) × (row.expires_at ≤ row.created_at + hour)
  pub paired : is_null row.session_hash ≡ is_null row.consumed_at
  pub in_time : consumed_in_time row ≡ true

abbrev pub AllSound : Database → Type 0
AllSound db = All IsSound db.emergency_admin_grants

pub create-AllSound :
    (faults : Faults) (grant : EmergencyAdminGrant) (ip : Text) (db : Database)
    → AllSound db
    → AllSound (create_emergency_admin_grant faults grant ip db).0
unfolding create_emergency_admin_grant
create-AllSound faults grant ip db h = ground arith

consumed-IsSound :
    (token_hash session_hash : Text) (now : ℕ) (row : EmergencyAdminGrant)
    → consumable token_hash now row ≡ true
    → IsSound row
    → IsSound (consumed session_hash now row)
consumed-IsSound token_hash session_hash now row c h = record {
  lifetime = h.lifetime;
  paired = refl;
  in_time = ground arith;
}

-- Logins and revocations keep every stored grant sound.
pub consume-AllSound :
    (faults : Faults) (token_hash session_hash : Text) (now : ℕ) (ip : Text) (db : Database)
    → AllSound db
    → AllSound (consume_emergency_admin_grant faults token_hash session_hash now ip db).0
unfolding consume_emergency_admin_grant
consume-AllSound faults token_hash session_hash now ip db h = ground (
  arith,
  All-update IsSound (consumable token_hash now) (consumed session_hash now)
      db.emergency_admin_grants (consumed-IsSound token_hash session_hash now) h,
)

pub revoke-AllSound :
    (faults : Faults) (column : Selector) (value ip : Text) (clock : ℕ) (db : Database)
    → AllSound db
    → AllSound (revoke_emergency_admin faults column value ip clock db).0
unfolding revoke_emergency_admin
revoke-AllSound faults column value ip clock db h = ground (
  arith,
  All-update IsSound (revocable column value clock) (λ row. record row { revoked_at = some clock })
      db.emergency_admin_grants
      (λ row _ s. record { lifetime = s.lifetime; paired = s.paired; in_time = s.in_time }) h,
)

-- The operations on grants, for histories of them.
pub data Operation : Type 0 where
  create : EmergencyAdminGrant → Text → Operation
  login : Text → Text → ℕ → Text → Operation
  revoke : Selector → Text → Text → ℕ → Operation

unfoldable pub apply : Faults × Operation → Database → Database
apply (faults, create grant ip) db = (create_emergency_admin_grant faults grant ip db).0
apply (faults, login token_hash session_hash now ip) db =
    (consume_emergency_admin_grant faults token_hash session_hash now ip db).0
apply (faults, revoke column value ip clock) db =
    (revoke_emergency_admin faults column value ip clock db).0

unfoldable pub run : List (Faults × Operation) → Database → Database
run [] db = db
run (step ∷ steps) db = run steps (apply step db)

apply-AllSound :
    (step : Faults × Operation) (db : Database) → AllSound db → AllSound (apply step db)
unfolding apply
apply-AllSound (faults, create grant ip) db h = create-AllSound faults grant ip db h
apply-AllSound (faults, login token_hash session_hash now ip) db h =
    consume-AllSound faults token_hash session_hash now ip db h
apply-AllSound (faults, revoke column value ip clock) db h =
    revoke-AllSound faults column value ip clock db h

-- Any history of grant creations, logins, revocations and logouts, with any driver failures, keeps
-- every stored grant sound: its lifetime is five minutes to one hour, it has a session exactly if
-- it was consumed, and it was consumed before it expired.
pub run-AllSound :
    (steps : List (Faults × Operation)) (db : Database) → AllSound db → AllSound (run steps db)
unfolding run
run-AllSound [] db h = h
run-AllSound (step ∷ steps) db h = run-AllSound steps (apply step db) (apply-AllSound step db h)
