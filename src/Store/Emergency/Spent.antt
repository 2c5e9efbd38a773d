-- ===== src/Store/Emergency/Spent.antt =====
-- internal/database/emergency_admin.go: an emergency token is good for one login.
use stumpfworks_identity.Base.{
  ℕ, ◌≤◌, ◌≡◌, ◌≢◌, refl, ◌∙◌, subst, Bool, true, false, some, List, [], ◌∷◌, arith, Text, text_eq,
  text_eq_sound, any, count, update, any-update, count-update-le, count-update_none, any_of_find,
  find_sound, any-false_of_weaker, find_of_count, inl, inr, Bool-cases, ok, Faults, if◌then◌else◌,
}
use stumpfworks_identity.Store.Schema.{EmergencyAdminGrant, Database}
use stumpfworks_identity.Store.Emergency.{
  clashes, consumable, consumed, revocable, Selector, create_emergency_admin_grant,
  consume_emergency_admin_grant, revoke_emergency_admin,
}
use stumpfworks_identity.Store.Emergency.Single.{
  consume-ok, Operation, create, login, revoke, apply, run,
}

abbrev pub has_token : Text → EmergencyAdminGrant → Bool
has_token token_hash row = text_eq row.token_hash token_hash

-- There is a grant of the token, and no such grant can be consumed at the instant.
abbrev pub Spent : Text → ℕ → Database → Type 0
Spent token_hash later db =
    (any (has_token token_hash) db.emergency_admin_grants ≡ true)
    × (count (consumable token_hash later) db.emergency_admin_grants ≡ 0)

-- An update that keeps the tokens and makes no grant consumable.
update-Spent :
    (token_hash : Text) (later : ℕ) (p : EmergencyAdminGrant → Bool)
    (f : EmergencyAdminGrant → EmergencyAdminGrant) (db : Database)
    → ((row : EmergencyAdminGrant) → (f row).token_hash ≡ row.token_hash)
    → ((row : EmergencyAdminGrant)
        → consumable token_hash later (f row) ≡ true
        → consumable token_hash later row ≡ true)
    → Spent token_hash later db
    → Spent token_hash later
        (record db { emergency_admin_grants = update p f db.emergency_admin_grants })
update-Spent token_hash later p f db same weaker h =
    let le =
      count-update-le p f (consumable token_hash later) db.emergency_admin_grants
        (λ row. ground (arith, weaker row)) in
    (
      any-update p f (has_token token_hash) db.emergency_admin_grants
            (λ row. ground (arith, same row))
          ∙ h.0,
      omega (arith, le, h.1),
    )

fresh-token :
    (token_hash : Text) (grant : EmergencyAdminGrant) (rows : List EmergencyAdminGrant)
    → any (has_token token_hash) rows ≡ true
    → any (clashes grant) rows ≡ false
    → text_eq grant.token_hash token_hash ≡ false
fresh-token token_hash grant rows h k = elim (Bool-cases (text_eq grant.token_hash token_hash)) [
  | inr other ↦ other
  | inl own ↦
      let nothing =
        any-false_of_weaker (has_token grant.token_hash) (clashes grant) rows
          (λ row e. ground (arith, e)) k in
      absurd (
        ground (
          arith,
          subst (λ t. any (has_token t) rows ≡ false)
              (text_eq_sound grant.token_hash token_hash own) nothing,
          h,
        ))
]

create-Spent :
    (faults : Faults) (token_hash : Text) (later : ℕ) (grant : EmergencyAdminGrant) (ip : Text)
    (db : Database)
    → Spent token_hash later db
    → Spent token_hash later (create_emergency_admin_grant faults grant ip db).0
unfolding create_emergency_admin_grant any count
create-Spent faults token_hash later grant ip db h =
    elim (Bool-cases (any (clashes grant) db.emergency_admin_grants)) [
      | inl clash ↦ ground (arith, clash, h)
      | inr free ↦
          let other = fresh-token token_hash grant db.emergency_admin_grants h.0 free in
          ground (arith, free, other, h)
    ]

login-Spent :
    (faults : Faults) (token_hash any_hash session_hash : Text) (now later : ℕ) (ip : Text)
    (db : Database)
    → Spent token_hash later db
    → Spent token_hash later
        (consume_emergency_admin_grant faults any_hash session_hash now ip db).0
unfolding consume_emergency_admin_grant
login-Spent faults token_hash any_hash session_hash now later ip db h =
    let after =
      update-Spent token_hash later (consumable any_hash now) (consumed session_hash now) db
        (λ row. refl) (λ row e. absurd (ground (arith, e))) h in
    ground (arith, h, after)

revoke-Spent :
    (faults : Faults) (token_hash : Text) (column : Selector) (value ip : Text) (clock later : ℕ)
    (db : Database)
    → Spent token_hash later db
    → Spent token_hash later (revoke_emergency_admin faults column value ip clock db).0
unfolding revoke_emergency_admin
revoke-Spent faults token_hash column value ip clock later db h =
    let after =
      update-Spent token_hash later (revocable column value clock)
        (λ row. record row { revoked_at = some clock }) db (λ row. refl)
        (λ row e. absurd (ground (arith, e))) h in
    ground (arith, h, after)

run-Spent :
    (token_hash : Text) (later : ℕ) (steps : List (Faults × Operation)) (db : Database)
    → Spent token_hash later db
    → Spent token_hash later (run steps db)
unfolding run apply
run-Spent token_hash later [] db h = h
run-Spent token_hash later ((faults, create grant ip) ∷ steps) db h =
    run-Spent token_hash later steps _ (create-Spent faults token_hash later grant ip db h)
run-Spent token_hash later ((faults, login any_hash session_hash now ip) ∷ steps) db h =
    run-Spent token_hash later steps _
      (login-Spent faults token_hash any_hash session_hash now later ip db h)
run-Spent token_hash later ((faults, revoke column value ip clock) ∷ steps) db h =
    run-Spent token_hash later steps _
      (revoke-Spent faults token_hash column value ip clock later db h)

still_consumed :
    (token_hash session_hash : Text) (now later : ℕ) (row : EmergencyAdminGrant)
    → now ≤ later
    → consumable token_hash later
        (if consumable token_hash now row then consumed session_hash now row else row)
      ≡ false
still_consumed token_hash session_hash now later row le = ground arith

-- A login spends the token for every later instant.
consume-Spent :
    (faults : Faults) (token_hash session_hash : Text) (now later : ℕ) (ip : Text) (db : Database)
    (grant : EmergencyAdminGrant)
    → now ≤ later
    → (consume_emergency_admin_grant faults token_hash session_hash now ip db).1 ≡ ok grant
    → Spent token_hash later
        (consume_emergency_admin_grant faults token_hash session_hash now ip db).0
consume-Spent faults token_hash session_hash now later ip db grant le h =
    let (row, found, _, _, after) = consume-ok faults token_hash session_hash now ip db grant h in
    let known =
      any_of_find (consumable token_hash now) (has_token token_hash) db.emergency_admin_grants row
        found
        (let sound = find_sound (consumable token_hash now) db.emergency_admin_grants row found in
          ground (arith, sound)) in
    rw after (
      any-update (consumable token_hash now) (consumed session_hash now) (has_token token_hash)
            db.emergency_admin_grants (λ r. ground arith)
          ∙ known,
      count-update_none (consumable token_hash now) (consumed session_hash now)
          (consumable token_hash later) db.emergency_admin_grants
          λ r. still_consumed token_hash session_hash now later r le,
    )

-- After a login with an emergency token, and after any history of grant creations, logins,
-- revocations and logouts, no login with the same token at that instant or later succeeds, whatever
-- session it asks for and whichever driver calls fail.
pub consume_once :
    (faults again : Faults) (token_hash first second : Text) (now later : ℕ) (ip ip' : Text)
    (steps : List (Faults × Operation)) (db : Database) (grant other : EmergencyAdminGrant)
    → now ≤ later
    → (consume_emergency_admin_grant faults token_hash first now ip db).1 ≡ ok grant
    → (consume_emergency_admin_grant again token_hash second later ip'
        (run steps (consume_emergency_admin_grant faults token_hash first now ip db).0)).1
      ≢ ok other
consume_once faults again token_hash first second now later ip ip' steps db grant other le h e =
    let final = run steps (consume_emergency_admin_grant faults token_hash first now ip db).0 in
    let spent =
      run-Spent token_hash later steps
        (consume_emergency_admin_grant faults token_hash first now ip db).0
        (consume-Spent faults token_hash first now later ip db grant le h) in
    let (row, found, _, _, _) = consume-ok again token_hash second later ip' final other e in
    let nothing =
      find_of_count (consumable token_hash later) final.emergency_admin_grants spent.1 in
    cc (found, nothing)
