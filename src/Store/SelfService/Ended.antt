-- ===== src/Store/SelfService/Ended.antt =====
-- Sessions that were ended.
use stumpfworks_identity.Store.Schema.{SelfServiceSession, Database}
use stumpfworks_identity.Base.{
  ℕ, ◌≤◌, ◌≡◌, sym, ◌∙◌, ◌≢◌, inl, inr, true, false, ◌&&◌, some, arith, Text, text_eq_sound, All,
  find, all, update, All-find, find_sound, All-update_each, Bool-cases, ok, Faults,
}
use stumpfworks_identity.Store.Oidc.{Externals}
use stumpfworks_identity.Store.SelfService.{
  owned_by, session_with, set_self_service, is_active, active_self_service_session, ended, is_other,
  revoke_other_self_service_sessions, revoke_self_service_session,
}

-- What the query of an active session finds among rows of which all have a property.
active-All :
    (x : Externals) (later : Faults) (id username : Text) (now : ℕ) (db : Database)
    (s : SelfServiceSession) (R : SelfServiceSession → Type 0)
    → All R db.self_service_sessions
    → active_self_service_session x later id username now db ≡ ok s
    → R s × (is_active x id username now s ≡ true)
unfolding active_self_service_session
active-All x later id username now db s R all h =
    let found : find (is_active x id username now) db.self_service_sessions ≡ some s =
      ground arith in
    (
      All-find R (is_active x id username now) db.self_service_sessions s found all,
      find_sound (is_active x id username now) db.self_service_sessions s found,
    )

-- After the other sessions of a user are ended, only the current one is active, whether the user
-- is named in capitals or not.
pub others_ended :
    (x : Externals) (faults later : Faults) (id username current : Text) (clock now ended : ℕ)
    (db : Database) (s : SelfServiceSession)
    → (revoke_other_self_service_sessions x faults username current clock db).1 ≡ ok ended
    → clock ≤ now
    → active_self_service_session x later id username now
        (revoke_other_self_service_sessions x faults username current clock db).0
      ≡ ok s
    → (id ≡ current) × (s.id ≡ current)
unfolding revoke_other_self_service_sessions is_other is_active
others_ended x faults later id username current clock now ended' db s h le k =
    elim (Bool-cases (faults 0)) [
      | inl e ↦ absurd (ground (arith, e))
      | inr e ↦
          let (only, chosen) =
            active-All x later id username now
              (set_self_service db
                (update (is_other x username current clock) (ended clock) db.self_service_sessions))
              s (λ r. (is_active x id username now r ≡ true) → (session_with current r ≡ true))
              (All-update_each (is_other x username current clock) (ended clock)
                (λ r. (is_active x id username now r ≡ true) → (session_with current r ≡ true))
                db.self_service_sessions (λ r j. ground (arith, j, le)))
              (rw e at k) in
          let mine = text_eq_sound s.id current (only chosen) in
          let asked = text_eq_sound s.id id (ground (arith, chosen)) in (sym asked ∙ mine, mine)
    ]

-- A session is not active after its sign-out.
pub signed_out :
    (x : Externals) (faults later : Faults) (id username : Text) (clock now : ℕ) (db : Database)
    (s : SelfServiceSession)
    → (revoke_self_service_session x faults id username clock db).1 ≡ ok tt
    → active_self_service_session x later id username now
        (revoke_self_service_session x faults id username clock db).0
      ≢ ok s
unfolding revoke_self_service_session is_active
signed_out x faults later id username clock now db s h k = elim (Bool-cases (faults 0)) [
  | inl e ↦ absurd (ground (arith, e))
  | inr e ↦
      let (only, chosen) =
        active-All x later id username now
          (set_self_service db (
            update (λ r. session_with id r && owned_by x username r) (ended clock)
              db.self_service_sessions))
          s (λ r. is_active x id username now r ≡ false)
          (All-update_each (λ r. session_with id r && owned_by x username r) (ended clock)
            (λ r. is_active x id username now r ≡ false) db.self_service_sessions
            (λ r. ground arith))
          (rw e at k) in
      ground (arith, only, chosen)
]
