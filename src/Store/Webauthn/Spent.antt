-- ===== src/Store/Webauthn/Spent.antt =====
-- What stays as it is in every history: a completed ceremony, a revoked passkey, a counter reached.
use stumpfworks_identity.Store.Schema.{WebauthnCeremony, WebauthnCredential, Database}
use stumpfworks_identity.Base.{
  ℕ, ◌≤◌, ◌≡◌, subst, ◌∙◌, inl, inr, true, false, List, arith, Text, text_eq_sound, text_eq, All,
  count, any, count_of_any-false, count-update-le, All-update, any-false_of_weaker, any-update,
  Bool-cases,
}
use stumpfworks_identity.Store.Oidc.{Externals}
use stumpfworks_identity.Store.Webauthn.Validation.{valid_webauthn_sign_count}
use stumpfworks_identity.Store.Webauthn.{ceremony_with, unconsumed, completed}
use stumpfworks_identity.Store.Webauthn.Passkeys.{
  credential_with, credential_clashes, unrevoked, revocable, withdrawn, counted_at, signed,
}
use stumpfworks_identity.Store.Webauthn.Changes.{
  CeremonyChange, PasskeyChange, same, begun, finished, unchanged, registered, ended, advanced,
}
use stumpfworks_identity.Store.Webauthn.History.{Step, run, run-keeps}

-- The ceremony is there and is not waiting.
abbrev pub Completed : Text → List WebauthnCeremony → Type 0
Completed id rows = (any (ceremony_with id) rows ≡ true) × (count (unconsumed id) rows ≡ 0)

change-Completed :
    (id : Text) (rows after : List WebauthnCeremony)
    → CeremonyChange rows after
    → Completed id rows
    → Completed id after
unfolding any count
change-Completed id _ _ (same rows) h = h
change-Completed id _ _ (begun c rows fresh) h = elim (Bool-cases (text_eq c.id id)) [
  | inl t ↦
      let missing =
        subst (λ i. any (ceremony_with i) rows ≡ false) (text_eq_sound c.id id t) fresh in
      absurd (ground (arith, missing, h.0))
  | inr t ↦ ground (arith, t)
]
change-Completed id _ _ (finished other now rows) h =
    let le =
      count-update-le (unconsumed other) (completed now) (unconsumed id) rows (λ c. ground arith) in
    let there =
      any-update (unconsumed other) (completed now) (ceremony_with id) rows (λ c. ground arith) in
    (there ∙ h.0, omega (arith, le, h.1))

pub run-Completed :
    (id : Text) (x : Externals) (steps : List Step) (db : Database)
    → Completed id db.webauthn_ceremonies
    → Completed id (run x steps db).webauthn_ceremonies
run-Completed id x steps db h =
    run-keeps (λ d. Completed id d.webauthn_ceremonies)
      (λ d after c. change-Completed id d.webauthn_ceremonies after.webauthn_ceremonies c.0) x steps
      db h

-- The passkey is there and is revoked.
abbrev pub Withdrawn : Text → List WebauthnCredential → Type 0
Withdrawn id rows = (any (credential_with id) rows ≡ true) × (count (unrevoked id) rows ≡ 0)

-- A registered passkey has an identifier of its own.
registered-differs :
    (id : Text) (c : WebauthnCredential) (rows : List WebauthnCredential)
    → any (credential_clashes c) rows ≡ false
    → any (credential_with id) rows ≡ true
    → credential_with id c ≡ false
registered-differs id c rows fresh h = elim (Bool-cases (text_eq c.credential_id id)) [
  | inr t ↦ t
  | inl t ↦
      let missing =
        subst (λ i. any (credential_with i) rows ≡ false) (text_eq_sound c.credential_id id t)
          (any-false_of_weaker (credential_with c.credential_id) (credential_clashes c) rows
            (λ r. ground arith) fresh) in
      absurd (ground (arith, missing, h))
]

change-Withdrawn :
    (id : Text) (rows after : List WebauthnCredential)
    → PasskeyChange rows after
    → Withdrawn id rows
    → Withdrawn id after
unfolding any count
change-Withdrawn id _ _ (unchanged rows) h = h
change-Withdrawn id _ _ (registered c rows fresh) h =
    let other = registered-differs id c rows fresh h.0 in ground (arith, other)
change-Withdrawn id _ _ (ended m user now rows) h =
    let le =
      count-update-le (revocable m user) (withdrawn now) (unrevoked id) rows (λ c. ground arith) in
    let there =
      any-update (revocable m user) (withdrawn now) (credential_with id) rows (λ c. ground arith) in
    (there ∙ h.0, omega (arith, le, h.1))
change-Withdrawn id _ _ (advanced new previous now rows valid) h =
    let le =
      count-update-le (counted_at new previous) (signed new now) (unrevoked id) rows
        (λ c. ground arith) in
    let there =
      any-update (counted_at new previous) (signed new now) (credential_with id) rows
        (λ c. ground arith) in
    (there ∙ h.0, omega (arith, le, h.1))

pub run-Withdrawn :
    (id : Text) (x : Externals) (steps : List Step) (db : Database)
    → Withdrawn id db.webauthn_credentials
    → Withdrawn id (run x steps db).webauthn_credentials
run-Withdrawn id x steps db h =
    run-keeps (λ d. Withdrawn id d.webauthn_credentials)
      (λ d after c. change-Withdrawn id d.webauthn_credentials after.webauthn_credentials c.1) x
      steps db h

-- The passkey is there and has counted to n at least.
abbrev pub AtLeast : ℕ → Text → WebauthnCredential → Type 0
AtLeast n id c = credential_with id c ≡ true → n ≤ c.sign_count

abbrev pub Reached : ℕ → Text → List WebauthnCredential → Type 0
Reached n id rows = (any (credential_with id) rows ≡ true) × All (AtLeast n id) rows

change-Reached :
    (n : ℕ) (id : Text) (rows after : List WebauthnCredential)
    → PasskeyChange rows after
    → Reached n id rows
    → Reached n id after
unfolding any counted_at valid_webauthn_sign_count
change-Reached n id _ _ (unchanged rows) h = h
change-Reached n id _ _ (registered c rows fresh) h =
    let other = registered-differs id c rows fresh h.0 in
    (ground (arith, h.0), (λ t. absurd (ground (arith, t, other)), h.1))
change-Reached n id _ _ (ended m user now rows) h = (
  any-update (revocable m user) (withdrawn now) (credential_with id) rows (λ c. ground arith) ∙ h.0,
  All-update (AtLeast n id) (revocable m user) (withdrawn now) rows (λ c _ k. k) h.1,
)
change-Reached n id _ _ (advanced new previous now rows valid) h = (
  any-update (counted_at new previous) (signed new now) (credential_with id) rows
        (λ c. ground arith)
      ∙ h.0,
  All-update (AtLeast n id) (counted_at new previous) (signed new now) rows
      (λ c chosen k t. let le = k t in ground (arith, chosen, valid, le)) h.1,
)

pub run-Reached :
    (n : ℕ) (id : Text) (x : Externals) (steps : List Step) (db : Database)
    → Reached n id db.webauthn_credentials
    → Reached n id (run x steps db).webauthn_credentials
run-Reached n id x steps db h =
    run-keeps (λ d. Reached n id d.webauthn_credentials)
      (λ d after c. change-Reached n id d.webauthn_credentials after.webauthn_credentials c.1) x
      steps db h

-- PRIMARY KEY(credential_id), over histories: an identifier that one row at most has stays so.
change-Single :
    (id : Text) (rows after : List WebauthnCredential)
    → PasskeyChange rows after
    → count (credential_with id) rows ≤ 1
    → count (credential_with id) after ≤ 1
unfolding count
change-Single id _ _ (unchanged rows) h = h
change-Single id _ _ (registered c rows fresh) h = elim (Bool-cases (text_eq c.credential_id id)) [
  | inr t ↦ ground (arith, t, h)
  | inl t ↦
      let missing =
        subst (λ i. any (credential_with i) rows ≡ false) (text_eq_sound c.credential_id id t)
          (any-false_of_weaker (credential_with c.credential_id) (credential_clashes c) rows
            (λ r. ground arith) fresh) in
      let absent = count_of_any-false (credential_with id) rows missing in ground (arith, t, absent)
]
change-Single id _ _ (ended m user now rows) h =
    let le =
      count-update-le (revocable m user) (withdrawn now) (credential_with id) rows
        (λ c. ground arith) in
    omega (arith, le, h)
change-Single id _ _ (advanced new previous now rows valid) h =
    let le =
      count-update-le (counted_at new previous) (signed new now) (credential_with id) rows
        (λ c. ground arith) in
    omega (arith, le, h)

pub run-Single :
    (id : Text) (x : Externals) (steps : List Step) (db : Database)
    → count (credential_with id) db.webauthn_credentials ≤ 1
    → count (credential_with id) (run x steps db).webauthn_credentials ≤ 1
run-Single id x steps db h =
    run-keeps (λ d. count (credential_with id) d.webauthn_credentials ≤ 1)
      (λ d after c. change-Single id d.webauthn_credentials after.webauthn_credentials c.1) x steps
      db h
