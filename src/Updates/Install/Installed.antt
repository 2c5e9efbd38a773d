-- ===== src/Updates/Install/Installed.antt =====
-- What a successful installation puts in place, against a reference that writes the payload down.
use stumpfworks_identity.Base.{
  ℕ, ◌≡◌, refl, sym, ap, subst, ◌∙◌, ◌≢◌, inl, inr, Bool, true, false, Option, none, some, List, [],
  ◌∷◌, arith, Text, All, Result-cases, Bool-cases, Option-cases, ok, ◌>>=◌, >>=-eq-ok,
}
use stumpfworks_identity.Updates.Install.{
  StagedComponent, StagePlan, Content, Files, Call, Machine, Hashing, Ready, set_target,
  prepare_one, prepare_all, install_one, install_all, health,
}
use stumpfworks_identity.Updates.Install.Rollback.{
  create_rollback, publish, save_files, restore_rollback, installed, after_restoration,
  rollback_install_failure, finish_install, prepared_components, apply_ready, apply_plan,
  begin_transaction, write_update_transaction, checked_plan, install_plan, install_staged,
}
use stumpfworks_identity.Updates.Install.Restored.{prepare_one-ok, install_one-ok}
use stumpfworks_identity.Updates.Install.Outcome.{begin-keeps, create-ok}

abbrev pub new_content : StagedComponent → Text → Content
new_content c bytes = record { bytes = bytes; mode = c.mode }

abbrev pub payload_content : (Text → Option Text) → StagedComponent → Option Content
payload_content payload c = elim (payload c.component) [
  | none ↦ none
  | some bytes ↦ some (new_content c bytes)
]

-- The reference: every component's payload at its target, in the order of the plan.
unfoldable pub laid_out : (Text → Option Text) → List StagedComponent → Files → Files
laid_out payload [] files = files
laid_out payload (c ∷ cs) files =
    laid_out payload cs (set_target c.target (payload_content payload c) files)

-- The payload of the component is there, with the hash of the plan.
abbrev pub Verified : Hashing → (Text → Option Text) → StagedComponent → Type 0
Verified x payload c =
    (bytes : Text) × (payload c.component ≡ some bytes)
    × (x.equal_fold (x.digest bytes) c.sha256 ≡ true)

module _ (x : Hashing) (fails : Call → Bool) where
  installs-laid :
      (payload : Text → Option Text) (c : StagedComponent) (cs : List StagedComponent) (one : Ready)
      (rest : List Ready) (files : Files)
      → payload c.component ≡ some one.content.bytes
      → one.staged ≡ c
      → ((next : Files)
          → (install_all x fails rest next).1 ≡ true
          → (install_all x fails rest next).0 ≡ laid_out payload cs next)
      → (install_all x fails (one ∷ rest) files).1 ≡ true
      → (install_all x fails (one ∷ rest) files).0 ≡ laid_out payload (c ∷ cs) files
  unfolding install_all laid_out
  installs-laid payload c cs one rest files there named laid done =
      elim (Result-cases (install_one x fails one files)) [
        | inr (e, u) ↦ absurd (ground (arith, u))
        | inl (next, u) ↦
            let put : next ≡ set_target c.target (some (new_content c one.content.bytes)) files =
              install_one-ok x fails one files next u ∙ rw named refl in
            let written : payload_content payload c ≡ some (new_content c one.content.bytes) =
              ground (arith, there) in
            rw (u, install_all)
              (laid next (rw (u, install_all) at done)
                ∙ ap (laid_out payload cs)
                    (put ∙ ap (λ k. set_target c.target k files) (sym written)))
      ]

  prepare_all-Verified :
      (m : Machine) (cs : List StagedComponent) (rs : List Ready)
      → prepare_all x fails m cs ≡ ok rs
      → All (Verified x m.payload) cs
        × ((files : Files)
            → (install_all x fails rs files).1 ≡ true
            → (install_all x fails rs files).0 ≡ laid_out m.payload cs files)
  unfolding prepare_all install_all laid_out
  prepare_all-Verified m [] rs h =
      let same : rs ≡ [] = ground arith in (tt, λ files done. rw same refl)
  prepare_all-Verified m (c ∷ cs) rs h =
      let (one, w, more) =
        >>=-eq-ok (prepare_one x fails m c)
          (λ one. prepare_all x fails m cs >>= λ rest. ok (one ∷ rest)) rs h in
      let (rest, v, last) =
        >>=-eq-ok (prepare_all x fails m cs) (λ rest. ok (one ∷ rest)) rs more in
      let same : rs ≡ one ∷ rest = ground arith in
      let (named, there, moded, hashed) = prepare_one-ok x fails m c one w in
      let (all_verified, laid) = prepare_all-Verified m cs rest v in
      (
        ((one.content.bytes, there, hashed), all_verified),
        λ files done.
            rw same
              (installs-laid m.payload c cs one rest files there named laid (rw same at done)),
      )

module _ (x : Hashing) (fails : Call → Bool) (tracked : Bool) where
  after-fails :
      (m : Machine) (restored : Bool)
      → (after_restoration fails tracked (m, restored)).1 ≢ installed
  unfolding after_restoration
  after-fails m true h = ground arith
  after-fails m false h = ground arith

  rollback-fails : (m : Machine) → (rollback_install_failure x fails tracked m).1 ≢ installed
  unfolding rollback_install_failure
  rollback-fails m h =
      let restored = restore_rollback x fails m in after-fails restored.0 restored.1 h

  finish-installed :
      (m : Machine)
      → (finish_install x fails tracked m).1 ≡ installed
      → (fails health ≡ false) × ((finish_install x fails tracked m).0.targets ≡ m.targets)
  unfolding finish_install
  finish-installed m h = let failed = rollback-fails m in (ground arith, ground arith)

  apply-installed :
      (plan : StagePlan) (m : Machine)
      → (apply_plan x fails tracked plan m).1 ≡ installed
      → (fails health ≡ false)
        × All (Verified x m.payload) plan.components
        × ((apply_plan x fails tracked plan m).0.targets
            ≡ laid_out m.payload plan.components m.targets)
  unfolding apply_plan prepared_components apply_ready
  apply-installed plan m h = elim (Result-cases (prepared_components x fails plan m)) [
    | inr (e, w) ↦ absurd (rollback-fails m (rw (w, apply_plan) at h))
    | inl (ready, w) ↦
        let prepared : prepare_all x fails m plan.components ≡ ok ready = ground (arith, w) in
        let (verified, laid) = prepare_all-Verified x fails m plan.components ready prepared in
        let after = record m { targets = (install_all x fails ready m.targets).0 } in
        elim (Bool-cases (install_all x fails ready m.targets).1) [
          | inr e ↦ absurd (rollback-fails after (rw (w, e, apply_plan, apply_ready) at h))
          | inl e ↦
              let (healthy, left) =
                finish-installed after (rw (w, e, apply_plan, apply_ready) at h) in
              (healthy, verified, rw (w, e, apply_plan, apply_ready) (left ∙ laid m.targets e))
        ]
  ]

  begin-payload :
      (plan : StagePlan) (now : ℕ) (m : Machine)
      → (begin_transaction fails tracked plan now m).0.payload ≡ m.payload
  unfolding begin_transaction write_update_transaction
  begin-payload plan now m = ground arith

  create-payload :
      (plan : StagePlan) (m : Machine) → (create_rollback x fails plan m).0.payload ≡ m.payload
  unfolding create_rollback publish
  create-payload plan m = elim (Option-cases m.snapshot) [
    | inr (old, w) ↦ ground (arith, w)
    | inl w ↦ elim (Result-cases (save_files x fails m.targets [] plan.components)) [
      | inr (e, v) ↦ ground (arith, w, v)
      | inl (files, v) ↦ ground (arith, w, v)
    ]
  ]

  plan-installed :
      (now : ℕ) (plan : StagePlan) (m : Machine)
      → (install_plan x fails tracked now plan m).1 ≡ installed
      → (fails health ≡ false)
        × All (Verified x m.payload) plan.components
        × ((install_plan x fails tracked now plan m).0.targets
            ≡ laid_out m.payload plan.components m.targets)
  unfolding install_plan
  plan-installed now plan m h =
      let created = (create_rollback x fails plan m).0 in
      let begun = begin_transaction fails tracked plan now created in
      let (same, _) = begin-keeps x fails tracked plan now created in
      let kept = same ∙ create-ok x fails tracked plan m in
      let carried = begin-payload plan now created ∙ create-payload plan m in
      elim (Result-cases (create_rollback x fails plan m).1) [
        | inr (e, w) ↦ absurd (ground (arith, w))
        | inl (u, w) ↦ elim (Bool-cases begun.1) [
          | inr v ↦ absurd (ground (arith, w, v))
          | inl v ↦
              let (healthy, verified, laid) =
                apply-installed plan begun.0 (rw (w, v, install_plan) at h) in
              (
                healthy,
                subst (λ p. All (Verified x p) plan.components) carried verified,
                rw (w, v, install_plan)
                    (laid
                      ∙ ap (λ p. laid_out p plan.components begun.0.targets) carried
                      ∙ ap (laid_out m.payload plan.components) kept),
              )
        ]
      ]

-- An installation that succeeds had a plan that passed its checks and a payload with the hashes of
-- the plan, passed the health check, and leaves exactly the files that writing every component's
-- payload to its target gives.
pub install_installed :
    (x : Hashing) (fails : Call → Bool) (tracked allow_lightdm : Bool) (now : ℕ)
    (decoded : Option StagePlan) (m : Machine)
    → (install_staged x fails tracked allow_lightdm now decoded m).1 ≡ installed
    → (plan : StagePlan) × (checked_plan x fails allow_lightdm decoded m ≡ ok plan)
      × (fails health ≡ false)
      × All (Verified x m.payload) plan.components
      × ((install_staged x fails tracked allow_lightdm now decoded m).0.targets
          ≡ laid_out m.payload plan.components m.targets)
unfolding install_staged
install_installed x fails tracked allow_lightdm now decoded m h =
    elim (Result-cases (checked_plan x fails allow_lightdm decoded m)) [
      | inr (e, w) ↦ absurd (ground (arith, w))
      | inl (plan, w) ↦
          let (healthy, verified, laid) =
            plan-installed x fails tracked now plan m (rw (w, install_staged) at h) in
          (plan, w, healthy, verified, rw (w, install_staged) laid)
    ]
