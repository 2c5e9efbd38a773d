-- ===== src/Updates/Install/Recovered.antt =====
-- That an update which did not complete is undone by the next start.
use stumpfworks_identity.Base.{
  ℕ, ◌≡◌, refl, sym, ap, subst, ◌∙◌, inl, inr, Bool, true, false, Option, none, List, [], ◌∷◌,
  arith, Text, text_eq, All, any, Result-cases, Bool-cases, Option-cases, ok, transaction,
}
use stumpfworks_identity.Updates.Install.{
  StagePlan, Files, RollbackFile, Call, Machine, Hashing, Ready, install_all, prepare_all,
  recovery_lock, read_transaction,
}
use stumpfworks_identity.Updates.Install.Rollback.{
  create_rollback, checked_copies, restore_one, restore_all, restore_rollback, after_restoration,
  rollback_install_failure, finish_install, prepared_components, apply_ready, apply_plan,
  begin_transaction, checked_plan, install_plan, install_staged,
}
use stumpfworks_identity.Updates.Install.Restored.{
  at_path, staged_at, Saved, save_files-ok, restore_one-ok, restore_all-Saved, install_all-off,
  prepare_all-ok,
}
use stumpfworks_identity.Updates.Install.Outcome.{
  is_pending, Covered, checked-same, finish-cases, begin-keeps, create-ok, created-snapshot,
}
use stumpfworks_identity.Updates.Install.Recovery.{
  recovered, pending_rollback, after_restored, recover_transaction, recover_locked,
  recover_pending_update,
}

module _ (x : Hashing) (fails : Call → Bool) (tracked : Bool) where
  restore_all-off :
      (fs : List RollbackFile) (files : Files) (path : Text)
      → any (at_path path) fs ≡ false
      → (restore_all x fails fs files).0 path ≡ files path
  unfolding restore_all any
  restore_all-off [] files path off = refl
  restore_all-off (f ∷ fs) files path off = elim (Result-cases (restore_one x fails f files)) [
    | inr (e, w) ↦ rw (w, restore_all) refl
    | inl (next, w) ↦
        let here : text_eq path f.target ≡ false = ground arith in
        let later : any (at_path path) fs ≡ false = ground arith in
        rw (w, restore_all)
          (restore_all-off fs next path later
            ∙ rw (restore_one-ok x fails f files next w, here) refl)
  ]

  restore-Covered :
      (original : Files) (m : Machine)
      → Covered original m
      → Covered original (restore_rollback x fails m).0
  unfolding restore_rollback
  restore-Covered original m c = elim (Result-cases (checked_copies x fails m)) [
    | inr (e, w) ↦ rw (w, restore_rollback) c
    | inl (files, w) ↦
        let same = checked-same x fails tracked c.snap m files c.has w in
        rw (w, restore_rollback)
          (record {
            snap = c.snap;
            has = c.has;
            saved = c.saved;
            others = λ p out. restore_all-off files m.targets p (rw same out) ∙ c.others p out;
          })
  ]

  after-Covered :
      (original : Files) (m : Machine) (restored : Bool)
      → Covered original m
      → Covered original (after_restoration fails tracked (m, restored)).0
  unfolding after_restoration
  after-Covered original m false c = c
  after-Covered original m true c =
      let same : (after_restoration fails tracked (m, true)).0.targets ≡ m.targets = ground arith in
      let still : (after_restoration fails tracked (m, true)).0.snapshot ≡ m.snapshot =
        ground arith in
      record {
        snap = c.snap;
        has = still ∙ c.has;
        saved = c.saved;
        others = λ p out. ap (λ t. t p) same ∙ c.others p out;
      }

  rollback-Covered :
      (original : Files) (m : Machine)
      → Covered original m
      → Covered original (rollback_install_failure x fails tracked m).0
  unfolding rollback_install_failure
  rollback-Covered original m c =
      let restored = restore_rollback x fails m in
      after-Covered original restored.0 restored.1 (restore-Covered original m c)

  finish-Covered :
      (original : Files) (m : Machine)
      → Covered original m
      → is_pending (finish_install x fails tracked m).1 ≡ true
      → Covered original (finish_install x fails tracked m).0
  unfolding is_pending
  finish-Covered original m c h = elim (finish-cases x fails tracked m) [
    | inl e ↦ rw e (rollback-Covered original m c)
    | inr e ↦ absurd (ground (arith, e))
  ]

  apply-Covered :
      (original : Files) (ready : List Ready) (m : Machine)
      → m.targets ≡ original
      → (c : Covered original m)
      → ((p : Text)
          → any (λ (r : Ready). staged_at p r.staged) ready ≡ any (at_path p) c.snap.files)
      → is_pending (apply_ready x fails tracked ready m).1 ≡ true
      → Covered original (apply_ready x fails tracked ready m).0
  unfolding apply_ready
  apply-Covered original ready m same c paths h =
      let after = record m { targets = (install_all x fails ready m.targets).0 } in
      let covered : Covered original after = record {
        snap = c.snap;
        has = c.has;
        saved = c.saved;
        others =
            λ p out. install_all-off x fails ready m.targets p (paths p ∙ out) ∙ ap (λ t. t p) same;
      } in
      elim (Bool-cases (install_all x fails ready m.targets).1) [
        | inl e ↦
            rw (e, apply_ready) (finish-Covered original after covered (rw (e, apply_ready) at h))
        | inr e ↦ rw (e, apply_ready) (rollback-Covered original after covered)
      ]

  apply_plan-Covered :
      (plan : StagePlan) (m : Machine) (c : Covered m.targets m)
      → ((p : Text) → any (at_path p) c.snap.files ≡ any (staged_at p) plan.components)
      → is_pending (apply_plan x fails tracked plan m).1 ≡ true
      → Covered m.targets (apply_plan x fails tracked plan m).0
  unfolding apply_plan prepared_components
  apply_plan-Covered plan m c paths h = elim (Result-cases (prepared_components x fails plan m)) [
    | inr (e, w) ↦ rw (w, apply_plan) (rollback-Covered m.targets m c)
    | inl (ready, w) ↦
        let prepared : prepare_all x fails m plan.components ≡ ok ready = ground (arith, w) in
        rw (w, apply_plan)
          (apply-Covered m.targets ready m refl c
            (λ p. prepare_all-ok x fails m plan.components ready prepared p ∙ sym (paths p))
            (rw (w, apply_plan) at h))
  ]

  install_plan-Covered :
      (now : ℕ) (plan : StagePlan) (m : Machine)
      → is_pending (install_plan x fails tracked now plan m).1 ≡ true
      → Covered m.targets (install_plan x fails tracked now plan m).0
  unfolding install_plan is_pending
  install_plan-Covered now plan m h =
      let created = (create_rollback x fails plan m).0 in
      let begun = begin_transaction fails tracked plan now created in
      let (same, still) = begin-keeps x fails tracked plan now created in
      let kept = same ∙ create-ok x fails tracked plan m in
      elim (Result-cases (create_rollback x fails plan m).1) [
        | inr (e, w) ↦ absurd (ground (arith, w))
        | inl (u, w) ↦ elim (Bool-cases begun.1) [
          | inr v ↦ absurd (ground (arith, w, v))
          | inl v ↦
              let (snap, has, saved) = created-snapshot x fails tracked plan m w in
              let (all_saved, paths) =
                save_files-ok x fails m.targets [] plan.components snap.files saved in
              rw (w, v, install_plan)
                (subst (λ t. Covered t (apply_plan x fails tracked plan begun.0).0) kept
                  (apply_plan-Covered plan begun.0
                    (record {
                      snap = snap;
                      has = still ∙ has;
                      saved = subst (λ t. All (Saved t) snap.files) (sym kept) all_saved;
                      others = λ p out. refl;
                    })
                    paths (rw (w, v, install_plan) at h)))
        ]
      ]

install_staged-Covered :
    (x : Hashing) (fails : Call → Bool) (tracked allow_lightdm : Bool) (now : ℕ)
    (decoded : Option StagePlan) (m : Machine)
    → is_pending (install_staged x fails tracked allow_lightdm now decoded m).1 ≡ true
    → Covered m.targets (install_staged x fails tracked allow_lightdm now decoded m).0
unfolding install_staged is_pending
install_staged-Covered x fails tracked allow_lightdm now decoded m h =
    elim (Result-cases (checked_plan x fails allow_lightdm decoded m)) [
      | inr (e, w) ↦ absurd (ground (arith, w))
      | inl (plan, w) ↦
          rw (w, install_staged)
            (install_plan-Covered x fails tracked now plan m (rw (w, install_staged) at h))
    ]

restored-original :
    (x : Hashing) (fails : Call → Bool) (original : Files) (m : Machine) (path : Text)
    → Covered original m
    → (restore_rollback x fails m).1 ≡ true
    → (restore_rollback x fails m).0.targets path ≡ original path
unfolding restore_rollback
restored-original x fails original m path c h = elim (Result-cases (checked_copies x fails m)) [
  | inr (e, w) ↦ absurd (ground (arith, w))
  | inl (files, w) ↦
      let same = checked-same x fails true c.snap m files c.has w in
      rw (w, restore_rollback)
        (restore_all-Saved x fails original files m.targets path (rw same c.saved)
          (λ out. c.others path (rw same at out)) (rw (w, restore_rollback) at h))
]

after_restored-ok :
    (fails : Call → Bool) (m : Machine) (restored : Bool)
    → (after_restored fails (m, restored)).1 ≡ recovered
    → (restored ≡ true)
      × ((after_restored fails (m, restored)).0.targets ≡ m.targets)
      × ((after_restored fails (m, restored)).0.transaction ≡ none)
unfolding after_restored
after_restored-ok fails m false h = ground arith
after_restored-ok fails m true h = (refl, ground arith, ground arith)

-- What the next start restores is what the snapshot covers.
recover-original :
    (x : Hashing) (fails : Call → Bool) (original : Files) (m : Machine) (path : Text)
    → Covered original m
    → (recover_pending_update x fails m).1 ≡ recovered
    → ((recover_pending_update x fails m).0.targets path ≡ original path)
      × ((recover_pending_update x fails m).0.transaction ≡ none)
unfolding recover_pending_update recover_locked recover_transaction after_restored
recover-original x fails original m path c h = elim (Bool-cases (fails recovery_lock)) [
  | inl e ↦ absurd (ground (arith, e))
  | inr e ↦ elim (Bool-cases (fails read_transaction)) [
    | inl r ↦ absurd (ground (arith, e, r))
    | inr r ↦ elim (Option-cases m.transaction) [
      | inl t ↦ absurd (ground (arith, e, r, t))
      | inr (transaction, t) ↦ elim (Result-cases (pending_rollback fails transaction m)) [
        | inr (_, w) ↦ absurd (ground (arith, e, r, t, w))
        | inl (u, w) ↦
            let known : (recover_pending_update x fails m)
                ≡ after_restored fails (restore_rollback x fails m) =
              ground (arith, e, r, t, w) in
            let (through, left, cleared) =
              after_restored-ok fails (restore_rollback x fails m).0 (restore_rollback x fails m).1
                (ap (λ p. p.1) (sym known) ∙ h) in
            (
              ap (λ p. p.0.targets path) known
                  ∙ ap (λ t. t path) left
                  ∙ restored-original x fails original m path c through,
              ap (λ p. p.0.transaction) known ∙ cleared,
            )
      ]
    ]
  ]
]

-- An installation that was applied, and ends with the record of its transaction left, because a
-- restoration failed in part, the machine did not recover or the record was not removed, is undone
-- by the recovery at the next start, whatever failed before: when it reports so, every file is as
-- it was before the installation, and no transaction is left.
pub pending_recovered :
    (x : Hashing) (fails later : Call → Bool) (tracked allow_lightdm : Bool) (now : ℕ)
    (decoded : Option StagePlan) (m : Machine) (path : Text)
    → is_pending (install_staged x fails tracked allow_lightdm now decoded m).1 ≡ true
    → (recover_pending_update x later
        (install_staged x fails tracked allow_lightdm now decoded m).0).1
      ≡ recovered
    → ((recover_pending_update x later
            (install_staged x fails tracked allow_lightdm now decoded m).0).0.targets
          path
        ≡ m.targets path)
      × ((recover_pending_update x later
            (install_staged x fails tracked allow_lightdm now decoded m).0).0.transaction
          ≡ none)
pending_recovered x fails later tracked allow_lightdm now decoded m path h k =
    recover-original x later m.targets
      (install_staged x fails tracked allow_lightdm now decoded m).0 path
      (install_staged-Covered x fails tracked allow_lightdm now decoded m h) k
