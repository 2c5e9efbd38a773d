-- ===== src/Updates/Install/Restored.antt =====
-- What a restoration brings back, and what an installation leaves alone.
use stumpfworks_identity.Base.{
  ℕ, ◌≡◌, refl, sym, ap, ◌∙◌, inl, inr, Bool, true, false, some, List, [], ◌∷◌, arith, Text,
  text_eq_sound, text_eq, All, any, Result-cases, Bool-cases, Option-cases, ok, ◌>>=◌, >>=-eq-ok,
}
use stumpfworks_identity.Updates.Install.{
  StagedComponent, Content, Files, RollbackFile, Call, Machine, Hashing, copy_and_verify,
  set_target, Ready, prepare_one, prepare_all, install_one, install_all,
}
use stumpfworks_identity.Updates.Install.Rollback.{
  absent_record, present_record, save_file, save_files, check_copy, check_copies, restore_one,
  restore_all,
}

abbrev pub at_path : Text → RollbackFile → Bool
at_path path f = text_eq path f.target

abbrev pub staged_at : Text → StagedComponent → Bool
staged_at path c = text_eq path c.target

-- The copy of a record is what the files had at its target.
abbrev pub Saved : Files → RollbackFile → Type 0
Saved files f = f.content ≡ files f.target

pub copy-ok :
    (x : Hashing) (fault : Bool) (bytes : Text) (size : ℕ) (hash : Text) (mode : ℕ) (c : Content)
    → copy_and_verify x fault bytes size hash mode ≡ ok c
    → (c ≡ record { bytes = bytes; mode = mode }) × (x.equal_fold (x.digest bytes) hash ≡ true)
unfolding copy_and_verify
copy-ok x fault bytes size hash mode c h = ground arith

module _ (x : Hashing) (fails : Call → Bool) where
  save_file-ok :
      (files : Files) (seen : List Text) (c : StagedComponent) (f : RollbackFile)
      → save_file x fails files seen c ≡ ok f
      → Saved files f × (f.target ≡ c.target)
  unfolding save_file
  save_file-ok files seen c f h = elim (Option-cases (files c.target)) [
    | inl w ↦ let same : f ≡ absent_record c = ground (arith, w) in rw same (sym w, refl)
    | inr (content, w) ↦
        let same : f ≡ present_record x c content = ground (arith, w) in rw same (sym w, refl)
  ]

  pub save_files-ok :
      (files : Files) (seen : List Text) (cs : List StagedComponent) (fs : List RollbackFile)
      → save_files x fails files seen cs ≡ ok fs
      → All (Saved files) fs × ((path : Text) → any (at_path path) fs ≡ any (staged_at path) cs)
  unfolding save_files any
  save_files-ok files seen [] fs h = let same : fs ≡ [] = ground arith in rw same (tt, λ path. refl)
  save_files-ok files seen (c ∷ cs) fs h =
      let (one, w, more) =
        >>=-eq-ok (save_file x fails files seen c)
          (λ one. save_files x fails files (c.component ∷ seen) cs >>= λ rest. ok (one ∷ rest)) fs
          h in
      let (rest, v, last) =
        >>=-eq-ok (save_files x fails files (c.component ∷ seen) cs) (λ rest. ok (one ∷ rest)) fs
          more in
      let same : fs ≡ one ∷ rest = ground arith in
      let (saved, target) = save_file-ok files seen c one w in
      let (all_saved, paths) = save_files-ok files (c.component ∷ seen) cs rest v in
      rw same ((saved, all_saved), λ path. rw (target, paths path) refl)

  check_copy-ok : (f g : RollbackFile) → check_copy x fails f ≡ ok g → g ≡ f
  unfolding check_copy copy_and_verify
  check_copy-ok f g h = elim (Option-cases f.content) [
    | inl w ↦ ground (arith, w)
    | inr (content, w) ↦ ground (arith, w)
  ]

  pub check_copies-ok : (fs gs : List RollbackFile) → check_copies x fails fs ≡ ok gs → gs ≡ fs
  unfolding check_copies
  check_copies-ok [] gs h = ground arith
  check_copies-ok (f ∷ fs) gs h =
      let (one, w, more) =
        >>=-eq-ok (check_copy x fails f)
          (λ one. check_copies x fails fs >>= λ rest. ok (one ∷ rest)) gs h in
      let (rest, v, last) = >>=-eq-ok (check_copies x fails fs) (λ rest. ok (one ∷ rest)) gs more in
      let first = check_copy-ok f one w in let others = check_copies-ok fs rest v in ground arith

  pub restore_one-ok :
      (f : RollbackFile) (files next : Files)
      → restore_one x fails f files ≡ ok next
      → next ≡ set_target f.target f.content files
  unfolding restore_one copy_and_verify
  restore_one-ok f files next h = elim (Option-cases f.content) [
    | inl w ↦ rw w (ground (arith, w))
    | inr (content, w) ↦ rw w (ground (arith, w))
  ]

  -- A restoration that runs through brings back what the copies have, at their targets.
  pub restore_all-Saved :
      (original : Files) (fs : List RollbackFile) (files : Files) (path : Text)
      → All (Saved original) fs
      → (any (at_path path) fs ≡ false → files path ≡ original path)
      → (restore_all x fails fs files).1 ≡ true
      → (restore_all x fails fs files).0 path ≡ original path
  unfolding restore_all any
  restore_all-Saved original [] files path saved off h = off refl
  restore_all-Saved original (f ∷ fs) files path saved off h =
      elim (Result-cases (restore_one x fails f files)) [
        | inr (e, w) ↦ absurd (ground (arith, w))
        | inl (next, w) ↦
            rw (w, restore_all)
              (restore_all-Saved original fs next path saved.1
                (λ out. elim (Bool-cases (text_eq path f.target)) [
                  | inl t ↦
                      let here = text_eq_sound path f.target t in
                      rw (restore_one-ok f files next w, t) (saved.0 ∙ ap original (sym here))
                  | inr t ↦ rw (restore_one-ok f files next w, t) (off (rw (t, out) refl))
                ])
                (rw (w, restore_all) at h))
      ]

  pub prepare_one-ok :
      (m : Machine) (c : StagedComponent) (r : Ready)
      → prepare_one x fails m c ≡ ok r
      → (r.staged ≡ c)
        × (m.payload c.component ≡ some r.content.bytes)
        × (r.content.mode ≡ c.mode)
        × (x.equal_fold (x.digest r.content.bytes) c.sha256 ≡ true)
  unfolding prepare_one copy_and_verify
  prepare_one-ok m c r h = ground arith

  pub install_one-ok :
      (r : Ready) (files next : Files)
      → install_one x fails r files ≡ ok next
      → next
        ≡ set_target r.staged.target
            (some (record { bytes = r.content.bytes; mode = r.staged.mode }))
            files
  unfolding install_one copy_and_verify
  install_one-ok r files next h = ground arith

  -- An installation, complete or not, leaves the other paths alone.
  pub install_all-off :
      (rs : List Ready) (files : Files) (path : Text)
      → any (λ (r : Ready). staged_at path r.staged) rs ≡ false
      → (install_all x fails rs files).0 path ≡ files path
  unfolding install_all any
  install_all-off [] files path off = refl
  install_all-off (r ∷ rs) files path off = elim (Result-cases (install_one x fails r files)) [
    | inr (e, w) ↦ rw (w, install_all) refl
    | inl (next, w) ↦
        let here : text_eq path r.staged.target ≡ false = ground arith in
        let later : any (λ (q : Ready). staged_at path q.staged) rs ≡ false = ground arith in
        rw (w, install_all)
          (install_all-off rs next path later ∙ rw (install_one-ok r files next w, here) refl)
  ]

  pub prepare_all-ok :
      (m : Machine) (cs : List StagedComponent) (rs : List Ready)
      → prepare_all x fails m cs ≡ ok rs
      → (path : Text) → any (λ (r : Ready). staged_at path r.staged) rs ≡ any (staged_at path) cs
  unfolding prepare_all any
  prepare_all-ok m [] rs h path = let same : rs ≡ [] = ground arith in rw same refl
  prepare_all-ok m (c ∷ cs) rs h path =
      let (one, w, more) =
        >>=-eq-ok (prepare_one x fails m c)
          (λ one. prepare_all x fails m cs >>= λ rest. ok (one ∷ rest)) rs h in
      let (rest, v, last) =
        >>=-eq-ok (prepare_all x fails m cs) (λ rest. ok (one ∷ rest)) rs more in
      let same : rs ≡ one ∷ rest = ground arith in
      let (named, _, _, _) = prepare_one-ok m c one w in
      rw (same, named, prepare_all-ok m cs rest v path) refl
