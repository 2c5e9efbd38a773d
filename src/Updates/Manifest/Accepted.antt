-- ===== src/Updates/Manifest/Accepted.antt =====
-- What a manifest that is accepted has, and that updates do not go back.
use stumpfworks_identity.Base.{
  ◌≡◌, refl, sym, subst, ◌≢◌, inl, inr, true, false, Option, none, some, List, [], ◌∷◌, arith, Text,
  text_eq_refl, text_eq_sound, text_eq, All, any, Bool-cases, ok,
}
use stumpfworks_identity.Updates.Versions.{
  pos, int_lt, is_empty, Ordering, less, equal, greater, compare_versions,
}
use stumpfworks_identity.Updates.Versions.Order.{compare_versions-less}
use stumpfworks_identity.Updates.Manifest.{
  File, Manifest, Platform, allowed_components, is_member, max_file_size, has_sha256, valid_file,
  valid_files, is_less, accepts_current, validate_manifest,
}

validate_manifest-ok :
    (p : Platform) (m : Manifest) (architecture current : Text)
    → validate_manifest p m architecture current ≡ ok tt
    → (accepts_current m current ≡ true) × (valid_files p [] m.files ≡ true)
unfolding validate_manifest
validate_manifest-ok p m architecture current h = ground arith

-- A file that is installed: one of the known components, not too large, with a SHA-256 sum.
abbrev pub Known : Platform → File → Type 0
Known p file =
    (is_member file.component allowed_components ≡ true)
    × (int_lt (pos max_file_size) file.size ≡ false)
    × (int_lt file.size (pos 0) ≡ false)
    × (has_sha256 p file.sha256 ≡ true)

abbrev pub names : List File → List Text
names [] = []
names (file ∷ files) = file.component ∷ names files

-- No name twice.
abbrev pub Distinct : List Text → Type 0
Distinct [] = Unit
Distinct (n ∷ ns) = (is_member n ns ≡ false) × Distinct ns

-- No name among those seen.
unseen :
    (p : Platform) (name : Text) (seen : List Text) (files : List File)
    → is_member name seen ≡ true
    → valid_files p seen files ≡ true
    → is_member name (names files) ≡ false
unfolding valid_files valid_file is_member any
unseen p name seen [] h k = refl
unseen p name seen (file ∷ files) h k = elim (Bool-cases (text_eq file.component name)) [
  | inl e ↦
      (let same = text_eq_sound file.component name e in
        absurd (ground (arith, subst (λ n. is_member n seen ≡ true) (sym same) h)))
  | inr e ↦ ground (arith, unseen p name (file.component ∷ seen) files)
]

valid_files-Known :
    (p : Platform) (seen : List Text) (files : List File)
    → valid_files p seen files ≡ true
    → All (Known p) files × Distinct (names files)
unfolding valid_files valid_file
valid_files-Known p seen [] h = (tt, tt)
valid_files-Known p seen (file ∷ files) h =
    let (known, distinct) = valid_files-Known p (file.component ∷ seen) files (ground arith) in
    (
      ((ground arith, ground arith, ground arith, ground arith), known),
      (
        unseen p file.component (file.component ∷ seen) files
            (unfold is_member any in rw (text_eq_refl file.component) refl) (ground arith),
        distinct,
      ),
    )

is_less-some : (o : Option Ordering) → is_less o ≡ true → o ≡ some less
is_less-some none h = absurd (ground arith)
is_less-some (some less) h = refl
is_less-some (some equal) h = absurd (ground arith)
is_less-some (some greater) h = absurd (ground arith)

accepted-newer :
    (m : Manifest) (current : Text)
    → is_empty current ≡ false
    → accepts_current m current ≡ true
    → (compare_versions current m.release_version ≡ some less)
      × (compare_versions current m.minimum_version ≢ some less)
unfolding accepts_current
accepted-newer m current given h = (
  is_less-some (compare_versions current m.release_version) (ground arith),
  λ e. ground (arith, e),
)

-- A manifest that is accepted for an installed version names a release above it, does not require
-- more than it, and lists known components only, none of them twice, each with a size from 0 to
-- 64 MiB and a SHA-256 sum.
pub accepted_release :
    (p : Platform) (m : Manifest) (architecture current : Text)
    → is_empty current ≡ false
    → validate_manifest p m architecture current ≡ ok tt
    → (compare_versions current m.release_version ≡ some less)
      × (compare_versions current m.minimum_version ≢ some less)
      × All (Known p) m.files
      × Distinct (names m.files)
accepted_release p m architecture current given h =
    let (accepts, files) = validate_manifest-ok p m architecture current h in
    let (newer, enough) = accepted-newer m current given accepts in
    let (known, distinct) = valid_files-Known p [] m.files files in (newer, enough, known, distinct)

-- Once a manifest was accepted for an installed version, no manifest that leads back from its
-- release to that version is accepted.
pub no_rollback :
    (p : Platform) (m back : Manifest) (architecture architecture' current : Text)
    → is_empty current ≡ false
    → is_empty m.release_version ≡ false
    → back.release_version ≡ current
    → validate_manifest p m architecture current ≡ ok tt
    → validate_manifest p back architecture' m.release_version ≢ ok tt
no_rollback p m back architecture architecture' current given named same h k =
    let (newer, _, _, _) = accepted_release p m architecture current given h in
    let (older, _, _, _) = accepted_release p back architecture' m.release_version named k in
    let above = compare_versions-less current m.release_version newer in
    let below = subst (λ v. compare_versions m.release_version v ≡ some less) same older in
    ground (arith, above, below)
