-- ===== src/Updates/Manifest.antt =====
-- internal/clientupdate/verify.go: which manifest of a release a client accepts.
pub mod Accepted
use stumpfworks_identity.Updates.Versions.{
  ℤ, pos, negsuc, int_lt, is_empty, valid_version, Ordering, less, compare_versions,
}
use stumpfworks_identity.Base.{
  ℕ, Bool, true, false, not, ◌&&◌, ◌||◌, Option, none, some, List, [], ◌∷◌, Text, codes, text_eq,
  length, any, ◌==◌, if◌then◌else◌, invalid, Result, ◌>>=◌, ◌>>◌, require, refuse,
}

pub record File : Type 0 where
  pub component : Text
  pub size : ℤ
  pub sha256 : Text

-- `created_at` is 0 for the zero time.
pub record Manifest : Type 0 where
  pub schema_version : ℤ
  pub release_version : Text
  pub channel : Text
  pub architecture : Text
  pub minimum_version : Text
  pub created_at : ℕ
  pub files : List File

-- hex.DecodeString, and runtime.GOOS + "-" + runtime.GOARCH.
pub record Platform : Type 0 where
  pub hex_decode : Text → Option Text
  pub architecture : Text

unfoldable pub allowed_components : List Text
allowed_components =
    codes "sw-badge-native-greeter"
    ∷ codes "sw-badge-pam-helper"
    ∷ codes "sw-badge-client-status"
    ∷ codes "sw-badge-client-diagnostics"
    ∷ codes "sw-badge-client-updater"
    ∷ codes "sw-badge-client-update-worker"
    ∷ codes "swbadge-client-updates.service"
    ∷ codes "swbadge-client-updates.timer"
    ∷ codes "sw-badge-native-greeter-wrapper"
    ∷ codes "sw-badge-pam-helper-wrapper"
    ∷ codes "swbadge-client-status.service"
    ∷ codes "swbadge-client-status.timer"
    ∷ []

unfoldable pub is_member : Text → List Text → Bool
is_member name names = any (λ n. text_eq n name) names

-- maxFileSize, 64 << 20
abbrev pub max_file_size : ℕ
max_file_size = 67108864

unfoldable pub has_sha256 : Platform → Text → Bool
has_sha256 p text = elim (p.hex_decode text) [ none ↦ false | some decoded ↦ length decoded == 32 ]

unfoldable pub valid_file : Platform → List Text → File → Bool
valid_file p seen file =
    not (not (is_member file.component allowed_components) || is_member file.component seen)
    && (not (int_lt file.size (pos 0) || int_lt (pos max_file_size) file.size)
        && has_sha256 p file.sha256)

-- The loop over the files, with the components seen so far.
unfoldable pub valid_files : Platform → List Text → List File → Bool
valid_files p seen [] = true
valid_files p seen (file ∷ files) =
    let rest = valid_files p (file.component ∷ seen) files in valid_file p seen file && rest

abbrev pub is_less : Option Ordering → Bool
is_less (some less) = true
is_less _ = false

-- The tests against the version that is installed, if one is given. They are made on valid versions
-- only, where the comparison does not panic.
unfoldable pub accepts_current : Manifest → Text → Bool
accepts_current m current =
    is_empty current
    || (valid_version current
        && (not (is_less (compare_versions current m.minimum_version))
            && is_less (compare_versions current m.release_version)))

abbrev pub expected : Platform → Text → Text
expected p architecture = if is_empty architecture then p.architecture else architecture

abbrev pub is_one : ℤ → Bool
is_one (pos n) = n == 1
is_one (negsuc n) = false

unfoldable pub validate_manifest : Platform → Manifest → Text → Text → Result (Unit {0})
validate_manifest p m architecture current = do
  require (is_one m.schema_version) invalid
  require (valid_version m.release_version && valid_version m.minimum_version) invalid
  require (text_eq m.channel (codes "development") || text_eq m.channel (codes "stable")) invalid
  require (text_eq m.architecture (expected p architecture)) invalid
  refuse ((m.created_at == 0) || (length m.files == 0)) invalid
  require (accepts_current m current) invalid
  require (valid_files p [] m.files) invalid
