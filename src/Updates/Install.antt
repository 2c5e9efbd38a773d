-- ===== src/Updates/Install.antt =====
-- internal/clientupdate/install.go, with rollback.go and restore.go: the installation of a staged
-- release, and how it is undone. The files of the machine are a map from the targets, below the
-- root of the installation, to contents; a call of the operating system that may fail is a `Call`.
pub mod Rollback
pub mod Restored
pub mod Outcome
pub mod Recovery
pub mod Recovered
pub mod Installed
use stumpfworks_identity.Base.{
  ℕ, ◌+◌, Bool, true, false, not, ◌&&◌, Option, none, some, List, [], ◌∷◌, Text, codes, text_eq,
  length, find, any, ltb, leb, ◌==◌, if◌then◌else◌, invalid, unavailable, Result, ok, err, ◌>>=◌,
  ◌>>◌, require, refuse, or_fail, transaction,
}
use stumpfworks_identity.Updates.Versions.{valid_version}
use stumpfworks_identity.Updates.Manifest.{max_file_size}

-- stage.go: what the twelve components are.
pub record ComponentSpec : Type 0 where
  pub target : Text
  pub mode : ℕ
  pub restart_lightdm : Bool

pub record StagedComponent : Type 0 where
  pub component : Text
  pub target : Text
  pub mode : ℕ
  pub sha256 : Text
  pub restart_lightdm : Bool

pub record StagePlan : Type 0 where
  pub release_version : Text
  pub architecture : Text
  pub components : List StagedComponent

-- `mode` is the permission bits; the special bits and the owner of a file are left out.
pub record Content : Type 0 where
  pub bytes : Text
  pub mode : ℕ

abbrev pub Files : Type 0
Files = Text → Option Content

-- A record of rollback.json with the copy beside it: no content where the file did not exist.
pub record RollbackFile : Type 0 where
  pub component : Text
  pub target : Text
  pub content : Option Content
  pub size : ℕ
  pub sha256 : Text

pub record Snapshot : Type 0 where
  pub for_release : Text
  pub files : List RollbackFile

-- The rollback directory that the record names is that of the installation, the one of the Machine.
pub record UpdateTransaction : Type 0 where
  pub release_version : Text
  pub started_at : ℕ

-- The stage directory holds the payload; the snapshot is the rollback directory.
pub record Machine : Type 0 where
  pub targets : Files
  pub payload : Text → Option Text
  pub snapshot : Option Snapshot
  pub transaction : Option UpdateTransaction

-- What may fail, by the place in the code, and by the component where there is a loop. The checks
-- of VerifyRollback on the directory are `verify_rollback`; `health` and `recovery` are the
-- callbacks.
pub data Call : Type 0 where
  validate_payload : Text → Call
  snapshot_file : Text → Call
  publish_snapshot sync_snapshot write_transaction sync_transaction : Call
  clear_prepared make_prepared : Call
  prepare : Text → Call
  make_directory : Text → Call
  copy_new : Text → Call
  rename_new : Text → Call
  health remove_transaction : Call
  verify_rollback clear_restore make_restore : Call
  prepare_restore : Text → Call
  restore_directory : Text → Call
  remove_target : Text → Call
  copy_old : Text → Call
  rename_old : Text → Call
  recovery remove_after_rollback : Call
  recovery_lock read_transaction check_directory load_manifest : Call
  write_state interrupted_recovery remove_pending : Call

-- sha256 with its hexadecimal form, and strings.EqualFold.
pub record Hashing : Type 0 where
  pub digest : Text → Text
  pub equal_fold : Text → Text → Bool

abbrev pub spec : Text → ℕ → Bool → ComponentSpec
spec target mode restart = record { target = target; mode = mode; restart_lightdm = restart }

-- 0755 and 0644
abbrev pub program : ℕ
program = 493

abbrev pub unit_file : ℕ
unit_file = 420

unfoldable pub component_specs : List (Text × ComponentSpec)
component_specs =
    (
      codes "sw-badge-native-greeter",
      spec (codes "/usr/local/bin/sw-badge-native-greeter") program true,
    )
    ∷ (
      codes "sw-badge-pam-helper",
      spec (codes "/usr/local/libexec/sw-badge-pam-helper") program false,
    )
    ∷ (
      codes "sw-badge-client-status",
      spec (codes "/usr/local/libexec/sw-badge-client-status") program false,
    )
    ∷ (
      codes "sw-badge-client-diagnostics",
      spec (codes "/usr/local/sbin/sw-badge-client-diagnostics") program false,
    )
    ∷ (
      codes "sw-badge-client-updater",
      spec (codes "/usr/local/sbin/sw-badge-client-updater") program false,
    )
    ∷ (
      codes "sw-badge-client-update-worker",
      spec (codes "/usr/local/sbin/sw-badge-client-update-worker") program false,
    )
    ∷ (
      codes "swbadge-client-updates.service",
      spec (codes "/etc/systemd/system/swbadge-client-updates.service") unit_file false,
    )
    ∷ (
      codes "swbadge-client-updates.timer",
      spec (codes "/etc/systemd/system/swbadge-client-updates.timer") unit_file false,
    )
    ∷ (
      codes "sw-badge-native-greeter-wrapper",
      spec (codes "/usr/local/bin/sw-badge-native-greeter-wrapper") program true,
    )
    ∷ (
      codes "sw-badge-pam-helper-wrapper",
      spec (codes "/usr/local/libexec/sw-badge-pam-helper-wrapper") program false,
    )
    ∷ (
      codes "swbadge-client-status.service",
      spec (codes "/etc/systemd/system/swbadge-client-status.service") unit_file false,
    )
    ∷ (
      codes "swbadge-client-status.timer",
      spec (codes "/etc/systemd/system/swbadge-client-status.timer") unit_file false,
    )
    ∷ []

unfoldable pub spec_of : Text → Option ComponentSpec
spec_of name =
    elim (find (λ (entry : Text × ComponentSpec). text_eq entry.0 name) component_specs) [
      | none ↦ none
      | some entry ↦ some entry.1
    ]

-- copyAndVerify: the callers pass no size above the limit but that of the source itself, so a
-- source that is cut at the limit fails the comparison.
unfoldable pub copy_and_verify : Hashing → Bool → Text → ℕ → Text → ℕ → Result Content
copy_and_verify x fault bytes size hash mode = do
  refuse fault unavailable
  require (leb (length bytes) (max_file_size + 1) && (length bytes == size)) invalid
  require (x.equal_fold (x.digest bytes) hash) invalid
  ok (record { bytes = bytes; mode = mode })

abbrev pub set_target : Text → Option Content → Files → Files
set_target target content files = λ path. if text_eq path target then content else files path

unfoldable pub requires_lightdm_maintenance : StagePlan → Bool
requires_lightdm_maintenance plan = any (λ (c : StagedComponent). c.restart_lightdm) plan.components

-- `decoded` is what the decoder makes of stage-plan.json.
unfoldable pub load_stage_plan : Option StagePlan → Result StagePlan
load_stage_plan decoded = do
  plan ← or_fail decoded invalid
  require
      (valid_version plan.release_version
        && (ltb 0 (length plan.architecture) && ltb 0 (length plan.components)))
      invalid
  ok plan

-- The component is one of the twelve, is as its specification says, and came up only once.
unfoldable pub is_specified : StagedComponent → Bool
is_specified c = elim (spec_of c.component) [
  | none ↦ false
  | some s ↦ text_eq c.target s.target && (c.mode == s.mode)
]

unfoldable pub restarts_as_specified : StagedComponent → Bool
restarts_as_specified c = elim (spec_of c.component) [
  | none ↦ false
  | some s ↦ if s.restart_lightdm then c.restart_lightdm else not c.restart_lightdm
]

abbrev pub is_seen : List Text → Text → Bool
is_seen seen name = any (text_eq name) seen

unfoldable pub validate_component :
    Hashing → (Call → Bool) → Machine → List Text → StagedComponent → Result (Unit {0})
validate_component x fails m seen c = do
  require (is_specified c && (restarts_as_specified c && not (is_seen seen c.component))) invalid
  require (length c.sha256 == 64) invalid
  bytes ← or_fail (m.payload c.component) unavailable
  require (leb (length bytes) max_file_size) invalid
  copy ← copy_and_verify x (fails (validate_payload c.component)) bytes (length bytes) c.sha256 384
  ok tt

unfoldable pub validate_components :
    Hashing → (Call → Bool) → Machine → List Text → List StagedComponent → Result (Unit {0})
validate_components x fails m seen [] = ok tt
validate_components x fails m seen (c ∷ cs) = elim (validate_component x fails m seen c) [
  | err e ↦ err e
  | ok _ ↦ validate_components x fails m (c.component ∷ seen) cs
]

unfoldable pub validate_staged_payload :
    Hashing → (Call → Bool) → Machine → StagePlan → Result (Unit {0})
validate_staged_payload x fails m plan = validate_components x fails m [] plan.components

-- A component of a copy that was prepared and verified.
pub record Ready : Type 0 where
  pub staged : StagedComponent
  pub content : Content

unfoldable pub prepare_one : Hashing → (Call → Bool) → Machine → StagedComponent → Result Ready
prepare_one x fails m c = do
  bytes ← or_fail (m.payload c.component) unavailable
  copy ← copy_and_verify x (fails (prepare c.component)) bytes (length bytes) c.sha256 c.mode
  ok (record { staged = c; content = copy })

unfoldable pub prepare_all :
    Hashing → (Call → Bool) → Machine → List StagedComponent → Result (List Ready)
prepare_all x fails m [] = ok []
prepare_all x fails m (c ∷ cs) = do
  one ← prepare_one x fails m c
  rest ← prepare_all x fails m cs
  ok (one ∷ rest)

-- The new file is written beside the target and renamed over it.
unfoldable pub install_one : Hashing → (Call → Bool) → Ready → Files → Result Files
install_one x fails r files = do
  refuse (fails (make_directory r.staged.component)) unavailable
  copy ←
      copy_and_verify x (fails (copy_new r.staged.component)) r.content.bytes
        (length r.content.bytes) r.staged.sha256 r.staged.mode
  refuse (fails (rename_new r.staged.component)) unavailable
  ok (set_target r.staged.target (some copy) files)

-- A failure stops the loop and leaves what was installed so far.
unfoldable pub install_all : Hashing → (Call → Bool) → List Ready → Files → Files × Bool
install_all x fails [] files = (files, true)
install_all x fails (r ∷ rs) files = elim (install_one x fails r files) [
  | err e ↦ (files, false)
  | ok next ↦ install_all x fails rs next
]
