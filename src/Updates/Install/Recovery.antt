-- ===== src/Updates/Install/Recovery.antt =====
-- internal/clientupdate/transaction.go RecoverPendingUpdate: what the next start does with an update
-- that was interrupted or whose rollback did not complete.
use stumpfworks_identity.Base.{
  Bool, true, false, not, ◌&&◌, ◌||◌, none, some, List, [], ◌∷◌, Text, text_eq, if◌then◌else◌,
  invalid, unavailable, Result, ok, err, ◌>>=◌, ◌>>◌, require, refuse, or_fail, transaction,
}
use stumpfworks_identity.Updates.Install.{
  RollbackFile, UpdateTransaction, Call, Machine, Hashing, spec_of, is_seen, recovery_lock,
  read_transaction, check_directory, load_manifest, write_state, interrupted_recovery,
  remove_pending,
}
use stumpfworks_identity.Updates.Install.Rollback.{restore_rollback}

-- `busy` is another update that holds the lock.
pub data Recovery : Type 0 where
  busy nothing_pending recovered not_recovered : Recovery

unfoldable pub is_rollback_of : RollbackFile → Bool
is_rollback_of f = elim (spec_of f.component) [ none ↦ false | some s ↦ text_eq f.target s.target ]

unfoldable pub valid_rollback_files : List Text → List RollbackFile → Bool
valid_rollback_files seen [] = true
valid_rollback_files seen (f ∷ fs) =
    (is_rollback_of f && not (is_seen seen f.component))
    && valid_rollback_files (f.component ∷ seen) fs

unfoldable pub pending_rollback : (Call → Bool) → UpdateTransaction → Machine → Result (Unit {0})
pending_rollback fails transaction m = do
  refuse (fails check_directory) invalid
  snap ← or_fail m.snapshot unavailable
  refuse (fails load_manifest) unavailable
  require (text_eq snap.for_release transaction.release_version) invalid
  require (valid_rollback_files [] snap.files) invalid
  ok tt

unfoldable pub after_restored : (Call → Bool) → Machine × Bool → Machine × Recovery
after_restored fails (m, false) = (m, not_recovered)
after_restored fails (m, true) =
    if fails write_state || (fails interrupted_recovery || fails remove_pending)
    then (m, not_recovered)
    else (record m { transaction = none }, recovered)

unfoldable pub recover_transaction :
    Hashing → (Call → Bool) → UpdateTransaction → Machine → Machine × Recovery
recover_transaction x fails transaction m = elim (pending_rollback fails transaction m) [
  | err e ↦ (m, not_recovered)
  | ok _ ↦ after_restored fails (restore_rollback x fails m)
]

-- recoverPendingUpdate
unfoldable pub recover_locked : Hashing → (Call → Bool) → Machine → Machine × Recovery
recover_locked x fails m =
    if fails read_transaction then (m, not_recovered) else elim m.transaction [
      | none ↦ (m, nothing_pending)
      | some transaction ↦ recover_transaction x fails transaction m
    ]

unfoldable pub recover_pending_update : Hashing → (Call → Bool) → Machine → Machine × Recovery
recover_pending_update x fails m =
    if fails recovery_lock then (m, busy) else recover_locked x fails m
