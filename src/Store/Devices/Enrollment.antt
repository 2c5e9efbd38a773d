-- ===== src/Store/Devices/Enrollment.antt =====
-- What activation and revocation leave.
use stumpfworks_identity.Base.{
  ℕ, ◌≤◌, ◌≡◌, ◌≢◌, sym, subst, arith, Text, count, count-update_leave, count-update_join,
  find-none_of_stronger, ok, Faults,
}
use stumpfworks_identity.Store.Schema.{DeviceCredential, Database, pending, active}
use stumpfworks_identity.Store.Devices.{
  Externals, with_status, is_credential, set_status, current, active_client_device_credential,
}
use stumpfworks_identity.Store.Devices.Activation.{
  revoke_client_device_credential, activate_client_device_credential, activate_body, revoke_row,
  revoke_body,
}
use stumpfworks_identity.Store.Devices.Unique.{activate-ok, activate_found-ok, revoke-ok}
use stumpfworks_identity.Store.Devices.Rows.{OneEach, promote-ok}

-- An active credential that is looked up afterwards would be counted.
no_active_none :
    (x : Externals) (reading : Faults) (client : Text) (later : ℕ) (db : Database)
    (c : DeviceCredential)
    → count (with_status active client) db.device_credentials ≡ 0
    → active_client_device_credential x reading client later db ≢ ok c
unfolding active_client_device_credential
no_active_none x reading client later db c h e = ground (
  arith,
  e,
  find-none_of_stronger (with_status active client) (current client later) db.device_credentials
      (λ d k. ground arith) h,
)

revoke_body_cuts_off :
    (x : Externals) (faults reading : Faults) (client id ip : Text) (now later : ℕ)
    (db after : Database) (c : DeviceCredential)
    → OneEach db.device_credentials
    → revoke_body faults client id ip now db ≡ ok (tt, after)
    → active_client_device_credential x reading client later after ≢ ok c
revoke_body_cuts_off x faults reading client id ip now later db after c h e =
    let (same, counted) = revoke-ok faults client id ip now db after e in
    no_active_none x reading client later after c (
      rw same (
        omega (
          arith,
          (h client).0,
          counted,
          count-update_leave (is_credential id client active) (revoke_row now)
              (with_status active client) db.device_credentials (λ d k. ground arith)
              (λ d k. ground arith),
        )))

activate_body_one_active :
    (faults : Faults) (client id ip : Text) (now : ℕ) (db after : Database)
    → OneEach db.device_credentials
    → activate_body faults client id ip now db ≡ ok (tt, after)
    → (count (with_status active client) after.device_credentials ≡ 1)
      × (1 ≤ count (is_credential id client active) after.device_credentials)
activate_body_one_active faults client id ip now db after h e =
    let (k, _, found) = activate-ok faults client id ip now db after e in
    let (retired, promoted, r, p, same) =
      activate_found-ok faults client id ip k.supersedes_id db after found in
    let (one, counted, made) = promote-ok faults client id retired.1 promoted p in
    let q = is_credential id client pending in
    let rows = retired.1.device_credentials in
    let joined =
      count-update_join q (set_status active) (with_status active client) rows (λ d j. ground arith)
        (λ d j. ground arith) in
    let own =
      count-update_join q (set_status active) (is_credential id client active) rows
        (λ d j. ground arith) (λ d j. ground arith) in
    (
      rw same (rw made (omega (arith, joined, counted, rw made at one))),
      rw same (rw made (omega (arith, own, counted))),
    )

revoke_client-ok :
    (x : Externals) (faults : Faults) (client id ip : Text) (now : ℕ) (db : Database)
    → (revoke_client_device_credential x faults client id ip now db).1 ≡ ok tt
    → (after : Database) × (revoke_body faults client id ip now db ≡ ok (tt, after))
      × ((revoke_client_device_credential x faults client id ip now db).0 ≡ after)
unfolding revoke_client_device_credential
revoke_client-ok x faults client id ip now db h = ground arith

activate_client-ok :
    (x : Externals) (faults : Faults) (client id ip : Text) (now : ℕ) (db : Database)
    → (activate_client_device_credential x faults client id ip now db).1 ≡ ok tt
    → (after : Database) × (activate_body faults client id ip now db ≡ ok (tt, after))
      × ((activate_client_device_credential x faults client id ip now db).0 ≡ after)
unfolding activate_client_device_credential
activate_client-ok x faults client id ip now db h = ground arith

-- Where every client has at most one active credential, a revocation that succeeds leaves its client
-- none: no lookup of an active credential of the client succeeds on the database it leaves.
pub revoke_cuts_off :
    (x : Externals) (faults reading : Faults) (client id ip : Text) (now later : ℕ) (db : Database)
    (c : DeviceCredential)
    → OneEach db.device_credentials
    → (revoke_client_device_credential x faults client id ip now db).1 ≡ ok tt
    → active_client_device_credential x reading client later
        (revoke_client_device_credential x faults client id ip now db).0
      ≢ ok c
revoke_cuts_off x faults reading client id ip now later db c h e =
    let (after, w, same) = revoke_client-ok x faults client id ip now db e in
    subst (λ d. active_client_device_credential x reading client later d ≢ ok c) (sym same)
      (revoke_body_cuts_off x faults reading client id ip now later db after c h w)

-- Where every client has at most one active and one pending credential, an activation that succeeds
-- leaves exactly one active credential of the client: the pending one that was asked for.
pub activate_one_active :
    (x : Externals) (faults : Faults) (client id ip : Text) (now : ℕ) (db : Database)
    → OneEach db.device_credentials
    → (activate_client_device_credential x faults client id ip now db).1 ≡ ok tt
    → let rows =
        (activate_client_device_credential x faults client id ip now db).0.device_credentials in
      (count (with_status active client) rows ≡ 1)
      × (1 ≤ count (is_credential id client active) rows)
activate_one_active x faults client id ip now db h e =
    let (after, w, same) = activate_client-ok x faults client id ip now db e in
    let (one, own) = activate_body_one_active faults client id ip now db after h w in
    (rw same one, rw same own)
