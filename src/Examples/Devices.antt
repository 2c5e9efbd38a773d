-- ===== src/Examples/Devices.antt =====
-- A device that is enrolled, activated and revoked.
use stumpfworks_identity.Examples.Data.{repeated, works, empty}
use stumpfworks_identity.Store.Schema.{
  validate_audit_ip, Client, EnrollmentToken, DeviceCredential, Database, client_device_enrolled,
  token_only, pending, active,
}
use stumpfworks_identity.Base.{
  all, ◌≤◌, ◌≡◌, refl, ◌≢◌, true, none, some, List, [], ◌∷◌, ◌++◌, arith, Text, codes, text_eq,
  find, count, any, update, ok,
}
use stumpfworks_identity.Store.Devices.{
  enroll_client_device_credential, valid_public_identifier, is_public_byte,
  validate_device_credential, valid_sha256, valid_certificate_serial, Externals, enroll_body,
  valid_client_enrollment_token, with_status, is_credential, entry, set_status, stage_pending,
  insert_pending,
}
use stumpfworks_identity.Store.Devices.Activation.{
  activate_client_device_credential, check_request, activate_body, activate_found, retire, promote,
}
use stumpfworks_identity.Store.Devices.Unique.{create_token, enroll, activate, apply, apply-OneEach}
use stumpfworks_identity.Store.Devices.Rows.{OneEach}
use stumpfworks_identity.Store.Devices.Enrollment.{activate_one_active}
use stumpfworks_identity.Store.Devices.Spent.{Step, run, enroll_once}

abbrev anything : Externals
anything = record {
  parse_ip = λ t. true;
  hex_decode = λ t. some t;
  trim_space = λ t. t;
  to_lower = λ t. t;
}

abbrev kiosk : Client
kiosk = record { client_id = 65 ∷ []; token_hash = []; auth_mode = token_only; enabled = true }

abbrev secret : Text
secret = repeated 64 48

abbrev ticket : EnrollmentToken
ticket = record {
  id = 66 ∷ [];
  client_id = 65 ∷ [];
  token_hash = secret;
  created_at = 1;
  expires_at = 1000;
  consumed_at = none;
  revoked_at = none;
}

abbrev card : DeviceCredential
card = record {
  id = 67 ∷ [];
  client_id = 65 ∷ [];
  fingerprint_sha256 = repeated 64 49;
  serial = 49 ∷ [];
  uri_san = [];
  public_key_algorithm = 69 ∷ [];
  issuer_id = 70 ∷ [];
  issued_at = 5;
  expires_at = 1000;
  status = pending;
  supersedes_id = none;
  revoked_at = none;
  created_at = 10;
}

abbrev waiting : Database
waiting = record empty { clients = kiosk ∷ []; device_credentials = card ∷ [] }

abbrev live : Database
live = record waiting {
  device_credentials = set_status active card ∷ [];
  audit_log = entry client_device_enrolled (65 ∷ []) [] (codes "credential_id=" ++ 67 ∷ []) ∷ [];
}

abbrev fresh : Database
fresh = record empty { clients = kiosk ∷ []; enrollment_tokens = ticket ∷ [] }

one-OneEach : (c : DeviceCredential) → OneEach (c ∷ [])
unfolding count
one-OneEach c client = (ground arith, ground arith)

abbrev certificate : DeviceCredential
certificate = record card { uri_san = codes "urn:stumpfworks:identity:client:A"; issued_at = 5 }

-- A client that already has an active credential enrolls another one.
abbrev renewing : Database
renewing = record fresh {
  device_credentials =
      record card {
        id = 68 ∷ [];
        fingerprint_sha256 = repeated 64 50;
        serial = 50 ∷ [];
        status = active;
      }
      ∷ [];
}

enroll_run :
    let rows =
      (apply anything works [] 10 (enroll secret certificate) renewing).device_credentials in
    (count (with_status pending (65 ∷ [])) rows ≡ 1)
    × (count (with_status active (65 ∷ [])) rows ≡ 1)
unfolding apply enroll_client_device_credential validate_device_credential valid_sha256
    valid_certificate_serial valid_public_identifier is_public_byte all validate_audit_ip
    enroll_body stage_pending insert_pending text_eq count update any
enroll_run = (refl, refl)

apply-OneEach_example :
    OneEach (apply anything works [] 10 (enroll secret certificate) renewing).device_credentials
apply-OneEach_example = apply-OneEach anything works [] 10 (enroll secret certificate) renewing (
    one-OneEach (record card {
      id = 68 ∷ [];
      fingerprint_sha256 = repeated 64 50;
      serial = 50 ∷ [];
      status = active;
    }))

activate_one_active_example :
    let rows =
      (activate_client_device_credential anything works
        (65 ∷ [])
        (67 ∷ [])
        []
        20
        waiting).0.device_credentials in
    (count (with_status active (65 ∷ [])) rows ≡ 1)
    × (1 ≤ count (is_credential (67 ∷ []) (65 ∷ []) active) rows)
unfolding activate_client_device_credential check_request valid_public_identifier is_public_byte all
    validate_audit_ip activate_body activate_found retire promote find text_eq count update
activate_one_active_example =
    activate_one_active anything works (65 ∷ []) (67 ∷ []) [] 20 waiting (one-OneEach card) refl

abbrev other_ticket : EnrollmentToken
other_ticket = record ticket { id = 69 ∷ []; token_hash = repeated 64 51 }

-- After the enrollment another token is created and the credential is activated.
abbrev later_steps : List Step
later_steps =
    record { faults = works; ip = []; now = 12; operation = create_token other_ticket }
    ∷ record { faults = works; ip = []; now = 13; operation = activate (65 ∷ []) (67 ∷ []) }
    ∷ []

abbrev second_certificate : DeviceCredential
second_certificate = record certificate {
  id = 70 ∷ [];
  fingerprint_sha256 = repeated 64 52;
  serial = 51 ∷ [];
}

enroll_once_example :
    let after =
      run anything later_steps
        (enroll_client_device_credential anything works secret 10 certificate [] fresh).0 in
    ((enroll_client_device_credential anything works secret 20 second_certificate [] after).1
      ≢ ok tt)
    × (valid_client_enrollment_token anything works (65 ∷ []) secret 20 after ≢ ok true)
unfolding enroll_client_device_credential validate_device_credential valid_sha256
    valid_certificate_serial valid_public_identifier is_public_byte all validate_audit_ip
    enroll_body stage_pending insert_pending text_eq count update any
enroll_once_example =
    enroll_once anything works works works secret (65 ∷ []) 10 20 certificate second_certificate []
      [] later_steps fresh (omega arith) refl
