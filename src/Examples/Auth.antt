-- ===== src/Examples/Auth.antt =====
-- Sessions, badges and permissions.
use stumpfworks_identity.Examples.Primitives.{shifting, shifting-IsDocumented}
use stumpfworks_identity.Auth.Sessions.{Sessions, issue_for, issue_for_duration, verify_for}
use stumpfworks_identity.Auth.Sessions.RoundTrip.{verify_for-issue_for, verify_for_other_audience}
use stumpfworks_identity.Auth.Badge.{payload, parse_payload}
use stumpfworks_identity.Auth.Badge.RoundTrip.{parse_payload-payload}
use stumpfworks_identity.Auth.Permissions.{allowed, auditor, operator, credentials_write}
use stumpfworks_identity.Auth.Permissions.Separation.{writes, has_duty, allowed-has_duty}
use stumpfworks_identity.Base.{◌≡◌, refl, [], ◌∷◌, arith, codes, lacks, any, all, invalid, ok, err}

abbrev sessions : Sessions
sessions = record { key = 1 ∷ 2 ∷ 3 ∷ []; lifetime = 60000000000 }

verify_for-issue_for_example :
    verify_for shifting sessions
      (issue_for shifting sessions (codes "admin") (codes "alice") 0)
      (codes "admin")
      61000000000
    ≡ err invalid
verify_for-issue_for_example =
    verify_for-issue_for shifting shifting-IsDocumented sessions (codes "admin") (codes "alice") 0
      61000000000 (ground arith)

verify_for_other_audience_example :
    verify_for shifting sessions
      (issue_for_duration shifting sessions (codes "self-service") (codes "alice") 0 60000000000)
      (codes "admin")
      0
    ≡ err invalid
unfolding lacks all
verify_for_other_audience_example =
    verify_for_other_audience shifting shifting-IsDocumented sessions (codes "self-service")
      (codes "admin") (codes "alice") 0 60000000000 0 refl refl (ground arith)

parse_payload-payload_example :
    parse_payload (payload (codes "B1") (codes "secret")) ≡ ok (codes "B1", codes "secret")
unfolding lacks all
parse_payload-payload_example =
    parse_payload-payload (codes "B1") (codes "secret") (ground arith) (ground arith) refl refl

allowed-has_duty_example :
    allowed credentials_write (auditor ∷ operator ∷ [])
    ≡ any (has_duty credentials_write) (auditor ∷ operator ∷ [])
unfolding writes any
allowed-has_duty_example = allowed-has_duty credentials_write (auditor ∷ operator ∷ []) refl
