-- ===== src/Examples/Emergency.antt =====
-- An emergency grant that is consumed for a session, and the session revoked.
use stumpfworks_identity.Examples.Data.{repeated, works, empty}
use stumpfworks_identity.Store.Schema.{EmergencyAdminGrant, Database}
use stumpfworks_identity.Base.{
  ◌*◌, refl, ◌≢◌, none, List, Faults, [], ◌∷◌, arith, Text, text_eq, find, any, ok,
}
use stumpfworks_identity.Store.Emergency.{consume_emergency_admin_grant, consumed, minute}
use stumpfworks_identity.Store.Emergency.Spent.{consume_once}
use stumpfworks_identity.Store.Emergency.Single.{
  Operation, run-AllSound, AllSound, create, login, run,
}

abbrev token : Text
token = repeated 64 1

abbrev session : Text
session = repeated 64 2

abbrev grant : EmergencyAdminGrant
grant = record {
  id = repeated 16 3;
  token_hash = token;
  session_hash = none;
  created_at = 0;
  expires_at = 5 * minute;
  consumed_at = none;
  revoked_at = none;
}

abbrev stored : Database
stored = record empty { emergency_admin_grants = grant ∷ [] }

abbrev entered : Database
entered = record empty { emergency_admin_grants = consumed session 10 grant ∷ [] }

abbrev other_grant : EmergencyAdminGrant
other_grant = record grant { id = repeated 16 5; token_hash = repeated 64 6 }

-- Another grant is created, and the same token is tried again.
abbrev later_steps : List (Faults × Operation)
later_steps = (works, create other_grant []) ∷ (works, login token (repeated 64 7) 15 []) ∷ []

consume_once_example :
    (consume_emergency_admin_grant works token
      (repeated 64 4)
      20
      []
      (run later_steps (consume_emergency_admin_grant works token session 10 [] stored).0)).1
    ≢ ok (consumed (repeated 64 4) 20 grant)
unfolding consume_emergency_admin_grant find any text_eq
consume_once_example =
    consume_once works works token session (repeated 64 4) 10 20 [] [] later_steps stored
      (consumed session 10 grant) (consumed (repeated 64 4) 20 grant) (omega arith) refl

run-AllSound_example :
    AllSound (run ((works, create grant []) ∷ (works, login token session 10 []) ∷ []) empty)
run-AllSound_example =
    run-AllSound ((works, create grant []) ∷ (works, login token session 10 []) ∷ []) empty tt
