-- ===== src/Examples/Badges.antt =====
-- A badge that is revoked and one that is replaced.
use stumpfworks_identity.Examples.Data.{works, empty}
use stumpfworks_identity.Store.Schema.{User, Badge, Database}
use stumpfworks_identity.Base.{refl, ◌≢◌, true, false, none, [], ◌∷◌, arith, ok}
use stumpfworks_identity.Store.Badges.{
  record_badge_authentication_success, Externals, revoke, max_id,
}
use stumpfworks_identity.Store.Badges.Revoked.{run, lost, revoke_final}

abbrev anything : Externals
anything = record { parse_ip = λ t. true; format_code = λ n. n ∷ [] }

abbrev owner : User
owner = record {
  id = 1;
  username = 65 ∷ [];
  display_name = 65 ∷ [];
  pin_hash = [];
  oidc_subject = [];
}

abbrev card : Badge
card = record {
  id = 3;
  badge_code = 66 ∷ [];
  user_id = 1;
  token_hash = [];
  enabled = true;
  activation_pending = false;
  description = [];
  last_used_at = none;
  revoked_at = none;
}

abbrev held : Database
held = record empty { users = owner ∷ []; badges = card ∷ [] }

revoke_final_example :
    (record_badge_authentication_success anything works 3 (67 ∷ []) [] 30 (
      run anything
        (record { faults = works; ip = []; clock = 25; operation = lost 3 1 } ∷ [])
        (revoke works 3 20 held).0)).1
    ≢ ok tt
unfolding max_id revoke
revoke_final_example =
    revoke_final 3 20 anything works works
      (record { faults = works; ip = []; clock = 25; operation = lost 3 1 } ∷ []) (67 ∷ []) [] 30
      held (omega arith) refl

abbrev replacement : Badge
replacement = record card {
  id = 4;
  badge_code = 4 ∷ [];
  token_hash = 7 ∷ [];
  enabled = false;
  activation_pending = true;
}
