-- ===== src/Examples/Oidc.antt =====
-- A code that is exchanged, and the session it opens.
use stumpfworks_identity.Examples.Data.{works, empty}
use stumpfworks_identity.Store.Schema.{
  User, OidcClient, OidcCode, OidcSession, Database, oidc_user_sessions_revoked, validate_audit_ip,
}
use stumpfworks_identity.Base.{
  ◌≤◌, ◌≡◌, refl, ◌≢◌, true, false, none, some, [], ◌∷◌, arith, codes, text_eq, find, filter, count,
  any, update, ok,
}
use stumpfworks_identity.Store.Oidc.{
  Externals, take_code, exchangeable, references, consume_oidc_code_denial_with_audit, denial_body,
}
use stumpfworks_identity.Store.Oidc.Sessions.{
  NewSession, consume_oidc_code_with_session_audit, session_body, insert_session,
  oidc_session_by_token_hash, is_live, of_user, open_in, revoke_bulk, bulk_body,
}
use stumpfworks_identity.Store.Oidc.Replay.{Avoids, Step, exchange, run, exchange_once}
use stumpfworks_identity.Store.Oidc.Revocation.{opened, session_opened, finds, revoke_bulk-cuts_off}

abbrev pub anything : Externals
anything = record {
  parse_ip = λ t. true;
  lower = λ t. t;
  format_count = λ n. n ∷ [];
  trim_space = λ t. t;
}

abbrev pub alice : User
alice = record { id = 1; username = 65 ∷ []; display_name = []; pin_hash = []; oidc_subject = [] }

abbrev wiki : OidcClient
wiki = record {
  client_id = 5 ∷ [];
  secret_hash = [];
  redirect_uris = [];
  scopes = [];
  enabled = true;
}

abbrev code : OidcCode
code = record {
  code_hash = 7 ∷ [];
  client_id = 5 ∷ [];
  user_id = 1;
  redirect_uri = 6 ∷ [];
  scope = 8 ∷ [];
  nonce = [];
  code_challenge = [];
  expires_at = 100;
  consumed_at = none;
}

abbrev issued : Database
issued = record empty { users = alice ∷ []; oidc_clients = wiki ∷ []; oidc_codes = code ∷ [] }

abbrev new : NewSession
new = record { session_id = 9 ∷ []; access_token_hash = 10 ∷ []; expires_at = 1000 }

abbrev again : Step
again = record {
  faults = works;
  ip = [];
  now = 30;
  operation = exchange (7 ∷ []) (5 ∷ []) (6 ∷ []);
}

exchange_run :
    (consume_oidc_code_with_session_audit anything works
      (7 ∷ [])
      (5 ∷ [])
      (6 ∷ [])
      20
      new
      []
      issued).1
    ≡ ok code
unfolding consume_oidc_code_with_session_audit session_body take_code exchangeable insert_session
    references find filter text_eq count update any validate_audit_ip
exchange_run = refl

exchange_once_example :
    (consume_oidc_code_with_session_audit anything works (7 ∷ []) (5 ∷ []) (6 ∷ []) 40 new [] (
      run anything
        (again ∷ [])
        (consume_oidc_code_with_session_audit anything works
          (7 ∷ [])
          (5 ∷ [])
          (6 ∷ [])
          20
          new
          []
          issued).0)).1
    ≢ ok code
unfolding Avoids
exchange_once_example =
    exchange_once anything works works (7 ∷ []) (5 ∷ []) (5 ∷ []) (6 ∷ []) (6 ∷ []) 20 40 new new []
      [] (again ∷ []) issued code code (tt, tt) exchange_run

denial_run :
    (consume_oidc_code_denial_with_audit anything works
      (7 ∷ [])
      (5 ∷ [])
      (6 ∷ [])
      20
      []
      (codes "pkce_failed")
      issued).1
    ≡ ok tt
unfolding consume_oidc_code_denial_with_audit denial_body take_code exchangeable find text_eq count
    update validate_audit_ip
denial_run = refl

session_opened_example :
    (find (exchangeable (7 ∷ []) (5 ∷ []) (6 ∷ []) 20) issued.oidc_codes ≡ some code)
    × (exchangeable (7 ∷ []) (5 ∷ []) (6 ∷ []) 20 code ≡ true)
    × (oidc_session_by_token_hash works
          (10 ∷ [])
          (5 ∷ [])
          30
          (consume_oidc_code_with_session_audit anything works
            (7 ∷ [])
            (5 ∷ [])
            (6 ∷ [])
            20
            new
            []
            issued).0
        ≡ ok (opened new code 20))
unfolding any text_eq
session_opened_example =
    session_opened anything works works (7 ∷ []) (5 ∷ []) (6 ∷ []) 20 30 new [] issued code
      exchange_run refl (omega arith) refl

abbrev elsewhere : OidcSession
elsewhere = record {
  session_id = 12 ∷ [];
  access_token_hash = 13 ∷ [];
  client_id = 5 ∷ [];
  user_id = 2;
  scope = [];
  issued_at = 1;
  expires_at = 1000;
  revoked_at = none;
}

abbrev bob : User
bob = record { id = 2; username = 66 ∷ []; display_name = []; pin_hash = []; oidc_subject = [] }

abbrev busy : Database
busy = record issued {
  users = alice ∷ bob ∷ [];
  oidc_sessions =
      record elsewhere { session_id = 14 ∷ []; access_token_hash = 15 ∷ []; user_id = 1 }
      ∷ elsewhere
      ∷ [];
}

revoke_bulk-cuts_off_example :
    (1 ≡ count (open_in (of_user 1) 50) busy.oidc_sessions)
    × (1 ≤ 1)
    × (finds (of_user 1) (
          oidc_session_by_token_hash works
            (15 ∷ [])
            (5 ∷ [])
            60
            (revoke_bulk anything works
              (of_user 1)
              oidc_user_sessions_revoked
              (65 ∷ [])
              []
              50
              50
              []
              []
              busy).0)
        ≡ false)
unfolding revoke_bulk bulk_body oidc_session_by_token_hash is_live find text_eq count update any
    validate_audit_ip
revoke_bulk-cuts_off_example =
    revoke_bulk-cuts_off anything works works (of_user 1) oidc_user_sessions_revoked (65 ∷ []) [] 50
      50 60 [] [] (15 ∷ []) (5 ∷ []) busy 1 (omega arith) refl
