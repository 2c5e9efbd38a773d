-- ===== src/Examples/Pkinit.antt =====
-- A certificate for a login grant.
use stumpfworks_identity.Examples.Data.{empty}
use stumpfworks_identity.Base.{
  ℕ, ◌≡◌, refl, true, false, some, [], ◌∷◌, ◌++◌, Text, codes, text_eq, find, filter, all,
}
use stumpfworks_identity.Store.Schema.{pkinit_issued, insert_audit}
use stumpfworks_identity.Server.Grants.{LoginGrant, redeem_login_grant, lookup, remove}
use stumpfworks_identity.Server.BadgeLogin.{State}
use stumpfworks_identity.Server.Pkinit.{
  PkinitRequest, Issuer, login_username, pkinit_entry, read_csr, issue_for_user, issue_pkinit,
}
use stumpfworks_identity.Server.Pkinit.Issued.{issue_pkinit-issued}

abbrev issuer : Issuer
issuer = record {
  decode_pem = λ t. some (codes "CERTIFICATE REQUEST", t);
  parse_csr = λ t. some t;
  check_signature = λ csr. true;
  sign = λ name csr. some (name ++ csr, 60);
  format_time = λ t. t ∷ [];
}

abbrev request : PkinitRequest
request = record { grant = 9 ∷ []; client_id = 5 ∷ []; csr = 1 ∷ [] }

abbrev before : State
before = record {
  grants = (9 ∷ [], record { username = codes "alice"; client_id = 5 ∷ []; expires = 30 }) ∷ [];
  pin_attempts = [];
  database = empty;
}

issue_pkinit-issued_example :
    let redeemed = redeem_login_grant (9 ∷ []) (5 ∷ []) 20 before.grants in
    let after = (issue_pkinit (some issuer) false request [] 20 before).0 in
    (g : LoginGrant) × (csr : Text) × (made : Text × ℕ) × (redeemed.1 ≡ some g)
    × (codes "alice" ≡ g.username)
    × (login_username (codes "alice") ≡ true)
    × (read_csr issuer (1 ∷ []) ≡ some csr)
    × (issuer.check_signature csr ≡ true)
    × (issuer.sign (codes "alice") csr ≡ some made)
    × (codes "alice" ++ 1 ∷ [] ≡ made.0)
    × (after.grants ≡ redeemed.0)
    × (after.database
        ≡ insert_audit
            (pkinit_entry pkinit_issued
              (codes "alice")
              (5 ∷ [])
              true
              []
              (codes "expires=" ++ issuer.format_time made.1))
            empty)
unfolding issue_pkinit issue_for_user read_csr login_username redeem_login_grant lookup remove find
    filter all text_eq
issue_pkinit-issued_example =
    issue_pkinit-issued issuer false request [] 20 before (codes "alice") (codes "alice" ++ 1 ∷ [])
      refl
