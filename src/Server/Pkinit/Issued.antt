-- ===== src/Server/Pkinit/Issued.antt =====
-- Who gets a certificate.
use stumpfworks_identity.Base.{
  ℕ, ◌≡◌, refl, sym, ap, ◌∙◌, inl, inr, Bool, true, some, ◌++◌, arith, Text, codes, Option-cases,
}
use stumpfworks_identity.Store.Schema.{pkinit_issued, insert_audit}
use stumpfworks_identity.Server.Grants.{LoginGrant, redeem_login_grant}
use stumpfworks_identity.Server.BadgeLogin.{State}
use stumpfworks_identity.Server.Pkinit.{
  PkinitRequest, Issuer, issued, login_username, pkinit_entry, read_csr, deny_grant, issue_for_user,
  issue_pkinit,
}

for_user-ok :
    (i : Issuer) (fault : Bool) (r : PkinitRequest) (ip username : Text) (s : State)
    (name certificate : Text)
    → (issue_for_user i fault r ip username s).1 ≡ issued name certificate
    → (csr : Text) × (made : Text × ℕ) × (read_csr i r.csr ≡ some csr)
      × (i.sign username csr ≡ some made)
      × (name ≡ username)
      × (certificate ≡ made.0)
      × ((issue_for_user i fault r ip username s).0 ≡ record s {
        database =
            insert_audit
              (pkinit_entry pkinit_issued username r.client_id true ip
                (codes "expires=" ++ i.format_time made.1))
              s.database;
      })
unfolding issue_for_user
for_user-ok i fault r ip username s name certificate h = elim (Option-cases (read_csr i r.csr)) [
  | inl e ↦ absurd (ground arith)
  | inr (csr, e) ↦ elim (Option-cases (i.sign username csr)) [
    | inl w ↦ absurd (ground arith)
    | inr (made, w) ↦ (csr, made, e, w, ground arith, ground arith, ground arith)
  ]
]

handler-ok :
    (i : Issuer) (fault : Bool) (r : PkinitRequest) (ip : Text) (now : ℕ) (s : State)
    (name certificate : Text)
    → (issue_pkinit (some i) fault r ip now s).1 ≡ issued name certificate
    → (g : LoginGrant) × ((redeem_login_grant r.grant r.client_id now s.grants).1 ≡ some g)
      × (login_username g.username ≡ true)
      × (issue_pkinit (some i) fault r ip now s
          ≡ issue_for_user i fault r ip g.username
              (record s { grants = (redeem_login_grant r.grant r.client_id now s.grants).0 }))
unfolding issue_pkinit deny_grant
handler-ok i fault r ip now s name certificate h = ground arith

read_csr-signed :
    (i : Issuer) (text csr : Text) → read_csr i text ≡ some csr → i.check_signature csr ≡ true
unfolding read_csr
read_csr-signed i text csr h = ground arith

-- When issuePKINIT answers with a certificate, a login grant of that client was redeemed and its
-- user is the one that is named, with a well-formed name; the certificate was signed for that user
-- and a request that parses with a valid signature, the issue is in the audit, and the grants are
-- those that the redemption leaves.
pub issue_pkinit-issued :
    (i : Issuer) (fault : Bool) (r : PkinitRequest) (ip : Text) (now : ℕ) (s : State)
    (name certificate : Text)
    → (issue_pkinit (some i) fault r ip now s).1 ≡ issued name certificate
    → let redeemed = redeem_login_grant r.grant r.client_id now s.grants in
      let after = (issue_pkinit (some i) fault r ip now s).0 in
      (g : LoginGrant) × (csr : Text) × (made : Text × ℕ) × (redeemed.1 ≡ some g)
      × (name ≡ g.username)
      × (login_username name ≡ true)
      × (read_csr i r.csr ≡ some csr)
      × (i.check_signature csr ≡ true)
      × (i.sign name csr ≡ some made)
      × (certificate ≡ made.0)
      × (after.grants ≡ redeemed.0)
      × (after.database
          ≡ insert_audit
              (pkinit_entry pkinit_issued name r.client_id true ip
                (codes "expires=" ++ i.format_time made.1))
              s.database)
issue_pkinit-issued i fault r ip now s name certificate h =
    let (g, found, wellformed, same) = handler-ok i fault r ip now s name certificate h in
    let (csr, made, parsed, signed, named, answer, left) =
      for_user-ok i fault r ip g.username
        (record s { grants = (redeem_login_grant r.grant r.client_id now s.grants).0 }) name
        certificate (ap (λ x. x.1) (sym same) ∙ h) in
    (
      g,
      csr,
      made,
      found,
      named,
      rw named wellformed,
      parsed,
      read_csr-signed i r.csr csr parsed,
      rw named signed,
      answer,
      ap (λ x. x.0.grants) same ∙ ap (λ (x : State). x.grants) left,
      ap (λ x. x.0.database) same ∙ ap (λ (x : State). x.database) left ∙ rw named refl,
    )
