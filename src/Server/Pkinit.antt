-- ===== src/Server/Pkinit.antt =====
-- internal/server/pkinit.go issuePKINIT: from a login grant to a certificate.
pub mod Issued
use stumpfworks_identity.Base.{
  ℕ, Bool, true, false, ◌&&◌, ◌||◌, Option, none, some, [], ◌∷◌, ◌++◌, Text, codes, text_eq, length,
  all, ltb, leb, ◌==◌, if◌then◌else◌,
}
use stumpfworks_identity.Store.Schema.{
  AuditEntry, Event, pkinit_issued, pkinit_denied, insert_audit,
}
use stumpfworks_identity.Server.Grants.{redeem_login_grant}
use stumpfworks_identity.Server.BadgeLogin.{State, is_empty}

pub record PkinitRequest : Type 0 where
  pub grant : Text
  pub client_id : Text
  pub csr : Text

-- pem.Decode gives a type and the bytes; parse_csr is x509.ParseCertificateRequest and
-- check_signature its CheckSignature; sign is the issuer's certificate with its expiry.
pub record Issuer : Type 0 where
  pub decode_pem : Text → Option (Text × Text)
  pub parse_csr : Text → Option Text
  pub check_signature : Text → Bool
  pub sign : Text → Text → Option (Text × ℕ)
  pub format_time : ℕ → Text

pub data PkinitResponse : Type 0 where
  problem : ℕ → PkinitResponse
  issued : Text → Text → PkinitResponse

abbrev pub is_alphanumeric : ℕ → Bool
is_alphanumeric c = (leb 65 c && leb c 90) || ((leb 97 c && leb c 122) || (leb 48 c && leb c 57))

abbrev pub is_name_byte : ℕ → Bool
is_name_byte c = is_alphanumeric c || ((c == 46) || ((c == 95) || (c == 45)))

-- loginUsername: ^[A-Za-z0-9][A-Za-z0-9._-]{0,63}$
unfoldable pub login_username : Text → Bool
login_username [] = false
login_username (c ∷ cs) = is_alphanumeric c && (leb (length cs) 63 && all is_name_byte cs)

abbrev pub pkinit_entry : Event → Text → Text → Bool → Text → Text → AuditEntry
pkinit_entry event username client success ip details = record {
  event = event;
  badge_id = [];
  username = username;
  client_id = client;
  success = success;
  ip_address = ip;
  details = details;
}

-- The block must be a CERTIFICATE REQUEST that parses with a valid signature.
unfoldable pub read_csr : Issuer → Text → Option Text
read_csr i csr = elim (i.decode_pem csr) [
  | none ↦ none
  | some block ↦
      if text_eq block.0 (codes "CERTIFICATE REQUEST")
      then elim (i.parse_csr block.1) [
        | none ↦ none
        | some csr ↦ if i.check_signature csr then some csr else none
      ]
      else none
]

-- The audit of the denial is best effort.
unfoldable pub deny_grant : Bool → PkinitRequest → Text → State → State × PkinitResponse
deny_grant fault r ip s = (
  (if fault then s else record s {
    database =
        insert_audit (pkinit_entry pkinit_denied [] r.client_id false ip (codes "invalid_grant"))
          s.database;
  }),
  problem 403,
)

unfoldable pub issue_for_user :
    Issuer → Bool → PkinitRequest → Text → Text → State → State × PkinitResponse
issue_for_user i fault r ip username s = elim (read_csr i r.csr) [
  | none ↦ (s, problem 400)
  | some csr ↦ elim (i.sign username csr) [
    | none ↦ (s, problem 500)
    | some made ↦ if fault then (s, problem 503) else (
      record s {
        database =
            insert_audit
              (pkinit_entry pkinit_issued username r.client_id true ip
                (codes "expires=" ++ i.format_time made.1))
              s.database;
      },
      issued username made.0,
    )
  ]
]

-- `fault` is whether the driver call of the audit fails.
unfoldable pub issue_pkinit :
    Option Issuer → Bool → PkinitRequest → Text → ℕ → State → State × PkinitResponse
issue_pkinit none fault r ip now s = (s, problem 503)
issue_pkinit (some i) fault r ip now s =
    if is_empty r.grant || (is_empty r.client_id || ltb 16384 (length r.csr))
    then (s, problem 400)
    else (let redeemed = redeem_login_grant r.grant r.client_id now s.grants in
        let after = record s { grants = redeemed.0 } in
        elim redeemed.1 [
          | none ↦ deny_grant fault r ip after
          | some g ↦
              if login_username g.username
              then issue_for_user i fault r ip g.username after
              else deny_grant fault r ip after
        ])
