-- ===== src/Store/Webauthn/Validation.antt =====
-- internal/database/webauthn.go: what is refused before the database is asked. User numbers, flags
-- and counters are natural numbers, so the refusals of negative ones have no counterpart; the
-- instant 0 is Go's zero time.
use stumpfworks_identity.Store.Schema.{
  SelfServiceSession, WebauthnCeremony, WebauthnCredential, is_null,
}
use stumpfworks_identity.Base.{
  ℕ, ◌+◌, Bool, false, not, ◌&&◌, ◌||◌, [], ◌∷◌, Text, codes, text_eq, split, length, any, all,
  update, ltb, leb, ◌==◌,
}
use stumpfworks_identity.Store.Oidc.{Externals}

-- len(t) >= low && len(t) <= high
abbrev pub length_within : ℕ → ℕ → Text → Bool
length_within low high t = leb low (length t) && leb (length t) high

-- char == '-', 'a' to 'z' or '0' to '9'
abbrev pub is_label_byte : ℕ → Bool
is_label_byte c = (c == 45) || ((leb 97 c && leb c 122) || (leb 48 c && leb c 57))

-- The last byte of a text that is not empty.
unfoldable pub last_byte : Text → ℕ
last_byte [] = 0
last_byte (c ∷ []) = c
last_byte (c ∷ d ∷ cs) = last_byte (d ∷ cs)

unfoldable pub valid_label : Text → Bool
valid_label [] = false
valid_label (c ∷ cs) =
    leb (length (c ∷ cs)) 63
    && (not (c == 45) && (not (last_byte (c ∷ cs) == 45) && all is_label_byte (c ∷ cs)))

-- The bytes of ":/ \\".
abbrev pub is_forbidden_byte : ℕ → Bool
is_forbidden_byte c = (c == 58) || ((c == 47) || ((c == 32) || (c == 92)))

unfoldable pub valid_webauthn_rp_id : Externals → Text → Bool
valid_webauthn_rp_id x value =
    length_within 1 253 value
    && (text_eq value (x.lower value)
        && (not (x.parse_ip value)
            && (not (any is_forbidden_byte value) && all valid_label (split 46 value))))

unfoldable pub valid_webauthn_credential : Externals → WebauthnCredential → Bool
valid_webauthn_credential x c =
    length_within 1 4096 c.credential_id
    && (length_within 16 128 c.management_id
        && (ltb 0 c.user_id
            && (length_within 1 8192 c.public_key
                && (valid_webauthn_rp_id x c.rp_id
                    && (length_within 1 64 (x.trim_space c.name)
                        && (text_eq (x.trim_space c.name) c.name
                            && (leb (length c.transports) 256
                                && (leb (length c.attestation_type) 64
                                    && (leb (length c.attestation_format) 64
                                        && (leb c.flags 255
                                            && (is_null c.last_used_at
                                                && is_null c.revoked_at)))))))))))

abbrev pub is_kind : Text → Bool
is_kind kind = text_eq kind (codes "registration") || text_eq kind (codes "authentication")

abbrev pub is_audience : Text → Bool
is_audience audience = text_eq audience (codes "self-service") || text_eq audience (codes "admin")

-- 5 * time.Minute
abbrev pub five_minutes : ℕ
five_minutes = 300000000000

-- 15 * time.Minute
abbrev pub fifteen_minutes : ℕ
fifteen_minutes = 900000000000

unfoldable pub valid_webauthn_ceremony : WebauthnCeremony → Bool
valid_webauthn_ceremony c =
    length_within 1 128 c.id
    && (is_kind c.kind
        && (is_audience c.audience
            && (length_within 1 65536 c.session_data
                && (ltb c.created_at c.expires_at
                    && (leb c.expires_at (c.created_at + five_minutes)
                        && (not (text_eq c.kind (codes "registration"))
                            || not (is_null c.user_id)))))))

-- The guard of ActiveWebAuthnCeremony and ConsumeWebAuthnCeremony.
unfoldable pub valid_lookup : Text → Text → Text → ℕ → Bool
valid_lookup id kind audience now =
    length_within 1 128 id && (is_kind kind && (is_audience audience && ltb 0 now))

pub record AuthenticationUpdate : Type 0 where
  pub credential_id : Text
  pub user_id : ℕ
  pub sign_count : ℕ
  pub backup_state : Bool

unfoldable pub valid_webauthn_authentication :
    Text → ℕ → AuthenticationUpdate → SelfServiceSession → Bool
valid_webauthn_authentication id now update session =
    length_within 1 128 id
    && (ltb 0 now
        && (length_within 1 4096 update.credential_id
            && (ltb 0 update.user_id
                && (length_within 1 128 session.id
                    && (length_within 1 256 session.username
                        && (ltb now session.expires_at
                            && leb session.expires_at (now + fifteen_minutes)))))))

unfoldable pub valid_webauthn_sign_count : ℕ → ℕ → Bool
valid_webauthn_sign_count previous next = ((previous == 0) && (next == 0)) || ltb previous next
