-- ===== src/Store/Devices/Validation.antt =====
-- internal/database/client_device_authentication.go: the tests of identifiers, sums and serial
-- numbers, of enrollment tokens and of device credentials.
use stumpfworks_identity.Store.Schema.{EnrollmentToken, DeviceCredential, is_null}
use stumpfworks_identity.Base.{
  ℕ, ◌-◌, ◌*◌, ◌%◌, Bool, false, not, ◌&&◌, ◌||◌, Option, [], ◌∷◌, ◌++◌, Text, codes, text_eq,
  length, all, ltb, leb, ◌==◌, if◌then◌else◌, invalid, Result, refuse,
}

-- net.ParseIP, hex.DecodeString and strings.TrimSpace, strings.ToLower.
pub record Externals : Type 0 where
  pub parse_ip : Text → Bool
  pub hex_decode : Text → Option Text
  pub trim_space : Text → Text
  pub to_lower : Text → Text

abbrev pub minute : ℕ
minute = 60000000000

abbrev pub day : ℕ
day = 86400000000000

-- ClientDeviceActivationWindow
abbrev pub activation_window : ℕ
activation_window = 10 * minute

-- The runes of an identifier are ASCII, so that a test of its bytes is a test of its runes.
unfoldable pub is_public_byte : ℕ → Bool
is_public_byte r =
    (leb 97 r && leb r 122)
    || ((leb 65 r && leb r 90)
        || ((leb 48 r && leb r 57) || ((r == 46) || ((r == 95) || ((r == 58) || (r == 45))))))

unfoldable pub valid_public_identifier : Externals → Text → Bool
valid_public_identifier x value =
    not
      (ltb (length value) 1 || (ltb 255 (length value) || not (text_eq (x.trim_space value) value)))
    && all is_public_byte value

unfoldable pub valid_sha256 : Externals → Text → Bool
valid_sha256 x value =
    not (not (length value == 64) || not (text_eq (x.to_lower value) value))
    && not (is_null (x.hex_decode value))

abbrev pub starts_with_zero : Text → Bool
starts_with_zero [] = false
starts_with_zero (c ∷ cs) = c == 48

-- `strings.Repeat("0", len(value)%2) + value`
abbrev pub pad_even : Text → Text
pad_even value = if length value % 2 == 0 then value else 48 ∷ value

unfoldable pub valid_certificate_serial : Externals → Text → Bool
valid_certificate_serial x value =
    not (
      ltb (length value) 1
      || (ltb 128 (length value)
          || (not (text_eq (x.to_lower value) value) || starts_with_zero value)))
    && not (is_null (x.hex_decode (pad_even value)))

unfoldable pub validate_enrollment_token : Externals → EnrollmentToken → Result (Unit {0})
validate_enrollment_token x token =
    refuse
      (not (valid_public_identifier x token.id)
        || (not (valid_public_identifier x token.client_id)
            || (not (valid_sha256 x token.token_hash)
                || ((token.created_at == 0)
                    || (not (ltb token.created_at token.expires_at)
                        || ltb day (token.expires_at - token.created_at))))))
      invalid

unfoldable pub validate_device_credential : Externals → DeviceCredential → Result (Unit {0})
validate_device_credential x c =
    refuse
      (not (valid_public_identifier x c.id)
        || (not (valid_public_identifier x c.client_id)
            || (not (valid_sha256 x c.fingerprint_sha256)
                || (not (valid_certificate_serial x c.serial)
                    || (not (
                          text_eq c.uri_san
                            (codes "urn:stumpfworks:identity:client:" ++ c.client_id))
                        || (ltb 255 (length c.uri_san)
                            || (not (valid_public_identifier x c.public_key_algorithm)
                                || (not (valid_public_identifier x c.issuer_id)
                                    || ((c.issued_at == 0)
                                        || (not (ltb c.issued_at c.expires_at)
                                            || ltb (397 * day)
                                                (c.expires_at - c.issued_at)))))))))))
      invalid
