-- ===== src/Auth/Primitives.antt =====
-- The library routines that the authentication code calls and that stand outside the repository:
-- crypto/hmac, crypto/sha256, encoding/hex, encoding/base64 (RawURLEncoding), strconv.
use stumpfworks_identity.Base.{Text, true, Option, some, ℕ, ◌≡◌, lacks}

-- format_int and parse_int count seconds from the zero time of Go, so that every instant is a
-- natural number; a decimal text of an earlier instant is `none`, which every caller refuses as it
-- refuses a date in the past.
pub record Primitives : Type 0 where
  pub sha256 : Text → Text
  pub hmac : Text → Text → Text
  pub hex_encode : Text → Text
  pub hex_decode : Text → Option Text
  pub base64_encode : Text → Text
  pub base64_decode : Text → Option Text
  pub format_int : ℕ → Text
  pub parse_int : Text → Option ℕ

-- What the packages document: decoding undoes encoding, and neither the base64 alphabet nor a
-- decimal number has a full stop (byte 46).
pub record IsDocumented (p : Primitives) : Type 0 where
  pub hex_decode-encode : (s : Text) → p.hex_decode (p.hex_encode s) ≡ some s
  pub base64_decode-encode : (s : Text) → p.base64_decode (p.base64_encode s) ≡ some s
  pub parse-format : (n : ℕ) → p.parse_int (p.format_int n) ≡ some n
  pub base64_encode-lacks : (s : Text) → lacks 46 (p.base64_encode s) ≡ true
  pub format-lacks : (n : ℕ) → lacks 46 (p.format_int n) ≡ true
