-- ===== src/Auth/Sessions.antt =====
-- internal/auth/session.go: signed session tokens and CSRF tokens. Times are nanoseconds since the
-- zero time; a token is base64(audience:username) . expiry . base64(hmac).
pub mod RoundTrip
use stumpfworks_identity.Base.{
  Text, codes, text_eq, strip_prefix, split, length, ltb, if◌then◌else◌, Bool, false, Option, some,
  none, ℕ, ◌+◌, ◌/◌, ◌∷◌, [], ◌++◌, List, Result, ok, err, invalid, ◌>>=◌, ◌>>◌, refuse, require,
  or_fail, ◌==◌,
}
use stumpfworks_identity.Auth.Primitives.{Primitives}

-- time.Time.Unix
abbrev pub unix : ℕ → ℕ
unix t = t / 1000000000

pub record Sessions : Type 0 where
  pub key : Text
  pub lifetime : ℕ

unfoldable pub new_sessions : Text → ℕ → Result Sessions
new_sessions secret lifetime =
    if ltb (length secret) 32
    then err invalid
    else ok (record { key = secret; lifetime = lifetime })

abbrev pub admin_audience : Text
admin_audience = codes "admin"

-- What the signature covers.
unfoldable pub signed_part : Text → Text → Text
signed_part identity expiry = identity ++ 46 ∷ expiry

unfoldable pub issue_for_duration : Primitives → Sessions → Text → Text → ℕ → ℕ → Text
unfolding signed_part
issue_for_duration p s audience username now lifetime =
    signed_part (p.base64_encode (audience ++ 58 ∷ username)) (p.format_int (unix (now + lifetime)))
    ++ 46
      ∷ p.base64_encode (
          p.hmac s.key (
            signed_part (p.base64_encode (audience ++ 58 ∷ username))
              (p.format_int (unix (now + lifetime)))))

unfoldable pub issue_for : Primitives → Sessions → Text → Text → ℕ → Text
issue_for p s audience username now = issue_for_duration p s audience username now s.lifetime

unfoldable pub issue : Primitives → Sessions → Text → ℕ → Text
issue p s username now = issue_for p s admin_audience username now

-- The three pieces of a token; any other number of pieces is refused.
unfoldable pub pieces : List Text → Option (Text × Text × Text)
pieces (a ∷ b ∷ c ∷ []) = some (a, b, c)
pieces _ = none

-- `!strings.HasPrefix(raw, prefix) || len(raw) == len(prefix)`, and the rest behind the prefix.
unfoldable pub audience_user : Text → Text → Result Text
audience_user audience raw = do
  user ← or_fail (strip_prefix (audience ++ 58 ∷ []) raw) invalid
  refuse (length user == 0) invalid
  ok user

unfoldable pub verify_pieces : Primitives → Sessions → Text × Text × Text → Text → ℕ → Result Text
unfolding signed_part audience_user
verify_pieces p s (identity, expires, signature) audience now = do
  sig ← or_fail (p.base64_decode signature) invalid
  require (text_eq sig (p.hmac s.key (signed_part identity expires))) invalid
  expiry ← or_fail (p.parse_int expires) invalid
  refuse (ltb expiry (unix now)) invalid
  raw ← or_fail (p.base64_decode identity) invalid
  audience_user audience raw

unfoldable pub verify_for : Primitives → Sessions → Text → Text → ℕ → Result Text
unfolding pieces verify_pieces
verify_for p s token audience now = do
  parts ← or_fail (pieces (split 46 token)) invalid
  verify_pieces p s parts audience now

unfoldable pub verify : Primitives → Sessions → Text → ℕ → Result Text
verify p s token now = verify_for p s token admin_audience now

unfoldable pub csrf : Primitives → Sessions → Text → Text
csrf p s token = p.base64_encode (p.hmac s.key (codes "csrf:" ++ token))

unfoldable pub verify_csrf : Primitives → Sessions → Text → Text → Bool
unfolding csrf
verify_csrf p s token csrf_token = elim (p.base64_decode (csrf p s token)) [
  | none ↦ false
  | some expected ↦ elim (p.base64_decode csrf_token) [
    | none ↦ false
    | some actual ↦ text_eq expected actual
  ]
]
