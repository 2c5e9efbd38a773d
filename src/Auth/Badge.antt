-- ===== src/Auth/Badge.antt =====
-- internal/badge/badge.go: badge tokens and the payload of a badge's QR code.
pub mod RoundTrip
use stumpfworks_identity.Base.{
  Text, codes, text_eq, split, length, Bool, false, ◌&&◌, not, some, none, List, ◌∷◌, [], ◌++◌,
  Result, ok, err, invalid, if◌then◌else◌, ◌==◌,
}
use stumpfworks_identity.Auth.Primitives.{Primitives}

unfoldable pub hash_token : Primitives → Text → Text
hash_token p token = p.hex_encode (p.sha256 token)

-- The lengths are compared before the constant-time comparison, which is equality then.
unfoldable pub verify_token : Primitives → Text → Text → Bool
unfolding hash_token
verify_token p token hash = elim (p.hex_decode (hash_token p token)) [
  | none ↦ false
  | some a ↦ elim (p.hex_decode hash) [
    | none ↦ false
    | some b ↦ (length a == length b) && text_eq a b
  ]
]

unfoldable pub payload : Text → Text → Text
payload code token = codes "SWBADGE:1:" ++ code ++ 58 ∷ token

unfoldable pub parse_pieces : List Text → Result (Text × Text)
parse_pieces (a ∷ b ∷ code ∷ token ∷ []) =
    if text_eq a (codes "SWBADGE")
      && (text_eq b (codes "1") && (not (length code == 0) && not (length token == 0)))
    then ok (code, token)
    else err invalid
parse_pieces _ = err invalid

unfoldable pub parse_payload : Text → Result (Text × Text)
unfolding parse_pieces
parse_payload v = parse_pieces (split 58 v)
