-- ===== src/Auth/Badge/RoundTrip.antt =====
-- The payload of a badge is read back, and nothing else is accepted.
use stumpfworks_identity.Base.{
  Text, codes, text_eq_refl, text_eq_sound, text_eq_iff, split, split-lacks, split-append, lacks,
  all, true, List, ◌∷◌, [], ◌++◌, ok, ◌≡◌, ◌≢◌, refl, sym, ap, ◌∙◌, ◌↔◌, arith, ℕ,
}
use stumpfworks_identity.Auth.Primitives.{Primitives, IsDocumented}
use stumpfworks_identity.Auth.Badge.{hash_token, verify_token, payload, parse_pieces, parse_payload}

-- Pieces put together again.
join : ℕ → List Text → Text
join c [] = []
join c (s ∷ []) = s
join c (s ∷ t ∷ r) = s ++ c ∷ join c (t ∷ r)

join_cons :
    (c x : ℕ) (ps : List Text)
    → ps ≢ []
    → join c (elim ps [ [] ↦ (x ∷ []) ∷ [] | q ∷ qs ↦ (x ∷ q) ∷ qs ]) ≡ x ∷ join c ps
unfolding join
join_cons c x [] h = absurd (h refl)
join_cons c x (q ∷ []) h = refl
join_cons c x (q ∷ r ∷ qs) h = refl

split-ne-nil : (c : ℕ) (s : Text) → split c s ≢ []
unfolding split
split-ne-nil c [] h = cc
split-ne-nil c (x ∷ s) h = ground arith

join-split : (c : ℕ) (s : Text) → join c (split c s) ≡ s
unfolding split join
join-split c [] = refl
join-split c (x ∷ s) = ground (arith, join-split c s, split-ne-nil c s, join_cons c x (split c s))

split-payload :
    (code token : Text)
    → lacks 58 code ≡ true
    → lacks 58 token ≡ true
    → split 58 (payload code token) ≡ codes "SWBADGE" ∷ codes "1" ∷ code ∷ token ∷ []
unfolding payload lacks all
split-payload code token lc lt =
    rw (split-append 58 (codes "SWBADGE") (49 ∷ 58 ∷ code ++ 58 ∷ token) refl) (
      rw (split-append 58 (codes "1") (code ++ 58 ∷ token) refl)
        (rw (split-append 58 code token lc, split-lacks 58 token lt)))

-- The payload of a code and a token without colons, neither of them empty, parses to the two.
pub parse_payload-payload :
    (code token : Text)
    → code ≢ []
    → token ≢ []
    → lacks 58 code ≡ true
    → lacks 58 token ≡ true
    → parse_payload (payload code token) ≡ ok (code, token)
unfolding parse_payload
parse_payload-payload code token hc ht lc lt =
    rw (split-payload code token lc lt, text_eq_refl (codes "SWBADGE"), text_eq_refl (codes "1"))
      (ground arith)

parse_pieces_sound :
    (ps : List Text) (code token : Text)
    → parse_pieces ps ≡ ok (code, token)
    → (ps ≡ codes "SWBADGE" ∷ codes "1" ∷ code ∷ token ∷ []) × (code ≢ []) × (token ≢ [])
unfolding parse_pieces
parse_pieces_sound [] code token h = cc
parse_pieces_sound (a ∷ []) code token h = cc
parse_pieces_sound (a ∷ b ∷ []) code token h = cc
parse_pieces_sound (a ∷ b ∷ c ∷ []) code token h = cc
parse_pieces_sound (a ∷ b ∷ c ∷ t ∷ []) code token h =
    ground (arith, text_eq_sound a (codes "SWBADGE"), text_eq_sound b (codes "1"))
parse_pieces_sound (a ∷ b ∷ c ∷ t ∷ u ∷ r) code token h = cc

-- A text that parses to a code and a token is their payload, and neither of them is empty.
pub parse_payload_sound :
    (v code token : Text)
    → parse_payload v ≡ ok (code, token)
    → (v ≡ payload code token) × (code ≢ []) × (token ≢ [])
unfolding parse_payload payload
parse_payload_sound v code token h =
    let (e, hc, ht) = parse_pieces_sound (split 58 v) code token h in
    (sym (join-split 58 v) ∙ ap (join 58) e ∙ joined code token, hc, ht)
  where
    joined : (c t : Text) → join 58 (codes "SWBADGE" ∷ codes "1" ∷ c ∷ t ∷ []) ≡ payload c t
    joined c t = unfold join in refl

module _ (p : Primitives) (d : IsDocumented p) where
  -- A stored hash accepts exactly the tokens with the same SHA-256 sum as the token it was made of.
  pub verify_token_iff :
      (token stored : Text)
      → (verify_token p token (hash_token p stored) ≡ true) ↔ (p.sha256 token ≡ p.sha256 stored)
  unfolding verify_token hash_token
  verify_token_iff token stored = ground (
    arith,
    d.hex_decode-encode (p.sha256 token),
    d.hex_decode-encode (p.sha256 stored),
    text_eq_iff (p.sha256 token) (p.sha256 stored),
  )
