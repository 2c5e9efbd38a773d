-- ===== src/Auth/Sessions/RoundTrip.antt =====
-- What verification of a session token accepts.
use stumpfworks_identity.Base.{
  Text, codes, text_eq, text_eq_refl, text_eq_iff, strip_prefix, strip_prefix-append,
  strip_prefix_sound, split, split-lacks, split-append, lacks, all, ltb, if◌then◌else◌, Bool, true,
  false, Option, some, none, ℕ, ◌+◌, ◌↔◌, refuse, or_fail, ◌>>=◌, ◌>>◌, inl, inr, Option-cases, ◌≡◌,
  ◌≢◌, refl, sym, ◌∙◌, ◌∷◌, [], ◌++◌, ok, err, invalid, arith,
}
use mathlib.Core.List.{append_assoc}
use stumpfworks_identity.Auth.Primitives.{Primitives, IsDocumented}
use stumpfworks_identity.Auth.Sessions.{
  Sessions, unix, issue_for_duration, issue_for, pieces, audience_user, verify_pieces, verify_for,
  csrf, verify_csrf,
}

module _ (p : Primitives) (d : IsDocumented p) (s : Sessions) where
  split_token :
      (a b c : Text)
      → lacks 46 a ≡ true
      → lacks 46 b ≡ true
      → lacks 46 c ≡ true
      → pieces (split 46 ((a ++ 46 ∷ b) ++ 46 ∷ c)) ≡ some (a, b, c)
  unfolding pieces
  split_token a b c ha hb hc =
      rw (append_assoc, split-append 46 a _ ha, split-append 46 b _ hb, split-lacks 46 c hc) refl

  -- A token verifies for any audience exactly as its own identity and expiry do.
  verify_issued :
      (audience username wanted : Text) (now lifetime later : ℕ)
      → verify_for p s (issue_for_duration p s audience username now lifetime) wanted later ≡ (
          if ltb (unix (now + lifetime)) (unix later)
          then err invalid
          else audience_user wanted (audience ++ 58 ∷ username))
  unfolding verify_for issue_for_duration verify_pieces
  verify_issued audience username wanted now lifetime later =
      let identity = p.base64_encode (audience ++ 58 ∷ username) in
      let expiry = p.format_int (unix (now + lifetime)) in
      let mac = p.hmac s.key (identity ++ 46 ∷ expiry) in
      rw
        (split_token identity expiry (p.base64_encode mac)
          (d.base64_encode-lacks (audience ++ 58 ∷ username))
          (d.format-lacks (unix (now + lifetime))) (d.base64_encode-lacks mac))
        (rw (d.base64_decode-encode mac, text_eq_refl mac, d.parse-format (unix (now + lifetime)))
          (accept (ltb (unix (now + lifetime)) (unix later))))
    where
      accept :
          (late : Bool)
          → (refuse late invalid
              >> (or_fail (p.base64_decode (p.base64_encode (audience ++ 58 ∷ username))) invalid
                  >>= audience_user wanted))
            ≡ (if late then err invalid else audience_user wanted (audience ++ 58 ∷ username))
      accept true = refl
      accept false = rw (d.base64_decode-encode (audience ++ 58 ∷ username))

-- A prefix up to the first colon is the same on both sides.
split_at_colon :
    (a b u v : Text)
    → lacks 58 a ≡ true
    → lacks 58 b ≡ true
    → a ++ 58 ∷ u ≡ (b ++ 58 ∷ []) ++ v
    → a ≡ b
unfolding lacks all
split_at_colon [] [] u v ha hb e = refl
split_at_colon [] (y ∷ b) u v ha hb e = ground arith
split_at_colon (x ∷ a) [] u v ha hb e = ground arith
split_at_colon (x ∷ a) (y ∷ b) u v ha hb e = ground (arith, split_at_colon a b u v)

audience_user_own :
    (audience username : Text)
    → username ≢ []
    → audience_user audience (audience ++ 58 ∷ username) ≡ ok username
unfolding audience_user
audience_user_own audience [] h = absurd (h refl)
audience_user_own audience (x ∷ username) h =
    rw (sym (append_assoc audience (58 ∷ []) (x ∷ username)))
      (rw (strip_prefix-append (audience ++ 58 ∷ []) (x ∷ username)) (ground arith))

audience_user_other :
    (audience wanted username : Text)
    → lacks 58 audience ≡ true
    → lacks 58 wanted ≡ true
    → wanted ≢ audience
    → audience_user wanted (audience ++ 58 ∷ username) ≡ err invalid
unfolding audience_user
audience_user_other audience wanted username ha hw ne =
    elim (Option-cases (strip_prefix (wanted ++ 58 ∷ []) (audience ++ 58 ∷ username))) [
      | inl e ↦ rw e refl
      | inr (r, e) ↦
          absurd (
            ne (sym (split_at_colon audience wanted username r ha hw (strip_prefix_sound _ _ r e))))
    ]

module _ (p : Primitives) (d : IsDocumented p) (s : Sessions) where
  -- A token issued for an audience and a user name verifies for that audience as that user up to
  -- and including the second in which it expires, and is refused afterwards.
  pub verify_for-issue_for :
      (audience username : Text) (now later : ℕ)
      → username ≢ []
      → verify_for p s (issue_for p s audience username now) audience later
        ≡ (if ltb (unix (now + s.lifetime)) (unix later) then err invalid else ok username)
  unfolding issue_for
  verify_for-issue_for audience username now later h =
      verify_issued p d s audience username audience now s.lifetime later
      ∙ rw (audience_user_own audience username h)

  -- A token issued for one audience is refused for every other audience, at any time and for any
  -- user name and lifetime, where neither audience has a colon.
  pub verify_for_other_audience :
      (audience wanted username : Text) (now lifetime later : ℕ)
      → lacks 58 audience ≡ true
      → lacks 58 wanted ≡ true
      → wanted ≢ audience
      → verify_for p s (issue_for_duration p s audience username now lifetime) wanted later
        ≡ err invalid
  verify_for_other_audience audience wanted username now lifetime later ha hw ne =
      verify_issued p d s audience username wanted now lifetime later
      ∙ rw (audience_user_other audience wanted username ha hw ne) (ground arith)

  -- A CSRF token verifies exactly for the session tokens with its signature: the submitted text
  -- must decode to the keyed hash of the session token.
  pub verify_csrf_iff :
      (token submitted : Text)
      → (verify_csrf p s token submitted ≡ true)
        ↔ (p.base64_decode submitted ≡ some (p.hmac s.key (codes "csrf:" ++ token)))
  unfolding verify_csrf csrf
  verify_csrf_iff token submitted =
      rw (d.base64_decode-encode (p.hmac s.key (codes "csrf:" ++ token)), verify_csrf)
        (matches (p.base64_decode submitted) (p.hmac s.key (codes "csrf:" ++ token)))
    where
      matches :
          (actual : Option Text) (expected : Text)
          → ((elim actual [ none ↦ false | some a ↦ text_eq expected a ]) ≡ true)
            ↔ (actual ≡ some expected)
      matches none expected = ground arith
      matches (some a) expected = ground (arith, text_eq_iff expected a)
