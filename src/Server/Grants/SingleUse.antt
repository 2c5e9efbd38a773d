-- ===== src/Server/Grants/SingleUse.antt =====
-- A login grant is good once, for its client, for thirty seconds.
use stumpfworks_identity.Base.{
  ℕ, ◌+◌, ◌≡◌, refl, Bool, false, ◌&&◌, none, some, List, [], ◌∷◌, arith, Text, text_eq_refl,
  text_eq, All, find, filter, ltb, if◌then◌else◌,
}
use stumpfworks_identity.Server.Grants.{
  LoginGrant, Grants, grant_lifetime, has_key, remove, lookup, prune, save_login_grant,
  redeem_login_grant,
}

lookup-remove : (token : Text) (grants : Grants) → lookup token (remove token grants) ≡ none
unfolding lookup remove find filter
lookup-remove token [] = refl
lookup-remove token (e ∷ grants) = ground (arith, lookup-remove token grants)

find-filter_other :
    (token : Text) (keep : Text × LoginGrant → Bool) (grants : Grants)
    → find (has_key token) grants ≡ none
    → find (has_key token) (filter keep grants) ≡ none
unfolding find filter
find-filter_other token keep [] h = refl
find-filter_other token keep (e ∷ grants) h = ground (arith, find-filter_other token keep grants)

-- What other requests may do between two redemptions: issue a grant under another token, or redeem.
pub data Call : Type 0 where
  save : Text → Text → Text → ℕ → Call
  redeem : Text → Text → ℕ → Call

unfoldable pub apply : Call → Grants → Grants
apply (save token username client now) grants = save_login_grant token username client now grants
apply (redeem token client now) grants = (redeem_login_grant token client now grants).0

unfoldable pub run : List Call → Grants → Grants
run [] grants = grants
run (c ∷ cs) grants = run cs (apply c grants)

-- No call issues a grant under the token.
abbrev pub Avoids : Text → Call → Type 0
Avoids token (save issued username client now) = text_eq issued token ≡ false
Avoids token (redeem redeemed client now) = Unit

abbrev pub Absent : Text → Grants → Type 0
Absent token grants = find (has_key token) grants ≡ none

apply-Absent :
    (token : Text) (c : Call) (grants : Grants)
    → Avoids token c
    → Absent token grants
    → Absent token (apply c grants)
unfolding apply save_login_grant redeem_login_grant remove prune
apply-Absent token (save issued username client now) grants a h =
    unfold find in
    rw a (find-filter_other token _ (filter _ grants) (find-filter_other token _ grants h))
apply-Absent token (redeem redeemed client now) grants a h = find-filter_other token _ grants h

run-Absent :
    (token : Text) (cs : List Call) (grants : Grants)
    → All (Avoids token) cs
    → Absent token grants
    → Absent token (run cs grants)
unfolding run
run-Absent token [] grants a h = h
run-Absent token (c ∷ cs) grants a h =
    run-Absent token cs (apply c grants) a.1 (apply-Absent token c grants a.0 h)

remove-Absent : (token : Text) (grants : Grants) → Absent token (remove token grants)
unfolding remove find filter
remove-Absent token [] = refl
remove-Absent token (e ∷ grants) = ground (arith, remove-Absent token grants)

-- A grant that was redeemed, with success or without, is not redeemed again: after any calls that
-- do not issue a grant under the same token, redeeming the token gives nothing.
pub redeem_once :
    (token client client' : Text) (now later : ℕ) (cs : List Call) (grants : Grants)
    → All (Avoids token) cs
    → (redeem_login_grant token client' later
        (run cs (redeem_login_grant token client now grants).0)).1
      ≡ none
unfolding redeem_login_grant lookup
redeem_once token client client' now later cs grants a =
    ground (arith, run-Absent token cs (remove token grants) a (remove-Absent token grants))

-- A grant that was just issued is redeemed exactly by its client and within thirty seconds, and
-- names the user it was issued for.
pub redeem-save :
    (token username client wanted : Text) (now later : ℕ) (grants : Grants)
    → (redeem_login_grant token wanted later (save_login_grant token username client now grants)).1
      ≡ (if text_eq client wanted && ltb later (now + grant_lifetime)
          then some
              (record { username = username; client_id = client; expires = now + grant_lifetime })
          else none)
unfolding redeem_login_grant save_login_grant lookup find
redeem-save token username client wanted now later grants = ground (arith, text_eq_refl token)
