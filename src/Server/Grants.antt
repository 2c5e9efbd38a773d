-- ===== src/Server/Grants.antt =====
-- internal/server/server.go: the login grants that the server keeps in memory. The map is an
-- association list with one entry for a key; the lock of the source makes each call atomic.
pub mod SingleUse
use stumpfworks_identity.Base.{
  ℕ, ◌+◌, Bool, not, ◌&&◌, Option, none, some, List, ◌∷◌, Text, text_eq, find, filter, ltb,
  if◌then◌else◌,
}

pub record LoginGrant : Type 0 where
  pub username : Text
  pub client_id : Text
  pub expires : ℕ

abbrev pub Grants : Type 0
Grants = List (Text × LoginGrant)

-- 30 * time.Second
abbrev pub grant_lifetime : ℕ
grant_lifetime = 30000000000

abbrev pub has_key : Text → Text × LoginGrant → Bool
has_key token e = text_eq e.0 token

-- delete(s.grants, token)
unfoldable pub remove : Text → Grants → Grants
remove token = filter λ e. not (has_key token e)

-- s.grants[token]
unfoldable pub lookup : Text → Grants → Option LoginGrant
lookup token grants = elim (find (has_key token) grants) [ none ↦ none | some e ↦ some e.1 ]

unfoldable pub prune : ℕ → Grants → Grants
prune now = filter λ e. ltb now e.1.expires

unfoldable pub save_login_grant : Text → Text → Text → ℕ → Grants → Grants
save_login_grant token username client now grants =
    (token, record { username = username; client_id = client; expires = now + grant_lifetime })
    ∷ remove token (prune now grants)

-- The grant is deleted whether or not it is accepted; `none` is the result with a false flag.
unfoldable pub redeem_login_grant : Text → Text → ℕ → Grants → Grants × Option LoginGrant
redeem_login_grant token client now grants = (
  remove token grants,
  elim (lookup token grants) [
    | none ↦ none
    | some g ↦ if text_eq g.client_id client && ltb now g.expires then some g else none
  ],
)
