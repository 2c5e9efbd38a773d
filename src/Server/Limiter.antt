-- ===== src/Server/Limiter.antt =====
-- The limiters of attempts, each for one key: loginAllowed, loginFailed, loginSucceeded and their
-- like for PINs (internal/server/server.go), and allowedLimit (internal/oidc/provider.go).
pub mod Window
use stumpfworks_identity.Base.{
  ℕ, ◌+◌, Bool, true, false, List, [], ◌∷◌, ◌++◌, length, filter, ltb, leb, if◌then◌else◌,
}

-- 10 * time.Minute
abbrev pub window : ℕ
window = 600000000000

-- t.After(now - 10min), written without a subtraction.
abbrev pub is_recent : ℕ → ℕ → Bool
is_recent now t = ltb now (t + window)

-- loginAllowed and pinAllowed: the attempts that are left, and whether another may be made.
unfoldable pub failures_allowed : ℕ → List ℕ → List ℕ × Bool
failures_allowed now attempts =
    let recent = filter (is_recent now) attempts in (recent, ltb (length recent) 5)

-- loginFailed and pinFailed
unfoldable pub record_failure : ℕ → List ℕ → List ℕ
record_failure now attempts = attempts ++ now ∷ []

-- loginSucceeded and pinSucceeded
unfoldable pub clear_failures : List ℕ → List ℕ
clear_failures attempts = []

-- allowedLimit
unfoldable pub allowed_limit : ℕ → ℕ → List ℕ → List ℕ × Bool
allowed_limit maximum now attempts =
    let kept = filter (is_recent now) attempts in
    if leb maximum (length kept) then (kept, false) else (kept ++ now ∷ [], true)
