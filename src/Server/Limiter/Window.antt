-- ===== src/Server/Limiter/Window.antt =====
-- How many requests a limiter lets through in ten minutes.
use stumpfworks_identity.Base.{
  ℕ, ◌≤◌, ◌<◌, ◌≡◌, refl, ◌↔◌, true, List, [], ◌∷◌, arith, length, filter, count, length-append,
  length-filter-le, length-filter, count-le-length, count-append, if◌then◌else◌,
}
use stumpfworks_identity.Server.Limiter.{is_recent, failures_allowed, allowed_limit}

-- A run of requests at the given times: the attempts kept at the end, and the times of the accepted
-- requests, the latest first.
unfoldable pub run : ℕ → List ℕ → List ℕ → List ℕ → List ℕ × List ℕ
run maximum [] attempts accepted = (attempts, accepted)
run maximum (now ∷ times) attempts accepted =
    run maximum times (allowed_limit maximum now attempts).0
      (if (allowed_limit maximum now attempts).1 then now ∷ accepted else accepted)

-- The clock does not go back.
abbrev pub Rises : ℕ → List ℕ → Type 0
Rises from [] = Unit
Rises from (t ∷ times) = (from ≤ t) × Rises t times

-- The last time of a run.
abbrev pub last : ℕ → List ℕ → ℕ
last from [] = from
last from (t ∷ times) = last t times

count-filter :
    (now later : ℕ) (xs : List ℕ)
    → now ≤ later
    → count (is_recent later) (filter (is_recent now) xs) ≡ count (is_recent later) xs
unfolding count filter
count-filter now later [] h = refl
count-filter now later (x ∷ xs) h = ground (arith, count-filter now later xs h)

-- What is kept counts as the accepted requests do, from now on.
abbrev Agrees : ℕ → List ℕ → List ℕ → Type 0
Agrees from attempts accepted =
    (later : ℕ) → from ≤ later → count (is_recent later) attempts ≡ count (is_recent later) accepted

step-Agrees :
    (maximum from now : ℕ) (attempts accepted : List ℕ)
    → from ≤ now
    → Agrees from attempts accepted
    → Agrees now
        (allowed_limit maximum now attempts).0
        (if (allowed_limit maximum now attempts).1 then now ∷ accepted else accepted)
unfolding allowed_limit count
step-Agrees maximum from now attempts accepted h a later le = ground (
  arith,
  a later (omega arith),
  count-filter now later attempts le,
  count-append (is_recent later) (filter (is_recent now) attempts) (now ∷ []),
)

step-length :
    (maximum now : ℕ) (attempts : List ℕ)
    → length attempts ≤ maximum
    → length (allowed_limit maximum now attempts).0 ≤ maximum
unfolding allowed_limit
step-length maximum now attempts h = ground (
  arith,
  length-filter-le (is_recent now) attempts,
  length-append (filter (is_recent now) attempts) (now ∷ []),
)

run-bound :
    (maximum from : ℕ) (times attempts accepted : List ℕ) (later : ℕ)
    → Rises from times
    → length attempts ≤ maximum
    → Agrees from attempts accepted
    → last from times ≤ later
    → count (is_recent later) (run maximum times attempts accepted).1 ≤ maximum
unfolding run
run-bound maximum from [] attempts accepted later r l a le =
    omega (arith, a later le, l, count-le-length (is_recent later) attempts)
run-bound maximum from (now ∷ times) attempts accepted later r l a le =
    run-bound maximum now times _ _ later r.1 (step-length maximum now attempts l)
      (step-Agrees maximum from now attempts accepted r.0 a) le

-- Of any requests under one key, at times that do not go back, no more than the maximum are
-- accepted within the ten minutes before any later instant.
pub limit_in_window :
    (maximum from : ℕ) (times : List ℕ) (later : ℕ)
    → Rises from times
    → last from times ≤ later
    → count (is_recent later) (run maximum times [] []).1 ≤ maximum
limit_in_window maximum from times later r le =
    run-bound maximum from times [] [] later r (omega arith) (λ k h. refl) le

-- A login or PIN attempt is allowed exactly if fewer than five failures lie in the last ten minutes.
pub five_failures :
    (now : ℕ) (attempts : List ℕ)
    → ((failures_allowed now attempts).1 ≡ true) ↔ (count (is_recent now) attempts < 5)
unfolding failures_allowed
five_failures now attempts = ground (arith, length-filter (is_recent now) attempts)
