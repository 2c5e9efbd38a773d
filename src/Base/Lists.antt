-- ===== src/Base/Lists.antt =====
-- Lists measured by native numbers, tests on lists, and rows selected, counted and updated by a test.
use Prim.Native.Nat.{ℕ, suc, ◌+◌, ◌≤◌, ◌<◌}
use mathlib.Core.Path.{◌≡◌, refl, ap, subst}
use mathlib.Core.Logic.{inl, inr}
use mathlib.Core.Bool.{Bool, true, false, ◌&&◌, ◌||◌}
use mathlib.Core.Option.{Option, none, some}
use mathlib.Core.List.{List, [], ◌∷◌, ◌++◌}
use native.Mathlib.Omega.{arith}
use stumpfworks_identity.Base.Tests.{if◌then◌else◌, Bool-cases}

module _ {ℓ} {A : Type ℓ} where
  abbrev pub length : List A → ℕ
  length [] = 0
  length (x ∷ xs) = suc (length xs)

  -- The first row that passes the test.
  unfoldable pub find : (A → Bool) → List A → Option A
  find p [] = none
  find p (x ∷ xs) = if p x then some x else find p xs

  unfoldable pub filter : (A → Bool) → List A → List A
  filter p [] = []
  filter p (x ∷ xs) = if p x then x ∷ filter p xs else filter p xs

  unfoldable pub count : (A → Bool) → List A → ℕ
  count p [] = 0
  count p (x ∷ xs) = (if p x then 1 else 0) + count p xs

  unfoldable pub any : (A → Bool) → List A → Bool
  any p [] = false
  any p (x ∷ xs) = p x || any p xs

  unfoldable pub all : (A → Bool) → List A → Bool
  all p [] = true
  all p (x ∷ xs) = p x && all p xs

  -- UPDATE … WHERE: every row that passes the test is changed.
  unfoldable pub update : (A → Bool) → (A → A) → List A → List A
  update p f [] = []
  update p f (x ∷ xs) = (if p x then f x else x) ∷ update p f xs

  -- A property of every row.
  abbrev pub All {κ} : (A → Type κ) → List A → Type κ
  All P [] = Unit
  All P (x ∷ xs) = P x × All P xs

  pub length-append : (xs ys : List A) → length (xs ++ ys) ≡ length xs + length ys
  length-append [] ys = omega arith
  length-append (x ∷ xs) ys = omega (arith, length-append xs ys)

  pub length-update : (p : A → Bool) (f : A → A) (xs : List A) → length (update p f xs) ≡ length xs
  unfolding update
  length-update p f [] = refl
  length-update p f (x ∷ xs) = ap suc (length-update p f xs)

  pub length-filter-le : (p : A → Bool) (xs : List A) → length (filter p xs) ≤ length xs
  unfolding filter
  length-filter-le p [] = omega arith
  length-filter-le p (x ∷ xs) = ground (arith, length-filter-le p xs)

  pub count-le-length : (p : A → Bool) (xs : List A) → count p xs ≤ length xs
  unfolding count
  count-le-length p [] = omega arith
  count-le-length p (x ∷ xs) = ground (arith, count-le-length p xs)

  pub count-append : (p : A → Bool) (xs ys : List A) → count p (xs ++ ys) ≡ count p xs + count p ys
  unfolding count
  count-append p [] ys = omega arith
  count-append p (x ∷ xs) ys = omega (arith, count-append p xs ys)

  pub find_sound : (p : A → Bool) (xs : List A) (a : A) → find p xs ≡ some a → p a ≡ true
  unfolding find
  find_sound p [] a h = ground arith
  find_sound p (x ∷ xs) a h = ground (arith, find_sound p xs a)

  pub find_of_count : (p : A → Bool) (xs : List A) → count p xs ≡ 0 → find p xs ≡ none
  unfolding find count
  find_of_count p [] h = refl
  find_of_count p (x ∷ xs) h = ground (arith, find_of_count p xs)

  -- A row that is found is counted.
  pub count_of_find : (p : A → Bool) (xs : List A) (a : A) → find p xs ≡ some a → 1 ≤ count p xs
  unfolding find count
  count_of_find p [] a h = ground arith
  count_of_find p (x ∷ xs) a h = ground (arith, count_of_find p xs a)

module _ {ℓ} {A : Type ℓ} (p : A → Bool) (f : A → A) (q : A → Bool) where
  -- No row passes a test after an update if none can.
  pub find-update-none :
      (xs : List A) → ((x : A) → q (if p x then f x else x) ≡ false) → find q (update p f xs) ≡ none
  unfolding find update
  find-update-none [] h = refl
  find-update-none (x ∷ xs) h = rw (h x) (find-update-none xs h)

  pub count-update_none :
      (xs : List A) → ((x : A) → q (if p x then f x else x) ≡ false) → count q (update p f xs) ≡ 0
  unfolding count update
  count-update_none [] h = refl
  count-update_none (x ∷ xs) h = rw (h x, count-update_none xs h) (omega arith)

  -- An update that takes no row into a test does not raise its count.
  pub count-update-le :
      (xs : List A)
      → ((x : A) → q (if p x then f x else x) ≡ true → q x ≡ true)
      → count q (update p f xs) ≤ count q xs
  unfolding count update
  count-update-le [] h = omega arith
  count-update-le (x ∷ xs) h = ground (arith, h x, count-update-le xs h)

  -- An update that leaves a test as it is leaves its count.
  pub count-update-eq :
      (xs : List A)
      → ((x : A) → q (if p x then f x else x) ≡ q x)
      → count q (update p f xs) ≡ count q xs
  unfolding count update
  count-update-eq [] h = refl
  count-update-eq (x ∷ xs) h = rw (h x, count-update-eq xs h)

module _ {ℓ κ} {A : Type ℓ} (P : A → Type κ) where
  -- A property of every row that the update keeps holds of every row afterwards.
  pub All-update :
      (p : A → Bool) (f : A → A) (xs : List A)
      → ((x : A) → p x ≡ true → P x → P (f x))
      → All P xs
      → All P (update p f xs)
  unfolding update
  All-update p f [] h a = tt
  All-update p f (x ∷ xs) h a = elim (Bool-cases (p x)) [
    | inl e ↦ rw e (h x e a.0, All-update p f xs h a.1)
    | inr e ↦ rw e (a.0, All-update p f xs h a.1)
  ]

  pub All-find : (p : A → Bool) (xs : List A) (a : A) → find p xs ≡ some a → All P xs → P a
  unfolding find
  All-find p [] a e h = cc
  All-find p (x ∷ xs) a e h = elim (Bool-cases (p x)) [
    | inl t ↦ let same : x ≡ a = ground (arith, t) in subst P same h.0
    | inr t ↦ All-find p xs a (rw t at e) h.1
  ]

  pub All-append : (xs ys : List A) → All P xs → All P ys → All P (xs ++ ys)
  All-append [] ys a b = b
  All-append (x ∷ xs) ys a b = (a.0, All-append xs ys a.1 b)

module _ {ℓ} {A : Type ℓ} (p : A → Bool) (f : A → A) (q q₀ : A → Bool) where
  -- The first row that an update changes is the first that passes a test which only changed rows
  -- can pass.
  pub find-update_same :
      (xs : List A) (r : A)
      → find p xs ≡ some r
      → any q₀ xs ≡ false
      → ((x : A) → q₀ x ≡ false → q x ≡ false)
      → q (f r) ≡ true
      → find q (update p f xs) ≡ some (f r)
  unfolding find update any
  find-update_same [] r e n k t = cc
  find-update_same (x ∷ xs) r e n k t = ground (arith, k x, find-update_same xs r)

module _ {ℓ} {A : Type ℓ} (p : A → Bool) (f : A → A) (q : A → Bool) where
  -- A test that the update leaves as it is selects the same row, in its new form.
  pub find-update_stable :
      (xs : List A) (r : A)
      → find q xs ≡ some r
      → ((x : A) → q (if p x then f x else x) ≡ q x)
      → find q (update p f xs) ≡ some (if p r then f r else r)
  unfolding find update
  find-update_stable [] r e k = cc
  find-update_stable (x ∷ xs) r e k = elim (Bool-cases (q x)) [
    | inl t ↦ rw (k x, t) (ground (arith, t))
    | inr t ↦ rw (k x, t) (find-update_stable xs r (rw t at e) k)
  ]

module _ {ℓ} {A : Type ℓ} (q : A → Bool) where
  pub count_of_any-false : (xs : List A) → any q xs ≡ false → count q xs ≡ 0
  unfolding any count
  count_of_any-false [] h = refl
  count_of_any-false (x ∷ xs) h = ground (arith, count_of_any-false xs)

module _ {ℓ} {A : Type ℓ} (p : A → Bool) (f : A → A) (q : A → Bool) where
  -- Rows that pass a test and are updated out of it leave its count.
  pub count-update_leave :
      (xs : List A)
      → ((x : A) → p x ≡ true → q x ≡ true)
      → ((x : A) → p x ≡ true → q (f x) ≡ false)
      → count q (update p f xs) + count p xs ≡ count q xs
  unfolding count update
  count-update_leave [] h k = omega arith
  count-update_leave (x ∷ xs) h k = ground (arith, h x, k x, count-update_leave xs h k)

  -- Rows that are updated into a test join its count.
  pub count-update_join :
      (xs : List A)
      → ((x : A) → p x ≡ true → q x ≡ false)
      → ((x : A) → p x ≡ true → q (f x) ≡ true)
      → count q (update p f xs) ≡ count q xs + count p xs
  unfolding count update
  count-update_join [] h k = omega arith
  count-update_join (x ∷ xs) h k = ground (arith, h x, k x, count-update_join xs h k)

module _ {ℓ} {A : Type ℓ} (q r : A → Bool) where
  pub find-none_of_stronger :
      (xs : List A) → ((x : A) → r x ≡ true → q x ≡ true) → count q xs ≡ 0 → find r xs ≡ none
  unfolding count find
  find-none_of_stronger [] h k = refl
  find-none_of_stronger (x ∷ xs) h k = ground (arith, h x, find-none_of_stronger xs h)

pub length-filter {ℓ} :
    {A : Type ℓ} (p : A → Bool) (xs : List A) → length (filter p xs) ≡ count p xs
unfolding filter count
length-filter p [] = refl
length-filter p (x ∷ xs) = ground (arith, length-filter p xs)

module _ {ℓ} {A : Type ℓ} (p q : A → Bool) where
  -- A weaker test is passed by some row if a stronger one is, and by none only if it is not.
  pub any_of_count :
      (xs : List A) → ((x : A) → p x ≡ true → q x ≡ true) → 1 ≤ count p xs → any q xs ≡ true
  unfolding count any
  any_of_count [] k h = ground (arith, h)
  any_of_count (x ∷ xs) k h = ground (arith, k x, any_of_count xs k)

  pub any-false_of_weaker :
      (xs : List A) → ((x : A) → p x ≡ true → q x ≡ true) → any q xs ≡ false → any p xs ≡ false
  unfolding any
  any-false_of_weaker [] k h = refl
  any-false_of_weaker (x ∷ xs) k h = ground (arith, k x, any-false_of_weaker xs k)

  pub count_of_stronger-le :
      (xs : List A) → ((x : A) → p x ≡ true → q x ≡ true) → count p xs ≤ count q xs
  unfolding count
  count_of_stronger-le [] k = omega arith
  count_of_stronger-le (x ∷ xs) k = ground (arith, k x, count_of_stronger-le xs k)

module _ {ℓ} {A : Type ℓ} (p : A → Bool) (f : A → A) (q : A → Bool) where
  pub any-update :
      (xs : List A)
      → ((x : A) → q (if p x then f x else x) ≡ q x)
      → any q (update p f xs) ≡ any q xs
  unfolding any update
  any-update [] k = refl
  any-update (x ∷ xs) k = rw (k x, any-update xs k) refl

  -- An update that takes a row out of a test lowers its count.
  pub count-update_drop :
      (xs : List A) (r : A)
      → find p xs ≡ some r
      → q r ≡ true
      → ((x : A) → p x ≡ true → q (f x) ≡ false)
      → count q (update p f xs) < count q xs
  unfolding find count update
  count-update_drop [] r e t k = ground arith
  count-update_drop (x ∷ xs) r e t k =
      let le = count-update-le p f q xs (λ y. ground (arith, k y)) in
      ground (arith, k x, le, count-update_drop xs r)

module _ {ℓ} {A : Type ℓ} (p q : A → Bool) where
  pub any_of_find : (xs : List A) (a : A) → find p xs ≡ some a → q a ≡ true → any q xs ≡ true
  unfolding find any
  any_of_find [] a e h = ground arith
  any_of_find (x ∷ xs) a e h = ground (arith, any_of_find xs a)

module _ {ℓ κ} {A : Type ℓ} (p : A → Bool) (f : A → A) (w : A → Bool) (R : A → Type κ) where
  All-update_absent :
      (xs : List A)
      → ((x : A) → p x ≡ true → w x ≡ true)
      → count w xs ≡ 0
      → All (λ x. w x ≡ true → R x) (update p f xs)
  unfolding count update
  All-update_absent [] k h = tt
  All-update_absent (x ∷ xs) k h = elim (Bool-cases (w x)) [
    | inl t ↦ absurd (ground (arith, t, h))
    | inr t ↦
        let out : p x ≡ false = ground (arith, t, k x) in
        rw out ((λ j. absurd (ground (arith, t, j))), All-update_absent xs k (ground (arith, t, h)))
  ]

  -- Where one row at most passes a test and an update changes it, all that pass are changed.
  pub All-update_only :
      (xs : List A)
      → ((x : A) → p x ≡ true → w x ≡ true)
      → ((x : A) → p x ≡ true → R (f x))
      → 1 ≤ count p xs
      → count w xs ≤ 1
      → All (λ x. w x ≡ true → R x) (update p f xs)
  unfolding count update
  All-update_only [] k r one most = tt
  All-update_only (x ∷ xs) k r one most = elim (Bool-cases (p x)) [
    | inl t ↦
        let here = k x t in rw t ((λ _. r x t), All-update_absent xs k (ground (arith, here, most)))
    | inr t ↦
        let some_later : 1 ≤ count p xs = ground (arith, t, one) in
        let le = count_of_stronger-le p w xs k in
        let out : w x ≡ false = ground (arith, some_later, le, most) in
        rw t (
          (λ j. absurd (ground (arith, out, j))),
          All-update_only xs k r some_later (ground (arith, out, most)),
        )
  ]

-- What every changed and every unchanged row has, holds of all after an update.
pub All-update_each {ℓ κ} :
    {A : Type ℓ} (p : A → Bool) (f : A → A) (R : A → Type κ) (xs : List A)
    → ((x : A) → R (if p x then f x else x))
    → All R (update p f xs)
unfolding update
All-update_each p f R [] k = tt
All-update_each p f R (x ∷ xs) k = (k x, All-update_each p f R xs k)

module _ {ℓ} {A : Type ℓ} (p q : A → Bool) where
  -- Where one row at most passes a test, a stronger test finds the same row.
  pub find_unique :
      (xs : List A) (a b : A)
      → ((x : A) → q x ≡ true → p x ≡ true)
      → count p xs ≤ 1
      → find p xs ≡ some a
      → find q xs ≡ some b
      → a ≡ b
  unfolding find count
  find_unique [] a b k most e f = ground arith
  find_unique (x ∷ xs) a b k most e f = elim (Bool-cases (p x)) [
    | inr t ↦
        let out : q x ≡ false = ground (arith, t, k x) in
        find_unique xs a b k (ground (arith, t, most)) (ground (arith, t, e))
          (ground (arith, out, f))
    | inl t ↦ elim (Bool-cases (q x)) [
      | inl u ↦ ground (arith, t, u, e, f)
      | inr u ↦
          let later : find q xs ≡ some b = ground (arith, u, f) in
          let one = count_of_find q xs b later in
          let le = count_of_stronger-le q p xs k in absurd (ground (arith, t, one, le, most))
    ]
  ]

module _ {ℓ} {A : Type ℓ} (p : A → Bool) where
  pub count_of_find-none : (xs : List A) → find p xs ≡ none → count p xs ≡ 0
  unfolding find count
  count_of_find-none [] h = refl
  count_of_find-none (x ∷ xs) h = ground (arith, count_of_find-none xs)

  pub find_of_any : (xs : List A) → any p xs ≡ true → (a : A) × (find p xs ≡ some a)
  unfolding find any
  find_of_any [] h = absurd (ground arith)
  find_of_any (x ∷ xs) h = elim (Bool-cases (p x)) [
    | inl t ↦ (x, ground (arith, t))
    | inr t ↦ rw t (find_of_any xs (ground (arith, t, h)))
  ]
