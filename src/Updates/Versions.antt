-- ===== src/Updates/Versions.antt =====
-- internal/clientupdate/verify.go: the versions of releases and their order.
pub mod Order
use stumpfworks_identity.Base.{
  ℕ, ◌+◌, ◌-◌, ◌*◌, ◌^◌, Bool, true, false, not, ◌&&◌, ◌||◌, Option, none, some, List, [], ◌∷◌,
  Text, text_eq, split, length, all, ltb, leb, ◌==◌, if◌then◌else◌,
}

abbrev pub is_empty : Text → Bool
is_empty [] = true
is_empty (c ∷ cs) = false

-- strings.TrimPrefix(value, "v")
abbrev pub trim_v : Text → Text
trim_v [] = []
trim_v (c ∷ cs) = if c == 118 then cs else c ∷ cs

-- The text before the first byte c, and the rest behind it if the byte is there.
unfoldable pub cut : ℕ → Text → Text × Option Text
cut c [] = ([], none)
cut c (x ∷ xs) = let rest = cut c xs in if x == c then ([], some xs) else (x ∷ rest.0, rest.1)

abbrev pub is_digit : ℕ → Bool
is_digit r = leb 48 r && leb r 57

abbrev pub is_identifier_byte : ℕ → Bool
is_identifier_byte r =
    (r == 45) || (is_digit r || ((leb 65 r && leb r 90) || (leb 97 r && leb r 122)))

unfoldable pub valid_identifiers : Text → Bool
valid_identifiers value =
    all (λ part. not (is_empty part) && all is_identifier_byte part) (split 46 value)

abbrev pub starts_with_zero : Text → Bool
starts_with_zero [] = false
starts_with_zero (c ∷ cs) = c == 48

unfoldable pub valid_number : Text → Bool
valid_number part =
    not (is_empty part) && (not (ltb 1 (length part) && starts_with_zero part) && all is_digit part)

unfoldable pub valid_main : Text → Bool
valid_main main = (length (split 46 main) == 3) && all valid_number (split 46 main)

-- The part behind a hyphen, if there is one.
unfoldable pub valid_pre : Option Text → Bool
valid_pre none = true
valid_pre (some pre) = valid_identifiers pre

-- The part behind a plus sign, if there is one.
unfoldable pub valid_build : Option Text → Bool
valid_build none = true
valid_build (some build) = not (is_empty build) && valid_identifiers build

unfoldable pub valid_version : Text → Bool
valid_version value =
    let built = cut 43 (trim_v value) in
    let core = cut 45 built.0 in valid_build built.1 && (valid_pre core.1 && valid_main core.0)

-- A Go int of 64 bits.
pub data ℤ : Type 0 where
  pos : ℕ → ℤ
  negsuc : ℕ → ℤ

unfoldable pub int_lt : ℤ → ℤ → Bool
int_lt (pos m) (pos n) = ltb m n
int_lt (pos m) (negsuc n) = false
int_lt (negsuc m) (pos n) = true
int_lt (negsuc m) (negsuc n) = ltb n m

unfoldable pub decimal : ℕ → Text → ℕ
decimal acc [] = acc
decimal acc (c ∷ cs) = decimal (acc * 10 + (c - 48)) cs

-- strconv.Atoi of what follows the sign: the value, which is the nearest one where it is out of
-- range and 0 where the text is no number, and whether it is the text's.
unfoldable pub atoi_unsigned : Bool → Text → ℤ × Bool
atoi_unsigned negative digits =
    let n = decimal 0 digits in
    if is_empty digits || not (all is_digit digits)
    then (pos 0, false)
    else if negative
    then (if n == 0
        then (pos 0, true)
        else if leb n (2 ^ 63)
        then (negsuc (n - 1), true)
        else (negsuc (2 ^ 63 - 1), false))
    else (if ltb n (2 ^ 63) then (pos n, true) else (pos (2 ^ 63 - 1), false))

unfoldable pub atoi : Text → ℤ × Bool
atoi [] = (pos 0, false)
atoi (c ∷ cs) =
    if c == 45
    then atoi_unsigned true cs
    else if c == 43
    then atoi_unsigned false cs
    else atoi_unsigned false (c ∷ cs)

pub record Version : Type 0 where
  pub major : ℤ
  pub minor : ℤ
  pub patch : ℤ
  pub pre : Option (List Text)

-- `numbers[i]` for i below 3: `none` is the panic of an index out of range.
unfoldable pub numbers : List Text → Option (List Text) → Option Version
numbers (a ∷ b ∷ c ∷ rest) pre =
    some (record { major = (atoi a).0; minor = (atoi b).0; patch = (atoi c).0; pre = pre })
numbers _ pre = none

abbrev pub split_pre : Option Text → Option (List Text)
split_pre none = none
split_pre (some pre) = some (split 46 pre)

-- The inner function of compareVersions.
unfoldable pub parse : Text → Option Version
parse value =
    let core = cut 45 (cut 43 (trim_v value)).0 in numbers (split 46 core.0) (split_pre core.1)

-- -1, 0 and 1.
pub data Ordering : Type 0 where
  less equal greater : Ordering

abbrev pub or_else : Ordering → Ordering → Ordering
or_else equal next = next
or_else less next = less
or_else greater next = greater

unfoldable pub compare_int : ℤ → ℤ → Ordering
compare_int a b = if int_lt a b then less else if int_lt b a then greater else equal

-- Go's < of strings.
unfoldable pub text_lt : Text → Text → Bool
text_lt s [] = false
text_lt [] (y ∷ ys) = true
text_lt (x ∷ xs) (y ∷ ys) = ltb x y || ((x == y) && text_lt xs ys)

-- Two identifiers that differ.
unfoldable pub compare_identifier : Text → Text → Ordering
compare_identifier x y =
    if (atoi x).1 && (atoi y).1
    then (if int_lt (atoi x).0 (atoi y).0 then less else greater)
    else if (atoi x).1
    then less
    else if (atoi y).1
    then greater
    else if text_lt x y
    then less
    else greater

unfoldable pub compare_pre : List Text → List Text → Ordering
compare_pre [] [] = equal
compare_pre [] (y ∷ ys) = less
compare_pre (x ∷ xs) [] = greater
compare_pre (x ∷ xs) (y ∷ ys) =
    let rest = compare_pre xs ys in if text_eq x y then rest else compare_identifier x y

unfoldable pub compare_releases : Option (List Text) → Option (List Text) → Ordering
compare_releases none none = equal
compare_releases none (some q) = greater
compare_releases (some p) none = less
compare_releases (some p) (some q) = compare_pre p q

unfoldable pub compare_parsed : Version → Version → Ordering
compare_parsed l r = or_else (compare_int l.major r.major) (
    or_else (compare_int l.minor r.minor)
      (or_else (compare_int l.patch r.patch) (compare_releases l.pre r.pre)))

-- `none` is a panic.
unfoldable pub compare_versions : Text → Text → Option Ordering
compare_versions left right = elim (parse left) [
  | none ↦ none
  | some l ↦ elim (parse right) [ none ↦ none | some r ↦ some (compare_parsed l r) ]
]
