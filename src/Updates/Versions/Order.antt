-- ===== src/Updates/Versions/Order.antt =====
-- Versions that are valid are compared without a panic, and a smaller one is not also larger.
use stumpfworks_identity.Base.{
  ◌≡◌, refl, inl, inr, true, false, Option, none, some, List, [], ◌∷◌, arith, Text, text_eq, split,
  length, Option-cases,
}
use stumpfworks_identity.Updates.Versions.{
  cut, trim_v, valid_main, valid_version, ℤ, pos, negsuc, int_lt, atoi, Version, numbers, split_pre,
  parse, Ordering, less, equal, greater, compare_int, text_lt, compare_identifier, compare_pre,
  compare_releases, compare_parsed, compare_versions,
}

numbers-three :
    (parts : List Text) (pre : Option (List Text))
    → length parts ≡ 3
    → (v : Version) × (numbers parts pre ≡ some v)
unfolding numbers
numbers-three [] pre h = absurd (omega (arith, h))
numbers-three (a ∷ []) pre h = absurd (omega (arith, h))
numbers-three (a ∷ b ∷ []) pre h = absurd (omega (arith, h))
numbers-three (a ∷ b ∷ c ∷ rest) pre h =
    (record { major = (atoi a).0; minor = (atoi b).0; patch = (atoi c).0; pre = pre }, refl)

valid-parse : (value : Text) → valid_version value ≡ true → (v : Version) × (parse value ≡ some v)
unfolding valid_version valid_main parse
valid-parse value h =
    let core = cut 45 (cut 43 (trim_v value)).0 in
    numbers-three (split 46 core.0) (split_pre core.1) (ground arith)

-- compareVersions does not panic on two versions that validVersion accepts.
pub compare_versions-valid :
    (left right : Text)
    → valid_version left ≡ true
    → valid_version right ≡ true
    → (o : Ordering) × (compare_versions left right ≡ some o)
unfolding compare_versions
compare_versions-valid left right h k =
    let (l, v) = valid-parse left h in
    let (r, w) = valid-parse right k in (compare_parsed l r, rw (compare_versions, v, w) refl)

int_lt-asym : (a b : ℤ) → int_lt a b ≡ true → int_lt b a ≡ false
unfolding int_lt
int_lt-asym (pos m) (pos n) h = ground arith
int_lt-asym (pos m) (negsuc n) h = absurd (ground arith)
int_lt-asym (negsuc m) (pos n) h = refl
int_lt-asym (negsuc m) (negsuc n) h = ground arith

text_lt-asym : (s t : Text) → text_lt s t ≡ true → text_lt t s ≡ false
unfolding text_lt
text_lt-asym s [] h = absurd (ground arith)
text_lt-asym [] (y ∷ ys) h = refl
text_lt-asym (x ∷ xs) (y ∷ ys) h = ground (arith, text_lt-asym xs ys)

text_eq-sym : (s t : Text) → text_eq s t ≡ text_eq t s
unfolding text_eq
text_eq-sym [] [] = refl
text_eq-sym [] (y ∷ ys) = refl
text_eq-sym (x ∷ xs) [] = refl
text_eq-sym (x ∷ xs) (y ∷ ys) = ground (arith, text_eq-sym xs ys)

-- `greater` wherever the other way round is `less`.
compare_int-less : (a b : ℤ) → compare_int a b ≡ less → compare_int b a ≡ greater
unfolding compare_int
compare_int-less a b h = ground (arith, int_lt-asym a b)

compare_int-equal : (a b : ℤ) → compare_int a b ≡ equal → compare_int b a ≡ equal
unfolding compare_int
compare_int-equal a b h = ground arith

compare_identifier-less :
    (x y : Text) → compare_identifier x y ≡ less → compare_identifier y x ≡ greater
unfolding compare_identifier
compare_identifier-less x y h = ground (arith, int_lt-asym (atoi x).0 (atoi y).0, text_lt-asym x y)

compare_pre-less : (p q : List Text) → compare_pre p q ≡ less → compare_pre q p ≡ greater
unfolding compare_pre
compare_pre-less [] [] h = absurd (ground arith)
compare_pre-less [] (y ∷ ys) h = refl
compare_pre-less (x ∷ xs) [] h = absurd (ground arith)
compare_pre-less (x ∷ xs) (y ∷ ys) h =
    ground (arith, text_eq-sym x y, compare_pre-less xs ys, compare_identifier-less x y)

compare_releases-less :
    (p q : Option (List Text)) → compare_releases p q ≡ less → compare_releases q p ≡ greater
unfolding compare_releases
compare_releases-less none none h = absurd (ground arith)
compare_releases-less none (some q) h = absurd (ground arith)
compare_releases-less (some p) none h = refl
compare_releases-less (some p) (some q) h = compare_pre-less p q h

compare_parsed-less : (l r : Version) → compare_parsed l r ≡ less → compare_parsed r l ≡ greater
unfolding compare_parsed
compare_parsed-less l r h = ground (
  arith,
  compare_int-less l.major r.major,
  compare_int-equal l.major r.major,
  compare_int-less l.minor r.minor,
  compare_int-equal l.minor r.minor,
  compare_int-less l.patch r.patch,
  compare_int-equal l.patch r.patch,
  compare_releases-less l.pre r.pre,
)

-- If compareVersions puts one version below another, it puts the second above the first.
pub compare_versions-less :
    (left right : Text)
    → compare_versions left right ≡ some less
    → compare_versions right left ≡ some greater
unfolding compare_versions
compare_versions-less left right h = elim (Option-cases (parse left)) [
  | inl v ↦ absurd (ground arith)
  | inr (l, v) ↦ elim (Option-cases (parse right)) [
    | inl w ↦ absurd (ground arith)
    | inr (r, w) ↦ ground (arith, compare_parsed-less l r)
  ]
]
