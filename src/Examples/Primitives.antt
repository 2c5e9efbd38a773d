-- ===== src/Examples/Primitives.antt =====
-- Primitives that satisfy what the packages document: texts are encoded by a shift past the full
-- stop, and the hash functions are taken to be plain functions of their arguments.
use stumpfworks_identity.Base.{
  ℕ, ◌+◌, ◌-◌, ◌≡◌, refl, ap, true, Option, none, some, [], ◌∷◌, arith, Text, lacks, length, all,
}
use stumpfworks_identity.Auth.Primitives.{Primitives, IsDocumented}

abbrev shift : Text → Text
shift [] = []
shift (c ∷ cs) = (c + 47) ∷ shift cs

abbrev unshift : Text → Text
unshift [] = []
unshift (c ∷ cs) = (c - 47) ∷ unshift cs

abbrev read : Text → Option ℕ
read [] = none
read (c ∷ cs) = some (c - 47)

abbrev pub shifting : Primitives
shifting = record {
  sha256 = λ t. 7 ∷ t;
  hmac = λ key t. length key ∷ t;
  hex_encode = λ t. t;
  hex_decode = λ t. some t;
  base64_encode = shift;
  base64_decode = λ t. some (unshift t);
  format_int = λ n. (n + 47) ∷ [];
  parse_int = read;
}

unshift-shift : (t : Text) → unshift (shift t) ≡ t
unshift-shift [] = refl
unshift-shift (c ∷ cs) = ground (arith, unshift-shift cs)

lacks-shift : (t : Text) → lacks 46 (shift t) ≡ true
unfolding lacks all
lacks-shift [] = refl
lacks-shift (c ∷ cs) = ground (arith, lacks-shift cs)

format-lacks_shifting : (n : ℕ) → lacks 46 ((n + 47) ∷ []) ≡ true
unfolding lacks all
format-lacks_shifting n = ground arith

pub shifting-IsDocumented : IsDocumented shifting
shifting-IsDocumented = record {
  hex_decode-encode = λ t. refl;
  base64_decode-encode = λ t. ap some (unshift-shift t);
  parse-format = λ n. ground arith;
  base64_encode-lacks = lacks-shift;
  format-lacks = format-lacks_shifting;
}
