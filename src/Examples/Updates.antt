-- ===== src/Examples/Updates.antt =====
-- Versions, and a release that is accepted.
use stumpfworks_identity.Examples.Data.{repeated}
use stumpfworks_identity.Base.{
  ◌≡◌, refl, ◌≢◌, some, [], ◌∷◌, codes, text_eq, split, All, any, all, ok,
}
use stumpfworks_identity.Updates.Versions.{
  pos, int_lt, valid_version, valid_main, valid_number, valid_pre, valid_build, cut, decimal, atoi,
  atoi_unsigned, numbers, parse, less, greater, compare_versions, compare_parsed, compare_int,
  compare_releases, compare_pre, compare_identifier, text_lt,
}
use stumpfworks_identity.Updates.Versions.Order.{compare_versions-less}
use stumpfworks_identity.Updates.Manifest.{
  Manifest, Platform, validate_manifest, accepts_current, valid_files, valid_file, has_sha256,
  is_member, allowed_components,
}
use stumpfworks_identity.Updates.Manifest.Accepted.{
  Known, names, Distinct, accepted_release, no_rollback,
}

compare_run : compare_versions (codes "1.2.0") (codes "1.3.0") ≡ some less
unfolding compare_versions parse numbers cut split atoi atoi_unsigned decimal all compare_parsed
    compare_int int_lt compare_releases
compare_run = refl

compare_versions-less_example : compare_versions (codes "1.3.0") (codes "1.2.0") ≡ some greater
compare_versions-less_example = compare_versions-less (codes "1.2.0") (codes "1.3.0") compare_run

-- Two pre-release identifiers of one value are each put above the other.
leading_zero :
    compare_versions (codes "1.0.0-01") (codes "1.0.0-1")
    ≡ compare_versions (codes "1.0.0-1") (codes "1.0.0-01")
unfolding compare_versions parse numbers cut split atoi atoi_unsigned decimal all compare_parsed
    compare_int int_lt compare_releases compare_pre compare_identifier text_lt text_eq
leading_zero = refl

abbrev platform : Platform
platform = record { hex_decode = λ t. some t; architecture = codes "linux-amd64" }

abbrev release : Manifest
release = record {
  schema_version = pos 1;
  release_version = codes "1.3.0";
  channel = codes "stable";
  architecture = codes "linux-amd64";
  minimum_version = codes "1.0.0";
  created_at = 1;
  files =
      record { component = codes "sw-badge-pam-helper"; size = pos 10; sha256 = repeated 32 0 }
      ∷ [];
}

abbrev older : Manifest
older = record release { release_version = codes "1.2.0" }

validate_run : validate_manifest platform release [] (codes "1.2.0") ≡ ok tt
unfolding validate_manifest accepts_current valid_files valid_file has_sha256 is_member
    allowed_components any valid_version valid_main valid_number valid_pre compare_versions parse
    numbers cut split atoi atoi_unsigned decimal all compare_parsed compare_int int_lt
    compare_releases text_eq valid_build
validate_run = refl

accepted_release_example :
    (compare_versions (codes "1.2.0") (codes "1.3.0") ≡ some less)
    × (compare_versions (codes "1.2.0") (codes "1.0.0") ≢ some less)
    × All (Known platform) release.files
    × Distinct (names release.files)
accepted_release_example = accepted_release platform release [] (codes "1.2.0") refl validate_run

no_rollback_example : validate_manifest platform older [] (codes "1.3.0") ≢ ok tt
no_rollback_example =
    no_rollback platform release older [] [] (codes "1.2.0") refl refl refl validate_run
