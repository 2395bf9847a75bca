-- ===== src/Tests/Latest.antt =====
-- firmware/src/version.c on a concrete release.
use p2000t_teletekst_cartrid.Release.RoundTrip.{
  IsVersion, release_text, parse-release_text, parse_latest_release-IsVersion,
}
use p2000t_teletekst_cartrid.Release.{ReleaseVersion, after_prefix, parse_latest_release}
use p2000t_teletekst_cartrid.Prelude.{[], ◌∷◌, some, ◌≡◌, refl, arith}

abbrev latest : ReleaseVersion
latest = record { major = 0; minor = 15; patch = 128 }

latest-IsVersion : IsVersion latest
latest-IsVersion = record {
  major_byte = omega arith;
  minor_byte = omega arith;
  patch_byte = omega arith;
}

latest_parsed :
    parse_latest_release (b'{' ∷ release_text latest [] (32 ∷ []) (b'}' ∷ [])) ≡ some latest
unfolding after_prefix
latest_parsed =
    parse-release_text latest (b'{' ∷ []) [] (32 ∷ []) (b'}' ∷ []) latest-IsVersion tt (refl, tt)
      (refl, tt)

parse-release_text_example :
    parse_latest_release (b'{' ∷ release_text latest [] (32 ∷ []) (b'}' ∷ [])) ≡ some latest
unfolding after_prefix
parse-release_text_example =
    parse-release_text latest (b'{' ∷ []) [] (32 ∷ []) (b'}' ∷ []) latest-IsVersion tt (refl, tt)
      (refl, tt)

parse_latest_release-IsVersion_example : IsVersion latest
parse_latest_release-IsVersion_example =
    parse_latest_release-IsVersion (b'{' ∷ release_text latest [] (32 ∷ []) (b'}' ∷ []))
      latest_parsed
