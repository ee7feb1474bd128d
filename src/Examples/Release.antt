-- ===== src/Examples/Release.antt =====
-- Two releases of internal/agentupdate, and a report that one of them failed.
use seagull_backend_v.Base.{◌≡◌, refl, none, some, [], ◌∷◌, text_Eq, text_eq, bytes}
use seagull_backend_v.Release.Version.{
  Version, below, compare_versions, flip, compare_versions-flip, compare_numbers,
  compare_prereleases, parse_version, parse_version_after, cut_at, core_of, split, numeric, decimal,
}
use seagull_backend_v.Release.Judge.{
  Report, rolled_back, failure_other, judge, judge_report, update_says,
}
use seagull_backend_v.Rollout.Gate.{failed}
use seagull_backend_v.Identifier.{every}

abbrev first : Version
first = record {
  major = 1;
  minor = 2;
  patch = 0;
  prerelease = bytes "rc" ∷ [];
  text = bytes "v1.2.0-rc";
}

abbrev second : Version
second = record { major = 1; minor = 2; patch = 0; prerelease = []; text = bytes "v1.2.0" }

-- A prerelease is below the release it leads to.
first_below_second : compare_versions first second ≡ below
unfolding compare_versions compare_numbers compare_prereleases
first_below_second = refl

second_read : parse_version (bytes "v1.2.0") ≡ some second
unfolding parse_version parse_version_after cut_at core_of split numeric decimal every
second_read = refl

compare_versions-flip_example : compare_versions second first ≡ flip (compare_versions first second)
compare_versions-flip_example = compare_versions-flip first second

abbrev report : Report
report = record {
  build_version = bytes "v1";
  os = bytes "linux";
  architecture = bytes "amd64";
  update = record { version = bytes "v2"; stage = rolled_back; failure = failure_other };
  compatibility = none;
}

failing : judge (some report) (bytes "v2") none ≡ failed
unfolding judge judge_report update_says text_eq
failing = refl
