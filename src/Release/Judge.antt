-- ===== src/Release/Judge.antt =====
-- internal/agentupdate/progress.go: what an agent's newest report says of the release it is moved
-- to, `Judge` and `Takes`. Where a report has no part, its getters read zero values.
use seagull_backend_v.Base.{
  ℕ, ◌≡◌, ◌≢◌, refl, Bool, true, false, not, ◌&&◌, ◌||◌, Option, none, some, List, [], ◌∷◌, arith,
  Text, text_Eq, text_eq_iff, nat_eq, ◌==◌, if◌then◌else◌, ltb, is_nil, contains,
}
use seagull_backend_v.Release.Version.{
  Version, parse_version, Sign, below, same, above, compare_versions,
}
use seagull_backend_v.Rollout.Gate.{Outcome, pending, running, failed, ineligible}

pub data Stage : Type 0 where
  stage_other rolled_back stage_failed : Stage

pub data Failure : Type 0 where
  failure_other unverified installation unhealthy failure_refused : Failure

pub record Update : Type 0 where
  pub version : Text
  pub stage : Stage
  pub failure : Failure

pub record Updates : Type 0 where
  pub enabled : Bool
  pub format : ℕ
  pub state_generation : ℕ

-- `compatibility` is `none` for an agent that predates reporting it.
pub record Report : Type 0 where
  pub build_version : Text
  pub os : Text
  pub architecture : Text
  pub update : Update
  pub compatibility : Option Updates

pub record Release : Type 0 where
  pub version : Text
  pub os : Text
  pub architecture : Text
  pub format : ℕ
  pub state_generation : ℕ
  pub minimum_version : Text
  pub replaces : List Text

abbrev pub Catalog : Type 0
Catalog = List Release

abbrev format_agrees : Option Updates → Release → Bool
format_agrees none r = true
format_agrees (some u) r = r.format == u.format

-- `matching`: the first release of a version for the platform that the agent reports.
unfoldable pub matching : Report → Text → Catalog → Option Release
matching report version [] = none
matching report version (r ∷ rs) =
    let rest = matching report version rs in
    if r.version == version
      && r.os == report.os
      && r.architecture == report.architecture
      && format_agrees report.compatibility r
    then some r
    else rest

abbrev takes_updates : Option Updates → Bool
takes_updates none = true
takes_updates (some u) = u.enabled

abbrev reads_state : Option Updates → Release → Bool
reads_state none r = true
reads_state (some u) r = not (ltb r.state_generation u.state_generation)

abbrev old_enough : Version → Option Version → Bool
old_enough v none = true
old_enough v (some oldest) = elim (compare_versions v oldest) [ below ↦ false | _ ↦ true ]

-- The last `switch` of `Takes`: a release before the one that runs has to name it, and one after
-- it may ask for a version to come from. The zero `Version` of an unreadable target is below all.
unfoldable pub takes_from : Sign → Version → Release → Bool
unfolding compare_versions parse_version contains
takes_from below current r = contains r.replaces current.text
takes_from same current r = true
takes_from above current r =
    is_nil r.minimum_version || old_enough current (parse_version r.minimum_version)

abbrev zero_version : Version
zero_version = record { major = 0; minor = 0; patch = 0; prerelease = []; text = [] }

abbrev or_zero : Option Version → Version
or_zero none = zero_version
or_zero (some v) = v

abbrev takes_release : Report → Version → Version → Option Release → Option Release → Bool
takes_release report wanted current (some r) (some _) =
    reads_state report.compatibility r && takes_from (compare_versions wanted current) current r
takes_release report wanted current _ _ = false

unfoldable pub takes : Report → Text → Catalog → Bool
unfolding takes_from matching parse_version compare_versions
takes report target catalog = elim (parse_version report.build_version) [
  | none ↦ false
  | some current ↦
      takes_updates report.compatibility
      && takes_release report (or_zero (parse_version target)) current
          (matching report target catalog) (matching report current.text catalog)
]

-- What a report says of an update to the target, where that settles it.
unfoldable pub update_says : Stage → Failure → Option Outcome
update_says rolled_back f = some failed
update_says stage_failed unverified = some failed
update_says stage_failed installation = some failed
update_says stage_failed unhealthy = some failed
update_says stage_failed failure_refused = some ineligible
update_says _ _ = none

abbrev unless_refused : Report → Text → Option Catalog → Outcome
unless_refused report target none = pending
unless_refused report target (some catalog) =
    if not (takes report target catalog) then ineligible else pending

unfoldable pub judge_report : Report → Text → Option Catalog → Outcome
unfolding takes update_says
judge_report report target catalog =
    if report.build_version == target
    then running
    else let otherwise = unless_refused report target catalog in
      if report.update.version == target
      then elim (update_says report.update.stage report.update.failure) [
        | some o ↦ o
        | none ↦ otherwise
      ]
      else otherwise

unfoldable pub judge : Option Report → Text → Option Catalog → Outcome
judge none target catalog = pending
judge (some report) target catalog = judge_report report target catalog

-- An agent is judged to have failed only by a report, of a build that is not the target, that
-- says of an update to this very target that it failed: never for want of a report or for what
-- the catalog says.
pub judge-failed :
    (report : Option Report) (target : Text) (catalog : Option Catalog)
    → judge report target catalog ≡ failed
    → (r : Report) × (report ≡ some r)
      × (r.build_version ≢ target)
      × (r.update.version ≡ target)
      × (update_says r.update.stage r.update.failure ≡ some failed)
unfolding judge judge_report
judge-failed none target catalog h = cc
judge-failed (some r) target catalog h = (
  r,
  refl,
  ground (arith, text_eq_iff r.build_version target),
  ground (arith, text_eq_iff r.update.version target),
  ground arith,
)
