-- ===== src/Gateway/Retained.antt =====
-- Whether the builder still holds what a build claim names: `records_still_held` and
-- `artifacts_still_held` of equivalent/gateway/verification.py. The builder is a remote service, so
-- its answer for a workspace is a parameter.
pub mod Held
use skateboard.Prelude.{
  ℕ, String, Bool, true, false, ◌&&◌, ◌||◌, List, [], ◌∷◌, ◌++◌, map, Option, some, none, ◌==◌,
  string_eq, nat_eq, if◌then◌else◌, all, lookup, not,
}
use skateboard.Errors.{Error, Result, ok, raise, gateway_error, ◌>>=◌}
use skateboard.Ledger.Value.{Value}
use skateboard.Ledger.Artifact.{
  BuildArtifact, BuildTarget, BuildRecord, artifacts, decode_build_records,
}

-- One executable in the builder's reply: components/answers.py `ExecutableIdentity`.
pub record Identity : Type 0 where
  pub verified : Bool
  pub sha256 : Option String
  pub size : Option ℕ

-- The builder's reply for one workspace.
pub record Report : Type 0 where
  pub ready : Bool
  pub executor_identity : Option String
  pub executables : List (String × Identity)

-- The requests that are made of a configured builder: `none` is a failed one.
pub record Builder : Type 0 where
  pub artifacts : String → Option Report

abbrev same_text : Option String → Option String → Bool
same_text none none = true
same_text (some a) (some b) = a == b
same_text _ _ = false

abbrev same_size : Option ℕ → Option ℕ → Bool
same_size none none = true
same_size (some a) (some b) = a == b
same_size _ _ = false

-- `ExecutableIdentity.matches`, against `artifact.as_detail()`.
unfoldable pub matches : Identity → BuildArtifact → Bool
matches identity a =
    identity.verified
    && (same_text identity.sha256 (some a.sha256) && same_size identity.size a.size)

unfoldable pub artifact_held : Report → BuildArtifact → Bool
unfolding matches
artifact_held report a = elim (lookup a.path report.executables) [
  | none ↦ false
  | some still_there ↦ matches still_there a
]

abbrev no_targets : List BuildTarget → Bool
no_targets [] = true
no_targets (t ∷ ts) = false

-- What a reply says of one record.
unfoldable pub report_holds : Option String → BuildRecord → Report → Bool
unfolding artifact_held
report_holds executor_identity r report =
    report.ready
    && (same_text report.executor_identity executor_identity
        && all (λ (t : BuildTarget). all (artifact_held report) (artifacts t)) r.targets)

unfoldable pub records_held : Builder → Option String → List BuildRecord → Result Bool
unfolding report_holds
records_held builder executor_identity [] = ok true
records_held builder executor_identity (r ∷ rest) =
    let later = records_held builder executor_identity rest in
    if r.attempt_id == "" || no_targets r.targets
    then ok false
    else elim (builder.artifacts r.attempt_id) [
      | none ↦ raise (gateway_error 503 "cannot read the builder's record")
      | some report ↦ if report_holds executor_identity r report then later else ok false
    ]

-- `records_still_held`
unfoldable pub records_still_held : Option Builder → List BuildRecord → Option String → Result Bool
unfolding records_held
records_still_held none records executor_identity = ok false
records_still_held (some builder) [] executor_identity = ok false
records_still_held (some builder) (r ∷ rest) executor_identity =
    records_held builder executor_identity (r ∷ rest)

-- `artifacts_still_held`
unfoldable pub artifacts_still_held : Option Builder → String → Value → Option String → Result Bool
unfolding records_still_held decode_build_records
artifacts_still_held builder predicate_type detail executor_identity =
    records_still_held builder (decode_build_records predicate_type detail) executor_identity
