-- ===== src/Tests/Regions.antt =====
-- An accepted region with one foundation requirement and one that rests on a build.
use skateboard.Prelude.{
  ◌≡◌, ◌≢◌, refl, true, [], ◌∷◌, some, none, In, inl, inr, all, elem, lookup, string_eq,
}
use skateboard.Errors.{ok}
use skateboard.Ledger.Subject.{Subject, subject_eq}
use skateboard.Ledger.Record.{Claim}
use skateboard.Ledger.Workflow.{finished_word}
use skateboard.Ledger.Acceptance.{Requirement}
use skateboard.Ledger.Artifact.{BuildRecord}
use skateboard.Ledger.Store.{LedgerStore}
use skateboard.Ledger.Cohort.{
  cohort, current_build_claim, dependent_materials, no_current_build,
  required_materials_by_predicate,
}
use skateboard.Ledger.Status.{Status, present, compute_status, get_or, subject_of_kind}
use skateboard.Ledger.Status.Requirement.{IsMet}
use skateboard.Ledger.Status.Accepted.{compute_status_sound, compute_status-cohort}
use skateboard.Gateway.Retained.{Builder, Report, records_still_held}
use skateboard.Gateway.Retained.Held.{IsHeld, records_still_held-IsHeld}
use skateboard.Tests.Fixtures.{
  the_tree, the_frozen, the_baseline, the_policy, a_pass, claim_of, store_of, hash_text,
}

abbrev analysis : Requirement
analysis = record {
  predicate_type = "sese/verified";
  subject_kind = "tree";
  producing_action = "analyze";
}

abbrev regression : Requirement
regression = record {
  predicate_type = "regression/holdout";
  subject_kind = "tree";
  producing_action = "compare";
}

abbrev a_comparison : Claim
a_comparison =
    claim_of "c-0008" "2026-01-02T00:00:00" "regression/holdout" "pass"
      (the_policy ∷ no_current_build hash_text ∷ [])

abbrev both : LedgerStore
both = store_of (a_pass ∷ a_comparison ∷ [])

abbrev the_status : Status
the_status = record {
  tree = some the_tree;
  frozen = some the_frozen;
  phase = "porting";
  rows =
      present "sese/verified" "pass" "c-0007" ∷ present "regression/holdout" "pass" "c-0008" ∷ [];
  accepted = true;
  context_verified = true;
  finished_word = "ACCEPTED";
}

is_accepted :
    compute_status hash_text both
      (analysis ∷ regression ∷ [])
      "porting"
      (some the_tree)
      (some the_frozen)
      (some the_baseline)
      (the_policy ∷ [])
      true
    ≡ ok the_status
unfolding compute_status finished_word
is_accepted = refl

compute_status_sound_example :
    (true ≡ true)
    × ((req : Requirement)
        → In req (analysis ∷ regression ∷ [])
        → (s : Subject) × (subject_of_kind req.subject_kind (some the_tree) (some the_frozen)
            ≡ ok (some s))
          × IsMet both req.predicate_type s (
              get_or (the_policy ∷ []) (
                lookup req.predicate_type (
                  required_materials_by_predicate hash_text both
                    (analysis ∷ regression ∷ [])
                    "porting"
                    the_tree
                    (the_policy ∷ [])
                    (some the_baseline)))))
compute_status_sound_example =
    compute_status_sound hash_text both (analysis ∷ regression ∷ []) "porting" the_tree the_frozen
      (some the_baseline) (the_policy ∷ []) true is_accepted refl

compute_status-cohort_example :
    (c : Claim) × In c both.claims
    × (c.predicate.verdict ≡ "pass")
    × (c.predicate_type ≡ "regression/holdout")
    × (all
          (λ m. elem m c.materials)
          (dependent_materials hash_text
            (the_policy ∷ [])
            (cohort "porting" (current_build_claim both "porting" the_tree (the_policy ∷ []))))
        ≡ true)
compute_status-cohort_example =
    compute_status-cohort hash_text both (analysis ∷ regression ∷ []) "porting" the_tree the_frozen
      (some the_baseline) (the_policy ∷ []) true regression is_accepted refl (inr (inl refl)) refl

abbrev a_record : BuildRecord
a_record = record {
  attempt_id = "attempt";
  targets =
      record {
        role = "run";
        executable = "bin/run";
        sha256 = "d";
        size = none;
        runtime_artifacts = [];
      }
      ∷ [];
}

abbrev a_report : Report
a_report = record {
  ready = true;
  executor_identity = none;
  executables = ("bin/run", record { verified = true; sha256 = some "d"; size = none }) ∷ [];
}

abbrev a_builder : Builder
a_builder = record { artifacts = λ attempt. some a_report }

is_held : records_still_held (some a_builder) (a_record ∷ []) none ≡ ok true
unfolding records_still_held
is_held = refl

records_still_held-IsHeld_example :
    (b : Builder) × (some a_builder ≡ some b)
    × (a_record ∷ [] ≢ [])
    × ((r : BuildRecord) → In r (a_record ∷ []) → IsHeld b none r)
records_still_held-IsHeld_example =
    records_still_held-IsHeld (some a_builder) (a_record ∷ []) none is_held
