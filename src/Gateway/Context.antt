-- ===== src/Gateway/Context.antt =====
-- One resolved request: `RunContext` of equivalent/gateway/run.py, and what a check is handed and
-- answers (equivalent/components/context.py and result.py). The strategies, the manifest and the
-- paths that the gateway only passes on to a check are left out of both.
use skateboard.Prelude.{
  String, Bool, List, ◌++◌, Option, some, ◌==◌, string_eq, if◌then◌else◌, any, not,
}
use skateboard.Errors.{Result, ok, raise, key_error}
use skateboard.Ledger.Subject.{Subject}
use skateboard.Ledger.Value.{Value}
use skateboard.Ledger.Record.{Claim}
use skateboard.Ledger.Artifact.{
  BinaryArtifact, BuildRecord, records_artifacts, materials_for_artifacts,
}
use skateboard.Ledger.Store.{LedgerStore, Packed}
use skateboard.Ledger.Table.{ActionRow}
use skateboard.Ledger.Table.Config.{Config}
use skateboard.Ledger.Cohort.{is_foundation, dependent_materials, performance_materials}
use skateboard.Gateway.Retained.{Builder}

-- `CheckResult`
pub record CheckResult : Type 0 where
  pub verdict : String
  pub detail : Value
  pub reasons : List String
  pub materials : List Subject
  pub stores : List Packed
  pub subject_kind : String
  pub measures_other_binaries : Bool
  pub binary_artifacts : List BinaryArtifact
  pub build_records : List BuildRecord

unfoldable pub binary_materials : CheckResult → List Subject
unfolding materials_for_artifacts
binary_materials result =
    materials_for_artifacts (result.binary_artifacts ++ records_artifacts result.build_records)

-- A check that emits one predicate answers with one result, and `sanitize` with one for each.
pub data Answer : Type 0 where
  single : CheckResult → Answer
  several : List (String × CheckResult) → Answer

pub record CheckContext : Type 0 where
  pub region_id : String
  pub phase : String
  pub tree_ref : String
  pub claims : List (String × Option Claim)

pub record Handler : Type 0 where
  pub check : CheckContext → Config → Result Answer
  pub tool : String

pub record RunContext : Type 0 where
  pub row : ActionRow
  pub region_id : String
  pub phase : String
  pub session : String
  pub model : String
  pub tool_call_id : Option String
  pub config : Config
  pub config_hash : String
  pub tree_ref : String
  pub tree : Subject
  pub frozen : Subject
  pub baseline_tree : Subject
  pub builder : Option Builder
  pub has_oracle : Bool
  pub executor_identity : Option String
  pub evidence_materials : List Subject
  pub build_claim : Option Claim
  pub build_materials : List Subject

-- `run.subjects[kind]`
unfoldable pub subject_named : RunContext → String → Result Subject
subject_named run kind =
    if kind == "tree"
    then ok run.tree
    else if kind == "frozen"
    then ok run.frozen
    else if kind == "baseline_tree"
    then ok run.baseline_tree
    else raise (key_error "subjects")

unfoldable pub rests_on_a_build : RunContext → Bool
rests_on_a_build run = any (λ p. not (is_foundation p)) run.row.emits

-- `materials_for`
unfoldable pub materials_for : (String → String) → RunContext → LedgerStore → String → List Subject
unfolding dependent_materials performance_materials
materials_for hash_text run store predicate_type =
    let materials = dependent_materials hash_text run.evidence_materials run.build_materials in
    if is_foundation predicate_type
    then run.evidence_materials
    else if predicate_type == "performance/speedup"
    then (materials
        ++ performance_materials hash_text store run.tree (some run.baseline_tree)
            run.evidence_materials materials)
    else materials
