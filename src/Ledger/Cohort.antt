-- ===== src/Ledger/Cohort.antt =====
-- What a claim has to have been reached on top of: the queries of equivalent/ledger/evidence.py.
-- `hash_text` is the SHA-256 digest of a text's UTF-8 bytes, which hashlib computes.
use Prim.Native.String
use skateboard.Prelude.{
  String, Bool, List, [], ◌∷◌, ◌++◌, Option, some, none, ◌==◌, string_eq, elem, if◌then◌else◌,
}
use skateboard.Ledger.Subject.{Subject, binary, timing_claim}
use skateboard.Ledger.Record.{Claim}
use skateboard.Ledger.Workflow.{porting}
use skateboard.Ledger.Acceptance.{Requirement}
use skateboard.Ledger.Artifact.{build_binary_materials}
use skateboard.Ledger.Store.{LedgerStore, latest}

-- `BUILD_PREDICATE[phase]`; a region's configuration admits the two phases only.
unfoldable pub build_predicate : String → String
build_predicate phase = if phase == porting then "build/replay" else "harness/builds"

-- `FOUNDATION_PREDICATES`
abbrev pub foundation_predicates : List String
foundation_predicates =
    "sese/verified" ∷ "manifest/valid" ∷ "build/replay" ∷ "harness/builds" ∷ "timing/baseline" ∷ []

abbrev pub is_foundation : String → Bool
is_foundation predicate_type = elem predicate_type foundation_predicates

-- `claim if claim is not None and claim.predicate.verdict == "pass" else None`
abbrev pub passing : Option Claim → Option Claim
passing none = none
passing (some c) = if c.predicate.verdict == "pass" then some c else none

unfoldable pub current_build_claim : LedgerStore → String → Subject → List Subject → Option Claim
unfolding latest build_predicate
current_build_claim store phase tree core_materials =
    passing (latest (build_predicate phase) tree core_materials store)

unfoldable pub current_timing_claim :
    LedgerStore → String → Option Subject → List Subject → Option Claim
unfolding latest
current_timing_claim store predicate_type none core_materials = none
current_timing_claim store predicate_type (some subject) core_materials =
    passing (latest predicate_type subject core_materials store)

-- The executables that the current build claim names.
unfoldable pub cohort : String → Option Claim → List Subject
unfolding build_binary_materials build_predicate
cohort phase none = []
cohort phase (some c) = build_binary_materials (build_predicate phase) c.predicate.detail

module _ (hash_text : String → String) where
  -- `NO_CURRENT_BUILD`
  abbrev pub no_current_build : Subject
  no_current_build = record { kind = binary; sha256 = hash_text "equivalent:no-current-build:v1" }

  -- `NO_CURRENT_TIMING_CLAIMS`
  abbrev pub no_current_timing_claims : Subject
  no_current_timing_claims = record {
    kind = timing_claim;
    sha256 = hash_text "equivalent:no-current-timing-claims:v1";
  }

  unfoldable pub dependent_materials : List Subject → List Subject → List Subject
  dependent_materials core_materials [] = core_materials ++ no_current_build ∷ []
  dependent_materials core_materials (b ∷ bs) = core_materials ++ b ∷ bs

  unfoldable pub timing_claim_material : Claim → Subject
  timing_claim_material claim = record {
    kind = timing_claim;
    sha256 = hash_text (
        String.◌++◌ "equivalent:timing-claim:v1:"
          (String.◌++◌ claim.predicate_type (String.◌++◌ ":" claim.id)));
  }

  -- The two claims, or the sentinel where either is missing.
  abbrev timing_pair : Option Claim → Option Claim → List Subject
  timing_pair (some port) (some baseline) =
      timing_claim_material port ∷ timing_claim_material baseline ∷ []
  timing_pair _ _ = no_current_timing_claims ∷ []

  -- `performance_materials`; every caller gives `port_materials`.
  unfoldable pub performance_materials :
      LedgerStore → Subject → Option Subject → List Subject → List Subject → List Subject
  unfolding current_timing_claim timing_claim_material
  performance_materials store tree baseline_tree core_materials port_materials =
      timing_pair (current_timing_claim store "timing/port" (some tree) port_materials)
        (current_timing_claim store "timing/baseline" baseline_tree core_materials)

  -- The material context of one predicate's claims.
  unfoldable pub materials_for_predicate :
      LedgerStore → Subject → Option Subject → List Subject → List Subject → String → List Subject
  unfolding dependent_materials performance_materials
  materials_for_predicate store tree baseline_tree core_materials build_materials predicate_type =
      let dependent = dependent_materials core_materials build_materials in
      if is_foundation predicate_type
      then core_materials
      else if predicate_type == "performance/speedup"
      then (dependent ++ performance_materials store tree baseline_tree core_materials dependent)
      else dependent

  abbrev pub material_entries :
      LedgerStore
      → Subject
      → Option Subject
      → List Subject
      → List Subject
      → List Requirement
      → List (String × List Subject)
  material_entries store tree baseline_tree core build [] = []
  material_entries store tree baseline_tree core build (r ∷ rs) =
      let rest = material_entries store tree baseline_tree core build rs in
      if is_foundation r.predicate_type
      then rest
      else (
        r.predicate_type,
        materials_for_predicate store tree baseline_tree core build r.predicate_type,
      )
        ∷ rest

  -- `required_materials_by_predicate`
  unfoldable pub required_materials_by_predicate :
      LedgerStore
      → List Requirement
      → String
      → Subject
      → List Subject
      → Option Subject
      → List (String × List Subject)
  unfolding current_build_claim cohort materials_for_predicate
  required_materials_by_predicate store requirements phase tree core_materials baseline_tree =
      let build = current_build_claim store phase tree core_materials in
      material_entries store tree baseline_tree core_materials (cohort phase build) requirements
