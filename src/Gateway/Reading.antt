-- ===== src/Gateway/Reading.antt =====
-- What a request reads from the ledger before it dispatches: the methods of `RunService` in
-- equivalent/gateway/run.py that write nothing.
use skateboard.Prelude.{
  String, Bool, true, false, ◌&&◌, ◌||◌, List, [], ◌∷◌, ◌++◌, Option, some, none, ◌==◌, string_eq,
  if◌then◌else◌, any, all, elem, filter, not, is_some, lookup,
}
use skateboard.Errors.{
  Result, ok, raise, gateway_error, component_error, key_error, type_error, ◌>>=◌, ◌>>◌, ensure,
  traverse,
}
use skateboard.Ledger.Subject.{Subject, subject_eq}
use skateboard.Ledger.Record.{Claim}
use skateboard.Ledger.Workflow.{producer}
use skateboard.Ledger.Workflow.Catalog.{actions}
use skateboard.Ledger.Store.{LedgerStore, latest, find_duplicate}
use skateboard.Ledger.Table.{ActionRow, row_named, subject_kind_of}
use skateboard.Ledger.Cohort.{build_predicate, is_foundation}
use skateboard.Ledger.Status.{Row, is_present, requirement_status}
use skateboard.Gateway.Retained.{records_still_held, artifacts_still_held}
use skateboard.Gateway.Context.{
  RunContext, CheckContext, CheckResult, Answer, single, several, Handler, subject_named,
  rests_on_a_build, materials_for, binary_materials,
}

-- `PRODUCERS.get(predicate_type)`
unfoldable pub producing_action : String → Option String
unfolding producer
producing_action name = elim (producer name actions) [ none ↦ none | some a ↦ some a.name ]

-- `_absent_backends`: the needed backends that are not configured.
unfoldable pub absent_backends : ActionRow → RunContext → List String
absent_backends row run =
    filter
      (λ name.
        (name == "builder" && not (is_some run.builder))
        || (name == "oracle" && not run.has_oracle))
      row.needs

abbrev pub is_nil : {A : Type 0} → List A → Bool
is_nil [] = true
is_nil (x ∷ xs) = false

abbrev pub unless_present : Row → List Row → List Row
unless_present row rows = if is_present row then rows else row ∷ rows

-- `run.artifacts_match(claim.predicate.detail)`
unfoldable pub artifacts_match : RunContext → Claim → Result Bool
unfolding artifacts_still_held build_predicate
artifacts_match run claim =
    artifacts_still_held run.builder (build_predicate run.phase) claim.predicate.detail
      run.executor_identity

-- `existing and all(existing)`: every query answered.
abbrev pub all_found : List (Option Claim) → Option (List Claim)
all_found [] = some []
all_found (none ∷ rest) = none
all_found (some c ∷ rest) = elim (all_found rest) [ none ↦ none | some cs ↦ some (c ∷ cs) ]

abbrev has_key : String → List (String × Option Claim) → Bool
has_key key m = is_some (lookup key m)

-- `claims.setdefault(run.build_predicate, run.build_claim)`
abbrev with_build :
    String → Option Claim → List (String × Option Claim) → List (String × Option Claim)
with_build key none claims = claims
with_build key (some c) claims = if has_key key claims then claims else claims ++ (key, some c) ∷ []

-- `_check_context`
abbrev pub check_context : RunContext → List (String × Option Claim) → CheckContext
check_context run claims = record {
  region_id = run.region_id;
  phase = run.phase;
  tree_ref = run.tree_ref;
  claims = claims;
}

abbrev same_subjects : List Subject → List Subject → Bool
same_subjects [] [] = true
same_subjects (a ∷ as') (b ∷ bs) = let rest = same_subjects as' bs in a == b && rest
same_subjects _ _ = false

-- The answer of a rebuild is read as one result.
abbrev one_result : Answer → Result CheckResult
one_result (single r) = ok r
one_result (several rs) = raise (type_error "rebuilt")

module _ (hash_text : String → String) (handlers : String → Option Handler) where
  -- `_missing_requirements`, the rows of the action's own prerequisites.
  unfoldable pub required_rows :
      RunContext → LedgerStore → List (String × String) → Result (List Row)
  unfolding requirement_status subject_named materials_for producing_action
  required_rows run store [] = ok []
  required_rows run store ((predicate_type, kind) ∷ rest) = do
    subject ← subject_named run kind
    rows ← required_rows run store rest
    ok (
        unless_present
          (requirement_status store predicate_type (some subject) (producing_action predicate_type)
            (materials_for hash_text run store predicate_type))
          rows)

  -- The row of the build that is missing under what rests on one.
  unfoldable pub build_rows : RunContext → LedgerStore → List Row
  unfolding requirement_status rests_on_a_build build_predicate producing_action
  build_rows run store =
      if rests_on_a_build run && not (is_some run.build_claim)
      then unless_present
          (requirement_status store (build_predicate run.phase) (some run.tree)
            (producing_action (build_predicate run.phase)) run.evidence_materials)
          []
      else []

  -- `_missing_requirements`
  unfoldable pub missing_requirements : RunContext → LedgerStore → Result (List Row)
  unfolding required_rows build_rows
  missing_requirements run store = do
    rows ← required_rows run store run.row.requires
    ok (build_rows run store ++ rows)

  -- The query for one emitted predicate type.
  unfoldable pub filed_before : RunContext → LedgerStore → String → Result (Option Claim)
  unfolding find_duplicate subject_named subject_kind_of materials_for
  filed_before run store emitted = do
    subject ← subject_named run (subject_kind_of emitted)
    ok (
        find_duplicate emitted subject run.config_hash (materials_for hash_text run store emitted)
          store)

  abbrev reusable : RunContext → Option (List Claim) → Result (List Claim)
  reusable run none = ok []
  reusable run (some []) = ok []
  reusable run (some (c ∷ cs)) =
      if elem (build_predicate run.phase) run.row.emits
      then (artifacts_match run c >>= λ held. ok (if held then c ∷ cs else []))
      else ok (c ∷ cs)

  -- `_claims_already_filed`
  unfoldable pub claims_already_filed : RunContext → LedgerStore → Result (List Claim)
  unfolding filed_before artifacts_match build_predicate
  claims_already_filed run store =
      if run.row.deterministic
      then (traverse (filed_before run store) run.row.emits >>= λ existing.
          reusable run (all_found existing))
      else ok []

  abbrev latest_entry :
      RunContext → LedgerStore → (String × String) → Result (String × Option Claim)
  latest_entry run store (predicate_type, kind) = do
    subject ← subject_named run kind
    ok (
      predicate_type,
      latest predicate_type subject (materials_for hash_text run store predicate_type) store,
    )

  -- `_claims_to_rest_on`
  unfoldable pub claims_to_rest_on :
      RunContext → ActionRow → LedgerStore → Result (List (String × Option Claim))
  unfolding latest subject_named materials_for build_predicate
  claims_to_rest_on run row store = do
    claims ← traverse (latest_entry run store) row.requires
    ok (with_build (build_predicate run.phase) run.build_claim claims)

  abbrev handler_named : String → Result Handler
  handler_named name = elim (handlers name) [ none ↦ raise (key_error "handlers") | some h ↦ ok h ]

  abbrev build_row_of : RunContext → Result ActionRow
  build_row_of run = elim (producing_action (build_predicate run.phase)) [
    | none ↦ raise (key_error "producers")
    | some name ↦ elim (row_named name) [ none ↦ raise (key_error "rows") | some row ↦ ok row ]
  ]

  -- The rebuild of `_restored_build`, when the builder no longer holds the current build.
  unfoldable pub rebuilt : RunContext → LedgerStore → Result RunContext
  unfolding claims_to_rest_on producing_action row_named absent_backends binary_materials
      records_still_held build_predicate
  rebuilt run store = do
    build_row ← build_row_of run
    ensure (is_nil (absent_backends build_row run)) (component_error "not configured")
    claims ← claims_to_rest_on run build_row store
    ensure (all (λ e. is_some e.1) claims) (component_error "what it rested on is not current")
    handler ← handler_named build_row.name
    answer ← handler.check (check_context run claims) []
    result ← one_result answer
    ensure (result.verdict == "pass") (component_error "rebuilding it did not pass")
    ensure (same_subjects (binary_materials result) run.build_materials)
        (component_error "different executable bytes")
    held ← records_still_held run.builder result.build_records run.executor_identity
    ensure held (component_error "the builder did not retain the executables")
    ok run

  abbrev restored_from : RunContext → Option Claim → LedgerStore → Result RunContext
  restored_from run none store = ok run
  restored_from run (some c) store =
      if is_nil run.build_materials
      then raise (gateway_error 503 "names no executable")
      else (artifacts_match run c >>= λ held. if held then ok run else rebuilt run store)

  -- `_restored_build`
  unfoldable pub restored_build : RunContext → LedgerStore → Result RunContext
  unfolding rebuilt artifacts_match rests_on_a_build
  restored_build run store =
      if rests_on_a_build run then restored_from run run.build_claim store else ok run

  -- One result of `_checked_results`.
  unfoldable pub checked_result : RunContext → (String × CheckResult) → Result (Unit {0})
  unfolding binary_materials
  checked_result run (predicate_type, result) = do
    ensure (elem result.subject_kind ("tree" ∷ "frozen" ∷ "baseline_tree" ∷ []))
        (component_error "no subject of this kind")
    ensure
        (not (
          result.verdict == "pass"
          && (not (is_foundation predicate_type)
              && (not result.measures_other_binaries
                  && any (λ b. not (elem b run.build_materials)) (binary_materials result)))))
        (component_error "the executable measured does not match the current build")

  -- The retention of what a passing build produced.
  unfoldable pub retained_result : RunContext → (String × CheckResult) → Result (Unit {0})
  unfolding records_still_held
  retained_result run (predicate_type, result) =
      if result.verdict == "pass"
      then (records_still_held run.builder result.build_records run.executor_identity >>= λ held.
          ensure held (component_error "the builder did not retain the executables"))
      else ok tt

  abbrev for_each : {A : Type 0} → (A → Result (Unit {0})) → List A → Result (Unit {0})
  for_each f [] = ok tt
  for_each f (x ∷ xs) = let rest = for_each f xs in f x >> rest

  abbrev results_of : ActionRow → Answer → Result (List (String × CheckResult))
  results_of row (several rs) = ok rs
  results_of row (single r) = first row.emits
    where
      first : List String → Result (List (String × CheckResult))
      first [] = raise (type_error "emits")
      first (p ∷ ps) = ok ((p, r) ∷ [])

  -- The part of `_dispatch_and_record` before anything is written: the results of the check.
  unfoldable pub dispatch :
      RunContext → LedgerStore → Result (Handler × List (String × CheckResult))
  unfolding absent_backends claims_to_rest_on retained_result checked_result build_predicate
  dispatch run store = do
    handler ← handler_named run.row.name
    ensure (is_nil (absent_backends run.row run)) (component_error "not configured")
    claims ← claims_to_rest_on run run.row store
    answer ← handler.check (check_context run claims) run.config
    results ← results_of run.row answer
    (if elem (build_predicate run.phase) run.row.emits
        then for_each (retained_result run) results
        else ok tt)
    for_each (checked_result run) results
    ok (handler, results)
