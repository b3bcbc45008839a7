-- ===== src/Ledger/Workflow/Validation.antt =====
-- `_validate` of equivalent/ledger/workflow.py, the test of the catalog when it is imported. The
-- depth-first search takes fuel, the number of actions.
use skateboard.Prelude.{
  ℕ, zero, suc, String, Bool, true, false, ◌&&◌, List, [], ◌∷◌, map, length, ◌==◌, string_eq, elem,
  distinct, if◌then◌else◌, some, none, not, ◌≡◌, refl,
}
use skateboard.Errors.{
  Result, ok, raise, value_error, key_error, runtime_error, ◌>>=◌, ◌>>◌, ensure,
}
use skateboard.Ledger.Workflow.{ActionDefinition, PredicateDefinition, phases, emitted, producer}
use skateboard.Ledger.Workflow.Catalog.{actions}

abbrev is_ok : {A : Type 0} → Result A → Bool
is_ok (ok a) = true
is_ok (raise e) = false

-- `not action.predicates`
abbrev is_empty : List PredicateDefinition → Bool
is_empty [] = true
is_empty (p ∷ ps) = false

abbrev pub names : List ActionDefinition → List String
names = map (λ a. a.name)

-- One required predicate of one action: known, and produced in the same phase.
unfoldable pub check_required :
    List ActionDefinition → ActionDefinition → List String → Result (Unit {0})
unfolding producer
check_required all action [] = ok tt
check_required all action (required ∷ rest) = do
  producing ← elim (producer required all) [
    | none ↦ raise (value_error "requires unknown predicate")
    | some found ↦ ok found
  ]
  ensure (producing.phase == action.phase) (value_error "requires evidence from another phase")
  check_required all action rest

-- The checks of the loop over the actions.
unfoldable pub check_action : List ActionDefinition → ActionDefinition → Result (Unit {0})
unfolding check_required
check_action all action = do
  ensure (elem action.phase phases && not (is_empty action.predicates))
      (value_error "invalid phase or empty predicate list")
  ensure (elem action.subject_kind ("tree" ∷ "frozen" ∷ "baseline_tree" ∷ []))
      (value_error "unknown subject kind")
  check_required all action action.requires

unfoldable pub check_actions : List ActionDefinition → List ActionDefinition → Result (Unit {0})
unfolding check_action
check_actions all [] = ok tt
check_actions all (a ∷ rest) = do check_action all a; check_actions all rest

-- `for required in action.requires: visit(producers[required])`, with the names visited so far.
unfoldable pub visit_required :
    (ActionDefinition → List String → Result (List String))
    → List ActionDefinition
    → List String
    → List String
    → Result (List String)
unfolding producer
visit_required visit all [] visited = ok visited
visit_required visit all (required ∷ rest) visited = elim (producer required all) [
  | none ↦ raise (key_error "producers")
  | some next ↦ visit next visited >>= visit_required visit all rest
]

-- `visit`. The names being visited are passed down, since the call takes its own name out again
-- before it returns; the visited names are threaded through.
unfoldable pub visit :
    ℕ → List ActionDefinition → List String → ActionDefinition → List String → Result (List String)
unfolding visit_required
visit zero all visiting action visited =
    if elem action.name visiting
    then raise (value_error "workflow prerequisite cycle")
    else if elem action.name visited
    then ok visited
    else raise (runtime_error "out of fuel")
visit (suc fuel) all visiting action visited =
    if elem action.name visiting
    then raise (value_error "workflow prerequisite cycle")
    else if elem action.name visited
    then ok visited
    else (visit_required (visit fuel all (action.name ∷ visiting)) all action.requires visited
        >>= λ after. ok (action.name ∷ after))

unfoldable pub visit_actions :
    ℕ → List ActionDefinition → List ActionDefinition → List String → Result (List String)
unfolding visit
visit_actions fuel all [] visited = ok visited
visit_actions fuel all (a ∷ rest) visited =
    visit fuel all [] a visited >>= visit_actions fuel all rest

-- `_validate`, which returns nothing; here it returns the order in which the search finished.
unfoldable pub validate : List ActionDefinition → Result (List String)
unfolding check_actions visit_actions
validate all = do
  ensure (distinct (names all) && distinct (emitted all)) (value_error "names must be unique")
  check_actions all all
  visit_actions (length all) all all []

-- The program's own catalog passes, as it must for the module to import.
catalog_passes : is_ok (validate actions) ≡ true
unfolding validate
catalog_passes = refl
