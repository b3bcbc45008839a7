-- ===== src/Tests/Catalogs.antt =====
-- `_validate` on the program's catalog and on smaller ones.
use skateboard.Prelude.{
  String, ◌≡◌, ◌≢◌, refl, true, List, [], ◌∷◌, length, elem, string_eq, In, inl,
}
use skateboard.Errors.{ok, raise, runtime_error}
use skateboard.Ledger.Workflow.{ActionDefinition, AcceptanceRole, full, onboarding}
use skateboard.Ledger.Workflow.Validation.{validate, visit_actions}
use skateboard.Ledger.Workflow.Search.{IsOrdered, validate-IsOrdered}
use skateboard.Ledger.Workflow.Acyclic.{Needs, validate-acyclic}
use skateboard.Ledger.Workflow.Fuel.{visit_actions-ne-out_of_fuel}

abbrev action_of : String → String → List String → ActionDefinition
action_of name emitted requires = record {
  name = name;
  phase = onboarding;
  component = "component";
  tool = "tool";
  predicates = record { name = emitted; agent_detail = full } ∷ [];
  requires = requires;
  deterministic = true;
  subject_kind = "tree";
  acceptance = AcceptanceRole.none;
  config_keys = [];
  needs = [];
}

abbrev first_action : ActionDefinition
first_action = action_of "first" "p" []

abbrev second_action : ActionDefinition
second_action = action_of "second" "q" ("p" ∷ [])

abbrev a_catalog : List ActionDefinition
a_catalog = second_action ∷ first_action ∷ []

a_catalog_passes : validate a_catalog ≡ ok ("second" ∷ "first" ∷ [])
unfolding validate
a_catalog_passes = refl

validate-acyclic_example : ¬ Needs a_catalog second_action second_action
validate-acyclic_example = validate-acyclic a_catalog second_action a_catalog_passes (inl refl)

validate-IsOrdered_example :
    IsOrdered a_catalog ("second" ∷ "first" ∷ [])
    × ((a : ActionDefinition) → In a a_catalog → elem a.name ("second" ∷ "first" ∷ []) ≡ true)
validate-IsOrdered_example = validate-IsOrdered a_catalog a_catalog_passes

-- Each of the two requires what the other emits.
abbrev a_cycle : List ActionDefinition
a_cycle = action_of "first" "p" ("q" ∷ []) ∷ second_action ∷ []

visit_actions-ne-out_of_fuel_example :
    visit_actions (length a_cycle) a_cycle a_cycle [] ≢ raise (runtime_error "out of fuel")
visit_actions-ne-out_of_fuel_example = visit_actions-ne-out_of_fuel a_cycle []
