-- ===== src/Ledger/Acceptance.antt =====
-- What a finished region needs: equivalent/ledger/acceptance.py, and the predicate registry that
-- equivalent/ledger/predicates.py projects from the same catalog.
use skateboard.Prelude.{
  String, Bool, true, false, ◌&&◌, List, [], ◌∷◌, ◌++◌, map, Option, some, none, ◌==◌, string_eq,
  if◌then◌else◌,
}
use skateboard.Errors.{Result, ok, raise, value_error, key_error}
use skateboard.Ledger.Record.{Predicate}
use skateboard.Ledger.Value.{Value}
use skateboard.Ledger.Workflow.{
  ActionDefinition, PredicateDefinition, AcceptanceRole, DetailLevel, full, verdict_only,
  onboarding, porting,
}
use skateboard.Ledger.Workflow.Catalog.{actions}

pub record Requirement : Type 0 where
  pub predicate_type : String
  pub subject_kind : String
  pub producing_action : String

abbrev same_role : AcceptanceRole → AcceptanceRole → Bool
same_role AcceptanceRole.required AcceptanceRole.required = true
same_role AcceptanceRole.properties AcceptanceRole.properties = true
same_role AcceptanceRole.none AcceptanceRole.none = true
same_role _ _ = false

abbrev requirements_of : ActionDefinition → List Requirement
requirements_of action =
    map
      (λ p. record {
        predicate_type = p.name;
        subject_kind = action.subject_kind;
        producing_action = action.name;
      })
      action.predicates

-- `_requirements`, over any catalog
unfoldable pub requirements : List ActionDefinition → String → AcceptanceRole → List Requirement
requirements [] phase role = []
requirements (a ∷ rest) phase role =
    let later = requirements rest phase role in
    if a.phase == phase && same_role a.acceptance role then requirements_of a ++ later else later

-- `ACCEPTANCE_REQUIREMENTS`
unfoldable pub acceptance_list : List Requirement
unfolding requirements
acceptance_list = requirements actions porting AcceptanceRole.required

-- `CONDITIONAL_REQUIREMENTS`
unfoldable pub conditional_list : List Requirement
unfolding requirements
conditional_list = requirements actions porting AcceptanceRole.properties

-- `ONBOARDING_REQUIREMENTS`
unfoldable pub onboarding_list : List Requirement
unfolding requirements
onboarding_list = requirements actions onboarding AcceptanceRole.required

-- What a manifest says of its properties module: `manifest is None`, or whether
-- `manifest.properties is not None`.
abbrev pub Properties : Type 0
Properties = Option Bool

unfoldable pub acceptance_requirements : Properties → List Requirement
unfolding acceptance_list conditional_list
acceptance_requirements (some true) = acceptance_list ++ conditional_list
acceptance_requirements _ = acceptance_list

unfoldable pub requirements_for : String → Properties → Result (List Requirement)
unfolding acceptance_requirements onboarding_list
requirements_for phase manifest =
    if phase == porting
    then ok (acceptance_requirements manifest)
    else if phase == onboarding
    then ok onboarding_list
    else raise (value_error "unknown phase")

-- `PREDICATE_TYPES`: the registry entry of a predicate type.
pub record PredicateType : Type 0 where
  pub name : String
  pub deterministic : Bool
  pub agent_detail : DetailLevel

abbrev registered_among :
    String → ActionDefinition → List PredicateDefinition → Option PredicateType
registered_among name action [] = none
registered_among name action (p ∷ rest) =
    let later = registered_among name action rest in
    if name == p.name
    then some (record {
      name = p.name;
      deterministic = action.deterministic;
      agent_detail = p.agent_detail;
    })
    else later

unfoldable pub registered : String → List ActionDefinition → Option PredicateType
registered name [] = none
registered name (a ∷ rest) =
    let later = registered name rest in
    elim (registered_among name a a.predicates) [ some found ↦ some found | none ↦ later ]

-- `predicates.get`
unfoldable pub get : String → Result PredicateType
unfolding registered
get name = elim (registered name actions) [
  | some found ↦ ok found
  | none ↦ raise (key_error "predicate type")
]

-- The tool-call result: the verdict, and the detail where the agent may see it.
pub record Receipt : Type 0 where
  pub verdict : String
  pub detail : Option Value

unfoldable pub agent_receipt : String → Predicate → Result Receipt
unfolding get
agent_receipt predicate_type predicate = elim (get predicate_type) [
  | raise e ↦ raise e
  | ok entry ↦ elim entry.agent_detail [
    | full ↦ ok (record { verdict = predicate.verdict; detail = some predicate.detail })
    | verdict_only ↦ ok (record { verdict = predicate.verdict; detail = none })
  ]
]
