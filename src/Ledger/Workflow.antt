-- ===== src/Ledger/Workflow.antt =====
-- The workflow catalog: equivalent/ledger/workflow.py. The types of the catalog are here; its
-- entries and the test that it passes on import are in the modules below.
pub mod Catalog
pub mod Validation
pub mod Search
pub mod Acyclic
pub mod Fuel
use skateboard.Prelude.{
  String, Bool, List, [], ◌∷◌, ◌++◌, map, Option, ◌==◌, string_eq, elem, if◌then◌else◌,
}

-- `PHASES`
abbrev pub onboarding : String
onboarding = "onboarding"

abbrev pub porting : String
porting = "porting"

abbrev pub phases : List String
phases = onboarding ∷ porting ∷ []

-- `FINISHED_WORD`
unfoldable pub finished_word : String → Option String
finished_word phase =
    if phase == onboarding
    then Option.some "ONBOARDED"
    else if phase == porting
    then Option.some "ACCEPTED"
    else Option.none

pub data DetailLevel : Type 0 where
  verdict_only full : DetailLevel

pub data AcceptanceRole : Type 0 where
  required properties none : AcceptanceRole

pub record PredicateDefinition : Type 0 where
  pub name : String
  pub agent_detail : DetailLevel

pub record ActionDefinition : Type 0 where
  pub name : String
  pub phase : String
  pub component : String
  pub tool : String
  pub predicates : List PredicateDefinition
  pub requires : List String
  pub deterministic : Bool
  pub subject_kind : String
  pub acceptance : AcceptanceRole
  pub config_keys : List String
  pub needs : List String

abbrev pub emits : ActionDefinition → List String
emits action = map (λ p. p.name) action.predicates

-- `[name for action in actions for name in action.emits]`
abbrev pub emitted : List ActionDefinition → List String
emitted [] = []
emitted (a ∷ rest) = emits a ++ emitted rest

-- The action that emits a predicate: `{name: action for action in actions for name in
-- action.emits}.get(name)`, where a later binding of a name replaces an earlier one.
unfoldable pub producer : String → List ActionDefinition → Option ActionDefinition
producer name [] = Option.none
producer name (a ∷ rest) = elim (producer name rest) [
  | Option.some later ↦ Option.some later
  | Option.none ↦ if elem name (emits a) then Option.some a else Option.none
]
