-- ===== src/Ledger/Table.antt =====
-- The precondition table: equivalent/ledger/table.py.
pub mod Config
use skateboard.Prelude.{
  ℕ, String, Bool, true, false, ◌&&◌, List, [], ◌∷◌, ◌++◌, map, Option, some, none, ◌==◌, string_eq,
  if◌then◌else◌, all, elem, filter, find, not,
}
use skateboard.Errors.{Result, ok, raise}
use skateboard.Ledger.Workflow.{ActionDefinition, emits, onboarding, porting, producer}
use skateboard.Ledger.Workflow.Catalog.{actions}
use skateboard.Ledger.Acceptance.{
  Requirement, Properties, acceptance_requirements, acceptance_list, onboarding_list,
}

-- The subject kinds of a request, `REQUEST_SUBJECT_KINDS`.
abbrev pub request_subject_kinds : List String
request_subject_kinds = "tree" ∷ "frozen" ∷ "baseline_tree" ∷ []

pub record ActionRow : Type 0 where
  pub name : String
  pub emits : List String
  pub requires : List (String × String)
  pub deterministic : Bool
  pub component : Option String
  pub phase : String
  pub config_keys : List String
  pub needs : List String

unfoldable pub dispatchable : ActionRow → Bool
dispatchable row = elim row.component [ none ↦ false | some c ↦ true ]

-- `SUBJECT_KIND_OF.get(name)`
unfoldable pub declared_kind : String → Option String
unfolding producer
declared_kind name = elim (producer name actions) [ none ↦ none | some a ↦ some a.subject_kind ]

-- `subject_kind_of`
unfoldable pub subject_kind_of : String → String
unfolding declared_kind
subject_kind_of name = elim (declared_kind name) [ none ↦ "tree" | some k ↦ k ]

unfoldable pub action_row : ActionDefinition → ActionRow
unfolding subject_kind_of
action_row a = record {
  name = a.name;
  emits = emits a;
  requires = map (λ name. (name, subject_kind_of name)) a.requires;
  deterministic = a.deterministic;
  component = some a.component;
  phase = a.phase;
  config_keys = a.config_keys;
  needs = a.needs;
}

unfoldable pub action_rows : String → List ActionDefinition → List ActionRow
unfolding action_row
action_rows phase [] = []
action_rows phase (a ∷ rest) =
    let later = action_rows phase rest in if a.phase == phase then action_row a ∷ later else later

abbrev list_row : String → List Requirement → String → ActionRow
list_row name reqs phase = record {
  name = name;
  emits = [];
  requires = map (λ r. (r.predicate_type, r.subject_kind)) reqs;
  deterministic = true;
  component = none;
  phase = phase;
  config_keys = [];
  needs = [];
}

-- `ACTION_TABLE`
unfoldable pub action_table : List ActionRow
unfolding action_rows acceptance_list onboarding_list
action_table =
    action_rows porting actions
    ++ (list_row "accept" acceptance_list porting
        ∷ (action_rows onboarding actions ++ list_row "onboarded" onboarding_list onboarding ∷ []))

-- `_subject_kinds_are_declared`: whether the module would import.
unfoldable pub subject_kinds_are_declared : Bool
unfolding action_table
subject_kinds_are_declared =
    all (λ (a : ActionDefinition). elem a.subject_kind request_subject_kinds) actions
    && all (λ (row : ActionRow). all (λ r. elem r.1 request_subject_kinds) row.requires)
        action_table

unfoldable pub rows_for : String → List ActionRow
unfolding action_table
rows_for phase = filter (λ row. row.phase == phase) action_table

-- `ROWS_BY_NAME.get(name)` of gateway/run.py
unfoldable pub row_named : String → Option ActionRow
unfolding action_table
row_named name = find (λ row. row.name == name) action_table

unfoldable pub requires_for : ActionRow → Properties → List (String × String)
unfolding acceptance_requirements
requires_for row manifest =
    if row.name == "accept"
    then map (λ r. (r.predicate_type, r.subject_kind)) (acceptance_requirements manifest)
    else row.requires
