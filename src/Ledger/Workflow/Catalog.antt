-- ===== src/Ledger/Workflow/Catalog.antt =====
-- The actions of the workflow: equivalent/ledger/workflow.py, `ACTIONS`, field by field but for the
-- descriptions, which are shown and never tested.
use skateboard.Prelude.{true, false, List, [], ◌∷◌, ◌++◌}
use skateboard.Ledger.Workflow.{
  ActionDefinition, full, verdict_only, AcceptanceRole, onboarding, porting,
}

abbrev sese_check : ActionDefinition
sese_check = record {
  name = "sese_check";
  phase = porting;
  component = "analyzer:check_sese";
  tool = "sese_check";
  predicates = record { name = "sese/verified"; agent_detail = full } ∷ [];
  requires = [];
  deterministic = true;
  subject_kind = "tree";
  acceptance = AcceptanceRole.required;
  config_keys = [];
  needs = [];
}

abbrev build_replay : ActionDefinition
build_replay = record {
  name = "build_replay";
  phase = porting;
  component = "builder:/v1/build";
  tool = "builder";
  predicates = record { name = "build/replay"; agent_detail = full } ∷ [];
  requires = "sese/verified" ∷ [];
  deterministic = true;
  subject_kind = "tree";
  acceptance = AcceptanceRole.required;
  config_keys = [];
  needs = "builder" ∷ [];
}

abbrev run_replay : ActionDefinition
run_replay = record {
  name = "run_replay";
  phase = porting;
  component = "builder:/v1/run";
  tool = "builder";
  predicates = record { name = "gpu/executed"; agent_detail = full } ∷ [];
  requires = "build/replay" ∷ [];
  deterministic = true;
  subject_kind = "tree";
  acceptance = AcceptanceRole.required;
  config_keys = [];
  needs = "builder" ∷ [];
}

abbrev sanitize : ActionDefinition
sanitize = record {
  name = "sanitize";
  phase = porting;
  component = "builder:/v1/sanitize";
  tool = "compute-sanitizer";
  predicates =
      record { name = "sanitize/memcheck"; agent_detail = full }
      ∷ record { name = "sanitize/racecheck"; agent_detail = full }
      ∷ record { name = "sanitize/initcheck"; agent_detail = full }
      ∷ [];
  requires = "gpu/executed" ∷ [];
  deterministic = true;
  subject_kind = "tree";
  acceptance = AcceptanceRole.required;
  config_keys = [];
  needs = "builder" ∷ [];
}

abbrev regression_visible : ActionDefinition
regression_visible = record {
  name = "regression_visible";
  phase = porting;
  component = "oracle:/v1/compare";
  tool = "oracle";
  predicates = record { name = "regression/visible"; agent_detail = full } ∷ [];
  requires =
      "sanitize/memcheck" ∷ "sanitize/racecheck" ∷ "sanitize/initcheck" ∷ "gpu/executed" ∷ [];
  deterministic = true;
  subject_kind = "tree";
  acceptance = AcceptanceRole.required;
  config_keys = [];
  needs = "oracle" ∷ [];
}

abbrev property_check : ActionDefinition
property_check = record {
  name = "property_check";
  phase = porting;
  component = "builder:/v1/properties";
  tool = "builder";
  predicates = record { name = "regression/property"; agent_detail = full } ∷ [];
  requires = "regression/visible" ∷ [];
  deterministic = true;
  subject_kind = "tree";
  acceptance = AcceptanceRole.properties;
  config_keys = "seed" ∷ "max_examples" ∷ [];
  needs = "builder" ∷ [];
}

abbrev regression_holdout : ActionDefinition
regression_holdout = record {
  name = "regression_holdout";
  phase = porting;
  component = "oracle:/v1/compare";
  tool = "oracle";
  predicates = record { name = "regression/holdout"; agent_detail = verdict_only } ∷ [];
  requires = "regression/visible" ∷ [];
  deterministic = true;
  subject_kind = "tree";
  acceptance = AcceptanceRole.required;
  config_keys = [];
  needs = "builder" ∷ "oracle" ∷ [];
}

abbrev program_regression : ActionDefinition
program_regression = record {
  name = "program_regression";
  phase = porting;
  component = "builder:/v1/time";
  tool = "builder";
  predicates = record { name = "program/regression"; agent_detail = full } ∷ [];
  requires = "regression/holdout" ∷ "timing/baseline" ∷ [];
  deterministic = true;
  subject_kind = "tree";
  acceptance = AcceptanceRole.required;
  config_keys = [];
  needs = "builder" ∷ [];
}

abbrev time_port : ActionDefinition
time_port = record {
  name = "time_port";
  phase = porting;
  component = "builder:/v1/time";
  tool = "builder";
  predicates = record { name = "timing/port"; agent_detail = full } ∷ [];
  requires = "program/regression" ∷ [];
  deterministic = false;
  subject_kind = "tree";
  acceptance = AcceptanceRole.required;
  config_keys = "repeats" ∷ [];
  needs = "builder" ∷ [];
}

abbrev time_baseline : ActionDefinition
time_baseline = record {
  name = "time_baseline";
  phase = porting;
  component = "builder:/v1/time";
  tool = "builder";
  predicates = record { name = "timing/baseline"; agent_detail = full } ∷ [];
  requires = [];
  deterministic = false;
  subject_kind = "baseline_tree";
  acceptance = AcceptanceRole.none;
  config_keys = "repeats" ∷ [];
  needs = "builder" ∷ [];
}

abbrev performance_check : ActionDefinition
performance_check = record {
  name = "performance_check";
  phase = porting;
  component = "gateway:performance";
  tool = "performance_check";
  predicates = record { name = "performance/speedup"; agent_detail = full } ∷ [];
  requires = "timing/port" ∷ "timing/baseline" ∷ [];
  deterministic = true;
  subject_kind = "tree";
  acceptance = AcceptanceRole.none;
  config_keys = [];
  needs = [];
}

abbrev manifest_check : ActionDefinition
manifest_check = record {
  name = "manifest_check";
  phase = onboarding;
  component = "gateway:manifest_check";
  tool = "manifest_check";
  predicates = record { name = "manifest/valid"; agent_detail = full } ∷ [];
  requires = [];
  deterministic = true;
  subject_kind = "tree";
  acceptance = AcceptanceRole.required;
  config_keys = [];
  needs = [];
}

abbrev harness_build : ActionDefinition
harness_build = record {
  name = "harness_build";
  phase = onboarding;
  component = "builder:/v1/build";
  tool = "builder";
  predicates = record { name = "harness/builds"; agent_detail = full } ∷ [];
  requires = "manifest/valid" ∷ [];
  deterministic = true;
  subject_kind = "tree";
  acceptance = AcceptanceRole.required;
  config_keys = [];
  needs = "builder" ∷ [];
}

abbrev harness_capture : ActionDefinition
harness_capture = record {
  name = "harness_capture";
  phase = onboarding;
  component = "builder:/v1/capture";
  tool = "builder";
  predicates = record { name = "harness/captured"; agent_detail = full } ∷ [];
  requires = "harness/builds" ∷ [];
  deterministic = true;
  subject_kind = "tree";
  acceptance = AcceptanceRole.required;
  config_keys = [];
  needs = "builder" ∷ [];
}

abbrev harness_replay : ActionDefinition
harness_replay = record {
  name = "harness_replay";
  phase = onboarding;
  component = "builder:/v1/run";
  tool = "builder";
  predicates = record { name = "harness/replays"; agent_detail = full } ∷ [];
  requires = "harness/captured" ∷ [];
  deterministic = true;
  subject_kind = "tree";
  acceptance = AcceptanceRole.required;
  config_keys = [];
  needs = "builder" ∷ [];
}

abbrev harness_determinism : ActionDefinition
harness_determinism = record {
  name = "harness_determinism";
  phase = onboarding;
  component = "builder:/v1/capture";
  tool = "builder";
  predicates = record { name = "harness/deterministic"; agent_detail = full } ∷ [];
  requires = "harness/replays" ∷ "harness/captured" ∷ [];
  deterministic = true;
  subject_kind = "tree";
  acceptance = AcceptanceRole.required;
  config_keys = [];
  needs = "builder" ∷ [];
}

abbrev harness_timing : ActionDefinition
harness_timing = record {
  name = "harness_timing";
  phase = onboarding;
  component = "builder:/v1/time";
  tool = "builder";
  predicates = record { name = "harness/times"; agent_detail = full } ∷ [];
  requires = "harness/builds" ∷ [];
  deterministic = true;
  subject_kind = "tree";
  acceptance = AcceptanceRole.required;
  config_keys = [];
  needs = "builder" ∷ [];
}

abbrev harness_original : ActionDefinition
harness_original = record {
  name = "harness_original";
  phase = onboarding;
  component = "builder:/v1/build+/v1/time";
  tool = "builder";
  predicates = record { name = "harness/original"; agent_detail = full } ∷ [];
  requires = "harness/builds" ∷ "harness/times" ∷ [];
  deterministic = true;
  subject_kind = "tree";
  acceptance = AcceptanceRole.required;
  config_keys = [];
  needs = "builder" ∷ [];
}

abbrev harness_self_check : ActionDefinition
harness_self_check = record {
  name = "harness_self_check";
  phase = onboarding;
  component = "builder:/v1/mutate";
  tool = "builder";
  predicates = record { name = "harness/self_check"; agent_detail = full } ∷ [];
  requires = "harness/replays" ∷ "harness/captured" ∷ [];
  deterministic = true;
  subject_kind = "tree";
  acceptance = AcceptanceRole.required;
  config_keys = "limit" ∷ [];
  needs = "builder" ∷ [];
}

abbrev harness_property : ActionDefinition
harness_property = record {
  name = "harness_property";
  phase = onboarding;
  component = "builder:/v1/properties";
  tool = "builder";
  predicates = record { name = "harness/properties"; agent_detail = full } ∷ [];
  requires = "harness/replays" ∷ "harness/captured" ∷ [];
  deterministic = true;
  subject_kind = "tree";
  acceptance = AcceptanceRole.required;
  config_keys = "seed" ∷ "max_examples" ∷ [];
  needs = "builder" ∷ [];
}

abbrev porting_actions : List ActionDefinition
porting_actions =
    sese_check ∷ build_replay ∷ run_replay ∷ sanitize ∷ regression_visible ∷ property_check
    ∷ regression_holdout ∷ program_regression ∷ time_port ∷ time_baseline ∷ performance_check ∷ []

abbrev onboarding_actions : List ActionDefinition
onboarding_actions =
    manifest_check ∷ harness_build ∷ harness_capture ∷ harness_replay ∷ harness_determinism
    ∷ harness_timing ∷ harness_original ∷ harness_self_check ∷ harness_property ∷ []

-- `ACTIONS`
abbrev pub actions : List ActionDefinition
actions = porting_actions ++ onboarding_actions
