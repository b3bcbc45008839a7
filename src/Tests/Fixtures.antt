-- ===== src/Tests/Fixtures.antt =====
-- Claims, a ledger and a request, with digests that are one letter long.
use skateboard.Prelude.{String, true, false, List, [], ◌∷◌, Option, some, none}
use skateboard.Errors.{Result, ok}
use skateboard.Ledger.Subject.{Subject, Kind}
use skateboard.Ledger.Value.{Value}
use skateboard.Ledger.Record.{Claim}
use skateboard.Ledger.Store.{LedgerStore}
use skateboard.Ledger.Table.{ActionRow}
use skateboard.Gateway.Context.{RunContext, CheckResult, Answer, single, Handler}

abbrev pub subject_of : Kind → String → Subject
subject_of kind digest = record { kind = kind; sha256 = digest }

abbrev pub the_tree : Subject
the_tree = subject_of Kind.tree "a"

abbrev pub the_frozen : Subject
the_frozen = subject_of Kind.frozen "f"

abbrev pub the_baseline : Subject
the_baseline = subject_of Kind.tree "b"

abbrev pub the_policy : Subject
the_policy = subject_of Kind.policy "p"

abbrev pub the_executable : Subject
the_executable = subject_of Kind.binary "x"

abbrev pub claim_of : String → String → String → String → List Subject → Claim
claim_of id ts predicate_type verdict materials = record {
  id = id;
  ts = ts;
  subject = the_tree ∷ [];
  predicate_type = predicate_type;
  predicate = record {
    tool = "tool";
    version = "0.1";
    config_hash = "h";
    verdict = verdict;
    detail = Value.null;
  };
  materials = materials;
  session = "session";
  version = 2;
}

abbrev pub a_pass : Claim
a_pass = claim_of "c-0007" "2026-01-01T00:00:00" "sese/verified" "pass" (the_policy ∷ [])

abbrev pub a_later_fail : Claim
a_later_fail = claim_of "c-0008" "2026-01-02T00:00:00" "sese/verified" "fail" (the_policy ∷ [])

abbrev pub store_of : List Claim → LedgerStore
store_of claims = record {
  claims = claims;
  requests = [];
  artifacts = ("digest", 1 ∷ 2 ∷ []) ∷ [];
  capture_sets = [];
}

abbrev pub a_store : LedgerStore
a_store = store_of (a_pass ∷ [])

-- An action that needs the analysis of the tree and emits the verdict on the manifest.
abbrev pub a_row : ActionRow
a_row = record {
  name = "check_manifest";
  emits = "manifest/valid" ∷ [];
  requires = ("sese/verified", "tree") ∷ [];
  deterministic = true;
  component = some "component";
  phase = "onboarding";
  config_keys = "repeats" ∷ [];
  needs = [];
}

abbrev pub a_run : RunContext
a_run = record {
  row = a_row;
  region_id = "region";
  phase = "onboarding";
  session = "session";
  model = "model";
  tool_call_id = none;
  config = [];
  config_hash = "h";
  tree_ref = "a";
  tree = the_tree;
  frozen = the_frozen;
  baseline_tree = the_baseline;
  builder = none;
  has_oracle = false;
  executor_identity = none;
  evidence_materials = the_policy ∷ [];
  build_claim = none;
  build_materials = [];
}

abbrev pub a_result : CheckResult
a_result = record {
  verdict = "pass";
  detail = Value.null;
  reasons = "reason" ∷ [];
  materials = [];
  stores = [];
  subject_kind = "tree";
  measures_other_binaries = false;
  binary_artifacts = [];
  build_records = [];
}

abbrev pub handlers_of : Result Answer → String → Option Handler
handlers_of answer name = some (record { check = λ ctx config. answer; tool = "tool" })

abbrev pub handlers : String → Option Handler
handlers = handlers_of (ok (single a_result))

-- Stands for the digest of a text.
abbrev pub hash_text : String → String
hash_text text = text

abbrev pub clock : LedgerStore → String
clock store = "2026-02-01T00:00:00"
