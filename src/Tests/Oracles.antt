-- ===== src/Tests/Oracles.antt =====
-- An oracle with one case, which a port answers three representable steps away.
use skateboard.Prelude.{
  ◌≡◌, ◌↔◌, refl, String, true, [], ◌∷◌, some, none, In, string_eq, ◌==◌, if◌then◌else◌, arith,
}
use skateboard.Prelude.Text.{codes}
use skateboard.Errors.{Result, ok, raise, value_error, gateway_error}
use skateboard.Ledger.Value.{Value, Fields}
use skateboard.Capture.{Array}
use skateboard.Checks.Manifest.{tolerance_problems}
use skateboard.Oracle.Policy.{check_policy}
use skateboard.Oracle.Policy.Agrees.{check_policy-tolerance_problems}
use skateboard.Oracle.Serve.{
  App, Image, Case, CompareRequest, CompareResponse, cases_of, compare_outputs, get_policy,
  holdout_inputs,
}
use skateboard.Oracle.Serve.Holdout.{compare_outputs-holdout}
use skateboard.Oracle.Serve.Refusal.{compare_outputs-auth}
use skateboard.Oracle.Serve.Verdict.{IsAnswered, compare_outputs-pass}
use skateboard.Tests.Comparisons.{numbers, array_of, variables, outputs, is_within}

check_policy-tolerance_problems_example :
    (check_policy numbers variables outputs ≡ ok tt)
    ↔ (tolerance_problems numbers outputs variables ≡ [])
check_policy-tolerance_problems_example =
    check_policy-tolerance_problems numbers (λ v t within. refl) variables outputs (is_within "t")

abbrev decode : String → Result Array
decode blob = if blob == "near" then ok (array_of 11) else raise (value_error "npy")

abbrev one_case : Case
one_case = record { name = "c1"; inputs = []; outputs = ("t", array_of 8) ∷ [] }

abbrev policy : Fields
policy =
    Fields.field "policy_version" (Value.str "1")
      (Fields.field "variables" (Value.obj variables) Fields.end)

abbrev image : Image
image = record {
  has_captures = true;
  captures = ("visible", one_case ∷ []) ∷ ("holdout", one_case ∷ []) ∷ [];
  tolerances = some policy;
  outputs = some outputs;
  policy_sha256 = "p";
  oracle_identity = "o";
}

abbrev app : App
app = record {
  image = image;
  token = codes "secret";
  missing = [];
  policy = policy;
  bands = variables;
}

abbrev request : CompareRequest
request = record {
  attempt_id = "a";
  dataset = "holdout";
  outputs = ("c1", ("t", "near") ∷ []) ∷ [];
}

abbrev other_request : CompareRequest
other_request = record {
  attempt_id = "b";
  dataset = "holdout";
  outputs = ("c1", ("q", "near") ∷ ("t", "near") ∷ []) ∷ [];
}

abbrev answer : CompareResponse numbers decode
answer = record {
  verdict = "pass";
  dataset = "holdout";
  policy_sha256 = "p";
  oracle_identity = "o";
  per_case = none;
}

answered : compare_outputs numbers decode app request (some (codes "Bearer secret")) ≡ ok answer
unfolding compare_outputs
answered = refl

also_answered :
    compare_outputs numbers decode app other_request (some (codes "Bearer secret")) ≡ ok answer
unfolding compare_outputs
also_answered = refl

compare_outputs-pass_example :
    (answer.verdict ≡ "pass")
    ↔ ((c : Case) → In c (cases_of app.image "holdout") → IsAnswered numbers decode app request c)
compare_outputs-pass_example =
    compare_outputs-pass numbers decode app request (some (codes "Bearer secret")) answer answered

compare_outputs-holdout_example : answer ≡ answer
compare_outputs-holdout_example =
    compare_outputs-holdout numbers decode app app request other_request
      (some (codes "Bearer secret")) (some (codes "Bearer secret")) answer answer refl refl refl
      refl answered also_answered refl

abbrev waiting : App
waiting = record {
  image = image;
  token = codes "secret";
  missing = "captures" ∷ [];
  policy = Fields.end;
  bands = Fields.end;
}

compare_outputs-auth_example :
    (get_policy waiting none ≡ raise (gateway_error 401 "token"))
    × (holdout_inputs waiting none ≡ raise (gateway_error 401 "token"))
    × (compare_outputs numbers decode waiting request none ≡ raise (gateway_error 401 "token"))
compare_outputs-auth_example =
    compare_outputs-auth numbers decode waiting request none (λ e. absurd (ground arith))
      (λ e. absurd (ground arith))
