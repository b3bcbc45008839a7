-- ===== src/Oracle/Serve.antt =====
-- `create_app` of services/oracle/app.py and its endpoints. What the image holds is read once: the
-- captures by case, the policy and the manifest's outputs. The bytes of an NPY file are numpy's.
pub mod Holdout
pub mod Refusal
pub mod Verdict
use skateboard.Prelude.{
  ℕ, String, Bool, true, false, ◌&&◌, not, List, [], ◌∷◌, ◌++◌, map, Option, some, none, filter,
  any, all, is_some, elem, length, lookup, ◌==◌, string_eq, ltb, if◌then◌else◌,
}
use skateboard.Prelude.Text.{codes}
use skateboard.Errors.{
  Result, ok, raise, value_error, key_error, attribute_error, gateway_error, ◌>>=◌, ◌>>◌, ensure,
  traverse,
}
use skateboard.Region.Glob.{Text}
use skateboard.Ledger.FileSet.{text_eq}
use skateboard.Ledger.Value.{Value, Fields, find_key, as_mapping, fields}
use skateboard.Capture.{Variable, Array}
use skateboard.Capture.Tolerance.{Floats}
use skateboard.Capture.Cases.{Arrays, CaseComparison, compare_case}
use skateboard.Oracle.Policy.{banded_dtypes, is_empty, check_policy}

abbrev pub datasets : List String
datasets = "visible" ∷ "holdout" ∷ []

-- One case directory: the names of its `case.json`, with the arrays.
pub record Case : Type 0 where
  pub name : String
  pub inputs : Arrays
  pub outputs : Arrays

-- What the image was built with. The two digests are of the policy's bytes and of everything that
-- `_oracle_identity` hashes.
pub record Image : Type 0 where
  pub has_captures : Bool
  pub captures : List (String × List Case)
  pub tolerances : Option Fields
  -- the outputs that the manifest declares, where it is more than minimal
  pub outputs : Option (List Variable)
  pub policy_sha256 : String
  pub oracle_identity : String

-- The list comprehension `absent`.
unfoldable absent_datasets : Image → List String
absent_datasets image = filter (λ name. not (is_some (lookup name image.captures))) datasets

unfoldable pub missing_captures : Image → Result (List String)
unfolding absent_datasets
missing_captures image =
    let absent = absent_datasets image in
    if not image.has_captures
    then ok ("captures" ∷ [])
    else if is_empty absent
    then ok []
    else if ltb (length absent) (length datasets)
    then raise (value_error "half a capture set")
    else ok ("captures" ∷ [])

-- `if not present: missing.append(name)`
abbrev pub unless : Bool → String → List String
unless true name = []
unless false name = name ∷ []

unfoldable pub what_is_missing : Image → Result (List String)
unfolding missing_captures
what_is_missing image = missing_captures image >>= λ missing. ok (
    missing
    ++ (unless (is_some image.tolerances) "tolerances"
        ++ unless (is_some image.outputs) "manifest"))

unfoldable pub cases_of : Image → String → List Case
cases_of image dataset = elim (lookup dataset image.captures) [ none ↦ [] | some cases ↦ cases ]

-- `policy.get("variables", {})`. One that is no mapping is asked for a band only if there is an
-- output that needs one.
unfoldable pub variables_of : Fields → List Variable → Result Fields
unfolding find_key
variables_of policy outputs = elim (find_key "variables" policy) [
  | none ↦ ok Fields.end
  | some value ↦ elim (as_mapping value) [
    | some bands ↦ ok bands
    | none ↦
        if any (λ (v : Variable). elem v.dtype banded_dtypes) outputs
        then raise (attribute_error "variables")
        else ok Fields.end
  ]
]

pub record App : Type 0 where
  pub image : Image
  pub token : Text
  pub missing : List String
  pub policy : Fields
  pub bands : Fields

abbrev pub ready : App → Bool
ready app = is_empty app.missing

pub record PolicyResponse : Type 0 where
  pub policy_version : Value
  pub policy_sha256 : String
  pub oracle_identity : String

pub record CompareRequest : Type 0 where
  pub attempt_id : String
  pub dataset : String
  -- for each case, for each variable, a file in base 64
  pub outputs : List (String × List (String × String))

record Health : Type 0 where
  pub ready : Bool
  pub missing : List String
  pub policy_sha256 : Option String
  pub oracle_identity : Option String
  pub n_visible : ℕ
  pub n_holdout : ℕ

-- `_auth`
unfoldable pub auth : App → Option Text → Result (Unit {0})
auth app authorization = if app.token == [] then ok tt else elim authorization [
  | none ↦ raise (gateway_error 401 "token")
  | some given ↦ ensure (given == codes "Bearer " ++ app.token) (gateway_error 401 "token")
]

-- `_ready`
unfoldable pub check_ready : App → Result (Unit {0})
check_ready app = ensure (ready app) (gateway_error 409 "not ready")

unfoldable pub get_policy : App → Option Text → Result PolicyResponse
unfolding auth check_ready find_key
get_policy app authorization = do
  auth app authorization
  check_ready app
  elim (find_key "policy_version" app.policy) [
    | none ↦ raise (key_error "policy_version")
    | some version ↦ ok (record {
      policy_version = version;
      policy_sha256 = app.image.policy_sha256;
      oracle_identity = app.image.oracle_identity;
    })
  ]

-- The inputs of every held-out case, by case.
unfoldable pub holdout_inputs : App → Option Text → Result (List (String × Arrays))
unfolding auth check_ready cases_of
holdout_inputs app authorization = do
  auth app authorization
  check_ready app
  ok (map (λ (c : Case). (c.name, c.inputs)) (cases_of app.image "holdout"))

abbrev when_ready {ℓ} : {A : Type ℓ} → App → A → Option A
when_ready app a = if ready app then some a else none

unfoldable healthz : App → Health
unfolding cases_of
healthz app = record {
  ready = ready app;
  missing = app.missing;
  policy_sha256 = when_ready app app.image.policy_sha256;
  oracle_identity = when_ready app app.image.oracle_identity;
  n_visible = if ready app then length (cases_of app.image "visible") else 0;
  n_holdout = if ready app then length (cases_of app.image "holdout") else 0;
}

module _ (f : Floats) where
  abbrev pub with_policy :
      Image → Text → List String → Option Fields → Option (List Variable) → Result App
  with_policy image token missing (some policy) (some outputs) = do
    bands ← variables_of policy outputs
    check_policy f bands outputs
    ensure (is_some (find_key "variables" policy)) (key_error "variables")
    ok (record { image = image; token = token; missing = missing; policy = policy; bands = bands })
  with_policy image token missing _ _ = raise (value_error "unreachable")

  unfoldable pub create_app : Image → Text → Result App
  unfolding what_is_missing variables_of check_policy find_key
  create_app image token = what_is_missing image >>= λ missing.
      (if is_empty missing
        then with_policy image token missing image.tolerances image.outputs
        else ok (record {
          image = image;
          token = token;
          missing = missing;
          policy = Fields.end;
          bands = Fields.end;
        }))

module _ (f : Floats) (decode : String → Result Array) where
  pub data CaseAnswer : Type 0 where
    no_output : CaseAnswer
    compared : CaseComparison f → CaseAnswer

  abbrev pub passes : CaseAnswer → Bool
  passes no_output = false
  passes (compared result) = result.pass

  pub record CompareResponse : Type 0 where
    pub verdict : String
    pub dataset : String
    pub policy_sha256 : String
    pub oracle_identity : String
    pub per_case : Option (List (String × CaseAnswer))

  -- `{name: _decode(blob) for name, blob in submitted.items()}`
  unfoldable pub decode_all : List (String × String) → Result Arrays
  decode_all submitted =
      traverse (λ (entry : String × String). decode entry.1 >>= λ a. ok (entry.0, a)) submitted

  abbrev pub judge_submitted :
      App → Case → Option (List (String × String)) → Result (String × CaseAnswer)
  judge_submitted app c none = ok (c.name, no_output)
  judge_submitted app c (some submitted) = do
    got ← decode_all submitted
    result ← compare_case f c.outputs got (fields app.bands)
    ok (c.name, compared result)

  -- One round of the loop over the cases.
  unfoldable pub judge_case :
      App → List (String × List (String × String)) → Case → Result (String × CaseAnswer)
  unfolding decode_all compare_case
  judge_case app outputs c = judge_submitted app c (lookup c.name outputs)

  unfoldable pub respond : App → String → List (String × CaseAnswer) → CompareResponse
  respond app dataset per_case = record {
    verdict = if all (λ (e : String × CaseAnswer). passes e.1) per_case then "pass" else "fail";
    dataset = dataset;
    policy_sha256 = app.image.policy_sha256;
    oracle_identity = app.image.oracle_identity;
    per_case = if dataset == "visible" then some per_case else none;
  }

  unfoldable pub compare_outputs : App → CompareRequest → Option Text → Result CompareResponse
  unfolding auth check_ready cases_of judge_case respond
  compare_outputs app request authorization = do
    auth app authorization
    check_ready app
    ensure (elem request.dataset datasets) (gateway_error 400 "unknown dataset")
    per_case ← traverse (judge_case app request.outputs) (cases_of app.image request.dataset)
    ok (respond app request.dataset per_case)
