-- ===== src/Checks/Property.antt =====
-- The property check: `pytest_counts` of services/builder/stage_property.py, what its `properties` does
-- after pytest came to its end, and `run_module` of equivalent/components/property_check.py, which
-- turns that into a verdict. Seeds are only compared. What `properties` refuses before the run is not
-- here, and the texts of its refusals and the executable's identity are left out.
pub mod Good
pub mod Verdict
use skateboard.Prelude.{
  ℕ, ◌+◌, String, Bool, true, false, ◌&&◌, not, List, [], ◌∷◌, ◌++◌, Option, some, none,
  if◌then◌else◌, nat_beq, ltb, Eq, ◌==◌, string_eq,
}
use skateboard.Errors.{Result, ok, raise, component_error, ◌>>=◌, ◌>>◌, ensure}

-- The nine numbers, `COUNTS` of `PropertiesResponse` in equivalent/components/answers.py
pub record Counts : Type 0 where
  pub passed : ℕ
  pub failed : ℕ
  pub errors : ℕ
  pub skipped : ℕ
  pub deselected : ℕ
  pub xfailed : ℕ
  pub xpassed : ℕ
  pub collected : ℕ
  pub executed : ℕ

-- The two sums that both sides form.
abbrev pub sum_collected : Counts → ℕ
sum_collected c = c.passed + c.failed + c.errors + c.skipped + c.xfailed + c.xpassed

abbrev pub sum_executed : Counts → ℕ
sum_executed c = c.passed + c.failed + c.errors + c.xfailed + c.xpassed

-- The last number that stands before one of the words.
unfoldable pub last_count : (String → Bool) → ℕ → List (String × ℕ) → ℕ
last_count is_word n [] = n
last_count is_word n ((word, number) ∷ found) =
    last_count is_word (if is_word word then number else n) found

abbrev pub is_error : String → Bool
is_error word = if word == "error" then true else word == "errors"

abbrev summed : Counts → Counts
summed c = record {
  passed = c.passed;
  failed = c.failed;
  errors = c.errors;
  skipped = c.skipped;
  deselected = c.deselected;
  xfailed = c.xfailed;
  xpassed = c.xpassed;
  collected = sum_collected c;
  executed = sum_executed c;
}

-- `pytest_counts`, of the matches of `COUNT_PATTERN`: the word and the number of each, in order
unfoldable pub pytest_counts : List (String × ℕ) → Counts
unfolding last_count
pytest_counts found =
    let count = λ (word : String). last_count (λ (w : String). w == word) 0 found in
    summed (record {
      passed = count "passed";
      failed = count "failed";
      errors = last_count is_error 0 found;
      skipped = count "skipped";
      deselected = count "deselected";
      xfailed = count "xfailed";
      xpassed = count "xpassed";
      collected = 0;
      executed = 0;
    })

-- What is there when pytest came to its end: the exit code, the matches of `COUNT_PATTERN` in the
-- output, whether the workspace records executions, the paths of the recorded ones (none where there
-- is no evidence or it is not `ok`), the path of the replay in the job, and what
-- `workspace.matches` says of it.
pub record Ended : Type 0 where
  pub returncode : ℕ
  pub found : List (String × ℕ)
  pub audited : Bool
  pub evidence : Option (List String)
  pub replay_path : String
  pub matches : Bool

-- The sum over the recorded executions of the replay.
unfoldable pub observations : String → List String → ℕ
observations path [] = 0
observations path (e ∷ executions) =
    let rest = observations path executions in if e == path then 1 + rest else rest

module _ (Seed : Type 0) ⦃seed_eq : Eq Seed⦄ where
  pub record PropertiesResponse : Type 0 where
    pub ok : Bool
    pub seed : Option Seed
    pub max_examples : Option ℕ
    pub counts : Counts
    pub replays_observed : Option ℕ

  -- `PropertiesResponse.failure(problem, **drawn, **counts)` with the replays that were observed
  unfoldable pub failure : Seed → ℕ → Counts → Option ℕ → PropertiesResponse
  failure seed max_examples counts replays_observed = record {
    ok = false;
    seed = some seed;
    max_examples = some max_examples;
    counts = counts;
    replays_observed = replays_observed;
  }

  -- The last part of `properties`, from the check that the executable is still the one that was bound
  unfoldable pub final_response : Seed → ℕ → Ended → Option ℕ → PropertiesResponse
  unfolding pytest_counts failure
  final_response seed max_examples job replays_observed =
      if not job.matches then failure seed max_examples (pytest_counts job.found) none else record {
        ok = nat_beq job.returncode 0;
        seed = some seed;
        max_examples = some max_examples;
        counts = pytest_counts job.found;
        replays_observed = replays_observed;
      }

  -- `properties`, from where pytest came to its end
  unfoldable pub properties_response : Seed → ℕ → Ended → PropertiesResponse
  unfolding pytest_counts failure observations final_response
  properties_response seed max_examples job =
      if job.audited
      then elim job.evidence [
        | none ↦ failure seed max_examples (pytest_counts job.found) none
        | some executions ↦
            let replays_observed = observations job.replay_path executions in
            if nat_beq replays_observed 0
            then failure seed max_examples (pytest_counts job.found) (some 0)
            else final_response seed max_examples job (some replays_observed)
      ]
      else final_response seed max_examples job none

  pub data Problem : Type 0 where
    other_seed other_examples none_passed inconsistent unobserved other_outcome : Problem
    skipped deselected xfailed xpassed : ℕ → Problem

  abbrev pub when : Bool → Problem → List Problem
  when true problem = problem ∷ []
  when false problem = []

  unfoldable pub successful : Counts → Bool
  successful c =
      ltb 0 c.passed
      && (nat_beq c.failed 0
          && (nat_beq c.errors 0
              && (nat_beq c.skipped 0
                  && (nat_beq c.deselected 0
                      && (nat_beq c.xfailed 0
                          && (nat_beq c.xpassed 0
                              && (nat_beq c.collected c.passed && nat_beq c.executed c.passed)))))))

  -- `resp.seed != drawn`
  abbrev pub is_seed : Option Seed → Seed → Bool
  is_seed none drawn = false
  is_seed (some seed) drawn = seed == drawn

  abbrev pub is_count : Option ℕ → ℕ → Bool
  is_count none examples = false
  is_count (some n) examples = nat_beq n examples

  -- `bool(resp.replays_observed)`
  abbrev pub is_observed : Option ℕ → Bool
  is_observed none = false
  is_observed (some n) = ltb 0 n

  abbrev pub same_bool : Bool → Bool → Bool
  same_bool true b = b
  same_bool false b = not b

  unfoldable pub count_problems : Counts → List Problem
  count_problems c =
      when (nat_beq c.passed 0) none_passed
      ++ (when (ltb 0 c.skipped) (skipped c.skipped)
          ++ (when
                (not (nat_beq c.collected (sum_collected c) && nat_beq c.executed (sum_executed c)))
                inconsistent
              ++ (when (ltb 0 c.deselected) (deselected c.deselected)
                  ++ (when (ltb 0 c.xfailed) (xfailed c.xfailed)
                      ++ when (ltb 0 c.xpassed) (xpassed c.xpassed)))))

  unfoldable pub problems_of : PropertiesResponse → Seed → ℕ → List Problem
  unfolding count_problems successful
  problems_of resp drawn examples =
      when (not (is_seed resp.seed drawn)) other_seed
      ++ (when (not (is_count resp.max_examples examples)) other_examples
          ++ (count_problems resp.counts
              ++ (when (not (is_observed resp.replays_observed)) unobserved
                  ++ when (not (same_bool resp.ok (successful resp.counts))) other_outcome)))

  -- The reasons of a fail: the problems, or that not every test passed.
  pub data Reasons : Type 0 where
    problems : List Problem → Reasons
    not_every_test : Reasons

  pub record Outcome : Type 0 where
    pub verdict : String
    pub reasons : Option Reasons
    pub seed : Seed
    pub max_examples : ℕ
    pub counts : Counts

  abbrev pub verdict_of : List Problem → Bool → String × Option Reasons
  verdict_of (p ∷ ps) good = ("fail", some (problems (p ∷ ps)))
  verdict_of [] false = ("fail", some not_every_test)
  verdict_of [] true = ("pass", none)

  -- `run_module` with the seed that it drew or was given; `ask` is the builder.
  unfoldable pub run_module : (Seed → ℕ → Result PropertiesResponse) → Seed → ℕ → Result Outcome
  unfolding problems_of successful
  run_module ask drawn examples = do
    ensure (ltb 0 examples) (component_error "max_examples")
    resp ← ask drawn examples
    let answer = verdict_of (problems_of resp drawn examples) (successful resp.counts)
    ok (record {
      verdict = answer.0;
      reasons = answer.1;
      seed = drawn;
      max_examples = examples;
      counts = resp.counts;
    })
