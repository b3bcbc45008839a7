-- ===== src/Checks/Property/Verdict.antt =====
-- When a property run passes, in the words of equivalent/components/property_check.py and of the builder that
-- counts.
use skateboard.Prelude.{
  ℕ, ◌<◌, String, Bool, true, false, List, [], ◌∷◌, nat_beq, nat_beq_iff, ltb, ◌+◌, In, inl, inr,
  Bool-cases, Option-cases, ◌==◌, some, none, sym, Eq, string_eq, ◌≡◌, ◌≢◌, ◌↔◌, refl, arith,
}
use skateboard.Errors.{Result, ok}
use skateboard.Checks.Property.{
  pytest_counts, PropertiesResponse, properties_response, Ended, observations, failure,
  final_response, Problem, successful, problems_of, Outcome, verdict_of, run_module,
}
use skateboard.Checks.Property.Good.{add_four, add_zeros, IsGood, problems_of-IsGood}

fail_ne : ◌≢◌ {A = String} "fail" "pass"
fail_ne h = absurd (ground (arith, (string_eq.beq_iff "fail" "pass").1 h))

module _ (Seed : Type 0) ⦃seed_eq : Eq Seed⦄ where
  verdict_of-pass :
      (ps : List (Problem Seed)) (good : Bool)
      → ((verdict_of Seed ps good).0 ≡ "pass") ↔ ((ps ≡ []) × (good ≡ true))
  verdict_of-pass (p ∷ ps) good =
      (λ h. absurd (fail_ne h), λ h. absurd (let bad = h.0 in ground arith))
  verdict_of-pass [] false = (λ h. absurd (fail_ne h), λ h. absurd (let bad = h.1 in ground arith))
  verdict_of-pass [] true = (λ h. (refl, refl), λ h. refl)

  -- A run of at least one example to which the builder answered has an outcome, and it passes exactly
  -- when the response is to the seed and the number of examples that were asked for, at least one
  -- test passed and every collected one did, with none skipped, deselected or marked as failing, a
  -- replay of the bound executable was observed, and the run says that it went well.
  run_module-IsGood :
      (ask : Seed → ℕ → Result (PropertiesResponse Seed)) (drawn : Seed) (examples : ℕ)
      (resp : PropertiesResponse Seed)
      → 0 < examples
      → ask drawn examples ≡ ok resp
      → (out : Outcome Seed) × (run_module Seed ask drawn examples ≡ ok out)
        × ((out.verdict ≡ "pass") ↔ IsGood Seed resp drawn examples)
  unfolding run_module
  run_module-IsGood ask drawn examples resp some_examples asked =
      let answer =
        verdict_of Seed (problems_of Seed resp drawn examples) (successful Seed resp.counts) in
      let positive : ltb 0 examples ≡ true = ground arith in
      let says =
        verdict_of-pass (problems_of Seed resp drawn examples) (successful Seed resp.counts) in
      let good = problems_of-IsGood Seed resp drawn examples in
      (
        record {
          verdict = answer.0;
          reasons = answer.1;
          seed = drawn;
          max_examples = examples;
          counts = resp.counts;
        },
        rw (positive, asked) refl,
        ((λ h. good.0 (says.0 h)), (λ g. says.1 (good.1 g))),
      )

  -- What the builder found of a run.
  pub record IsCleanRun (job : Ended) : Type 0 where
    pub exit : job.returncode ≡ 0
    pub some_passed : 0 < (pytest_counts job.found).passed
    pub no_failed : (pytest_counts job.found).failed ≡ 0
    pub no_errors : (pytest_counts job.found).errors ≡ 0
    pub no_skipped : (pytest_counts job.found).skipped ≡ 0
    pub no_deselected : (pytest_counts job.found).deselected ≡ 0
    pub no_xfailed : (pytest_counts job.found).xfailed ≡ 0
    pub no_xpassed : (pytest_counts job.found).xpassed ≡ 0
    pub audited : job.audited ≡ true
    pub executions : List String
    pub evidence : job.evidence ≡ some executions
    pub replayed : In job.replay_path executions
    pub matches : job.matches ≡ true

  observations-In :
      (path : String) (executions : List String)
      → (nat_beq (observations path executions) 0 ≡ false) ↔ In path executions
  unfolding observations
  observations-In path [] = (λ h. absurd (ground arith), λ i. absurd i)
  observations-In path (e ∷ executions) =
      let rest = observations-In path executions in
      elim (Bool-cases (e == path)) [
        | inl t ↦ (
          (λ h. inl (sym ((string_eq.beq_iff e path).0 t))),
          (λ i. rw t (suc_beq (observations path executions))),
        )
        | inr t ↦ (
          (λ h. inr (rest.0 (rw t at h))),
          (λ i. elim i [
            | inl same ↦ absurd (let bad = (string_eq.beq_iff e path).1 (sym same) in ground arith)
            | inr later ↦ rw t (rest.1 later)
          ]),
        )
      ]
    where
      suc_beq : (n : ℕ) → nat_beq (1 + n) 0 ≡ false
      suc_beq n = ground arith

  -- The one response that says the run went well.
  abbrev Good : ℕ → Seed → ℕ → List (String × ℕ) → PropertiesResponse Seed
  Good n drawn examples found = record {
    ok = true;
    seed = some drawn;
    max_examples = some examples;
    counts = pytest_counts found;
    replays_observed = some n;
  }

  clean_counts :
      (drawn : Seed) (examples n : ℕ) (job : Ended)
      → IsCleanRun job
      → nat_beq n 0 ≡ false
      → IsGood Seed (Good n drawn examples job.found) drawn examples
  unfolding pytest_counts
  clean_counts drawn examples n job r seen = record {
    same_seed = refl;
    same_examples = refl;
    all_passed = record {
      some_passed = r.some_passed;
      no_failed = r.no_failed;
      no_errors = r.no_errors;
      no_skipped = r.no_skipped;
      no_deselected = r.no_deselected;
      no_xfailed = r.no_xfailed;
      no_xpassed = r.no_xpassed;
      all_collected = add_zeros r.no_failed r.no_errors r.no_skipped r.no_xfailed r.no_xpassed;
      all_executed = add_four r.no_failed r.no_errors r.no_xfailed r.no_xpassed;
    };
    observed = ground arith;
    went_well = refl;
  }

  properties_response-of_clean :
      (drawn : Seed) (examples : ℕ) (job : Ended)
      → IsCleanRun job
      → IsGood Seed (properties_response Seed drawn examples job) drawn examples
  unfolding properties_response final_response
  properties_response-of_clean drawn examples job r =
      let n = observations job.replay_path r.executions in
      let seen : nat_beq n 0 ≡ false =
        (observations-In job.replay_path r.executions).1 r.replayed in
      let zero_exit : nat_beq job.returncode 0 ≡ true = (nat_beq_iff _ _).1 r.exit in
      rw (r.audited, r.evidence, seen, r.matches, zero_exit)
        (clean_counts drawn examples n job r seen)

  final_response-clean :
      (drawn : Seed) (examples n : ℕ) (job : Ended) (executions : List String)
      → job.audited ≡ true
      → job.evidence ≡ some executions
      → In job.replay_path executions
      → IsGood Seed (final_response Seed drawn examples job (some n)) drawn examples
      → IsCleanRun job
  unfolding final_response failure
  final_response-clean drawn examples n job executions audited evidence replayed g =
      elim (Bool-cases job.matches) [
        | inr t ↦
            absurd (let bad : ◌≡◌ {A = Bool} false true = (rw t at g).went_well in ground arith)
        | inl t ↦
            let g' : IsGood Seed
                (record {
                  ok = nat_beq job.returncode 0;
                  seed = some drawn;
                  max_examples = some examples;
                  counts = pytest_counts job.found;
                  replays_observed = some n;
                })
                drawn examples =
              rw t at g in
            record {
              exit = (nat_beq_iff job.returncode 0).0 g'.went_well;
              some_passed = g'.all_passed.some_passed;
              no_failed = g'.all_passed.no_failed;
              no_errors = g'.all_passed.no_errors;
              no_skipped = g'.all_passed.no_skipped;
              no_deselected = g'.all_passed.no_deselected;
              no_xfailed = g'.all_passed.no_xfailed;
              no_xpassed = g'.all_passed.no_xpassed;
              audited = audited;
              executions = executions;
              evidence = evidence;
              replayed = replayed;
              matches = t;
            }
      ]

  unobserved :
      (drawn : Seed) (examples : ℕ) (job : Ended)
      → IsGood Seed (final_response Seed drawn examples job none) drawn examples
      → ⊥
  unfolding final_response failure
  unobserved drawn examples job g = elim (Bool-cases job.matches) [
    | inl t ↦ absurd (let bad : ◌≡◌ {A = Bool} false true = (rw t at g).observed in ground arith)
    | inr t ↦ absurd (let bad : ◌≡◌ {A = Bool} false true = (rw t at g).observed in ground arith)
  ]

  properties_response-clean :
      (drawn : Seed) (examples : ℕ) (job : Ended)
      → IsGood Seed (properties_response Seed drawn examples job) drawn examples
      → IsCleanRun job
  unfolding properties_response final_response failure
  properties_response-clean drawn examples job g = elim (Bool-cases job.audited) [
    | inr t ↦ absurd (unobserved drawn examples job (rw t at g))
    | inl t ↦ elim (Option-cases job.evidence) [
      | inl none_there ↦ absurd (
          let bad : ◌≡◌ {A = Bool} false true = (rw (t, none_there) at g).went_well in ground arith)
      | inr (executions, there) ↦
          elim (Bool-cases (nat_beq (observations job.replay_path executions) 0)) [
            | inl z ↦ absurd (
                let bad : ◌≡◌ {A = Bool} false true = (rw (t, there, z) at g).went_well in
                ground arith)
            | inr z ↦
                final_response-clean drawn examples (observations job.replay_path executions) job
                  executions t there ((observations-In job.replay_path executions).0 z)
                  (rw (t, there, z) at g)
          ]
    ]
  ]

  -- Where the builder's run of pytest came to its end, a property run of at least one example has an
  -- outcome, and it passes exactly when pytest left with 0, the last number that it printed before
  -- "passed" is not 0, that before each other word it counts is 0 or was not printed, the workspace
  -- records executions and its evidence is there and has one of the replay, and the executable is
  -- still the one that was bound.
  pub run_module-properties_response :
      (drawn : Seed) (examples : ℕ) (job : Ended)
      → 0 < examples
      → (out : Outcome Seed) × (run_module Seed
            (λ seed n. ok (properties_response Seed seed n job))
            drawn
            examples
          ≡ ok out)
        × ((out.verdict ≡ "pass") ↔ IsCleanRun job)
  run_module-properties_response drawn examples job positive =
      let resp = properties_response Seed drawn examples job in
      let (out, e, both) =
        run_module-IsGood (λ seed n. ok (properties_response Seed seed n job)) drawn examples resp
          positive refl in
      (
        out,
        e,
        (
          (λ h. properties_response-clean drawn examples job (both.0 h)),
          (λ r. both.1 (properties_response-of_clean drawn examples job r)),
        ),
      )
