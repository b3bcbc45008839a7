-- ===== src/Tests/Properties.antt =====
-- A property run of three tests, all of which pass.
use skateboard.Prelude.{ℕ, ◌≡◌, ◌↔◌, [], ◌∷◌, some, nat_eq, true, arith}
use skateboard.Errors.{ok}
use skateboard.Checks.Property.{Ended, Outcome, properties_response, run_module}
use skateboard.Checks.Property.Verdict.{IsCleanRun, run_module-properties_response}

abbrev job : Ended
job = record {
  returncode = 0;
  found = ("passed", 3) ∷ [];
  audited = true;
  evidence = some ("/usr/bin/python3" ∷ "/job/tree/replay" ∷ []);
  replay_path = "/job/tree/replay";
  matches = true;
}

run_module-properties_response_example :
    (out : Outcome ℕ) × (run_module ℕ (λ seed n. ok (properties_response ℕ seed n job)) 7 100
      ≡ ok out)
    × ((out.verdict ≡ "pass") ↔ IsCleanRun ℕ job)
run_module-properties_response_example = run_module-properties_response ℕ 7 100 job (omega arith)
