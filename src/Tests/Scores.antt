-- ===== src/Tests/Scores.antt =====
-- A mutant that changes one case within the band and a later one outside.
use skateboard.Prelude.{
  ℕ, ◌≡◌, ◌≢◌, length, ◌↔◌, ◌⊎◌, refl, sym, ap, ◌∙◌, inl, inr, String, true, false, List, [], ◌∷◌,
  some, none, In, string_eq, ◌==◌, if◌then◌else◌, arith,
}
use skateboard.Prelude.Text.{codes}
use skateboard.Errors.{ok}
use skateboard.Ledger.Value.{Value}
use skateboard.Capture.Cases.{Arrays}
use skateboard.Mutation.{Mutant, Status}
use skateboard.Mutation.Classify.{classify}
use skateboard.Mutation.Classify.Verdicts.{Means, classify-Means}
use skateboard.Mutation.Score.{Trial, is_kept, score_case, score_mutant}
use skateboard.Mutation.Score.Observed.{Shows}
use skateboard.Mutation.Score.First.{IsBuilt, IsDecidedBy, score_mutant-IsDecidedBy}
use skateboard.Mutation.Score.Pool.{Answer, Job, score_all, settle}
use skateboard.Mutation.Score.Pool.Settled.{AreApart, score_all-settle}
use skateboard.Mutation.Standalone.{Run, Score, score_one}
use skateboard.Mutation.Standalone.Killed.{CaseFails, score_one-killed}
use skateboard.Tests.Comparisons.{numbers, array_of, band}

abbrev bands : List (String × Value)
bands = ("t", band) ∷ []

abbrev wrote : ℕ → Arrays
wrote bits = ("t", array_of bits) ∷ []

classified : classify numbers (wrote 8) (wrote 11) bands ≡ ok (Status.gap, "t" ∷ [])
unfolding classify
classified = refl

classify-Means_example : Means numbers (wrote 11) bands (wrote 8) Status.gap
classify-Means_example =
    classify-Means numbers (wrote 11) bands (wrote 8) (Status.gap, "t" ∷ []) classified

abbrev written_for : String → Arrays
written_for name = if name == "c1" then wrote 11 else wrote 900

abbrev trial : Trial
trial = record {
  make = some (record {
    has_problem = false;
    returncode = 0;
    left_executable = true;
    flags_reached = true;
  });
  execute =
      λ name. some (record { returncode = 0; matches = true; outputs = some (written_for name) });
  references = λ name. some (wrote 8);
}

abbrev cases : List String
cases = "c1" ∷ "c2" ∷ []

scored : score_mutant numbers bands trial cases ≡ ok (Status.gap, true)
unfolding score_mutant
scored = refl

outside : score_case numbers bands trial "c2" ≡ ok Status.killed
unfolding score_case
outside = refl

score_mutant-IsDecidedBy_example :
    (true ≡ is_kept Status.gap)
    × (((IsBuilt trial → ⊥) × (Status.gap ≡ Status.build_fail))
        ⊎ (IsBuilt trial
            × (((Status.gap ≡ Status.equivalent)
                  × ((n : String) → In n cases → Shows numbers bands trial n Status.equivalent))
                ⊎ IsDecidedBy numbers bands trial cases Status.gap)))
score_mutant-IsDecidedBy_example =
    score_mutant-IsDecidedBy numbers bands trial cases Status.gap true scored

abbrev run : Run
run = record {
  compiled = true;
  replay = λ name. some (written_for name);
  references = λ name. wrote 8;
  checked = none;
}

killed : score_one numbers bands run cases ≡ ok Score.killed
unfolding score_one
killed = refl

score_one-killed_example :
    (Score.killed ≡ Score.killed)
    ↔ ((name : String) × In name cases × CaseFails numbers bands run name)
score_one-killed_example = score_one-killed numbers bands run cases Score.killed refl killed

abbrev mutant : String → Mutant
mutant mid = record {
  mid = codes mid;
  file = codes "k.f90";
  line = 1;
  op = "AOR";
  original = codes "x = a + b";
  mutated = codes "x = a - b";
  status = Status.pending;
  tol_killed = none;
  bit_killed = none;
  checked_killed = none;
  note = [];
}

abbrev jobs : List Job
jobs = (mutant "m0", Answer.scored Status.killed) ∷ (mutant "m1", Answer.timed_out) ∷ []

jobs-AreApart : AreApart jobs
jobs-AreApart = (
  (λ other i. elim i [ inl same ↦ apart other same | inr nothing ↦ absurd nothing ]),
  ((λ other i. absurd i), tt),
)
  where
    apart : (other : Job) → other ≡ (mutant "m1", Answer.timed_out) → other.0.mid ≢ codes "m0"
    apart other same e =
        let mid : codes "m1" ≡ codes "m0" = ap (λ (job : Job). job.0.mid) (sym same) ∙ e in
        absurd (ground arith)

score_all-settle_example : score_all jobs ≡ settle jobs
score_all-settle_example = score_all-settle jobs jobs-AreApart

-- Two mutants of one name leave one row.
abbrev namesakes : List Job
namesakes =
    (mutant "m0", Answer.scored Status.killed) ∷ (mutant "m0", Answer.scored Status.gap) ∷ []

one_row : length (score_all namesakes) ≡ 1
unfolding score_all
one_row = refl
