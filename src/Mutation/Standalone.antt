-- ===== src/Mutation/Standalone.antt =====
-- `_score_one` of tools/fmutate/fmutate.py: the same question asked from a checkout, without the
-- service. Builds and replays are given by how they come out.
pub mod Killed
use skateboard.Prelude.{
  ℕ, String, Bool, true, false, ◌&&◌, ◌||◌, not, List, [], ◌∷◌, Option, some, none, if◌then◌else◌,
  lookup, string_eq, any, is_some,
}
use skateboard.Errors.{Result, ok, raise, key_error, ◌>>=◌}
use skateboard.Ledger.Value.{Value}
use skateboard.Capture.{Array}
use skateboard.Capture.Tolerance.{Floats}
use skateboard.Capture.Compare.{compare_variable}
use skateboard.Capture.Cases.{Arrays}
use skateboard.Mutation.Classify.{bitwise_equal}

pub data Score : Type 0 where
  nocompile killed gap survived killed_checked : Score

pub record Flags : Type 0 where
  pub tol_killed : Bool
  pub bit_killed : Bool

-- One mutant: whether the release build compiled, what each case wrote, `none` where the replay did
-- not come to its outputs, and the same of the checked build, where one is wanted and compiled.
pub record Run : Type 0 where
  pub compiled : Bool
  pub replay : String → Option Arrays
  pub references : String → Arrays
  pub checked : Option (String → Option Arrays)

unfoldable pub status_of : Flags → Score
status_of flags =
    if flags.tol_killed
    then Score.killed
    else if flags.bit_killed
    then Score.gap
    else Score.survived

-- The rerun of a survivor under the checked build.
unfoldable pub recheck : Run → List String → Score → Score
recheck run cases Score.survived = elim run.checked [
  | none ↦ Score.survived
  | some replay ↦
      if any (λ name. not (is_some (replay name))) cases
      then Score.killed_checked
      else Score.survived
]
recheck run cases score = score

module _ (f : Floats) (tols : List (String × Value)) where
  abbrev pub judge_array : Array → Value → Flags → Array → Result Flags
  judge_array ref tol flags array = compare_variable f ref array tol >>= λ c. ok (record {
    tol_killed = flags.tol_killed || not c.pass;
    bit_killed = flags.bit_killed || not (bitwise_equal ref array);
  })

  -- One round of the loop over the variables.
  unfoldable pub judge_variable : Arrays → (String × Array) → Flags → Result Flags
  unfolding compare_variable bitwise_equal
  judge_variable got (var, ref) flags = elim (lookup var got) [
    | none ↦ raise (key_error "variable")
    | some array ↦ elim (lookup var tols) [
      | none ↦ raise (key_error "tolerance")
      | some tol ↦ judge_array ref tol flags array
    ]
  ]

  unfoldable pub judge_case : Arrays → List (String × Array) → Flags → Result Flags
  unfolding judge_variable
  judge_case got [] flags = ok flags
  judge_case got (entry ∷ entries) flags =
      judge_variable got entry flags >>= λ next. judge_case got entries next

  -- The loop over the cases, which ends at a case that does not run, and when both flags are set.
  unfoldable pub judge_cases : Run → List String → Flags → Result Flags
  unfolding judge_case
  judge_cases run [] flags = ok flags
  judge_cases run (name ∷ cases) flags = elim (run.replay name) [
    | none ↦ ok (record { tol_killed = true; bit_killed = true })
    | some got ↦ judge_case got (run.references name) flags >>= λ next.
        let later = judge_cases run cases next in
        if next.tol_killed && next.bit_killed then ok next else later
  ]

  -- `_score_one`
  unfoldable pub score_one : Run → List String → Result Score
  unfolding judge_cases status_of recheck
  score_one run cases =
      if not run.compiled
      then ok Score.nocompile
      else judge_cases run cases (record { tol_killed = false; bit_killed = false }) >>= λ flags.
          ok (recheck run cases (status_of flags))
