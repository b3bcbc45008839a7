-- ===== src/Mutation/Score.antt =====
-- Scoring: `score_mutant` and `_write_mutated` of services/builder/stage_mutation.py. What the
-- commands do is the workspace's; how they come out is given here as values. The wording of a note is
-- not modelled.
pub mod Observed
pub mod First
pub mod Pool
use skateboard.Prelude.{
  ℕ, zero, suc, ◌+◌, ◌-◌, String, Bool, true, false, ◌&&◌, ◌||◌, not, List, [], ◌∷◌, ◌++◌, Option,
  some, none, if◌then◌else◌, lookup, string_eq, ◌==◌, nat_beq,
}
use skateboard.Errors.{Result, ok, raise, ◌>>=◌}
use skateboard.Region.Glob.{Text}
use skateboard.Ledger.Value.{Value}
use skateboard.Capture.Tolerance.{Floats}
use skateboard.Capture.Cases.{Arrays}
use skateboard.Mutation.{Status, Mutant}
use skateboard.Mutation.Words.{set, split_lines, join_lines}
use skateboard.Mutation.Classify.{Verdict, classify}

-- `_write_mutated`, on the text of the mutant's file
unfoldable write_mutated : Text → Mutant → Text
unfolding split_lines join_lines
write_mutated text mutant = join_lines (set (mutant.line - 1) mutant.mutated (split_lines text))

-- What `make` came to. `none` in its place is a command that did not finish.
pub record Made : Type 0 where
  pub has_problem : Bool
  pub returncode : ℕ
  pub left_executable : Bool
  pub flags_reached : Bool

-- One replay of one case.
pub record Replayed : Type 0 where
  pub returncode : ℕ
  -- `workspace.matches(replay, identity)`
  pub matches : Bool
  -- what it wrote, `none` where a file is not an array
  pub outputs : Option Arrays

-- What scoring one mutant meets, by case.
pub record Trial : Type 0 where
  pub make : Option Made
  pub execute : String → Option Replayed
  pub references : String → Option Arrays

abbrev pub is_equivalent : Status → Bool
is_equivalent Status.equivalent = true
is_equivalent _ = false

-- `mutants.KEEP_DIRECTORY`
abbrev pub is_kept : Status → Bool
is_kept Status.gap = true
is_kept Status.equivalent = true
is_kept _ = false

module _ (f : Floats) (bands : List (String × Value)) where
  abbrev pub compare_outputs : Option Arrays → Option Arrays → Result Status
  compare_outputs (some expected) (some got) =
      classify f expected got bands >>= λ verdict. ok verdict.0
  compare_outputs _ _ = ok Status.killed

  abbrev judge_replay : Trial → String → Option Replayed → Result Status
  judge_replay trial name none = ok Status.runtime_fail
  judge_replay trial name (some replayed) =
      if not (nat_beq replayed.returncode 0) || not replayed.matches
      then ok Status.runtime_fail
      else compare_outputs (trial.references name) replayed.outputs

  -- One round of the loop over the cases.
  unfoldable pub score_case : Trial → String → Result Status
  unfolding classify
  score_case trial name = judge_replay trial name (trial.execute name)

  unfoldable pub score_cases : Trial → List String → Result Status
  unfolding score_case
  score_cases trial [] = ok Status.equivalent
  score_cases trial (name ∷ cases) = score_case trial name >>= λ status.
      let rest = score_cases trial cases in if is_equivalent status then rest else ok status

  abbrev pub score_made : Trial → List String → Option Made → Result Status
  score_made trial cases none = ok Status.build_fail
  score_made trial cases (some made) =
      if made.has_problem
        || ((not (nat_beq made.returncode 0) || not made.left_executable) || not made.flags_reached)
      then ok Status.build_fail
      else score_cases trial cases

  -- `score_mutant`: the status, and whether the directory is kept.
  unfoldable pub score_mutant : Trial → List String → Result (Status × Bool)
  unfolding score_cases
  score_mutant trial cases =
      score_made trial cases trial.make >>= λ status. ok (status, is_kept status)
