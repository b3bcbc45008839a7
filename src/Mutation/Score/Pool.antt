-- ===== src/Mutation/Score/Pool.antt =====
-- `_score_all` of services/builder/stage_mutation.py, and the kept directories of `mutate`: the
-- answers of the workers, in the order of the mutants, become one row for each.
pub mod Settled
use skateboard.Prelude.{
  ℕ, suc, ◌+◌, String, Bool, true, false, List, [], ◌∷◌, ◌++◌, map, Option, some, none, In, inl,
  inr, lookup, put, length, filter, if◌then◌else◌, Eq, ◌==◌, ==-refl, Bool-cases, ◌≡◌, ◌≢◌, refl,
  sym, ap, subst, ◌∙◌, arith,
}
use skateboard.Region.Glob.{Text}
use skateboard.Ledger.FileSet.{text_eq}
use skateboard.Mutation.{Status, Mutant}
use skateboard.Mutation.Score.{is_kept}

-- `as_result`
pub record Row : Type 0 where
  pub id : Text
  pub file : Text
  pub line : ℕ
  pub op : String
  pub original : Text
  pub mutated : Text
  pub status : Status

-- `mutant.status = status`, and then `mutant.as_result()`
unfoldable pub as_result : Mutant → Status → Row
as_result mutant status = record {
  id = mutant.mid;
  file = mutant.file;
  line = mutant.line;
  op = mutant.op;
  original = mutant.original;
  mutated = mutant.mutated;
  status = status;
}

-- What `future.result` comes to: the worker's row, a worker that died, or the end of the time.
pub data Answer : Type 0 where
  scored : Status → Answer
  died timed_out : Answer

abbrev pub Job : Type 0
Job = Mutant × Answer

-- The loop over the futures, with what is in `scored`.
unfoldable pub collect : List Job → List (Text × Row) → List (Text × Row)
unfolding as_result
collect [] rows = rows
collect ((mutant, Answer.scored status) ∷ jobs) rows =
    collect jobs (put mutant.mid (as_result mutant status) rows)
collect ((mutant, Answer.died) ∷ jobs) rows =
    collect jobs (put mutant.mid (as_result mutant Status.runtime_fail) rows)
collect ((mutant, Answer.timed_out) ∷ jobs) rows = rows

unfoldable pub index_from : List (Text × Mutant) → List Job → List (Text × Mutant)
index_from by_id [] = by_id
index_from by_id ((mutant, answer) ∷ jobs) = index_from (put mutant.mid mutant by_id) jobs

-- `by_id`
unfoldable pub index : List Job → List (Text × Mutant)
unfolding index_from
index jobs = index_from [] jobs

unfoldable pub row_of : List (Text × Row) → Text × Mutant → Row
unfolding as_result
row_of rows (mid, mutant) = elim (lookup mid rows) [
  | some row ↦ row
  | none ↦ as_result mutant Status.skipped
]

-- `_score_all`
unfoldable pub score_all : List Job → List Row
unfolding index collect row_of
score_all jobs = map (row_of (collect jobs [])) (index jobs)

-- `kept_dirs`, by the ids of the rows
unfoldable kept_ids : List Row → List Text
kept_ids rows = map (λ (row : Row). row.id) (filter (λ (row : Row). is_kept row.status) rows)

-- What the rows ought to be: one for each mutant, in order, with what its worker said, and with
-- "skipped" from the first answer on that did not come in time.
unfoldable pub settle : List Job → List Row
unfolding as_result
settle [] = []
settle ((mutant, Answer.scored status) ∷ jobs) = as_result mutant status ∷ settle jobs
settle ((mutant, Answer.died) ∷ jobs) = as_result mutant Status.runtime_fail ∷ settle jobs
settle ((mutant, Answer.timed_out) ∷ jobs) =
    map (λ (job : Job). as_result job.0 Status.skipped) ((mutant, Answer.timed_out) ∷ jobs)
