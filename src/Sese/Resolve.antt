-- ===== src/Sese/Resolve.antt =====
-- `analyze` of equivalent/analyzers/check_sese.py, from the declared ranges on.
pub mod Passes
use skateboard.Prelude.{
  ℕ, suc, ◌+◌, ◌-◌, Bool, true, false, ◌&&◌, ◌||◌, not, List, [], ◌∷◌, ◌++◌, Option, some, none,
  if◌then◌else◌, map, filter, length, nat_beq, ltb, is_some, unique, ◌==◌,
}
use skateboard.Prelude.Sorting.{sort_by}
use skateboard.Prelude.Text.{text_leb}
use skateboard.Region.Glob.{Text}
use skateboard.Ledger.FileSet.{text_eq}
use skateboard.Sese.Lexer.{Lexer}
use skateboard.Sese.Procedures.{Procedure, procedures}
use skateboard.Sese.Scan.{Item, Scanned, scan}

-- One line range of the specification, for the anchor or a callee.
pub record Declared : Type 0 where
  pub file : Text
  pub lo : ℕ
  pub hi : ℕ
  pub label : Text
  pub symbol : Text

pub data Problem : Type 0 where
  not_a_regular_file : Text → Problem
  not_in_the_tree : Text → Problem
  invalid_range : Declared → ℕ → Problem
  procedure_not_found : Declared → Problem
  procedure_ambiguous : Declared → Problem
  control_flow : Item → Problem

-- What a range is scanned as: "actual" lines and where the procedure's END statement starts.
pub record Resolved : Type 0 where
  pub declared : Declared
  pub actual_lo : ℕ
  pub actual_hi : ℕ
  pub procedure : Procedure

pub data Note : Type 0 where
  -- and whether the file is in the tree
  opaque_source : Text → Bool → Note
  terminal_return : Item → Note

pub record Analysis : Type 0 where
  pub src_files : List Text
  pub range_count : ℕ
  pub total_lines : ℕ
  pub violations : List Problem
  pub notes : List Note
  pub resolved_ranges : List Resolved
  -- the verdict "pass"
  pub passes : Bool

-- The tree: what a path that is a regular file reads as, in lines, and which paths are symbolic
-- links or something other than a file.
pub record Tree : Type 0 where
  pub lines : Text → Option (List Text)
  pub irregular : Text → Bool

abbrev pub is_empty : {A : Type 0} → List A → Bool
is_empty [] = true
is_empty (x ∷ xs) = false

-- `sorted(set(files))`
unfoldable pub sorted_set : List Text → List Text
unfolding sort_by text_leb
sorted_set files = sort_by text_leb (unique files)

unfoldable pub result : List Text → ℕ → ℕ → List Problem → List Note → List Resolved → Analysis
unfolding sorted_set
result files range_count total_lines violations notes resolved_ranges = record {
  src_files = sorted_set files;
  range_count = range_count;
  total_lines = total_lines;
  violations = violations;
  notes = notes;
  resolved_ranges = resolved_ranges;
  passes = is_empty violations;
}

-- What one declared range comes to.
pub data Resolution : Type 0 where
  unresolved : Problem → Resolution
  resolved : Resolved → Resolution

-- A range that includes or omits only the END line is kept.
unfoldable pub aligned : Declared → Procedure → Bool
aligned declared p =
    nat_beq declared.lo p.lo && (nat_beq declared.hi p.hi || nat_beq declared.hi (p.hi - 1))

unfoldable pub first_line : Declared → Procedure → ℕ
unfolding aligned
first_line declared p = if aligned declared p then declared.lo else p.lo

unfoldable pub last_line : Declared → Procedure → ℕ
unfolding aligned
last_line declared p = if aligned declared p then declared.hi else p.hi

unfoldable pub resolve_to : Declared → List Procedure → Resolution
unfolding first_line last_line
resolve_to declared [] = unresolved (procedure_not_found declared)
resolve_to declared (p ∷ []) = resolved (record {
  declared = declared;
  actual_lo = if aligned declared p then declared.lo else p.lo;
  actual_hi = if aligned declared p then declared.hi else p.hi;
  procedure = p;
})
resolve_to declared (p ∷ q ∷ more) = unresolved (procedure_ambiguous declared)

unfoldable pub not_regular : Tree → List Text → List Problem
not_regular tree opaque = map not_a_regular_file (filter (λ f. tree.irregular f) opaque)

-- The files to scan, each once and in order, that are not in the tree.
unfoldable pub not_found : Tree → List Declared → List Problem
unfolding sorted_set
not_found tree declared = map not_in_the_tree (
    filter (λ f. not (is_some (tree.lines f)))
      (sorted_set (map (λ (d : Declared). d.file) declared)))

-- `lines_by_file[file]`, once no file is missing
unfoldable pub lines_of : Tree → Text → List Text
lines_of tree file = elim (tree.lines file) [ none ↦ [] | some lines ↦ lines ]

unfoldable pub resolution_problems : List Resolution → List Problem
resolution_problems [] = []
resolution_problems (unresolved problem ∷ rest) = problem ∷ resolution_problems rest
resolution_problems (resolved r ∷ rest) = resolution_problems rest

unfoldable pub resolved_ranges : List Resolution → List Resolved
resolved_ranges [] = []
resolved_ranges (unresolved problem ∷ rest) = resolved_ranges rest
resolved_ranges (resolved r ∷ rest) = r ∷ resolved_ranges rest

-- `sum(hi - lo + 1 for ...)`, where no range ends before it starts
unfoldable pub total_lines_of : List Resolved → ℕ
total_lines_of [] = 0
total_lines_of (r ∷ rest) = (suc r.actual_hi - r.actual_lo) + total_lines_of rest

unfoldable pub opaque_notes : Tree → List Text → List Note
opaque_notes tree opaque = map (λ f. opaque_source f (is_some (tree.lines f))) opaque

module _ (lexer : Lexer) where
  unfoldable pub named : Declared → List Procedure → List Procedure
  named declared found =
      filter (λ (p : Procedure). lexer.casefold p.name == lexer.casefold declared.symbol) found

  unfoldable pub resolve : List Text → Declared → Resolution
  unfolding resolve_to named procedures
  resolve lines declared =
      if ltb declared.lo 1 || ltb declared.hi declared.lo || ltb (length lines) declared.hi
      then unresolved (invalid_range declared (length lines))
      else resolve_to declared (named declared (procedures lexer lines))

  unfoldable pub scan_range : Tree → Resolved → Scanned
  unfolding scan lines_of
  scan_range tree r =
      scan lexer (lines_of tree r.declared.file) r.actual_lo r.actual_hi r.declared.label
        r.declared.file r.procedure.end_statement

  unfoldable pub all_violations : Tree → List Resolved → List Item
  unfolding scan_range
  all_violations tree [] = []
  all_violations tree (r ∷ rest) = (scan_range tree r).violations ++ all_violations tree rest

  unfoldable pub all_notes : Tree → List Resolved → List Item
  unfolding scan_range
  all_notes tree [] = []
  all_notes tree (r ∷ rest) = (scan_range tree r).notes ++ all_notes tree rest

  unfoldable pub resolutions : Tree → List Declared → List Resolution
  unfolding resolve lines_of
  resolutions tree declared = map (λ (d : Declared). resolve (lines_of tree d.file) d) declared

  -- The files and the opaque sources of a specification without problems, and its ranges.
  unfoldable pub analyze : Tree → List Text → List Text → List Declared → Analysis
  unfolding result not_regular not_found resolutions resolution_problems resolved_ranges
      total_lines_of opaque_notes all_violations all_notes
  analyze tree files opaque declared =
      let missing = not_regular tree opaque ++ not_found tree declared in
      let found = resolutions tree declared in
      let problems = resolution_problems found in
      let ranges = resolved_ranges found in
      if not (is_empty missing)
      then result files (length declared) 0 missing [] []
      else if not (is_empty problems)
      then result files (length declared) 0 problems [] ranges
      else result files (length ranges) (total_lines_of ranges)
          (map control_flow (all_violations tree ranges))
          (opaque_notes tree opaque ++ map terminal_return (all_notes tree ranges)) ranges
