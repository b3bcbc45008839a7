-- ===== src/Sese/Procedures.antt =====
-- `procedures` of equivalent/analyzers/check_sese.py: the named procedures and their END statements.
pub mod Delimits
use skateboard.Prelude.{
  ℕ, suc, ◌-◌, Bool, true, false, ◌||◌, not, List, [], ◌∷◌, Option, some, none, if◌then◌else◌,
  nat_beq, is_some, ◌==◌,
}
use skateboard.Region.Glob.{Text}
use skateboard.Ledger.FileSet.{text_eq}
use skateboard.Sese.Lexer.{Lexer}
use skateboard.Sese.Statements.{Statement, logical_statements}

pub record Procedure : Type 0 where
  pub kind : Text
  pub name : Text
  pub lo : ℕ
  pub hi : ℕ
  pub end_statement : ℕ

module _ (lexer : Lexer) where
  -- The name and the kind that a statement declares. An END statement declares none.
  unfoldable pub start_of : Statement → Option (Text × Text)
  start_of s = elim (lexer.proc_end s.code) [ some end ↦ none | none ↦ lexer.proc_start s.code ]

  -- `end.group(2) and end.group(2).casefold() != start.group(2).casefold()`
  unfoldable pub other_name : Option Text → Text → Bool
  other_name none name = false
  other_name (some end_name) name = not (lexer.casefold end_name == lexer.casefold name)

  -- The procedure from `s` to the END statement `later`, where the two agree.
  unfoldable pub procedure_between : Statement → Text × Text → Statement → Option Procedure
  unfolding other_name
  procedure_between s (kind, name) later = elim (lexer.proc_end later.code) [
    | none ↦ none
    | some (end_kind, end_name) ↦
        if not (lexer.casefold end_kind == lexer.casefold kind) || other_name end_name name
        then none
        else some (record {
          kind = lexer.lower kind;
          name = name;
          lo = s.first;
          hi = later.last;
          end_statement = later.first;
        })
  ]

  -- The number of procedures that are open after a statement.
  unfoldable pub depth_after : ℕ → Statement → ℕ
  depth_after depth later = elim (lexer.proc_end later.code) [
    | some end ↦ depth - 1
    | none ↦ if is_some (lexer.proc_start later.code) then suc depth else depth
  ]

  -- The search for the END statement of `s` in the statements after it.
  unfoldable pub matching_end : Statement → Text × Text → ℕ → List Statement → Option Procedure
  unfolding depth_after procedure_between
  matching_end s head depth [] = none
  matching_end s head depth (later ∷ rest) =
      let deeper = depth_after depth later in
      let beyond = matching_end s head deeper rest in
      if nat_beq deeper 0 then procedure_between s head later else beyond

  unfoldable pub procedure_at : Statement → List Statement → Option Procedure
  unfolding start_of matching_end
  procedure_at s rest = elim (start_of s) [ none ↦ none | some head ↦ matching_end s head 1 rest ]

  unfoldable pub procedures_of : List Statement → List Procedure
  unfolding procedure_at
  procedures_of [] = []
  procedures_of (s ∷ rest) =
      let more = procedures_of rest in
      elim (procedure_at s rest) [ none ↦ more | some p ↦ p ∷ more ]

  unfoldable pub procedures : List Text → List Procedure
  unfolding procedures_of logical_statements
  procedures lines = procedures_of (logical_statements lexer lines)
