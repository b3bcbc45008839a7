-- ===== src/Sese/Statements.antt =====
-- `logical_statements` of equivalent/analyzers/check_sese.py: continued lines are joined.
pub mod Spans
pub mod Coverage
use skateboard.Prelude.{
  ℕ, suc, Bool, true, false, List, [], ◌∷◌, ◌++◌, Option, some, none, if◌then◌else◌,
}
use skateboard.Region.Glob.{Text}
use skateboard.Sese.Lexer.{
  Lexer, code_part, lstrip, rstrip, is_blank, ends_with, but_last, without_first,
}

-- "start" and "end" are the physical lines, from 1.
pub record Statement : Type 0 where
  pub first : ℕ
  pub last : ℕ
  pub code : Text
  pub text : List Text
  pub unterminated : Bool

abbrev pub drop_mark : Text → Text
drop_mark code = if ends_with b'&' code then but_last code else code

abbrev pub emit : Option Statement → List Statement → List Statement
emit none rest = rest
emit (some s) rest = s ∷ rest

module _ (lexer : Lexer) where
  abbrev strip : Text → Text
  strip line = lstrip lexer (rstrip lexer line)

  -- `code_part(original).rstrip()`
  abbrev pub code_of : Text → Text
  code_of line = rstrip lexer (code_part lexer line)

  -- A line outside a continuation.
  unfoldable pub open_line : ℕ → Text → Option Statement × Option Statement
  unfolding code_part lstrip rstrip
  open_line number line =
      let code = code_of line in
      let item : Statement = record {
        first = number;
        last = number;
        code = drop_mark code;
        text = strip line ∷ [];
        unterminated = false;
      } in
      if is_blank lexer code
      then (none, none)
      else if ends_with b'&' code
      then (none, some item)
      else (some item, none)

  -- A line that may continue the pending statement.
  unfoldable pub continue_line : ℕ → Statement → Text → Option Statement × Option Statement
  unfolding code_part lstrip rstrip
  continue_line number pending line =
      let code = code_of line in
      let continuation = without_first b'&' (lstrip lexer code) in
      let joined : Statement = record {
        first = pending.first;
        last = number;
        code = pending.code ++ drop_mark continuation;
        text = pending.text ++ strip line ∷ [];
        unterminated = pending.unterminated;
      } in
      if is_blank lexer code
      then (
        none,
        some (record {
          first = pending.first;
          last = pending.last;
          code = pending.code;
          text = pending.text ++ strip line ∷ [];
          unterminated = pending.unterminated;
        }),
      )
      else if ends_with b'&' continuation
      then (none, some joined)
      else (some joined, none)

  -- One round of the loop: the statement that is finished, if any, and the one that is pending.
  unfoldable pub advance : ℕ → Option Statement → Text → Option Statement × Option Statement
  unfolding open_line continue_line
  advance number none line = open_line number line
  advance number (some pending) line = continue_line number pending line

  -- The lines from `number` on.
  unfoldable pub statements_from : ℕ → Option Statement → List Text → List Statement
  unfolding advance
  statements_from number none [] = []
  statements_from number (some p) [] =
      record { first = p.first; last = p.last; code = p.code; text = p.text; unterminated = true }
      ∷ []
  statements_from number pending (line ∷ lines) =
      let (out, later) = advance number pending line in
      let rest = statements_from (suc number) later lines in emit out rest

  unfoldable pub logical_statements : List Text → List Statement
  unfolding statements_from
  logical_statements lines = statements_from 1 none lines
