-- ===== src/Sese/Scan.antt =====
-- `scan` of equivalent/analyzers/check_sese.py: the control flow in a range of lines.
use skateboard.Prelude.{
  ℕ, Bool, false, ◌&&◌, not, List, [], ◌∷◌, ◌++◌, Option, some, none, if◌then◌else◌, map, filter,
  any, nat_beq, leb, is_some, ◌==◌,
}
use skateboard.Prelude.Text.{codes}
use skateboard.Region.Glob.{Text}
use skateboard.Ledger.FileSet.{text_eq}
use skateboard.Sese.Lexer.{Lexer}
use skateboard.Sese.Statements.{Statement, logical_statements}

-- An item with a note is reported and is no violation.
pub record Item : Type 0 where
  pub label : Text
  pub file : Text
  pub line : ℕ
  pub keyword : Text
  pub text : Text
  pub note : Bool

pub record Scanned : Type 0 where
  pub violations : List Item
  pub notes : List Item

-- `" ".join(texts)`
unfoldable pub join_spaces : List Text → Text
join_spaces [] = []
join_spaces (t ∷ []) = t
join_spaces (t ∷ u ∷ us) = t ++ b' ' ∷ join_spaces (u ∷ us)

-- `[s for s in statements if s["start"] >= lo and s["end"] <= hi]`
unfoldable pub selected : ℕ → ℕ → List Statement → List Statement
selected lo hi statements = filter (λ s. leb lo s.first && leb s.last hi) statements

abbrev head? : List Statement → Option Statement
head? [] = none
head? (s ∷ rest) = some s

-- The statement after the one that starts at `start`. `by_start` keeps the last of two that start
-- there.
unfoldable pub following : ℕ → List Statement → Option Statement
following start [] = none
following start (s ∷ rest) =
    let later = following start rest in
    if any (λ (t : Statement). nat_beq t.first start) rest
    then later
    else if nat_beq s.first start
    then head? rest
    else none

module _ (lexer : Lexer) where
  unfoldable pub is_procedure_end : ℕ → Option Statement → Bool
  is_procedure_end procedure_end none = false
  is_procedure_end procedure_end (some next) =
      nat_beq next.first procedure_end && is_some (lexer.proc_end next.code)

  unfoldable pub is_terminal : ℕ → List Statement → Statement → Text → Bool
  unfolding is_procedure_end following
  is_terminal procedure_end statements s keyword =
      (keyword == codes "return")
      && lexer.plain_return s.code
      && is_procedure_end procedure_end (following s.first statements)

  unfoldable pub items_of : Text → Text → ℕ → List Statement → Statement → List Item
  unfolding is_terminal join_spaces
  items_of label file procedure_end statements s =
      map
        (λ (keyword : Text). record {
          label = label;
          file = file;
          line = s.first;
          keyword = keyword;
          text = join_spaces s.text;
          note = is_terminal procedure_end statements s keyword;
        })
        (lexer.keywords s.code)

  unfoldable pub all_items : Text → Text → ℕ → List Statement → List Statement → List Item
  unfolding items_of
  all_items label file procedure_end statements [] = []
  all_items label file procedure_end statements (s ∷ rest) =
      items_of label file procedure_end statements s
      ++ all_items label file procedure_end statements rest

  unfoldable pub scan : List Text → ℕ → ℕ → Text → Text → ℕ → Scanned
  unfolding all_items selected logical_statements
  scan lines lo hi label file procedure_end =
      let statements = logical_statements lexer lines in
      let items = all_items label file procedure_end statements (selected lo hi statements) in
      record {
        violations = filter (λ (i : Item). not i.note) items;
        notes = filter (λ (i : Item). i.note) items;
      }
