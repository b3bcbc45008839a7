-- ===== src/Tests/Analysis.antt =====
-- A file of one procedure whose last statement is a return, and a specification that names it.
use skateboard.Prelude.{
  ◌≡◌, ◌<◌, refl, ◌⊎◌, inl, true, false, List, [], ◌∷◌, some, none, In, if◌then◌else◌, nat_beq,
  ◌==◌,
}
use skateboard.Prelude.Text.{codes}
use skateboard.Errors.{ok}
use skateboard.Region.Glob.{Text}
use skateboard.Ledger.FileSet.{text_eq}
use skateboard.Ledger.Value.{Value, Fields, Items, end, field}
use skateboard.Sese.Lexer.{Lexer, code_part, rstrip, is_blank}
use skateboard.Sese.Statements.{Statement, code_of, logical_statements}
use skateboard.Sese.Statements.Coverage.{Covers, logical_statements-Covers}
use skateboard.Sese.Procedures.{Procedure, procedures}
use skateboard.Sese.Procedures.Delimits.{Delimits, procedures-Delimits}
use skateboard.Sese.Resolve.{Declared, Tree, analyze}
use skateboard.Sese.Resolve.Passes.{IsSese, analyze-pass}
use skateboard.Sese.Specification.{Reader, Range, opaque_of, spec_problems, ranges_to_scan}
use skateboard.Sese.Specification.Problems.{IsListed}
use skateboard.Sese.Specification.Listed.{files_of, IsNullCallee, ranges_to_scan-IsListed}

abbrev opening : Text
opening = codes "subroutine f"

abbrev a_lexer : Lexer
a_lexer = record {
  is_space = λ c. nat_beq c b' ';
  blank_strings = λ line. line;
  proc_start = λ code. if code == opening then some (codes "subroutine", codes "f") else none;
  proc_end =
      λ code. if code == codes "end subroutine" then some (codes "subroutine", none) else none;
  keywords = λ code. if code == codes "return" then codes "return" ∷ [] else [];
  plain_return = λ code. code == codes "return";
  casefold = λ text. text;
  lower = λ text. text;
}

abbrev some_lines : List Text
some_lines = codes "subroutine f" ∷ codes "ret&" ∷ codes "&urn" ∷ codes "end subroutine" ∷ []

has_code : is_blank a_lexer (code_of a_lexer (codes "&urn")) ≡ false
unfolding code_part rstrip
has_code = refl

logical_statements-Covers_example :
    (s : Statement) × In s (logical_statements a_lexer some_lines) × Covers 3 s
logical_statements-Covers_example =
    logical_statements-Covers a_lexer (codes "subroutine f" ∷ codes "ret&" ∷ []) (codes "&urn")
      (codes "end subroutine" ∷ []) has_code

abbrev the_procedure : Procedure
the_procedure = record {
  kind = codes "subroutine";
  name = codes "f";
  lo = 1;
  hi = 4;
  end_statement = 4;
}

found : In the_procedure (procedures a_lexer some_lines)
unfolding procedures
found = inl refl

procedures-Delimits_example :
    (s : Statement) × (later : Statement) × In s (logical_statements a_lexer some_lines)
    × In later (logical_statements a_lexer some_lines)
    × (s.last < later.first)
    × Delimits a_lexer the_procedure s later
procedures-Delimits_example = procedures-Delimits a_lexer some_lines the_procedure found

abbrev a_tree : Tree
a_tree = record { lines = λ file. some some_lines; irregular = λ file. false }

abbrev the_range : Declared
the_range = record { file = codes "a.f90"; lo = 1; hi = 4; label = codes "f"; symbol = codes "f" }

the_range_passes : (analyze a_lexer a_tree (codes "a.f90" ∷ []) [] (the_range ∷ [])).passes ≡ true
unfolding analyze
the_range_passes = refl

analyze-pass_example : IsSese a_lexer a_tree the_range
analyze-pass_example =
    analyze-pass a_lexer a_tree (codes "a.f90" ∷ []) [] (the_range ∷ []) the_range_passes the_range
      (inl refl)

abbrev a_reader : Reader
a_reader = record {
  casefold = λ text. text;
  suffix = λ path. codes ".f90";
  equal = λ a b. false;
  node_match = λ node. some (codes "f", 1, 4);
  range_match = λ lines. none;
}

abbrev a_spec : Fields
a_spec = field "files" (Value.arr (Items.cons (Value.str "a.f90") Items.nil)) (
    field "anchor"
      (Value.obj (
        field "file" (Value.str "a.f90")
          (field "pst_node" (Value.str "f@1-4") (field "entry_symbol" (Value.str "f") end))))
      end)

abbrev a_range : Range
a_range = record { file = Value.str "a.f90"; lo = 1; hi = 4; label = Value.str "f" }

no_problems : spec_problems a_reader (Value.obj a_spec) ≡ []
unfolding spec_problems
no_problems = refl

one_range : ranges_to_scan a_reader (Value.obj a_spec) ≡ ok (a_range ∷ [])
unfolding ranges_to_scan
one_range = refl

ranges_to_scan-IsListed_example :
    IsNullCallee a_reader a_spec a_range
    ⊎ IsListed (files_of a_spec) (opaque_of a_spec) a_range.file
ranges_to_scan-IsListed_example =
    ranges_to_scan-IsListed a_reader a_spec (a_range ∷ []) no_problems one_range a_range (inl refl)
