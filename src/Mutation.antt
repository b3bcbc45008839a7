-- ===== src/Mutation.antt =====
-- Mutation runs: the faults that the harness puts into a region to ask whether its own gate would
-- notice them. Here: what services/builder/mutation_source.py declares.
pub mod Words
pub mod Source
pub mod Classify
pub mod Score
pub mod Standalone
use skateboard.Prelude.{ℕ, String, Bool, List, [], ◌∷◌, Option}
use skateboard.Region.Glob.{Text}

-- `KILLED`, `GAP` and so on
pub data Status : Type 0 where
  killed gap equivalent build_fail runtime_fail skipped pending : Status

pub record Mutant : Type 0 where
  pub mid : Text
  pub file : Text
  -- counted from 1
  pub line : ℕ
  pub op : String
  pub original : Text
  pub mutated : Text
  pub status : Status
  pub tol_killed : Option Bool
  pub bit_killed : Option Bool
  pub checked_killed : Option Bool
  pub note : Text

-- `_AOR`
abbrev pub aor : List (ℕ × List String)
aor =
    (b'+', "-" ∷ "*" ∷ [])
    ∷ (b'-', "+" ∷ "*" ∷ [])
    ∷ (b'*', "/" ∷ "+" ∷ [])
    ∷ (b'/', "*" ∷ "-" ∷ [])
    ∷ []

-- `_ROR`
abbrev pub ror : List (String × List String)
ror =
    (".lt.", ".le." ∷ ".gt." ∷ ".eq." ∷ [])
    ∷ (".le.", ".lt." ∷ ".ge." ∷ ".eq." ∷ [])
    ∷ (".gt.", ".ge." ∷ ".lt." ∷ ".eq." ∷ [])
    ∷ (".ge.", ".gt." ∷ ".le." ∷ ".eq." ∷ [])
    ∷ (".eq.", ".ne." ∷ [])
    ∷ (".ne.", ".eq." ∷ [])
    ∷ ("<", "<=" ∷ ">" ∷ "==" ∷ [])
    ∷ ("<=", "<" ∷ ">=" ∷ "==" ∷ [])
    ∷ (">", ">=" ∷ "<" ∷ "==" ∷ [])
    ∷ (">=", ">" ∷ "<=" ∷ "==" ∷ [])
    ∷ ("==", "/=" ∷ [])
    ∷ ("/=", "==" ∷ [])
    ∷ []

-- `_LCR`
abbrev pub lcr : List (String × List String)
lcr =
    (".and.", ".or." ∷ [])
    ∷ (".or.", ".and." ∷ [])
    ∷ (".eqv.", ".neqv." ∷ [])
    ∷ (".neqv.", ".eqv." ∷ [])
    ∷ []

-- The words of `_NO_DELETE`, each of which ends at a word boundary.
abbrev pub no_delete_words : List String
no_delete_words =
    "end" ∷ "contains" ∷ "implicit" ∷ "use" ∷ "module" ∷ "program" ∷ "subroutine" ∷ "function"
    ∷ "interface" ∷ "type" ∷ "public" ∷ "private" ∷ "integer" ∷ "real" ∷ "logical" ∷ "character"
    ∷ "complex" ∷ "allocate" ∷ "deallocate" ∷ "if" ∷ "do" ∷ "else" ∷ "select" ∷ "case" ∷ "where"
    ∷ "associate" ∷ "block" ∷ []
