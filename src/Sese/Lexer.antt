-- ===== src/Sese/Lexer.antt =====
-- The text of one line: `code_part` of equivalent/analyzers/check_sese.py and Python's stripping.
-- The regular expressions are matched by the standard library's `re`: what a match of each of the
-- module's patterns answers is a parameter, and so are `str.isspace` and `str.casefold`.
use skateboard.Prelude.{
  ℕ, Bool, true, false, ◌&&◌, List, [], ◌∷◌, Option, nat_beq, if◌then◌else◌, all,
}
use skateboard.Region.Glob.{Text}

pub record Lexer : Type 0 where
  pub is_space : ℕ → Bool
  -- `STRING.sub("''", line)`
  pub blank_strings : Text → Text
  -- `PROC_START.match(code)`: the kind and the name
  pub proc_start : Text → Option (Text × Text)
  -- `PROC_END.match(code)`: the kind, and the name if there is one
  pub proc_end : Text → Option (Text × Option Text)
  -- `KEYWORDS.finditer(code)`: each keyword in lower case, with single spaces
  pub keywords : Text → List Text
  -- `re.fullmatch(r"\s*return(?:\s+\d+)?\s*", code, re.IGNORECASE)`
  pub plain_return : Text → Bool
  pub casefold : Text → Text
  -- `str.lower`
  pub lower : Text → Text

-- `text.split("!", 1)[0]`
unfoldable pub before_comment : Text → Text
before_comment [] = []
before_comment (c ∷ cs) = let rest = before_comment cs in if nat_beq c b'!' then [] else c ∷ rest

abbrev is_nil : Text → Bool
is_nil [] = true
is_nil (c ∷ cs) = false

abbrev pub ends_with : ℕ → Text → Bool
ends_with a [] = false
ends_with a (c ∷ []) = nat_beq c a
ends_with a (c ∷ d ∷ cs) = ends_with a (d ∷ cs)

-- `text[:-1]`
abbrev pub but_last : Text → Text
but_last [] = []
but_last (c ∷ []) = []
but_last (c ∷ d ∷ cs) = c ∷ but_last (d ∷ cs)

-- `text[1:]` where the text starts with `a`
abbrev pub without_first : ℕ → Text → Text
without_first a [] = []
without_first a (c ∷ cs) = if nat_beq c a then cs else c ∷ cs

module _ (lexer : Lexer) where
  unfoldable pub code_part : Text → Text
  unfolding before_comment
  code_part line = before_comment (lexer.blank_strings line)

  unfoldable pub lstrip : Text → Text
  lstrip [] = []
  lstrip (c ∷ cs) = let rest = lstrip cs in if lexer.is_space c then rest else c ∷ cs

  unfoldable pub rstrip : Text → Text
  rstrip [] = []
  rstrip (c ∷ cs) = let rest = rstrip cs in if is_nil rest && lexer.is_space c then [] else c ∷ rest

  -- `not code.strip()`
  abbrev pub is_blank : Text → Bool
  is_blank code = all lexer.is_space code
