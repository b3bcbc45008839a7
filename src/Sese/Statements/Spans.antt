-- ===== src/Sese/Statements/Spans.antt =====
-- The lines of the statements of `logical_statements`, in equivalent/analyzers/check_sese.py.
use skateboard.Prelude.{ℕ, suc, List, [], ◌∷◌, Option, some, none, inl, inr, ◌≤◌, Bool-cases, arith}
use skateboard.Region.Glob.{Text}
use skateboard.Sese.Lexer.{Lexer, lstrip, is_blank, ends_with, without_first}
use skateboard.Sese.Statements.{
  Statement, code_of, open_line, continue_line, advance, emit, statements_from, logical_statements,
}

-- Each statement ends no earlier than it starts, and starts after the one before it ends, the first
-- at `low` or later.
abbrev pub InOrder : ℕ → List Statement → Type 0
InOrder low [] = Unit
InOrder low (s ∷ rest) = (low ≤ s.first) × (s.first ≤ s.last) × InOrder (suc s.last) rest

-- A pending statement before line `number`.
abbrev pub Waits : ℕ → ℕ → Option Statement → Type 0
Waits low number none = low ≤ number
Waits low number (some p) = (low ≤ p.first) × (p.first ≤ p.last) × (suc p.last ≤ number)

abbrev pub After : ℕ → ℕ → Option Statement × Option Statement → Type 0
After low number (none, later) = Waits low (suc number) later
After low number (some s, later) =
    (low ≤ s.first) × (s.first ≤ s.last) × Waits (suc s.last) (suc number) later

emit-InOrder :
    (low number : ℕ)
    → (out later : Option Statement) → (rest : List Statement) → After low number (out, later)
    → ((m : ℕ) → Waits m (suc number) later → InOrder m rest)
    → InOrder low (emit out rest)
emit-InOrder low number none later rest after rest_of = rest_of low after
emit-InOrder low number (some s) later rest (enough, forward, waits) rest_of =
    (enough, forward, rest_of (suc s.last) waits)

module _ (lexer : Lexer) where
  open_line-After :
      (low number : ℕ)
      → (line : Text) → low ≤ number
      → After low number (open_line lexer number line)
  unfolding open_line
  open_line-After low number line reached =
      elim (Bool-cases (is_blank lexer (code_of lexer line))) [
        | inl blank ↦ rw (blank) (omega arith)
        | inr full ↦ elim (Bool-cases (ends_with b'&' (code_of lexer line))) [
          | inl more ↦ rw (full, more) (reached, omega arith, omega arith)
          | inr done ↦ rw (full, done) (reached, omega arith, omega arith)
        ]
      ]

  continue_line-After :
      (low number : ℕ)
      → (p : Statement) → (line : Text) → Waits low number (some p)
      → After low number (continue_line lexer number p line)
  unfolding continue_line
  continue_line-After low number p line (enough, forward, before) =
      elim (Bool-cases (is_blank lexer (code_of lexer line))) [
        | inl blank ↦ rw (blank) (enough, forward, omega arith)
        | inr full ↦
            elim (Bool-cases
              (ends_with b'&' (without_first b'&' (lstrip lexer (code_of lexer line))))) [
                | inl more ↦ rw (full, more) (enough, omega arith, omega arith)
                | inr done ↦ rw (full, done) (enough, omega arith, omega arith)
              ]
      ]

  pub advance-After :
      (low number : ℕ)
      → (pending : Option Statement) → (line : Text) → Waits low number pending
      → After low number (advance lexer number pending line)
  unfolding advance
  advance-After low number none line waits = open_line-After low number line waits
  advance-After low number (some p) line waits = continue_line-After low number p line waits

  statements_from-InOrder :
      (low number : ℕ)
      → (pending : Option Statement) → (lines : List Text) → Waits low number pending
      → InOrder low (statements_from lexer number pending lines)
  unfolding statements_from
  statements_from-InOrder low number none [] waits = tt
  statements_from-InOrder low number (some p) [] (enough, forward, before) = (enough, forward, tt)
  statements_from-InOrder low number pending (line ∷ lines) waits =
      emit-InOrder low number (advance lexer number pending line).0
        (advance lexer number pending line).1 _ (advance-After low number pending line waits)
        (λ m later. statements_from-InOrder m (suc number) _ lines later)

  -- Each logical statement starts at line 1 or later, ends no earlier than it starts, and starts
  -- after the one before it ends.
  pub logical_statements-InOrder : (lines : List Text) → InOrder 1 (logical_statements lexer lines)
  unfolding logical_statements
  logical_statements-InOrder lines = statements_from-InOrder 1 1 none lines (omega arith)
