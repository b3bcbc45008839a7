-- ===== src/Sese/Statements/Coverage.antt =====
-- Which lines `logical_statements` reads, in equivalent/analyzers/check_sese.py.
use skateboard.Prelude.{
  ℕ, suc, false, List, [], ◌∷◌, ◌++◌, Option, some, none, ◌≡◌, ◌≤◌, refl, subst, inl, inr, ◌+◌,
  Bool-cases, arith, length, In,
}
use skateboard.Region.Glob.{Text}
use skateboard.Sese.Lexer.{Lexer, lstrip, is_blank, ends_with, without_first}
use skateboard.Sese.Statements.{
  Statement, code_of, open_line, continue_line, advance, emit, statements_from, logical_statements,
}
use skateboard.Sese.Statements.Spans.{Waits, After, advance-After}

abbrev pub Covers : ℕ → Statement → Type 0
Covers n s = (s.first ≤ n) × (n ≤ s.last)

-- Line `n` is in the statement that is finished or in the one that is pending.
abbrev Held : ℕ → Option Statement × Option Statement → Type 0
Held n (none, none) = ⊥
Held n (none, some p) = Covers n p
Held n (some s, later) = Covers n s

abbrev Found : ℕ → List Statement → Type 0
Found n statements = (s : Statement) × (In s statements) × Covers n s

Found-later :
    (n : ℕ) → (s : Statement) → (rest : List Statement) → Found n rest → Found n (s ∷ rest)
Found-later n s rest (found, member, covers) = (found, inr member, covers)

abbrev Keeps : ℕ → Option Statement → Type 0
Keeps n none = ⊥
Keeps n (some p) = Covers n p

Waits-later :
    (low number : ℕ)
    → (out later : Option Statement) → After low number (out, later)
    → Waits 0 (suc number) later
Waits-later low number none none after = omega arith
Waits-later low number none (some p) (enough, forward, before) = (omega arith, forward, before)
Waits-later low number (some s) none after = omega arith
Waits-later low number (some s) (some p) (_, _, (_, forward, before)) =
    (omega arith, forward, before)

emit-Found :
    (n : ℕ)
    → (out later : Option Statement) → (rest : List Statement) → Held n (out, later)
    → (Keeps n later → Found n rest)
    → Found n (emit out rest)
emit-Found n none none rest held of_later = absurd held
emit-Found n none (some p) rest held of_later = of_later held
emit-Found n (some s) later rest held of_later = (s, inl refl, held)

emit-Found_rest :
    (n : ℕ)
    → (out : Option Statement) → (rest : List Statement) → Found n rest
    → Found n (emit out rest)
emit-Found_rest n none rest found = found
emit-Found_rest n (some s) rest found = Found-later n s rest found

module _ (lexer : Lexer) where
  open_line-Held :
      (number : ℕ)
      → (line : Text) → is_blank lexer (code_of lexer line) ≡ false
      → Held number (open_line lexer number line)
  unfolding open_line
  open_line-Held number line full = elim (Bool-cases (ends_with b'&' (code_of lexer line))) [
    | inl more ↦ rw (full, more) (omega arith, omega arith)
    | inr done ↦ rw (full, done) (omega arith, omega arith)
  ]

  continue_line-Held :
      (number : ℕ)
      → (p : Statement) → (line : Text) → p.first ≤ number
      → is_blank lexer (code_of lexer line) ≡ false
      → Held number (continue_line lexer number p line)
  unfolding continue_line
  continue_line-Held number p line reached full =
      elim (Bool-cases (ends_with b'&' (without_first b'&' (lstrip lexer (code_of lexer line))))) [
        | inl more ↦ rw (full, more) (reached, omega arith)
        | inr done ↦ rw (full, done) (reached, omega arith)
      ]

  advance-Held :
      (number : ℕ)
      → (pending : Option Statement) → (line : Text) → Waits 0 number pending
      → is_blank lexer (code_of lexer line) ≡ false
      → Held number (advance lexer number pending line)
  unfolding advance
  advance-Held number none line waits full = open_line-Held number line full
  advance-Held number (some p) line (low, forward, before) full =
      continue_line-Held number p line (omega arith) full

  -- A pending statement keeps the lines it has.
  continue_line-keeps :
      (n number : ℕ)
      → (p : Statement) → (line : Text) → Covers n p
      → suc p.last ≤ number
      → Held n (continue_line lexer number p line)
  unfolding continue_line
  continue_line-keeps n number p line (lower, upper) before =
      elim (Bool-cases (is_blank lexer (code_of lexer line))) [
        | inl blank ↦ rw (blank) (lower, upper)
        | inr full ↦
            elim (Bool-cases
              (ends_with b'&' (without_first b'&' (lstrip lexer (code_of lexer line))))) [
                | inl more ↦ rw (full, more) (lower, omega arith)
                | inr done ↦ rw (full, done) (lower, omega arith)
              ]
      ]

  advance-Waits :
      (number : ℕ)
      → (pending : Option Statement) → (line : Text) → Waits 0 number pending
      → Waits 0 (suc number) (advance lexer number pending line).1
  advance-Waits number pending line waits =
      Waits-later 0 number _ _ (advance-After lexer 0 number pending line waits)

  pending-Found :
      (n number : ℕ)
      → (pending : Option Statement) → (lines : List Text) → Keeps n pending
      → Waits 0 number pending
      → Found n (statements_from lexer number pending lines)
  unfolding statements_from advance
  pending-Found n number none lines keeps waits = absurd keeps
  pending-Found n number (some p) [] keeps waits = (_, inl refl, keeps)
  pending-Found n number (some p) (line ∷ lines) keeps (low, forward, before) =
      emit-Found n _ _ _ (continue_line-keeps n number p line keeps before) (λ kept.
        pending-Found n (suc number) _ lines kept
          (advance-Waits number (some p) line (low, forward, before)))

  statements_from-Found :
      (n number : ℕ)
      → (pending : Option Statement) → (before : List Text) → (line : Text) → (rest : List Text)
      → number + length before ≡ n
      → Waits 0 number pending
      → is_blank lexer (code_of lexer line) ≡ false
      → Found n (statements_from lexer number pending (before ++ line ∷ rest))
  unfolding statements_from
  statements_from-Found n number pending [] line rest at waits full =
      let here : number ≡ n = omega arith in
      let held = advance-Held number pending line waits full in
      emit-Found n _ _ _ (subst (λ m. Held m (advance lexer number pending line)) here held)
        (λ kept. pending-Found n (suc number) _ rest kept (advance-Waits number pending line waits))
  statements_from-Found n number pending (first ∷ before) line rest at waits full =
      emit-Found_rest n _ _ (
        statements_from-Found n (suc number) _ before line rest (omega arith)
          (advance-Waits number pending first waits) full)

  -- Every line whose code is not blank, so that its comment and its strings do not count, lies
  -- between the first and the last line of a logical statement.
  pub logical_statements-Covers :
      (before : List Text)
      → (line : Text) → (rest : List Text) → is_blank lexer (code_of lexer line) ≡ false
      → (s : Statement) × In s (logical_statements lexer (before ++ line ∷ rest))
        × Covers (suc (length before)) s
  unfolding logical_statements
  logical_statements-Covers before line rest full =
      statements_from-Found (suc (length before)) 1 none before line rest (omega arith)
        (omega arith) full
