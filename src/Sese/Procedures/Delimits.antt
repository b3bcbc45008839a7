-- ===== src/Sese/Procedures/Delimits.antt =====
-- The statements that delimit what `procedures` finds, in equivalent/analyzers/check_sese.py.
use skateboard.Prelude.{
  ℕ, suc, List, [], ◌∷◌, Option, some, ◌≡◌, ◌≤◌, ◌<◌, refl, sym, ap, ◌∙◌, nat_beq, not, ◌||◌, ◌==◌,
  inl, inr, Bool-cases, Option-cases, arith, In,
}
use skateboard.Region.Glob.{Text}
use skateboard.Ledger.FileSet.{text_eq}
use skateboard.Sese.Lexer.{Lexer}
use skateboard.Sese.Statements.{Statement, logical_statements}
use skateboard.Sese.Statements.Spans.{InOrder, logical_statements-InOrder}
use skateboard.Sese.Procedures.{
  Procedure, other_name, depth_after, start_of, procedure_between, matching_end, procedure_at,
  procedures_of, procedures,
}

In-InOrder :
    (low : ℕ)
    → (statements : List Statement) → (s : Statement) → InOrder low statements
    → In s statements
    → low ≤ s.first
In-InOrder low [] s order member = absurd member
In-InOrder low (first ∷ rest) s (enough, forward, order) (inl here) = rw (here) enough
In-InOrder low (first ∷ rest) s (enough, forward, order) (inr there) =
    let later = In-InOrder (suc first.last) rest s order there in omega arith

abbrev procedure_from : Lexer → Statement → Text → Text → Statement → Procedure
procedure_from lexer s kind name later = record {
  kind = lexer.lower kind;
  name = name;
  lo = s.first;
  hi = later.last;
  end_statement = later.first;
}

module _ (lexer : Lexer) where
  -- The procedure runs from `s`, which declares its name, to the END statement `later`.
  pub record Delimits (p : Procedure) (s later : Statement) : Type 0 where
    pub declares : (kind : Text) × (start_of lexer s ≡ some (kind, p.name))
    pub ends : (end : Text × Option Text) × (lexer.proc_end later.code ≡ some end)
    pub lo : p.lo ≡ s.first
    pub hi : p.hi ≡ later.last
    pub end_statement : p.end_statement ≡ later.first

  procedure_between-Delimits :
      (s : Statement)
      → (kind name : Text) → (later : Statement) → (p : Procedure)
      → start_of lexer s ≡ some (kind, name)
      → procedure_between lexer s (kind, name) later ≡ some p
      → Delimits p s later
  unfolding procedure_between
  procedure_between-Delimits s kind name later p declared found =
      elim (Option-cases (lexer.proc_end later.code)) [
        | inl no_end ↦ absurd (ground (arith, no_end, found))
        | inr ((end_kind, end_name), at_end) ↦
            elim (Bool-cases (
              not (lexer.casefold end_kind == lexer.casefold kind)
              || other_name lexer end_name name)) [
                | inl differs ↦
                    absurd (ground (arith, rw (at_end, differs, procedure_between) at found))
                | inr agrees ↦
                    let made : procedure_from lexer s kind name later ≡ p =
                      ground (arith, rw (at_end, agrees, procedure_between) at found) in
                    record {
                      declares =
                          (kind, declared ∙ ap (λ (q : Procedure). some (kind, q.name)) made);
                      ends = ((end_kind, end_name), at_end);
                      lo = ap (λ (q : Procedure). q.lo) (sym made);
                      hi = ap (λ (q : Procedure). q.hi) (sym made);
                      end_statement = ap (λ (q : Procedure). q.end_statement) (sym made);
                    }
              ]
      ]

  -- A later statement of the ones after `s`.
  abbrev Closes : Statement → List Statement → Procedure → Type 0
  Closes s rest p = (later : Statement) × In later rest × Delimits p s later

  matching_end-Closes :
      (s : Statement)
      → (kind name : Text) → (depth : ℕ) → (rest : List Statement) → (p : Procedure)
      → start_of lexer s ≡ some (kind, name)
      → matching_end lexer s (kind, name) depth rest ≡ some p
      → Closes s rest p
  unfolding matching_end
  matching_end-Closes s kind name depth [] p declared found = absurd (ground arith)
  matching_end-Closes s kind name depth (later ∷ rest) p declared found =
      elim (Bool-cases (nat_beq (depth_after lexer depth later) 0)) [
        | inl closed ↦ (
          later,
          inl refl,
          procedure_between-Delimits s kind name later p declared (rw (closed) at found),
        )
        | inr within ↦
            let (close, member, delimits) =
              matching_end-Closes s kind name (depth_after lexer depth later) rest p declared
                (rw (within) at found) in
            (close, inr member, delimits)
      ]

  procedure_at-Closes :
      (s : Statement)
      → (rest : List Statement) → (p : Procedure) → procedure_at lexer s rest ≡ some p
      → Closes s rest p
  unfolding procedure_at
  procedure_at-Closes s rest p found = elim (Option-cases (start_of lexer s)) [
    | inl none_declared ↦ absurd (ground (arith, rw (none_declared, procedure_at) at found))
    | inr ((kind, name), declared) ↦
        matching_end-Closes s kind name 1 rest p declared (rw (declared, procedure_at) at found)
  ]

  abbrev Delimited : List Statement → Procedure → Type 0
  Delimited statements p =
      (s : Statement) × (later : Statement) × In s statements
      × In later statements
      × (s.last < later.first)
      × Delimits p s later

  procedures_of-Delimited_rest :
      (s : Statement)
      → (rest : List Statement) → (p : Procedure) → Delimited rest p
      → Delimited (s ∷ rest) p
  procedures_of-Delimited_rest s rest p (first, later, member, later_member, apart, delimits) =
      (first, later, inr member, inr later_member, apart, delimits)

  procedures_of-Delimited :
      (low : ℕ)
      → (statements : List Statement) → InOrder low statements
      → (p : Procedure) → In p (procedures_of lexer statements)
      → Delimited statements p
  unfolding procedures_of
  procedures_of-Delimited low [] order p found = absurd found
  procedures_of-Delimited low (s ∷ rest) (enough, forward, order) p found =
      elim (Option-cases (procedure_at lexer s rest)) [
        | inl absent ↦ procedures_of-Delimited_rest s rest p (
            procedures_of-Delimited (suc s.last) rest order p (rw (absent, procedures_of) at found))
        | inr (q, at_s) ↦ elim (rw (at_s, procedures_of) at found) [
          | inl same ↦
              let (later, member, delimits) = procedure_at-Closes s rest p (rw (same) at_s) in
              (s, later, inl refl, inr member, In-InOrder _ rest later order member, delimits)
          | inr more ↦
              procedures_of-Delimited_rest s rest p
                (procedures_of-Delimited (suc s.last) rest order p more)
        ]
      ]

  -- Every procedure that is found has a statement that declares its name and, after that statement,
  -- an END statement, and the procedure's lines run from the first line of the one to the last line
  -- of the other.
  pub procedures-Delimits :
      (lines : List Text)
      → (p : Procedure) → In p (procedures lexer lines)
      → (s : Statement) × (later : Statement) × In s (logical_statements lexer lines)
        × In later (logical_statements lexer lines)
        × (s.last < later.first)
        × Delimits p s later
  unfolding procedures
  procedures-Delimits lines p found =
      procedures_of-Delimited 1 _ (logical_statements-InOrder lexer lines) p found
