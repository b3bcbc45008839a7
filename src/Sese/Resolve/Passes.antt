-- ===== src/Sese/Resolve/Passes.antt =====
-- What it takes for `analyze` to pass, in equivalent/analyzers/check_sese.py.
use skateboard.Prelude.{
  ℕ, true, not, ◌||◌, List, [], ◌∷◌, ◌++◌, some, none, ◌≡◌, ◌≤◌, refl, sym, subst, inl, inr,
  Bool-cases, Option-cases, arith, map, length, ltb, In, In-map, In-filter_of, In-append_left,
  In-append_right, In-unique_of,
}
use skateboard.Prelude.Sorting.{In-sort_by_of}
use skateboard.Prelude.Text.{text_leb}
use skateboard.Region.Glob.{Text}
use skateboard.Ledger.FileSet.{text_eq}
use skateboard.Sese.Lexer.{Lexer}
use skateboard.Sese.Statements.{Statement, logical_statements}
use skateboard.Sese.Procedures.{Procedure, procedures}
use skateboard.Sese.Scan.{Item, selected, is_terminal, items_of, all_items, scan}
use skateboard.Sese.Resolve.{
  Declared, Problem, Resolved, Resolution, Tree, is_empty, sorted_set, result, named, first_line,
  last_line, resolve_to, resolve, not_regular, not_found, lines_of, resolution_problems,
  resolved_ranges, scan_range, all_violations, resolutions, analyze,
}

module _ {A : Type 0} where
  is_empty-eq : (xs : List A) → is_empty xs ≡ true → xs ≡ []
  is_empty-eq [] h = refl
  is_empty-eq (x ∷ xs) h = absurd (ground arith)

  is_empty-In : (xs : List A) → is_empty xs ≡ true → (a : A) → In a xs → ⊥
  is_empty-In [] h a member = member
  is_empty-In (x ∷ xs) h a member = absurd (ground arith)

In-sorted_set : (f : Text) → (files : List Text) → In f files → In f (sorted_set files)
unfolding sorted_set
In-sorted_set f files member = In-sort_by_of text_leb f _ (In-unique_of f files member)

not_found-none :
    (tree : Tree)
    → (declared : List Declared) → (d : Declared) → In d declared
    → tree.lines d.file ≡ none
    → In (Problem.not_in_the_tree d.file) (not_found tree declared)
unfolding not_found
not_found-none tree declared d member absent = In-map Problem.not_in_the_tree d.file _ (
    In-filter_of _ d.file _
      (In-sorted_set d.file _ (In-map (λ (e : Declared). e.file) d declared member))
      (rw (absent) refl))

resolved-of :
    (rs : List Resolution)
    → is_empty (resolution_problems rs) ≡ true
    → (r : Resolution) → In r rs
    → (x : Resolved) × (r ≡ Resolution.resolved x) × In x (resolved_ranges rs)
unfolding resolution_problems resolved_ranges
resolved-of [] h r member = absurd member
resolved-of (Resolution.unresolved problem ∷ rest) h r member = absurd (ground arith)
resolved-of (Resolution.resolved x ∷ rest) h r (inl here) = (x, here, inl refl)
resolved-of (Resolution.resolved x ∷ rest) h r (inr there) =
    let (y, e, kept) = resolved-of rest h r there in (y, e, inr kept)

abbrev one_range : Declared → Procedure → Resolved
one_range d p = record {
  declared = d;
  actual_lo = first_line d p;
  actual_hi = last_line d p;
  procedure = p;
}

module _ (lexer : Lexer) where
  In-all_items :
      (label file : Text)
      → (procedure_end : ℕ) → (statements chosen : List Statement) → (s : Statement) → In s chosen
      → (i : Item) → In i (items_of lexer label file procedure_end statements s)
      → In i (all_items lexer label file procedure_end statements chosen)
  unfolding all_items
  In-all_items label file procedure_end statements [] s member i of_s = absurd member
  In-all_items label file procedure_end statements (t ∷ rest) s (inl here) i of_s =
      In-append_left i _ _
        (subst (λ u. In i (items_of lexer label file procedure_end statements u)) here of_s)
  In-all_items label file procedure_end statements (t ∷ rest) s (inr there) i of_s =
      In-append_right i (items_of lexer label file procedure_end statements t) _
        (In-all_items label file procedure_end statements rest s there i of_s)

  In-all_violations :
      (tree : Tree)
      → (ranges : List Resolved) → (x : Resolved) → In x ranges
      → (i : Item) → In i (scan_range lexer tree x).violations
      → In i (all_violations lexer tree ranges)
  unfolding all_violations
  In-all_violations tree [] x member i violation = absurd member
  In-all_violations tree (y ∷ rest) x (inl here) i violation =
      In-append_left i _ _ (subst (λ z. In i (scan_range lexer tree z).violations) here violation)
  In-all_violations tree (y ∷ rest) x (inr there) i violation =
      In-append_right i (scan_range lexer tree y).violations _
        (In-all_violations tree rest x there i violation)

  scan-clean :
      (lines : List Text)
      → (lo hi : ℕ) → (label file : Text) → (procedure_end : ℕ)
      → ((i : Item) → In i (scan lexer lines lo hi label file procedure_end).violations → ⊥)
      → (s : Statement) → In s (selected lo hi (logical_statements lexer lines))
      → (k : Text) → In k (lexer.keywords s.code)
      → is_terminal lexer procedure_end (logical_statements lexer lines) s k ≡ true
  unfolding scan items_of
  scan-clean lines lo hi label file procedure_end clean s chosen k keyword =
      elim (Bool-cases (is_terminal lexer procedure_end (logical_statements lexer lines) s k)) [
        | inl terminal ↦ terminal
        | inr violates ↦ absurd (
            clean _ (
              In-filter_of (λ (i : Item). not i.note) _ _
                (In-all_items label file procedure_end _ _ s chosen _ (In-map _ k _ keyword))
                (rw (violates) refl)))
      ]

  -- A declared range that the analyzer accepts.
  pub record IsSese (tree : Tree) (d : Declared) : Type 0 where
    pub lines : List Text
    pub read : tree.lines d.file ≡ some lines
    pub starts : 1 ≤ d.lo
    pub forward : d.lo ≤ d.hi
    pub inside : d.hi ≤ length lines
    pub procedure : Procedure
    pub only : named lexer d (procedures lexer lines) ≡ procedure ∷ []
    pub exits :
        (s : Statement)
        → In s (
            selected
              (first_line d procedure)
              (last_line d procedure)
              (logical_statements lexer lines))
        → (k : Text) → In k (lexer.keywords s.code)
        → is_terminal lexer procedure.end_statement (logical_statements lexer lines) s k ≡ true

  resolve_to-one :
      (d : Declared)
      → (ps : List Procedure) → (x : Resolved) → resolve_to d ps ≡ Resolution.resolved x
      → (ps ≡ x.procedure ∷ [])
        × (x.declared ≡ d)
        × (x.actual_lo ≡ first_line d x.procedure)
        × (x.actual_hi ≡ last_line d x.procedure)
  unfolding resolve_to
  resolve_to-one d [] x h = absurd (ground arith)
  resolve_to-one d (p ∷ []) x h =
      let made : one_range d p ≡ x = ground arith in
      subst
        (λ (y : Resolved).
          (p ∷ [] ≡ y.procedure ∷ [])
          × (y.declared ≡ d)
          × (y.actual_lo ≡ first_line d y.procedure)
          × (y.actual_hi ≡ last_line d y.procedure))
        made (refl, refl, refl, refl)
  resolve_to-one d (p ∷ q ∷ more) x h = absurd (ground arith)

  resolve-inside :
      (lines : List Text)
      → (d : Declared) → (x : Resolved) → resolve lexer lines d ≡ Resolution.resolved x
      → (1 ≤ d.lo)
        × (d.lo ≤ d.hi)
        × (d.hi ≤ length lines)
        × (resolve_to d (named lexer d (procedures lexer lines)) ≡ Resolution.resolved x)
  unfolding resolve
  resolve-inside lines d x h =
      elim (Bool-cases (ltb d.lo 1 || ltb d.hi d.lo || ltb (length lines) d.hi)) [
        | inl outside ↦ absurd (ground (arith, rw (outside, resolve) at h))
        | inr fits ↦ (ground arith, ground arith, ground arith, rw (fits, resolve) at h)
      ]

  analyze-guards :
      (tree : Tree)
      → (files opaque : List Text) → (declared : List Declared)
      → (analyze lexer tree files opaque declared).passes ≡ true
      → (is_empty (not_regular tree opaque ++ not_found tree declared) ≡ true)
        × (is_empty (resolution_problems (resolutions lexer tree declared)) ≡ true)
        × (is_empty (
              map Problem.control_flow
                (all_violations lexer tree (resolved_ranges (resolutions lexer tree declared))))
            ≡ true)
  unfolding analyze result
  analyze-guards tree files opaque declared h =
      elim (Bool-cases (is_empty (not_regular tree opaque ++ not_found tree declared))) [
        | inr missing ↦ absurd (ground (arith, rw (missing, analyze) at h))
        | inl present ↦
            elim (Bool-cases (is_empty (resolution_problems (resolutions lexer tree declared)))) [
              | inr bad ↦ absurd (ground (arith, rw (present, bad, analyze) at h))
              | inl good ↦ (present, good, rw (present, good, analyze) at h)
            ]
      ]

  range-IsSese :
      (tree : Tree)
      → (d : Declared) → (lines : List Text) → (x : Resolved) → tree.lines d.file ≡ some lines
      → resolve lexer (lines_of tree d.file) d ≡ Resolution.resolved x
      → ((i : Item) → In i (scan_range lexer tree x).violations → ⊥)
      → IsSese tree d
  unfolding scan_range lines_of
  range-IsSese tree d lines x read made clean =
      let here : lines_of tree d.file ≡ lines = rw (read, lines_of) refl in
      let (starts, forward, inside, resolution) = resolve-inside lines d x (rw (sym here) made) in
      let (only, same, at_lo, at_hi) = resolve_to-one d _ x resolution in
      let scanned : lines_of tree x.declared.file ≡ lines = rw (same) here in
      let clean_lines : (i : Item)
          → In i
              (scan lexer lines x.actual_lo x.actual_hi x.declared.label x.declared.file
                x.procedure.end_statement).violations
          → ⊥ =
        subst
          (λ ls.
            (i : Item)
            → In i
                (scan lexer ls x.actual_lo x.actual_hi x.declared.label x.declared.file
                  x.procedure.end_statement).violations
            → ⊥)
          scanned clean in
      record {
        lines = lines;
        read = read;
        starts = starts;
        forward = forward;
        inside = inside;
        procedure = x.procedure;
        only = only;
        exits = λ s chosen k keyword.
            scan-clean lines x.actual_lo x.actual_hi _ _ _ clean_lines s (rw (at_lo, at_hi) chosen)
              k keyword;
      }

  violations-clean :
      (tree : Tree)
      → (ranges : List Resolved)
      → is_empty (map Problem.control_flow (all_violations lexer tree ranges)) ≡ true
      → (x : Resolved) → In x ranges
      → (i : Item) → In i (scan_range lexer tree x).violations
      → ⊥
  violations-clean tree ranges none_left x member i violation =
      is_empty-In _ none_left _
        (In-map Problem.control_flow i _ (In-all_violations tree ranges x member i violation))

  -- If the analyzer passes a specification without problems, then for every declared range: its
  -- file is in the tree; the range is not empty and lies in the file; exactly one procedure of the
  -- file has the declared name, up to case; and each control-flow keyword in the lines that the
  -- range stands for, which are its own or else the procedure's, is a plain `return` whose next
  -- statement is the procedure's END statement.
  pub analyze-pass :
      (tree : Tree)
      → (files opaque : List Text) → (declared : List Declared)
      → (analyze lexer tree files opaque declared).passes ≡ true
      → (d : Declared) → In d declared
      → IsSese tree d
  unfolding resolutions
  analyze-pass tree files opaque declared passes d member =
      let (present, resolved_all, none_left) = analyze-guards tree files opaque declared passes in
      elim (Option-cases (tree.lines d.file)) [
        | inl absent ↦ absurd (
            is_empty-In _ present _ (
              In-append_right _ (not_regular tree opaque) _
                (not_found-none tree declared d member absent)))
        | inr (lines, read) ↦
            let (x, made, kept) = resolved-of _ resolved_all _ (In-map _ d declared member) in
            range-IsSese tree d lines x read made (violations-clean tree _ none_left x kept)
      ]
