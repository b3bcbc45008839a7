-- ===== src/Mutation/Source/Rounds.antt =====
-- The rounds of `generate` (services/builder/mutation_source.py) over the lines of a file.
use skateboard.Prelude.{
  append_empty, append_one, ℕ, ◌+◌, List, [], ◌∷◌, ◌++◌, In, length, length-append, ◌≡◌, ◌≢◌, refl,
  sym, ap, subst, ◌∙◌, arith,
}
use skateboard.Region.Glob.{Text}
use skateboard.Mutation.{Mutant}
use skateboard.Mutation.Source.{Change, Letters, Progress, mutant_of, emit_all}
use skateboard.Mutation.Source.Changes.{line_changes, generate_from}
use skateboard.Mutation.Source.Collected.{IsCollected}
use skateboard.Mutation.Source.Emitted.{emit_all-IsCollected, emit_all-In, emit_all-made}

-- The lines before a place, the nearest first.
abbrev pub backwards : List Text → List Text → List Text
backwards before [] = before
backwards before (line ∷ lines) = backwards (line ∷ before) lines

backwards-append_one :
    (before lines : List Text) (line : Text)
    → backwards before (lines ++ line ∷ []) ≡ line ∷ backwards before lines
backwards-append_one before [] line = refl
backwards-append_one before (first ∷ lines) line = backwards-append_one (first ∷ before) lines line

nil_cons : (x : Text) (xs : List Text) → [] ≢ x ∷ xs
nil_cons x xs h = absurd (ground arith)

cons_eq : (x y : Text) (xs ys : List Text) → x ∷ xs ≡ y ∷ ys → (x ≡ y) × (xs ≡ ys)
cons_eq x y xs ys h = (ground arith, ground arith)

pub nothing-IsCollected : (Q : Mutant → Type 0) → IsCollected Q (record { out = []; seen = [] })
nothing-IsCollected Q = record {
  made = λ i mutated h. absurd h;
  recorded = λ m h. absurd h;
  named = λ m n h. absurd (ground arith);
  apart = λ m m' n n' h h' same. absurd (ground arith);
  origin = λ m h. absurd h;
}

module _ (l : Letters) where
  -- A mutant is a change that is proposed for one of the lines, and that changes it.
  pub record IsMutantOf (lines : List Text) (fname : Text) (m : Mutant) : Type 0 where
    pub earlier : List Text
    pub later : List Text
    pub parted : lines ≡ earlier ++ m.original ∷ later
    pub number : m.line ≡ length earlier + 1
    pub change : Change
    pub proposed : In change (line_changes l (backwards [] earlier) m.original)
    pub op_eq : m.op ≡ change.op
    pub mutated_eq : m.mutated ≡ change.mutated
    pub changed : m.mutated ≢ m.original
    pub file_eq : m.file ≡ fname

  mutant_of-IsMutantOf :
      (fname : Text) (earlier later : List Text) (line : Text) (change : Change) (n : ℕ)
      → In change (line_changes l (backwards [] earlier) line)
      → change.mutated ≢ line
      → IsMutantOf (earlier ++ line ∷ later) fname (mutant_of fname (length earlier) line change n)
  unfolding mutant_of
  mutant_of-IsMutantOf fname earlier later line change n i other = record {
    earlier = earlier;
    later = later;
    parted = refl;
    number = refl;
    change = change;
    proposed = i;
    op_eq = refl;
    mutated_eq = refl;
    changed = other;
    file_eq = refl;
  }

  abbrev round : Text → List Text → Text → Progress → Progress
  round fname earlier line p =
      emit_all fname (length earlier) line (line_changes l (backwards [] earlier) line) p

  -- The rounds from a place on, with the place spelled by the lines before it.
  generate_from-step :
      (fname : Text) (earlier : List Text) (line : Text) (lines : List Text) (p : Progress)
      → generate_from l fname (backwards [] earlier) (length earlier) (line ∷ lines) p
        ≡ generate_from l fname
            (backwards [] (earlier ++ line ∷ []))
            (length (earlier ++ line ∷ []))
            lines
            (round fname earlier line p)
  unfolding generate_from
  generate_from-step fname earlier line lines p =
      rw (backwards-append_one [] earlier line, length-append earlier (line ∷ []))
        (ap
          (λ k.
            generate_from l fname (line ∷ backwards [] earlier) k lines
              (round fname earlier line p))
          (omega arith))

  module _ (fname : Text) (all : List Text) where
    abbrev Q : Mutant → Type 0
    Q = IsMutantOf all fname

    proposes :
        (earlier later : List Text) (line : Text)
        → all ≡ earlier ++ line ∷ later
        → (change : Change) → In change (line_changes l (backwards [] earlier) line)
        → change.mutated ≢ line
        → (n : ℕ) → Q (mutant_of fname (length earlier) line change n)
    proposes earlier later line parted change i other n =
        subst (λ lines. IsMutantOf lines fname (mutant_of fname (length earlier) line change n))
          (sym parted) (mutant_of-IsMutantOf fname earlier later line change n i other)

    pub rounds-IsCollected :
        (earlier lines : List Text) (p : Progress)
        → all ≡ earlier ++ lines
        → IsCollected Q p
        → IsCollected Q (generate_from l fname (backwards [] earlier) (length earlier) lines p)
    unfolding generate_from
    rounds-IsCollected earlier [] p parted c = c
    rounds-IsCollected earlier (line ∷ lines) p parted c =
        rw (generate_from-step fname earlier line lines p) (
          rounds-IsCollected (earlier ++ line ∷ []) lines (round fname earlier line p)
            (parted ∙ sym (append_one earlier line lines))
            (emit_all-IsCollected Q fname (length earlier) line
              (line_changes l (backwards [] earlier) line) p c
              (proposes earlier lines line parted)))

    rounds-In :
        (earlier lines : List Text) (p : Progress) (m : Mutant)
        → In m p.out
        → In m (generate_from l fname (backwards [] earlier) (length earlier) lines p).out
    unfolding generate_from
    rounds-In earlier [] p m i = i
    rounds-In earlier (line ∷ lines) p m i = rw (generate_from-step fname earlier line lines p) (
        rounds-In (earlier ++ line ∷ []) lines (round fname earlier line p) m (
          emit_all-In Q fname (length earlier) line (line_changes l (backwards [] earlier) line) p m
            i))

    pub rounds-made :
        (earlier lines : List Text) (p : Progress)
        → all ≡ earlier ++ lines
        → IsCollected Q p
        → (middle later : List Text) (line : Text) (change : Change)
        → lines ≡ middle ++ line ∷ later
        → In change (line_changes l (backwards [] (earlier ++ middle)) line)
        → change.mutated ≢ line
        → (m : Mutant) × In m
            (generate_from l fname (backwards [] earlier) (length earlier) lines p).out
          × (m.line ≡ length (earlier ++ middle) + 1)
          × (m.mutated ≡ change.mutated)
    rounds-made earlier [] p parted c [] later line change split i other =
        absurd (nil_cons _ _ split)
    rounds-made earlier [] p parted c (x ∷ xs) later line change split i other =
        absurd (nil_cons _ _ split)
    rounds-made earlier (first ∷ lines) p parted c [] later line change split i other =
        let (same, _) = cons_eq first line lines later split in
        let whole = append_empty earlier in
        let i' =
          subst (λ x. In change (line_changes l (backwards [] earlier) x)) (sym same)
            (rw whole at i) in
        let (m, j, e, e') =
          emit_all-made Q fname (length earlier) first (line_changes l (backwards [] earlier) first)
            p c (proposes earlier lines first parted) change i' (λ bad. other (bad ∙ same)) in
        (
          m,
          rw (generate_from-step fname earlier first lines p)
              (rounds-In (earlier ++ first ∷ []) lines (round fname earlier first p) m j),
          e ∙ ap (λ x. length x + 1) (sym whole),
          e',
        )
    rounds-made earlier (first ∷ lines) p parted c (second ∷ middle) later line change split i
          other =
        let (same, rest) = cons_eq first second lines (middle ++ line ∷ later) split in
        let whole : (earlier ++ first ∷ []) ++ middle ≡ earlier ++ second ∷ middle =
          append_one earlier first middle ∙ ap (λ x. earlier ++ x ∷ middle) same in
        let (m, j, e, e') =
          rounds-made (earlier ++ first ∷ []) lines (round fname earlier first p)
            (parted ∙ sym (append_one earlier first lines))
            (emit_all-IsCollected Q fname (length earlier) first
              (line_changes l (backwards [] earlier) first) p c
              (proposes earlier lines first parted))
            middle later line change rest (rw whole i) other in
        (
          m,
          rw (generate_from-step fname earlier first lines p) j,
          e ∙ ap (λ x. length x + 1) whole,
          e',
        )
