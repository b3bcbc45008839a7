-- ===== src/Mutation/Source/Generated.antt =====
-- What `generate` of services/builder/mutation_source.py answers with: which mutants there are of a
-- file, and how they are told apart.
use skateboard.Prelude.{
  ℕ, ◌+◌, List, [], ◌∷◌, ◌++◌, some, In, inl, inr, ◌⊎◌, length, ◌≡◌, ◌≢◌, ◌↔◌, refl, sym, ap, subst,
  ◌∙◌,
}
use skateboard.Region.Glob.{Text}
use skateboard.Mutation.{Mutant}
use skateboard.Mutation.Words.{get_elem?, split_lines}
use skateboard.Mutation.Words.Decimal.{last_number}
use skateboard.Mutation.Source.{Change, Letters}
use skateboard.Mutation.Source.Changes.{line_changes, generate_from, generate}
use skateboard.Mutation.Source.Collected.{SameChange, IsCollected}
use skateboard.Mutation.Source.Rounds.{
  backwards, IsMutantOf, nothing-IsCollected, rounds-IsCollected, rounds-made,
}

module _ (l : Letters) where
  generate-IsCollected :
      (text fname : Text)
      → IsCollected
          (IsMutantOf l (split_lines text) fname)
          (generate_from l fname [] 0 (split_lines text) (record { out = []; seen = [] }))
  generate-IsCollected text fname =
      rounds-IsCollected l fname (split_lines text) [] (split_lines text)
        (record { out = []; seen = [] }) refl
        (nothing-IsCollected (IsMutantOf l (split_lines text) fname))

  -- A change that is proposed for the line of this number, makes this text of it, and changes it.
  pub record IsProposed (lines : List Text) (number : ℕ) (mutated : Text) : Type 0 where
    pub earlier : List Text
    pub line : Text
    pub later : List Text
    pub parted : lines ≡ earlier ++ line ∷ later
    pub number_eq : number ≡ length earlier + 1
    pub change : Change
    pub proposed : In change (line_changes l (backwards [] earlier) line)
    pub mutated_eq : change.mutated ≡ mutated
    pub changed : change.mutated ≢ line

  IsMutantOf-IsProposed :
      (lines : List Text) (fname : Text) (m : Mutant)
      → IsMutantOf l lines fname m
      → IsProposed lines m.line m.mutated
  IsMutantOf-IsProposed lines fname m q = record {
    earlier = q.earlier;
    line = m.original;
    later = q.later;
    parted = q.parted;
    number_eq = q.number;
    change = q.change;
    proposed = q.proposed;
    mutated_eq = sym q.mutated_eq;
    changed = λ e. q.changed (q.mutated_eq ∙ e);
  }

  -- The mutants of a file are the changes that the operators propose for its lines: there is a mutant
  -- of a line, by its number, to a text, exactly when some operator proposes this text for that line,
  -- given the lines before it, and it is not the line as it stands.
  pub generate-IsProposed :
      (text fname : Text) (number : ℕ) (mutated : Text)
      → ((m : Mutant) × In m (generate l text fname) × (m.line ≡ number) × (m.mutated ≡ mutated))
        ↔ IsProposed (split_lines text) number mutated
  unfolding generate
  generate-IsProposed text fname number mutated =
      let c = generate-IsCollected text fname in
      (
        (λ (m, i, e, e').
            subst (λ t. IsProposed (split_lines text) number t) e'
              (subst (λ n. IsProposed (split_lines text) n m.mutated) e
                (IsMutantOf-IsProposed (split_lines text) fname m (c.origin m i)))),
        (λ q.
            let (m, i, e, e') =
              rounds-made l fname (split_lines text) [] (split_lines text)
                (record { out = []; seen = [] }) refl
                (nothing-IsCollected (IsMutantOf l (split_lines text) fname)) q.earlier q.later
                q.line q.change q.parted q.proposed q.changed in
            (m, i, e ∙ sym q.number_eq, e' ∙ q.mutated_eq)),
      )

  -- Two mutants of a file that make the same change to the same line, or that have the same name, are
  -- one: they stand at the same place among the mutants.
  pub generate-get_elem? :
      (text fname : Text) (m m' : Mutant) (n n' : ℕ)
      → get_elem? (generate l text fname) n ≡ some m
      → get_elem? (generate l text fname) n' ≡ some m'
      → SameChange m m' ⊎ (m.mid ≡ m'.mid)
      → n ≡ n'
  unfolding generate
  generate-get_elem? text fname m m' n n' h h' (inl same) =
      let c = generate-IsCollected text fname in c.apart m m' n n' h h' same
  generate-get_elem? text fname m m' n n' h h' (inr same) =
      let c = generate-IsCollected text fname in
      sym (c.named m n h) ∙ ap (last_number 0) same ∙ c.named m' n' h'
