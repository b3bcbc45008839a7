-- ===== src/Mutation/Source/Collected.antt =====
-- The mutants that `emit` of services/builder/mutation_source.py has collected, and one more of them.
use skateboard.Prelude.{
  ℕ, ◌+◌, String, true, false, ◌&&◌, List, [], ◌∷◌, ◌++◌, some, In, In-append_left, In-append_right,
  In-append_cases, any-In, any_of_In, inl, inr, and-true_iff, nat_beq, nat_beq_iff, ◌==◌, length,
  ◌≡◌, refl, sym, ap, subst, ◌∙◌, arith,
}
use skateboard.Region.Glob.{Text}
use skateboard.Ledger.FileSet.{text_eq}
use skateboard.Prelude.Text.{codes}
use skateboard.Mutation.{Mutant}
use skateboard.Mutation.Words.{get_elem?, padded}
use skateboard.Mutation.Words.Decimal.{last_number, last_number-dash, last_number-padded}
use skateboard.Mutation.Words.Matches.{get_elem?-append_one, get_elem?-In}
use skateboard.Mutation.Source.{stem, Change, Progress, is_seen, name_of, mutant_of}

-- Two mutants change one line to the same text.
abbrev pub SameChange : Mutant → Mutant → Type 0
SameChange m m' = (m.line ≡ m'.line) × (m.mutated ≡ m'.mutated)

-- What has been emitted: `seen` has the changes of the mutants, no change is there twice, the name of
-- a mutant ends in its place, and each mutant is a `Q`.
pub record IsCollected (Q : Mutant → Type 0) (p : Progress) : Type 0 where
  pub made :
      (i : ℕ) (mutated : Text)
      → In (i, mutated) p.seen
      → (m : Mutant) × In m p.out × (m.line ≡ i + 1) × (m.mutated ≡ mutated)
  pub recorded : (m : Mutant) → In m p.out → (i : ℕ) × (m.line ≡ i + 1) × In (i, m.mutated) p.seen
  pub named : (m : Mutant) (n : ℕ) → get_elem? p.out n ≡ some m → last_number 0 m.mid ≡ n
  pub apart :
      (m m' : Mutant) (n n' : ℕ)
      → get_elem? p.out n ≡ some m
      → get_elem? p.out n' ≡ some m'
      → SameChange m m'
      → n ≡ n'
  pub origin : (m : Mutant) → In m p.out → Q m

pub is_seen-In :
    (i : ℕ) (mutated : Text) (seen : List (ℕ × Text))
    → is_seen i mutated seen ≡ true
    → In (i, mutated) seen
unfolding is_seen
is_seen-In i mutated seen h =
    let ((j, other), m, t) = any-In (λ (k : ℕ × Text). nat_beq k.0 i && k.1 == mutated) seen h in
    let (e, e') = (and-true_iff _ _).0 t in
    let same : ◌≡◌ {A = ℕ × Text} (j, other) (i, mutated) =
      λ z. ((nat_beq_iff j i).0 e z, (text_eq.beq_iff other mutated).0 e' z) in
    subst (λ k. In k seen) same m

is_seen_of_In :
    (i : ℕ) (mutated : Text) (seen : List (ℕ × Text))
    → In (i, mutated) seen
    → is_seen i mutated seen ≡ true
unfolding is_seen
is_seen_of_In i mutated seen m =
    any_of_In (λ (k : ℕ × Text). nat_beq k.0 i && k.1 == mutated) seen (i, mutated) m
      ((and-true_iff _ _).1 ((nat_beq_iff i i).1 refl, (text_eq.beq_iff mutated mutated).1 refl))

name_of-number :
    (fname : Text) (line : ℕ) (op : String) (n : ℕ) → last_number 0 (name_of fname line op n) ≡ n
unfolding name_of
name_of-number fname line op n =
    last_number-dash 0 (stem fname) (padded line ++ (b'-' ∷ (codes op ++ (b'-' ∷ padded n))))
    ∙ last_number-dash 0 (padded line) (codes op ++ (b'-' ∷ padded n))
    ∙ last_number-padded (codes op) n

mutant_of-number :
    (fname : Text) (i : ℕ) (line : Text) (change : Change) (n : ℕ)
    → last_number 0 (mutant_of fname i line change n).mid ≡ n
unfolding mutant_of
mutant_of-number fname i line change n = name_of-number fname (i + 1) change.op n

pub mutant_of-change :
    (fname : Text) (i : ℕ) (line : Text) (change : Change) (n : ℕ)
    → ((mutant_of fname i line change n).line ≡ i + 1)
      × ((mutant_of fname i line change n).mutated ≡ change.mutated)
unfolding mutant_of
mutant_of-change fname i line change n = (refl, refl)

module _ (Q : Mutant → Type 0) (fname : Text) (i : ℕ) (line : Text) where
  -- A change that was not seen is added at the end.
  pub added :
      (change : Change) (p : Progress)
      → IsCollected Q p
      → is_seen i change.mutated p.seen ≡ false
      → ((n : ℕ) → Q (mutant_of fname i line change n))
      → IsCollected Q (record {
        out = p.out ++ mutant_of fname i line change (length p.out) ∷ [];
        seen = (i, change.mutated) ∷ p.seen;
      })
  added change p c unseen q =
      let new = mutant_of fname i line change (length p.out) in
      let shape = mutant_of-change fname i line change (length p.out) in
      record {
        made = λ j mutated h. elim h [
          | inl same ↦ (
            new,
            In-append_right new p.out (new ∷ []) (inl refl),
            shape.0 ∙ ap (λ (k : ℕ × Text). k.0 + 1) (sym same),
            shape.1 ∙ ap (λ (k : ℕ × Text). k.1) (sym same),
          )
          | inr old ↦
              let (m, k, e, e') = c.made j mutated old in
              (m, In-append_left m p.out (new ∷ []) k, e, e')
        ];
        recorded = λ m h. elim (In-append_cases m p.out (new ∷ []) h) [
          | inl old ↦ let (j, e, k) = c.recorded m old in (j, e, inr k)
          | inr (inl same) ↦ (
            i,
            ap (λ (x : Mutant). x.line) same ∙ shape.0,
            inl (ap (λ (x : Mutant). (i, x.mutated)) same ∙ ap (λ x. (i, x)) shape.1),
          )
          | inr (inr nothing) ↦ absurd nothing
        ];
        named = λ m n h. elim (get_elem?-append_one p.out new n m h) [
          | inl old ↦ c.named m n old
          | inr (e, e') ↦
              ap (λ (x : Mutant). last_number 0 x.mid) e'
              ∙ mutant_of-number fname i line change (length p.out)
              ∙ sym e
        ];
        apart = λ m m' n n' h h' same. elim (get_elem?-append_one p.out new n m h) [
          | inl old ↦ elim (get_elem?-append_one p.out new n' m' h') [
            | inl old' ↦ c.apart m m' n n' old old' same
            | inr (e, e') ↦
                absurd (clash m (get_elem?-In p.out n m old) (subst (SameChange m) e' same))
          ]
          | inr (e, e') ↦ elim (get_elem?-append_one p.out new n' m' h') [
            | inl old' ↦ absurd (
                clash m' (get_elem?-In p.out n' m' old')
                  (subst (SameChange m') e' (sym same.0, sym same.1)))
            | inr (e₁, _) ↦ e ∙ sym e₁
          ]
        ];
        origin = λ m h. elim (In-append_cases m p.out (new ∷ []) h) [
          | inl old ↦ c.origin m old
          | inr (inl same) ↦ subst Q (sym same) (q (length p.out))
          | inr (inr nothing) ↦ absurd nothing
        ];
      }
    where
      clash :
          (m : Mutant)
          → In m p.out
          → SameChange m (mutant_of fname i line change (length p.out))
          → ⊥
      clash m k (e, e') =
          let shape = mutant_of-change fname i line change (length p.out) in
          let (j, e₁, k') = c.recorded m k in
          let same : j ≡ i = omega (arith, e, shape.0, e₁) in
          let seen =
            is_seen_of_In i change.mutated p.seen
              (subst (λ x. In x p.seen) (λ z. (same z, (e' ∙ shape.1) z)) k') in
          absurd (ground arith)
