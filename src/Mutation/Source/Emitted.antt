-- ===== src/Mutation/Source/Emitted.antt =====
-- What `emit` of services/builder/mutation_source.py keeps true of the mutants that it collects.
use skateboard.Prelude.{
  ℕ, ◌+◌, true, false, List, [], ◌∷◌, ◌++◌, In, In-append_left, In-append_right, inl, inr, ◌⊎◌,
  Bool-cases, ◌==◌, length, ◌≡◌, ◌≢◌, refl, sym, ap, subst, ◌∙◌, arith,
}
use skateboard.Region.Glob.{Text}
use skateboard.Ledger.FileSet.{text_eq}
use skateboard.Mutation.{Mutant}
use skateboard.Mutation.Source.{Change, Progress, is_seen, mutant_of, emit, emit_all}
use skateboard.Mutation.Source.Collected.{IsCollected, is_seen-In, mutant_of-change, added}

module _ (Q : Mutant → Type 0) (fname : Text) (i : ℕ) (line : Text) where
  emit-cases :
      (change : Change) (p : Progress)
      → ((is_seen i change.mutated p.seen ≡ true) × (emit fname i line change p ≡ p))
        ⊎ ((change.mutated ≡ line) × (emit fname i line change p ≡ p))
        ⊎ ((is_seen i change.mutated p.seen ≡ false)
            × (change.mutated ≢ line)
            × (emit fname i line change p ≡ record {
              out = p.out ++ mutant_of fname i line change (length p.out) ∷ [];
              seen = (i, change.mutated) ∷ p.seen;
            }))
  unfolding emit
  emit-cases change p = elim (Bool-cases (is_seen i change.mutated p.seen)) [
    | inl t ↦ inl (t, rw t refl)
    | inr t ↦ elim (Bool-cases (change.mutated == line)) [
      | inl same ↦ inr (inl ((text_eq.beq_iff change.mutated line).0 same, rw (t, same) refl))
      | inr other ↦ inr (
          inr (
            t,
            (λ e. let bad = (text_eq.beq_iff change.mutated line).1 e in absurd (ground arith)),
            rw (t, other) refl,
          ))
    ]
  ]

  emit-IsCollected :
      (change : Change) (p : Progress)
      → IsCollected Q p
      → (change.mutated ≢ line → (n : ℕ) → Q (mutant_of fname i line change n))
      → IsCollected Q (emit fname i line change p)
  emit-IsCollected change p c q = elim (emit-cases change p) [
    | inl (_, e) ↦ subst (IsCollected Q) (sym e) c
    | inr (inl (_, e)) ↦ subst (IsCollected Q) (sym e) c
    | inr (inr (unseen, other, e)) ↦
        subst (IsCollected Q) (sym e) (added Q fname i line change p c unseen (q other))
  ]

  emit-In :
      (change : Change) (p : Progress) (m : Mutant)
      → In m p.out
      → In m (emit fname i line change p).out
  emit-In change p m h = elim (emit-cases change p) [
    | inl (_, e) ↦ rw e h
    | inr (inl (_, e)) ↦ rw e h
    | inr (inr (_, _, e)) ↦ rw e (In-append_left m p.out _ h)
  ]

  -- A change that is no change is left out, and another one is made once it is emitted.
  emit-made :
      (change : Change) (p : Progress)
      → IsCollected Q p
      → change.mutated ≢ line
      → (m : Mutant) × In m (emit fname i line change p).out
        × (m.line ≡ i + 1)
        × (m.mutated ≡ change.mutated)
  emit-made change p c other = elim (emit-cases change p) [
    | inl (seen, e) ↦ rw e (c.made i change.mutated (is_seen-In i change.mutated p.seen seen))
    | inr (inl (same, e)) ↦ absurd (other same)
    | inr (inr (_, _, e)) ↦
        let shape = mutant_of-change fname i line change (length p.out) in
        rw e (
          mutant_of fname i line change (length p.out),
          In-append_right _ p.out _ (inl refl),
          shape.0,
          shape.1,
        )
  ]

  pub emit_all-IsCollected :
      (changes : List Change) (p : Progress)
      → IsCollected Q p
      → ((change : Change)
          → In change changes
          → change.mutated ≢ line
          → (n : ℕ) → Q (mutant_of fname i line change n))
      → IsCollected Q (emit_all fname i line changes p)
  unfolding emit_all
  emit_all-IsCollected [] p c q = c
  emit_all-IsCollected (change ∷ changes) p c q =
      emit_all-IsCollected changes (emit fname i line change p)
        (emit-IsCollected change p c (q change (inl refl))) (λ other k. q other (inr k))

  pub emit_all-In :
      (changes : List Change) (p : Progress) (m : Mutant)
      → In m p.out
      → In m (emit_all fname i line changes p).out
  unfolding emit_all
  emit_all-In [] p m h = h
  emit_all-In (change ∷ changes) p m h =
      emit_all-In changes (emit fname i line change p) m (emit-In change p m h)

  pub emit_all-made :
      (changes : List Change) (p : Progress)
      → IsCollected Q p
      → ((change : Change)
          → In change changes
          → change.mutated ≢ line
          → (n : ℕ) → Q (mutant_of fname i line change n))
      → (change : Change) → In change changes
      → change.mutated ≢ line
      → (m : Mutant) × In m (emit_all fname i line changes p).out
        × (m.line ≡ i + 1)
        × (m.mutated ≡ change.mutated)
  unfolding emit_all
  emit_all-made [] p c q change k other = absurd k
  emit_all-made (first ∷ changes) p c q change (inl same) other =
      let other' : first.mutated ≢ line = λ e. other (ap (λ (x : Change). x.mutated) same ∙ e) in
      let (m, j, e, e') = emit-made first p c other' in
      (
        m,
        emit_all-In changes (emit fname i line first p) m j,
        e,
        e' ∙ ap (λ (x : Change). x.mutated) (sym same),
      )
  emit_all-made (first ∷ changes) p c q change (inr k) other =
      emit_all-made changes (emit fname i line first p)
        (emit-IsCollected first p c (q first (inl refl))) (λ x k'. q x (inr k')) change k other
