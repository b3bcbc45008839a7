-- ===== src/Region/Submit/Frozen.antt =====
-- What `submit` of equivalent/gateway/submit.py does to each path.
use skateboard.Prelude.{
  ℕ, ◌≡◌, refl, sym, ap, ◌∙◌, Bool, true, false, List, [], ◌∷◌, map, Option, some, none, filter,
  lookup, put, Bool-cases, inl, inr, ◌==◌, if◌then◌else◌, arith, elem, distinct,
}
use skateboard.Ledger.FileSet.{text_eq, hash_files}
use skateboard.Region.Glob.{Text, matches_any}
use skateboard.Region.Submit.{Files, merge, allowed, applied, frozen_files, file_list, submit}

pub lookup-put :
    {V : Type 0} (k j : Text) (v : V) (m : List (Text × V))
    → lookup k (put j v m) ≡ (if k == j then some v else lookup k m)
lookup-put k j v [] = refl
lookup-put k j v ((i, w) ∷ m) =
    ground
      (arith, lookup-put k j v m, text_eq.beq_iff k j, text_eq.beq_iff j i, text_eq.beq_iff k i)

-- The last entry of `over` for a key wins.
abbrev pub or_base : Option (List ℕ) → Option (List ℕ) → Option (List ℕ)
or_base (some v) b = some v
or_base none b = b

lookup-merge_of_none :
    (k : Text) (base over : Files)
    → lookup k over ≡ none
    → lookup k (merge base over) ≡ lookup k base
unfolding merge
lookup-merge_of_none k base [] h = refl
lookup-merge_of_none k base ((j, v) ∷ over) h = elim (Bool-cases (k == j)) [
  | inl same ↦ absurd (ground arith)
  | inr other ↦
      lookup-merge_of_none k (put j v base) over (ground arith)
      ∙ lookup-put k j v base
      ∙ (rw other refl)
]

lookup-none_of_elem : (k : Text) (m : Files) → elem k (map (λ f. f.0) m) ≡ false → lookup k m ≡ none
lookup-none_of_elem k [] h = refl
lookup-none_of_elem k ((j, v) ∷ m) h = ground (arith, lookup-none_of_elem k m)

lookup-merge :
    (k : Text) (base over : Files)
    → distinct (map (λ f. f.0) over) ≡ true
    → lookup k (merge base over) ≡ or_base (lookup k over) (lookup k base)
unfolding merge
lookup-merge k base [] h = refl
lookup-merge k base ((j, v) ∷ over) h =
    let rest = lookup-merge k (put j v base) over (ground arith) in
    elim (Bool-cases (k == j)) [
      | inl same ↦
          let e : k ≡ j = (text_eq.beq_iff k j).0 same in
          let fresh : lookup k over ≡ none = rw e (lookup-none_of_elem j over (ground arith)) in
          rest ∙ (rw (fresh, lookup-put k j v base, same) refl)
      | inr other ↦ rest ∙ (rw (lookup-put k j v base, other) refl)
    ]

elem-filter :
    (test : Text × List ℕ → Bool) (k : Text) (m : Files)
    → elem k (map (λ f. f.0) m) ≡ false
    → elem k (map (λ f. f.0) (filter test m)) ≡ false
elem-filter test k [] h = refl
elem-filter test k (f ∷ m) h = ground (arith, elem-filter test k m)

distinct-filter :
    (test : Text × List ℕ → Bool) (m : Files)
    → distinct (map (λ f. f.0) m) ≡ true
    → distinct (map (λ f. f.0) (filter test m)) ≡ true
distinct-filter test [] h = refl
distinct-filter test (f ∷ m) h = ground (arith, distinct-filter test m, elem-filter test f.0 m)

module _ (fnmatchcase : Text → Text → Bool) (lower : Text → Text) where
  frozen-put :
      (globs : List Text) (k : Text) (v : List ℕ) (m : Files)
      → matches_any fnmatchcase lower k globs ≡ true
      → frozen_files fnmatchcase lower globs (put k v m) ≡ frozen_files fnmatchcase lower globs m
  unfolding frozen_files
  frozen-put globs k v [] h = rw h refl
  frozen-put globs k v ((j, w) ∷ m) h = elim (Bool-cases (k == j)) [
    | inl same ↦
        let here : matches_any fnmatchcase lower j globs ≡ true =
          ap (λ x. matches_any fnmatchcase lower x globs) (sym ((text_eq.beq_iff k j).0 same))
          ∙ h in
        rw (same, here) refl
    | inr other ↦
        let rest = frozen-put globs k v m h in
        elim (Bool-cases (matches_any fnmatchcase lower j globs)) [
          | inl free ↦ rw (other, free) rest
          | inr held ↦ rw (other, held) (ap (λ l. (j, w) ∷ l) rest)
        ]
  ]

  frozen-merge :
      (globs : List Text) (base over : Files)
      → frozen_files fnmatchcase lower globs (merge base (applied fnmatchcase lower globs over))
        ≡ frozen_files fnmatchcase lower globs base
  unfolding applied merge
  frozen-merge globs base [] = refl
  frozen-merge globs base ((k, v) ∷ over) =
      elim (Bool-cases (matches_any fnmatchcase lower k globs)) [
        | inr held ↦ rw held (frozen-merge globs base over)
        | inl free ↦
            rw free (frozen-merge globs (put k v base) over ∙ frozen-put globs k v base free)
      ]

  -- Under the allow-list a submit was made with, the tree it constructs has the same frozen files as
  -- the baseline, with the same bytes and in the same order, and the frozen hash of the receipt is
  -- that tree's own.
  pub submit-frozen :
      (globs : List Text) (baseline working : Files)
      → (frozen_files fnmatchcase lower globs
            (submit fnmatchcase lower baseline working globs).constructed
          ≡ frozen_files fnmatchcase lower globs baseline)
        × ((submit fnmatchcase lower baseline working globs).frozen
            ≡ hash_files (
                file_list (
                  frozen_files fnmatchcase lower globs
                    (submit fnmatchcase lower baseline working globs).constructed)))
  unfolding submit
  submit-frozen globs baseline working =
      let same = frozen-merge globs baseline working in
      (same, ap (λ l. hash_files (file_list l)) (sym same))

  lookup-applied :
      (globs : List Text) (k : Text) (over : Files)
      → lookup k (applied fnmatchcase lower globs over)
        ≡ (if matches_any fnmatchcase lower k globs then lookup k over else none)
  unfolding applied
  lookup-applied globs k [] = ground arith
  lookup-applied globs k ((j, v) ∷ over) = elim (Bool-cases (k == j)) [
    | inl same ↦
        let e : matches_any fnmatchcase lower j globs ≡ matches_any fnmatchcase lower k globs =
          ap (λ x. matches_any fnmatchcase lower x globs) (sym ((text_eq.beq_iff k j).0 same)) in
        ground (arith, lookup-applied globs k over)
    | inr other ↦ ground (arith, lookup-applied globs k over)
  ]

  -- The tree of a submit at each path: the working copy's file where the allow-list covers the path
  -- and the working copy has it, and the baseline's otherwise. A working copy names a path once.
  pub lookup-submit :
      (globs : List Text) (baseline working : Files) (path : Text)
      → distinct (map (λ f. f.0) working) ≡ true
      → lookup path (submit fnmatchcase lower baseline working globs).constructed ≡ (
          if matches_any fnmatchcase lower path globs
          then or_base (lookup path working) (lookup path baseline)
          else lookup path baseline)
  unfolding submit applied
  lookup-submit globs baseline working path h =
      let found =
        lookup-merge path baseline (applied fnmatchcase lower globs working)
          (distinct-filter (allowed fnmatchcase lower globs) working h) in
      elim (Bool-cases (matches_any fnmatchcase lower path globs)) [
        | inl free ↦ found ∙ (rw (lookup-applied globs path working, free) refl)
        | inr held ↦ found ∙ (rw (lookup-applied globs path working, held) refl)
      ]
