-- ===== src/Prelude/Sorting.antt =====
-- Python's `sorted`, which is stable, over a test `le`, and the last element of its result.
use mathlib.Core.Path.{◌≡◌, refl, ap, ◌∙◌}
use mathlib.Core.Logic.{inl, inr, ◌⊎◌}
use mathlib.Core.Bool.{Bool, true, false}
use mathlib.Core.List.{List, [], ◌∷◌, ◌++◌}
use mathlib.Core.Option.{Option, none, some}
use native.Mathlib.Omega.{arith}
use skateboard.Prelude.Tests.{if◌then◌else◌, Bool-cases, Option-cases}
use skateboard.Prelude.Lists.{In, last?, last?-In}

nil_of : {A : Type 0} (xs : List A) → last? xs ≡ none → xs ≡ []
nil_of [] h = refl
nil_of (x ∷ []) h = cc
nil_of (x ∷ y ∷ ys) h = let e = nil_of (y ∷ ys) h in cc

module _ {A : Type 0} (le : A → A → Bool) where
  abbrev pub insert_by : A → List A → List A
  insert_by x [] = x ∷ []
  insert_by x (y ∷ ys) = let rest = insert_by x ys in if le x y then x ∷ y ∷ ys else y ∷ rest

  unfoldable pub sort_by : List A → List A
  sort_by [] = []
  sort_by (x ∷ xs) = insert_by x (sort_by xs)

  -- The largest element; among equal ones, the one that stands last.
  unfoldable pub newest : List A → Option A
  newest [] = none
  newest (x ∷ xs) = elim (newest xs) [ none ↦ some x | some y ↦ if le x y then some y else some x ]

  In-insert_by : (a x : A) (ys : List A) → In a (insert_by x ys) → (a ≡ x) ⊎ In a ys
  In-insert_by a x [] i = i
  In-insert_by a x (y ∷ ys) i = elim (Bool-cases (le x y)) [
    | inl t ↦ rw t at i
    | inr f ↦ elim (rw f at i) [
      | inl e ↦ inr (inl e)
      | inr j ↦ elim (In-insert_by a x ys j) [ inl e ↦ inl e | inr k ↦ inr (inr k) ]
    ]
  ]

  pub In-sort_by : (a : A) (xs : List A) → In a (sort_by xs) → In a xs
  unfolding sort_by
  In-sort_by a [] i = i
  In-sort_by a (x ∷ xs) i = elim (In-insert_by a x (sort_by xs) i) [
    | inl e ↦ inl e
    | inr j ↦ inr (In-sort_by a xs j)
  ]

  In-insert_by_of : (a x : A) (ys : List A) → (a ≡ x) ⊎ In a ys → In a (insert_by x ys)
  In-insert_by_of a x [] i = i
  In-insert_by_of a x (y ∷ ys) i = elim (Bool-cases (le x y)) [
    | inl t ↦ rw t i
    | inr f ↦ rw f (elim i [
      | inl e ↦ inr (In-insert_by_of a x ys (inl e))
      | inr j ↦ elim j [ inl e ↦ inl e | inr k ↦ inr (In-insert_by_of a x ys (inr k)) ]
    ])
  ]

  pub In-sort_by_of : (a : A) (xs : List A) → In a xs → In a (sort_by xs)
  unfolding sort_by
  In-sort_by_of a [] i = i
  In-sort_by_of a (x ∷ xs) (inl e) = In-insert_by_of a x (sort_by xs) (inl e)
  In-sort_by_of a (x ∷ xs) (inr i) = In-insert_by_of a x (sort_by xs) (inr (In-sort_by_of a xs i))

  abbrev pub IsSorted : List A → Type 0
  IsSorted [] = Unit
  IsSorted (x ∷ xs) = ((y : A) → In y xs → le x y ≡ true) × IsSorted xs

  pub newest-ne-none : (xs : List A) (a : A) → In a xs → newest xs ≡ none → ⊥
  unfolding newest
  newest-ne-none [] a i h = i
  newest-ne-none (x ∷ xs) a i h = ground arith

  last?-cons_insert_by :
      (x y : A) (ys : List A) → last? (y ∷ insert_by x ys) ≡ last? (insert_by x ys)
  last?-cons_insert_by x y [] = refl
  last?-cons_insert_by x y (z ∷ zs) = ground arith

  module _ (total : (a b : A) → le a b ≡ false → le b a ≡ true)
      (trans : (a b c : A) → le a b ≡ true → le b c ≡ true → le a c ≡ true) where
    insert_by-IsSorted : (x : A) (ys : List A) → IsSorted ys → IsSorted (insert_by x ys)
    insert_by-IsSorted x [] s = ((λ y i. absurd i), tt)
    insert_by-IsSorted x (y ∷ ys) s = elim (Bool-cases (le x y)) [
      | inl t ↦ rw t ((λ z i. elim i [ inl e ↦ rw e t | inr j ↦ trans x y z t (s.0 z j) ]), s)
      | inr f ↦ rw f (
        (λ z i. elim (In-insert_by z x ys i) [ inl e ↦ rw e (total x y f) | inr j ↦ s.0 z j ]),
        insert_by-IsSorted x ys s.1,
      )
    ]

    pub sort_by-IsSorted : (xs : List A) → IsSorted (sort_by xs)
    unfolding sort_by
    sort_by-IsSorted [] = tt
    sort_by-IsSorted (x ∷ xs) = insert_by-IsSorted x (sort_by xs) (sort_by-IsSorted xs)

    last?-insert_by :
        (x z : A) (s : List A)
        → IsSorted s
        → last? s ≡ some z
        → last? (insert_by x s) ≡ (if le x z then some z else some x)
    last?-insert_by x z [] s e = cc
    last?-insert_by x z (y ∷ []) s e = ground arith
    last?-insert_by x z (y ∷ y' ∷ ys) s e = elim (Bool-cases (le x y)) [
      | inl t ↦ rw (t, trans x y z t (s.0 z (last?-In (y' ∷ ys) e))) e
      | inr f ↦ rw f (last?-cons_insert_by x y (y' ∷ ys) ∙ last?-insert_by x z (y' ∷ ys) s.1 e)
    ]

    -- An element that is put last wins against all that are not larger.
    pub newest-append_one :
        (xs : List A) (z : A)
        → newest (xs ++ z ∷ [])
          ≡ (elim (newest xs) [ none ↦ some z | some y ↦ if le y z then some z else some y ])
    unfolding newest
    newest-append_one [] z = refl
    newest-append_one (x ∷ xs) z = elim (Option-cases (newest xs)) [
      | inl e ↦ rw (newest-append_one xs z, e, newest) refl
      | inr (y, e) ↦
          rw (newest-append_one xs z, e, newest)
            (ground (arith, trans x y z, total x y, total y z, trans y x z, total x z))
    ]

    -- The newest element is as large as any.
    pub newest-le :
        (xs : List A) {z : A} (a : A)
        → ((b : A) → le b b ≡ true)
        → newest xs ≡ some z
        → In a xs
        → le a z ≡ true
    unfolding newest
    newest-le [] a rfl h i = absurd i
    newest-le (x ∷ xs) {z} a rfl h (inl e) = elim (Option-cases (newest xs)) [
      | inl q ↦ let same : x ≡ z = ground arith in rw (e, same) (rfl z)
      | inr (y, q) ↦ rw e (elim (Bool-cases (le x y)) [
        | inl t ↦ let same : y ≡ z = ground arith in rw (← same) t
        | inr f ↦ let same : x ≡ z = ground arith in rw same (rfl z)
      ])
    ]
    newest-le (x ∷ xs) {z} a rfl h (inr i) = elim (Option-cases (newest xs)) [
      | inl q ↦ absurd (newest-ne-none xs a i q)
      | inr (y, q) ↦
          let below = newest-le xs a rfl q i in
          elim (Bool-cases (le x y)) [
            | inl t ↦ let same : y ≡ z = ground arith in rw (← same) below
            | inr f ↦
                let same : x ≡ z = ground arith in rw (← same) (trans a y x below (total x y f))
          ]
    ]

    -- `sorted(xs)[-1]` is the largest element, the last of them among equals.
    pub last?-sort_by : (xs : List A) → last? (sort_by xs) ≡ newest xs
    unfolding sort_by newest
    last?-sort_by [] = refl
    last?-sort_by (x ∷ xs) = elim (Option-cases (newest xs)) [
      | inl e ↦ rw (nil_of (sort_by xs) (last?-sort_by xs ∙ e), e, newest)
      | inr (z, e) ↦
          rw (e, newest)
            (last?-insert_by x z (sort_by xs) (sort_by-IsSorted xs) (last?-sort_by xs ∙ e))
    ]

  pub newest-In : (xs : List A) {z : A} → newest xs ≡ some z → In z xs
  unfolding newest
  newest-In [] h = absurd (ground arith)
  newest-In (x ∷ xs) {z} h = elim (Option-cases (newest xs)) [
    | inl e ↦ inl (ground arith)
    | inr (y, e) ↦ elim (Bool-cases (le x y)) [
      | inl t ↦ let q : y ≡ z = ground arith in inr (newest-In xs (e ∙ ap some q))
      | inr f ↦ inl (ground arith)
    ]
  ]
