-- ===== src/Prelude/Lists.antt =====
-- Lists measured by native numbers, Boolean searches, and membership as a predicate that computes.
use Prim.Native.Nat.{ℕ, suc, ◌+◌}
use mathlib.Core.Path.{◌≡◌, refl, sym, ap, ◌∙◌}
use mathlib.Core.Logic.{◌⊎◌, inl, inr}
use mathlib.Core.Bool.{Bool, true, false, ◌&&◌, ◌||◌}
use mathlib.Core.List.{List, [], ◌∷◌, ◌++◌, map}
use mathlib.Core.Option.{Option, none, some}
use native.Mathlib.Omega.{arith}
use skateboard.Prelude.Tests.{if◌then◌else◌, Bool-cases}

module _ {ℓ} {A : Type ℓ} where
  abbrev pub length : List A → ℕ
  length [] = 0
  length (x ∷ xs) = suc (length xs)

  -- Python's `filter` by a Boolean test, as comprehensions use it.
  abbrev pub filter : (A → Bool) → List A → List A
  filter p [] = []
  filter p (x ∷ xs) = let rest = filter p xs in if p x then x ∷ rest else rest

  abbrev pub any : (A → Bool) → List A → Bool
  any p [] = false
  any p (x ∷ xs) = p x || any p xs

  abbrev pub all : (A → Bool) → List A → Bool
  all p [] = true
  all p (x ∷ xs) = p x && all p xs

  -- `next((x for x in xs if p(x)), None)`
  abbrev pub find : (A → Bool) → List A → Option A
  find p [] = none
  find p (x ∷ xs) = let rest = find p xs in if p x then some x else rest

  -- `xs[-1] if xs else None`
  abbrev pub last? : List A → Option A
  last? [] = none
  last? (x ∷ []) = some x
  last? (x ∷ y ∷ ys) = last? (y ∷ ys)

  abbrev pub All {κ} : (A → Type κ) → List A → Type κ
  All P [] = Unit
  All P (x ∷ xs) = P x × All P xs

abbrev pub In : {A : Type 0} → A → List A → Type 0
In a [] = ⊥
In a (x ∷ xs) = (a ≡ x) ⊎ In a xs

module _ {A : Type 0} where
  pub append_empty : (xs : List A) → xs ++ [] ≡ xs
  append_empty [] = refl
  append_empty (x ∷ xs) = ap (λ zs. x ∷ zs) (append_empty xs)

  pub append_one : (xs : List A) (x : A) (ys : List A) → (xs ++ x ∷ []) ++ ys ≡ xs ++ x ∷ ys
  append_one [] x ys = refl
  append_one (z ∷ xs) x ys = ap (λ zs. z ∷ zs) (append_one xs x ys)

  pub append-nil : (xs ys : List A) → xs ++ ys ≡ [] → (xs ≡ []) × (ys ≡ [])
  append-nil [] ys h = (refl, h)
  append-nil (x ∷ xs) ys h = absurd (ground arith)

  pub length-append : (xs ys : List A) → length (xs ++ ys) ≡ length xs + length ys
  length-append [] ys = omega arith
  length-append (x ∷ xs) ys = omega (arith, length-append xs ys)

  pub In-append_left : (a : A) (xs ys : List A) → In a xs → In a (xs ++ ys)
  In-append_left a [] ys h = absurd h
  In-append_left a (x ∷ xs) ys (inl e) = inl e
  In-append_left a (x ∷ xs) ys (inr h) = inr (In-append_left a xs ys h)

  pub In-append_right : (a : A) (xs ys : List A) → In a ys → In a (xs ++ ys)
  In-append_right a [] ys h = h
  In-append_right a (x ∷ xs) ys h = inr (In-append_right a xs ys h)

  pub In-append_cases : (a : A) (xs ys : List A) → In a (xs ++ ys) → In a xs ⊎ In a ys
  In-append_cases a [] ys h = inr h
  In-append_cases a (x ∷ xs) ys (inl e) = inl (inl e)
  In-append_cases a (x ∷ xs) ys (inr h) = elim (In-append_cases a xs ys h) [
    | inl l ↦ inl (inr l)
    | inr r ↦ inr r
  ]

  pub In-filter : (p : A → Bool) (a : A) (xs : List A) → In a (filter p xs) → In a xs × (p a ≡ true)
  In-filter p a [] h = absurd h
  In-filter p a (x ∷ xs) h = elim (Bool-cases (p x)) [
    | inr out ↦ let (i, t) = In-filter p a xs (rw out at h) in (inr i, t)
    | inl kept ↦ elim (rw kept at h) [
      | inl e ↦ (inl e, rw e kept)
      | inr m ↦ let (i, t) = In-filter p a xs m in (inr i, t)
    ]
  ]

  pub In-filter_of :
      (p : A → Bool) (a : A) (xs : List A) → In a xs → p a ≡ true → In a (filter p xs)
  In-filter_of p a [] h t = absurd h
  In-filter_of p a (x ∷ xs) (inl e) t = rw (ap p (sym e) ∙ t) (inl e)
  In-filter_of p a (x ∷ xs) (inr h) t = elim (Bool-cases (p x)) [
    | inl kept ↦ rw kept (inr (In-filter_of p a xs h t))
    | inr out ↦ rw out (In-filter_of p a xs h t)
  ]

  pub all-In : (p : A → Bool) (xs : List A) → all p xs ≡ true → (a : A) → In a xs → p a ≡ true
  all-In p [] h a i = absurd i
  all-In p (x ∷ xs) h a (inl e) = rw e (ground arith)
  all-In p (x ∷ xs) h a (inr i) = all-In p xs (ground arith) a i

  pub all_of_In : (p : A → Bool) (xs : List A) → ((a : A) → In a xs → p a ≡ true) → all p xs ≡ true
  all_of_In p [] h = refl
  all_of_In p (x ∷ xs) h = ground (arith, h x (inl refl), all_of_In p xs (λ a i. h a (inr i)))

  pub any-In : (p : A → Bool) (xs : List A) → any p xs ≡ true → (a : A) × In a xs × (p a ≡ true)
  any-In p [] h = absurd (ground arith)
  any-In p (x ∷ xs) h = elim (Bool-cases (p x)) [
    | inl here ↦ (x, inl refl, here)
    | inr out ↦ let (a, i, t) = any-In p xs (ground arith) in (a, inr i, t)
  ]

  pub any_of_In : (p : A → Bool) (xs : List A) (a : A) → In a xs → p a ≡ true → any p xs ≡ true
  any_of_In p [] a i t = absurd i
  any_of_In p (x ∷ xs) a (inl e) t = ground (arith, ap p e)
  any_of_In p (x ∷ xs) a (inr i) t = ground (arith, any_of_In p xs a i t)

  pub filter-append :
      (p : A → Bool) (xs ys : List A) → filter p (xs ++ ys) ≡ filter p xs ++ filter p ys
  filter-append p [] ys = refl
  filter-append p (x ∷ xs) ys = elim (Bool-cases (p x)) [
    | inl kept ↦ rw (kept, filter-append p xs ys)
    | inr out ↦ rw (out, filter-append p xs ys)
  ]

  pub last?-append_one : (xs : List A) (y : A) → last? (xs ++ y ∷ []) ≡ some y
  last?-append_one [] y = refl
  last?-append_one (x ∷ []) y = refl
  last?-append_one (x ∷ x' ∷ xs) y = last?-append_one (x' ∷ xs) y

  pub last?-In : (xs : List A) {a : A} → last? xs ≡ some a → In a xs
  last?-In [] h = absurd (ground arith)
  last?-In (x ∷ []) h = inl (ground arith)
  last?-In (x ∷ y ∷ ys) h = inr (last?-In (y ∷ ys) h)

  pub find-In : (p : A → Bool) (xs : List A) {b : A} → find p xs ≡ some b → In b xs × (p b ≡ true)
  find-In p [] h = absurd (ground arith)
  find-In p (x ∷ xs) {b} h = elim (Bool-cases (p x)) [
    | inl here ↦ let e : x ≡ b = ground arith in (inl (sym e), rw e at here)
    | inr out ↦ let (i, t) = find-In p xs (rw out at h) in (inr i, t)
  ]

module _ {A B : Type 0} where
  pub In-map : (f : A → B) (a : A) (xs : List A) → In a xs → In (f a) (map f xs)
  In-map f a [] i = absurd i
  In-map f a (x ∷ xs) (inl e) = inl (ap f e)
  In-map f a (x ∷ xs) (inr i) = inr (In-map f a xs i)

  pub In-map_cases :
      (f : A → B) (b : B) (xs : List A) → In b (map f xs) → (a : A) × In a xs × (b ≡ f a)
  In-map_cases f b [] i = absurd i
  In-map_cases f b (x ∷ xs) (inl e) = (x, inl refl, e)
  In-map_cases f b (x ∷ xs) (inr i) = let (a, j, e) = In-map_cases f b xs i in (a, inr j, e)
