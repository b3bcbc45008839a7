-- ===== src/Prelude/Equality.antt =====
-- Python's `==` and `in` as an interface, with an instance for each type that is compared.
use Prim.Native.String.{String}
use Prim.Native.Nat.{ℕ}
use mathlib.Core.Path.{◌≡◌, refl}
use mathlib.Core.Logic.{◌↔◌, inl, inr}
use mathlib.Core.Bool.{Bool, true, false, ◌&&◌, ◌||◌}
use mathlib.Core.List.{List, [], ◌∷◌}
use mathlib.Core.Option.{Option, none, some}
use native.Mathlib.Omega.{arith}
use text.Mathlib.Text.{◌==◌ as str_eq}
use text.Mathlib.TextEquality.{eq_iff}
use skateboard.Prelude.Tests.{nat_beq, nat_beq_iff, Bool-cases, if◌then◌else◌}
use skateboard.Prelude.Lists.{In, filter, In-filter, In-filter_of}

-- A Boolean test that decides equality.
pub record Eq {ℓ} (A : Type ℓ) : Type ℓ where
  pub beq : A → A → Bool
  pub beq_iff : (x y : A) → beq x y ≡ true ↔ x ≡ y

instance abbrev pub string_eq : Eq String
string_eq = record { beq_iff = eq_iff; beq = str_eq }

instance abbrev pub nat_eq : Eq ℕ
nat_eq = record { beq_iff = nat_beq_iff; beq = nat_beq }

module _ {ℓ} {A : Type ℓ} where
  infix 50 ◌==◌
  abbrev pub ◌==◌ : ⦃test : Eq A⦄ → A → A → Bool
  ◌==◌ ⦃test⦄ x y = test.beq x y

module _ {A : Type 0} ⦃e : Eq A⦄ where
  abbrev pub elem : A → List A → Bool
  elem a [] = false
  elem a (x ∷ xs) = a == x || elem a xs

  pub ==-refl : (a : A) → (a == a) ≡ true
  ==-refl a = (e.beq_iff a a).1 refl

  pub elem-In : (a : A) (xs : List A) → elem a xs ≡ true → In a xs
  elem-In a [] h = absurd (ground arith)
  elem-In a (x ∷ xs) h = elim (Bool-cases (a == x)) [
    | inl here ↦ inl ((e.beq_iff a x).0 here)
    | inr out ↦ inr (elem-In a xs (ground arith))
  ]

  pub elem_of_In : (a : A) (xs : List A) → In a xs → elem a xs ≡ true
  elem_of_In a [] i = absurd i
  elem_of_In a (x ∷ xs) (inl p) = ground (arith, (e.beq_iff a x).1 p)
  elem_of_In a (x ∷ xs) (inr i) = ground (arith, elem_of_In a xs i)

  -- `set(xs)` has as many members as `xs`.
  abbrev pub distinct : List A → Bool
  distinct [] = true
  distinct (x ∷ xs) = (if elem x xs then false else true) && distinct xs

  -- `dict.fromkeys(xs)`: each member once, where it stands first.
  abbrev pub unique : List A → List A
  unique [] = []
  unique (x ∷ xs) = x ∷ filter (λ y. if y == x then false else true) (unique xs)

  pub In-unique : (a : A) (xs : List A) → In a (unique xs) → In a xs
  In-unique a [] i = absurd i
  In-unique a (x ∷ xs) (inl p) = inl p
  In-unique a (x ∷ xs) (inr i) = inr (In-unique a xs (In-filter _ a (unique xs) i).0)

  pub In-unique_of : (a : A) (xs : List A) → In a xs → In a (unique xs)
  In-unique_of a [] i = absurd i
  In-unique_of a (x ∷ xs) (inl p) = inl p
  In-unique_of a (x ∷ xs) (inr i) = elim (Bool-cases (a == x)) [
    | inl same ↦ inl ((e.beq_iff a x).0 same)
    | inr other ↦ inr (In-filter_of _ a (unique xs) (In-unique_of a xs i) (rw other refl))
  ]

-- A dictionary as a list of entries; a later binding of a key stands later and wins in `dict_get`.
module _ {K V : Type 0} ⦃e : Eq K⦄ where
  abbrev pub lookup : K → List (K × V) → Option V
  lookup k [] = none
  lookup k ((j, v) ∷ m) = let rest = lookup k m in if k == j then some v else rest

  -- `m[k] = v`: in place if the key is there, at the end if not.
  abbrev pub put : K → V → List (K × V) → List (K × V)
  put k v [] = (k, v) ∷ []
  put k v ((j, w) ∷ m) = let rest = put k v m in if k == j then (j, v) ∷ m else (j, w) ∷ rest

  pub lookup-In : (k : K) (m : List (K × V)) {w : V} → lookup k m ≡ some w → In (k, w) m
  lookup-In k [] h = absurd (ground arith)
  lookup-In k ((j, u) ∷ m) {w} h = elim (Bool-cases (k == j)) [
    | inl here ↦ inl (pair ((e.beq_iff k j).0 here) (ground arith))
    | inr out ↦ inr (lookup-In k m (rw out at h))
  ]
    where
      pair : k ≡ j → w ≡ u → ◌≡◌ {A = K × V} (k, w) (j, u)
      pair p q = λ i. (p i, q i)
