-- ===== src/Errors.antt =====
-- Python exceptions as values: the class that is raised and a word for the site that raises it.
-- The wording of a message is not modelled.
use skateboard.Prelude.{
  In, ap, subst, sym, ◌∙◌, arith, ℕ, String, List, [], ◌∷◌, ◌≡◌, refl, Bool, true, false, ◌⊎◌, inl,
  inr,
}

pub data Error : Type 0 where
  value_error key_error type_error attribute_error runtime_error : String → Error
  -- components/errors.py: a check that reached no verdict
  component_error : String → Error
  -- gateway/errors.py: an HTTP status and its reason
  gateway_error : ℕ → String → Error

pub data Result {ℓ} (A : Type ℓ) : Type ℓ where
  ok : A → Result A
  raise : Error → Result A

module _ {ℓ κ} {A : Type ℓ} {B : Type κ} where
  infixl 5 ◌>>=◌ ◌>>◌
  -- An exception passes the rest of the block by.
  abbrev pub ◌>>=◌ : Result A → (A → Result B) → Result B
  raise why >>= rest = raise why
  ok value >>= rest = rest value

  pub >>=-eq-ok :
      (r : Result A) (rest : A → Result B) {y : B}
      → r >>= rest ≡ ok y
      → (x : A) × (r ≡ ok x) × (rest x ≡ ok y)
  >>=-eq-ok (raise why) rest h = cc
  >>=-eq-ok (ok x) rest h = (x, refl, h)

  abbrev pub ◌>>◌ : Result A → Result B → Result B
  first >> second = first >>= λ _. second

-- `if not test: raise e`
abbrev pub ensure : Bool → Error → Result (Unit {0})
ensure true e = ok tt
ensure false e = raise e

-- A comprehension whose element may raise.
abbrev pub traverse : {A B : Type 0} → (A → Result B) → List A → Result (List B)
traverse f [] = ok []
traverse f (x ∷ xs) = f x >>= λ y. traverse f xs >>= λ ys. ok (y ∷ ys)

pub ensure-eq-ok : (b : Bool) (e : Error) {u : Unit {0}} → ensure b e ≡ ok u → b ≡ true
ensure-eq-ok true e h = refl
ensure-eq-ok false e h = cc

pub Result-cases {ℓ} :
    {A : Type ℓ} (r : Result A) → ((a : A) × (r ≡ ok a)) ⊎ ((e : Error) × (r ≡ raise e))
Result-cases (ok a) = inl (a, refl)
Result-cases (raise e) = inr (e, refl)

-- What a comprehension answers with is what its element answered, for each and from each.
module _ {A B : Type 0} where
  pub traverse-In :
      (g : A → Result B) (xs : List A) {ys : List B}
      → traverse g xs ≡ ok ys
      → (x : A) → In x xs
      → (y : B) × In y ys × (g x ≡ ok y)
  traverse-In g [] h x i = absurd i
  traverse-In g (a ∷ xs) {ys} h x i =
      let (b, e, h') = >>=-eq-ok (g a) _ h in
      let (bs, e', h'') = >>=-eq-ok (traverse g xs) _ h' in
      let made : b ∷ bs ≡ ys = ground arith in
      elim i [
        | inl same ↦ (b, subst (In b) made (inl refl), ap g same ∙ e)
        | inr later ↦
            let (y, j, q) = traverse-In g xs e' x later in (y, subst (In y) made (inr j), q)
      ]

  pub traverse-In_of :
      (g : A → Result B) (xs : List A) {ys : List B}
      → traverse g xs ≡ ok ys
      → (y : B) → In y ys
      → (x : A) × In x xs × (g x ≡ ok y)
  traverse-In_of g [] {ys} h y i = let e : [] ≡ ys = ground arith in absurd (rw (← e) at i)
  traverse-In_of g (a ∷ xs) {ys} h y i =
      let (b, e, h') = >>=-eq-ok (g a) _ h in
      let (bs, e', h'') = >>=-eq-ok (traverse g xs) _ h' in
      let made : b ∷ bs ≡ ys = ground arith in
      let i' : In y (b ∷ bs) = subst (In y) (sym made) i in
      elim i' [
        | inl same ↦ (a, inl refl, e ∙ ap ok (sym same))
        | inr later ↦ let (x, j, q) = traverse-In_of g xs e' y later in (x, inr j, q)
      ]

pub ok_injective : {A : Type 0} {x y : A} → ◌≡◌ {A = Result A} (ok x) (ok y) → x ≡ y
ok_injective {A} {x} {y} e = ap (λ r. value r) e
  where
    value : Result A → A
    value (ok z) = z
    value (raise why) = x
