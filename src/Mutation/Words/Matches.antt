-- ===== src/Mutation/Words/Matches.antt =====
-- Where the matches of a pattern stand, and the places of a text.
use skateboard.Prelude.{
  ◌⊎◌, length, In-append_cases, ℕ, zero, suc, ◌+◌, List, [], ◌∷◌, ◌++◌, Option, some, In, inl, inr,
  Option-cases, ◌≡◌, refl, sym, ap, ◌∙◌, arith,
}
use skateboard.Region.Glob.{Text}
use skateboard.Mutation.Words.{get_elem?, take, drop, flat_map, Match, scan}

module _ {A B : Type 0} where
  pub In-flat_map :
      (f : B → List A) (a : A) (bs : List B) → In a (flat_map f bs) → (b : B) × In b bs × In a (f b)
  In-flat_map f a [] i = absurd i
  In-flat_map f a (b ∷ bs) i = elim (In-append_cases a (f b) (flat_map f bs) i) [
    | inl here ↦ (b, inl refl, here)
    | inr later ↦ let (c, j, k) = In-flat_map f a bs later in (c, inr j, k)
  ]

module _ {A : Type 0} where
  -- A text around one of its places.
  pub take-drop_one :
      (n : ℕ) (xs : List A) (x : A) (rest : List A)
      → drop n xs ≡ x ∷ rest
      → (xs ≡ take n xs ++ x ∷ rest) × (drop (suc n) xs ≡ rest)
  take-drop_one zero [] x rest h = absurd (ground arith)
  take-drop_one zero (y ∷ xs) x rest h = (h, ap (λ zs. drop 1 zs) h)
  take-drop_one (suc n) [] x rest h = absurd (ground arith)
  take-drop_one (suc n) (y ∷ xs) x rest h =
      let (e, e') = take-drop_one n xs x rest h in (ap (λ zs. y ∷ zs) e, e')

  pub length-take :
      (n : ℕ) (xs : List A) (x : A) (rest : List A) → drop n xs ≡ x ∷ rest → length (take n xs) ≡ n
  length-take zero xs x rest h = refl
  length-take (suc n) [] x rest h = absurd (ground arith)
  length-take (suc n) (y ∷ xs) x rest h = ap suc (length-take n xs x rest h)

  some_eq : (y x : A) → some y ≡ some x → x ≡ y
  some_eq y x h = ground arith

  pub get_elem?-append_one :
      (xs : List A) (y : A) (n : ℕ) (x : A)
      → get_elem? (xs ++ y ∷ []) n ≡ some x
      → (get_elem? xs n ≡ some x) ⊎ ((n ≡ length xs) × (x ≡ y))
  get_elem?-append_one [] y zero x h = inr (refl, some_eq y x h)
  get_elem?-append_one [] y (suc n) x h = absurd (ground arith)
  get_elem?-append_one (z ∷ xs) y zero x h = inl h
  get_elem?-append_one (z ∷ xs) y (suc n) x h = elim (get_elem?-append_one xs y n x h) [
    | inl old ↦ inl old
    | inr (e, e') ↦ inr (ap suc e, e')
  ]

  pub get_elem?-In : (xs : List A) (n : ℕ) (x : A) → get_elem? xs n ≡ some x → In x xs
  get_elem?-In [] n x h = absurd (ground arith)
  get_elem?-In (y ∷ xs) zero x h = inl (some_eq y x h)
  get_elem?-In (y ∷ xs) (suc n) x h = inr (get_elem?-In xs n x h)

-- What stands at a match: the pattern holds of the text from there on.
pub record StandsAt {G : Type 0} (here : Option ℕ → Text → Option (ℕ × G)) (text : Text)
    (offset : ℕ) (m : Match G) : Type 0 where
  pub place : ℕ
  pub start : m.start ≡ offset + place
  pub before : Option ℕ
  pub size : ℕ
  pub stop : m.stop ≡ m.start + size
  pub holds : here before (drop place text) ≡ some (size, m.group)

module _ {G : Type 0} (here : Option ℕ → Text → Option (ℕ × G)) where
  next_place :
      (c : ℕ) (text : Text) (pos : ℕ) (m : Match G)
      → StandsAt here text (suc pos) m
      → StandsAt here (c ∷ text) pos m
  next_place c text pos m s = record {
    place = suc s.place;
    start = s.start ∙ omega arith;
    before = s.before;
    size = s.size;
    stop = s.stop;
    holds = s.holds;
  }

  pub scan-StandsAt :
      (before : Option ℕ) (pos skip : ℕ) (text : Text) (m : Match G)
      → In m (scan here before pos skip text)
      → StandsAt here text pos m
  unfolding scan
  scan-StandsAt before pos skip [] m i = absurd i
  scan-StandsAt before pos (suc skip) (c ∷ text) m i =
      next_place c text pos m (scan-StandsAt (some c) (suc pos) skip text m i)
  scan-StandsAt before pos zero (c ∷ text) m i = elim (Option-cases (here before (c ∷ text))) [
    | inl n ↦
        next_place c text pos m (scan-StandsAt (some c) (suc pos) _ text m (rw (n, scan) at i))
    | inr ((n, g), e) ↦ elim (rw (e, scan) at i) [
      | inl same ↦ record {
        place = 0;
        start = ap (λ (x : Match G). x.start) same ∙ omega arith;
        before = before;
        size = n;
        stop =
            ap (λ (x : Match G). x.stop) same
            ∙ ap (λ k. k + n) (sym (ap (λ (x : Match G). x.start) same));
        holds = e ∙ ap (λ (x : Match G). some (n, x.group)) (sym same);
      }
      | inr later ↦ next_place c text pos m (scan-StandsAt (some c) (suc pos) _ text m later)
    ]
  ]
