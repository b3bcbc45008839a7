-- ===== src/Mutation/Source/Outside.antt =====
-- Which part of a line `_strip_comment` of services/builder/mutation_source.py reads as code: what
-- stands outside the character literals and before the comment.
use skateboard.Prelude.{
  ℕ, zero, suc, Bool, true, false, [], ◌∷◌, ◌++◌, Option, some, none, inl, inr, Bool-cases, nat_beq,
  nat_eq, string_eq, elem, ◌&&◌, ◌||◌, not, ◌≡◌, ◌≢◌, refl, sym, ap, subst, ◌∙◌, arith,
}
use skateboard.Region.Glob.{Text}
use skateboard.Mutation.Words.{take, drop}
use skateboard.Mutation.Source.{strip_from, shown, next_quote, ends_code}

pub head_eq : (d c : ℕ) (code rest : Text) → d ∷ code ≡ c ∷ rest → d ≡ c
head_eq d c code rest h = ground arith

abbrev pub is_quote : ℕ → Bool
is_quote c = nat_beq c b'\'' || nat_beq c b'"'

abbrev pub is_plain : ℕ → Bool
is_plain c = not (nat_beq c b'!') && not (is_quote c)

-- Text of a line after which neither a literal nor a comment is open: characters that open neither,
-- and complete character literals.
pub data IsOutside : Text → Type 0 where
  done : IsOutside []
  plain : (c : ℕ) (text : Text) → is_plain c ≡ true → IsOutside text → IsOutside (c ∷ text)
  literal :
      (q : ℕ) (body text : Text)
      → is_quote q ≡ true
      → elem q body ≡ false
      → IsOutside text
      → IsOutside (q ∷ (body ++ q ∷ text))

-- Where the line is read inside a literal: the rest of the literal comes first.
abbrev pub Rest : Option ℕ → Text → Type 0
Rest none text = IsOutside text
Rest (some q) text =
    (body : Text) × (after : Text) × (text ≡ body ++ q ∷ after)
    × (elem q body ≡ false)
    × IsOutside after

more_body :
    (c q : ℕ) (body : Text) → nat_beq c q ≡ false → elem q body ≡ false → elem q (c ∷ body) ≡ false
more_body c q body other inside = ground (arith, other, inside)

next-Rest :
    (quote : Option ℕ) (c : ℕ) (text : Text)
    → ends_code quote c ≡ false
    → Rest (next_quote quote c) text
    → Rest quote (c ∷ text)
next-Rest none c text here rest = elim (Bool-cases (is_quote c)) [
  | inl t ↦
      let (body, after, e, inside, outside) : Rest (some c) text = rw t at rest in
      subst IsOutside (ap (λ x. c ∷ x) (sym e)) (IsOutside.literal c body after t inside outside)
  | inr t ↦
      let outside : IsOutside text = rw t at rest in
      IsOutside.plain c text (rw (here, t) refl) outside
]
next-Rest (some q) c text here rest = elim (Bool-cases (nat_beq c q)) [
  | inl t ↦
      let outside : IsOutside text = rw t at rest in
      ([], text, ap (λ x. x ∷ text) ((nat_eq.beq_iff c q).0 t), refl, outside)
  | inr t ↦
      let (body, after, e, inside, outside) : Rest (some q) text = rw t at rest in
      (c ∷ body, after, ap (λ x. c ∷ x) e, more_body c q body t inside, outside)
]

-- Only a quote opens a literal.
abbrev pub IsOpened : Option ℕ → Type 0
IsOpened quote = (q : ℕ) → quote ≡ some q → is_quote q ≡ true

next_quote-IsOpened : (quote : Option ℕ) (c : ℕ) → IsOpened quote → IsOpened (next_quote quote c)
next_quote-IsOpened none c opened q h = elim (Bool-cases (is_quote c)) [
  | inl t ↦
      let e : some c ≡ some q = rw t at h in
      let same : c ≡ q = ground arith in subst (λ x. is_quote x ≡ true) same t
  | inr t ↦ absurd (let e : none ≡ some q = rw t at h in ground arith)
]
next_quote-IsOpened (some p) c opened q h = elim (Bool-cases (nat_beq c p)) [
  | inl t ↦ absurd (let e : none ≡ some q = rw t at h in ground arith)
  | inr t ↦ opened q (rw t at h)
]

first-Rest :
    (quote : Option ℕ) (d c : ℕ)
    → shown quote d ≡ c
    → c ≢ b' '
    → is_quote c ≡ false
    → IsOpened quote
    → Rest quote []
first-Rest none d c h blank unquoted opened = IsOutside.done
first-Rest (some q) d c h blank unquoted opened = elim (Bool-cases (nat_beq d q)) [
  | inl t ↦
      let same : d ≡ c = rw t at h in
      absurd (
        let is_q : is_quote q ≡ true = opened q refl in
        let q_is : c ≡ q = sym same ∙ (nat_eq.beq_iff d q).0 t in
        let bad : is_quote q ≡ false = subst (λ x. is_quote x ≡ false) q_is unquoted in
        ground arith)
  | inr t ↦ absurd (blank (sym (let e : b' ' ≡ c = rw t at h in e)))
]

-- A character of the code that is no blank and no quote stands outside the literals and the comment.
pub strip_from-Rest :
    (n : ℕ) (quote : Option ℕ) (line : Text) (c : ℕ) (rest : Text)
    → drop n (strip_from quote line) ≡ c ∷ rest
    → c ≢ b' '
    → is_quote c ≡ false
    → IsOpened quote
    → Rest quote (take n line)
unfolding strip_from
strip_from-Rest zero quote [] c rest h blank unquoted opened = absurd (ground arith)
strip_from-Rest (suc n) quote [] c rest h blank unquoted opened = absurd (ground arith)
strip_from-Rest zero quote (d ∷ line) c rest h blank unquoted opened =
    elim (Bool-cases (ends_code quote d)) [
      | inl t ↦ absurd (let e : ◌≡◌ {A = Text} [] (c ∷ rest) = rw t at h in ground arith)
      | inr t ↦
          let e : shown quote d ∷ strip_from (next_quote quote d) line ≡ c ∷ rest = rw t at h in
          first-Rest quote d c (head_eq _ _ _ _ e) blank unquoted opened
    ]
strip_from-Rest (suc n) quote (d ∷ line) c rest h blank unquoted opened =
    elim (Bool-cases (ends_code quote d)) [
      | inl t ↦ absurd (let e : ◌≡◌ {A = Text} [] (c ∷ rest) = rw t at h in ground arith)
      | inr t ↦ next-Rest quote d (take n line) t (
          strip_from-Rest n (next_quote quote d) line c rest (rw t at h) blank unquoted
            (next_quote-IsOpened quote d opened))
    ]
