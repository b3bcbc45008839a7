-- ===== src/Mutation/Source/Masked.antt =====
-- What `_strip_comment` of services/builder/mutation_source.py leaves of a line, and what the
-- arithmetic operator replacement makes of it.
use skateboard.Prelude.{
  ℕ, zero, suc, String, Bool, true, false, [], ◌∷◌, ◌++◌, Option, some, none, In, In-filter,
  In-map_cases, inl, inr, ◌⊎◌, Bool-cases, if◌then◌else◌, nat_beq, nat_eq, string_eq, ◌≡◌, ◌≢◌,
  refl, sym, ap, subst, ◌∙◌, arith, filter, and-true_iff, map, length,
}
use skateboard.Prelude.Text.{codes}
use skateboard.Region.Glob.{Text}
use skateboard.Mutation.Words.{take, drop, Match, finditer}
use skateboard.Mutation.Words.Matches.{
  length-take, In-flat_map, take-drop_one, StandsAt, scan-StandsAt,
}
use skateboard.Mutation.Source.Outside.{is_quote, IsOutside, head_eq, strip_from-Rest}
use skateboard.Mutation.Source.{
  Change, Letters, strip_from, strip_comment, shown, next_quote, ends_code,
}
use skateboard.Mutation.Source.Changes.{
  sub_at, replaced, Operator, arithmetic, is_operator, replacements, operator_at, operator_changes,
}

-- The code stands where it stands in the line, except that a blank may hide a character.
abbrev IsMask : Text → Text → Type 0
IsMask [] line = Unit {0}
IsMask (c ∷ code) [] = ⊥
IsMask (c ∷ code) (d ∷ line) = ((c ≡ d) ⊎ (c ≡ b' ')) × IsMask code line

shown-eq : (quote : Option ℕ) (c : ℕ) → (shown quote c ≡ c) ⊎ (shown quote c ≡ b' ')
shown-eq none c = inl refl
shown-eq (some q) c = elim (Bool-cases (nat_beq c q)) [
  | inl t ↦ inl (rw t refl)
  | inr t ↦ inr (rw t refl)
]

strip_from-IsMask : (quote : Option ℕ) (line : Text) → IsMask (strip_from quote line) line
unfolding strip_from
strip_from-IsMask quote [] = tt
strip_from-IsMask quote (c ∷ line) = elim (Bool-cases (ends_code quote c)) [
  | inl t ↦ rw t tt
  | inr t ↦ rw t (shown-eq quote c, strip_from-IsMask (next_quote quote c) line)
]

drop-IsMask :
    (n : ℕ) (code line : Text) (c : ℕ) (rest : Text)
    → IsMask code line
    → drop n code ≡ c ∷ rest
    → c ≢ b' '
    → (after : Text) × (drop n line ≡ c ∷ after)
drop-IsMask zero [] line c rest m h out = absurd (ground arith)
drop-IsMask (suc n) [] line c rest m h out = absurd (ground arith)
drop-IsMask n (d ∷ code) [] c rest m h out = absurd m
drop-IsMask zero (d ∷ code) (e ∷ line) c rest (inl same, m) h out =
    (line, ap (λ x. x ∷ line) (sym same ∙ head_eq d c code rest h))
drop-IsMask zero (d ∷ code) (e ∷ line) c rest (inr blank, m) h out =
    absurd (out (sym (head_eq d c code rest h) ∙ blank))
drop-IsMask (suc n) (d ∷ code) (e ∷ line) c rest (same, m) h out =
    drop-IsMask n code line c rest m h out

taken :
    {A : Type 0} (b : Bool) (x y : A) → (if b then some x else none) ≡ some y → (b ≡ true) × (x ≡ y)
taken true x y h = (refl, ground arith)
taken false x y h = absurd (ground arith)

no_blank : (c : ℕ) → arithmetic c ≡ true → c ≢ b' '
no_blank c t e = let t' : arithmetic b' ' ≡ true = rw e at t in absurd (ground arith)

no_quote : (c : ℕ) → arithmetic c ≡ true → is_quote c ≡ false
no_quote c t = ground arith

module _ (l : Letters) where
  operator_at-inv :
      (before : Option ℕ) (text : Text) (n : ℕ) (o : Operator)
      → operator_at l before text ≡ some (n, o)
      → (rest : Text) × (text ≡ o.sign ∷ rest) × (n ≡ 1) × (arithmetic o.sign ≡ true)
  unfolding operator_at
  operator_at-inv none text n o h = absurd (ground arith)
  operator_at-inv (some b) [] n o h = absurd (ground arith)
  operator_at-inv (some b) (c ∷ []) n o h = absurd (ground arith)
  operator_at-inv (some b) (c ∷ d ∷ text) n o h =
      let (t, e) = taken _ _ (n, o) h in
      let sign : c ≡ o.sign = ap (λ (p : ℕ × Operator). p.1.sign) e in
      let (_, t') = (and-true_iff _ _).0 t in
      let (t'', _) = (and-true_iff _ _).0 t' in
      (
        d ∷ text,
        ap (λ x. x ∷ d ∷ text) sign,
        sym (ap (λ (p : ℕ × Operator). p.0) e),
        subst (λ x. arithmetic x ≡ true) sign t'',
      )

  -- One operator of the line for another one. In the line read by itself it stands outside the
  -- literals and the comment.
  pub record ReplacesOne (line : Text) (change : Change) : Type 0 where
    pub before : Text
    pub sign : ℕ
    pub after : Text
    pub replacement : String
    pub line_eq : line ≡ before ++ sign ∷ after
    pub mutated_eq : change.mutated ≡ before ++ codes replacement ++ after
    pub code : Text
    pub in_code : drop (length before) (strip_comment line) ≡ sign ∷ code
    pub outside : IsOutside before
    pub arithmetic_sign : arithmetic sign ≡ true
    pub offered : In replacement (replacements sign)

  replaced-ReplacesOne :
      (line : Text) (m : Match Operator) (rep : String)
      → StandsAt (operator_at l) (strip_comment line) 0 m
      → In rep (replacements m.group.sign)
      → ReplacesOne line (replaced "AOR" line (codes rep) m)
  unfolding sub_at strip_comment
  replaced-ReplacesOne line m rep s i =
      let (rest, here, one, arith_sign) = operator_at-inv s.before _ s.size m.group s.holds in
      let (after, there) =
        drop-IsMask s.place (strip_comment line) line m.group.sign rest
          (strip_from-IsMask none line) here (no_blank m.group.sign arith_sign) in
      let (parts, next) = take-drop_one s.place line m.group.sign after there in
      let start : m.start ≡ s.place = s.start ∙ omega arith in
      let stop : m.stop ≡ suc s.place = s.stop ∙ omega (arith, start, one) in
      record {
        before = take s.place line;
        sign = m.group.sign;
        after = after;
        replacement = rep;
        line_eq = parts;
        mutated_eq = rw (start, stop, next) refl;
        code = rest;
        in_code = rw (length-take s.place line m.group.sign after there) here;
        outside =
            strip_from-Rest s.place none line m.group.sign rest here
              (no_blank m.group.sign arith_sign) (no_quote m.group.sign arith_sign)
              (λ q bad. absurd (ground arith));
        arithmetic_sign = arith_sign;
        offered = i;
      }

  -- Each change that the arithmetic operator replacement proposes for a line leaves the line as it
  -- is but for one place: there an arithmetic operator of the stripped line gives way to one of
  -- those that the table has for it. Before that place the line consists of complete character
  -- literals and of characters that are neither a quote nor the start of a comment, so that in the
  -- line read by itself the operator is in no literal and in no comment; a literal that was opened
  -- on an earlier line is not seen.
  pub operator_changes-ReplacesOne :
      (line : Text) (change : Change)
      → In change (operator_changes l (strip_comment line) line)
      → ReplacesOne line change
  unfolding operator_changes
  operator_changes-ReplacesOne line change i =
      let (m, j, k) =
        In-flat_map
          (λ (m : Match Operator).
            map (λ rep. replaced "AOR" line (codes rep) m) (replacements m.group.sign))
          change
          (filter (λ (m : Match Operator). is_operator m.group)
            (finditer (operator_at l) (strip_comment line)))
          i in
      let (here, _) =
        In-filter (λ (m : Match Operator). is_operator m.group) m
          (finditer (operator_at l) (strip_comment line)) j in
      let (rep, n, e) =
        In-map_cases (λ rep. replaced "AOR" line (codes rep) m) change (replacements m.group.sign)
          k in
      subst (ReplacesOne line) (sym e) (
        replaced-ReplacesOne line m rep
          (scan-StandsAt (operator_at l) none 0 0 (strip_comment line) m here) n)
