-- ===== src/Mutation/Source/Changes.antt =====
-- The operators of `generate` (services/builder/mutation_source.py): what each of them proposes for a
-- line, and the loop over the lines. `\d` is the ten ASCII digits.
use skateboard.Prelude.{
  ℕ, suc, ◌+◌, ◌-◌, String, Bool, false, ◌&&◌, ◌||◌, not, List, [], ◌∷◌, ◌++◌, Option, some, none,
  if◌then◌else◌, nat_beq, leb, string_eq, elem, nat_eq, ◌==◌, any, length, filter, map, lookup,
}
use skateboard.Prelude.Text.{codes}
use skateboard.Region.Glob.{Text}
use skateboard.Ledger.FileSet.{text_eq}
use skateboard.Ledger.Store.Ids.{is_digit}
use skateboard.Mutation.{Mutant, aor, ror, lcr, no_delete_words}
use skateboard.Mutation.Words.{
  take, drop, flat_map, take_while, drop_while, starts, within, count, split_lines, decimal,
  value_from, Match, finditer,
}
use skateboard.Mutation.Source.{Change, Letters, Progress, emit_all, is_continued, strip_comment}

-- `_sub_at`
unfoldable pub sub_at : Text → ℕ → ℕ → Text → Text
sub_at line start stop replacement = take start line ++ replacement ++ drop stop line

-- `text[:1]` is in `allowed`
abbrev starts_in : (ℕ → Bool) → Text → Bool
starts_in allowed [] = false
starts_in allowed (c ∷ text) = allowed c

abbrev after_in : (ℕ → Bool) → Option ℕ → Bool
after_in allowed none = false
after_in allowed (some c) = allowed c

-- `[=<>/]`
abbrev relational : ℕ → Bool
relational c = elem c (b'=' ∷ b'<' ∷ b'>' ∷ b'/' ∷ [])

-- The pattern of one token: a dotted one is plain, a symbolic one stands before no `[=<>/]`, and
-- "<" and ">" also behind none.
unfoldable token_at : Text → Option ℕ → Text → Option (ℕ × Unit {0})
token_at tok before text =
    if starts tok text
      && (starts (codes ".") tok
          || (not (starts_in relational (drop (length tok) text))
              && not ((tok == codes "<" || tok == codes ">") && after_in relational before)))
    then some (length tok, tt)
    else none

abbrev pub replaced : {G : Type 0} → String → Text → Text → Match G → Change
replaced op line replacement m = record {
  op = op;
  mutated = sub_at line m.start m.stop replacement;
}

-- The loops over one table, with the line in lower case.
unfoldable token_changes : String → List (String × List String) → Text → Text → List Change
unfolding token_at
token_changes opname table low line =
    flat_map
      (λ (entry : String × List String).
        flat_map (λ (m : Match (Unit {0})). map (λ rep. replaced opname line (codes rep) m) entry.1)
          (finditer (token_at (codes entry.0)) low))
      table

-- `[A-Za-z_]`
abbrev pub letter : ℕ → Bool
letter c = (leb b'A' c && leb c b'Z') || ((leb b'a' c && leb c b'z') || nat_beq c b'_')

-- `([A-Za-z_]\w*)\s*([+-])\s*(\d+)`: the base, the sign and the number.
pub record Bound : Type 0 where
  pub base : Text
  pub sign : ℕ
  pub num : ℕ

-- What an offset is shifted to: one less, which takes it away at 1 and turns the sign at 0, and one
-- more.
unfoldable one_less : Bound → Text
unfolding decimal
one_less b =
    if nat_beq b.num 0
    then b.base ++ b' ' ∷ (if nat_beq b.sign b'-' then b'+' else b'-') ∷ b' ' ∷ decimal 1
    else if nat_beq b.num 1
    then b.base
    else b.base ++ b' ' ∷ b.sign ∷ b' ' ∷ decimal (b.num - 1)

unfoldable one_more : Bound → Text
unfolding decimal
one_more b = b.base ++ b' ' ∷ b.sign ∷ b' ' ∷ decimal (b.num + 1)

abbrev shifts : Bound → List Text
shifts b =
    if nat_beq b.sign b'-' then one_less b ∷ one_more b ∷ [] else one_more b ∷ one_less b ∷ []

-- The operator of a match of AOR with the characters around it.
pub record Operator : Type 0 where
  pub before : ℕ
  pub sign : ℕ
  pub next : ℕ

-- `[+\-*/]`
abbrev pub arithmetic : ℕ → Bool
arithmetic c = elem c (b'+' ∷ b'-' ∷ b'*' ∷ b'/' ∷ [])

-- What `continue` leaves out: a power, and the sign of an exponent.
unfoldable pub is_operator : Operator → Bool
is_operator o =
    not ((nat_beq o.sign b'*' && nat_beq o.next b'*') || nat_beq o.before b'*')
    && not (elem o.sign (codes "+-") && elem o.before (codes "eEdD"))

abbrev pub replacements : ℕ → List String
replacements sign = elim (lookup sign aor) [ none ↦ [] | some reps ↦ reps ]

module _ (l : Letters) where
  unfoldable bound_at : Option ℕ → Text → Option (ℕ × Bound)
  unfolding value_from
  bound_at before [] = none
  bound_at before (c ∷ text) =
      let base = c ∷ take_while l.word text in
      let gap = take_while l.space (drop_while l.word text) in
      let signed = drop_while l.space (drop_while l.word text) in
      let gap' = take_while l.space (drop 1 signed) in
      let num = take_while is_digit (drop_while l.space (drop 1 signed)) in
      elim (take 1 signed) [
        | [] ↦ none
        | sign ∷ _ ↦
            if letter c && (elem sign (codes "+-") && not (nat_beq (length num) 0))
            then some (
              length base + length gap + 1 + length gap' + length num,
              record { base = base; sign = sign; num = value_from 0 num },
            )
            else none
      ]

  -- `code.count("(", 0, start) > code.count(")", 0, start)`
  unfoldable in_parentheses : Text → ℕ → Bool
  in_parentheses code start =
      not (leb (count b'(' (take start code)) (count b')' (take start code)))

  unfoldable bound_changes : Text → Text → List Change
  unfolding bound_at in_parentheses one_less one_more
  bound_changes code line =
      flat_map (λ (m : Match Bound). map (λ rep. replaced "SBR" line rep m) (shifts m.group))
        (filter (λ (m : Match Bound). in_parentheses code m.start) (finditer bound_at code))

  unfoldable pub operator_at : Option ℕ → Text → Option (ℕ × Operator)
  operator_at none text = none
  operator_at (some before) [] = none
  operator_at (some before) (c ∷ []) = none
  operator_at (some before) (c ∷ next ∷ text) =
      if (l.word before || (nat_beq before b')' || l.space before))
        && (arithmetic c && (l.space next || (l.word next || nat_beq next b'(')))
      then some (1, record { before = before; sign = c; next = next })
      else none

  unfoldable pub operator_changes : Text → Text → List Change
  unfolding operator_at is_operator
  operator_changes code line =
      flat_map
        (λ (m : Match Operator).
          map (λ rep. replaced "AOR" line (codes rep) m) (replacements m.group.sign))
        (filter (λ (m : Match Operator). is_operator m.group) (finditer operator_at code))

  -- `\w` or a dot
  abbrev in_number : ℕ → Bool
  in_number c = l.word c || nat_beq c b'.'

  -- The number that a text starts with: digits, and a dot with the digits after it.
  unfoldable number_of : Text → Text
  number_of text =
      let whole = take_while is_digit text in
      let rest = drop_while is_digit text in
      let part = take_while is_digit (drop 1 rest) in
      if starts (codes ".") rest && not (nat_beq (length whole + length part) 0)
      then whole ++ b'.' ∷ part
      else whole

  -- `(?<![\w.])(\d+\.\d*|\.\d+|\d+)(?![\w.])`
  unfoldable number_at : Option ℕ → Text → Option (ℕ × Text)
  unfolding number_of
  number_at before text =
      let lit = number_of text in
      if not (after_in in_number before)
        && (not (nat_beq (length lit) 0) && not (starts_in in_number (drop (length lit) text)))
      then some (length lit, lit)
      else none

  -- `str(v - 1)`
  abbrev less_one : ℕ → Text
  less_one n = if nat_beq n 0 then codes "-1" else decimal (n - 1)

  unfoldable constants : Text → List Text
  unfolding decimal value_from
  constants lit =
      if elem b'.' lit
      then l.doubled lit ∷ l.halved lit ∷ codes "0.0" ∷ []
      else decimal (value_from 0 lit + 1) ∷ less_one (value_from 0 lit) ∷ []

  unfoldable constant_changes : Text → Text → List Change
  unfolding number_at constants
  constant_changes code line =
      flat_map
        (λ (m : Match Text).
          map (λ rep. replaced "CRP" line rep m)
            (filter (λ rep. not (rep == m.group)) (constants m.group)))
        (finditer number_at code)

  -- `_NO_DELETE.match(line)`
  unfoldable is_scaffolding : Text → Bool
  is_scaffolding line =
      let text = l.lower (drop_while l.space line) in
      starts (codes "!") text
      || any
          (λ word.
            starts (codes word) text && not (starts_in l.word (drop (length (codes word)) text)))
          no_delete_words

  -- `[\w%\(\):,\s+\-*/]`
  abbrev left_side : ℕ → Bool
  left_side c = l.word c || (l.space c || elem c (codes "%():,+-*/"))

  -- `^\s*[\w%]+[\w%\(\):,\s+\-*/]*=[^=]`
  unfoldable is_assignment : Text → Bool
  is_assignment code =
      let text = drop_while l.space code in
      let rest = drop_while left_side text in
      starts_in (λ c. l.word c || nat_beq c b'%') text
      && (starts (codes "=") rest && starts_in (λ c. not (nat_beq c b'=')) (drop 1 rest))

  unfoldable deletion_changes : List Text → Text → Text → List Change
  unfolding is_scaffolding is_assignment is_continued
  deletion_changes before code line =
      if not (is_scaffolding line) && (not (is_continued l before line) && is_assignment code)
      then record { op = "SDL"; mutated = codes "! [mutant: statement deleted] " ++ line } ∷ []
      else []

  -- One round of the loop over the lines.
  unfoldable pub line_changes : List Text → Text → List Change
  unfolding strip_comment token_changes bound_changes operator_changes constant_changes
      deletion_changes
  line_changes before line =
      let code = strip_comment line in
      let low = l.lower code in
      if nat_beq (length (drop_while l.space code)) 0
      then []
      else token_changes "ROR" ror low line
        ++ token_changes "LCR" lcr low line
        ++ (if not (elem b'=' code) || within (codes "::") code
            then []
            else bound_changes code line
              ++ operator_changes code line
              ++ constant_changes code line
              ++ deletion_changes before code line)

  -- The loop, from the line `i` on, with the lines before it, the nearest first.
  unfoldable pub generate_from : Text → List Text → ℕ → List Text → Progress → Progress
  unfolding line_changes emit_all
  generate_from fname before i [] p = p
  generate_from fname before i (line ∷ lines) p =
      generate_from fname (line ∷ before) (suc i) lines
        (emit_all fname i line (line_changes before line) p)

  -- `generate`
  unfoldable pub generate : Text → Text → List Mutant
  unfolding generate_from split_lines
  generate text fname =
      (generate_from fname [] 0 (split_lines text) (record { out = []; seen = [] })).out
