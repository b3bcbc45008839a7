-- ===== src/Mutation/Source.antt =====
-- `generate` of services/builder/mutation_source.py and its helpers, on one file. The patterns are
-- written out as what they match; `\s`, `\w` and `str.lower` are the standard library's, and so is
-- the arithmetic of the two values that a real constant is changed to.
pub mod Changes
pub mod Outside
pub mod Masked
pub mod Collected
pub mod Emitted
pub mod Rounds
pub mod Generated
use skateboard.Prelude.{
  ℕ, zero, suc, ◌+◌, ◌-◌, String, Bool, true, false, ◌&&◌, ◌||◌, not, List, [], ◌∷◌, ◌++◌, Option,
  some, none, if◌then◌else◌, nat_beq, leb, string_eq, elem, nat_eq, ◌==◌, last?, any, length,
  filter, map, is_some,
}
use skateboard.Prelude.Text.{codes}
use skateboard.Region.Glob.{Text}
use skateboard.Ledger.FileSet.{text_eq}
use skateboard.Mutation.{Mutant, Status}
use skateboard.Mutation.Words.{drop_while, split_lines, padded}

-- `_strip_comment`: whether a quote is open after a character.
abbrev pub next_quote : Option ℕ → ℕ → Option ℕ
next_quote none ch = if nat_beq ch b'\'' || nat_beq ch b'"' then some ch else none
next_quote (some quote) ch = if nat_beq ch quote then none else some quote

abbrev pub shown : Option ℕ → ℕ → ℕ
shown none ch = ch
shown (some quote) ch = if nat_beq ch quote then ch else b' '

abbrev pub ends_code : Option ℕ → ℕ → Bool
ends_code none ch = nat_beq ch b'!'
ends_code (some quote) ch = false

unfoldable pub strip_from : Option ℕ → Text → Text
strip_from quote [] = []
strip_from quote (ch ∷ rest) =
    let after = strip_from (next_quote quote ch) rest in
    if ends_code quote ch then [] else shown quote ch ∷ after

-- `_strip_comment`
unfoldable pub strip_comment : Text → Text
unfolding strip_from
strip_comment line = strip_from none line

-- The last part of a path.
unfoldable base_name : Text → Text → Text
base_name name [] = name
base_name name (c ∷ path) =
    if nat_beq c b'/' || nat_beq c b'\\' then base_name [] path else base_name (name ++ c ∷ []) path

-- `name.rsplit(".", 1)[0]`, and the name where it has no dot.
abbrev before_dot : Text → Option Text
before_dot [] = none
before_dot (c ∷ name) = elim (before_dot name) [
  | some stem ↦ some (c ∷ stem)
  | none ↦ if nat_beq c b'.' then some [] else none
]

-- `_stem`
unfoldable pub stem : Text → Text
unfolding base_name
stem path = elim (before_dot (base_name [] path)) [ some name ↦ name | none ↦ base_name [] path ]

-- One change that the operators propose for a line.
pub record Change : Type 0 where
  pub op : String
  pub mutated : Text

pub record Letters : Type 0 where
  pub space : ℕ → Bool
  pub word : ℕ → Bool
  pub lower : Text → Text
  -- `f"{float(lit) * 2:g}"` and `f"{float(lit) / 2:g}"`
  pub doubled : Text → Text
  pub halved : Text → Text

module _ (l : Letters) where
  -- `text.rstrip().endswith("&")` is about the last character that is no space.
  abbrev last_shown : Text → Option ℕ
  last_shown text = last? (filter (λ c. not (l.space c)) text)

  -- The loop of `_is_continued` over the lines before, the nearest first.
  unfoldable is_after_continued : List Text → Bool
  unfolding strip_comment
  is_after_continued [] = false
  is_after_continued (line ∷ before) =
      let earlier = is_after_continued before in
      elim (last_shown (strip_comment line)) [ none ↦ earlier | some c ↦ nat_beq c b'&' ]

  -- `_is_continued` of a line, with the lines before it, the nearest first.
  unfoldable pub is_continued : List Text → Text → Bool
  unfolding strip_comment is_after_continued
  is_continued before line = elim (last_shown (strip_comment line)) [
    | none ↦ is_after_continued before
    | some c ↦ if nat_beq c b'&' then true else is_after_continued before
  ]

-- The state of `generate`: what it has emitted, and the lines with their changes that it has seen.
pub record Progress : Type 0 where
  pub out : List Mutant
  pub seen : List (ℕ × Text)

-- `key in seen`
unfoldable pub is_seen : ℕ → Text → List (ℕ × Text) → Bool
is_seen i mutated seen = any (λ (k : ℕ × Text). nat_beq k.0 i && k.1 == mutated) seen

unfoldable pub name_of : Text → ℕ → String → ℕ → Text
unfolding stem padded
name_of fname line op n =
    stem fname ++ (b'-' ∷ (padded line ++ (b'-' ∷ (codes op ++ (b'-' ∷ padded n)))))

unfoldable pub mutant_of : Text → ℕ → Text → Change → ℕ → Mutant
unfolding name_of
mutant_of fname i line change n = record {
  mid = name_of fname (i + 1) change.op n;
  file = fname;
  line = i + 1;
  op = change.op;
  original = line;
  mutated = change.mutated;
  status = Status.pending;
  tol_killed = none;
  bit_killed = none;
  checked_killed = none;
  note = [];
}

-- `emit`
unfoldable pub emit : Text → ℕ → Text → Change → Progress → Progress
unfolding is_seen mutant_of
emit fname i line change p =
    if is_seen i change.mutated p.seen || change.mutated == line then p else record {
      out = p.out ++ mutant_of fname i line change (length p.out) ∷ [];
      seen = (i, change.mutated) ∷ p.seen;
    }

unfoldable pub emit_all : Text → ℕ → Text → List Change → Progress → Progress
unfolding emit
emit_all fname i line [] p = p
emit_all fname i line (change ∷ changes) p =
    emit_all fname i line changes (emit fname i line change p)
