-- ===== src/Mutation/Words.antt =====
-- Texts as lists of code points: slices, lines, decimal numbers, and the leftmost matches of a
-- pattern, as services/builder/mutation_source.py uses Python's.
pub mod Decimal
pub mod Matches
use skateboard.Prelude.{
  ℕ, zero, suc, ◌+◌, ◌-◌, ◌*◌, ◌/◌, ◌%◌, String, Bool, true, false, ◌&&◌, ◌||◌, not, List, [], ◌∷◌,
  ◌++◌, Option, some, none, if◌then◌else◌, nat_beq, leb, ltb, string_eq, elem, nat_eq, length,
}
use skateboard.Region.Glob.{Text}
use skateboard.Ledger.FileSet.{text_eq}

module _ {ℓ} {A : Type ℓ} where
  abbrev pub take : ℕ → List A → List A
  take zero xs = []
  take (suc n) [] = []
  take (suc n) (x ∷ xs) = x ∷ take n xs

  abbrev pub drop : ℕ → List A → List A
  drop zero xs = xs
  drop (suc n) [] = []
  drop (suc n) (x ∷ xs) = drop n xs

  -- `xs[n]`, `none` past the end
  abbrev pub get_elem? : List A → ℕ → Option A
  get_elem? [] n = none
  get_elem? (x ∷ xs) zero = some x
  get_elem? (x ∷ xs) (suc n) = get_elem? xs n

  -- `xs[n] = x`, which leaves a list alone that is too short
  abbrev pub set : ℕ → A → List A → List A
  set n a [] = []
  set zero a (x ∷ xs) = a ∷ xs
  set (suc n) a (x ∷ xs) = x ∷ set n a xs

  abbrev pub flat_map {κ} : {B : Type κ} → (B → List A) → List B → List A
  flat_map f [] = []
  flat_map f (b ∷ bs) = f b ++ flat_map f bs

  abbrev pub take_while : (A → Bool) → List A → List A
  take_while p [] = []
  take_while p (x ∷ xs) = let rest = take_while p xs in if p x then x ∷ rest else []

  abbrev pub drop_while : (A → Bool) → List A → List A
  drop_while p [] = []
  drop_while p (x ∷ xs) = let rest = drop_while p xs in if p x then rest else x ∷ xs

-- `text.startswith(word)`
abbrev pub starts : Text → Text → Bool
starts [] text = true
starts (w ∷ word) [] = false
starts (w ∷ word) (c ∷ text) = nat_beq w c && starts word text

-- `word in text`
abbrev pub within : Text → Text → Bool
within word [] = starts word []
within word (c ∷ text) = starts word (c ∷ text) || within word text

-- `text.count(c)`
abbrev pub count : ℕ → Text → ℕ
count c [] = 0
count c (d ∷ text) = let rest = count c text in if nat_beq c d then suc rest else rest

abbrev pub first_line : ℕ → List Text → List Text
first_line c [] = (c ∷ []) ∷ []
first_line c (line ∷ lines) = (c ∷ line) ∷ lines

-- `text.split("\n")`
unfoldable pub split_lines : Text → List Text
split_lines [] = [] ∷ []
split_lines (c ∷ text) =
    let rest = split_lines text in if nat_beq c 10 then [] ∷ rest else first_line c rest

-- `"\n".join(lines)`
unfoldable pub join_lines : List Text → Text
join_lines [] = []
join_lines (line ∷ []) = line
join_lines (line ∷ next ∷ lines) = line ++ 10 ∷ join_lines (next ∷ lines)

-- The decimal digits of `n` before `text`, with fuel for the digits.
abbrev pub digits : ℕ → ℕ → Text → Text
digits zero n text = text
digits (suc fuel) n text =
    let rest = digits fuel (n / 10) ((n % 10 + b'0') ∷ text) in
    if ltb n 10 then (n + b'0') ∷ text else rest

-- `str(n)`
unfoldable pub decimal : ℕ → Text
decimal n = digits (suc n) n []

abbrev pub zeros : ℕ → Text → Text
zeros zero text = text
zeros (suc n) text = b'0' ∷ zeros n text

-- `f"{n:04d}"`
unfoldable pub padded : ℕ → Text
unfolding decimal
padded n = zeros (4 - length (decimal n)) (decimal n)

-- `int(text)`, of a text of digits
unfoldable pub value_from : ℕ → Text → ℕ
value_from n [] = n
value_from n (c ∷ text) = value_from (10 * n + (c - b'0')) text

-- One match of a pattern: where it stands, and what its groups hold.
pub record Match (G : Type 0) : Type 0 where
  pub start : ℕ
  pub stop : ℕ
  pub group : G

module _ {G : Type 0} where
  -- How much of the text a match takes beyond its first character.
  abbrev pub beyond : Option (ℕ × G) → ℕ
  beyond none = 0
  beyond (some (n, g)) = n - 1

  abbrev pub found_at : ℕ → Option (ℕ × G) → List (Match G) → List (Match G)
  found_at pos none later = later
  found_at pos (some (n, g)) later = record { start = pos; stop = pos + n; group = g } ∷ later

  -- `re.finditer`: `here` is the pattern at one place, given the character before it and the text
  -- from there on; `skip` counts the characters that the last match still takes.
  unfoldable pub scan :
      (Option ℕ → Text → Option (ℕ × G)) → Option ℕ → ℕ → ℕ → Text → List (Match G)
  scan here before pos skip [] = []
  scan here before pos (suc skip) (c ∷ text) = scan here (some c) (suc pos) skip text
  scan here before pos zero (c ∷ text) =
      let later = scan here (some c) (suc pos) (beyond (here before (c ∷ text))) text in
      found_at pos (here before (c ∷ text)) later

  abbrev pub finditer : (Option ℕ → Text → Option (ℕ × G)) → Text → List (Match G)
  finditer here text = scan here none 0 0 text
