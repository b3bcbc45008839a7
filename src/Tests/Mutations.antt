-- ===== src/Tests/Mutations.antt =====
-- Two lines of Fortran and what is made of them.
use skateboard.Prelude.{
  ℕ, ◌+◌, ◌≡◌, ◌↔◌, refl, ◌&&◌, ◌||◌, [], some, none, In, inl, inr, map, leb, nat_beq,
  if◌then◌else◌,
}
use skateboard.Prelude.Text.{codes}
use skateboard.Region.Glob.{Text}
use skateboard.Mutation.{Mutant, Status}
use skateboard.Mutation.Words.{get_elem?, split_lines, scan}
use skateboard.Mutation.Source.{Change, Letters, strip_comment}
use skateboard.Mutation.Source.Changes.{generate, operator_changes, sub_at}
use skateboard.Mutation.Source.Masked.{ReplacesOne, operator_changes-ReplacesOne}
use skateboard.Mutation.Source.Generated.{IsProposed, generate-IsProposed, generate-get_elem?}

abbrev letters : Letters
letters = record {
  space = λ c. nat_beq c b' ';
  word = λ c.
      (leb b'a' c && leb c b'z')
      || ((leb b'A' c && leb c b'Z') || ((leb b'0' c && leb c b'9') || nat_beq c b'_'));
  lower = map (λ c. if leb b'A' c && leb c b'Z' then c + 32 else c);
  doubled = λ lit. codes "2";
  halved = λ lit. codes "0.5";
}

abbrev line : Text
line = codes "x = a + b ! c + d"

abbrev minus : Change
minus = record { op = "AOR"; mutated = codes "x = a - b ! c + d" }

proposed : In minus (operator_changes letters (strip_comment line) line)
unfolding operator_changes strip_comment scan sub_at
proposed = inl refl

operator_changes-ReplacesOne_example : ReplacesOne letters line minus
operator_changes-ReplacesOne_example = operator_changes-ReplacesOne letters line minus proposed

abbrev text : Text
text = codes "x = y(i)\nend"

abbrev deleted : Mutant
deleted = record {
  mid = codes "k-0001-SDL-0000";
  file = codes "src/k.f90";
  line = 1;
  op = "SDL";
  original = codes "x = y(i)";
  mutated = codes "! [mutant: statement deleted] x = y(i)";
  status = Status.pending;
  tol_killed = none;
  bit_killed = none;
  checked_killed = none;
  note = [];
}

first : get_elem? (generate letters text (codes "src/k.f90")) 0 ≡ some deleted
unfolding generate scan
first = refl

only : get_elem? (generate letters text (codes "src/k.f90")) 1 ≡ none
unfolding generate scan
only = refl

generate-get_elem?_example : ◌≡◌ {A = ℕ} 0 0
generate-get_elem?_example =
    generate-get_elem? letters text (codes "src/k.f90") deleted deleted 0 0 first first (inr refl)

generate-IsProposed_example :
    ((m : Mutant) × In m (generate letters text (codes "src/k.f90"))
      × (m.line ≡ 1)
      × (m.mutated ≡ codes "! [mutant: statement deleted] x = y(i)"))
    ↔ IsProposed letters (split_lines text) 1 (codes "! [mutant: statement deleted] x = y(i)")
generate-IsProposed_example =
    generate-IsProposed letters text (codes "src/k.f90") 1
      (codes "! [mutant: statement deleted] x = y(i)")
