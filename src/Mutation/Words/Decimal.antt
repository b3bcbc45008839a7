-- ===== src/Mutation/Words/Decimal.antt =====
-- What is read back of the numbers that the names of mutants end in.
use skateboard.Prelude.{
  ℕ, zero, suc, ◌+◌, ◌-◌, ◌*◌, ◌/◌, ◌%◌, ◌<◌, [], ◌∷◌, ◌++◌, if◌then◌else◌, nat_beq, ltb, ◌≡◌, refl,
  ap, ◌∙◌, arith, inl, inr, Bool-cases, length,
}
use skateboard.Region.Glob.{Text}
use skateboard.Mutation.Words.{digits, decimal, zeros, padded}

-- The number that a text ends in, after its last dash.
unfoldable pub last_number : ℕ → Text → ℕ
last_number n [] = n
last_number n (c ∷ text) = last_number (if nat_beq c b'-' then 0 else 10 * n + (c - b'0')) text

pub last_number-dash :
    (n : ℕ) (before text : Text) → last_number n (before ++ b'-' ∷ text) ≡ last_number 0 text
unfolding last_number
last_number-dash n [] text = refl
last_number-dash n (c ∷ before) text =
    last_number-dash (if nat_beq c b'-' then 0 else 10 * n + (c - b'0')) before text

digit-read :
    (n d : ℕ)
    → d < 10
    → (if nat_beq (d + b'0') b'-' then 0 else 10 * n + ((d + b'0') - b'0')) ≡ 10 * n + d
digit-read n d h = ground arith

last_number-digits :
    (fuel n : ℕ) (text : Text) → n < fuel → last_number 0 (digits fuel n text) ≡ last_number n text
unfolding last_number
last_number-digits zero n text h = absurd (omega arith)
last_number-digits (suc fuel) n text h = elim (Bool-cases (ltb n 10)) [
  | inl small ↦
      rw small (ap (λ k. last_number k text) (digit-read 0 n (ground arith) ∙ omega arith))
  | inr large ↦ rw large (
      last_number-digits fuel (n / 10) ((n % 10 + b'0') ∷ text) (ground arith)
      ∙ ap (λ k. last_number k text) (digit-read (n / 10) (n % 10) (omega arith) ∙ omega arith))
]

last_number-zeros : (k : ℕ) (text : Text) → last_number 0 (zeros k text) ≡ last_number 0 text
unfolding last_number
last_number-zeros zero text = refl
last_number-zeros (suc k) text = last_number-zeros k text

pub last_number-padded : (before : Text) (n : ℕ) → last_number 0 (before ++ b'-' ∷ padded n) ≡ n
unfolding padded last_number
last_number-padded before n =
    last_number-dash 0 before (padded n)
    ∙ last_number-zeros (4 - length (decimal n)) (decimal n)
    ∙ last_number-digits (suc n) n [] (omega arith)
