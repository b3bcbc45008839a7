-- ===== src/Ledger/Store/Ids.antt =====
-- Claim ids: `CLAIM_ID_RE` and `next_claim_id` of equivalent/ledger/store.py. `\d` is taken as the
-- ten ASCII digits, the only ones that the store writes, and `$` stands at the end or before one
-- last newline.
use skateboard.Prelude.{
  ℕ, zero, suc, ◌+◌, ◌-◌, ◌*◌, ◌/◌, ◌%◌, String, ◌≡◌, refl, Bool, ◌&&◌, List, [], ◌∷◌, Option, some,
  none, if◌then◌else◌, leb, ltb, nat_beq,
}
use skateboard.Prelude.Text.{codes}
use skateboard.Ledger.Record.{Claim}

abbrev pub is_digit : ℕ → Bool
is_digit c = leb b'0' c && leb c b'9'

-- The value of `\d*$`, read on from `n`.
unfoldable pub read_digits : ℕ → List ℕ → Option ℕ
read_digits n [] = some n
read_digits n (c ∷ []) =
    if is_digit c then some (10 * n + (c - b'0')) else if nat_beq c 10 then some n else none
read_digits n (c ∷ d ∷ rest) =
    let later = read_digits (10 * n + (c - b'0')) (d ∷ rest) in if is_digit c then later else none

-- `int(CLAIM_ID_RE.match(id).group(1))`
unfoldable pub claim_number : List ℕ → Option ℕ
unfolding read_digits
claim_number (c ∷ dash ∷ d ∷ rest) =
    if nat_beq c b'c' && (nat_beq dash b'-' && is_digit d) then read_digits 0 (d ∷ rest) else none
claim_number _ = none

abbrev pub digit_text : ℕ → String → String
digit_text d s =
    if nat_beq d 0
    then String.◌∷◌ "0" s
    else if nat_beq d 1
    then String.◌∷◌ "1" s
    else if nat_beq d 2
    then String.◌∷◌ "2" s
    else if nat_beq d 3
    then String.◌∷◌ "3" s
    else if nat_beq d 4
    then String.◌∷◌ "4" s
    else if nat_beq d 5
    then String.◌∷◌ "5" s
    else if nat_beq d 6
    then String.◌∷◌ "6" s
    else if nat_beq d 7
    then String.◌∷◌ "7" s
    else if nat_beq d 8
    then String.◌∷◌ "8" s
    else String.◌∷◌ "9" s

-- The decimal digits of `n` before `s`, with fuel for the digits beyond the last four.
unfoldable pub more_digits : ℕ → ℕ → String → String
more_digits zero n s = s
more_digits (suc fuel) n s =
    let rest = more_digits fuel (n / 10) (digit_text (n % 10) s) in if nat_beq n 0 then s else rest

-- `f"c-{n:04d}"`: at least four digits.
unfoldable pub format_id : ℕ → String
unfolding more_digits
format_id n = String.◌∷◌ "c" (
    String.◌∷◌ "-" (
      more_digits n (n / 10000) (
        digit_text (n / 1000 % 10)
          (digit_text (n / 100 % 10) (digit_text (n / 10 % 10) (digit_text (n % 10) ""))))))

-- `n = max(n, int(m.group(1)))` over the claims
unfoldable pub largest : List Claim → ℕ
unfolding claim_number
largest [] = 0
largest (c ∷ cs) =
    let rest = largest cs in
    elim (claim_number (codes c.id)) [ none ↦ rest | some n ↦ if ltb rest n then n else rest ]

unfoldable pub next_claim_id : List Claim → String
unfolding largest format_id
next_claim_id claims = format_id (largest claims + 1)

format_one : format_id 1 ≡ "c-0001"
unfolding format_id
format_one = refl

format_many : format_id 123456 ≡ "c-123456"
unfolding format_id
format_many = refl
