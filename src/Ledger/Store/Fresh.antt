-- ===== src/Ledger/Store/Fresh.antt =====
-- The ids that `next_claim_id` of equivalent/ledger/store.py gives, against the ids of the store.
use skateboard.Prelude.{
  ℕ, zero, suc, ◌+◌, ◌*◌, ◌/◌, ◌%◌, ◌≤◌, ◌<◌, String, ◌≡◌, ◌≢◌, refl, ap, sym, ◌∙◌, true, List, [],
  ◌∷◌, some, nat_beq, arith, In, inl, inr, Bool-cases,
}
use skateboard.Prelude.Text.{codes}
use skateboard.Ledger.Record.{Claim}
use skateboard.Ledger.Store.Ids.{
  is_digit, read_digits, claim_number, digit_text, more_digits, format_id, largest, next_claim_id,
}

codes-digit_text : (d : ℕ) (s : String) → d < 10 → codes (digit_text d s) ≡ (b'0' + d) ∷ codes s
codes-digit_text d s h = ground arith

-- A text that begins with a digit.
record IsNumeral (s : String) : Type 0 where
  first : ℕ
  rest : List ℕ
  split : codes s ≡ first ∷ rest
  digit : is_digit first ≡ true

read_digits-cons :
    (n d : ℕ) (s : String)
    → d < 10
    → IsNumeral s
    → read_digits n ((b'0' + d) ∷ codes s) ≡ read_digits (10 * n + d) (codes s)
unfolding read_digits
read_digits-cons n d s h i = rw (i.split, read_digits) (ground arith)

digit_text-IsNumeral : (d : ℕ) (s : String) → d < 10 → IsNumeral (digit_text d s)
digit_text-IsNumeral d s h = record {
  first = b'0' + d;
  rest = codes s;
  split = codes-digit_text d s h;
  digit = ground arith;
}

more_digits-IsNumeral : (fuel n : ℕ) (s : String) → IsNumeral s → IsNumeral (more_digits fuel n s)
unfolding more_digits
more_digits-IsNumeral zero n s i = i
more_digits-IsNumeral (suc fuel) n s i = elim (Bool-cases (nat_beq n 0)) [
  | inl z ↦ rw z i
  | inr p ↦ rw p (
      more_digits-IsNumeral fuel (n / 10) (digit_text (n % 10) s)
        (digit_text-IsNumeral (n % 10) s (omega arith)))
]

read_digits-more_digits :
    (fuel n : ℕ) (s : String)
    → n ≤ fuel
    → IsNumeral s
    → read_digits 0 (codes (more_digits fuel n s)) ≡ read_digits n (codes s)
unfolding more_digits
read_digits-more_digits zero n s h i = let z : n ≡ 0 = omega arith in rw z refl
read_digits-more_digits (suc fuel) n s h i = elim (Bool-cases (nat_beq n 0)) [
  | inl z ↦ let e : n ≡ 0 = ground arith in rw e refl
  | inr p ↦
      let pos : 0 < n = ground arith in
      let e : 10 * (n / 10) + n % 10 ≡ n = omega arith in
      rw p (
        read_digits-more_digits fuel (n / 10) (digit_text (n % 10) s) (omega arith)
          (digit_text-IsNumeral (n % 10) s (omega arith))
        ∙ ap (read_digits (n / 10)) (codes-digit_text (n % 10) s (omega arith))
        ∙ read_digits-cons (n / 10) (n % 10) s (omega arith) i
        ∙ ap (λ m. read_digits m (codes s)) e)
]

last_four :
    (n a b c d : ℕ)
    → a < 10
    → b < 10
    → c < 10
    → d < 10
    → read_digits n (codes (digit_text a (digit_text b (digit_text c (digit_text d "")))))
      ≡ some (10 * (10 * (10 * (10 * n + a) + b) + c) + d)
unfolding read_digits
last_four n a b c d ha hb hc hd =
    rw
      (
        codes-digit_text a _ ha,
        codes-digit_text b _ hb,
        codes-digit_text c _ hc,
        codes-digit_text d _ hd,
      )
      (ground arith)

claim_number_lem :
    (s : String)
    → IsNumeral s
    → claim_number (codes (String.◌∷◌ "c" (String.◌∷◌ "-" s))) ≡ read_digits 0 (codes s)
unfolding claim_number
claim_number_lem s i = rw (i.split, i.digit) refl

-- The id that is written for a number is read back as that number.
pub claim_number-format_id : (n : ℕ) → claim_number (codes (format_id n)) ≡ some n
unfolding format_id
claim_number-format_id n =
    let a = n / 1000 % 10 in
    let b = n / 100 % 10 in
    let c = n / 10 % 10 in
    let d = n % 10 in
    let s : String = digit_text a (digit_text b (digit_text c (digit_text d ""))) in
    let i : IsNumeral s = digit_text-IsNumeral a _ (omega arith) in
    claim_number_lem (more_digits n (n / 10000) s) (more_digits-IsNumeral n (n / 10000) s i)
    ∙ read_digits-more_digits n (n / 10000) s (omega arith) i
    ∙ last_four (n / 10000) a b c d (omega arith) (omega arith) (omega arith) (omega arith)
    ∙ ap some (omega arith)

-- No claim's number is above the largest.
largest-le :
    (claims : List Claim) (c : Claim) (m : ℕ)
    → In c claims
    → claim_number (codes c.id) ≡ some m
    → m ≤ largest claims
unfolding largest
largest-le [] c m i h = absurd i
largest-le (d ∷ rest) c m (inl e) h =
    let h' : claim_number (codes d.id) ≡ some m =
      ap (λ (x : Claim). claim_number (codes x.id)) (sym e) ∙ h in
    ground arith
largest-le (d ∷ rest) c m (inr i) h = ground (arith, largest-le rest c m i h)

-- The id that the store gives next is the id of no claim that it holds, whatever ids those have.
pub next_claim_id_fresh :
    (claims : List Claim) (c : Claim) → In c claims → c.id ≢ next_claim_id claims
unfolding next_claim_id
next_claim_id_fresh claims c i e =
    let n = largest claims + 1 in
    let h : claim_number (codes c.id) ≡ some n =
      ap (λ (s : String). claim_number (codes s)) e ∙ claim_number-format_id n in
    absurd (omega (arith, largest-le claims c n i h))
