-- ===== src/Capture/Ulp.antt =====
-- Distance in representable steps: `_ulp_diff` of equivalent/capture/compare.py, for one pair of
-- elements, on the bit patterns of the two numbers.
use skateboard.Prelude.{
  ℕ, ◌+◌, ◌-◌, ◌*◌, ◌^◌, ◌≤◌, ◌<◌, ◌≡◌, ◌↔◌, leb, nat_beq, if◌then◌else◌, arith,
}
use skateboard.Errors.{Result, ok, raise, value_error}

-- `1 << (itemsize * 8 - 1)`
unfoldable pub sign_bit : ℕ → ℕ
sign_bit itemsize = 2 ^ (itemsize * 8 - 1)

-- `np.where((bits & sign) != 0, ~bits, bits | sign)`, in unsigned integers of twice `sign` values
unfoldable pub ordered : ℕ → ℕ → ℕ
ordered sign bits = if leb sign bits then 2 * sign - 1 - bits else bits + sign

unfoldable pub steps : ℕ → ℕ → ℕ → ℕ
unfolding ordered
steps sign ref got =
    let a = ordered sign ref in
    let b = ordered sign got in (if leb a b then b else a) - (if leb a b then a else b)

-- `_ulp_diff`
unfoldable pub ulp_diff : ℕ → ℕ → ℕ → Result ℕ
unfolding steps sign_bit
ulp_diff itemsize ref got =
    if nat_beq itemsize 4
    then ok (steps (sign_bit itemsize) ref got)
    else if nat_beq itemsize 8
    then ok (steps (sign_bit itemsize) ref got)
    else raise (value_error "ULP distance is unsupported")

-- An IEEE number by its place on the line: `above m` is the m-th from +0 upwards, `below m` the m-th
-- from -0 downwards. The two zeros are neighbours.
pub data Place : Type 0 where
  above below : ℕ → Place

unfoldable pub place : ℕ → ℕ → Place
place sign bits = if leb sign bits then below (bits - sign) else above bits

-- How many steps lie between two places.
unfoldable pub apart : Place → Place → ℕ
apart (above m) (above n) = (m - n) + (n - m)
apart (below m) (below n) = (m - n) + (n - m)
apart (above m) (below n) = m + n + 1
apart (below m) (above n) = m + n + 1

module _ (sign : ℕ) where
  -- The distance is the number of steps between the two numbers on the line of the type's values, for
  -- any two bit patterns of the type's width. It is below twice `sign`, so no width is exceeded.
  pub steps-apart :
      (ref got : ℕ)
      → ref < 2 * sign
      → got < 2 * sign
      → (steps sign ref got ≡ apart (place sign ref) (place sign got))
        × (steps sign ref got < 2 * sign)
  unfolding steps place apart
  steps-apart ref got h k = (ground arith, ground arith)

  -- Only a number itself is at distance zero; the distance is symmetric and obeys the triangle law.
  steps_metric :
      (a b c : ℕ)
      → a < 2 * sign
      → b < 2 * sign
      → c < 2 * sign
      → ((steps sign a b ≡ 0) ↔ (a ≡ b))
        × (steps sign a b ≡ steps sign b a)
        × (steps sign a c ≤ steps sign a b + steps sign b c)
  unfolding steps
  steps_metric a b c h k l = (ground arith, ground arith, ground arith)
