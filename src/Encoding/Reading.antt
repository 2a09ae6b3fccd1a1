-- ===== src/Encoding/Reading.antt =====
-- Reading a decimal number back.
use dift_backend_auth.Base.{
  ℕ, zero, suc, ◌+◌, ◌-◌, ◌*◌, ◌/◌, ◌%◌, ◌<◌, ◌≡◌, ◌∙◌, ap, Bool, [], ◌∷◌, ◌++◌, leb, ltb, ◌&&◌,
  if◌then◌else◌, Text, arith, Bool-cases, inl, inr,
}
use mathlib.Core.List.{append_assoc}
use dift_backend_auth.Encoding.{decimal, decimal_on}

abbrev pub is_digit : ℕ → Bool
is_digit c = leb b'0' c && leb c b'9'

-- The number of the leading digits behind those read so far, and what follows.
unfoldable pub read_decimal : ℕ → Text → ℕ × Text
read_decimal acc [] = (acc, [])
read_decimal acc (c ∷ cs) =
    let rest = read_decimal (acc * 10 + (c - b'0')) cs in if is_digit c then rest else (acc, c ∷ cs)

read_decimal-digit :
    (acc d : ℕ) (rest : Text)
    → d < 10
    → read_decimal acc ((b'0' + d) ∷ rest) ≡ read_decimal (acc * 10 + d) rest
unfolding read_decimal
read_decimal-digit acc d rest h = let e : 48 + d - 48 ≡ d = omega arith in rw e (ground arith)

read_decimal-decimal_on :
    (fuel n : ℕ) (rest : Text)
    → n < fuel
    → read_decimal 0 (decimal_on fuel n ++ rest) ≡ read_decimal n rest
unfolding decimal_on
read_decimal-decimal_on zero n rest h = elim h [ ]
read_decimal-decimal_on (suc fuel) n rest h = elim (Bool-cases (ltb n 10)) [
  | inl small ↦
      rw small
        (read_decimal-digit 0 n rest (ground arith) ∙ ap (λ k. read_decimal k rest) (omega arith))
  | inr large ↦
      rw (large, append_assoc)
        (read_decimal-decimal_on fuel (n / 10) _ (ground arith)
          ∙ read_decimal-digit (n / 10) (n % 10) rest (omega arith)
          ∙ ap (λ k. read_decimal k rest) (omega arith))
]

pub read_decimal-decimal :
    (n : ℕ) (rest : Text) → read_decimal 0 (decimal n ++ rest) ≡ read_decimal n rest
unfolding decimal
read_decimal-decimal n rest = read_decimal-decimal_on (suc n) n rest (omega arith)
