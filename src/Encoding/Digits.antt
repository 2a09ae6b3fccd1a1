-- ===== src/Encoding/Digits.antt =====
-- What decimal and hexadecimal texts are made of.
use dift_backend_auth.Base.{
  ℕ, zero, suc, ◌/◌, ◌%◌, ◌<◌, ◌≡◌, [], ◌∷◌, ltb, Text, arith, Bool-cases, inl, inr,
}
use dift_backend_auth.Encoding.{decimal, decimal_on, hex_encode, hex_digit}
use dift_backend_auth.Encoding.Parts.{IsFree, append-IsFree}
use dift_backend_auth.Encoding.Base64.RoundTrip.{AreBytes}

-- A character below the digits and the minus sign is in no decimal.
decimal_on-IsFree : (sep fuel n : ℕ) → sep < b'0' → IsFree sep (decimal_on fuel n)
unfolding decimal_on
decimal_on-IsFree sep zero n h = tt
decimal_on-IsFree sep (suc fuel) n h = elim (Bool-cases (ltb n 10)) [
  | inl small ↦ rw small (omega arith, tt)
  | inr large ↦ rw large (
      append-IsFree sep (decimal_on fuel (n / 10)) _ (decimal_on-IsFree sep fuel (n / 10) h)
        (omega arith, tt))
]

pub decimal-IsFree : (sep n : ℕ) → sep < b'0' → IsFree sep (decimal n)
unfolding decimal
decimal-IsFree sep n h = decimal_on-IsFree sep (suc n) n h

pub hex_digit_injective : (v w : ℕ) → v < 16 → w < 16 → hex_digit v ≡ hex_digit w → v ≡ w
hex_digit_injective v w h k e = ground arith

-- Two texts of bytes with one hexadecimal form are the same.
pub hex_encode_injective :
    (a b : Text) → AreBytes a → AreBytes b → hex_encode a ≡ hex_encode b → a ≡ b
unfolding hex_encode
hex_encode_injective [] [] h k e = cc
hex_encode_injective [] (y ∷ b) h k e = cc
hex_encode_injective (x ∷ a) [] h k e = cc
hex_encode_injective (x ∷ a) (y ∷ b) h k e = ground (
  arith,
  hex_digit_injective (x / 16) (y / 16),
  hex_digit_injective (x % 16) (y % 16),
  hex_encode_injective a b h.1 k.1,
)
