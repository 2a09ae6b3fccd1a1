-- ===== src/Encoding.antt =====
-- The text functions of Go's library that the services call: `strings.Split` on one
-- byte, `%d` of `fmt`, `encoding/hex` and `encoding/base64` without padding.
pub mod Base64
pub mod Parts
pub mod Digits
pub mod Reading
pub mod Split
unfoldable pub use Split.{split}
use dift_backend_auth.Base.{
  ℕ, zero, suc, ◌+◌, ◌-◌, ◌/◌, ◌%◌, Bool, List, [], ◌∷◌, ◌++◌, ltb, ◌==◌, if◌then◌else◌, Text,
}
use dift_backend_auth.Base.Int.{ℤ, pos, negsuc}

-- A number has at most as many decimal digits as its successor counts.
unfoldable pub decimal_on : ℕ → ℕ → Text
decimal_on zero n = []
decimal_on (suc fuel) n =
    let front = decimal_on fuel (n / 10) in
    if ltb n 10 then (b'0' + n) ∷ [] else front ++ (b'0' + n % 10) ∷ []

unfoldable pub decimal : ℕ → Text
unfolding decimal_on
decimal n = decimal_on (suc n) n

-- `%d` of a signed number.
unfoldable pub signed_decimal : ℤ → Text
unfolding decimal
signed_decimal (pos n) = decimal n
signed_decimal (negsuc n) = b'-' ∷ decimal (suc n)

abbrev pub hex_digit : ℕ → ℕ
hex_digit v = if ltb v 10 then b'0' + v else b'a' + (v - 10)

-- `hex.EncodeToString`.
unfoldable pub hex_encode : Text → Text
hex_encode [] = []
hex_encode (b ∷ bs) = hex_digit (b / 16) ∷ hex_digit (b % 16) ∷ hex_encode bs
