-- ===== src/Encoding/Base64/RoundTrip.antt =====
-- Decoding undoes encoding, and an encoded text holds only digits of the alphabet.
use dift_backend_auth.Base.{
  ℕ, ◌+◌, ◌*◌, ◌/◌, ◌%◌, ◌<◌, ◌≡◌, ◌≢◌, refl, some, false, [], ◌∷◌, Text, arith,
}
use dift_backend_auth.Encoding.Base64.{
  Alphabet, url, std, digit, value, encode, decode, decode_groups, drop_line_ends, is_line_end,
}

-- Every element is a byte.
abbrev pub AreBytes : Text → Type 0
AreBytes [] = Unit {0}
AreBytes (b ∷ bs) = (b < 256) × AreBytes bs

value-digit : (t : Alphabet) (v : ℕ) → v < 64 → value t (digit t v) ≡ some v
unfolding value digit
value-digit url v h = ground arith
value-digit std v h = ground arith

digit-not_line_end : (t : Alphabet) (v : ℕ) → v < 64 → is_line_end (digit t v) ≡ false
unfolding digit
digit-not_line_end url v h = ground arith
digit-not_line_end std v h = ground arith

-- A digit is neither a dot nor a dollar sign nor a bar nor the padding nor a line end.
abbrev pub IsPlain : ℕ → Type 0
IsPlain c = (c ≢ b'.') × (c ≢ b'$') × (c ≢ b'|') × (c ≢ b'=') × (c ≢ 10) × (c ≢ 13)

digit-IsPlain : (t : Alphabet) (v : ℕ) → v < 64 → IsPlain (digit t v)
unfolding digit
digit-IsPlain url v h = ground arith
digit-IsPlain std v h = ground arith

drop_line_ends-encode :
    (t : Alphabet) (bs : Text) → AreBytes bs → drop_line_ends (encode t bs) ≡ encode t bs
unfolding drop_line_ends encode
drop_line_ends-encode t [] h = refl
drop_line_ends-encode t (a ∷ []) h =
    rw (digit-not_line_end t (a / 4) (omega arith), digit-not_line_end t (a % 4 * 16) (omega arith))
drop_line_ends-encode t (a ∷ b ∷ []) h = rw (
  digit-not_line_end t (a / 4) (omega arith),
  digit-not_line_end t (a % 4 * 16 + b / 16) (omega arith),
  digit-not_line_end t (b % 16 * 4) (omega arith),
)
drop_line_ends-encode t (a ∷ b ∷ c ∷ r) h = rw (
  digit-not_line_end t (a / 4) (omega arith),
  digit-not_line_end t (a % 4 * 16 + b / 16) (omega arith),
  digit-not_line_end t (b % 16 * 4 + c / 64) (omega arith),
  digit-not_line_end t (c % 64) (omega arith),
  drop_line_ends-encode t r h.1.1.1,
)

decode_groups-encode :
    (t : Alphabet) (bs : Text) → AreBytes bs → decode_groups t (encode t bs) ≡ some bs
unfolding decode_groups encode
decode_groups-encode t [] h = refl
decode_groups-encode t (a ∷ []) h =
    rw (value-digit t (a / 4) (omega arith), value-digit t (a % 4 * 16) (omega arith))
      (ground arith)
decode_groups-encode t (a ∷ b ∷ []) h =
    rw
      (
        value-digit t (a / 4) (omega arith),
        value-digit t (a % 4 * 16 + b / 16) (omega arith),
        value-digit t (b % 16 * 4) (omega arith),
      )
      (ground arith)
decode_groups-encode t (a ∷ b ∷ c ∷ r) h =
    rw
      (
        value-digit t (a / 4) (omega arith),
        value-digit t (a % 4 * 16 + b / 16) (omega arith),
        value-digit t (b % 16 * 4 + c / 64) (omega arith),
        value-digit t (c % 64) (omega arith),
        decode_groups-encode t r h.1.1.1,
      )
      (ground arith)

-- What is encoded, of bytes and in either alphabet, decodes to the same bytes.
pub decode-encode : (t : Alphabet) (bs : Text) → AreBytes bs → decode t (encode t bs) ≡ some bs
unfolding decode
decode-encode t bs h = rw (drop_line_ends-encode t bs h) (decode_groups-encode t bs h)

-- What is encoded holds no separator of the formats that are built from it.
abbrev pub ArePlain : Text → Type 0
ArePlain [] = Unit {0}
ArePlain (c ∷ cs) = IsPlain c × ArePlain cs

pub encode-ArePlain : (t : Alphabet) (bs : Text) → AreBytes bs → ArePlain (encode t bs)
unfolding encode
encode-ArePlain t [] h = tt
encode-ArePlain t (a ∷ []) h =
    (digit-IsPlain t (a / 4) (omega arith), (digit-IsPlain t (a % 4 * 16) (omega arith), tt))
encode-ArePlain t (a ∷ b ∷ []) h = (
  digit-IsPlain t (a / 4) (omega arith),
  (
    digit-IsPlain t (a % 4 * 16 + b / 16) (omega arith),
    (digit-IsPlain t (b % 16 * 4) (omega arith), tt),
  ),
)
encode-ArePlain t (a ∷ b ∷ c ∷ r) h = (
  digit-IsPlain t (a / 4) (omega arith),
  (
    digit-IsPlain t (a % 4 * 16 + b / 16) (omega arith),
    (
      digit-IsPlain t (b % 16 * 4 + c / 64) (omega arith),
      (digit-IsPlain t (c % 64) (omega arith), encode-ArePlain t r h.1.1.1),
    ),
  ),
)
