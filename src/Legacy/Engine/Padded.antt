-- ===== src/Legacy/Engine/Padded.antt =====
-- What is encoded with padding decodes to the same bytes.
use mathlib.Core.List.{reverse, reverse-append, reverse-reverse, reverse-cons}
use mathlib.Core.Path.{subst}
use dift_backend_auth.Base.{
  ℕ, suc, ◌%◌, ◌≡◌, refl, sym, ap, ◌∙◌, some, [], ◌∷◌, ◌++◌, length, Text, arith, ◌==◌, Bool-cases,
  inl, inr,
}
use dift_backend_auth.Base.Ascii.{starts_with}
use dift_backend_auth.Encoding.Base64.{Alphabet, encode}
use dift_backend_auth.Encoding.Base64.RoundTrip.{AreBytes, ArePlain, encode-ArePlain, decode-encode}
use dift_backend_auth.Legacy.Keys.{padding}
use dift_backend_auth.Legacy.Engine.Secrets.{without_line_ends, strip, decode_padded, encode_padded}

padding-suc₃ : (n : ℕ) → padding (suc (suc (suc n))) ≡ padding n
padding-suc₃ n = ground arith

length-encode : (t : Alphabet) (bs : Text) → length (encode t bs ++ padding (length bs)) % 4 ≡ 0
unfolding encode
length-encode t [] = refl
length-encode t (a ∷ []) = refl
length-encode t (a ∷ b ∷ []) = refl
length-encode t (a ∷ b ∷ c ∷ r) =
    let before = length-encode t r in rw (padding-suc₃ (length r)) (omega arith)

without_line_ends-append :
    (s p : Text) → ArePlain s → without_line_ends (s ++ p) ≡ s ++ without_line_ends p
unfolding without_line_ends
without_line_ends-append [] p h = refl
without_line_ends-append (c ∷ s) p h = let rest = without_line_ends-append s p h.1 in ground arith

append-ArePlain : (s p : Text) → ArePlain s → ArePlain p → ArePlain (s ++ p)
append-ArePlain [] p h k = k
append-ArePlain (c ∷ s) p h k = (h.0, append-ArePlain s p h.1 k)

reverse-ArePlain : (s : Text) → ArePlain s → ArePlain (reverse s)
reverse-ArePlain [] h = tt
reverse-ArePlain (c ∷ s) h =
    subst ArePlain (sym (reverse-cons c s))
      (append-ArePlain (reverse s) (c ∷ []) (reverse-ArePlain s h.1) (h.0, tt))

strip-plain : (r : Text) → ArePlain r → strip r ≡ r
unfolding starts_with
strip-plain [] h = refl
strip-plain (c ∷ []) h = ground arith
strip-plain (c ∷ d ∷ r) h = ground arith

strip-one : (r : Text) → ArePlain r → strip (b'=' ∷ r) ≡ r
unfolding starts_with
strip-one [] h = refl
strip-one (c ∷ r) h = ground arith

strip-two : (r : Text) → strip (b'=' ∷ b'=' ∷ r) ≡ r
unfolding starts_with
strip-two r = refl

-- Reading from the end, the padding is taken off.
strip-padding :
    (n : ℕ) (e : Text) → ArePlain e → strip (reverse (padding n) ++ reverse e) ≡ reverse e
strip-padding n e h = elim (Bool-cases (n % 3 == 1)) [
  | inl one ↦ rw one (strip-two (reverse e))
  | inr other ↦ elim (Bool-cases (n % 3 == 2)) [
    | inl two ↦ rw (other, two) (strip-one (reverse e) (reverse-ArePlain e h))
    | inr none_ ↦ rw (other, none_) (strip-plain (reverse e) (reverse-ArePlain e h))
  ]
]

without_line_ends-padding : (n : ℕ) → without_line_ends (padding n) ≡ padding n
unfolding without_line_ends
without_line_ends-padding n = ground arith

pub decode_padded-encode_padded :
    (bs : Text) → AreBytes bs → decode_padded (encode_padded bs) ≡ some bs
unfolding decode_padded
decode_padded-encode_padded bs h =
    let e = encode Alphabet.std bs in
    let p = padding (length bs) in
    let plain = encode-ArePlain Alphabet.std bs h in
    let kept : without_line_ends (e ++ p) ≡ e ++ p =
      without_line_ends-append e p plain
      ∙ ap (λ q. e ++ q) (without_line_ends-padding (length bs)) in
    let stripped : reverse (strip (reverse (e ++ p))) ≡ e =
      ap (λ r. reverse (strip r)) (reverse-append e p)
      ∙ ap reverse (strip-padding (length bs) e plain)
      ∙ reverse-reverse e in
    rw (kept, length-encode Alphabet.std bs, stripped) (decode-encode Alphabet.std bs h)
