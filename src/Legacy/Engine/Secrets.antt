-- ===== src/Legacy/Engine/Secrets.antt =====
-- Backup codes and encryption of the earlier engine, internal/crypto/crypto.go.
use mathlib.Core.List.{reverse}
use dift_backend_auth.Base.{
  ℕ, zero, suc, ◌+◌, ◌-◌, ◌==◌, ◌/◌, ◌%◌, Bool, not, ◌||◌, Option, none, List, [], ◌∷◌, ◌++◌, ltb,
  length, take, drop, if◌then◌else◌, Text, codes,
}
use dift_backend_auth.Base.Ascii.{starts_with}
use dift_backend_auth.Encoding.{hex_encode}
use dift_backend_auth.Encoding.Base64.{Alphabet, encode, decode}
use dift_backend_auth.Legacy.Keys.{padding}
use dift_backend_auth.Legacy.Engine.{Outside, M, ◌>>=◌, ◌>>◌, pure, or_fail, guard, draw, library}

abbrev pub hash_password : Outside → Text → M Text
hash_password out password = do
  n ← draw
  or_fail (out.bcrypt n (if out.cfg.bcrypt_cost == 0 then 12 else out.cfg.bcrypt_cost) password)
      library

abbrev pub read_random : Outside → ℕ → M Text
read_random out n = do k ← draw; or_fail (out.random k n) library

-- `%X` of a byte.
abbrev pub upper_digit : ℕ → ℕ
upper_digit v = if ltb v 10 then b'0' + v else b'A' + (v - 10)

unfoldable pub hex_upper : Text → Text
hex_upper [] = []
hex_upper (b ∷ bs) = upper_digit (b / 16) ∷ upper_digit (b % 16) ∷ hex_upper bs

abbrev pub backup_code : Text → Text
backup_code b = hex_upper (take 3 b) ++ b'-' ∷ hex_upper (drop 3 b)

abbrev pub hash_backup_code : Outside → Text → Text
hash_backup_code out code = hex_encode (out.sha256 code)

abbrev pub more_codes : Outside → M (List Text × List Text) → M (List Text × List Text)
more_codes out rest = do
  b ← read_random out 5
  (cs, hs) ← rest
  pure (backup_code b ∷ cs, hash_backup_code out (backup_code b) ∷ hs)

-- The codes and their hashes.
unfoldable pub generate_backup_codes : Outside → ℕ → M (List Text × List Text)
generate_backup_codes out zero = pure ([], [])
generate_backup_codes out (suc n) = more_codes out (generate_backup_codes out n)

-- `base64.StdEncoding`, which pads to a multiple of four and passes over line ends.
abbrev is_line_end : ℕ → Bool
is_line_end c = c == 10 || c == 13

unfoldable pub without_line_ends : Text → Text
without_line_ends [] = []
without_line_ends (c ∷ cs) =
    let rest = without_line_ends cs in if is_line_end c then rest else c ∷ rest

abbrev pub strip : Text → Text
strip r =
    if starts_with (codes "==") r
    then drop 2 r
    else if starts_with (codes "=") r
    then drop 1 r
    else r

unfoldable pub decode_padded : Text → Option Text
decode_padded t =
    let u = without_line_ends t in
    if length u % 4 == 0 then decode Alphabet.std (reverse (strip (reverse u))) else none

abbrev pub encode_padded : Text → Text
encode_padded b = encode Alphabet.std b ++ padding (length b)

-- The nonce stands in front of what is sealed.
unfoldable pub encrypt : Outside → (plaintext key : Text) → M Text
encrypt out plaintext key = do
  nonce ← read_random out 12
  pure (encode_padded (nonce ++ out.aes_gcm_seal (out.sha256 key) nonce plaintext))

abbrev pub open_sealed : Outside → Text → Text → M Text
open_sealed out key data_ = do
  guard (not (ltb (length data_) 12)) library
  or_fail (out.aes_gcm_open (out.sha256 key) (take 12 data_) (drop 12 data_)) library

unfoldable pub decrypt : Outside → (ciphertext key : Text) → M Text
decrypt out ciphertext key = do
  b ← or_fail (decode_padded ciphertext) library
  open_sealed out key b
