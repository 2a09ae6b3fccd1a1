-- ===== src/Crypto.antt =====
-- auth-service-main/biometric-auth/internal/service/crypto.go: random texts, password hashes,
-- challenge seals, public keys and signatures, over the primitives of `Env`; and `secureHex`,
-- `hashRefreshToken` and `hmacEqual` of service/token.go.
pub mod Passwords
pub mod Assumed
mod Formats
unfoldable pub use Formats.*
use dift_backend_auth.Base.{
  ℕ, ◌+◌, ◌/◌, ◌%◌, ◌^◌, Bool, true, false, not, Option, none, some, List, [], ◌∷◌, ◌++◌, ltb, ◌==◌,
  ◌&&◌, ◌||◌, if◌then◌else◌, length, take, drop, Text, codes, text_eq,
}
use dift_backend_auth.Base.Int.{ℤ, pos}
use dift_backend_auth.Encoding.{split, decimal, signed_decimal, hex_encode}
use dift_backend_auth.Encoding.Base64
use dift_backend_auth.Encoding.Base64.{url, std}
use dift_backend_auth.Runtime.{
  Env, PublicKey, ecdsa, rsa, other, Outcome, ok, err, M, ◌>>=◌, ◌>>◌, pure, fail, ask, read_random,
  guard, or_fail, random_failed, bad_hash, bad_public_key, bad_signature, unsupported_algorithm,
}

unfoldable pub random_bytes : ℕ → M Text
random_bytes n = read_random n

unfoldable pub random_base64_url : ℕ → M Text
random_base64_url n = do b ← random_bytes n; pure (Base64.encode url b)

unfoldable pub random_hex : ℕ → M Text
random_hex n = do b ← random_bytes n; pure (hex_encode b)

unfoldable pub secure_hex : ℕ → M Text
secure_hex n = do b ← read_random n; pure (hex_encode b)

unfoldable pub hash_password : Text → M Text
hash_password password = do
  env ← ask
  salt ← random_bytes 16
  let cfg = env.cfg
  let hash =
      env.argon2_id_key password salt cfg.hash_iterations cfg.hash_memory cfg.hash_parallelism
        cfg.hash_key_length
  pure (
      encode_hash (print_params cfg.hash_memory cfg.hash_iterations cfg.hash_parallelism)
        (Base64.encode std salt) (Base64.encode std hash))

-- The six parts of an encoded hash.
unfoldable pub verify_parts : Text → List Text → M Bool
verify_parts password (_ ∷ name ∷ _ ∷ params ∷ salt64 ∷ hash64 ∷ []) = do
  guard (text_eq name (codes "argon2id")) bad_hash
  env ← ask
  (memory, iterations, parallelism) ← or_fail (env.scan_params params) bad_hash
  salt ← or_fail (Base64.decode std salt64) bad_hash
  expected ← or_fail (Base64.decode std hash64) bad_hash
  let hash =
      env.argon2_id_key password salt iterations memory parallelism (length expected % 2 ^ 32)
  pure (text_eq hash expected)
verify_parts password _ = fail bad_hash

unfoldable pub verify_password : Text → Text → M Bool
verify_password password encoded = verify_parts password (split b'$' encoded)

unfoldable pub hmac_challenge : Env → Text → Text → Text → ℕ → Text
hmac_challenge env nonce device_id action expiry =
    Base64.encode url
      (env.hmac_sha256 env.cfg.challenge_secret (challenge_message nonce device_id action expiry))

-- `expectedBytes, _ := …`: an error gives no bytes.
abbrev pub bytes_or_none : Option Text → Text
bytes_or_none none = []
bytes_or_none (some b) = b

unfoldable pub verify_hmac_challenge : Env → Text → Text → Text → ℕ → Text → Bool
verify_hmac_challenge env nonce device_id action expiry sig = elim (Base64.decode url sig) [
  | none ↦ false
  | some b ↦
      text_eq b
        (bytes_or_none (Base64.decode url (hmac_challenge env nonce device_id action expiry)))
]

unfoldable pub hash_token : Env → Text → Text
hash_token env token = hex_encode (env.sha256 token)

unfoldable pub hash_fingerprint : Env → Text → Text
hash_fingerprint env fp = hex_encode (env.sha256 fp)

unfoldable pub hash_refresh_token : Env → Text → Text
hash_refresh_token env token = hex_encode (env.sha256 token)

-- The key of a PEM text, if it has a block that parses.
unfoldable pub parse_key : Text → M PublicKey
parse_key pem_key = do
  env ← ask
  block ← or_fail (env.pem_decode pem_key) bad_public_key
  or_fail (env.parse_pkix block) bad_public_key

abbrev pub as_ecdsa : PublicKey → M Text
as_ecdsa (ecdsa is_p256 key) = guard is_p256 bad_public_key >> pure key
as_ecdsa (rsa bits key) = fail bad_public_key
as_ecdsa other = fail bad_public_key

abbrev pub as_rsa : PublicKey → M Text
as_rsa (ecdsa is_p256 key) = fail bad_public_key
as_rsa (rsa bits key) = guard (not (ltb bits 2048)) bad_public_key >> pure key
as_rsa other = fail bad_public_key

unfoldable pub parse_ecdsa_public_key : Text → M Text
parse_ecdsa_public_key pem_key = do as_ecdsa (← parse_key pem_key)

unfoldable pub parse_rsa_public_key : Text → M Text
parse_rsa_public_key pem_key = do as_rsa (← parse_key pem_key)

unfoldable pub verify_ecdsa_signature : Text → Text → Text → M (Unit {0})
verify_ecdsa_signature key payload sig64 = do
  env ← ask
  sig ← or_fail (Base64.decode url sig64) bad_signature
  guard (length sig == 64) bad_signature
  guard (env.ecdsa_verify key (env.sha256 payload) (take 32 sig) (drop 32 sig)) bad_signature

unfoldable pub verify_rsa_signature : Text → Text → Text → M (Unit {0})
verify_rsa_signature key payload sig64 = do
  env ← ask
  sig ← or_fail (Base64.decode url sig64) bad_signature
  guard (env.rsa_verify_pss key (env.sha256 payload) sig) bad_signature

unfoldable pub verify_signature_for_algo : Text → Text → Text → Text → M (Unit {0})
verify_signature_for_algo algo pem_key payload sig64 =
    if text_eq algo (codes "ES256")
    then (do verify_ecdsa_signature (← parse_ecdsa_public_key pem_key) payload sig64)
    else if text_eq algo (codes "RS256")
    then (do verify_rsa_signature (← parse_rsa_public_key pem_key) payload sig64)
    else fail unsupported_algorithm

unfoldable pub validate_public_key_format : Text → Text → M (Unit {0})
validate_public_key_format pem_key algo =
    if text_eq algo (codes "ES256")
    then (do _ ← parse_ecdsa_public_key pem_key; pure tt)
    else if text_eq algo (codes "RS256")
    then (do _ ← parse_rsa_public_key pem_key; pure tt)
    else fail unsupported_algorithm
