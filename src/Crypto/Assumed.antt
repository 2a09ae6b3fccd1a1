-- ===== src/Crypto/Assumed.antt =====
-- What the theorems assume of the code outside the repository: the documented behaviour of the
-- random source, the hashes, `fmt.Sscanf` and `encoding/json`.
use dift_backend_auth.Base.{ℕ, ◌<◌, ◌^◌, ◌≡◌, some, [], ◌∷◌, length, Text}
use dift_backend_auth.Domain.{TokenPayload}
use dift_backend_auth.Runtime.{Env}
use dift_backend_auth.Crypto.Formats.{print_params}
use dift_backend_auth.Encoding.Base64.RoundTrip.{AreBytes}

abbrev pub IsAscii : Text → Type 0
IsAscii [] = Unit {0}
IsAscii (c ∷ cs) = (c < 128) × IsAscii cs

-- `encoding/json` keeps such texts as they are.
pub record IsAsciiPayload (p : TokenPayload) : Type 0 where
  pub sub : IsAscii p.sub
  pub device_id : IsAscii p.device_id
  pub session_id : IsAscii p.session_id
  pub typ : IsAscii p.typ
  pub family : IsAscii p.family
  pub jti : IsAscii p.jti

pub record IsDocumented (env : Env) : Type 0 where
  pub random_bytes : (k n : ℕ) (b : Text) → env.random k n ≡ some b → AreBytes b
  pub sha256_bytes : (t : Text) → AreBytes (env.sha256 t)
  pub hmac_bytes : (key t : Text) → AreBytes (env.hmac_sha256 key t)
  pub argon2_bytes : (p s : Text) (i m q k : ℕ) → AreBytes (env.argon2_id_key p s i m q k)
  pub argon2_length : (p s : Text) (i m q k : ℕ) → length (env.argon2_id_key p s i m q k) ≡ k
  pub scan_printed :
      (m i p : ℕ)
      → m < 2 ^ 32
      → i < 2 ^ 32
      → p < 256
      → env.scan_params (print_params m i p) ≡ some (m, i, p)
  pub marshal_bytes : (p : TokenPayload) (t : Text) → env.json_marshal p ≡ some t → AreBytes t
  pub unmarshal_marshal :
      (p : TokenPayload) (t : Text)
      → IsAsciiPayload p
      → env.json_marshal p ≡ some t
      → env.json_unmarshal t ≡ some p
