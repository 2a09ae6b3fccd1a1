-- ===== src/Runtime.antt =====
-- What the services of auth-service-main/biometric-auth run on: the configuration
-- (internal/config/config.go), the clock, the random source, the cryptographic primitives and
-- `encoding/json`, the repositories' contents, and the monad of a method call.
pub mod Frame
pub mod Inversion
use dift_backend_auth.Base.{ℕ, suc, Bool, true, false, Option, none, some, List, Text}
use dift_backend_auth.Store.{Store}
use dift_backend_auth.Domain.{User, Device, Session, Challenge, AuditLog, TokenPayload}

-- The fields of `config.Config` that the services read. Durations are nanoseconds, not negative.
pub record Config : Type 0 where
  pub access_token_secret : Text
  pub refresh_token_secret : Text
  pub access_token_ttl : ℕ
  pub refresh_token_ttl : ℕ
  pub step_up_token_ttl : ℕ
  pub challenge_secret : Text
  pub challenge_ttl : ℕ
  pub signature_algo : Text
  pub max_login_attempts : ℕ
  pub lockout_duration : ℕ
  pub hash_memory : ℕ
  pub hash_iterations : ℕ
  pub hash_parallelism : ℕ
  pub hash_key_length : ℕ

-- What `x509.ParsePKIXPublicKey` of a decoded PEM block returns, as far as the code tells apart.
pub data PublicKey : Type 0 where
  ecdsa : Bool → Text → PublicKey
  rsa : ℕ → Text → PublicKey
  other : PublicKey

-- The calls that leave the repository. `clock k` is what the k-th reading of the clock gives, and
-- `random k n` what the k-th draw of n random bytes gives, `none` an error.
pub record Env : Type 0 where
  pub cfg : Config
  pub clock : ℕ → ℕ
  pub random : ℕ → ℕ → Option Text
  pub sha256 : Text → Text
  pub hmac_sha256 : Text → Text → Text
  pub argon2_id_key : Text → Text → ℕ → ℕ → ℕ → ℕ → Text
  -- `fmt.Sscanf` with `m=%d,t=%d,p=%d`
  pub scan_params : Text → Option (ℕ × ℕ × ℕ)
  pub json_marshal : TokenPayload → Option Text
  pub json_unmarshal : Text → Option TokenPayload
  -- the key of a PEM text: no block, or a block that does not parse, or a key
  pub pem_decode : Text → Option Text
  pub parse_pkix : Text → Option PublicKey
  -- the key, the digest, and the numbers r and s as bytes
  pub ecdsa_verify : Text → Text → Text → Text → Bool
  pub rsa_verify_pss : Text → Text → Text → Bool

-- The contents of the five repositories.
pub record Db : Type 0 where
  pub users : Store User
  pub devices : Store Device
  pub sessions : Store Session
  pub challenges : Store Challenge

pub record World : Type 0 where
  pub db : Db
  pub audits : List AuditLog
  -- readings of the clock and draws of random bytes so far
  pub reads : ℕ
  pub draws : ℕ

-- The errors of the services, `fmt.Errorf` wrappers by what they wrap, since `errors.Is` looks
-- through them; the last are the errors without a name of their own.
pub data Error : Type 0 where
  invalid_credentials account_locked account_disabled otp_invalid : Error
  token_expired token_invalid token_revoked family_compromised : Error
  challenge_expired challenge_used challenge_invalid : Error
  device_not_found biometric_disabled signature_invalid rooted_device timestamp_drift : Error
  device_is_revoked device_is_blocked device_ownership : Error
  user_not_found device_mismatch device_not_active : Error
  random_failed marshal_failed bad_public_key unsupported_algorithm bad_signature : Error
  bad_hash : Error

-- How a call ends. A panic is a nil dereference or a slice out of range.
pub data Outcome {ℓ} (A : Type ℓ) : Type ℓ where
  ok : A → Outcome A
  err : Error → Outcome A
  panic : Outcome A

-- What was written before an error or a panic stays written.
abbrev pub M : Type 0 → Type 0
M A = Env → World → Outcome A × World

abbrev pub pure : {A : Type 0} → A → M A
pure a env w = (ok a, w)

abbrev pub fail : {A : Type 0} → Error → M A
fail e env w = (err e, w)

abbrev pub crash : {A : Type 0} → M A
crash env w = (panic, w)

-- What follows a call, by how it ended.
abbrev pub resume : {A B : Type 0} → (A → M B) → Env → Outcome A → World → Outcome B × World
resume f env (ok a) w = f a env w
resume f env (err e) w = (err e, w)
resume f env panic w = (panic, w)

infixl 5 ◌>>=◌ ◌>>◌
abbrev pub ◌>>=◌ : {A B : Type 0} → M A → (A → M B) → M B
◌>>=◌ m f env w = let (r, w') = m env w in resume f env r w'

abbrev pub ◌>>◌ : {B : Type 0} → M (Unit {0}) → M B → M B
m >> k = m >>= λ _. k

-- The environment and the state, and a write to it.
abbrev pub ask : M Env
ask env w = (ok env, w)

abbrev pub gets : {A : Type 0} → (World → A) → M A
gets f env w = (ok (f w), w)

abbrev pub modify : (World → World) → M (Unit {0})
modify f env w = (ok tt, f w)

-- `time.Now()`.
abbrev pub now : M ℕ
now env w = (ok (env.clock w.reads), record w { reads = suc w.reads })

-- `rand.Read` of n bytes.
abbrev pub drawn : Option Text → Outcome Text
drawn none = err random_failed
drawn (some b) = ok b

abbrev pub read_random : ℕ → M Text
read_random n env w = (drawn (env.random w.draws n), record w { draws = suc w.draws })

abbrev pub guard : Bool → Error → M (Unit {0})
guard true e = pure tt
guard false e = fail e

abbrev pub or_fail : {A : Type 0} → Option A → Error → M A
or_fail none e = fail e
or_fail (some a) e = pure a

-- The error of a call as a value, `x, err := m`.
abbrev pub attempted : {A : Type 0} → Outcome A → Outcome (Option A)
attempted (ok a) = ok (some a)
attempted (err e) = ok none
attempted panic = panic

abbrev pub attempt : {A : Type 0} → M A → M (Option A)
attempt m env w = let (r, w') = m env w in (attempted r, w')

-- `_ = m`.
abbrev pub ignored : {A : Type 0} → Outcome A → Outcome (Unit {0})
ignored (ok a) = ok tt
ignored (err e) = ok tt
ignored panic = panic

abbrev pub ignore : {A : Type 0} → M A → M (Unit {0})
ignore m env w = let (r, w') = m env w in (ignored r, w')

abbrev pub handled : {A : Type 0} → (Error → M A) → Env → Outcome A → World → Outcome A × World
handled h env (ok a) w = (ok a, w)
handled h env (err e) w = h e env w
handled h env panic w = (panic, w)

-- `if err := m; err != nil { h(err); return err }`: a handler that ends in an error.
abbrev pub on_error : {A : Type 0} → M A → (Error → M A) → M A
on_error m h env w = let (r, w') = m env w in handled h env r w'
