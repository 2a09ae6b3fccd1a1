-- ===== src/Legacy/Engine.antt =====
-- The earlier engine's users and sessions: the types that internal/auth uses, on the columns of
-- deployments/migrations.sql, what its code calls outside the repository, and the monad of a call.
pub mod Tables
pub mod Users
pub mod Sessions
pub mod Trail
pub mod Links
pub mod Tokens
pub mod Secrets
pub mod Service
pub mod Policy
pub mod Login
pub mod Access
pub mod Handlers
pub mod Frame
pub mod Inversion
pub mod Kept
pub mod Served
pub mod Requests
pub mod Opened
pub mod Ended
pub mod Restored
pub mod Reused
pub mod Sound
pub mod Capped
pub mod Padded
pub mod Confirmed
use dift_backend_auth.Base.{ℕ, suc, ◌+◌, Bool, true, false, Option, none, some, List, Text}
use dift_backend_auth.Store
use dift_backend_auth.Legacy.Codes

pub data UserStatus : Type 0 where
  pending active inactive suspended : UserStatus

pub record User : Type 0 where
  pub id : Text
  pub email : Option Text
  pub phone : Option Text
  pub password_hash : Option Text
  pub display_name : Text
  pub avatar_url : Option Text
  pub status : UserStatus
  pub role : Text
  pub email_verified : Bool
  pub mfa_enabled : Bool
  pub mfa_secret : Option Text
  pub mfa_backup_codes : List Text
  pub failed_login_count : ℕ
  pub locked_until : Option ℕ
  pub last_login_at : Option ℕ
  pub last_login_ip : Option Text
  pub password_changed_at : Option ℕ
  pub deleted_at : Option ℕ

pub record Session : Type 0 where
  pub id : Text
  pub user_id : Text
  pub refresh_token : Text
  pub device_info : Text
  pub ip_address : Text
  pub user_agent : Text
  pub is_active : Bool
  pub expires_at : ℕ
  pub last_seen_at : ℕ

pub record OAuthProvider : Type 0 where
  pub user_id : Text
  pub provider : Text
  pub provider_uid : Text

-- The risk is a tenth.
pub record AuditLog : Type 0 where
  pub user_id : Option Text
  pub action : Text
  pub resource : Text
  pub ip_address : Text
  pub user_agent : Text
  pub status : Text
  pub risk_score : ℕ

pub record Claims : Type 0 where
  pub user_id : Text
  pub session_id : Text
  pub role : Text
  pub email : Option Text
  pub phone : Option Text
  pub mfa_done : Bool
  pub token_type : Text
  pub id : Text
  pub issuer : Text
  pub issued_at : ℕ
  pub not_before : ℕ
  pub expires_at : ℕ

pub record ProviderUser : Type 0 where
  pub provider_uid : Text
  pub email : Option Text
  pub display_name : Text
  pub avatar_url : Option Text
  pub verified : Bool

-- The fields of the configuration that the service reads; durations are nanoseconds.
pub record Config : Type 0 where
  pub bcrypt_cost : ℕ
  pub max_login_attempts : ℕ
  pub lockout_duration : ℕ
  pub password_min_length : ℕ
  pub password_require_upper : Bool
  pub password_require_lower : Bool
  pub password_require_digit : Bool
  pub password_require_spec : Bool
  pub session_max_devices : ℕ
  pub access_secret : Text
  pub refresh_secret : Text
  pub access_expiry : ℕ
  pub refresh_expiry : ℕ
  pub issuer : Text

-- What the JWT library says of a token at a time: that it expired, that it is not valid, or claims.
pub data Parsed : Type 0 where
  expired malformed : Parsed
  valid : Claims → Parsed

-- What leaves the repository, with the clock, the identifiers, Redis and the notifier of `codes`.
-- `answers k` is whether the database answers the k-th statement, `row_id` the id that it fills in
-- there, and `precedes` the order of its primary keys.
pub record Outside : Type 0 where
  pub codes : Codes.Outside
  pub cfg : Config
  pub answers : ℕ → Bool
  pub row_id : ℕ → Text
  pub precedes : Text → Text → Bool
  pub signed : (secret : Text) → Claims → Option Text
  pub parsed : (secret : Text) → (now : ℕ) → Text → Parsed
  pub bcrypt : ℕ → (cost : ℕ) → Text → Option Text
  pub bcrypt_matches : (hash password : Text) → Bool
  pub sha256 : Text → Text
  pub random : ℕ → ℕ → Option Text
  pub aes_gcm_seal : (key nonce plaintext : Text) → Text
  pub aes_gcm_open : (key nonce ciphertext : Text) → Option Text
  pub totp_generate : ℕ → Text → Option (Text × Text)
  pub totp_validate : (now : ℕ) → (code secret : Text) → Bool
  -- the texts of `models.OTPPurpose`, whose file is not in the repository
  pub verify_email : Text
  pub verify_phone : Text
  pub password_reset : Text
  -- a provider of the registry, and the user whom it verifies a token for
  pub id_token : (provider token : Text) → Option (Option ProviderUser)

pub record State : Type 0 where
  pub users : Store.Store User
  pub sessions : Store.Store Session
  pub oauths : List OAuthProvider
  pub audits : List AuditLog
  pub keys : Store.Store Codes.Entry
  pub reads : ℕ
  pub draws : ℕ
  pub commands : ℕ
  pub statements : ℕ

-- The first rule of the password policy that does not hold.
pub data Weakness : Type 0 where
  too_short no_upper no_lower no_digit no_special : Weakness

pub data Failure : Type 0 where
  invalid_credentials email_already_exists phone_already_exists account_locked : Failure
  account_suspended invalid_token session_expired session_limit_reached : Failure
  invalid_mfa_code user_not_found : Failure
  -- of pkg/jwt
  token_invalid token_expired : Failure
  -- the errors without a name: a database's, a library's, a policy's, and those of the codes
  not_found unavailable conflict library mfa_not_initialized mfa_not_enabled : Failure
  unknown_provider : Failure
  weak : Weakness → Failure
  of_code : Codes.Failure → Failure

pub data Result (A : Type 0) : Type 0 where
  ok : A → Result A
  err : Failure → Result A

-- What was written before an error stays written.
abbrev pub M : Type 0 → Type 0
M A = State → Result A × State

abbrev pub pure : {A : Type 0} → A → M A
pure a w = (ok a, w)

abbrev pub fail : {A : Type 0} → Failure → M A
fail e w = (err e, w)

abbrev pub resume : {A B : Type 0} → (A → M B) → Result A × State → Result B × State
resume f (ok a, w) = f a w
resume f (err e, w) = (err e, w)

infixl 5 ◌>>=◌ ◌>>◌
abbrev pub ◌>>=◌ : {A B : Type 0} → M A → (A → M B) → M B
◌>>=◌ m f w = resume f (m w)

abbrev pub ◌>>◌ : {B : Type 0} → M (Unit {0}) → M B → M B
m >> k = m >>= λ _. k

abbrev pub guard : Bool → Failure → M (Unit {0})
guard true e = pure tt
guard false e = fail e

abbrev pub or_fail : {A : Type 0} → Option A → Failure → M A
or_fail none e = fail e
or_fail (some a) e = pure a

abbrev pub lift : {A : Type 0} → Result A → M A
lift r w = (r, w)

-- `x, err := m`, with the error looked at later, and `_ = m`.
abbrev pub attempt : {A : Type 0} → M A → M (Result A)
attempt m w = let (r, w') = m w in (ok r, w')

abbrev pub ignore : {A : Type 0} → M A → M (Unit {0})
ignore m w = (ok tt, (m w).1)

-- An error of a call, answered as another.
abbrev pub relabelled : {A : Type 0} → Failure → Result A × State → Result A × State
relabelled e (ok a, w) = (ok a, w)
relabelled e (err x, w) = (err e, w)

abbrev pub or_else : {A : Type 0} → M A → Failure → M A
or_else m e w = relabelled e (m w)

abbrev pub now : Outside → M ℕ
now out w = (ok (out.codes.clock w.reads), record w { reads = suc w.reads })

abbrev pub draw : M ℕ
draw w = (ok w.draws, record w { draws = suc w.draws })

abbrev pub new_uuid : Outside → M Text
new_uuid out = do n ← draw; pure (out.codes.uuid n)

abbrev pub uncoded : {A : Type 0} → Codes.Result A → Result A
uncoded (Codes.ok a) = ok a
uncoded (Codes.err e) = err (of_code e)

-- A call of the service of one-time codes, on its part of the state.
abbrev pub coded : {A : Type 0} → Codes.Step A → M A
coded f w =
    let part : Codes.State = record {
      keys = w.keys;
      reads = w.reads;
      draws = w.draws;
      commands = w.commands;
    } in
    let (r, c) = f part in
    (uncoded r, record w { keys = c.keys; reads = c.reads; draws = c.draws; commands = c.commands })
