-- ===== src/Domain.antt =====
-- The records and enumerations of auth-service-main/biometric-auth/internal/domain/models.go.
-- Times of the server are nanoseconds since 1970; a client's times are signed seconds.
use dift_backend_auth.Base.{ℕ, Bool, Option, Text, codes}
use dift_backend_auth.Base.Int.{ℤ}

pub data UserStatus : Type 0 where
  active locked disabled : UserStatus

pub record User : Type 0 where
  pub id : Text
  pub phone : Text
  pub email : Text
  pub password_hash : Text
  pub totp_secret : Text
  pub status : UserStatus
  pub failed_attempts : ℕ
  pub locked_until : Option ℕ
  pub created_at : ℕ
  pub updated_at : ℕ

pub data DeviceStatus : Type 0 where
  active revoked blocked : DeviceStatus

pub record Device : Type 0 where
  pub id : Text
  pub user_id : Text
  pub name : Text
  pub platform : Text
  pub app_version : Text
  pub os_version : Text
  pub device_fingerprint : Text
  pub biometric_enabled : Bool
  pub public_key : Text
  pub key_id : Text
  pub biometric_type : Text
  pub enrolled_at : Option ℕ
  pub attestation_data : Text
  pub is_rooted : Bool
  pub is_jailbroken : Bool
  pub trust_score : ℕ
  pub status : DeviceStatus
  pub last_seen_at : ℕ
  pub created_at : ℕ
  pub revoked_at : Option ℕ
  pub revoked_by : Text

pub data SessionStatus : Type 0 where
  active revoked expired replayed : SessionStatus

pub record Session : Type 0 where
  pub id : Text
  pub user_id : Text
  pub device_id : Text
  pub refresh_token : Text
  pub token_family : Text
  pub last_used_at : ℕ
  pub use_count : ℕ
  pub step_up_token : Text
  pub step_up_expiry : Option ℕ
  pub status : SessionStatus
  pub expires_at : ℕ
  pub created_at : ℕ
  pub ip_address : Text
  pub user_agent : Text

pub record Challenge : Type 0 where
  pub id : Text
  pub nonce : Text
  pub user_id : Text
  pub device_id : Text
  pub action : Text
  pub hmac : Text
  pub expires_at : ℕ
  pub used_at : Option ℕ
  pub created_at : ℕ

-- A client chooses the action's text, so it is a text here too.
abbrev pub action_enroll : Text
action_enroll = codes "enroll"

abbrev pub action_authenticate : Text
action_authenticate = codes "authenticate"

abbrev pub action_step_up : Text
action_step_up = codes "step_up"

abbrev pub action_revoke : Text
action_revoke = codes "revoke"

pub data AuditAction : Type 0 where
  login login_failed otp_verify biometric_enroll biometric_auth biometric_failed : AuditAction
  token_refresh token_revoked replay_detected device_revoked rooted_device : AuditAction
  step_up_granted step_up_failed payment_authorized logout logout_all : AuditAction

pub data AuditResult : Type 0 where
  success failure blocked : AuditResult

-- `Details map[string]any` is left out: nothing reads it.
pub record AuditLog : Type 0 where
  pub id : Text
  pub user_id : Text
  pub device_id : Text
  pub session_id : Text
  pub action : AuditAction
  pub result : AuditResult
  pub ip_address : Text
  pub user_agent : Text
  pub risk_score : ℕ
  pub created_at : ℕ

-- A token's type is a text of the decoded payload.
abbrev pub token_type_access : Text
token_type_access = codes "access"

abbrev pub token_type_refresh : Text
token_type_refresh = codes "refresh"

pub record TokenClaims : Type 0 where
  pub user_id : Text
  pub device_id : Text
  pub session_id : Text
  pub token_type : Text
  pub step_up : Bool
  pub step_up_exp : Option ℤ

-- The claims of an access token as `service/token.go` signs them. Times are Unix seconds.
pub record TokenPayload : Type 0 where
  pub sub : Text
  pub device_id : Text
  pub session_id : Text
  pub typ : Text
  pub family : Text
  pub step_up : Bool
  pub step_up_exp : Option ℤ
  pub iat : ℤ
  pub exp : ℤ
  pub jti : Text
