-- ===== src/Http/Auth.antt =====
-- `AuthHandler` of auth-service-main/biometric-auth/internal/handler/handler.go.
use dift_backend_auth.Base.{Bool, Option, Text, codes}
use dift_backend_auth.Base.Int.{ℤ}
use dift_backend_auth.Domain.{TokenClaims}
use dift_backend_auth.Runtime.{
  Error, M, pure, ◌>>◌, ignore, invalid_credentials, account_locked, account_disabled,
  family_compromised, token_invalid, token_expired, token_revoked,
}
use dift_backend_auth.Auth.{LoginRequest, LoginResponse, login}
use dift_backend_auth.Auth.Access.{verify_otp, refresh, logout, logout_all, authorize_payment}
use dift_backend_auth.Http.{Body, Response, write_json, write_error, respond, decoded, with_claims}

pub record LoginBody : Type 0 where
  pub identifier : Text
  pub password : Text
  pub device_id : Text
  pub device_name : Text
  pub platform : Text
  pub app_version : Text
  pub os_version : Text
  pub fingerprint : Text
  pub is_rooted : Bool
  pub is_jailbroken : Bool

abbrev pub login_request : LoginBody → Text → Text → LoginRequest
login_request b remote_addr user_agent = record {
  identifier = b.identifier;
  password = b.password;
  device_id = b.device_id;
  ip_address = remote_addr;
  user_agent = user_agent;
  device_name = b.device_name;
  platform = b.platform;
  app_version = b.app_version;
  os_version = b.os_version;
  fingerprint = b.fingerprint;
  is_rooted = b.is_rooted;
  is_jailbroken = b.is_jailbroken;
}

abbrev pub login_error : Error → Response
login_error invalid_credentials = write_error 401 (codes "invalid credentials")
login_error account_locked = write_error 429 (codes "account locked")
login_error account_disabled = write_error 403 (codes "account disabled")
login_error _ = write_error 500 (codes "login failed")

abbrev pub login_answer : LoginResponse → Response
login_answer r =
    write_json 200 (Body.logged_in r.access_token r.refresh_token r.user_id r.requires_otp)

unfoldable pub handle_login : Option LoginBody → Text → Text → M Response
handle_login body remote_addr user_agent =
    decoded body
      (λ b. respond (login (login_request b remote_addr user_agent)) login_answer login_error)

unfoldable pub handle_send_otp : M Response
handle_send_otp = pure (write_json 200 (Body.status (codes "otp_sent")))

pub record OtpBody : Type 0 where
  pub user_id : Text
  pub otp : Text
  pub session_id : Text

unfoldable pub handle_verify_otp : Option OtpBody → Text → M Response
handle_verify_otp body remote_addr = decoded body (λ b.
    respond
      (verify_otp (record {
        user_id = b.user_id;
        otp = b.otp;
        session_id = b.session_id;
        ip_address = remote_addr;
      }))
      (λ _. write_json 200 (Body.status (codes "verified")))
      (λ _. write_error 401 (codes "invalid OTP")))

pub record RefreshBody : Type 0 where
  pub refresh_token : Text
  pub device_id : Text

abbrev pub refresh_error : Error → Response
refresh_error family_compromised = write_error 401 (codes "security alert: all sessions revoked")
refresh_error token_invalid = write_error 401 (codes "token invalid")
refresh_error token_expired = write_error 401 (codes "token invalid")
refresh_error token_revoked = write_error 401 (codes "token revoked")
refresh_error _ = write_error 500 (codes "refresh failed")

unfoldable pub handle_refresh : Option RefreshBody → Text → M Response
handle_refresh body remote_addr = decoded body (λ b.
    respond
      (refresh (record {
        refresh_token = b.refresh_token;
        device_id = b.device_id;
        ip_address = remote_addr;
      }))
      (λ (p : Text × Text). write_json 200 (Body.tokens p.0 p.1)) refresh_error)

-- The service's error is dropped, its panic is not.
unfoldable pub handle_logout : Option TokenClaims → M Response
handle_logout claims =
    with_claims claims
      (λ c. ignore (logout c) >> pure (write_json 200 (Body.status (codes "logged_out"))))

unfoldable pub handle_logout_all : Option TokenClaims → M Response
handle_logout_all claims = with_claims claims (λ c.
    ignore (logout_all c) >> pure (write_json 200 (Body.status (codes "all_sessions_revoked"))))

pub record StepUpBody : Type 0 where
  pub challenge_id : Text
  pub nonce : Text
  pub signature : Text
  pub timestamp : ℤ
  pub is_rooted : Bool
  pub is_jailbroken : Bool

unfoldable pub handle_authorize_payment : Option TokenClaims → Option StepUpBody → M Response
handle_authorize_payment claims body = decoded body (λ b. with_claims claims (λ c.
    respond
      (authorize_payment (record {
        claims = c;
        challenge_id = b.challenge_id;
        nonce = b.nonce;
        signature = b.signature;
        timestamp = b.timestamp;
        is_rooted = b.is_rooted;
        is_jailbroken = b.is_jailbroken;
      }))
      (λ t. write_json 200 (Body.step_up t))
      (λ _. write_error 401 (codes "step-up authentication failed"))))
