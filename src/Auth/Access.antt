-- ===== src/Auth/Access.antt =====
-- The rest of `AuthService` of auth-service-main/biometric-auth/internal/service/auth.go: one-time
-- codes, the exchange of a biometric login for tokens, refresh, logout and payments.
use dift_backend_auth.Base.{Bool, true, Option, none, some, [], if◌then◌else◌, Text}
use dift_backend_auth.Base.Int.{ℤ}
use dift_backend_auth.Domain.{Session, AuditLog, AuditAction, AuditResult, TokenClaims}
use dift_backend_auth.Runtime.{
  M, ◌>>=◌, ◌>>◌, pure, fail, ask, now, on_error, invalid_credentials, otp_invalid, token_revoked,
}
use dift_backend_auth.Repository.Users
use dift_backend_auth.Repository.Sessions
use dift_backend_auth.Audit.{entry, audit}
use dift_backend_auth.Crypto.{hash_refresh_token}
use dift_backend_auth.Token.{
  issue_token_pair, issue_step_up_token, rotate_refresh_token, revoke_session,
  revoke_all_user_sessions, used,
}
use dift_backend_auth.Biometric.{AuthenticateRequest, authenticate, StepUpRequest, step_up}

-- A placeholder in the source: it accepts every code.
unfoldable pub validate_totp : Text → Text → Bool
validate_totp otp secret = true

pub record OtpVerifyRequest : Type 0 where
  pub user_id : Text
  pub otp : Text
  pub session_id : Text
  pub ip_address : Text

abbrev pub otp_entry : OtpVerifyRequest → AuditResult → AuditLog
otp_entry req result = record (entry req.user_id [] AuditAction.otp_verify result) {
  session_id = req.session_id;
  ip_address = req.ip_address;
}

unfoldable pub verify_otp : OtpVerifyRequest → M (Unit {0})
unfolding Users.find_by_id
verify_otp req = do
  user ← on_error (Users.find_by_id req.user_id) (λ _. fail invalid_credentials)
  if validate_totp req.otp user.totp_secret
      then audit (otp_entry req AuditResult.success)
      else (do audit (otp_entry req AuditResult.failure); fail otp_invalid)

pub record BiometricTokenRequest : Type 0 where
  pub auth : AuthenticateRequest
  pub open auth use *
  pub session_id : Text

abbrev pub some_session : Option Session → M Session
some_session none = fail token_revoked
some_session (some s) = pure s

unfoldable pub exchange_biometric_token : BiometricTokenRequest → M (Text × Text)
unfolding Sessions.get_by_id Sessions.update
exchange_biometric_token req = do
  env ← ask
  _ ← authenticate req.auth
  session ← some_session (← Sessions.get_by_id req.session_id)
  (access, refresh) ← issue_token_pair req.user_id req.device_id req.session_id session.token_family
  t ← now
  Sessions.update (used session (hash_refresh_token env refresh) t)
  pure (access, refresh)

pub record RefreshRequest : Type 0 where
  pub refresh_token : Text
  pub device_id : Text
  pub ip_address : Text

unfoldable pub refresh : RefreshRequest → M (Text × Text)
refresh req = on_error (rotate_refresh_token req.refresh_token req.device_id) (λ e.
    audit (record (entry [] [] AuditAction.token_revoked AuditResult.failure) {
      ip_address = req.ip_address;
    })
    >> fail e)

unfoldable pub logout : TokenClaims → M (Unit {0})
logout claims = do
  audit (record (entry claims.user_id claims.device_id AuditAction.logout AuditResult.success) {
    session_id = claims.session_id;
  })
  revoke_session claims.session_id

unfoldable pub logout_all : TokenClaims → M (Unit {0})
logout_all claims = do
  audit (entry claims.user_id claims.device_id AuditAction.logout_all AuditResult.success)
  revoke_all_user_sessions claims.user_id

pub record StepUpAuthRequest : Type 0 where
  pub claims : TokenClaims
  pub challenge_id : Text
  pub nonce : Text
  pub signature : Text
  pub timestamp : ℤ
  pub is_rooted : Bool
  pub is_jailbroken : Bool

abbrev pub step_up_request : StepUpAuthRequest → StepUpRequest
step_up_request req = record {
  auth = record {
    user_id = req.claims.user_id;
    device_id = req.claims.device_id;
    challenge_id = req.challenge_id;
    nonce = req.nonce;
    signature = req.signature;
    timestamp = req.timestamp;
    is_rooted = req.is_rooted;
    is_jailbroken = req.is_jailbroken;
  };
  session_id = req.claims.session_id;
}

unfoldable pub authorize_payment : StepUpAuthRequest → M Text
authorize_payment req = do
  claims ← step_up (step_up_request req)
  token ← issue_step_up_token claims
  audit
      (record (entry claims.user_id claims.device_id AuditAction.payment_authorized
        AuditResult.success) { session_id = claims.session_id })
  pure token
