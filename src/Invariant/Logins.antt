-- ===== src/Invariant/Logins.antt =====
-- The operations of `AuthService` keep what the writes of the repositories keep.
use dift_backend_auth.Base.{Text, Option, none, some, List, [], ◌∷◌}
use dift_backend_auth.Encoding.{split}
use dift_backend_auth.Domain.{User, TokenClaims}
use dift_backend_auth.Runtime.{World}
use dift_backend_auth.Runtime.Frame.{Within, frame_rules}
use dift_backend_auth.Crypto
use dift_backend_auth.Crypto.{verify_password}
use dift_backend_auth.Auth.{
  LoginRequest, create_session, count_failure, handle_failed_login, finish_login, login_as, login,
}
use dift_backend_auth.Auth.Access.{
  OtpVerifyRequest, verify_otp, BiometricTokenRequest, exchange_biometric_token, RefreshRequest,
  refresh, logout, logout_all, StepUpAuthRequest, authorize_payment,
}
use dift_backend_auth.Invariant.{IsKept}
use dift_backend_auth.Invariant.Steps.{
  audit-Within, issue_token_pair-Within, refuse_locked-Within, secure_hex-Within,
  session_store-Within, session_update-Within, some_session-Within, user_update-Within,
}
use dift_backend_auth.Invariant.Services.{
  authenticate-Within, issue_step_up_token-Within, register_device-Within,
  revoke_all_user_sessions-Within, revoke_session-Within, rotate_refresh_token-Within,
  step_up-Within,
}

module _ {R : World → World → Type 0} (kept : IsKept R) where
  verify_parts-Within :
      (password : Text) (parts : List Text) → Within R (Crypto.verify_parts password parts)
  unfolding Crypto.verify_parts
  verify_parts-Within p [] = search (frame_rules, kept.frame)
  verify_parts-Within p (a ∷ []) = search (frame_rules, kept.frame)
  verify_parts-Within p (a ∷ b ∷ []) = search (frame_rules, kept.frame)
  verify_parts-Within p (a ∷ b ∷ c ∷ []) = search (frame_rules, kept.frame)
  verify_parts-Within p (a ∷ b ∷ c ∷ d ∷ []) = search (frame_rules, kept.frame)
  verify_parts-Within p (a ∷ b ∷ c ∷ d ∷ e ∷ []) = search (frame_rules, kept.frame)
  verify_parts-Within p (a ∷ b ∷ c ∷ d ∷ e ∷ f ∷ []) = search (frame_rules, kept.frame) depth 20
  verify_parts-Within p (a ∷ b ∷ c ∷ d ∷ e ∷ f ∷ g ∷ r) = search (frame_rules, kept.frame)

  pub verify_password-Within :
      (password encoded : Text) → Within R (verify_password password encoded)
  unfolding verify_password
  verify_password-Within password encoded = verify_parts-Within password (split b'$' encoded)

  create_session-Within :
      (user_id device_id ip ua : Text) → Within R (create_session user_id device_id ip ua)
  unfolding create_session
  create_session-Within user_id device_id ip ua =
      search
        (frame_rules, kept.frame, secure_hex-Within, issue_token_pair-Within, session_store-Within)
        depth 20

  count_failure-Within : (u : User) → Within R (count_failure u)
  unfolding count_failure
  count_failure-Within u = search (frame_rules, kept.frame) depth 12

  handle_failed_login-Within : (u : User) (ip : Text) → Within R (handle_failed_login u ip)
  unfolding handle_failed_login
  handle_failed_login-Within u ip =
      search (frame_rules, kept.frame, count_failure-Within, user_update-Within, audit-Within) depth
        12

  finish_login-Within : (req : LoginRequest) (u : User) → Within R (finish_login req u)
  unfolding finish_login
  finish_login-Within req u =
      search
        (
          frame_rules, kept.frame, user_update-Within, register_device-Within,
          create_session-Within, audit-Within,
        )
        depth 20

  login_as-Within : (req : LoginRequest) (o : Option User) → Within R (login_as req o)
  unfolding login_as
  login_as-Within req none =
      search (frame_rules, kept.frame, verify_password-Within, audit-Within) depth 12
  login_as-Within req (some u) =
      search
        (
          frame_rules, kept.frame, refuse_locked-Within, verify_password-Within,
          finish_login-Within, handle_failed_login-Within,
        )
        depth 20

  pub login-Within : (req : LoginRequest) → Within R (login req)
  unfolding login
  login-Within req = search (frame_rules, kept.frame, login_as-Within) depth 12

  pub verify_otp-Within : (req : OtpVerifyRequest) → Within R (verify_otp req)
  unfolding verify_otp
  verify_otp-Within req = search (frame_rules, kept.frame, audit-Within) depth 20

  pub exchange_biometric_token-Within :
      (req : BiometricTokenRequest) → Within R (exchange_biometric_token req)
  unfolding exchange_biometric_token
  exchange_biometric_token-Within req =
      search
        (
          frame_rules, kept.frame, authenticate-Within, some_session-Within,
          issue_token_pair-Within, session_update-Within,
        )
        depth 20

  pub refresh-Within : (req : RefreshRequest) → Within R (refresh req)
  unfolding refresh
  refresh-Within req =
      search (frame_rules, kept.frame, rotate_refresh_token-Within, audit-Within) depth 12

  pub logout-Within : (c : TokenClaims) → Within R (logout c)
  unfolding logout
  logout-Within c = search (frame_rules, kept.frame, revoke_session-Within, audit-Within) depth 12

  pub logout_all-Within : (c : TokenClaims) → Within R (logout_all c)
  unfolding logout_all
  logout_all-Within c =
      search (frame_rules, kept.frame, revoke_all_user_sessions-Within, audit-Within) depth 12

  pub authorize_payment-Within : (req : StepUpAuthRequest) → Within R (authorize_payment req)
  unfolding authorize_payment
  authorize_payment-Within req =
      search (frame_rules, kept.frame, step_up-Within, issue_step_up_token-Within, audit-Within)
        depth 20
