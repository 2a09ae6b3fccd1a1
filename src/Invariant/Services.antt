-- ===== src/Invariant/Services.antt =====
-- The operations of the services keep what the writes of the repositories keep.
use dift_backend_auth.Base.{Text}
use dift_backend_auth.Base.Int.{ℤ}
use dift_backend_auth.Domain.{Device, TokenClaims, TokenPayload, Session}
use dift_backend_auth.Runtime.{World}
use dift_backend_auth.Runtime.Frame.{Within, frame_rules}
use dift_backend_auth.Token.{
  rotate_in, rotate_refresh_token, revoke_session, revoke_all_user_sessions, issue_step_up_token,
}
use dift_backend_auth.Device.{
  register_device, enable_biometric, EnableBiometricParams, get_device, revoke_device,
  update_last_seen,
}
use dift_backend_auth.Biometric.{
  ChallengeRequest, get_challenge, consume_challenge, check_timestamp_drift, EnrollRequest, enroll,
  AuthenticateRequest, verify_login, authenticate, StepUpRequest, step_up,
}
use dift_backend_auth.Invariant.{IsKept}
use dift_backend_auth.Invariant.Steps.{
  active_session-Within, audit-Within, challenge_store-Within, challenge_update-Within,
  device_store-Within, device_update-Within, enrolled_device-Within, issue_token_pair-Within,
  owned-Within, random_base64_url-Within, random_hex-Within, reject_rooted-Within,
  revoke_all_by_user-Within, revoke_family-Within, revoke_found-Within, secure_hex-Within,
  see-Within, session_update-Within, sign-Within, unused-Within, validate_public_key_format-Within,
  verify-Within, verify_signature_for_algo-Within,
}

module _ {R : World → World → Type 0} (kept : IsKept R) where
  pub get_challenge-Within : (req : ChallengeRequest) → Within R (get_challenge req)
  unfolding get_challenge
  get_challenge-Within req =
      search
        (
          frame_rules, kept.frame, random_base64_url-Within, random_hex-Within,
          challenge_store-Within,
        )
        depth 16

  pub consume_challenge-Within :
      (id device_id action : Text) → Within R (consume_challenge id device_id action)
  unfolding consume_challenge
  consume_challenge-Within id device_id action =
      search (frame_rules, kept.frame, unused-Within, challenge_update-Within) depth 20

  pub update_last_seen-Within : (id : Text) → Within R (update_last_seen id)
  unfolding update_last_seen
  update_last_seen-Within id = search (frame_rules, kept.frame, see-Within) depth 12

  pub enable_biometric-Within :
      (device_id user_id : Text) (params : EnableBiometricParams)
      → Within R (enable_biometric device_id user_id params)
  unfolding enable_biometric
  enable_biometric-Within device_id user_id params =
      search (frame_rules, kept.frame, owned-Within, device_update-Within) depth 12

  pub revoke_device-Within :
      (device_id user_id by : Text) → Within R (revoke_device device_id user_id by)
  unfolding revoke_device
  revoke_device-Within device_id user_id by =
      search (frame_rules, kept.frame, owned-Within, device_update-Within, audit-Within) depth 12

  pub register_device-Within : (user_id : Text) (d : Device) → Within R (register_device user_id d)
  unfolding register_device
  register_device-Within user_id d = search (frame_rules, kept.frame, device_store-Within) depth 12

  pub check_timestamp_drift-Within : (ts : ℤ) → Within R (check_timestamp_drift ts)
  unfolding check_timestamp_drift
  check_timestamp_drift-Within ts = search (frame_rules, kept.frame)

  pub enroll-Within : (req : EnrollRequest) → Within R (enroll req)
  unfolding enroll
  enroll-Within req =
      search
        (
          frame_rules, kept.frame, reject_rooted-Within, consume_challenge-Within,
          check_timestamp_drift-Within, validate_public_key_format-Within,
          verify_signature_for_algo-Within, audit-Within, enable_biometric-Within,
        )
        depth 20

  verify_login-Within : (req : AuthenticateRequest) (d : Device) → Within R (verify_login req d)
  unfolding verify_login
  verify_login-Within req d =
      search
        (
          frame_rules, kept.frame, check_timestamp_drift-Within, verify_signature_for_algo-Within,
          update_last_seen-Within, audit-Within,
        )
        depth 20

  pub authenticate-Within : (req : AuthenticateRequest) → Within R (authenticate req)
  unfolding authenticate get_device
  authenticate-Within req =
      search
        (
          frame_rules, kept.frame, reject_rooted-Within, enrolled_device-Within,
          consume_challenge-Within, verify_login-Within,
        )
        depth 20

  pub step_up-Within : (req : StepUpRequest) → Within R (step_up req)
  unfolding step_up
  step_up-Within req = search (frame_rules, kept.frame, authenticate-Within, audit-Within) depth 20

  pub issue_step_up_token-Within : (c : TokenClaims) → Within R (issue_step_up_token c)
  unfolding issue_step_up_token
  issue_step_up_token-Within c =
      search (frame_rules, kept.frame, secure_hex-Within, sign-Within) depth 12

  rotate_in-Within : (raw : Text) (p : TokenPayload) (s : Session) → Within R (rotate_in raw p s)
  unfolding rotate_in
  rotate_in-Within raw p s =
      search
        (
          frame_rules, kept.frame, issue_token_pair-Within, session_update-Within,
          revoke_family-Within,
        )
        depth 20

  pub rotate_refresh_token-Within :
      (raw device_id : Text) → Within R (rotate_refresh_token raw device_id)
  unfolding rotate_refresh_token
  rotate_refresh_token-Within raw device_id =
      search (frame_rules, kept.frame, verify-Within, active_session-Within, rotate_in-Within) depth
        20

  pub revoke_session-Within : (id : Text) → Within R (revoke_session id)
  unfolding revoke_session
  revoke_session-Within id = search (frame_rules, kept.frame, revoke_found-Within) depth 12

  pub revoke_all_user_sessions-Within :
      (user_id : Text) → Within R (revoke_all_user_sessions user_id)
  unfolding revoke_all_user_sessions
  revoke_all_user_sessions-Within user_id = revoke_all_by_user-Within kept user_id
