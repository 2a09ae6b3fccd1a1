-- ===== src/Invariant/Reachable.antt =====
-- What a client can make the services do, and the states that a sequence of such calls reaches.
use dift_backend_auth.Base.{Text, ◌≡◌}
use dift_backend_auth.Domain.{TokenClaims}
use dift_backend_auth.Runtime.{Env, World}
use dift_backend_auth.Device.{revoke_device}
use dift_backend_auth.Biometric.{
  ChallengeRequest, get_challenge, EnrollRequest, enroll, AuthenticateRequest, authenticate,
}
use dift_backend_auth.Auth.{LoginRequest, login}
use dift_backend_auth.Auth.Access.{
  OtpVerifyRequest, verify_otp, BiometricTokenRequest, exchange_biometric_token, RefreshRequest,
  refresh, logout, logout_all, StepUpAuthRequest, authorize_payment,
}
use dift_backend_auth.Invariant.{IsKept}
use dift_backend_auth.Invariant.Services.{
  get_challenge-Within, enroll-Within, authenticate-Within, revoke_device-Within,
}
use dift_backend_auth.Invariant.Logins.{
  login-Within, verify_otp-Within, exchange_biometric_token-Within, refresh-Within, logout-Within,
  logout_all-Within, authorize_payment-Within,
}

-- The calls of the services that change the state: those that the handlers make, and the biometric
-- login that two of them rest on.
pub data Operation : Type 0 where
  challenge : ChallengeRequest → Operation
  enrolment : EnrollRequest → Operation
  biometric_login : AuthenticateRequest → Operation
  password_login : LoginRequest → Operation
  one_time_code : OtpVerifyRequest → Operation
  token_exchange : BiometricTokenRequest → Operation
  rotation : RefreshRequest → Operation
  leave : TokenClaims → Operation
  leave_everywhere : TokenClaims → Operation
  payment : StepUpAuthRequest → Operation
  device_revocation : Text → Text → Text → Operation

-- The state after a call, however it ends.
abbrev pub after : Env → World → Operation → World
after env w (Operation.challenge req) = (get_challenge req env w).1
after env w (Operation.enrolment req) = (enroll req env w).1
after env w (Operation.biometric_login req) = (authenticate req env w).1
after env w (Operation.password_login req) = (login req env w).1
after env w (Operation.one_time_code req) = (verify_otp req env w).1
after env w (Operation.token_exchange req) = (exchange_biometric_token req env w).1
after env w (Operation.rotation req) = (refresh req env w).1
after env w (Operation.leave claims) = (logout claims env w).1
after env w (Operation.leave_everywhere claims) = (logout_all claims env w).1
after env w (Operation.payment req) = (authorize_payment req env w).1
after env w (Operation.device_revocation id user by) = (revoke_device id user by env w).1

-- A state that calls reach from another.
pub data Reaches (env : Env) : World → World → Type 0 where
  start : (w : World) → Reaches env w w
  then : {u v w : World} → Reaches env u v → (op : Operation) → after env v op ≡ w → Reaches env u w

module _ {R : World → World → Type 0} (kept : IsKept R) (env : Env) where
  pub after-kept : (w : World) (op : Operation) → R w (after env w op)
  after-kept w (Operation.challenge req) = (get_challenge-Within kept req).apply env w
  after-kept w (Operation.enrolment req) = (enroll-Within kept req).apply env w
  after-kept w (Operation.biometric_login req) = (authenticate-Within kept req).apply env w
  after-kept w (Operation.password_login req) = (login-Within kept req).apply env w
  after-kept w (Operation.one_time_code req) = (verify_otp-Within kept req).apply env w
  after-kept w (Operation.token_exchange req) =
      (exchange_biometric_token-Within kept req).apply env w
  after-kept w (Operation.rotation req) = (refresh-Within kept req).apply env w
  after-kept w (Operation.leave claims) = (logout-Within kept claims).apply env w
  after-kept w (Operation.leave_everywhere claims) = (logout_all-Within kept claims).apply env w
  after-kept w (Operation.payment req) = (authorize_payment-Within kept req).apply env w
  after-kept w (Operation.device_revocation id user by) =
      (revoke_device-Within kept id user by).apply env w

  pub Reaches-kept : {u w : World} → Reaches env u w → R u w
  Reaches-kept (start w) = kept.frame.refl w
  Reaches-kept (then {u} {v} {w} r op e) =
      kept.frame.trans u v w (Reaches-kept r) (rw (← e) (after-kept v op))
