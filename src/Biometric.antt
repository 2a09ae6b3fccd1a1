-- ===== src/Biometric.antt =====
-- `BiometricService` of auth-service-main/biometric-auth/internal/service/biometric.go.
pub mod Consumption
pub mod Soundness
pub mod Replay
pub mod Issuing
pub mod Enrolment
use dift_backend_auth.Base.{
  ℕ, ◌+◌, ◌*◌, Bool, true, false, not, Option, none, some, [], ◌||◌, ◌&&◌, ltb, if◌then◌else◌, Text,
  text_eq, is_empty,
}
use dift_backend_auth.Base.Int.{ℤ}
use dift_backend_auth.Domain.{
  Challenge, Device, DeviceStatus, AuditLog, AuditAction, AuditResult, TokenClaims, action_enroll,
  action_authenticate,
}
use dift_backend_auth.Runtime.{
  Env, World, Outcome, ok, err, panic, M, Error, ◌>>=◌, ◌>>◌, pure, fail, ask, now, guard, ignore,
  on_error, challenge_expired, challenge_used, challenge_invalid, device_not_found,
  device_not_active, biometric_disabled, signature_invalid, rooted_device, timestamp_drift,
}
use dift_backend_auth.Repository.Challenges
use dift_backend_auth.Audit.{entry, audit}
use dift_backend_auth.Device.{enable_biometric, get_device, update_last_seen}
use dift_backend_auth.Drift.{drift_ok}
use dift_backend_auth.Crypto.{
  random_base64_url, random_hex, hmac_challenge, verify_hmac_challenge, build_signed_payload,
  validate_public_key_format, verify_signature_for_algo,
}

pub record ChallengeRequest : Type 0 where
  pub user_id : Text
  pub device_id : Text
  pub action : Text

pub record ChallengeResponse : Type 0 where
  pub challenge_id : Text
  pub nonce : Text
  pub expires_at : ℕ
  pub hmac : Text

unfoldable pub get_challenge : ChallengeRequest → M ChallengeResponse
unfolding Challenges.store
get_challenge req = do
  env ← ask
  nonce ← random_base64_url 32
  challenge_id ← random_hex 16
  t ← now
  let expiry = t + env.cfg.challenge_ttl
  let seal = hmac_challenge env nonce req.device_id req.action expiry
  created ← now
  Challenges.store (record {
    id = challenge_id;
    nonce = nonce;
    user_id = req.user_id;
    device_id = req.device_id;
    action = req.action;
    hmac = seal;
    expires_at = expiry;
    used_at = none;
    created_at = created;
  })
  pure (record { challenge_id = challenge_id; nonce = nonce; expires_at = expiry; hmac = seal })

-- The checks of `consumeChallenge` on the challenge that was found.
abbrev pub unused : Option Challenge → M Challenge
unused none = fail challenge_invalid
unused (some c) = elim c.used_at [ none ↦ pure c | some t ↦ fail challenge_used ]

-- The seal of a challenge that the repository holds.
abbrev pub is_sealed : Env → Challenge → Bool
is_sealed env c = verify_hmac_challenge env c.nonce c.device_id c.action c.expires_at c.hmac

unfoldable pub consume_challenge : Text → Text → Text → M (Unit {0})
unfolding Challenges.get Challenges.update
consume_challenge challenge_id device_id expected_action = do
  env ← ask
  c ← unused (← Challenges.get challenge_id)
  t ← now
  guard (not (ltb c.expires_at t)) challenge_expired
  guard (text_eq c.device_id device_id && text_eq c.action expected_action) challenge_invalid
  guard (is_sealed env c) challenge_invalid
  used ← now
  Challenges.update (record c { used_at = some used })

unfoldable pub check_timestamp_drift : ℤ → M (Unit {0})
check_timestamp_drift ts = do t ← now; guard (drift_ok t ts) timestamp_drift

pub record EnrollRequest : Type 0 where
  pub user_id : Text
  pub device_id : Text
  pub challenge_id : Text
  pub public_key_pem : Text
  pub key_id : Text
  pub key_algo : Text
  pub signature : Text
  pub timestamp : ℤ
  pub biometric_type : Text
  pub attestation_data : Text
  pub is_rooted : Bool
  pub is_jailbroken : Bool

-- The rejection of a device that says it is rooted or jailbroken.
abbrev pub reject_rooted : Text → Text → Bool → M (Unit {0})
reject_rooted user_id device_id true =
    audit (entry user_id device_id AuditAction.rooted_device AuditResult.blocked)
    >> fail rooted_device
reject_rooted user_id device_id false = pure tt

-- A record of the failure, and the error that the caller gets.
abbrev pub reporting : AuditLog → Error → M (Unit {0})
reporting l e = audit l >> fail e

unfoldable pub enroll : EnrollRequest → M (Unit {0})
enroll req = do
  reject_rooted req.user_id req.device_id (req.is_rooted || req.is_jailbroken)
  consume_challenge req.challenge_id req.device_id action_enroll
  check_timestamp_drift req.timestamp
  validate_public_key_format req.public_key_pem req.key_algo
  let payload = build_signed_payload req.challenge_id req.device_id action_enroll req.timestamp
  on_error (verify_signature_for_algo req.key_algo req.public_key_pem payload req.signature) (λ _.
      reporting (entry req.user_id req.device_id AuditAction.biometric_failed AuditResult.failure)
        signature_invalid)
  enable_biometric req.device_id req.user_id (record {
    public_key = req.public_key_pem;
    key_id = req.key_id;
    key_algo = req.key_algo;
    biometric_type = req.biometric_type;
    attestation_data = req.attestation_data;
    is_rooted = req.is_rooted;
    is_jailbroken = req.is_jailbroken;
  })
  audit (entry req.user_id req.device_id AuditAction.biometric_enroll AuditResult.success)

pub record AuthenticateRequest : Type 0 where
  pub user_id : Text
  pub device_id : Text
  pub challenge_id : Text
  pub nonce : Text
  pub signature : Text
  pub timestamp : ℤ
  pub is_rooted : Bool
  pub is_jailbroken : Bool

pub record AuthenticateResult : Type 0 where
  pub user_id : Text
  pub device_id : Text

abbrev pub is_active : DeviceStatus → Bool
is_active DeviceStatus.active = true
is_active DeviceStatus.revoked = false
is_active DeviceStatus.blocked = false

-- The device that was found, if it is the user's, active and enrolled.
abbrev pub enrolled_device : Text → Option Device → M Device
enrolled_device user_id none = fail device_not_found
enrolled_device user_id (some d) = do
  guard (text_eq d.user_id user_id) device_not_found
  guard (is_active d.status) device_not_active
  guard (d.biometric_enabled && not (is_empty d.public_key)) biometric_disabled
  pure d

-- The time of the request, a failure recorded as a replay.
abbrev pub in_time : AuthenticateRequest → M (Unit {0})
in_time req = on_error (check_timestamp_drift req.timestamp) (λ e.
    reporting (entry req.user_id req.device_id AuditAction.replay_detected AuditResult.blocked) e)

-- The signature of the request, a failure recorded.
abbrev pub check_signature : AuthenticateRequest → Device → Env → M (Unit {0})
check_signature req device env =
    on_error
      (verify_signature_for_algo env.cfg.signature_algo device.public_key
        (build_signed_payload req.nonce req.device_id action_authenticate req.timestamp)
        req.signature)
      (λ _.
        reporting (entry req.user_id req.device_id AuditAction.biometric_failed AuditResult.failure)
          signature_invalid)

abbrev pub accept : AuthenticateRequest → M AuthenticateResult
accept req = do
  ignore (update_last_seen req.device_id)
  audit (entry req.user_id req.device_id AuditAction.biometric_auth AuditResult.success)
  pure (record { user_id = req.user_id; device_id = req.device_id })

-- What follows once the challenge is consumed: the time, the signature, and the record of success.
unfoldable pub verify_login : AuthenticateRequest → Device → M AuthenticateResult
verify_login req device = do env ← ask; in_time req; check_signature req device env; accept req

unfoldable pub authenticate : AuthenticateRequest → M AuthenticateResult
authenticate req = do
  reject_rooted req.user_id req.device_id (req.is_rooted || req.is_jailbroken)
  device ← enrolled_device req.user_id (← get_device req.device_id)
  consume_challenge req.challenge_id req.device_id action_authenticate
  verify_login req device

pub record StepUpRequest : Type 0 where
  pub auth : AuthenticateRequest
  pub open auth use *
  pub session_id : Text

unfoldable pub step_up : StepUpRequest → M TokenClaims
step_up req = do
  r ← on_error (authenticate req.auth) (λ e.
      audit
        (record (entry req.user_id req.device_id AuditAction.step_up_failed AuditResult.failure) {
          session_id = req.session_id;
        })
      >> fail e)
  audit (record (entry r.user_id r.device_id AuditAction.step_up_granted AuditResult.success) {
    session_id = req.session_id;
  })
  pure (record {
    user_id = r.user_id;
    device_id = r.device_id;
    session_id = req.session_id;
    token_type = [];
    step_up = false;
    step_up_exp = none;
  })
