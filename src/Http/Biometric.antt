-- ===== src/Http/Biometric.antt =====
-- `BiometricHandler` of auth-service-main/biometric-auth/internal/handler/handler.go.
use dift_backend_auth.Base.{Bool, Option, Text, codes, is_empty, if◌then◌else◌}
use dift_backend_auth.Base.Int.{ℤ}
use dift_backend_auth.Domain.{TokenClaims, action_authenticate}
use dift_backend_auth.Runtime.{
  Error, M, pure, rooted_device, signature_invalid, challenge_expired, challenge_used,
}
use dift_backend_auth.Biometric.{get_challenge, EnrollRequest, enroll}
use dift_backend_auth.Auth.Access.{BiometricTokenRequest, exchange_biometric_token}
use dift_backend_auth.Http.{Body, Response, write_json, write_error, respond, decoded, with_claims}

-- The body is the action; an empty one means a login.
abbrev pub requested_action : Text → Text
requested_action action = if is_empty action then action_authenticate else action

unfoldable pub handle_challenge : Option TokenClaims → Option Text → M Response
handle_challenge claims body = decoded body (λ action. with_claims claims (λ c.
    respond
      (get_challenge
        (record { user_id = c.user_id; device_id = c.device_id; action = requested_action action }))
      (λ r. write_json 200 (Body.challenge r))
      (λ _. write_error 500 (codes "challenge generation failed"))))

pub record EnrollBody : Type 0 where
  pub challenge_id : Text
  pub public_key : Text
  pub key_id : Text
  pub key_algo : Text
  pub signature : Text
  pub timestamp : ℤ
  pub biometric_type : Text
  pub attestation_data : Text
  pub is_rooted : Bool
  pub is_jailbroken : Bool

abbrev pub enroll_request : TokenClaims → EnrollBody → EnrollRequest
enroll_request c b = record {
  user_id = c.user_id;
  device_id = c.device_id;
  challenge_id = b.challenge_id;
  public_key_pem = b.public_key;
  key_id = b.key_id;
  key_algo = b.key_algo;
  signature = b.signature;
  timestamp = b.timestamp;
  biometric_type = b.biometric_type;
  attestation_data = b.attestation_data;
  is_rooted = b.is_rooted;
  is_jailbroken = b.is_jailbroken;
}

abbrev pub enroll_error : Error → Response
enroll_error rooted_device = write_error 403 (codes "rooted/jailbroken device not permitted")
enroll_error signature_invalid = write_error 401 (codes "signature verification failed")
enroll_error challenge_expired = write_error 401 (codes "challenge expired")
enroll_error challenge_used = write_error 409 (codes "challenge already used")
enroll_error _ = write_error 500 (codes "enrollment failed")

unfoldable pub handle_enroll : Option TokenClaims → Option EnrollBody → M Response
handle_enroll claims body = decoded body (λ b. with_claims claims (λ c.
    respond (enroll (enroll_request c b)) (λ _. write_json 200 (Body.status (codes "enrolled")))
      enroll_error))

pub record ExchangeBody : Type 0 where
  pub challenge_id : Text
  pub nonce : Text
  pub signature : Text
  pub timestamp : ℤ
  pub session_id : Text
  pub is_rooted : Bool
  pub is_jailbroken : Bool

abbrev pub exchange_request : TokenClaims → ExchangeBody → BiometricTokenRequest
exchange_request c b = record {
  auth = record {
    user_id = c.user_id;
    device_id = c.device_id;
    challenge_id = b.challenge_id;
    nonce = b.nonce;
    signature = b.signature;
    timestamp = b.timestamp;
    is_rooted = b.is_rooted;
    is_jailbroken = b.is_jailbroken;
  };
  session_id = b.session_id;
}

unfoldable pub handle_exchange : Option TokenClaims → Option ExchangeBody → M Response
handle_exchange claims body = decoded body (λ b. with_claims claims (λ c.
    respond (exchange_biometric_token (exchange_request c b))
      (λ (p : Text × Text). write_json 200 (Body.tokens p.0 p.1))
      (λ _. write_error 401 (codes "biometric authentication failed"))))

unfoldable pub handle_unenroll : M Response
handle_unenroll = pure (write_json 200 (Body.status (codes "unenrolled")))
