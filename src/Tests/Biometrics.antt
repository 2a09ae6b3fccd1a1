-- ===== src/Tests/Biometrics.antt =====
-- Devices, challenges, biometric logins and step-ups.
use dift_backend_auth.Base.{
  ◌≡◌, ◌≢◌, refl, false, Option, none, some, [], ◌++◌, Text, codes, arith, ltb, ◌*◌, ◌+◌,
  if◌then◌else◌,
}
use dift_backend_auth.Store
use dift_backend_auth.Domain.{Device, TokenClaims, action_authenticate}
use dift_backend_auth.Crypto.Assumed.{IsDocumented}
use dift_backend_auth.Runtime.{Env, World, Outcome, ok, err, device_is_revoked}
use dift_backend_auth.Crypto.{unix, second}
use dift_backend_auth.Token.{issue_token_pair, issue_step_up_token}
use dift_backend_auth.Token.Signing.{tick}
use dift_backend_auth.Device.{
  EnableBiometricParams, revoke_device, validate_device, register_device,
}
use dift_backend_auth.Device.Revocation.{
  revoke_device-validate_device, register_device-validate_device,
}
use dift_backend_auth.Biometric.{authenticate, consume_challenge}
use dift_backend_auth.Biometric.Issuing.{get_challenge-consume_challenge}
use dift_backend_auth.Biometric.Soundness.{Authenticated, authenticate-Authenticated}
use dift_backend_auth.Biometric.Replay.{authenticate_twice}
use dift_backend_auth.Middleware
use dift_backend_auth.Middleware.{
  Request, Gate, pass, stop, bearer, require_step_up, extract_bearer_token,
}
use dift_backend_auth.Middleware.Gates.{issue_step_up_token-require_step_up}
use dift_backend_auth.Biometric.Enrolment.{Enrolled, enroll-Enrolled}
use dift_backend_auth.Auth.{login_device}
use dift_backend_auth.Invariant.Keyed.{AreKeyed, Reaches-AreKeyed}
use dift_backend_auth.Tests.Program.{program}
use dift_backend_auth.Tests.Samples.{env, env-IsDocumented, empty}
use dift_backend_auth.Tests.Journey.{
  or_else, town, town-AreKeyed, login_with, login_challenged, authenticate_request, authenticated,
  authenticated-Reaches, challenge_request, no_challenge, enrolled, enroll_challenged,
  enroll_request, enroll_challenged-Reaches,
}

keyed : AreKeyed login_challenged.1.db
keyed = Reaches-AreKeyed env town login_challenged.1 authenticated-Reaches town-AreKeyed

authenticate-Authenticated_example :
    Authenticated authenticate_request env login_challenged.1 authenticated.1
unfolding program
authenticate-Authenticated_example =
    authenticate-Authenticated authenticate_request env login_challenged.1
      {r = record { user_id = codes "u"; device_id = codes "d" }} {w' = authenticated.1} refl

authenticate_twice_example :
    (authenticate authenticate_request env authenticated.1).0
    ≢ ok (record { user_id = codes "u"; device_id = codes "d" })
unfolding program
authenticate_twice_example =
    authenticate_twice authenticate_request authenticate_request env login_challenged.1
      {r = record { user_id = codes "u"; device_id = codes "d" }} {w' = authenticated.1}
      authenticated.1 (record { user_id = codes "u"; device_id = codes "d" }) keyed.challenges refl
      refl refl

abbrev consumed : Outcome (Unit {0}) × World
consumed =
    consume_challenge authenticate_request.challenge_id (codes "d") action_authenticate env
      login_challenged.1

get_challenge-consume_challenge_example : consumed.0 ≡ ok tt
unfolding program
get_challenge-consume_challenge_example =
    get_challenge-consume_challenge env enrolled.1 login_challenged.1
      (challenge_request action_authenticate) {r = or_else no_challenge login_challenged.0}
      {w' = login_challenged.1} env-IsDocumented refl refl (omega arith)

abbrev or_device : Option Device → Device
or_device none = login_device (login_with [])
or_device (some d) = d

abbrev enrolled_device : Device
enrolled_device = or_device (Store.get (codes "d") login_challenged.1.db.devices)

abbrev revoked : World
revoked = (revoke_device (codes "d") (codes "u") (codes "u") env login_challenged.1).1

revoke_device-validate_device_example :
    validate_device (codes "d") (codes "u") env revoked ≡ (err device_is_revoked, revoked)
unfolding program
revoke_device-validate_device_example =
    revoke_device-validate_device env login_challenged.1 revoked (codes "d") (codes "u") (codes "u")
      enrolled_device keyed.devices refl refl refl

abbrev params : EnableBiometricParams
params = record {
  public_key = codes "k";
  key_id = [];
  key_algo = codes "ES256";
  biometric_type = [];
  attestation_data = [];
  is_rooted = false;
  is_jailbroken = false;
}

abbrev taken : Outcome Device × World
taken = register_device (codes "x") (login_device (login_with [])) env revoked

register_device-validate_device_example :
    validate_device (codes "d") (codes "x") env taken.1 ≡ (taken.0, taken.1)
unfolding program
register_device-validate_device_example =
    register_device-validate_device env revoked taken.1 (codes "x") (login_device (login_with []))
      refl

-- The same secret for both kinds of tokens.
abbrev one_secret : Env
one_secret = record env { cfg = record env.cfg { refresh_token_secret = codes "a" } }

one_secret-IsDocumented : IsDocumented one_secret
one_secret-IsDocumented = record {
  random_bytes = env-IsDocumented.random_bytes;
  sha256_bytes = env-IsDocumented.sha256_bytes;
  hmac_bytes = env-IsDocumented.hmac_bytes;
  argon2_bytes = env-IsDocumented.argon2_bytes;
  argon2_length = env-IsDocumented.argon2_length;
  scan_printed = env-IsDocumented.scan_printed;
  marshal_bytes = env-IsDocumented.marshal_bytes;
  unmarshal_marshal = env-IsDocumented.unmarshal_marshal;
}

abbrev pair : Outcome (Text × Text) × World
pair = issue_token_pair (codes "u") (codes "d") (codes "s") (codes "f") one_secret empty

abbrev both : Text × Text
both = or_else ([], []) pair.0

abbrev claims : TokenClaims
claims = record {
  user_id = codes "u";
  device_id = codes "d";
  session_id = codes "s";
  token_type = [];
  step_up = false;
  step_up_exp = none;
}

abbrev stepped_up : Outcome Text × World
stepped_up = issue_step_up_token claims env empty

abbrev step_up_bearer : Request
step_up_bearer = record {
  authorization = bearer ++ or_else [] stepped_up.0;
  x_real_ip = [];
  x_forwarded_for = [];
  remote_addr = [];
}

abbrev late : World
late = record empty { reads = 20 * second }

issue_step_up_token-require_step_up_example :
    (c : TokenClaims) × (Middleware.authenticate step_up_bearer env stepped_up.1
      ≡ (ok (pass c), tick stepped_up.1))
    × (c.user_id ≡ codes "u")
    × (c.device_id ≡ codes "d")
    × (c.session_id ≡ codes "s")
    × ((require_step_up (some c) env late).0
        ≡ ok (
            if ltb (unix (env.clock 0 + env.cfg.step_up_token_ttl) * second) (env.clock late.reads)
            then stop 403
            else pass tt))
unfolding program
issue_step_up_token-require_step_up_example =
    issue_step_up_token-require_step_up env claims empty {t = or_else [] stepped_up.0}
      {w' = stepped_up.1} stepped_up.1 late step_up_bearer env-IsDocumented (omega arith)
      (omega arith) (omega arith) refl refl (omega arith) (omega arith)

enroll-Enrolled_example : Enrolled enroll_request env enroll_challenged.1 enrolled.1
unfolding program
enroll-Enrolled_example =
    enroll-Enrolled enroll_request env enroll_challenged.1 {u = tt} {w' = enrolled.1}
      (Reaches-AreKeyed env town enroll_challenged.1 enroll_challenged-Reaches
        town-AreKeyed).devices
      refl
