-- ===== src/Tests/Journey.antt =====
-- One user's way through the services: a login, an enrolment, and a biometric login.
use dift_backend_auth.Base.{◌≡◌, refl, true, false, none, [], ◌∷◌, ◌++◌, Text, codes}
use dift_backend_auth.Base.Int.{pos}
use dift_backend_auth.Encoding.Base64
use dift_backend_auth.Encoding.Base64.{url}
use dift_backend_auth.Store.Keyed.{put-IsKeyed, empty-IsKeyed}
use dift_backend_auth.Domain.{User, UserStatus, action_enroll, action_authenticate}
use dift_backend_auth.Runtime.{World, Outcome, ok, err, panic}
use dift_backend_auth.Crypto.{build_signed_payload}
use dift_backend_auth.Biometric.{
  ChallengeRequest, ChallengeResponse, get_challenge, EnrollRequest, enroll, AuthenticateRequest,
  AuthenticateResult, authenticate,
}
use dift_backend_auth.Auth.{LoginRequest, LoginResponse, login}
use dift_backend_auth.Invariant.Reachable.{
  Reaches, start, then, challenge, enrolment, password_login,
}
use dift_backend_auth.Invariant.Keyed.{AreKeyed}
use dift_backend_auth.Tests.Program.{program}
use dift_backend_auth.Tests.Samples.{env, empty, nobody, fit, digest}

abbrev pub or_else : {A : Type 0} → A → Outcome A → A
or_else a (ok b) = b
or_else a (err e) = a
or_else a panic = a

abbrev pub user : User
user = record {
  id = codes "u";
  phone = codes "p";
  email = codes "e";
  password_hash = codes "$argon2id$v=19$m=8,t=1,p=1$AA$cHcxMg";
  totp_secret = [];
  status = UserStatus.active;
  failed_attempts = 1;
  locked_until = none;
  created_at = 0;
  updated_at = 0;
}

abbrev pub town : World
town = record empty { db = record nobody { users = (codes "u", user) ∷ [] } }

pub town-AreKeyed : AreKeyed town.db
unfolding program
town-AreKeyed = record {
  users = put-IsKeyed (λ u. u.id) [] user (empty-IsKeyed (λ u. u.id));
  devices = empty-IsKeyed (λ d. d.id);
  sessions = empty-IsKeyed (λ s. s.id);
  challenges = empty-IsKeyed (λ c. c.id);
}

abbrev pub login_with : Text → LoginRequest
login_with password = record {
  identifier = codes "e";
  password = password;
  device_id = codes "d";
  ip_address = codes "1";
  user_agent = codes "a";
  device_name = codes "n";
  platform = codes "android";
  app_version = codes "1";
  os_version = codes "14";
  fingerprint = codes "f";
  is_rooted = false;
  is_jailbroken = false;
}

abbrev pub logged_in : Outcome LoginResponse × World
logged_in = login (login_with (codes "pw12")) env town

abbrev pub tokens : LoginResponse
tokens =
    or_else (record { access_token = []; refresh_token = []; user_id = []; requires_otp = true })
      logged_in.0

abbrev pub challenge_request : Text → ChallengeRequest
challenge_request action = record { user_id = codes "u"; device_id = codes "d"; action = action }

abbrev pub no_challenge : ChallengeResponse
no_challenge = record { challenge_id = []; nonce = []; expires_at = 0; hmac = [] }

abbrev pub enroll_challenged : Outcome ChallengeResponse × World
enroll_challenged = get_challenge (challenge_request action_enroll) env logged_in.1

abbrev pub signed_by : Text → Text
unfolding program
signed_by payload = Base64.encode url (fit 32 (digest payload) ++ fit 32 [])

abbrev pub enroll_request : EnrollRequest
unfolding program
enroll_request =
    let c = or_else no_challenge enroll_challenged.0 in
    record {
      user_id = codes "u";
      device_id = codes "d";
      challenge_id = c.challenge_id;
      public_key_pem = codes "k";
      key_id = codes "i";
      key_algo = codes "ES256";
      signature = signed_by (build_signed_payload c.challenge_id (codes "d") action_enroll (pos 5));
      timestamp = pos 5;
      biometric_type = codes "face";
      attestation_data = codes "x";
      is_rooted = false;
      is_jailbroken = false;
    }

abbrev pub enrolled : Outcome (Unit {0}) × World
enrolled = enroll enroll_request env enroll_challenged.1

abbrev pub login_challenged : Outcome ChallengeResponse × World
login_challenged = get_challenge (challenge_request action_authenticate) env enrolled.1

abbrev pub authenticate_request : AuthenticateRequest
unfolding program
authenticate_request =
    let c = or_else no_challenge login_challenged.0 in
    record {
      user_id = codes "u";
      device_id = codes "d";
      challenge_id = c.challenge_id;
      nonce = c.nonce;
      signature = signed_by (build_signed_payload c.nonce (codes "d") action_authenticate (pos 5));
      timestamp = pos 5;
      is_rooted = false;
      is_jailbroken = false;
    }

abbrev pub authenticated : Outcome AuthenticateResult × World
authenticated = authenticate authenticate_request env login_challenged.1

enroll-run : enrolled.0 ≡ ok tt
unfolding program
enroll-run = refl

pub authenticate-run : authenticated.0 ≡ ok (record { user_id = codes "u"; device_id = codes "d" })
unfolding program
authenticate-run = refl

pub logged_in-Reaches : Reaches env town logged_in.1
logged_in-Reaches = then (start town) (password_login (login_with (codes "pw12"))) refl

pub enroll_challenged-Reaches : Reaches env town enroll_challenged.1
enroll_challenged-Reaches =
    then logged_in-Reaches (challenge (challenge_request action_enroll)) refl

pub authenticated-Reaches : Reaches env town login_challenged.1
authenticated-Reaches =
    then (then enroll_challenged-Reaches (enrolment enroll_request) refl)
      (challenge (challenge_request action_authenticate)) refl
