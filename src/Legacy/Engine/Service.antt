-- ===== src/Legacy/Engine/Service.antt =====
-- `auth.Service` of the earlier engine, internal/auth/service.go: registration and the issue
-- of tokens.
use dift_backend_auth.Base.{
  ℕ, ◌+◌, ◌/◌, Bool, true, false, not, ◌&&◌, Option, none, some, [], ltb, leb, Text, codes,
}
use dift_backend_auth.Crypto.{second}
use dift_backend_auth.Legacy.Codes
use dift_backend_auth.Legacy.Engine.{
  User, UserStatus, Session, Config, Outside, Failure, Result, ok, err, M, ◌>>=◌, ◌>>◌, pure, guard,
  attempt, ignore, now, new_uuid, coded, email_already_exists, phone_already_exists,
  session_limit_reached, not_found,
}
use dift_backend_auth.Legacy.Engine.Users
use dift_backend_auth.Legacy.Engine.Sessions
use dift_backend_auth.Legacy.Engine.Trail.{log}
use dift_backend_auth.Legacy.Engine.Tokens.{generate_token_pair}
use dift_backend_auth.Legacy.Engine.Policy.{validate_password_strength}
use dift_backend_auth.Legacy.Engine.Secrets.{hash_password}

pub record RegisterRequest : Type 0 where
  pub email : Option Text
  pub phone : Option Text
  pub password : Text
  pub display_name : Text

pub record LoginRequest : Type 0 where
  pub identifier : Text
  pub password : Text
  pub mfa_code : Option Text
  pub device_info : Text

pub record OAuthLoginRequest : Type 0 where
  pub provider : Text
  pub token : Text
  pub device_info : Text

pub record TokenResponse : Type 0 where
  pub access_token : Text
  pub refresh_token : Text
  pub expires_in : ℕ
  pub user : Option User
  pub session_id : Text

-- A login is answered with tokens, or that a code is wanted.
pub data LoginAnswer : Type 0 where
  mfa_required : LoginAnswer
  tokens : TokenResponse → LoginAnswer

-- Where a request came from: its address and its agent.
pub record Origin : Type 0 where
  pub ip : Text
  pub ua : Text

-- An error of the audit log is logged only.
abbrev pub audit :
    Outside → Option Text → (action resource : Text) → Origin → (status : Text) → ℕ → M (Unit {0})
audit out user action resource from status risk = ignore (
    log out (record {
      user_id = user;
      action = action;
      resource = resource;
      ip_address = from.ip;
      user_agent = from.ua;
      status = status;
      risk_score = risk;
    }))

-- Whether the repository returned a pointer: so it does with an error other than of absence.
abbrev pub is_pointer : Result User → Bool
is_pointer (ok u) = true
is_pointer (err not_found) = false
is_pointer (err e) = true

abbrev pub refuse_taken : (Text → M User) → Option Text → Failure → M (Unit {0})
refuse_taken look none e = pure tt
refuse_taken look (some t) e = do r ← attempt (look t); guard (not (is_pointer r)) e

abbrev pub new_user : RegisterRequest → Text → User
new_user req hash = record {
  id = [];
  email = req.email;
  phone = req.phone;
  password_hash = some hash;
  display_name = req.display_name;
  avatar_url = none;
  status = UserStatus.pending;
  role = codes "user";
  email_verified = false;
  mfa_enabled = false;
  mfa_secret = none;
  mfa_backup_codes = [];
  failed_login_count = 0;
  locked_until = none;
  last_login_at = none;
  last_login_ip = none;
  password_changed_at = none;
  deleted_at = none;
}

abbrev pub code_to : (channel : Codes.Channel) → (recipient purpose : Text) → Codes.SendOtpRequest
code_to channel recipient purpose = record {
  channel = channel;
  recipient = recipient;
  purpose = purpose;
}

abbrev pub send_otp : Outside → Text → Codes.SendOtpRequest → M (Unit {0})
send_otp out user req = coded (Codes.send out.codes user req)

abbrev pub verify_otp : Outside → (recipient purpose code : Text) → M (Unit {0})
verify_otp out recipient purpose code = coded (Codes.verify out.codes recipient purpose code)

abbrev pub send_phone : Outside → (user purpose : Text) → Option Text → M (Unit {0})
send_phone out user purpose none = pure tt
send_phone out user purpose (some phone) =
    send_otp out user (code_to Codes.Channel.sms phone purpose)

abbrev pub send_email : Outside → (user purpose : Text) → M (Unit {0}) → Option Text → M (Unit {0})
send_email out user purpose otherwise none = otherwise
send_email out user purpose otherwise (some email) =
    send_otp out user (code_to Codes.Channel.email email purpose)

-- To the email address where there is one, else to the phone.
abbrev pub send_either : Outside → User → (for_email for_phone : Text) → M (Unit {0})
send_either out u for_email for_phone =
    send_email out u.id for_email (send_phone out u.id for_phone u.phone) u.email

unfoldable pub register : Outside → RegisterRequest → Origin → M User
register out req from = do
  validate_password_strength out.cfg req.password
  refuse_taken (Users.get_by_email out) req.email email_already_exists
  refuse_taken (Users.get_by_phone out) req.phone phone_already_exists
  hash ← hash_password out req.password
  user ← Users.create out (new_user req hash)
  audit out (some user.id) (codes "register") (codes "user") from (codes "success") 0
  ignore (send_either out user out.verify_email out.verify_phone)
  pure user

abbrev pub counted : Result ℕ → ℕ
counted (ok n) = n
counted (err e) = 0

abbrev pub has_room : Config → ℕ → Bool
has_room cfg n = not (leb cfg.session_max_devices n && ltb 0 cfg.session_max_devices)

abbrev pub new_session : User → (id refresh device : Text) → Origin → (expires seen : ℕ) → Session
new_session u id refresh device from expires seen = record {
  id = id;
  user_id = u.id;
  refresh_token = refresh;
  device_info = device;
  ip_address = from.ip;
  user_agent = from.ua;
  is_active = true;
  expires_at = expires;
  last_seen_at = seen;
}

abbrev pub logged_in : User → Origin → ℕ → User
logged_in u from t = record u { last_login_at = some t; last_login_ip = some from.ip }

-- The user is written back as it was read.
abbrev pub show_session : Outside → User → Origin → (id access refresh : Text) → M TokenResponse
show_session out user from id access refresh = do
  t ← now out
  ignore (Users.update out (logged_in user from t))
  audit out (some user.id) (codes "login") (codes "user") from (codes "success") 0
  pure (record {
    access_token = access;
    refresh_token = refresh;
    expires_in = out.cfg.access_expiry / second;
    user = some (logged_in user from t);
    session_id = id;
  })

abbrev pub store_session :
    Outside → User → (device : Text) → Origin → (id access refresh : Text) → M TokenResponse
store_session out user device from id access refresh = do
  expiring ← now out
  seen ← now out
  Sessions.create out
      (new_session user id refresh device from (expiring + out.cfg.refresh_expiry) seen)
  show_session out user from id access refresh

abbrev pub open_session : Outside → User → Text → Origin → Bool → M TokenResponse
open_session out user device from mfa_done = do
  id ← new_uuid out
  (access, refresh) ← generate_token_pair out user.id id user.role user.email user.phone mfa_done
  store_session out user device from id access refresh

unfoldable pub issue_tokens : Outside → User → Text → Origin → Bool → M TokenResponse
issue_tokens out user device from mfa_done = do
  c ← attempt (Sessions.count_active out user.id)
  guard (has_room out.cfg (counted c)) session_limit_reached
  open_session out user device from mfa_done
