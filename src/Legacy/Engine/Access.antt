-- ===== src/Legacy/Engine/Access.antt =====
-- `auth.Service` of the earlier engine, internal/auth/service.go and queries.go: the
-- other logins, refreshing, logging out, resetting a password, and two factors.
use dift_backend_auth.Base.{
  ℕ, ◌/◌, Bool, true, false, not, Option, none, some, List, [], ltb, if◌then◌else◌, Text, codes,
}
use dift_backend_auth.Crypto.{second}
use dift_backend_auth.Legacy.Engine.{
  User, UserStatus, Session, OAuthProvider, ProviderUser, Claims, Outside, Result, ok, err, M,
  ◌>>=◌, ◌>>◌, pure, fail, guard, or_fail, attempt, ignore, or_else, now, invalid_credentials,
  account_suspended, invalid_token, session_expired, invalid_mfa_code, user_not_found, library,
  mfa_not_initialized, mfa_not_enabled, draw, unknown_provider,
}
use dift_backend_auth.Legacy.Engine.Users
use dift_backend_auth.Legacy.Engine.Sessions
use dift_backend_auth.Legacy.Engine.Links
use dift_backend_auth.Legacy.Engine.Tokens.{
  generate_access_token, generate_refresh_token, parse_refresh_token,
}
use dift_backend_auth.Legacy.Engine.Login.{is_suspended}
use dift_backend_auth.Legacy.Engine.Policy.{validate_password_strength}
use dift_backend_auth.Legacy.Engine.Secrets.{hash_password, encrypt, decrypt, generate_backup_codes}
use dift_backend_auth.Legacy.Engine.Service.{
  OAuthLoginRequest, TokenResponse, Origin, audit, verify_otp, send_either, issue_tokens,
}

abbrev pub oauth_user : ProviderUser → User
oauth_user p = record {
  id = [];
  email = p.email;
  phone = none;
  password_hash = none;
  display_name = p.display_name;
  avatar_url = p.avatar_url;
  status = UserStatus.active;
  role = codes "user";
  email_verified = p.verified;
  mfa_enabled = false;
  mfa_secret = none;
  mfa_backup_codes = [];
  failed_login_count = 0;
  locked_until = none;
  last_login_at = none;
  last_login_ip = none;
  password_changed_at = none;
  deleted_at = none;
}

-- The user of a link, or a new one with a link, whatever the error of the lookup.
abbrev pub linked_user : Outside → (provider : Text) → ProviderUser → Result OAuthProvider → M User
linked_user out provider p (ok link) = Users.get_by_id out link.user_id
linked_user out provider p (err e) = do
  u ← Users.create out (oauth_user p)
  Links.create out (record { user_id = u.id; provider = provider; provider_uid = p.provider_uid })
  pure u

abbrev pub provider_user :
    Outside → (provider : Text) → Origin → Option (Option ProviderUser) → M ProviderUser
provider_user out provider from none = fail unknown_provider
provider_user out provider from (some none) = do
  audit out none (codes "oauth_login") provider from (codes "failure") 5
  fail library
provider_user out provider from (some (some p)) = pure p

unfoldable pub oauth_login : Outside → OAuthLoginRequest → Origin → M TokenResponse
oauth_login out req from = do
  p ← provider_user out req.provider from (out.id_token req.provider req.token)
  link ← attempt (Links.get_by_provider out req.provider p.provider_uid)
  u ← linked_user out req.provider p link
  guard (not (is_suspended u.status)) account_suspended
  audit out (some u.id) (codes "oauth_login") req.provider from (codes "success") 0
  issue_tokens out u req.device_info from true

abbrev pub refuse_over : Outside → Session → M (Unit {0})
refuse_over out s = do
  t ← now out
  if ltb s.expires_at t
      then (do ignore (Sessions.revoke out s.id); fail session_expired)
      else pure tt

-- The session is touched, but keeps the refresh token that it has.
abbrev pub refresh_for : Outside → Session → User → M TokenResponse
refresh_for out s u = do
  refresh ← generate_refresh_token out u.id s.id
  access ← generate_access_token out u.id s.id u.role u.email u.phone true
  ignore (Sessions.touch out s.id)
  pure (record {
    access_token = access;
    refresh_token = refresh;
    expires_in = out.cfg.access_expiry / second;
    user = none;
    session_id = s.id;
  })

abbrev pub refresh_session : Outside → Claims → Session → M TokenResponse
refresh_session out c s = do
  guard s.is_active session_expired
  refuse_over out s
  u ← Users.get_by_id out c.user_id
  refresh_for out s u

abbrev pub refresh_with : Outside → Claims → M TokenResponse
refresh_with out c =
    or_else (Sessions.get_by_id out c.session_id) session_expired >>= refresh_session out c

unfoldable pub refresh_token : Outside → Text → M TokenResponse
refresh_token out token = or_else (parse_refresh_token out token) invalid_token >>= refresh_with out

abbrev pub get_user : Outside → Text → M User
get_user out id = Users.get_by_id out id

abbrev pub logout : Outside → Text → M (Unit {0})
logout out session_id = Sessions.revoke out session_id

abbrev pub logout_all : Outside → Text → M (Unit {0})
logout_all out user_id = Sessions.revoke_all out user_id

abbrev pub send_reset : Outside → Result User → M (Unit {0})
send_reset out (err e) = pure tt
send_reset out (ok u) = send_either out u out.password_reset out.password_reset

unfoldable pub request_password_reset : Outside → Text → M (Unit {0})
request_password_reset out identifier =
    attempt (Users.get_by_identifier out identifier) >>= send_reset out

abbrev pub with_password : User → Text → ℕ → User
with_password u hash t = record u { password_hash = some hash; password_changed_at = some t }

unfoldable pub reset_password :
    Outside → (identifier token new_password : Text) → Origin → M (Unit {0})
reset_password out identifier token new_password from = do
  validate_password_strength out.cfg new_password
  verify_otp out identifier out.password_reset token
  u ← or_else (Users.get_by_identifier out identifier) user_not_found
  hash ← hash_password out new_password
  t ← now out
  Users.update out (with_password u hash t)
  ignore (Sessions.revoke_all out u.id)
  audit out (some u.id) (codes "password_reset") (codes "user") from (codes "success") 0

-- Two factors.
pub record MfaSetup : Type 0 where
  pub secret : Text
  pub qr_url : Text
  pub backup_codes : List Text

abbrev pub with_secret : User → Text → List Text → User
with_secret u secret hashes = record u { mfa_secret = some secret; mfa_backup_codes = hashes }

-- A user without a password is not asked for one.
abbrev pub password_or_none : Outside → User → Text → Bool
password_or_none out u password = elim u.password_hash [
  | none ↦ true
  | some h ↦ out.bcrypt_matches h password
]

abbrev pub or_empty : Option Text → Text
or_empty none = []
or_empty (some t) = t

abbrev pub store_secret :
    Outside → User → (secret url : Text) → (codes : List Text) → (hashes : List Text) → M MfaSetup
store_secret out u secret url cs hs = do
  sealed ← encrypt out secret out.cfg.access_secret
  Users.update out (with_secret u sealed hs)
  pure (record { secret = secret; qr_url = url; backup_codes = cs })

abbrev pub new_secret : Outside → User → M (Text × Text)
new_secret out u = do n ← draw; or_fail (out.totp_generate n (or_empty u.email)) library

abbrev pub with_secret_of : Outside → User → Text × Text → M MfaSetup
with_secret_of out u (secret, url) = do
  (cs, hs) ← generate_backup_codes out 10
  store_secret out u secret url cs hs

unfoldable pub enable_mfa : Outside → Text → (password : Text) → M MfaSetup
enable_mfa out user password = do
  u ← Users.get_by_id out user
  guard (password_or_none out u password) invalid_credentials
  new ← new_secret out u
  with_secret_of out u new

unfoldable pub confirm_mfa : Outside → Text → (code : Text) → M (Unit {0})
confirm_mfa out user code = do
  u ← Users.get_by_id out user
  sealed ← or_fail u.mfa_secret mfa_not_initialized
  secret ← decrypt out sealed out.cfg.access_secret
  t ← now out
  guard (out.totp_validate t code secret) invalid_mfa_code
  Users.update out (record u { mfa_enabled = true })

abbrev pub or_blank : Result Text → Text
or_blank (ok t) = t
or_blank (err e) = []

abbrev pub without_mfa : User → User
without_mfa u = record u { mfa_enabled = false; mfa_secret = none; mfa_backup_codes = [] }

unfoldable pub disable_mfa : Outside → Text → (code : Text) → M (Unit {0})
disable_mfa out user code = do
  u ← Users.get_by_id out user
  guard u.mfa_enabled mfa_not_enabled
  sealed ← or_fail u.mfa_secret mfa_not_enabled
  secret ← attempt (decrypt out sealed out.cfg.access_secret)
  t ← now out
  guard (out.totp_validate t code (or_blank secret)) invalid_mfa_code
  Users.update out (without_mfa u)
