-- ===== src/Auth.antt =====
-- `AuthService` of auth-service-main/biometric-auth/internal/service/auth.go.
pub mod Logout
pub mod Soundness
pub mod Opening
pub mod Lockout
pub mod Access
use dift_backend_auth.Base.{
  ℕ, suc, ◌+◌, ◌*◌, Bool, true, false, not, Option, none, some, [], ltb, leb, if◌then◌else◌, Text,
  codes, is_empty,
}
use dift_backend_auth.Base.Int.{ℤ}
use dift_backend_auth.Domain.{
  User, UserStatus, Device, DeviceStatus, Session, SessionStatus, AuditLog, AuditAction,
  AuditResult, TokenClaims,
}
use dift_backend_auth.Runtime.{
  Env, World, Outcome, ok, err, panic, M, ◌>>=◌, ◌>>◌, pure, fail, ask, now, guard, ignore, attempt,
  on_error, invalid_credentials, account_locked, account_disabled, otp_invalid, token_revoked,
}
use dift_backend_auth.Repository.Users
use dift_backend_auth.Repository.Sessions
use dift_backend_auth.Audit.{entry, audit}
use dift_backend_auth.Crypto.{verify_password, secure_hex, hash_refresh_token}
use dift_backend_auth.Token.{
  issue_token_pair, issue_step_up_token, rotate_refresh_token, revoke_session,
  revoke_all_user_sessions, used,
}
use dift_backend_auth.Device.{register_device}
use dift_backend_auth.Biometric.{AuthenticateRequest, authenticate, StepUpRequest, step_up}

pub record LoginRequest : Type 0 where
  pub identifier : Text
  pub password : Text
  pub device_id : Text
  pub ip_address : Text
  pub user_agent : Text
  pub device_name : Text
  pub platform : Text
  pub app_version : Text
  pub os_version : Text
  pub fingerprint : Text
  pub is_rooted : Bool
  pub is_jailbroken : Bool

pub record LoginResponse : Type 0 where
  pub access_token : Text
  pub refresh_token : Text
  pub user_id : Text
  pub requires_otp : Bool

pub record SessionResult : Type 0 where
  pub id : Text
  pub access_token : Text
  pub refresh_token : Text
  pub token_family : Text

-- The session that `createSession` stores, before its times are set.
abbrev pub new_session : Text → Text → Text → Text → Text → Text → Text → ℕ → ℕ → ℕ → Session
new_session id user_id device_id hash family ip ua expires created last_used = record {
  id = id;
  user_id = user_id;
  device_id = device_id;
  refresh_token = hash;
  token_family = family;
  last_used_at = last_used;
  use_count = 0;
  step_up_token = [];
  step_up_expiry = none;
  status = SessionStatus.active;
  expires_at = expires;
  created_at = created;
  ip_address = ip;
  user_agent = ua;
}

unfoldable pub create_session : Text → Text → Text → Text → M SessionResult
unfolding Sessions.store
create_session user_id device_id ip ua = do
  env ← ask
  session_id ← secure_hex 16
  family ← secure_hex 16
  (access, refresh) ← issue_token_pair user_id device_id session_id family
  expiring ← now
  created ← now
  last_used ← now
  Sessions.store (
      new_session session_id user_id device_id (hash_refresh_token env refresh) family ip ua
        (expiring + env.cfg.refresh_token_ttl) created last_used)
  pure (record {
    id = session_id;
    access_token = access;
    refresh_token = refresh;
    token_family = family;
  })

abbrev pub attempts_reached : Env → User → Bool
attempts_reached env u = leb env.cfg.max_login_attempts (suc u.failed_attempts)

abbrev pub failed_once : User → User
failed_once u = record u { failed_attempts = suc u.failed_attempts }

abbrev pub locked_at : Env → User → ℕ → User
locked_at env u t = record u {
  locked_until = some (t + env.cfg.lockout_duration);
  status = UserStatus.locked;
}

-- The increment, and the lock if the limit is reached.
unfoldable pub count_failure : User → M User
count_failure user = do
  env ← ask
  if attempts_reached env user
      then (do t ← now; pure (locked_at env (failed_once user) t))
      else pure (failed_once user)

unfoldable pub handle_failed_login : User → Text → M (Unit {0})
unfolding Users.update
handle_failed_login user ip = do
  user' ← count_failure user
  Users.update user'
  audit (record (entry user'.id [] AuditAction.login_failed AuditResult.failure) {
    ip_address = ip;
    risk_score = user'.failed_attempts * 20;
  })

-- Only a disabled account is refused by its status; a locked one by its time.
abbrev pub is_disabled : UserStatus → Bool
is_disabled UserStatus.active = false
is_disabled UserStatus.locked = false
is_disabled UserStatus.disabled = true

-- The clock is read only if a time is set.
abbrev pub refuse_locked : Option ℕ → M (Unit {0})
refuse_locked none = pure tt
refuse_locked (some until) = do t ← now; guard (not (ltb t until)) account_locked

-- A failure to verify counts as a wrong password.
abbrev pub is_yes : Option Bool → Bool
is_yes none = false
is_yes (some b) = b

abbrev pub cleared : User → User
cleared u = record u { failed_attempts = 0; locked_until = none }

abbrev pub login_device : LoginRequest → Device
login_device req = record {
  id = req.device_id;
  user_id = [];
  name = req.device_name;
  platform = req.platform;
  app_version = req.app_version;
  os_version = req.os_version;
  device_fingerprint = req.fingerprint;
  biometric_enabled = false;
  public_key = [];
  key_id = [];
  biometric_type = [];
  enrolled_at = none;
  attestation_data = [];
  is_rooted = req.is_rooted;
  is_jailbroken = req.is_jailbroken;
  trust_score = 0;
  status = DeviceStatus.active;
  last_seen_at = 0;
  created_at = 0;
  revoked_at = none;
  revoked_by = [];
}

-- What a correct password leads to.
unfoldable pub finish_login : LoginRequest → User → M LoginResponse
unfolding Users.update
finish_login req user = do
  Users.update (cleared user)
  ignore (register_device user.id (login_device req))
  session ← create_session user.id req.device_id req.ip_address req.user_agent
  audit (record (entry user.id req.device_id AuditAction.login AuditResult.success) {
    session_id = session.id;
    ip_address = req.ip_address;
    user_agent = req.user_agent;
  })
  pure (record {
    access_token = session.access_token;
    refresh_token = session.refresh_token;
    user_id = user.id;
    requires_otp = not (is_empty user.totp_secret);
  })

abbrev pub dummy_hash : Text
dummy_hash = codes "$argon2id$v=19$m=65536,t=3,p=2$c29tZXNhbHQ$RdescudvJCsgt3ub+b+dWRWJTmaaJObG"

-- The user that was found, or none.
unfoldable pub login_as : LoginRequest → Option User → M LoginResponse
login_as req none = do
  ignore (verify_password req.password dummy_hash)
  audit (record (entry [] [] AuditAction.login_failed AuditResult.failure) {
    ip_address = req.ip_address;
  })
  fail invalid_credentials
login_as req (some user) = do
  guard (not (is_disabled user.status)) account_disabled
  refuse_locked user.locked_until
  verified ← attempt (verify_password req.password user.password_hash)
  if is_yes verified
      then finish_login req user
      else (do handle_failed_login user req.ip_address; fail invalid_credentials)

unfoldable pub login : LoginRequest → M LoginResponse
unfolding Users.find_by_identifier
login req = do login_as req (← attempt (Users.find_by_identifier req.identifier))
