-- ===== src/Tests/Engine.antt =====
-- The earlier engine's users and sessions.
use dift_backend_auth.Base.{
  ◌≡◌, ◌≢◌, refl, true, false, none, some, List, [], ◌∷◌, codes, text_eq, arith,
}
use dift_backend_auth.Store
use dift_backend_auth.Legacy.Codes
use dift_backend_auth.Legacy.Engine.{
  User, UserStatus, Session, Claims, Config, Outside, State, Parsed, ok,
}
use dift_backend_auth.Legacy.Engine.Users
use dift_backend_auth.Legacy.Engine.Users.{clashes}
use dift_backend_auth.Legacy.Engine.Service.{
  LoginRequest, tokens, Origin, TokenResponse, logged_in, new_session,
}
use dift_backend_auth.Legacy.Engine.Login.{login, after_password}
use dift_backend_auth.Legacy.Engine.Access.{refresh_token, logout_all}
use dift_backend_auth.Legacy.Engine.Handlers.{
  Request, public_request, post_refresh, post_login, serve_all,
}
use dift_backend_auth.Legacy.Engine.Ended.{logout_all-refresh_token}
use dift_backend_auth.Legacy.Engine.Capped.{Capped, serve_all-Capped}
use dift_backend_auth.Legacy.Engine.Sound.{LoggedIn, login-LoggedIn}
use dift_backend_auth.Legacy.Engine.Reused.{uses, Ready, Usable, refresh_token-again}
use dift_backend_auth.Legacy.Engine.Restored.{after_password-restored}
use dift_backend_auth.Tests.Opened.{engine}

abbrev codes_outside : Codes.Outside
codes_outside = record {
  clock = λ k. 1000;
  number = λ k. some 42;
  uuid = λ k. k ∷ [];
  reached = λ k. true;
  delivered = λ channel to code. true;
  code_length = 6;
  expiry = 100;
  max_attempts = 3;
}

abbrev cfg : Config
cfg = record {
  bcrypt_cost = 0;
  max_login_attempts = 5;
  lockout_duration = 100;
  password_min_length = 4;
  password_require_upper = false;
  password_require_lower = true;
  password_require_digit = false;
  password_require_spec = false;
  session_max_devices = 2;
  access_secret = codes "a";
  refresh_secret = codes "r";
  access_expiry = 2000000000;
  refresh_expiry = 5000;
  issuer = codes "engine";
}

-- The claims of a refresh token of the first session, for which the library takes every token.
abbrev claims : Claims
claims = record {
  user_id = codes "u";
  session_id = 0 ∷ [];
  role = [];
  email = none;
  phone = none;
  mfa_done = false;
  token_type = codes "refresh";
  id = 2 ∷ [];
  issuer = codes "engine";
  issued_at = 1000;
  not_before = 1000;
  expires_at = 6000;
}

abbrev pub outside : Outside
outside = record {
  codes = codes_outside;
  cfg = cfg;
  answers = λ k. true;
  row_id = λ k. k ∷ [];
  precedes = λ s t. true;
  signed = λ secret c. some (c.token_type);
  parsed = λ secret now t. Parsed.valid claims;
  bcrypt = λ k cost t. some t;
  bcrypt_matches = λ h t. text_eq h t;
  sha256 = λ t. t;
  random = λ k n. some [];
  aes_gcm_seal = λ key nonce t. t;
  aes_gcm_open = λ key nonce t. some t;
  totp_generate = λ k t. some (codes "s", codes "q");
  totp_validate = λ now code secret. false;
  verify_email = codes "verify_email";
  verify_phone = codes "verify_phone";
  password_reset = codes "password_reset";
  id_token = λ provider t. none;
}

-- A user with three failed logins.
abbrev pub ann : User
ann = record {
  id = codes "u";
  email = some (codes "ann@x.org");
  phone = none;
  password_hash = some (codes "opensesame");
  display_name = codes "Ann";
  avatar_url = none;
  status = UserStatus.active;
  role = codes "user";
  email_verified = true;
  mfa_enabled = false;
  mfa_secret = none;
  mfa_backup_codes = [];
  failed_login_count = 3;
  locked_until = none;
  last_login_at = none;
  last_login_ip = none;
  password_changed_at = none;
  deleted_at = none;
}

abbrev pub start : State
start = record {
  users = (codes "u", ann) ∷ [];
  sessions = [];
  oauths = [];
  audits = [];
  keys = [];
  reads = 0;
  draws = 0;
  commands = 0;
  statements = 0;
}

abbrev from : Origin
from = record { ip = codes "1.2.3.4"; ua = codes "app" }

abbrev request : LoginRequest
request = record {
  identifier = codes "ann@x.org";
  password = codes "opensesame";
  mfa_code = none;
  device_info = codes "phone";
}

abbrev answer_of : TokenResponse
answer_of = record {
  access_token = codes "access";
  refresh_token = codes "refresh";
  expires_in = 2;
  user = some (logged_in ann from 1000);
  session_id = 0 ∷ [];
}

abbrev opened : State
opened = (login outside request from start).1

login-opened : (login outside request from start).0 ≡ ok (tokens answer_of)
unfolding engine
login-opened = refl

abbrev first_session : Session
first_session = new_session ann (0 ∷ []) (codes "refresh") (codes "phone") from 6000 1000

login-LoggedIn_example :
    (u : User) × ((Users.get_by_identifier outside (codes "ann@x.org") start).0 ≡ ok u)
    × LoggedIn outside request u
        (Users.get_by_identifier outside (codes "ann@x.org") start).1
        answer_of
        opened
unfolding engine
login-LoggedIn_example = login-LoggedIn outside request from start answer_of opened refl

abbrev later : List (Origin × Request)
later =
    (from, public_request (post_login (some request)))
    ∷ (from, public_request (post_refresh (some (codes "t"))))
    ∷ []

logout_all-refresh_token_example :
    ((logout_all outside (codes "u") opened).0 ≡ ok tt)
    × ((r : TokenResponse)
        → (refresh_token outside
            (codes "t")
            (serve_all outside later (logout_all outside (codes "u") opened).1)).0
          ≢ ok r)
unfolding engine
logout_all-refresh_token_example =
    logout_all-refresh_token outside (0 ∷ []) (codes "u") (codes "t") first_session later opened
      refl refl refl (λ t c valid. ground arith)

serve_all-Capped_example : Capped outside (codes "u") 2000 (serve_all outside later opened).sessions
unfolding engine
serve_all-Capped_example =
    serve_all-Capped outside (codes "u") 2000 (omega arith) (λ k. refl) (λ k. omega arith) later
      opened (omega arith)

opened-Ready : Ready outside (codes "t") claims (logged_in ann from 1000) 6000 opened
unfolding engine
opened-Ready = record {
  session = first_session;
  stored = refl;
  is_active = refl;
  lasts = refl;
  user = refl;
  kept = refl;
}

outside-Usable : Usable outside (codes "t") claims (logged_in ann from 1000) 6000
unfolding engine
outside-Usable = record {
  answers = λ k. refl;
  in_time = λ k. refl;
  taken = λ k. refl;
  sign = λ secret c. c.token_type;
  signs = λ secret c. refl;
}

refresh_token-again_example :
    (r : TokenResponse) × ((refresh_token outside (codes "t") (uses outside (codes "t") 4 opened)).0
      ≡ ok r)
refresh_token-again_example =
    refresh_token-again outside (codes "t") claims (logged_in ann from 1000) 6000 4 opened
      outside-Usable opened-Ready

after_password-restored_example :
    (u : User) × (Store.get (codes "u") (after_password outside request from ann start).1.users
      ≡ some u)
    × (u.failed_login_count ≡ 3)
    × (u.locked_until ≡ none)
unfolding engine
after_password-restored_example =
    after_password-restored outside (λ k. refl) request from ann start answer_of
      (after_password outside request from ann start).1 refl refl refl
