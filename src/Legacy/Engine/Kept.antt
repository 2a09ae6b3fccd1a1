-- ===== src/Legacy/Engine/Kept.antt =====
-- Statements and helpers of the earlier engine that leave the sessions as they are.
use dift_backend_auth.Base.{ℕ, zero, suc, Bool, Option, List, Text}
use dift_backend_auth.Legacy.Engine.{User, OAuthProvider, Config, AuditLog, Outside, M}
use dift_backend_auth.Legacy.Engine.Frame.{Property, Keeps, frame_rules, write_sessions-Keeps}
use dift_backend_auth.Legacy.Engine.Users
use dift_backend_auth.Legacy.Engine.Sessions
use dift_backend_auth.Legacy.Engine.Sessions.{end, seen_at, change_if}
use dift_backend_auth.Legacy.Engine.Links
use dift_backend_auth.Legacy.Engine.Trail.{log}
use dift_backend_auth.Legacy.Engine.Tokens.{
  generate_token_pair, generate_access_token, generate_refresh_token, parse_token,
}
use dift_backend_auth.Legacy.Engine.Secrets.{generate_backup_codes, more_codes, encrypt, decrypt}
use dift_backend_auth.Legacy.Engine.Policy.{validate_password_strength}

module _ {P : Property} where
  pub user_create-Keeps : (out : Outside) (u : User) → Keeps P (Users.create out u)
  unfolding Users.create
  user_create-Keeps out u = search frame_rules

  pub get_by_id-Keeps : (out : Outside) (id : Text) → Keeps P (Users.get_by_id out id)
  unfolding Users.get_by_id
  get_by_id-Keeps out id = search frame_rules

  pub get_by_email-Keeps : (out : Outside) (t : Text) → Keeps P (Users.get_by_email out t)
  unfolding Users.get_by_email
  get_by_email-Keeps out t = search frame_rules

  pub get_by_phone-Keeps : (out : Outside) (t : Text) → Keeps P (Users.get_by_phone out t)
  unfolding Users.get_by_phone
  get_by_phone-Keeps out t = search frame_rules

  pub get_by_identifier-Keeps : (out : Outside) (t : Text) → Keeps P (Users.get_by_identifier out t)
  unfolding Users.get_by_identifier
  get_by_identifier-Keeps out t = search frame_rules

  pub update-Keeps : (out : Outside) (u : User) → Keeps P (Users.update out u)
  unfolding Users.update
  update-Keeps out u = search frame_rules

  pub incr_failed_login-Keeps :
      (out : Outside) (id : Text) → Keeps P (Users.incr_failed_login out id)
  unfolding Users.incr_failed_login
  incr_failed_login-Keeps out id = search frame_rules

  pub reset_failed_login-Keeps :
      (out : Outside) (id : Text) → Keeps P (Users.reset_failed_login out id)
  unfolding Users.reset_failed_login
  reset_failed_login-Keeps out id = search frame_rules

  pub lock_account-Keeps :
      (out : Outside) (id : Text) (t : ℕ) → Keeps P (Users.lock_account out id t)
  unfolding Users.lock_account
  lock_account-Keeps out id t = search frame_rules

  pub log-Keeps : (out : Outside) (l : AuditLog) → Keeps P (log out l)
  unfolding log
  log-Keeps out l = search frame_rules

  pub link_create-Keeps : (out : Outside) (o : OAuthProvider) → Keeps P (Links.create out o)
  unfolding Links.create
  link_create-Keeps out o = search frame_rules

  pub get_by_provider-Keeps :
      (out : Outside) (p uid : Text) → Keeps P (Links.get_by_provider out p uid)
  unfolding Links.get_by_provider
  get_by_provider-Keeps out p uid = search frame_rules

  pub session_by_id-Keeps : (out : Outside) (id : Text) → Keeps P (Sessions.get_by_id out id)
  unfolding Sessions.get_by_id
  session_by_id-Keeps out id = search frame_rules

  pub count_active-Keeps : (out : Outside) (u : Text) → Keeps P (Sessions.count_active out u)
  unfolding Sessions.count_active
  count_active-Keeps out u = search frame_rules

  pub generate_access_token-Keeps :
      (out : Outside) (user session role : Text) (email phone : Option Text) (done : Bool)
      → Keeps P (generate_access_token out user session role email phone done)
  unfolding generate_access_token
  generate_access_token-Keeps out user session role email phone done = search frame_rules

  pub generate_refresh_token-Keeps :
      (out : Outside) (user session : Text) → Keeps P (generate_refresh_token out user session)
  unfolding generate_refresh_token
  generate_refresh_token-Keeps out user session = search frame_rules

  pub generate_token_pair-Keeps :
      (out : Outside) (user session role : Text) (email phone : Option Text) (done : Bool)
      → Keeps P (generate_token_pair out user session role email phone done)
  unfolding generate_token_pair
  generate_token_pair-Keeps out user session role email phone done =
      search (frame_rules, generate_access_token-Keeps, generate_refresh_token-Keeps)

  pub parse_token-Keeps :
      (out : Outside) (secret expected token : Text)
      → Keeps P (parse_token out secret expected token)
  unfolding parse_token
  parse_token-Keeps out secret expected token = search frame_rules

  pub validate_password_strength-Keeps :
      (cfg : Config) (t : Text) → Keeps P (validate_password_strength cfg t)
  unfolding validate_password_strength
  validate_password_strength-Keeps cfg t = search frame_rules depth 12

  more_codes-Keeps :
      (out : Outside) (m : M (List Text × List Text)) → Keeps P m → Keeps P (more_codes out m)
  more_codes-Keeps out m h = search frame_rules

  pub backup_codes-Keeps : (out : Outside) (n : ℕ) → Keeps P (generate_backup_codes out n)
  unfolding generate_backup_codes
  backup_codes-Keeps out zero = search frame_rules
  backup_codes-Keeps out (suc n) =
      more_codes-Keeps out (generate_backup_codes out n) (backup_codes-Keeps out n)

  pub encrypt-Keeps : (out : Outside) (t key : Text) → Keeps P (encrypt out t key)
  unfolding encrypt
  encrypt-Keeps out t key = search frame_rules

  pub decrypt-Keeps : (out : Outside) (t key : Text) → Keeps P (decrypt out t key)
  unfolding decrypt
  decrypt-Keeps out t key = search frame_rules

pub ruleset table_rules = (
  frame_rules, user_create-Keeps, get_by_id-Keeps, get_by_email-Keeps, get_by_phone-Keeps,
  get_by_identifier-Keeps, update-Keeps, incr_failed_login-Keeps, reset_failed_login-Keeps,
  lock_account-Keeps, log-Keeps, link_create-Keeps, get_by_provider-Keeps, session_by_id-Keeps,
  count_active-Keeps, generate_access_token-Keeps, generate_refresh_token-Keeps,
  generate_token_pair-Keeps, parse_token-Keeps, validate_password_strength-Keeps,
  backup_codes-Keeps, encrypt-Keeps, decrypt-Keeps,
)
