-- ===== src/Legacy/Engine/Login.antt =====
-- `auth.Service` of the earlier engine, internal/auth/service.go: the login with a password.
use dift_backend_auth.Base.{
  ℕ, suc, ◌+◌, Bool, true, false, not, Option, none, some, List, [], ◌∷◌, ltb, leb, if◌then◌else◌,
  Text, codes, text_eq,
}
use dift_backend_auth.Legacy.Engine.{
  User, UserStatus, Outside, Result, ok, err, M, ◌>>=◌, ◌>>◌, pure, fail, guard, attempt, ignore,
  now, invalid_credentials, account_locked, account_suspended, invalid_mfa_code,
}
use dift_backend_auth.Legacy.Engine.Users
use dift_backend_auth.Legacy.Engine.Secrets.{hash_backup_code}
use dift_backend_auth.Legacy.Engine.Service.{
  LoginRequest, LoginAnswer, mfa_required, tokens, Origin, audit, issue_tokens,
}

abbrev pub refuse_locked : Outside → Option ℕ → M (Unit {0})
refuse_locked out none = pure tt
refuse_locked out (some until) = do t ← now out; guard (not (ltb t until)) account_locked

abbrev pub is_suspended : UserStatus → Bool
is_suspended UserStatus.suspended = true
is_suspended _ = false

abbrev pub password_matches : Outside → User → Text → Bool
password_matches out u password = elim u.password_hash [
  | none ↦ false
  | some h ↦ out.bcrypt_matches h password
]

abbrev pub lock_if_reached : Outside → User → M (Unit {0})
lock_if_reached out u =
    if leb out.cfg.max_login_attempts (suc u.failed_login_count)
    then (do t ← now out; ignore (Users.lock_account out u.id (t + out.cfg.lockout_duration)))
    else pure tt

unfoldable pub failed_login : {A : Type 0} → Outside → User → Origin → M A
failed_login out u from = do
  ignore (Users.incr_failed_login out u.id)
  lock_if_reached out u
  audit out (some u.id) (codes "login") (codes "user") from (codes "failure") 7
  fail invalid_credentials

-- The list without the first hash of the code, where it has one.
unfoldable pub without_code : Text → List Text → Option (List Text)
without_code hash [] = none
without_code hash (h ∷ hs) =
    let rest = without_code hash hs in
    if text_eq h hash then some hs else elim rest [ none ↦ none | some ks ↦ some (h ∷ ks) ]

abbrev pub with_codes : User → List Text → User
with_codes u hs = record u { mfa_backup_codes = hs }

-- The user without the backup code that was used.
abbrev pub use_code : Outside → User → Option (List Text) → M (Option User)
use_code out u none = pure none
use_code out u (some hs) = do
  ignore (Users.update out (with_codes u hs))
  pure (some (with_codes u hs))

abbrev pub verify_backup_code : Outside → User → Text → M (Option User)
verify_backup_code out u code =
    use_code out u (without_code (hash_backup_code out code) u.mfa_backup_codes)

abbrev pub or_refuse_code : Outside → User → Origin → Option User → M (Option User)
or_refuse_code out u from (some v) = pure (some v)
or_refuse_code out u from none = do
  audit out (some u.id) (codes "mfa_verify") (codes "user") from (codes "failure") 9
  fail invalid_mfa_code

-- The secret is taken as it is stored.
abbrev pub check_code : Outside → User → Origin → (secret code : Text) → M (Option User)
check_code out u from secret code = do
  t ← now out
  if out.totp_validate t code secret
      then pure (some u)
      else verify_backup_code out u code >>= or_refuse_code out u from

abbrev pub check_given : Outside → User → Origin → Option Text → Text → M (Option User)
check_given out u from none c = pure (some u)
check_given out u from (some secret) c = check_code out u from secret c

-- `none` where the code is still wanted.
abbrev pub check_second : Outside → User → Origin → Option Text → M (Option User)
check_second out u from none = pure none
check_second out u from (some c) = check_given out u from u.mfa_secret c

unfoldable pub mfa_gate : Outside → User → Option Text → Origin → M (Option User)
mfa_gate out u code from = if u.mfa_enabled then check_second out u from code else pure (some u)

abbrev pub after_gate : Outside → LoginRequest → Origin → Option User → M LoginAnswer
after_gate out req from none = pure mfa_required
after_gate out req from (some u) = do
  r ← issue_tokens out u req.device_info from true
  pure (tokens r)

abbrev pub after_password : Outside → LoginRequest → Origin → User → M LoginAnswer
after_password out req from u = do
  ignore (Users.reset_failed_login out u.id)
  v ← mfa_gate out u req.mfa_code from
  after_gate out req from v

unfoldable pub login_as : Outside → LoginRequest → Origin → User → M LoginAnswer
login_as out req from u = do
  refuse_locked out u.locked_until
  guard (not (is_suspended u.status)) account_suspended
  if password_matches out u req.password
      then after_password out req from u
      else failed_login out u from

abbrev pub login_found : Outside → LoginRequest → Origin → Result User → M LoginAnswer
login_found out req from (ok u) = login_as out req from u
login_found out req from (err e) = do
  audit out none (codes "login") (codes "user") from (codes "failure") 8
  fail invalid_credentials

unfoldable pub login : Outside → LoginRequest → Origin → M LoginAnswer
login out req from =
    attempt (Users.get_by_identifier out req.identifier) >>= login_found out req from
