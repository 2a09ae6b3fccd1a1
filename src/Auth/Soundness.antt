-- ===== src/Auth/Soundness.antt =====
-- What a successful login with a password rests on, and what it opens.
use dift_backend_auth.Base.{
  ◌≡◌, refl, sym, ap, ◌∙◌, true, false, Bool, not, Option, none, some, is_empty, if◌then◌else◌,
  arith,
}
use dift_backend_auth.Store
use dift_backend_auth.Domain.{User, Session, SessionStatus, AuditAction, AuditResult}
use dift_backend_auth.Runtime.{
  Env, World, Outcome, ok, err, panic, M, ◌>>=◌, ◌>>◌, pure, fail, guard, attempt, attempted,
  ignore, account_disabled, invalid_credentials,
}
use dift_backend_auth.Runtime.Inversion.{bind_ok, guard_ok}
use dift_backend_auth.Repository.Users
use dift_backend_auth.Audit.{entry, audit, audit-db}
use dift_backend_auth.Crypto.{verify_password, hash_refresh_token}
use dift_backend_auth.Device.{register_device}
use dift_backend_auth.Auth.{
  LoginRequest, LoginResponse, SessionResult, new_session, login_as, finish_login,
  handle_failed_login, create_session, refuse_locked, is_disabled, is_yes, cleared, login_device,
}
use dift_backend_auth.Auth.Opening.{Opened, create_session-Opened}

attempt_ok :
    (m : M Bool) (env : Env) (w : World) {b : Option Bool} {v : World}
    → attempt m env w ≡ (ok b, v)
    → is_yes b ≡ true
    → (m env w).0 ≡ ok true
attempt_ok m env w {b} {v} h = go (m env w).0 (ap (λ p. p.0) h)
  where
    go : (o : Outcome Bool) → attempted o ≡ ok b → is_yes b ≡ true → o ≡ ok true
    go (ok true) h y = refl
    go (ok false) h y = absurd (ground arith)
    go (err e) h y = absurd (ground arith)
    go panic h y = absurd (ground arith)

-- The answer, once the session is open.
abbrev answering : LoginRequest → User → SessionResult → M LoginResponse
answering req user session =
    audit (record (entry user.id req.device_id AuditAction.login AuditResult.success) {
      session_id = session.id;
      ip_address = req.ip_address;
      user_agent = req.user_agent;
    })
    >> pure (record {
      access_token = session.access_token;
      refresh_token = session.refresh_token;
      user_id = user.id;
      requires_otp = not (is_empty user.totp_secret);
    })

abbrev opening : LoginRequest → User → M LoginResponse
opening req user =
    create_session user.id req.device_id req.ip_address req.user_agent >>= answering req user

-- The session that a login opened.
pub record LoginSession (req : LoginRequest) (u : User) (env : Env) (r : LoginResponse) (w' : World)
    : Type 0 where
  pub session : Session
  pub stored : Store.get session.id w'.db.sessions ≡ some session
  pub is_active : session.status ≡ SessionStatus.active
  pub own : session.user_id ≡ u.id
  pub same_device : session.device_id ≡ req.device_id
  pub current : session.refresh_token ≡ hash_refresh_token env r.refresh_token

answering-LoginSession :
    (req : LoginRequest) (u : User) (env : Env) (w v : World) (s : SessionResult)
    {r : LoginResponse} {w' : World}
    → Opened u.id req.device_id req.ip_address req.user_agent env w s v
    → answering req u s env v ≡ (ok r, w')
    → LoginSession req u env r w'
answering-LoginSession req u env w v s {r} {w'} o h =
    let l = record (entry u.id req.device_id AuditAction.login AuditResult.success) {
      session_id = s.id;
      ip_address = req.ip_address;
      user_agent = req.user_agent;
    } in
    let answer : LoginResponse = record {
      access_token = s.access_token;
      refresh_token = s.refresh_token;
      user_id = u.id;
      requires_otp = not (is_empty u.totp_secret);
    } in
    let a = bind_ok (audit l) (λ _. pure answer) env v h in
    let same : w' ≡ a.between = ap (λ p. p.1) (sym a.second) in
    let result : answer ≡ r = ground (arith, a.second) in
    let kept : w'.db ≡ v.db =
      ap (λ x. x.db) same ∙ ap (λ p. p.1.db) (sym a.first) ∙ audit-db l env v in
    record {
      session =
          new_session s.id u.id req.device_id (hash_refresh_token env s.refresh_token)
            s.token_family req.ip_address req.user_agent o.expires o.created o.last_used;
      stored = ap (λ db. Store.get s.id db.sessions) kept ∙ o.stored;
      is_active = refl;
      own = refl;
      same_device = refl;
      current = ap (λ x. hash_refresh_token env x.refresh_token) result;
    }

finish_login-LoginSession :
    (req : LoginRequest) (u : User) (env : Env) (w : World) {r : LoginResponse} {w' : World}
    → finish_login req u env w ≡ (ok r, w')
    → LoginSession req u env r w'
unfolding finish_login
finish_login-LoginSession req u env w h =
    let a =
      bind_ok (Users.update (cleared u))
        (λ _. ignore (register_device u.id (login_device req)) >> opening req u) env w h in
    let b =
      bind_ok (ignore (register_device u.id (login_device req))) (λ _. opening req u) env a.between
        a.second in
    let c =
      bind_ok (create_session u.id req.device_id req.ip_address req.user_agent) (answering req u)
        env b.between b.second in
    answering-LoginSession req u env b.between c.between c.value
      (create_session-Opened u.id req.device_id req.ip_address req.user_agent env b.between c.first)
      c.second

-- What a login that went through found.
pub record LoggedIn (req : LoginRequest) (u : User) (env : Env) (w : World) (r : LoginResponse)
    (w' : World) : Type 0 where
  pub unlocked_in : World
  pub enabled : is_disabled u.status ≡ false
  pub unlocked : refuse_locked u.locked_until env w ≡ (ok tt, unlocked_in)
  pub verified : (verify_password req.password u.password_hash env unlocked_in).0 ≡ ok true
  pub opened : LoginSession req u env r w'

-- What follows the verification of the password.
abbrev deciding : LoginRequest → User → Option Bool → M LoginResponse
deciding req u verified =
    if is_yes verified
    then finish_login req u
    else (handle_failed_login u req.ip_address >> fail invalid_credentials)

-- What follows the check that the account is not disabled.
abbrev unlocking : LoginRequest → User → M LoginResponse
unlocking req u =
    refuse_locked u.locked_until
    >> (attempt (verify_password req.password u.password_hash) >>= deciding req u)

deciding_ok :
    (req : LoginRequest) (u : User) (b : Option Bool) (env : Env) (w : World) {r : LoginResponse}
    {w' : World}
    → deciding req u b env w ≡ (ok r, w')
    → (is_yes b ≡ true) × LoginSession req u env r w'
deciding_ok req u (some true) env w h = (refl, finish_login-LoginSession req u env w h)
deciding_ok req u (some false) env w h =
    let e =
      bind_ok (handle_failed_login u req.ip_address) (λ _. fail invalid_credentials) env w h in
    absurd (ground (arith, e.second))
deciding_ok req u none env w h =
    let e =
      bind_ok (handle_failed_login u req.ip_address) (λ _. fail invalid_credentials) env w h in
    absurd (ground (arith, e.second))

-- A login that succeeds is to an account whose status is not disabled and whose lock time, where it
-- has one, has passed, with its password; and it opened an active session of the user on the device,
-- which holds the hash of the refresh token that the user got. The status locked is not looked at.
pub login_as-LoggedIn :
    (req : LoginRequest) (u : User) (env : Env) (w : World) {r : LoginResponse} {w' : World}
    → login_as req (some u) env w ≡ (ok r, w')
    → LoggedIn req u env w r w'
unfolding login_as
login_as-LoggedIn req u env w {r} {w'} h =
    let g =
      bind_ok (guard (not (is_disabled u.status)) account_disabled) (λ _. unlocking req u) env w
        h in
    let (enabled, still) = guard_ok (not (is_disabled u.status)) account_disabled env w g.first in
    let rest : unlocking req u env w ≡ (ok r, w') =
      ap (λ x. unlocking req u env x) (sym still) ∙ g.second in
    let f =
      bind_ok (refuse_locked u.locked_until)
        (λ _. attempt (verify_password req.password u.password_hash) >>= deciding req u) env w
        rest in
    let v =
      bind_ok (attempt (verify_password req.password u.password_hash)) (deciding req u) env
        f.between f.second in
    let (right, opened) = deciding_ok req u v.value env v.between v.second in
    record {
      unlocked_in = f.between;
      enabled = ground arith;
      unlocked = f.first;
      verified =
          attempt_ok (verify_password req.password u.password_hash) env f.between v.first right;
      opened = opened;
    }
