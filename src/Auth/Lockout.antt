-- ===== src/Auth/Lockout.antt =====
-- Wrong passwords and the lock of an account.
use dift_backend_auth.Base.{
  ℕ, suc, ◌+◌, ◌*◌, ◌<◌, ◌≤◌, ◌≡◌, refl, ap, sym, ◌∙◌, Bool, true, false, not, some, List, [], ◌∷◌,
  Text, if◌then◌else◌, arith,
}
use dift_backend_auth.Encoding.{split}
use dift_backend_auth.Store
use dift_backend_auth.Domain.{User, UserStatus, AuditLog, AuditAction, AuditResult}
use dift_backend_auth.Runtime.{
  Env, World, Outcome, ok, err, panic, M, ◌>>=◌, ◌>>◌, fail, resume, attempt, attempted,
  invalid_credentials, account_locked, account_disabled,
}
use dift_backend_auth.Audit.{audit, entry, audit-ok, audit-db}
use dift_backend_auth.Crypto
use dift_backend_auth.Crypto.{verify_password}
use dift_backend_auth.Repository.Users
use dift_backend_auth.Repository.Users.{set_users}
use dift_backend_auth.Token.Signing.{tick}
use dift_backend_auth.Auth.{
  LoginRequest, LoginResponse, login_as, handle_failed_login, count_failure, attempts_reached,
  locked_at, failed_once, refuse_locked, is_disabled, is_yes, finish_login,
}

verify_parts-world :
    (password : Text) (parts : List Text) (env : Env) (w : World)
    → (Crypto.verify_parts password parts env w).1 ≡ w
unfolding Crypto.verify_parts
verify_parts-world p [] env w = refl
verify_parts-world p (a ∷ []) env w = refl
verify_parts-world p (a ∷ b ∷ []) env w = refl
verify_parts-world p (a ∷ b ∷ c ∷ []) env w = refl
verify_parts-world p (a ∷ b ∷ c ∷ d ∷ []) env w = refl
verify_parts-world p (a ∷ b ∷ c ∷ d ∷ e ∷ []) env w = refl
verify_parts-world p (a ∷ b ∷ c ∷ d ∷ e ∷ f ∷ []) env w = ground arith
verify_parts-world p (a ∷ b ∷ c ∷ d ∷ e ∷ f ∷ g ∷ r) env w = refl

pub verify_password-world :
    (password encoded : Text) (env : Env) (w : World)
    → (verify_password password encoded env w).1 ≡ w
unfolding verify_password
verify_password-world password encoded env w =
    verify_parts-world password (split b'$' encoded) env w

-- Whether a verification counts as a wrong password.
abbrev pub is_wrong : Outcome Bool → Bool
is_wrong (ok b) = not b
is_wrong (err e) = true
is_wrong panic = false

-- The user after a wrong password at a time.
abbrev pub punished : Env → ℕ → User → User
punished env t u = if attempts_reached env u then locked_at env (failed_once u) t else failed_once u

-- A disabled account is refused before the password is looked at, and nothing changes.
login_as-disabled :
    (env : Env) (w : World) (req : LoginRequest) (u : User)
    → u.status ≡ UserStatus.disabled
    → login_as req (some u) env w ≡ (err account_disabled, w)
unfolding login_as
login_as-disabled env w req u h = ground arith

-- A login to a locked account is refused whatever the password, and nothing is written.
pub login_as-locked :
    (env : Env) (w : World) (req : LoginRequest) (u : User) (until : ℕ)
    → is_disabled u.status ≡ false
    → u.locked_until ≡ some until
    → env.clock w.reads < until
    → login_as req (some u) env w ≡ (err account_locked, tick w)
unfolding login_as
login_as-locked env w req u until enabled locked before = ground arith

attempt-wrong :
    {A : Type 0} (m : M Bool) (good bad : M A) (env : Env) (w : World)
    → (m env w).1 ≡ w
    → is_wrong (m env w).0 ≡ true
    → (attempt m >>= λ b. if is_yes b then good else bad) env w ≡ bad env w
attempt-wrong m good bad env w = go (m env w).0 (m env w).1
  where
    go :
        (o : Outcome Bool) (v : World)
        → v ≡ w
        → is_wrong o ≡ true
        → resume (λ b. if is_yes b then good else bad) env (attempted o) v ≡ bad env w
    go (ok true) v same h = absurd (ground arith)
    go (ok false) v same h = ap (bad env) same
    go (err e) v same h = ap (bad env) same
    go panic v same h = absurd (ground arith)

login_as-wrong :
    (env : Env) (w w' : World) (req : LoginRequest) (u : User)
    → is_disabled u.status ≡ false
    → refuse_locked u.locked_until env w ≡ (ok tt, w')
    → is_wrong (verify_password req.password u.password_hash env w').0 ≡ true
    → login_as req (some u) env w
      ≡ (handle_failed_login u req.ip_address >> fail invalid_credentials) env w'
unfolding login_as
login_as-wrong env w w' req u enabled unlocked wrong =
    rw (enabled, unlocked)
      (attempt-wrong (verify_password req.password u.password_hash) (finish_login req u)
        (handle_failed_login u req.ip_address >> fail invalid_credentials) env w'
        (verify_password-world req.password u.password_hash env w') wrong)

-- The update and the record of the failure.
recorded_failure-stored :
    (env : Env) (w : World) (u : User) (l : AuditLog)
    → ((Users.update u >> audit l) env w).0 ≡ ok tt
      × (Store.get u.id ((Users.update u >> audit l) env w).1.db.users
          ≡ some (record u { updated_at = env.clock w.reads }))
unfolding Users.update
recorded_failure-stored env w u l =
    let u' = record u { updated_at = env.clock w.reads } in
    let w' = set_users (Store.put u.id u') (tick w) in
    (
      audit-ok l env w',
      ap (λ db. Store.get u.id db.users) (audit-db l env w')
          ∙ Store.get-put_self u.id u' w.db.users,
    )

count_failure-punished :
    (env : Env) (w : World) (u : User)
    → count_failure u env w
      ≡ (ok (punished env (env.clock w.reads) u), if attempts_reached env u then tick w else w)
unfolding count_failure
count_failure-punished env w u = ground arith

punished-id : (env : Env) (t : ℕ) (u : User) → (punished env t u).id ≡ u.id
punished-id env t u = ground arith

handle_failed_login-stored :
    (env : Env) (w : World) (u : User) (ip : Text)
    → (t : ℕ) × ((handle_failed_login u ip env w).0 ≡ ok tt)
      × (Store.get
            (punished env (env.clock w.reads) u).id
            (handle_failed_login u ip env w).1.db.users
          ≡ some (record (punished env (env.clock w.reads) u) { updated_at = t }))
unfolding handle_failed_login
handle_failed_login-stored env w u ip =
    let p = punished env (env.clock w.reads) u in
    let w' = if attempts_reached env u then tick w else w in
    let (done, there) =
      recorded_failure-stored env w' p
        (record (entry p.id [] AuditAction.login_failed AuditResult.failure) {
          ip_address = ip;
          risk_score = p.failed_attempts * 20;
        }) in
    (
      env.clock w'.reads,
      rw (count_failure-punished env w u) done,
      rw (count_failure-punished env w u) there,
    )

-- A wrong password is refused as such, and the user is stored with one more failure, and locked for
-- the configured time if the failures reach the configured number.
pub login_as-punished :
    (env : Env) (w w' : World) (req : LoginRequest) (u : User)
    → is_disabled u.status ≡ false
    → refuse_locked u.locked_until env w ≡ (ok tt, w')
    → is_wrong (verify_password req.password u.password_hash env w').0 ≡ true
    → (t : ℕ) × ((login_as req (some u) env w).0 ≡ err invalid_credentials)
      × (Store.get u.id (login_as req (some u) env w).1.db.users
          ≡ some (record (punished env (env.clock w'.reads) u) { updated_at = t }))
login_as-punished env w w' req u enabled unlocked wrong =
    let (t, done, there) = handle_failed_login-stored env w' u req.ip_address in
    let e = login_as-wrong env w w' req u enabled unlocked wrong in
    let f = then_fail (handle_failed_login u req.ip_address) env w' done in
    let id = punished-id env (env.clock w'.reads) u in
    (
      t,
      rw e (ap (λ p. p.0) f),
      rw e (
          ap (λ p. Store.get u.id p.1.db.users) f
          ∙ ap (λ k. Store.get k (handle_failed_login u req.ip_address env w').1.db.users) (sym id)
          ∙ there),
    )
  where
    then_fail :
        (m : M (Unit {0})) (env : Env) (w : World)
        → (m env w).0 ≡ ok tt
        → (m >> fail {A = LoginResponse} invalid_credentials) env w
          ≡ (err invalid_credentials, (m env w).1)
    then_fail m env w h = rw h refl

-- After the wrong password that reaches the configured number of failures, every login of the
-- account is refused, also with the right password, until the lockout has passed, while the users
-- are as that login left them.
pub login_as-lockout :
    (env : Env) (w w' v : World) (req again : LoginRequest) (u u' : User)
    → is_disabled u.status ≡ false
    → refuse_locked u.locked_until env w ≡ (ok tt, w')
    → is_wrong (verify_password req.password u.password_hash env w').0 ≡ true
    → env.cfg.max_login_attempts ≤ suc u.failed_attempts
    → v.db.users ≡ (login_as req (some u) env w).1.db.users
    → Store.get u.id v.db.users ≡ some u'
    → env.clock v.reads < env.clock w'.reads + env.cfg.lockout_duration
    → login_as again (some u') env v ≡ (err account_locked, tick v)
login_as-lockout env w w' v req again u u' enabled unlocked wrong many same found before =
    let (t, done, there) = login_as-punished env w w' req u enabled unlocked wrong in
    let p = record (punished env (env.clock w'.reads) u) { updated_at = t } in
    let one : u' ≡ p = cc (found, ap (Store.get u.id) same, there) in
    let reached : attempts_reached env u ≡ true = ground arith in
    login_as-locked env v again u' (env.clock w'.reads + env.cfg.lockout_duration)
      (rw (one, reached) refl) (rw (one, reached) refl) before
