-- ===== src/Legacy/Engine/Sound.antt =====
-- What a login with a password rests on.
use dift_backend_auth.Base.{
  ℕ, suc, ◌≡◌, refl, sym, ap, ◌∙◌, inl, inr, Bool, true, false, not, Option, none, some, List,
  if◌then◌else◌, Text, arith, Bool-cases, Option-cases, ltb, leb,
}
use dift_backend_auth.Legacy.Engine.{
  User, Outside, State, Result, ok, err, M, ◌>>◌, pure, guard, account_suspended,
  invalid_credentials,
}
use dift_backend_auth.Legacy.Engine.Inversion.{bind_ok, guard_ok}
use dift_backend_auth.Legacy.Engine.Users
use dift_backend_auth.Legacy.Engine.Secrets.{hash_backup_code}
use dift_backend_auth.Legacy.Engine.Service.{
  LoginRequest, LoginAnswer, tokens, Origin, TokenResponse, issue_tokens,
}
use dift_backend_auth.Legacy.Engine.Login.{
  login, login_found, login_as, after_password, after_gate, refuse_locked, is_suspended,
  password_matches, mfa_gate, without_code, failed_login, check_second, check_given, with_codes,
}
use dift_backend_auth.Legacy.Engine.Opened.{Opened, issue_tokens-Opened}

module _ (out : Outside) where
  -- How the second factor was given: a code that the library takes for the stored text, or one whose
  -- hash is among the user's.
  pub data SecondFactor (u : User) (code : Text) : Type 0 where
    no_secret : u.mfa_secret ≡ none → SecondFactor u code
    totp :
        (secret : Text) (t : ℕ)
        → u.mfa_secret ≡ some secret
        → out.totp_validate t code secret ≡ true
        → SecondFactor u code
    backup :
        (left : List Text)
        → without_code (hash_backup_code out code) u.mfa_backup_codes ≡ some left
        → SecondFactor u code

  pub record LoggedIn (req : LoginRequest) (u : User) (w : State) (r : TokenResponse) (v : State)
      : Type 0 where
    pub unlocked :
        (until : ℕ) → u.locked_until ≡ some until → ltb (out.codes.clock w.reads) until ≡ false
    pub not_suspended : is_suspended u.status ≡ false
    pub password : password_matches out u req.password ≡ true
    pub second :
        u.mfa_enabled ≡ true → (code : Text) × (req.mfa_code ≡ some code) × SecondFactor u code
    pub opened : Opened u r v

  -- The user that passed the gate has the same id.
  check_given-SecondFactor :
      (u : User) (from : Origin) (o : Option Text) (code : Text) (w : State) {x : Option User}
      {v : State}
      → u.mfa_secret ≡ o
      → check_given out u from o code w ≡ (ok x, v)
      → SecondFactor u code × ((u' : User) → x ≡ some u' → u'.id ≡ u.id)
  check_given-SecondFactor u from none code w q h = (no_secret q, λ u' same. ground arith)
  check_given-SecondFactor u from (some secret) code w {x} {v} q h =
      elim (Bool-cases (out.totp_validate (out.codes.clock w.reads) code secret)) [
        | inl valid ↦
            let passed : Result.ok (some u) ≡ ok x = ap (λ p. p.0) (rw valid at h) in
            (totp secret (out.codes.clock w.reads) q valid, λ u' same. ground arith)
        | inr invalid ↦
            elim (Option-cases (without_code (hash_backup_code out code) u.mfa_backup_codes)) [
              | inl unknown ↦ absurd (ground (arith, (rw (invalid, unknown) at h)))
              | inr (hs, known) ↦
                  let passed : Result.ok (some (with_codes u hs)) ≡ ok x =
                    ap (λ p. p.0) (rw (invalid, known) at h) in
                  (backup hs known, λ u' same. ground arith)
            ]
      ]

  mfa_gate-SecondFactor :
      (u : User) (code : Option Text) (from : Origin) (w : State) {u' : User} {v : State}
      → mfa_gate out u code from w ≡ (ok (some u'), v)
      → (u.mfa_enabled ≡ true → (c : Text) × (code ≡ some c) × SecondFactor u c) × (u'.id ≡ u.id)
  unfolding mfa_gate
  mfa_gate-SecondFactor u code from w {u'} {v} h = gate u.mfa_enabled h
    where
      given :
          (o : Option Text)
          → check_second out u from o w ≡ (ok (some u'), v)
          → (c : Text) × (o ≡ some c) × SecondFactor u c × (u'.id ≡ u.id)
      given none h = ground arith
      given (some c) h =
          let (factor, same) = check_given-SecondFactor u from u.mfa_secret c w refl h in
          (c, refl, factor, same u' refl)

      gate :
          (b : Bool)
          → (if b then check_second out u from code else pure (some u)) w ≡ (ok (some u'), v)
          → (b ≡ true → (c : Text) × (code ≡ some c) × SecondFactor u c) × (u'.id ≡ u.id)
      gate false h = ((λ on. ground arith), ground arith)
      gate true h = let (c, q, factor, same) = given code h in ((λ on. (c, q, factor)), same)

  after_gate-Opened :
      (req : LoginRequest) (from : Origin) (u : User) (w : State) {r : TokenResponse} {v : State}
      → after_gate out req from (some u) w ≡ (ok (tokens r), v)
      → Opened u r v
  after_gate-Opened req from u w {r} {v} h =
      let s = bind_ok (issue_tokens out u req.device_info from true) (λ r. pure (tokens r)) w h in
      let same : s.value ≡ r = ground (arith, s.second) in
      let there : s.between ≡ v = ap (λ p. p.1) s.second in
      issue_tokens-Opened out u req.device_info from true w
        (s.first ∙ ap (λ x. (ok x, s.between)) same ∙ ap (λ z. (ok r, z)) there)

  after_password-Opened :
      (req : LoginRequest) (from : Origin) (u : User) (w : State) {r : TokenResponse} {v : State}
      → after_password out req from u w ≡ (ok (tokens r), v)
      → (u.mfa_enabled ≡ true → (c : Text) × (req.mfa_code ≡ some c) × SecondFactor u c)
        × Opened u r v
  after_password-Opened req from u w {r} {v} h =
      let w' = (Users.reset_failed_login out u.id w).1 in
      let g = bind_ok (mfa_gate out u req.mfa_code from) (after_gate out req from) w' h in
      passed w' g.value g.between g.first g.second
    where
      passed :
          (w' : State) (o : Option User) (z : State)
          → mfa_gate out u req.mfa_code from w' ≡ (ok o, z)
          → after_gate out req from o z ≡ (ok (tokens r), v)
          → (u.mfa_enabled ≡ true → (c : Text) × (req.mfa_code ≡ some c) × SecondFactor u c)
            × Opened u r v
      passed w' none z gate after = ground arith
      passed w' (some u') z gate after =
          let (second, same) = mfa_gate-SecondFactor u req.mfa_code from w' gate in
          let o = after_gate-Opened req from u' z after in
          (
            second,
            record {
              session = o.session;
              stored = o.stored;
              is_active = o.is_active;
              own = o.own ∙ same;
              current = o.current;
            },
          )

  failed_login-err :
      {A : Type 0} (u : User) (from : Origin) (w : State)
      → (failed_login {A = A} out u from w).0 ≡ err invalid_credentials
  unfolding failed_login
  failed_login-err u from w =
      elim (Bool-cases (leb out.cfg.max_login_attempts (suc u.failed_login_count))) [
        | inl reached ↦ rw (failed_login, reached) refl
        | inr fewer ↦ rw (failed_login, fewer) refl
      ]

  login_as-LoggedIn :
      (req : LoginRequest) (from : Origin) (u : User) (w : State) {r : TokenResponse} {v : State}
      → login_as out req from u w ≡ (ok (tokens r), v)
      → LoggedIn req u w r v
  unfolding login_as
  login_as-LoggedIn req from u w {r} {v} h =
      let a =
        bind_ok (refuse_locked out u.locked_until)
          (λ _. guard (not (is_suspended u.status)) account_suspended >> checking) w h in
      let b =
        bind_ok (guard (not (is_suspended u.status)) account_suspended) (λ _. checking) a.between
          a.second in
      let (right, after) = checked (password_matches out u req.password) b.between b.second in
      let (second, opened) = after_password-Opened req from u b.between after in
      record {
        unlocked =
            λ until locked. unlocked_at u.locked_until a.value a.between a.first until locked;
        not_suspended = ground (arith, (guard_ok _ _ _ b.first).0);
        password = right;
        second = second;
        opened = opened;
      }
    where
      checking : M LoginAnswer
      checking =
          if password_matches out u req.password
          then after_password out req from u
          else failed_login out u from

      checked :
          (b : Bool) (z : State)
          → (if b then after_password out req from u else failed_login out u from) z
            ≡ (ok (tokens r), v)
          → (b ≡ true) × (after_password out req from u z ≡ (ok (tokens r), v))
      checked true z h = (refl, h)
      checked false z h =
          let refused : err invalid_credentials ≡ ok (tokens r) =
            sym (failed_login-err u from z) ∙ ap (λ p. p.0) h in
          ground arith

      unlocked_at :
          (o : Option ℕ) (x : Unit {0}) (z : State)
          → refuse_locked out o w ≡ (ok x, z)
          → (until : ℕ) → o ≡ some until
          → ltb (out.codes.clock w.reads) until ≡ false
      unlocked_at none x z h until same = ground arith
      unlocked_at (some t) x z h until same = ground arith

  -- A login that is answered with tokens found a user by the identifier, who is neither locked nor
  -- suspended, with the user's password and, where a second factor is on, with a code; and the
  -- session of the answer is stored, active, the user's, and holds the refresh token of the answer.
  pub login-LoggedIn :
      (req : LoginRequest) (from : Origin) (w : State) (r : TokenResponse) (v : State)
      → login out req from w ≡ (ok (tokens r), v)
      → (u : User) × ((Users.get_by_identifier out req.identifier w).0 ≡ ok u)
        × LoggedIn req u (Users.get_by_identifier out req.identifier w).1 r v
  unfolding login
  login-LoggedIn req from w r v h = go (Users.get_by_identifier out req.identifier w) h
    where
      go :
          (p : Result User × State)
          → login_found out req from p.0 p.1 ≡ (ok (tokens r), v)
          → (u : User) × (p.0 ≡ ok u) × LoggedIn req u p.1 r v
      go (ok u, z) h = (u, refl, login_as-LoggedIn req from u z h)
      go (err e, z) h = ground arith
