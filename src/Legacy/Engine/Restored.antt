-- ===== src/Legacy/Engine/Restored.antt =====
-- The count of failed logins after a login that went through.
use dift_backend_auth.Base.{
  ℕ, suc, ◌+◌, ◌≡◌, refl, sym, ap, ◌∙◌, Bool, true, false, Option, none, some, [], ◌∷◌, Text, arith,
}
use dift_backend_auth.Store
use dift_backend_auth.Store.{get-put_self}
use dift_backend_auth.Legacy.Engine.{
  User, Session, AuditLog, Outside, State, ok, pure, guard, session_limit_reached,
}
use dift_backend_auth.Legacy.Engine.Inversion.{bind_ok, guard_ok}
use dift_backend_auth.Legacy.Engine.Tables.{query, write_sessions, write_users, write_audits}
use dift_backend_auth.Legacy.Engine.Users
use dift_backend_auth.Legacy.Engine.Users.{clashes}
use dift_backend_auth.Legacy.Engine.Sessions
use dift_backend_auth.Legacy.Engine.Trail.{log}
use dift_backend_auth.Legacy.Engine.Tokens.{
  generate_token_pair, generate_access_token, generate_refresh_token,
}
use dift_backend_auth.Legacy.Engine.Service.{
  LoginRequest, tokens, Origin, TokenResponse, issue_tokens, open_session, store_session,
  show_session, new_session, has_room, counted, logged_in,
}
use dift_backend_auth.Legacy.Engine.Login.{after_password, mfa_gate}

find-update_all :
    {V : Type 0} (p : V → Bool) (f : V → V) (m : Store.Store V)
    → ((v : V) → p (f v) ≡ p v)
    → Store.find p m ≡ none
    → Store.find p (Store.update_all f m) ≡ none
unfolding Store.find Store.update_all
find-update_all p f [] same h = refl
find-update_all p f ((k, v) ∷ m) same h = ground (arith, find-update_all p f m same, same v)

module _ (out : Outside) (up : (k : ℕ) → out.answers k ≡ true) where
  pub update-users :
      (u : User) (w : State)
      → Store.find (clashes u) w.users ≡ none
      → (Users.update out u w).1.users ≡ Store.put u.id u w.users
  unfolding Users.update write_users
  update-users u w alone = rw (Users.update, write_users, up w.statements) (ground (arith, alone))

  log-users : (l : AuditLog) (w : State) → (log out l w).1.users ≡ w.users
  unfolding log write_audits
  log-users l w = rw (log, write_audits, up) refl

  show_session-stored :
      (u : User) (from : Origin) (id access refresh : Text) (w : State)
      → Store.find (clashes u) w.users ≡ none
      → Store.get u.id (show_session out u from id access refresh w).1.users
        ≡ some (logged_in u from (out.codes.clock w.reads))
  show_session-stored u from id access refresh w alone =
      let t = out.codes.clock w.reads in
      let w1 = record w { reads = suc w.reads } in
      let after = (Users.update out (logged_in u from t) w1).1 in
      ap (Store.get u.id) (log-users _ after ∙ update-users (logged_in u from t) w1 alone)
      ∙ get-put_self u.id (logged_in u from t) w.users

  create-users : (s : Session) (w : State) → (Sessions.create out s w).1.users ≡ w.users
  unfolding Sessions.create write_sessions
  create-users s w = rw (Sessions.create, write_sessions, up) refl

  generate_token_pair-users :
      (user session role : Text) (email phone : Option Text) (done : Bool) (w : State)
      → (generate_token_pair out user session role email phone done w).1.users ≡ w.users
  unfolding generate_token_pair generate_access_token generate_refresh_token
  generate_token_pair-users user session role email phone done w = ground arith

  store_session-stored :
      (u : User) (device : Text) (from : Origin) (id access refresh : Text) (w : State)
      {r : TokenResponse} {v : State}
      → Store.find (clashes u) w.users ≡ none
      → store_session out u device from id access refresh w ≡ (ok r, v)
      → (t : ℕ) × (Store.get u.id v.users ≡ some (logged_in u from t))
  store_session-stored u device from id access refresh w {r} {v} alone h =
      let seen = suc w.reads in
      let w2 = record w { reads = suc seen } in
      let s =
        new_session u id refresh device from (out.codes.clock w.reads + out.cfg.refresh_expiry)
          (out.codes.clock seen) in
      let c =
        bind_ok (Sessions.create out s) (λ _. show_session out u from id access refresh) w2 h in
      let same : c.between.users ≡ w.users =
        sym (ap (λ p. p.1.users) c.first) ∙ create-users s w2 in
      (
        out.codes.clock c.between.reads,
        ap (λ p. Store.get u.id p.1.users) (sym c.second)
            ∙ show_session-stored u from id access refresh c.between
                (ap (Store.find (clashes u)) same ∙ alone),
      )

  open_session-stored :
      (u : User) (device : Text) (from : Origin) (done : Bool) (w : State) {r : TokenResponse}
      {v : State}
      → Store.find (clashes u) w.users ≡ none
      → open_session out u device from done w ≡ (ok r, v)
      → (t : ℕ) × (Store.get u.id v.users ≡ some (logged_in u from t))
  open_session-stored u device from done w alone h =
      let id = out.codes.uuid w.draws in
      let w1 = record w { draws = suc w.draws } in
      let p =
        bind_ok (generate_token_pair out u.id id u.role u.email u.phone done)
          (λ (a, r). store_session out u device from id a r) w1 h in
      let same : p.between.users ≡ w.users =
        sym (ap (λ p. p.1.users) p.first)
        ∙ generate_token_pair-users u.id id u.role u.email u.phone done w1 in
      store_session-stored u device from id p.value.0 p.value.1 p.between
        (ap (Store.find (clashes u)) same ∙ alone) p.second

  count_active-users :
      (user : Text) (w : State) → (Sessions.count_active out user w).1.users ≡ w.users
  unfolding Sessions.count_active query
  count_active-users user w = rw (Sessions.count_active, query, up) refl

  issue_tokens-stored :
      (u : User) (device : Text) (from : Origin) (done : Bool) (w : State) {r : TokenResponse}
      {v : State}
      → Store.find (clashes u) w.users ≡ none
      → issue_tokens out u device from done w ≡ (ok r, v)
      → (t : ℕ) × (Store.get u.id v.users ≡ some (logged_in u from t))
  unfolding issue_tokens
  issue_tokens-stored u device from done w alone h =
      let (c, w') = Sessions.count_active out u.id w in
      let g =
        bind_ok (guard (has_room out.cfg (counted c)) session_limit_reached)
          (λ _. open_session out u device from done) w' h in
      let same : g.between.users ≡ w.users =
        ap (λ v. v.users) (guard_ok _ _ _ g.first).1 ∙ count_active-users u.id w in
      open_session-stored u device from done g.between (ap (Store.find (clashes u)) same ∙ alone)
        g.second

  reset-alone :
      (u : User) (id : Text) (w : State)
      → Store.find (clashes u) w.users ≡ none
      → Store.find (clashes u) (Users.reset_failed_login out id w).1.users ≡ none
  unfolding Users.reset_failed_login write_users
  reset-alone u id w alone =
      rw (Users.reset_failed_login, write_users, up)
        (find-update_all (clashes u) _ w.users (λ v. ground arith) alone)

  -- A login with a password that is answered with tokens leaves the count of failures and the lock of
  -- the user as they were read: the reset is overwritten. Where the database answers, no other user
  -- has the address or the phone, and no second factor is on.
  pub after_password-restored :
      (req : LoginRequest) (from : Origin) (u : User) (w : State) (r : TokenResponse) (v : State)
      → u.mfa_enabled ≡ false
      → Store.find (clashes u) w.users ≡ none
      → after_password out req from u w ≡ (ok (tokens r), v)
      → (u' : User) × (Store.get u.id v.users ≡ some u')
        × (u'.failed_login_count ≡ u.failed_login_count)
        × (u'.locked_until ≡ u.locked_until)
  unfolding mfa_gate
  after_password-restored req from u w r v off alone h =
      let w' = (Users.reset_failed_login out u.id w).1 in
      let s =
        bind_ok (issue_tokens out u req.device_info from true) (λ r. pure (tokens r)) w'
          (simp off at h) in
      let (t, there) =
        issue_tokens-stored u req.device_info from true w' (reset-alone u u.id w alone) s.first in
      (logged_in u from t, ap (λ p. Store.get u.id p.1.users) (sym s.second) ∙ there, refl, refl)
