-- ===== src/Legacy/Engine/Opened.antt =====
-- The session that is opened when tokens are issued.
use dift_backend_auth.Base.{
  suc, ◌+◌, ◌≡◌, refl, sym, ap, ◌∙◌, inl, inr, Bool, true, some, Text, arith, Option-cases,
}
use dift_backend_auth.Store
use dift_backend_auth.Store.{get-put_self}
use dift_backend_auth.Legacy.Engine.{
  User, Session, Outside, State, ok, err, guard, session_limit_reached, conflict,
}
use dift_backend_auth.Legacy.Engine.Frame.{Property, Keeps}
use dift_backend_auth.Legacy.Engine.Inversion.{bind_ok, write_sessions_ok}
use dift_backend_auth.Legacy.Engine.Kept.{table_rules}
use dift_backend_auth.Legacy.Engine.Sessions
use dift_backend_auth.Legacy.Engine.Tokens.{generate_token_pair}
use dift_backend_auth.Legacy.Engine.Service.{
  Origin, TokenResponse, issue_tokens, open_session, store_session, show_session, new_session,
  has_room, counted,
}

create_ok :
    (out : Outside) (s : Session) (w : State) {u : Unit {0}} {v : State}
    → Sessions.create out s w ≡ (ok u, v)
    → Store.get s.id v.sessions ≡ some s
unfolding Sessions.create
create_ok out s w {u} {v} h = elim (Option-cases (Store.get s.id w.sessions)) [
  | inl free ↦
      let q = write_sessions_ok out _ w h in
      let stored : Store.put s.id s w.sessions ≡ v.sessions = ap (λ p. p.1) (rw free at q) in
      rw (← stored) (get-put_self s.id s w.sessions)
  | inr (t, taken) ↦
      let q = write_sessions_ok out _ w h in
      let refused : err conflict ≡ ok u = ap (λ p. p.0) (rw taken at q) in ground arith
]

-- The session of a response.
pub record Opened (u : User) (r : TokenResponse) (w' : State) : Type 0 where
  pub session : Session
  pub stored : Store.get r.session_id w'.sessions ≡ some session
  pub is_active : session.is_active ≡ true
  pub own : session.user_id ≡ u.id
  pub current : session.refresh_token ≡ r.refresh_token

module _ (out : Outside) where
  show_session-Keeps :
      {P : Property} (u : User) (from : Origin) (id access refresh : Text)
      → Keeps P (show_session out u from id access refresh)
  show_session-Keeps u from id access refresh = search table_rules depth 12

  show_session-shown :
      (u : User) (from : Origin) (id access refresh : Text) (w : State) {r : TokenResponse}
      {v : State}
      → show_session out u from id access refresh w ≡ (ok r, v)
      → (r.session_id ≡ id) × (r.refresh_token ≡ refresh)
  show_session-shown u from id access refresh w h = ground arith

  store_session-Opened :
      (u : User) (device : Text) (from : Origin) (id access refresh : Text) (w : State)
      {r : TokenResponse} {v : State}
      → store_session out u device from id access refresh w ≡ (ok r, v)
      → Opened u r v
  store_session-Opened u device from id access refresh w {r} {v} h =
      let seen = suc w.reads in
      let w2 = record w { reads = suc seen } in
      let s =
        new_session u id refresh device from (out.codes.clock w.reads + out.cfg.refresh_expiry)
          (out.codes.clock seen) in
      let c =
        bind_ok (Sessions.create out s) (λ _. show_session out u from id access refresh) w2 h in
      let (same_id, same_token) = show_session-shown u from id access refresh c.between c.second in
      let there =
        (show_session-Keeps {P = λ m. Store.get id m ≡ some s} u from id access refresh).apply
          c.between (create_ok out s w2 c.first) in
      record {
        session = s;
        stored =
            ap (λ i. Store.get i v.sessions) same_id
            ∙ ap (λ p. Store.get id p.1.sessions) (sym c.second)
            ∙ there;
        is_active = refl;
        own = refl;
        current = sym same_token;
      }

  open_session-Opened :
      (u : User) (device : Text) (from : Origin) (mfa_done : Bool) (w : State) {r : TokenResponse}
      {v : State}
      → open_session out u device from mfa_done w ≡ (ok r, v)
      → Opened u r v
  open_session-Opened u device from mfa_done w h =
      let id = out.codes.uuid w.draws in
      let p =
        bind_ok (generate_token_pair out u.id id u.role u.email u.phone mfa_done)
          (λ (a, r). store_session out u device from id a r) (record w { draws = suc w.draws }) h in
      store_session-Opened u device from id p.value.0 p.value.1 p.between p.second

  pub issue_tokens-Opened :
      (u : User) (device : Text) (from : Origin) (mfa_done : Bool) (w : State) {r : TokenResponse}
      {v : State}
      → issue_tokens out u device from mfa_done w ≡ (ok r, v)
      → Opened u r v
  unfolding issue_tokens
  issue_tokens-Opened u device from mfa_done w h =
      let (c, w') = Sessions.count_active out u.id w in
      let g =
        bind_ok (guard (has_room out.cfg (counted c)) session_limit_reached)
          (λ _. open_session out u device from mfa_done) w' h in
      open_session-Opened u device from mfa_done g.between g.second
