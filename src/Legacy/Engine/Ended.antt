-- ===== src/Legacy/Engine/Ended.antt =====
-- A session that was ended stays ended: its refresh tokens are refused.
use dift_backend_auth.Base.{
  ℕ, ◌≡◌, ◌≢◌, refl, sym, ap, ◌∙◌, Bool, true, false, none, some, List, Text, text_eq, text_eq_iff,
  arith, Bool-cases, Option-cases, inl, inr,
}
use dift_backend_auth.Store
use dift_backend_auth.Store.{get-put, get-update_all}
use dift_backend_auth.Legacy.Engine.{
  User, Session, Claims, Outside, State, ok, err, not_found, or_else, session_expired,
  invalid_token, Parsed,
}
use dift_backend_auth.Legacy.Engine.Frame.{Property, Keeps, write_sessions-Keeps}
use dift_backend_auth.Legacy.Engine.Inversion.{bind_ok, or_else_ok, query_ok}
use dift_backend_auth.Legacy.Engine.Kept.{table_rules}
use dift_backend_auth.Legacy.Engine.Served.{IsKept}
use dift_backend_auth.Legacy.Engine.Requests.{serve_all-keeps}
use dift_backend_auth.Legacy.Engine.Tables.{write_sessions}
use dift_backend_auth.Legacy.Engine.Sessions
use dift_backend_auth.Legacy.Engine.Sessions.{change_if, end, seen_at}
use dift_backend_auth.Legacy.Engine.Tokens.{parse_token, parse_refresh_token, accepted, refresh}
use dift_backend_auth.Legacy.Engine.Service.{Origin, TokenResponse, issue_tokens}
use dift_backend_auth.Legacy.Engine.Access.{
  refresh_token, refresh_with, refresh_session, logout_all,
}
use dift_backend_auth.Legacy.Engine.Handlers.{Request, serve_all}

-- A session with the id is there, and it is not active.
abbrev Ended : Text → Property
Ended id m = (s : Session) × (Store.get id m ≡ some s) × (s.is_active ≡ false)

put-Ended :
    (id : Text) (s : Session) (m : Store.Store Session)
    → Store.get s.id m ≡ none
    → Ended id m
    → Ended id (Store.put s.id s m)
put-Ended id s m free (e, found, over) = elim (Bool-cases (text_eq s.id id)) [
  | inl same ↦ absurd (ground (arith, text_eq_iff s.id id))
  | inr other ↦ (e, rw (get-put, other) found, over)
]

update_all-Ended :
    (id : Text) (f : Session → Session) (m : Store.Store Session)
    → ((s : Session) → s.is_active ≡ false → (f s).is_active ≡ false)
    → Ended id m
    → Ended id (Store.update_all f m)
update_all-Ended id f m keeps (e, found, over) =
    (f e, rw (get-update_all, found) refl, keeps e over)

change_if-over :
    (p : Session → Bool) (f : Session → Session) (s : Session)
    → (f s).is_active ≡ false
    → s.is_active ≡ false
    → (change_if p f s).is_active ≡ false
change_if-over p f s changed over = elim (Bool-cases (p s)) [
  | inl hit ↦ rw hit changed
  | inr miss ↦ rw miss over
]

module _ (out : Outside) (id : Text) where
  create-Ended : (s : Session) → Keeps (Ended id) (Sessions.create out s)
  unfolding Sessions.create
  create-Ended s = write_sessions-Keeps out _ (λ w e.
      elim (Option-cases (Store.get s.id w.sessions)) [
        | inl free ↦ rw free (put-Ended id s w.sessions free e)
        | inr (v, taken) ↦ rw taken e
      ])

  issue_tokens-Ended :
      (u : User) (device : Text) (from : Origin) (mfa_done : Bool)
      → Keeps (Ended id) (issue_tokens out u device from mfa_done)
  unfolding issue_tokens
  issue_tokens-Ended u device from mfa_done = search (table_rules, create-Ended) depth 30

  Ended-IsKept : IsKept (Ended id) out
  Ended-IsKept = record {
    issued = issue_tokens-Ended;
    ended = λ p m. update_all-Ended id (change_if p end) m (λ s. change_if-over p end s refl);
    touched = λ p t m.
        update_all-Ended id (change_if p (seen_at t)) m
          (λ s over. change_if-over p (seen_at t) s over over);
  }

  -- Only a session that is active is found.
  get_by_id-Ended :
      (w : State) (s : Session) (v : State)
      → Ended id w.sessions
      → Sessions.get_by_id out id w ≢ (ok s, v)
  unfolding Sessions.get_by_id
  get_by_id-Ended w s v (e, found, over) h =
      let read = (query_ok out _ w h).0 in
      let none_there : err not_found ≡ ok s = rw (found, over) at read in ground arith

  refresh_with-Ended :
      (c : Claims) (w v : State) (r : TokenResponse)
      → c.session_id ≡ id
      → Ended id w.sessions
      → refresh_with out c w ≢ (ok r, v)
  refresh_with-Ended c w v r at_id over h =
      let s =
        bind_ok (or_else (Sessions.get_by_id out c.session_id) session_expired)
          (refresh_session out c) w h in
      get_by_id-Ended w s.value s.between over (
        ap (λ i. Sessions.get_by_id out i w) (sym at_id)
        ∙ or_else_ok (Sessions.get_by_id out c.session_id) session_expired w s.first)

  -- A token that is about the session, whenever the library takes it.
  abbrev pub IsAbout : Text → Type 0
  IsAbout token =
      (t : ℕ) (c : Claims)
      → out.parsed out.cfg.refresh_secret t token ≡ Parsed.valid c
      → c.session_id ≡ id

  accepted-ok :
      (expected : Text) (p : Parsed) (c : Claims)
      → accepted out expected p ≡ ok c
      → p ≡ Parsed.valid c
  accepted-ok expected Parsed.expired c h = ground arith
  accepted-ok expected Parsed.malformed c h = ground arith
  accepted-ok expected (Parsed.valid d) c h = ground arith

  refresh_token-Ended :
      (token : Text) (w : State) (r : TokenResponse)
      → IsAbout token
      → Ended id w.sessions
      → (refresh_token out token w).0 ≢ ok r
  unfolding refresh_token parse_token
  refresh_token-Ended token w r about over h =
      let c =
        bind_ok (or_else (parse_refresh_token out token) invalid_token) (refresh_with out) w
          (ap (λ a. (a, (refresh_token out token w).1)) h) in
      let q = or_else_ok (parse_refresh_token out token) invalid_token w c.first in
      let v = accepted-ok refresh _ c.value (ap (λ a. a.0) q) in
      refresh_with-Ended c.value c.between _ r (about (out.codes.clock w.reads) c.value v)
        (rw (← ap (λ a. a.1.sessions) q) over) c.second

  revoke_all-Ended :
      (user : Text) (s : Session) (w : State)
      → out.answers w.statements ≡ true
      → Store.get id w.sessions ≡ some s
      → s.user_id ≡ user
      → Ended id (Sessions.revoke_all out user w).1.sessions
  unfolding Sessions.revoke_all write_sessions
  revoke_all-Ended user s w up found own =
      rw up (end s, rw (get-update_all, found, (text_eq_iff s.user_id user).1 own) refl, refl)

  -- After a user logged out everywhere, where the database answered, no refresh token of a session
  -- that the user had then is refreshed, whatever requests come between.
  pub logout_all-refresh_token :
      (user token : Text) (s : Session) (rs : List (Origin × Request)) (w : State)
      → out.answers w.statements ≡ true
      → Store.get id w.sessions ≡ some s
      → s.user_id ≡ user
      → IsAbout token
      → ((logout_all out user w).0 ≡ ok tt)
        × ((r : TokenResponse)
            → (refresh_token out token (serve_all out rs (logout_all out user w).1)).0 ≢ ok r)
  unfolding Sessions.revoke_all write_sessions
  logout_all-refresh_token user token s rs w up found own about = (
    rw up refl,
    λ r. refresh_token-Ended token (serve_all out rs (logout_all out user w).1) r about (
        serve_all-keeps out Ended-IsKept rs (logout_all out user w).1
          (revoke_all-Ended user s w up found own)),
  )
