-- ===== src/Legacy/Engine/Reused.antt =====
-- A refresh token that was used refreshes again.
use dift_backend_auth.Base.{
  ℕ, zero, suc, ◌≡◌, refl, Bool, true, false, some, Text, arith, ltb, text_eq,
}
use dift_backend_auth.Store
use dift_backend_auth.Store.{get-update_all}
use dift_backend_auth.Legacy.Engine.{User, Session, Claims, Outside, State, ok}
use dift_backend_auth.Legacy.Engine.Tables.{query, write_sessions, is_kept}
use dift_backend_auth.Legacy.Engine.Users
use dift_backend_auth.Legacy.Engine.Sessions
use dift_backend_auth.Legacy.Engine.Tokens.{
  parse_token, accepted, refresh, generate_refresh_token, generate_access_token,
}
use dift_backend_auth.Legacy.Engine.Service.{TokenResponse}
use dift_backend_auth.Legacy.Engine.Access.{refresh_token}

-- The token again and again.
abbrev pub uses : Outside → Text → ℕ → State → State
uses out token zero w = w
uses out token (suc n) w = uses out token n (refresh_token out token w).1

module _ (out : Outside) (token : Text) (c : Claims) (u : User) where
  -- A session that is active until a time, of a user who is there.
  pub record Ready (until : ℕ) (w : State) : Type 0 where
    pub session : Session
    pub stored : Store.get c.session_id w.sessions ≡ some session
    pub is_active : session.is_active ≡ true
    pub lasts : session.expires_at ≡ until
    pub user : Store.get c.user_id w.users ≡ some u
    pub kept : is_kept u ≡ true

  -- Until then: the library takes the token for the claims, signs tokens, and the database answers.
  pub record Usable (until : ℕ) : Type 0 where
    pub answers : (k : ℕ) → out.answers k ≡ true
    pub in_time : (k : ℕ) → ltb until (out.codes.clock k) ≡ false
    pub taken :
        (k : ℕ)
        → accepted out refresh (out.parsed out.cfg.refresh_secret (out.codes.clock k) token) ≡ ok c
    pub sign : Text → Claims → Text
    pub signs : (secret : Text) (d : Claims) → out.signed secret d ≡ some (sign secret d)

  -- A use goes through, and leaves the session ready.
  Used : ℕ → State → Type 0
  Used until w =
      (r : TokenResponse) × ((refresh_token out token w).0 ≡ ok r)
      × Ready until (refresh_token out token w).1

  refresh_token-Used : (until : ℕ) (w : State) → Usable until → Ready until w → Used until w
  unfolding Used refresh_token parse_token Sessions.get_by_id Users.get_by_id query
      generate_refresh_token generate_access_token Sessions.touch write_sessions
  refresh_token-Used until w able ready =
      rw
        (
          refresh_token,
          parse_token,
          able.taken w.reads,
          Sessions.get_by_id,
          query,
          able.answers,
          ready.stored,
          ready.is_active,
          ready.lasts,
          able.in_time,
          Users.get_by_id,
          query,
          able.answers,
          ready.user,
          ready.kept,
          generate_refresh_token,
          able.signs,
          generate_access_token,
          able.signs,
          Sessions.touch,
          write_sessions,
          able.answers,
        )
        (
          _,
          refl,
          record {
            session = Sessions.change_if hit (Sessions.seen_at seen) ready.session;
            stored = rw (get-update_all, ready.stored) refl;
            is_active = ground (arith, ready.is_active);
            lasts = ground (arith, ready.lasts);
            user = ready.user;
            kept = ready.kept;
          },
        )
    where
      seen : ℕ
      seen = out.codes.clock (suc (suc (suc (suc w.reads))))

      hit : Session → Bool
      hit s = text_eq s.id ready.session.id

  -- A refresh token is not used up: where the session is active and lasts, the user is there, the
  -- library takes the token and signs tokens, and the database answers, the token refreshes after any
  -- number of uses.
  pub refresh_token-again :
      (until n : ℕ) (w : State)
      → Usable until
      → Ready until w
      → (r : TokenResponse) × ((refresh_token out token (uses out token n w)).0 ≡ ok r)
  unfolding Used
  refresh_token-again until zero w able ready =
      let (r, went, _) = refresh_token-Used until w able ready in (r, went)
  refresh_token-again until (suc n) w able ready =
      let (_, _, still) = refresh_token-Used until w able ready in
      refresh_token-again until n (refresh_token out token w).1 able still
