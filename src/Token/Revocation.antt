-- ===== src/Token/Revocation.antt =====
-- Revoking one session, or all sessions of a user, ends the rotation of their tokens.
use dift_backend_auth.Base.{
  ◌≡◌, ◌≢◌, refl, sym, false, none, some, Text, text_eq, text_eq_iff, arith, ap, ◌∙◌,
}
use dift_backend_auth.Store
use dift_backend_auth.Domain.{TokenPayload, Session, SessionStatus}
use dift_backend_auth.Runtime.{Env, World, ok, panic}
use dift_backend_auth.Repository.Sessions.{mark_user}
use dift_backend_auth.Token.{rotate_refresh_token, revoke_session, revoke_all_user_sessions}
use dift_backend_auth.Token.Signing.{payload_of}
use dift_backend_auth.Token.Rotation.{rotate_refresh_token-Rotated}
use dift_backend_auth.Token.Replay.{AreKeyed, IsDead}

-- No rotation goes through for a token whose session is there and not active.
pub rotate-inactive :
    (env : Env) (raw device_id : Text) (v : World) (p : TokenPayload) (s : Session) (a r : Text)
    → payload_of env raw env.cfg.refresh_token_secret ≡ some p
    → Store.get p.session_id v.db.sessions ≡ some s
    → s.status ≢ SessionStatus.active
    → (rotate_refresh_token raw device_id env v).0 ≢ ok (a, r)
rotate-inactive env raw device_id v p s a r signed found inactive = λ e.
    let done =
      rotate_refresh_token-Rotated env raw device_id v {a = a} {r = r}
        {w' = (rotate_refresh_token raw device_id env v).1} (ground arith) in
    let same : done.payload ≡ p = cc (done.signed, signed) in
    let one : done.session ≡ s = cc (done.found, found, same) in
    inactive (ap (λ x. x.status) (sym one) ∙ done.is_active)

-- No rotation goes through for a token of a family that a replay has condemned.
pub rotate-IsDead :
    (env : Env) (raw device_id : Text) (v : World) (p : TokenPayload) (s : Session) (a r : Text)
    → IsDead s.token_family v.db
    → payload_of env raw env.cfg.refresh_token_secret ≡ some p
    → Store.get p.session_id v.db.sessions ≡ some s
    → (rotate_refresh_token raw device_id env v).0 ≢ ok (a, r)
rotate-IsDead env raw device_id v p s a r dead signed found =
    let replayed : s.status ≡ SessionStatus.replayed = dead p.session_id s found refl in
    rotate-inactive env raw device_id v p s a r signed found (λ active. cc)

-- `RevokeSession` of a session that is there revokes it and touches no other.
pub revoke_session-found :
    (env : Env) (id : Text) (w : World) (s : Session)
    → AreKeyed w.db
    → Store.get id w.db.sessions ≡ some s
    → ((revoke_session id env w).0 ≡ ok tt)
      × (Store.get id (revoke_session id env w).1.db.sessions
          ≡ some (record s { status = SessionStatus.revoked }))
      × ((j : Text)
          → text_eq id j ≡ false
          → Store.get j (revoke_session id env w).1.db.sessions ≡ Store.get j w.db.sessions)
unfolding revoke_session
revoke_session-found env id w s keyed found =
    let key : s.id ≡ id = keyed id s found in
    let s' = record s { status = SessionStatus.revoked } in
    rw found (
      refl,
      Store.get-put s.id id s' w.db.sessions ∙ rw ((text_eq_iff s.id id).1 key),
      λ j other. Store.get-put_ne s.id j s' w.db.sessions (ap (λ k. text_eq k j) key ∙ other),
    )

-- `RevokeSession` of a session that is not there panics: the pointer is nil.
revoke_session-missing :
    (env : Env) (id : Text) (w : World)
    → Store.get id w.db.sessions ≡ none
    → revoke_session id env w ≡ (panic, w)
unfolding revoke_session
revoke_session-missing env id w missing = ground arith

-- `RevokeAllUserSessions` revokes each session of the user and leaves the others as they are.
pub revoke_all_user_sessions-found :
    (env : Env) (user_id id : Text) (w : World) (s : Session)
    → Store.get id w.db.sessions ≡ some s
    → Store.get id (revoke_all_user_sessions user_id env w).1.db.sessions
      ≡ some (mark_user user_id s)
unfolding revoke_all_user_sessions
revoke_all_user_sessions-found env user_id id w s found =
    Store.get-update_all id (mark_user user_id) w.db.sessions ∙ rw found
