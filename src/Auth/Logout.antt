-- ===== src/Auth/Logout.antt =====
-- A session that its user left.
use dift_backend_auth.Base.{◌≡◌, ◌≢◌, refl, ap, ◌∙◌, some, Text, text_eq_iff}
use dift_backend_auth.Store
use dift_backend_auth.Domain.{
  Session, SessionStatus, TokenPayload, TokenClaims, AuditAction, AuditResult,
}
use dift_backend_auth.Runtime.{Env, World, ok}
use dift_backend_auth.Repository.Sessions.{mark_user}
use dift_backend_auth.Audit.{audit, entry, audit-ok, audit-db}
use dift_backend_auth.Token.{revoke_session, revoke_all_user_sessions, rotate_refresh_token}
use dift_backend_auth.Token.Signing.{payload_of}
use dift_backend_auth.Token.Replay.{AreKeyed}
use dift_backend_auth.Token.Revocation.{
  revoke_session-found, revoke_all_user_sessions-found, rotate-inactive,
}
use dift_backend_auth.Auth.Access.{logout, logout_all}

-- After the user of a session that is there logs out, no refresh token of the session rotates, from
-- any device, while the sessions are as the logout left them.
pub logout-rotate :
    (env : Env) (w v : World) (claims : TokenClaims) (s : Session) (raw device_id a r : Text)
    (p : TokenPayload)
    → AreKeyed w.db
    → Store.get claims.session_id w.db.sessions ≡ some s
    → v.db.sessions ≡ (logout claims env w).1.db.sessions
    → payload_of env raw env.cfg.refresh_token_secret ≡ some p
    → p.session_id ≡ claims.session_id
    → (rotate_refresh_token raw device_id env v).0 ≢ ok (a, r)
unfolding logout
logout-rotate env w v claims s raw device_id a r p keyed found same signed id =
    let l = record (entry claims.user_id claims.device_id AuditAction.logout AuditResult.success) {
      session_id = claims.session_id;
    } in
    let w' = (audit l env w).1 in
    let db : w'.db ≡ w.db = audit-db l env w in
    let (done, there, others) =
      revoke_session-found env claims.session_id w' s (rw db keyed) (rw db found) in
    let after : (logout claims env w).1.db.sessions
        ≡ (revoke_session claims.session_id env w').1.db.sessions =
      rw (audit-ok l env w) refl in
    rotate-inactive env raw device_id v p (record s { status = SessionStatus.revoked }) a r signed
      (ap (λ k. Store.get k v.db.sessions) id
        ∙ ap (Store.get claims.session_id) (same ∙ after)
        ∙ there)
      (λ e. cc e)

-- After a user logs out everywhere, no refresh token of any session of the user rotates, while the
-- sessions are as that left them.
pub logout_all-rotate :
    (env : Env) (w v : World) (claims : TokenClaims) (s : Session) (raw device_id a r : Text)
    (p : TokenPayload)
    → Store.get p.session_id w.db.sessions ≡ some s
    → s.user_id ≡ claims.user_id
    → v.db.sessions ≡ (logout_all claims env w).1.db.sessions
    → payload_of env raw env.cfg.refresh_token_secret ≡ some p
    → (rotate_refresh_token raw device_id env v).0 ≢ ok (a, r)
unfolding logout_all
logout_all-rotate env w v claims s raw device_id a r p found own same signed =
    let l = entry claims.user_id claims.device_id AuditAction.logout_all AuditResult.success in
    let w' = (audit l env w).1 in
    let db : w'.db ≡ w.db = audit-db l env w in
    let there = revoke_all_user_sessions-found env claims.user_id p.session_id w' s (rw db found) in
    let after : (logout_all claims env w).1.db.sessions
        ≡ (revoke_all_user_sessions claims.user_id env w').1.db.sessions =
      rw (audit-ok l env w) refl in
    rotate-inactive env raw device_id v p (mark_user claims.user_id s) a r signed
      (ap (Store.get p.session_id) (same ∙ after) ∙ there)
      (rw ((text_eq_iff s.user_id claims.user_id).1 own) (λ e. cc e))
