-- ===== src/Token/Rotation.antt =====
-- Rotation of refresh tokens: single use, and the reaction to a replay.
use dift_backend_auth.Base.{
  ℕ, ◌≡◌, true, false, some, Text, text_eq, text_eq_iff, arith, Option-cases, Bool-cases, inl, inr,
}
use dift_backend_auth.Store
use dift_backend_auth.Domain.{TokenPayload, Session, SessionStatus, token_type_refresh}
use dift_backend_auth.Runtime.{Env, World, ok}
use dift_backend_auth.Crypto.{hash_refresh_token}
use dift_backend_auth.Token.{issue_token_pair, rotate_in, rotate_refresh_token, used}
use dift_backend_auth.Token.Signing.{payload_of, verify-timed, tick, is_expired}
use dift_backend_auth.Token.Issuing.{issue_token_pair-KeepsDb}

-- A rotation in a session went through: the token was the session's, and the session now has the
-- hash of the new refresh token.
rotate_in-ok :
    (env : Env) (raw : Text) (p : TokenPayload) (s : Session) (w : World) {a r : Text} {w' : World}
    → rotate_in raw p s env w ≡ (ok (a, r), w')
    → (hash_refresh_token env raw ≡ s.refresh_token)
      × ((t : ℕ) × (w'.db ≡ record w.db {
        sessions = Store.put s.id (used s (hash_refresh_token env r) t) w.db.sessions;
      }))
unfolding rotate_in
rotate_in-ok env raw p s w {a} {r} {w'} h =
    elim (Bool-cases (text_eq (hash_refresh_token env raw) s.refresh_token)) [
      | inl same ↦ (
        (text_eq_iff _ _).0 same,
        (
          env.clock (issue_token_pair p.sub p.device_id p.session_id p.family env w).1.reads,
          ground (
            arith,
            (issue_token_pair-KeepsDb p.sub p.device_id p.session_id p.family).apply env w,
          ),
        ),
      )
      | inr other ↦ absurd (ground arith)
    ]

-- What a successful rotation found and left.
pub record Rotated (env : Env) (raw device_id : Text) (w : World) (r : Text) (w' : World)
    : Type 0 where
  pub payload : TokenPayload
  pub session : Session
  pub time : ℕ
  pub signed : payload_of env raw env.cfg.refresh_token_secret ≡ some payload
  pub is_fresh : is_expired env w payload ≡ false
  pub is_refresh : payload.typ ≡ token_type_refresh
  pub same_device : payload.device_id ≡ device_id
  pub found : Store.get payload.session_id w.db.sessions ≡ some session
  pub is_active : session.status ≡ SessionStatus.active
  pub is_current : hash_refresh_token env raw ≡ session.refresh_token
  pub stored : w'.db ≡ record w.db {
    sessions = Store.put session.id (used session (hash_refresh_token env r) time) w.db.sessions;
  }

-- The checks in front of the rotation all passed.
rotate_checks :
    (env : Env) (raw device_id : Text) (w : World) (p : TokenPayload) (s : Session) {a r : Text}
    {w' : World}
    → payload_of env raw env.cfg.refresh_token_secret ≡ some p
    → Store.get p.session_id w.db.sessions ≡ some s
    → rotate_refresh_token raw device_id env w ≡ (ok (a, r), w')
    → (is_expired env w p ≡ false)
      × (text_eq p.typ token_type_refresh ≡ true)
      × (text_eq p.device_id device_id ≡ true)
      × (s.status ≡ SessionStatus.active)
      × (rotate_in raw p s env (tick w) ≡ (ok (a, r), w'))
unfolding rotate_refresh_token
rotate_checks env raw device_id w p s signed found h =
    ground (arith, verify-timed env raw env.cfg.refresh_token_secret w)

pub rotate_refresh_token-Rotated :
    (env : Env) (raw device_id : Text) (w : World) {a r : Text} {w' : World}
    → rotate_refresh_token raw device_id env w ≡ (ok (a, r), w')
    → Rotated env raw device_id w r w'
unfolding rotate_refresh_token
rotate_refresh_token-Rotated env raw device_id w {a} {r} {w'} h =
    elim (Option-cases (payload_of env raw env.cfg.refresh_token_secret)) [
      | inl unsigned ↦ absurd (ground (arith, verify-timed env raw env.cfg.refresh_token_secret w))
      | inr (p, signed) ↦ elim (Option-cases (Store.get p.session_id w.db.sessions)) [
        | inl missing ↦ absurd (ground (arith, verify-timed env raw env.cfg.refresh_token_secret w))
        | inr (s, found) ↦
            let (fresh, typ, device, active, rotated) =
              rotate_checks env raw device_id w p s signed found h in
            let (current, (t, stored)) = rotate_in-ok env raw p s (tick w) rotated in
            record {
              payload = p;
              session = s;
              time = t;
              signed = signed;
              is_fresh = fresh;
              is_refresh = (text_eq_iff _ _).0 typ;
              same_device = (text_eq_iff _ _).0 device;
              found = found;
              is_active = active;
              is_current = current;
              stored = stored;
            }
      ]
    ]
