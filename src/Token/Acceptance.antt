-- ===== src/Token/Acceptance.antt =====
-- Which tokens are accepted, and that the current refresh token rotates.
use dift_backend_auth.Base.{
  ◌≡◌, refl, ap, ◌∙◌, true, false, some, Text, text_eq, text_eq_iff, arith, Option-cases, inl, inr,
}
use dift_backend_auth.Store
use dift_backend_auth.Store.Keyed.{IsKeyed}
use dift_backend_auth.Domain.{
  TokenPayload, TokenClaims, Session, SessionStatus, token_type_access, token_type_refresh,
}
use dift_backend_auth.Runtime.{Env, World, ok}
use dift_backend_auth.Repository.Sessions.{set_sessions}
use dift_backend_auth.Crypto.{hash_refresh_token}
use dift_backend_auth.Token.{
  verify_access_token, issue_token_pair, rotate_in, rotate_refresh_token, used,
}
use dift_backend_auth.Token.Signing.{payload_of, verify-timed, tick, is_expired}
use dift_backend_auth.Token.Claims.{claims_of}

-- What an access token that was accepted is.
pub record Accepted (env : Env) (t : Text) (w : World) (c : TokenClaims) : Type 0 where
  pub payload : TokenPayload
  pub signed : payload_of env t env.cfg.access_token_secret ≡ some payload
  pub is_fresh : is_expired env w payload ≡ false
  pub is_access : payload.typ ≡ token_type_access
  pub claimed : c ≡ claims_of payload

-- An access token that is accepted carries the server's seal, has not expired, is of the type
-- access, and the claims are those that it carries.
pub verify_access_token-Accepted :
    (env : Env) (t : Text) (w : World) {c : TokenClaims} {w' : World}
    → verify_access_token t env w ≡ (ok c, w')
    → Accepted env t w c
unfolding verify_access_token
verify_access_token-Accepted env t w {c} h =
    elim (Option-cases (payload_of env t env.cfg.access_token_secret)) [
      | inl unsigned ↦ absurd (ground (arith, verify-timed env t env.cfg.access_token_secret w))
      | inr (p, signed) ↦
          let typ : text_eq p.typ token_type_access ≡ true =
            ground (arith, verify-timed env t env.cfg.access_token_secret w) in
          record {
            payload = p;
            signed = signed;
            is_fresh = ground (arith, verify-timed env t env.cfg.access_token_secret w);
            is_access = (text_eq_iff p.typ token_type_access).0 typ;
            claimed = ground (arith, verify-timed env t env.cfg.access_token_secret w);
          }
    ]

rotate_in-current :
    (env : Env) (raw : Text) (p : TokenPayload) (s : Session) (w : World) {a r : Text} {w' : World}
    → hash_refresh_token env raw ≡ s.refresh_token
    → issue_token_pair p.sub p.device_id p.session_id p.family env w ≡ (ok (a, r), w')
    → rotate_in raw p s env w ≡ (
      ok (a, r),
      set_sessions
          (Store.put s.id (used s (hash_refresh_token env r) (env.clock w'.reads)))
          (tick w'),
    )
unfolding rotate_in
rotate_in-current env raw p s w current issued = rw ((text_eq_iff _ _).1 current, issued) refl

-- The current refresh token of an active session rotates: presented by its device before it
-- expires, it gives the pair that is issued, and the session then holds the hash of the new refresh
-- token and one more use.
pub rotate_refresh_token-current :
    (env : Env) (raw device_id : Text) (w : World) (p : TokenPayload) (s : Session) {a r : Text}
    {w' : World}
    → IsKeyed (λ s. s.id) w.db.sessions
    → payload_of env raw env.cfg.refresh_token_secret ≡ some p
    → is_expired env w p ≡ false
    → p.typ ≡ token_type_refresh
    → p.device_id ≡ device_id
    → Store.get p.session_id w.db.sessions ≡ some s
    → s.status ≡ SessionStatus.active
    → hash_refresh_token env raw ≡ s.refresh_token
    → issue_token_pair p.sub p.device_id p.session_id p.family env (tick w) ≡ (ok (a, r), w')
    → ((rotate_refresh_token raw device_id env w).0 ≡ ok (a, r))
      × (Store.get p.session_id (rotate_refresh_token raw device_id env w).1.db.sessions
          ≡ some (used s (hash_refresh_token env r) (env.clock w'.reads)))
unfolding rotate_refresh_token
rotate_refresh_token-current env raw device_id w p s {a} {r} {w'} keyed signed fresh typ device
      found active current issued =
    let u = used s (hash_refresh_token env r) (env.clock w'.reads) in
    let e = rotate_in-current env raw p s (tick w) current issued in
    let whole : rotate_refresh_token raw device_id env w ≡ rotate_in raw p s env (tick w) = ground (
      arith,
      verify-timed env raw env.cfg.refresh_token_secret w,
      text_eq_iff p.typ token_type_refresh,
      text_eq_iff p.device_id device_id,
    ) in
    let id : s.id ≡ p.session_id = keyed p.session_id s found in
    (
      ap (λ x. x.0) (whole ∙ e),
      ap (λ x. Store.get p.session_id x.1.db.sessions) (whole ∙ e)
          ∙ Store.get-put s.id p.session_id u w'.db.sessions
          ∙ rw ((text_eq_iff s.id p.session_id).1 id),
    )
