-- ===== src/Token.antt =====
-- `TokenService` of auth-service-main/biometric-auth/internal/service/token.go: tokens that are
-- signed with HMAC, issued in pairs, and rotated.
pub mod Signing
pub mod Rotation
pub mod Replay
pub mod Claims
pub mod StepUp
pub mod Acceptance
pub mod Revocation
pub mod Issuing
use dift_backend_auth.Base.{
  ℕ, ◌+◌, ◌/◌, suc, Bool, true, false, not, Option, none, some, List, [], ◌∷◌, ◌++◌, Text, codes,
  text_eq, if◌then◌else◌,
}
use dift_backend_auth.Base.Int.{ℤ, pos, ltb_ℤ}
use dift_backend_auth.Encoding.{split}
use dift_backend_auth.Encoding.Base64
use dift_backend_auth.Encoding.Base64.{url}
use dift_backend_auth.Domain.{
  Session, SessionStatus, TokenClaims, TokenPayload, token_type_access, token_type_refresh,
}
use dift_backend_auth.Runtime.{
  Env, World, Outcome, ok, err, panic, M, ◌>>=◌, ◌>>◌, pure, fail, crash, ask, now, guard, or_fail,
  on_error, token_invalid, token_expired, token_revoked, family_compromised, device_mismatch,
  marshal_failed,
}
use dift_backend_auth.Repository.Sessions
use dift_backend_auth.Crypto.{secure_hex, hash_refresh_token, unix}

-- The encoded header `{"alg":"HS256","typ":"JWT"}`.
abbrev pub header : Text
unfolding Base64.encode
header = Base64.encode url (codes "{\"alg\":\"HS256\",\"typ\":\"JWT\"}")

unfoldable pub signature : Env → Text → Text → Text
signature env secret signing_input = env.hmac_sha256 secret signing_input

unfoldable pub sign : TokenPayload → Text → M Text
sign payload secret = do
  env ← ask
  json ← or_fail (env.json_marshal payload) marshal_failed
  let signing_input = header ++ (b'.' ∷ Base64.encode url json)
  pure (signing_input ++ (b'.' ∷ Base64.encode url (env.hmac_sha256 secret signing_input)))

-- The three parts of a token.
unfoldable pub verify_parts : Text → List Text → M TokenPayload
verify_parts secret (head64 ∷ payload64 ∷ sig64 ∷ []) = do
  env ← ask
  let expected_sig = env.hmac_sha256 secret (head64 ++ (b'.' ∷ payload64))
  got_sig ← or_fail (Base64.decode url sig64) token_invalid
  guard (text_eq got_sig expected_sig) token_invalid
  json ← or_fail (Base64.decode url payload64) token_invalid
  p ← or_fail (env.json_unmarshal json) token_invalid
  t ← now
  guard (not (ltb_ℤ p.exp (pos (unix t)))) token_expired
  pure p
verify_parts secret _ = fail token_invalid

unfoldable pub verify : Text → Text → M TokenPayload
verify token secret = verify_parts secret (split b'.' token)

-- The payload of one token of a pair.
abbrev pub pair_payload : Text → Text → Text → Text → Text → ℕ → ℕ → Text → TokenPayload
pair_payload user_id device_id session_id family typ t ttl jti = record {
  sub = user_id;
  device_id = device_id;
  session_id = session_id;
  typ = typ;
  family = family;
  step_up = false;
  step_up_exp = none;
  iat = pos (unix t);
  exp = pos (unix (t + ttl));
  jti = jti;
}

-- The access token and the refresh token.
unfoldable pub issue_token_pair : Text → Text → Text → Text → M (Text × Text)
issue_token_pair user_id device_id session_id family = do
  env ← ask
  t ← now
  jti_access ← secure_hex 16
  jti_refresh ← secure_hex 16
  access ←
      sign
        (pair_payload user_id device_id session_id family token_type_access t
          env.cfg.access_token_ttl jti_access)
        env.cfg.access_token_secret
  refresh ←
      sign
        (pair_payload user_id device_id session_id family token_type_refresh t
          env.cfg.refresh_token_ttl jti_refresh)
        env.cfg.refresh_token_secret
  pure (access, refresh)

unfoldable pub issue_step_up_token : TokenClaims → M Text
issue_step_up_token claims = do
  env ← ask
  t ← now
  jti ← secure_hex 16
  sign
      (record {
        sub = claims.user_id;
        device_id = claims.device_id;
        session_id = claims.session_id;
        typ = token_type_access;
        family = [];
        step_up = true;
        step_up_exp = some (pos (unix (t + env.cfg.step_up_token_ttl)));
        iat = pos (unix t);
        exp = pos (unix (t + env.cfg.access_token_ttl));
        jti = jti;
      })
      env.cfg.access_token_secret

-- The session of a refresh token that the repository has, if it is active.
abbrev pub active_session : Option Session → M Session
active_session none = fail token_revoked
active_session (some s) = elim s.status [ SessionStatus.active ↦ pure s | _ ↦ fail token_revoked ]

-- What a use of the session leaves in it.
abbrev pub used : Session → Text → ℕ → Session
used s hash t = record s { refresh_token = hash; last_used_at = t; use_count = suc s.use_count }

-- After the token has been verified and its session found.
unfoldable pub rotate_in : Text → TokenPayload → Session → M (Text × Text)
unfolding Sessions.revoke_family Sessions.update
rotate_in raw payload session = do
  env ← ask
  if text_eq (hash_refresh_token env raw) session.refresh_token
      then (do
        (access, refresh) ←
            issue_token_pair payload.sub payload.device_id payload.session_id payload.family
        t ← now
        Sessions.update (used session (hash_refresh_token env refresh) t)
        pure (access, refresh))
      else (do
        Sessions.revoke_family payload.family SessionStatus.replayed
        fail family_compromised)

unfoldable pub rotate_refresh_token : Text → Text → M (Text × Text)
unfolding Sessions.get_by_id
rotate_refresh_token raw device_id = do
  env ← ask
  payload ← on_error (verify raw env.cfg.refresh_token_secret) (λ _. fail token_invalid)
  guard (text_eq payload.typ token_type_refresh) token_invalid
  guard (text_eq payload.device_id device_id) device_mismatch
  session ← active_session (← Sessions.get_by_id payload.session_id)
  rotate_in raw payload session

unfoldable pub verify_access_token : Text → M TokenClaims
verify_access_token raw = do
  env ← ask
  p ← verify raw env.cfg.access_token_secret
  guard (text_eq p.typ token_type_access) token_invalid
  pure (record {
    user_id = p.sub;
    device_id = p.device_id;
    session_id = p.session_id;
    token_type = token_type_access;
    step_up = p.step_up;
    step_up_exp = p.step_up_exp;
  })

-- The write through the pointer that `GetByID` gave: a nil pointer panics.
abbrev pub revoke_found : Option Session → M (Unit {0})
revoke_found none = crash
revoke_found (some s) = Sessions.update (record s { status = SessionStatus.revoked })

unfoldable pub revoke_session : Text → M (Unit {0})
unfolding Sessions.get_by_id Sessions.update
revoke_session session_id = do revoke_found (← Sessions.get_by_id session_id)

unfoldable pub revoke_all_user_sessions : Text → M (Unit {0})
unfolding Sessions.revoke_all_by_user
revoke_all_user_sessions user_id = Sessions.revoke_all_by_user user_id
