-- ===== src/Token/StepUp.antt =====
-- Step-up tokens that were issued, verified as access tokens.
use dift_backend_auth.Base.{ℕ, ◌+◌, ◌≡◌, ◌≤◌, refl, true, some, [], Text, arith}
use dift_backend_auth.Base.Int.{pos}
use dift_backend_auth.Domain.{TokenPayload, TokenClaims, token_type_access}
use dift_backend_auth.Runtime.{Env, World, ok}
use dift_backend_auth.Crypto.{unix, secure_hex}
use dift_backend_auth.Crypto.Assumed.{IsAscii, IsDocumented}
use dift_backend_auth.Token.{sign, issue_step_up_token, verify_access_token}
use dift_backend_auth.Token.Signing.{payload_of, tick}
use dift_backend_auth.Token.Issuing.{sign-payload_of, text_of, secure_hex-IsAscii}
use dift_backend_auth.Token.Claims.{verify_access_token-claims_of}

-- The payload of a step-up token of a time.
abbrev step_up_payload : Env → TokenClaims → ℕ → Text → TokenPayload
step_up_payload env claims t jti = record {
  sub = claims.user_id;
  device_id = claims.device_id;
  session_id = claims.session_id;
  typ = token_type_access;
  family = [];
  step_up = true;
  step_up_exp = some (pos (unix (t + env.cfg.step_up_token_ttl)));
  iat = pos (unix t);
  exp = pos (unix (t + env.cfg.access_token_ttl));
  jti = jti;
}

issue_step_up_token-signed :
    (env : Env) (claims : TokenClaims) (w : World) {t : Text} {w' : World}
    → issue_step_up_token claims env w ≡ (ok t, w')
    → sign
        (step_up_payload env claims (env.clock w.reads) (text_of (secure_hex 16 env (tick w)).0))
        env.cfg.access_token_secret
        env
        (secure_hex 16 env (tick w)).1
      ≡ (ok t, w')
unfolding issue_step_up_token
issue_step_up_token-signed env claims w h = ground arith

module _ (env : Env) (claims : TokenClaims) (w : World) {t : Text} {w' : World}
    (d : IsDocumented env) (user : IsAscii claims.user_id) (device : IsAscii claims.device_id)
    (session : IsAscii claims.session_id)
    (issued : issue_step_up_token claims env w ≡ (ok t, w')) where
  pub issue_step_up_token-payload_of :
      payload_of env t env.cfg.access_token_secret
      ≡ some
          (step_up_payload env claims (env.clock w.reads) (text_of (secure_hex 16 env (tick w)).0))
  issue_step_up_token-payload_of =
      let jti = text_of (secure_hex 16 env (tick w)).0 in
      sign-payload_of env (step_up_payload env claims (env.clock w.reads) jti)
        env.cfg.access_token_secret (secure_hex 16 env (tick w)).1 d
        (record {
          sub = user;
          device_id = device;
          session_id = session;
          typ = omega arith;
          family = tt;
          jti = secure_hex-IsAscii env 16 (tick w) d;
        })
        (issue_step_up_token-signed env claims w issued)

  pub issue_step_up_token-verify_access_token :
      (v : World)
      → unix (env.clock v.reads) ≤ unix (env.clock w.reads + env.cfg.access_token_ttl)
      → verify_access_token t env v ≡ (
        ok (record {
          user_id = claims.user_id;
          device_id = claims.device_id;
          session_id = claims.session_id;
          token_type = token_type_access;
          step_up = true;
          step_up_exp = some (pos (unix (env.clock w.reads + env.cfg.step_up_token_ttl)));
        }),
        tick v,
      )
  issue_step_up_token-verify_access_token v early =
      verify_access_token-claims_of env t v
        (step_up_payload env claims (env.clock w.reads) (text_of (secure_hex 16 env (tick w)).0))
        issue_step_up_token-payload_of (ground arith) refl
