-- ===== src/Middleware/Gates.antt =====
-- Which requests the checks let pass.
use dift_backend_auth.Base.{
  ◌+◌, ◌*◌, ◌^◌, ◌<◌, ◌≡◌, ◌≤◌, refl, true, false, some, [], ◌∷◌, ◌++◌, Text, is_empty, ltb,
  if◌then◌else◌, arith, Bool-cases, inl, inr,
}
use dift_backend_auth.Base.Int.{pos}
use dift_backend_auth.Encoding.{split}
use dift_backend_auth.Domain.{TokenPayload, TokenClaims, token_type_access}
use dift_backend_auth.Runtime.{Env, World, ok}
use dift_backend_auth.Crypto.{unix, second}
use dift_backend_auth.Crypto.Assumed.{IsAscii, IsDocumented}
use dift_backend_auth.Drift.Window.{unix_time-pos}
use dift_backend_auth.Token.{issue_step_up_token, verify_access_token}
use dift_backend_auth.Token.Signing.{payload_of, payload_of_parts, tick}
use dift_backend_auth.Token.Acceptance.{Accepted, verify_access_token-Accepted}
use dift_backend_auth.Token.StepUp.{
  issue_step_up_token-payload_of, issue_step_up_token-verify_access_token,
}
use dift_backend_auth.Middleware.{
  Request, pass, stop, bearer, has_prefix, extract_bearer_token, authenticate, require_step_up,
}

extract_bearer_token-bearer :
    (r : Request) (t : Text) → r.authorization ≡ bearer ++ t → extract_bearer_token r ≡ t
unfolding extract_bearer_token has_prefix
extract_bearer_token-bearer r t h = rw h refl

payload_of-nonempty :
    (env : Env) (t secret : Text) {p : TokenPayload}
    → payload_of env t secret ≡ some p
    → is_empty t ≡ false
unfolding payload_of payload_of_parts split
payload_of-nonempty env [] secret h = absurd (cc h)
payload_of-nonempty env (c ∷ t) secret h = refl

authenticate-pass :
    (env : Env) (r : Request) (t : Text) (v v' : World) (c : TokenClaims)
    → r.authorization ≡ bearer ++ t
    → is_empty t ≡ false
    → verify_access_token t env v ≡ (ok c, v')
    → authenticate r env v ≡ (ok (pass c), v')
unfolding authenticate
authenticate-pass env r t v v' c h full e = rw (extract_bearer_token-bearer r t h, full, e) refl

-- The token of an authorised payment, sent as a bearer, passes the authentication with a step-up
-- until the access token's expiry; and the check of the step-up then lets the request pass exactly
-- until the second in which the step-up expires, and answers 403 after it.
pub issue_step_up_token-require_step_up :
    (env : Env) (claims : TokenClaims) (w : World) {t : Text} {w' : World} (v u : World)
    (r : Request)
    → IsDocumented env
    → IsAscii claims.user_id
    → IsAscii claims.device_id
    → IsAscii claims.session_id
    → issue_step_up_token claims env w ≡ (ok t, w')
    → r.authorization ≡ bearer ++ t
    → unix (env.clock v.reads) ≤ unix (env.clock w.reads + env.cfg.access_token_ttl)
    → env.clock w.reads + env.cfg.step_up_token_ttl < 2 ^ 62
    → (c : TokenClaims) × (authenticate r env v ≡ (ok (pass c), tick v))
      × (c.user_id ≡ claims.user_id)
      × (c.device_id ≡ claims.device_id)
      × (c.session_id ≡ claims.session_id)
      × ((require_step_up (some c) env u).0
          ≡ ok (
              if ltb
                (unix (env.clock w.reads + env.cfg.step_up_token_ttl) * second)
                (env.clock u.reads)
              then stop 403
              else pass tt))
unfolding require_step_up
issue_step_up_token-require_step_up env claims w {t} v u r d user device session issued sent early
      small =
    let s = unix (env.clock w.reads + env.cfg.step_up_token_ttl) in
    let c : TokenClaims = record {
      user_id = claims.user_id;
      device_id = claims.device_id;
      session_id = claims.session_id;
      token_type = token_type_access;
      step_up = true;
      step_up_exp = some (pos s);
    } in
    let signed = issue_step_up_token-payload_of env claims w d user device session issued in
    (
      c,
      authenticate-pass env r t v (tick v) c sent
          (payload_of-nonempty env t env.cfg.access_token_secret signed)
          (issue_step_up_token-verify_access_token env claims w d user device session issued v
            early),
      refl,
      refl,
      refl,
      rw (unix_time-pos s (omega arith)) (ground arith),
    )

-- A request that passes the authentication carries an access token that the server sealed, that has
-- not expired, and whose claims are those that go on to the handler.
pub authenticate-Accepted :
    (r : Request) (env : Env) (w : World) {c : TokenClaims} {w' : World}
    → authenticate r env w ≡ (ok (pass c), w')
    → Accepted env (extract_bearer_token r) w c
unfolding authenticate
authenticate-Accepted r env w {c} {w'} h = elim (Bool-cases (is_empty (extract_bearer_token r))) [
  | inl empty ↦ absurd (ground arith)
  | inr full ↦
      verify_access_token-Accepted env (extract_bearer_token r) w {c = c} {w' = w'} (ground arith)
]
