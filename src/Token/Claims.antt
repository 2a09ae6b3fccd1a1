-- ===== src/Token/Claims.antt =====
-- Tokens that were issued, verified as access tokens.
use dift_backend_auth.Base.{
  ◌+◌, ◌≡◌, ◌≤◌, refl, ap, ◌∙◌, false, none, some, Text, text_eq, text_eq_iff, arith,
}
use dift_backend_auth.Domain.{TokenPayload, TokenClaims, token_type_access, token_type_refresh}
use dift_backend_auth.Runtime.{Env, World, ok, err, token_invalid}
use dift_backend_auth.Crypto.{unix}
use dift_backend_auth.Crypto.Assumed.{IsAscii, IsDocumented}
use dift_backend_auth.Token.{pair_payload, issue_token_pair, verify_access_token}
use dift_backend_auth.Token.Signing.{payload_of, verify-timed, tick, is_expired}
use dift_backend_auth.Token.Issuing.{issue_token_pair-Issued, sign-payload_of}

-- The claims that a payload carries.
abbrev pub claims_of : TokenPayload → TokenClaims
claims_of p = record {
  user_id = p.sub;
  device_id = p.device_id;
  session_id = p.session_id;
  token_type = token_type_access;
  step_up = p.step_up;
  step_up_exp = p.step_up_exp;
}

-- A token with this payload, fresh and of the type access, gives its claims.
pub verify_access_token-claims_of :
    (env : Env) (t : Text) (v : World) (p : TokenPayload)
    → payload_of env t env.cfg.access_token_secret ≡ some p
    → is_expired env v p ≡ false
    → p.typ ≡ token_type_access
    → verify_access_token t env v ≡ (ok (claims_of p), tick v)
unfolding verify_access_token
verify_access_token-claims_of env t v p signed fresh typ =
    ground
      (arith, verify-timed env t env.cfg.access_token_secret v, text_eq_iff p.typ token_type_access)

-- A token of another type is refused, also under the same secret.
pub verify_access_token-other :
    (env : Env) (t : Text) (v : World) (p : TokenPayload)
    → payload_of env t env.cfg.access_token_secret ≡ some p
    → is_expired env v p ≡ false
    → text_eq p.typ token_type_access ≡ false
    → (verify_access_token t env v).0 ≡ err token_invalid
unfolding verify_access_token
verify_access_token-other env t v p signed fresh typ =
    ground (arith, verify-timed env t env.cfg.access_token_secret v)

module _ (env : Env) (user_id device_id session_id family : Text) (w : World) {a r : Text}
    {w' : World} (d : IsDocumented env) (user : IsAscii user_id) (device : IsAscii device_id)
    (session : IsAscii session_id) (fam : IsAscii family)
    (issued : issue_token_pair user_id device_id session_id family env w ≡ (ok (a, r), w')) where
  -- The access token of a pair that was issued, for texts that are ASCII, verifies at every state
  -- whose clock has not passed the second of its expiry, and gives the user, the device and the
  -- session that it was issued for, without a step-up.
  pub issue_token_pair-verify_access_token :
      (v : World)
      → unix (env.clock v.reads) ≤ unix (env.clock w.reads + env.cfg.access_token_ttl)
      → verify_access_token a env v ≡ (
        ok (record {
          user_id = user_id;
          device_id = device_id;
          session_id = session_id;
          token_type = token_type_access;
          step_up = false;
          step_up_exp = none;
        }),
        tick v,
      )
  issue_token_pair-verify_access_token v early =
      let i = issue_token_pair-Issued user_id device_id session_id family env w issued in
      let p =
        pair_payload user_id device_id session_id family token_type_access (env.clock w.reads)
          env.cfg.access_token_ttl i.jti_access in
      verify_access_token-claims_of env a v p
        (sign-payload_of env p env.cfg.access_token_secret i.before_access d
          (record {
            sub = user;
            device_id = device;
            session_id = session;
            typ = omega arith;
            family = fam;
            jti = i.ascii_access d;
          })
          i.access)
        (ground arith) refl

  -- The refresh token of a pair is no access token, even where the two secrets are the same.
  pub issue_token_pair-refresh_no_access :
      (v : World)
      → env.cfg.access_token_secret ≡ env.cfg.refresh_token_secret
      → unix (env.clock v.reads) ≤ unix (env.clock w.reads + env.cfg.refresh_token_ttl)
      → (verify_access_token r env v).0 ≡ err token_invalid
  unfolding text_eq
  issue_token_pair-refresh_no_access v one early =
      let i = issue_token_pair-Issued user_id device_id session_id family env w issued in
      let p =
        pair_payload user_id device_id session_id family token_type_refresh (env.clock w.reads)
          env.cfg.refresh_token_ttl i.jti_refresh in
      verify_access_token-other env r v p
        (ap (payload_of env r) one
          ∙ (sign-payload_of env p env.cfg.refresh_token_secret i.before_refresh d
              (record {
                sub = user;
                device_id = device;
                session_id = session;
                typ = omega arith;
                family = fam;
                jti = i.ascii_refresh d;
              })
              i.refresh))
        (ground arith) refl
