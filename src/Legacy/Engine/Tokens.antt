-- ===== src/Legacy/Engine/Tokens.antt =====
-- `jwt.Manager` of the earlier engine, pkg/jwt/jwt.go, on the library golang-jwt.
use dift_backend_auth.Base.{
  ◌+◌, Bool, false, Option, none, ◌&&◌, if◌then◌else◌, Text, codes, text_eq,
}
use dift_backend_auth.Legacy.Engine.{
  Claims, Outside, Parsed, expired, malformed, valid, M, ◌>>=◌, pure, or_fail, now, new_uuid, lift,
  Result, ok, err, token_invalid, token_expired, library,
}

abbrev pub access : Text
access = codes "access"

abbrev pub refresh : Text
refresh = codes "refresh"

unfoldable pub generate_access_token :
    Outside → (user session role : Text) → (email phone : Option Text) → Bool → M Text
generate_access_token out user session role email phone mfa_done = do
  t ← now out
  id ← new_uuid out
  or_fail
      (out.signed out.cfg.access_secret (record {
        user_id = user;
        session_id = session;
        role = role;
        email = email;
        phone = phone;
        mfa_done = mfa_done;
        token_type = access;
        id = id;
        issuer = out.cfg.issuer;
        issued_at = t;
        not_before = t;
        expires_at = t + out.cfg.access_expiry;
      }))
      library

unfoldable pub generate_refresh_token : Outside → (user session : Text) → M Text
generate_refresh_token out user session = do
  t ← now out
  id ← new_uuid out
  or_fail
      (out.signed out.cfg.refresh_secret (record {
        user_id = user;
        session_id = session;
        role = codes "";
        email = none;
        phone = none;
        mfa_done = false;
        token_type = refresh;
        id = id;
        issuer = out.cfg.issuer;
        issued_at = t;
        not_before = t;
        expires_at = t + out.cfg.refresh_expiry;
      }))
      library

unfoldable pub generate_token_pair :
    Outside → (user session role : Text) → (email phone : Option Text) → Bool → M (Text × Text)
generate_token_pair out user session role email phone mfa_done = do
  a ← generate_access_token out user session role email phone mfa_done
  r ← generate_refresh_token out user session
  pure (a, r)

-- The claims that the manager takes, of what the library says of a token.
abbrev pub accepted : Outside → (expected : Text) → Parsed → Result Claims
accepted out expected expired = err token_expired
accepted out expected malformed = err token_invalid
accepted out expected (valid c) =
    if text_eq c.token_type expected && text_eq c.issuer out.cfg.issuer
    then ok c
    else err token_invalid

unfoldable pub parse_token : Outside → (secret expected token : Text) → M Claims
parse_token out secret expected token = do
  t ← now out
  lift (accepted out expected (out.parsed secret t token))

abbrev pub parse_access_token : Outside → Text → M Claims
parse_access_token out = parse_token out out.cfg.access_secret access

abbrev pub parse_refresh_token : Outside → Text → M Claims
parse_refresh_token out = parse_token out out.cfg.refresh_secret refresh
