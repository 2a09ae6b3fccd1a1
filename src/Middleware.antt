-- ===== src/Middleware.antt =====
-- auth-service-main/biometric-auth/internal/middleware/middleware.go: the checks in front of a
-- handler. A check lets the request pass with what it adds to the context, or answers it.
pub mod RateLimiter
pub mod Gates
use dift_backend_auth.Base.{
  ℕ, ◌*◌, Bool, true, false, not, Option, none, some, List, [], ◌∷◌, ◌||◌, ◌&&◌, if◌then◌else◌,
  Text, codes, is_empty, ltb, ◌==◌, drop, length,
}
use dift_backend_auth.Base.Int.{ℤ, pos, ◌*ℤ◌, ltb_ℤ}
use dift_backend_auth.Encoding.{split}
use dift_backend_auth.Domain.{TokenClaims, Device}
use dift_backend_auth.Runtime.{
  Env, World, Outcome, ok, err, panic, M, ◌>>=◌, ◌>>◌, pure, now, attempt,
}
use dift_backend_auth.Crypto.{second}
use dift_backend_auth.Drift.{unix_time}
use dift_backend_auth.Token.{verify_access_token}
use dift_backend_auth.Device.{validate_device}

-- The headers that the middlewares read; a missing one is empty.
pub record Request : Type 0 where
  pub authorization : Text
  pub x_real_ip : Text
  pub x_forwarded_for : Text
  pub remote_addr : Text

-- The answer's status, or what goes on.
pub data Gate (A : Type 0) : Type 0 where
  pass : A → Gate A
  stop : ℕ → Gate A

abbrev pub bearer : Text
bearer = codes "Bearer "

unfoldable pub has_prefix : Text → Text → Bool
has_prefix [] s = true
has_prefix (p ∷ ps) [] = false
has_prefix (p ∷ ps) (c ∷ cs) = p == c && has_prefix ps cs

unfoldable pub extract_bearer_token : Request → Text
extract_bearer_token r =
    if has_prefix bearer r.authorization then drop (length bearer) r.authorization else []

abbrev pub first_part : List Text → Text
first_part [] = []
first_part (p ∷ _) = p

unfoldable pub extract_ip : Request → Text
extract_ip r =
    if not (is_empty r.x_real_ip)
    then r.x_real_ip
    else if not (is_empty r.x_forwarded_for)
    then first_part (split b',' r.x_forwarded_for)
    else r.remote_addr

abbrev pub or_stop : {A : Type 0} → Option A → ℕ → Gate A
or_stop none status = stop status
or_stop (some a) status = pass a

unfoldable pub authenticate : Request → M (Gate TokenClaims)
authenticate r =
    let token = extract_bearer_token r in
    if is_empty token
    then pure (stop 401)
    else (do claims ← attempt (verify_access_token token); pure (or_stop claims 401))

-- The expiry of the step-up, where there is one.
abbrev pub not_expired : Option ℤ → M (Gate (Unit {0}))
not_expired none = pure (pass tt)
not_expired (some exp) = do
  t ← now
  pure (if ltb_ℤ (unix_time exp) (pos t) then stop 403 else pass tt)

unfoldable pub require_step_up : Option TokenClaims → M (Gate (Unit {0}))
require_step_up none = pure (stop 401)
require_step_up (some claims) =
    if claims.step_up then not_expired claims.step_up_exp else pure (stop 403)

abbrev pub uncompromised : Option Device → Gate (Unit {0})
uncompromised none = stop 403
uncompromised (some d) = if d.is_rooted || d.is_jailbroken then stop 403 else pass tt

unfoldable pub validate_device_gate : Option TokenClaims → M (Gate (Unit {0}))
validate_device_gate none = pure (pass tt)
validate_device_gate (some claims) = do
  device ← attempt (validate_device claims.device_id claims.user_id)
  pure (uncompromised device)
