-- ===== src/Http.antt =====
-- The HTTP side of auth-service-main/biometric-auth: what a request is to the handlers of
-- internal/handler/handler.go, and what they answer.
pub mod Auth
pub mod Biometric
pub mod Devices
pub mod Server
pub mod Gates
pub mod Always
pub mod StepUp
pub mod Kept
pub mod Codes
use dift_backend_auth.Base.{ℕ, Bool, Option, none, some, List, Text, codes}
use dift_backend_auth.Base.Int.{ℤ}
use dift_backend_auth.Domain.{TokenClaims, Device, AuditLog}
use dift_backend_auth.Runtime.{Env, World, Outcome, ok, err, panic, Error, M, crash}
use dift_backend_auth.Biometric.{ChallengeResponse}
use dift_backend_auth.Middleware.{Request}

-- What a handler encodes as JSON. `failure` stands for the text of an error.
pub data Body : Type 0 where
  error : Text → Body
  failure : Error → Body
  status : Text → Body
  logged_in : (access refresh user_id : Text) → Bool → Body
  tokens : (access refresh : Text) → Body
  step_up : Text → Body
  challenge : ChallengeResponse → Body
  devices : List Device → Body
  device : Device → Body
  logs : List AuditLog → ℕ → Body
  -- the fixed text of a middleware, or of the router where no route has the path
  refusal : Body
  -- none: the recovery from a panic, and the router where a route has the path for other methods
  blank : Body

pub record Response : Type 0 where
  pub code : ℕ
  pub body : Body

abbrev pub write_json : ℕ → Body → Response
write_json code body = record { code = code; body = body }

abbrev pub write_error : ℕ → Text → Response
write_error code msg = write_json code (Body.error msg)

-- How a call of a service ended, as an answer.
abbrev pub settled :
    {A : Type 0} → (A → Response) → (Error → Response) → Outcome A → Outcome Response
settled f g (ok a) = ok (f a)
settled f g (err e) = ok (g e)
settled f g panic = panic

abbrev pub respond : {A : Type 0} → M A → (A → Response) → (Error → Response) → M Response
respond m f g env w = let (r, w') = m env w in (settled f g r, w')

-- `decode`: a body that does not decode is answered as such. The decoding is the JSON library's.
abbrev pub decoded : {A : Type 0} → Option A → (A → M Response) → M Response
decoded none k env w = (ok (write_error 400 (codes "invalid request")), w)
decoded (some a) k env w = k a env w

-- The claims in the request's context, where they are read: a nil pointer panics.
abbrev pub with_claims : Option TokenClaims → (TokenClaims → M Response) → M Response
with_claims none k = crash
with_claims (some c) k = k c
