-- ===== src/Http/Server.antt =====
-- The chain of middlewares and the routes of auth-service-main/biometric-auth/main.go.
use dift_backend_auth.Base.{
  ℕ, suc, Bool, true, false, Option, some, [], ◌∷◌, Text, codes, text_eq, if◌then◌else◌,
}
use dift_backend_auth.Store
use dift_backend_auth.Domain.{TokenClaims}
use dift_backend_auth.Runtime.{Env, World, Outcome, ok, err, panic, M, pure, ◌>>=◌, now}
use dift_backend_auth.Middleware
use dift_backend_auth.Middleware.{
  Request, Gate, pass, stop, extract_ip, require_step_up, validate_device_gate,
}
use dift_backend_auth.Middleware.RateLimiter.{RateLimiter, limit_request}
use dift_backend_auth.Http.{Body, Response, write_json}
use dift_backend_auth.Http.Auth.{
  LoginBody, handle_login, handle_send_otp, OtpBody, handle_verify_otp, RefreshBody, handle_refresh,
  handle_logout, handle_logout_all, StepUpBody, handle_authorize_payment,
}
use dift_backend_auth.Http.Biometric.{
  handle_challenge, EnrollBody, handle_enroll, ExchangeBody, handle_exchange, handle_unenroll,
}
use dift_backend_auth.Http.Devices.{
  handle_list_devices, handle_revoke_device, handle_verify_device, handle_logs,
}

-- The routes in front of which no token is checked.
pub data Public : Type 0 where
  login : Option LoginBody → Public
  send_otp : Public
  verify_otp : Option OtpBody → Public
  refresh : Option RefreshBody → Public

-- The routes of the authenticated group.
pub data Protected : Type 0 where
  challenge : Option Text → Protected
  enroll : Option EnrollBody → Protected
  exchange : Option ExchangeBody → Protected
  unenroll : Protected
  list_devices : Protected
  revoke_device : Text → Protected
  verify_device : Protected
  logout : Protected
  logout_all : Protected
  authorize_payment : Option StepUpBody → Protected
  logs : Protected

-- The route that a request matches, with its body as far as it decodes; or that no route has its
-- path, or none that has takes its method.
pub data Endpoint : Type 0 where
  public : Public → Endpoint
  protected : Protected → Endpoint
  not_found method_not_allowed : Endpoint

-- The address is the one that `RealIP` leaves.
pub record HttpRequest : Type 0 where
  pub headers : Request
  pub user_agent : Text
  pub endpoint : Endpoint

-- `http.Error`: a middleware that answers instead of the handler.
abbrev pub refused : ℕ → Response
refused code = write_json code Body.refusal

abbrev pub past : {A : Type 0} → Gate A → (A → M Response) → M Response
past (pass a) k = k a
past (stop code) k = pure (refused code)

unfoldable pub serve_public : HttpRequest → Public → M Response
serve_public r (login body) = handle_login body r.headers.remote_addr r.user_agent
serve_public r send_otp = handle_send_otp
serve_public r (verify_otp body) = handle_verify_otp body r.headers.remote_addr
serve_public r (refresh body) = handle_refresh body r.headers.remote_addr

-- The handlers of the authenticated group, with what the context holds.
unfoldable pub serve_protected : Option TokenClaims → Protected → M Response
serve_protected claims (challenge body) = handle_challenge claims body
serve_protected claims (enroll body) = handle_enroll claims body
serve_protected claims (exchange body) = handle_exchange claims body
serve_protected claims unenroll = handle_unenroll
serve_protected claims list_devices = handle_list_devices claims
serve_protected claims (revoke_device device_id) = handle_revoke_device claims device_id
serve_protected claims verify_device = handle_verify_device claims
serve_protected claims logout = handle_logout claims
serve_protected claims logout_all = handle_logout_all claims
serve_protected claims (authorize_payment body) =
    require_step_up claims >>= λ g. past g (λ _. handle_authorize_payment claims body)
serve_protected claims logs = handle_logs claims

-- `Authenticate` and `ValidateDevice`, then the handler.
unfoldable pub guarded : HttpRequest → Protected → M Response
guarded r e = Middleware.authenticate r.headers >>= λ g.
    past g (λ c. validate_device_gate (some c) >>= λ g'. past g' (λ _. serve_protected (some c) e))

-- What chi answers by itself.
abbrev pub no_body : ℕ → Response
no_body code = write_json code Body.blank

abbrev pub dispatched : HttpRequest → Endpoint → M Response
dispatched r (public e) = serve_public r e
dispatched r (protected e) = guarded r e
dispatched r not_found = pure (refused 404)
dispatched r method_not_allowed = pure (no_body 405)

unfoldable pub route : HttpRequest → M Response
route r = dispatched r r.endpoint

-- `RequestLogger` reads the clock before and after.
abbrev pub logged : M Response → M Response
logged m = do _ ← now; answer ← m; _ ← now; pure answer

-- What the process holds: the stores, and the rate limiter's entries.
pub record Server : Type 0 where
  pub world : World
  pub limiter : RateLimiter

-- `http.Header`, with the names as the code writes them.
abbrev pub Headers : Type 0
Headers = Store.Store Text

pub record Answer : Type 0 where
  pub response : Response
  pub headers : Headers

-- `h.Del(name)`
unfoldable pub deleted : Text → Headers → Headers
deleted name [] = []
deleted name ((n, v) ∷ h) =
    let rest = deleted name h in if text_eq n name then rest else (n, v) ∷ rest

-- `SecurityMiddleware.Headers`, in front of what follows.
unfoldable pub security_headers : Headers → Headers
security_headers h0 =
    let h1 = Store.put (codes "X-Content-Type-Options") (codes "nosniff") h0 in
    let h2 = Store.put (codes "X-Frame-Options") (codes "DENY") h1 in
    let h3 = Store.put (codes "X-XSS-Protection") (codes "1; mode=block") h2 in
    let h4 =
      Store.put (codes "Strict-Transport-Security")
        (codes "max-age=63072000; includeSubDomains; preload") h3 in
    let h5 =
      Store.put (codes "Cache-Control") (codes "no-store, no-cache, must-revalidate, private") h4 in
    let h6 = Store.put (codes "Referrer-Policy") (codes "no-referrer") h5 in
    let h7 = Store.put (codes "Content-Security-Policy") (codes "default-src 'none'") h6 in
    let h8 =
      Store.put (codes "Permissions-Policy") (codes "geolocation=(), microphone=(), camera=()")
        h7 in
    let h9 = deleted (codes "X-Powered-By") h8 in deleted (codes "Server") h9

-- What writing the body sets: `http.Error` for a refusal, `writeJSON` for the handlers.
abbrev pub written : Body → Headers → Headers
written Body.blank h = h
written Body.refusal h =
    Store.put (codes "X-Content-Type-Options") (codes "nosniff")
      (Store.put (codes "Content-Type") (codes "text/plain; charset=utf-8") h)
written _ h = Store.put (codes "Content-Type") (codes "application/json") h

abbrev pub answered : Headers → Response → Answer
answered h r = record { response = r; headers = written r.body h }

-- `Recoverer` answers 500 for a panic. A handler ends with an answer or a panic.
abbrev pub recovered : Headers → Outcome Response → Answer
recovered h (ok r) = answered h r
recovered h (err e) = answered h (no_body 500)
recovered h panic = answered h (no_body 500)

abbrev pub too_many : Headers → Answer
too_many h = answered (Store.put (codes "Retry-After") (codes "60") h) (refused 429)

-- A request that the rate limiter has counted, behind the middleware that set the headers.
abbrev pub limited : Env → HttpRequest → Headers → World → RateLimiter × Bool → Server × Answer
limited env r h w (rl, false) = (record { world = w; limiter = rl }, too_many h)
limited env r h w (rl, true) =
    let (o, w') = logged (route r) env w in (record { world = w'; limiter = rl }, recovered h o)

-- One request: the rate limiter reads the clock once.
unfoldable pub serve : Env → Server → HttpRequest → Server × Answer
serve env s r =
    limited env r (security_headers []) (record s.world { reads = suc s.world.reads })
      (limit_request s.limiter (extract_ip r.headers) (env.clock s.world.reads))
