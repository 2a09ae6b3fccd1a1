-- ===== src/Http/Codes.antt =====
-- The statuses and headers of the answers.
use dift_backend_auth.Base.{
  ℕ, ◌≡◌, refl, ◌⊎◌, inl, inr, Bool, true, false, Option, none, some, [], ◌∷◌, ◌||◌, ◌==◌, codes,
  arith, if◌then◌else◌, Text, text_eq, List, text_eq_iff, not, ◌&&◌,
}
use dift_backend_auth.Base.Int.{ℤ, pos, ltb_ℤ}
use dift_backend_auth.Store
use dift_backend_auth.Store.{get-put}
use dift_backend_auth.Drift.{unix_time}
use dift_backend_auth.Domain.{TokenClaims}
use dift_backend_auth.Runtime.{Env, World, Outcome, ok, err, panic, M, Error, pure, ◌>>=◌}
use dift_backend_auth.Middleware.{pass, stop, extract_ip, require_step_up, not_expired}
use dift_backend_auth.Middleware.RateLimiter.{RateLimiter, limit_request}
use dift_backend_auth.Http.{Body, Response}
use dift_backend_auth.Http.Always.{Always, Holds, answer_rules, serve-holds}
use dift_backend_auth.Http.Auth.{
  handle_login, handle_send_otp, handle_verify_otp, handle_refresh, handle_logout,
  handle_logout_all, handle_authorize_payment, login_error, refresh_error,
}
use dift_backend_auth.Http.Biometric.{
  handle_challenge, handle_enroll, handle_exchange, handle_unenroll, enroll_error,
}
use dift_backend_auth.Http.Devices.{
  handle_list_devices, handle_revoke_device, handle_verify_device, handle_logs,
}
use dift_backend_auth.Http.Server.{
  Public, Protected, Endpoint, HttpRequest, Server, serve, serve_public, serve_protected, guarded,
  route, past, limited, logged, recovered, security_headers, dispatched, Headers, written, deleted,
}
use dift_backend_auth.Http.Gates.{guarded-cases}
use dift_backend_auth.Token.Signing.{tick}

-- The statuses that the handlers, the middlewares and the router know.
abbrev pub is_code : ℕ → Bool
is_code n =
    n == 200
    || n == 400
    || n == 401
    || n == 403
    || n == 404
    || n == 405
    || n == 409
    || n == 429
    || n == 500

abbrev pub IsCoded : Response → Type 0
IsCoded r = is_code r.code ≡ true

enroll_error-IsCoded : (e : Error) → is_code (enroll_error e).code ≡ true
enroll_error-IsCoded e = ground arith

login_error-IsCoded : (e : Error) → is_code (login_error e).code ≡ true
login_error-IsCoded e = ground arith

refresh_error-IsCoded : (e : Error) → is_code (refresh_error e).code ≡ true
refresh_error-IsCoded e = ground arith

serve_public-IsCoded : (r : HttpRequest) (e : Public) → Always IsCoded (serve_public r e)
unfolding serve_public handle_login handle_send_otp handle_verify_otp handle_refresh
serve_public-IsCoded r (Public.login body) = search (answer_rules, login_error-IsCoded) depth 12
serve_public-IsCoded r Public.send_otp = search answer_rules
serve_public-IsCoded r (Public.verify_otp body) = search answer_rules depth 12
serve_public-IsCoded r (Public.refresh body) = search (answer_rules, refresh_error-IsCoded) depth 12

not_expired-Holds :
    (o : Option ℤ) (m : M Response)
    → Always IsCoded m
    → Always IsCoded (not_expired o >>= λ g. past g (λ _. m))
not_expired-Holds none m h = record { apply = λ env w. h.apply env w }
not_expired-Holds (some t) m h = record {
  apply = λ env w. go env (ltb_ℤ (unix_time t) (pos (env.clock w.reads))) (tick w);
}
  where
    go :
        (env : Env) (late : Bool) (w : World)
        → Holds IsCoded (past (if late then stop 403 else pass tt) (λ _. m) env w).0
    go env true w = refl
    go env false w = h.apply env w

payment-IsCoded :
    (c : TokenClaims) (m : M Response)
    → Always IsCoded m
    → Always IsCoded (require_step_up (some c) >>= λ g. past g (λ _. m))
unfolding require_step_up
payment-IsCoded c m h = record { apply = λ env w. go env w c.step_up }
  where
    go :
        (env : Env) (w : World) (held : Bool)
        → Holds IsCoded
            (((if held then not_expired c.step_up_exp else pure (stop 403)) >>= λ g.
                past g (λ _. m))
              env w).0
    go env w true = (not_expired-Holds c.step_up_exp m h).apply env w
    go env w false = refl

serve_protected-IsCoded :
    (c : TokenClaims) (e : Protected) → Always IsCoded (serve_protected (some c) e)
unfolding serve_protected handle_challenge handle_enroll handle_exchange handle_unenroll
    handle_list_devices handle_revoke_device handle_verify_device handle_logs handle_logout
    handle_logout_all handle_authorize_payment
serve_protected-IsCoded c (Protected.challenge body) = search answer_rules depth 12
serve_protected-IsCoded c (Protected.enroll body) =
    search (answer_rules, enroll_error-IsCoded) depth 12
serve_protected-IsCoded c (Protected.exchange body) = search answer_rules depth 12
serve_protected-IsCoded c Protected.unenroll = search answer_rules
serve_protected-IsCoded c Protected.list_devices = search answer_rules
serve_protected-IsCoded c (Protected.revoke_device id) = search answer_rules
serve_protected-IsCoded c Protected.verify_device = search answer_rules
serve_protected-IsCoded c Protected.logout = search answer_rules
serve_protected-IsCoded c Protected.logout_all = search answer_rules
serve_protected-IsCoded c (Protected.authorize_payment body) =
    search (answer_rules, payment-IsCoded) depth 12
serve_protected-IsCoded c Protected.logs = search answer_rules

refused-IsCoded : (code : ℕ) → (code ≡ 401) ⊎ (code ≡ 403) → is_code code ≡ true
refused-IsCoded code (inl e) = rw e refl
refused-IsCoded code (inr e) = rw e refl

guarded-IsCoded :
    (r : HttpRequest) (e : Protected) (env : Env) (w : World) → Holds IsCoded (guarded r e env w).0
guarded-IsCoded r e env w = elim (guarded-cases r e env w) [
  | inl turned ↦ rw turned.answered (refused-IsCoded turned.code turned.denied)
  | inr let_in ↦ rw let_in.handled ((serve_protected-IsCoded let_in.claims e).apply env (tick w))
]

route-IsCoded : (r : HttpRequest) (env : Env) (w : World) → Holds IsCoded (route r env w).0
unfolding route
route-IsCoded r env w = by_endpoint r.endpoint
  where
    by_endpoint : (e : Endpoint) → Holds IsCoded (dispatched r e env w).0
    by_endpoint (Endpoint.public e) = (serve_public-IsCoded r e).apply env w
    by_endpoint (Endpoint.protected e) = guarded-IsCoded r e env w
    by_endpoint Endpoint.not_found = refl
    by_endpoint Endpoint.method_not_allowed = refl

-- What the headers say of each of some names.
abbrev pub Say : List (Text × Option Text) → Headers → Type 0
Say [] h = Unit {0}
Say ((name, value) ∷ more) h = (Store.get name h ≡ value) × Say more h

-- What every answer says to the client: how to treat it, and nothing of the server.
abbrev pub protections : List (Text × Option Text)
protections =
    (codes "X-Content-Type-Options", some (codes "nosniff"))
    ∷ (codes "X-Frame-Options", some (codes "DENY"))
    ∷ (codes "X-XSS-Protection", some (codes "1; mode=block"))
    ∷ (
      codes "Strict-Transport-Security",
      some (codes "max-age=63072000; includeSubDomains; preload"),
    )
    ∷ (codes "Cache-Control", some (codes "no-store, no-cache, must-revalidate, private"))
    ∷ (codes "Referrer-Policy", some (codes "no-referrer"))
    ∷ (codes "Content-Security-Policy", some (codes "default-src 'none'"))
    ∷ (codes "Permissions-Policy", some (codes "geolocation=(), microphone=(), camera=()"))
    ∷ (codes "X-Powered-By", none)
    ∷ (codes "Server", none)
    ∷ []

abbrev is_value : Text → Option Text → Bool
is_value value none = false
is_value value (some v) = text_eq value v

-- A header that is set does not go against what is said.
abbrev agrees : (name value : Text) → List (Text × Option Text) → Bool
agrees name value [] = true
agrees name value ((n, v) ∷ more) =
    (not (text_eq name n) || is_value value v) && agrees name value more

put-Say :
    (name value : Text) (said : List (Text × Option Text)) (h : Headers)
    → agrees name value said ≡ true
    → Say said h
    → Say said (Store.put name value h)
put-Say name value [] h a s = tt
put-Say name value ((n, none) ∷ more) h a s =
    (ground (arith, get-put name n value h), put-Say name value more h (ground arith) s.1)
put-Say name value ((n, some v) ∷ more) h a s = (
  ground (arith, get-put name n value h, text_eq_iff value v),
  put-Say name value more h (ground arith) s.1,
)

security_headers-Say : Say protections (security_headers [])
unfolding security_headers deleted Store.get Store.put text_eq
security_headers-Say =
    (refl, (refl, (refl, (refl, (refl, (refl, (refl, (refl, (refl, (refl, tt))))))))))

content_type-Say :
    (value : Text) (h : Headers)
    → Say protections h
    → Say protections (Store.put (codes "Content-Type") value h)
unfolding text_eq
content_type-Say value h = put-Say (codes "Content-Type") value protections h refl

written-Say : (b : Body) (h : Headers) → Say protections h → Say protections (written b h)
unfolding text_eq
written-Say Body.blank h s = s
written-Say Body.refusal h s =
    put-Say (codes "X-Content-Type-Options") (codes "nosniff") protections _ refl
      (content_type-Say (codes "text/plain; charset=utf-8") h s)
written-Say _ h s = content_type-Say (codes "application/json") h s

recovered-Say :
    (h : Headers) (o : Outcome Response)
    → Say protections h
    → Say protections (recovered h o).headers
recovered-Say h (ok r) s = written-Say r.body h s
recovered-Say h (err e) s = s
recovered-Say h panic s = s

serve-Say : (env : Env) (s : Server) (r : HttpRequest) → Say protections (serve env s r).1.headers
unfolding serve text_eq
serve-Say env s r = go (limit_request s.limiter (extract_ip r.headers) (env.clock s.world.reads))
  where
    go :
        (x : RateLimiter × Bool)
        → Say protections (limited env r (security_headers []) (tick s.world) x).1.headers
    go (rl, false) = written-Say Body.refusal _ (
        put-Say (codes "Retry-After") (codes "60") protections (security_headers []) refl
          security_headers-Say)
    go (rl, true) =
        recovered-Say (security_headers []) (logged (route r) env (tick s.world)).0
          security_headers-Say

-- Every request is answered: the status is 200, 400, 401, 403, 404, 405, 409, 429 or 500, whichever
-- route it goes to, or none, and however its handler ends, a panic included; and the headers of the
-- answer have the eight protections with their values, and neither X-Powered-By nor Server.
pub serve-IsCoded :
    (env : Env) (s : Server) (r : HttpRequest)
    → IsCoded (serve env s r).1.response × Say protections (serve env s r).1.headers
serve-IsCoded env s r =
    (serve-holds IsCoded env s r refl refl (λ w same. route-IsCoded r env w), serve-Say env s r)
