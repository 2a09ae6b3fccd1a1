-- ===== src/Http/StepUp.antt =====
-- The payment route wants a step-up token, and only the payment route issues one.
use dift_backend_auth.Base.{
  ◌≡◌, refl, ap, ◌∙◌, inl, inr, Bool, true, false, some, List, [], ◌∷◌, Text, arith, Bool-cases,
  text_eq, ◌||◌, ◌++◌,
}
use dift_backend_auth.Domain.{TokenClaims, TokenPayload}
use dift_backend_auth.Runtime.{Env, World, Error}
use dift_backend_auth.Token.Signing.{payload_of, tick}
use dift_backend_auth.Middleware.{extract_bearer_token, require_step_up}
use dift_backend_auth.Http.{Body, Response}
use dift_backend_auth.Http.Always.{Always, Holds, answer_rules, serve-holds}
use dift_backend_auth.Http.Auth.{
  handle_login, handle_send_otp, handle_verify_otp, handle_refresh, handle_logout,
  handle_logout_all, login_error, refresh_error,
}
use dift_backend_auth.Http.Biometric.{
  handle_challenge, handle_enroll, handle_exchange, handle_unenroll, enroll_error,
}
use dift_backend_auth.Http.Devices.{
  handle_list_devices, handle_revoke_device, handle_verify_device, handle_logs,
}
use dift_backend_auth.Http.Server.{
  Public, Protected, Endpoint, HttpRequest, Server, Answer, serve, serve_public, serve_protected,
  guarded, route, dispatched,
}
use dift_backend_auth.Http.Gates.{guarded-cases}

-- Whether an answer carries a step-up token.
abbrev pub is_step_up : Body → Bool
is_step_up (Body.step_up t) = true
is_step_up _ = false

-- An answer that gives no step-up token away.
abbrev pub IsPlain : Response → Type 0
IsPlain r = is_step_up r.body ≡ false

enroll_error-Plain : (e : Error) → is_step_up (enroll_error e).body ≡ false
enroll_error-Plain e = ground arith

login_error-Plain : (e : Error) → is_step_up (login_error e).body ≡ false
login_error-Plain e = ground arith

refresh_error-Plain : (e : Error) → is_step_up (refresh_error e).body ≡ false
refresh_error-Plain e = ground arith

-- The handlers of the authenticated group, for claims without a step-up.
serve_protected-IsPlain :
    (c : TokenClaims) (e : Protected)
    → c.step_up ≡ false
    → Always IsPlain (serve_protected (some c) e)
unfolding serve_protected handle_challenge handle_enroll handle_exchange handle_unenroll
    handle_list_devices handle_revoke_device handle_verify_device handle_logs handle_logout
    handle_logout_all require_step_up
serve_protected-IsPlain c (Protected.challenge body) h = search answer_rules depth 12
serve_protected-IsPlain c (Protected.enroll body) h =
    search (answer_rules, enroll_error-Plain) depth 12
serve_protected-IsPlain c (Protected.exchange body) h = search answer_rules depth 12
serve_protected-IsPlain c Protected.unenroll h = search answer_rules
serve_protected-IsPlain c Protected.list_devices h = search answer_rules
serve_protected-IsPlain c (Protected.revoke_device id) h = search answer_rules
serve_protected-IsPlain c Protected.verify_device h = search answer_rules
serve_protected-IsPlain c Protected.logout h = search answer_rules
serve_protected-IsPlain c Protected.logout_all h = search answer_rules
serve_protected-IsPlain c (Protected.authorize_payment body) h = record {
  apply = λ env w. rw h refl;
}
serve_protected-IsPlain c Protected.logs h = search answer_rules

serve_public-IsPlain : (r : HttpRequest) (e : Public) → Always IsPlain (serve_public r e)
unfolding serve_public handle_login handle_send_otp handle_verify_otp handle_refresh
serve_public-IsPlain r (Public.login body) = search (answer_rules, login_error-Plain) depth 12
serve_public-IsPlain r Public.send_otp = search answer_rules
serve_public-IsPlain r (Public.verify_otp body) = search answer_rules depth 12
serve_public-IsPlain r (Public.refresh body) = search (answer_rules, refresh_error-Plain) depth 12

-- The step-up token that an answer carries.
abbrev pub given_by : Answer → List Text
given_by a = elim a.response.body [ Body.step_up t ↦ t ∷ [] | _ ↦ [] ]

abbrev pub contains : Text → List Text → Bool
contains t [] = false
contains t (x ∷ xs) = let rest = contains t xs in text_eq x t || rest

-- Requests whose step-up tokens were all given in earlier answers, or are in a list to start with.
-- A client cannot make one: they carry the server's seal.
abbrev pub Honest : Env → Server → List Text → List HttpRequest → Type 0
Honest env s given [] = Unit {0}
Honest env s given (r ∷ rs) =
    ((p : TokenPayload)
      → payload_of env (extract_bearer_token r.headers) env.cfg.access_token_secret ≡ some p
      → p.step_up ≡ true
      → contains (extract_bearer_token r.headers) given ≡ true)
    × Honest env (serve env s r).0 (given ++ given_by (serve env s r).1) rs

-- The answers to requests served in turn.
abbrev pub serve_all : Env → Server → List HttpRequest → List Answer
serve_all env s [] = []
serve_all env s (r ∷ rs) = (serve env s r).1 ∷ serve_all env (serve env s r).0 rs

-- None of the answers carries a step-up token.
abbrev pub NoneGiven : List Answer → Type 0
NoneGiven [] = Unit {0}
NoneGiven (a ∷ more) = (is_step_up a.response.body ≡ false) × NoneGiven more

guarded-IsPlain :
    (r : HttpRequest) (e : Protected) (env : Env) (w : World)
    → ((p : TokenPayload)
        → payload_of env (extract_bearer_token r.headers) env.cfg.access_token_secret ≡ some p
        → p.step_up ≡ false)
    → Holds IsPlain (guarded r e env w).0
guarded-IsPlain r e env w none_held = elim (guarded-cases r e env w) [
  | inl turned ↦ rw turned.answered refl
  | inr let_in ↦
      let plain : let_in.claims.step_up ≡ false =
        ap (λ c. c.step_up) let_in.accepted.claimed
        ∙ none_held let_in.accepted.payload let_in.accepted.signed in
      rw let_in.handled ((serve_protected-IsPlain let_in.claims e plain).apply env (tick w))
]

serve-IsPlain :
    (env : Env) (s : Server) (r : HttpRequest)
    → ((p : TokenPayload)
        → payload_of env (extract_bearer_token r.headers) env.cfg.access_token_secret ≡ some p
        → p.step_up ≡ false)
    → IsPlain (serve env s r).1.response
unfolding route
serve-IsPlain env s r none_held =
    serve-holds IsPlain env s r refl refl (λ w same. by_endpoint r.endpoint w)
  where
    by_endpoint : (e : Endpoint) (w : World) → Holds IsPlain (dispatched r e env w).0
    by_endpoint (Endpoint.public e) w = (serve_public-IsPlain r e).apply env w
    by_endpoint (Endpoint.protected e) w = guarded-IsPlain r e env w none_held
    by_endpoint Endpoint.not_found w = refl
    by_endpoint Endpoint.method_not_allowed w = refl

given_by-nil : (a : Answer) → is_step_up a.response.body ≡ false → given_by a ≡ []
given_by-nil a = go a.response.body
  where
    go :
        (b : Body)
        → is_step_up b ≡ false
        → (elim b as (λ _. List Text) [ Body.step_up t ↦ t ∷ [] | _ ↦ [] ]) ≡ []
    go b h = ground arith

-- As long as every step-up token that a client sends was given in an earlier answer, no request is
-- answered with a step-up token: the payment route, which alone issues them, is never reached.
pub serve_all-NoneGiven :
    (env : Env) (rs : List HttpRequest) (s : Server)
    → Honest env s [] rs
    → NoneGiven (serve_all env s rs)
serve_all-NoneGiven env [] s h = tt
serve_all-NoneGiven env (r ∷ rs) s h =
    let plain = serve-IsPlain env s r (none_held (h.0)) in
    (
      plain,
      serve_all-NoneGiven env rs (serve env s r).0
          (rw (given_by-nil (serve env s r).1 plain) at (h.1)),
    )
  where
    none_held :
        ((p : TokenPayload)
          → payload_of env (extract_bearer_token r.headers) env.cfg.access_token_secret ≡ some p
          → p.step_up ≡ true
          → contains (extract_bearer_token r.headers) [] ≡ true)
        → (p : TokenPayload)
        → payload_of env (extract_bearer_token r.headers) env.cfg.access_token_secret ≡ some p
        → p.step_up ≡ false
    none_held k p signed = elim (Bool-cases p.step_up) [
      | inl held ↦ absurd (cc (k p signed held))
      | inr plain ↦ plain
    ]
