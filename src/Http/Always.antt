-- ===== src/Http/Always.antt =====
-- Calls all of whose answers have a property, by rules for the ways in which a handler answers.
use dift_backend_auth.Base.{ℕ, ◌≡◌, refl, Bool, true, false, Option, none, some, codes, []}
use dift_backend_auth.Domain.{TokenClaims}
use dift_backend_auth.Runtime.{
  Env, World, Outcome, ok, err, panic, Error, M, pure, now, resume, ignore, ignored, ◌>>◌, ◌>>=◌,
}
use dift_backend_auth.Middleware.{Gate, pass, stop}
use dift_backend_auth.Http.{Response, write_error, settled, respond, decoded, with_claims}
use dift_backend_auth.Http.Server.{
  HttpRequest, Server, Headers, past, refused, no_body, security_headers, logged, recovered,
  limited, route, serve,
}
use dift_backend_auth.Token.Signing.{tick}
use dift_backend_auth.Middleware.{extract_ip}
use dift_backend_auth.Middleware.RateLimiter.{RateLimiter, limit_request}

abbrev pub Holds : (Response → Type 0) → Outcome Response → Type 0
Holds P (ok r) = P r
Holds P (err e) = Unit {0}
Holds P panic = Unit {0}

pub record Always (P : Response → Type 0) (m : M Response) : Type 0 where
  pub apply : (env : Env) (w : World) → Holds P (m env w).0

module _ {P : Response → Type 0} where
  pub pure-Always : (r : Response) → P r → Always P (pure r)
  pure-Always r h = record { apply = λ env w. h }

  pub respond-Always :
      {A : Type 0} (m : M A) (f : A → Response) (g : Error → Response)
      → ((a : A) → P (f a))
      → ((e : Error) → P (g e))
      → Always P (respond m f g)
  respond-Always {A} m f g hf hg = record { apply = λ env w. go (m env w).0 }
    where
      go : (o : Outcome A) → Holds P (settled f g o)
      go (ok a) = hf a
      go (err e) = hg e
      go panic = tt

  pub ignore-Always : {A : Type 0} (m : M A) (r : Response) → P r → Always P (ignore m >> pure r)
  ignore-Always {A} m r h = record { apply = λ env w. go env (m env w).0 (m env w).1 }
    where
      go :
          (env : Env) (o : Outcome A) (v : World)
          → Holds P (resume (λ _. pure r) env (ignored o) v).0
      go env (ok a) v = h
      go env (err e) v = h
      go env panic v = tt

  pub decoded-Always :
      {A : Type 0} (o : Option A) (k : A → M Response)
      → P (write_error 400 (codes "invalid request"))
      → ((a : A) → Always P (k a))
      → Always P (decoded o k)
  decoded-Always none k h hk = record { apply = λ env w. h }
  decoded-Always (some a) k h hk = record { apply = λ env w. (hk a).apply env w }

  pub with_claims-Always :
      (o : Option TokenClaims) (k : TokenClaims → M Response)
      → ((c : TokenClaims) → Always P (k c))
      → Always P (with_claims o k)
  with_claims-Always none k h = record { apply = λ env w. tt }
  with_claims-Always (some c) k h = h c

  pub past-Always :
      {A : Type 0} (g : Gate A) (k : A → M Response)
      → ((code : ℕ) → g ≡ stop code → P (refused code))
      → ((a : A) → Always P (k a))
      → Always P (past g k)
  past-Always (pass a) k hs h = h a
  past-Always (stop code) k hs h = record { apply = λ env w. hs code refl }

module _ (P : Response → Type 0) where
  pub logged-Holds :
      (m : M Response) (env : Env) (w : World)
      → Holds P (m env (tick w)).0
      → Holds P (logged m env w).0
  logged-Holds m env w = go (m env (tick w)).0 (m env (tick w)).1
    where
      go :
          (o : Outcome Response) (v : World)
          → Holds P o
          → Holds P (resume (λ a. now >>= λ _. pure a) env o v).0
      go (ok r) v h = h
      go (err e) v h = tt
      go panic v h = tt

  pub recovered-holds :
      (headers : Headers) (o : Outcome Response)
      → P (no_body 500)
      → Holds P o
      → P (recovered headers o).response
  recovered-holds headers (ok r) h k = k
  recovered-holds headers (err e) h k = h
  recovered-holds headers panic h k = h

  -- The answer to a request, from the answer of its route.
  pub serve-holds :
      (env : Env) (s : Server) (r : HttpRequest)
      → P (refused 429)
      → P (no_body 500)
      → ((w : World) → w.db ≡ s.world.db → Holds P (route r env w).0)
      → P (serve env s r).1.response
  unfolding serve
  serve-holds env s r busy broken h =
      go (limit_request s.limiter (extract_ip r.headers) (env.clock s.world.reads))
    where
      go :
          (x : RateLimiter × Bool)
          → P (limited env r (security_headers []) (tick s.world) x).1.response
      go (rl, false) = busy
      go (rl, true) =
          recovered-holds (security_headers []) (logged (route r) env (tick s.world)).0 broken
            (logged-Holds (route r) env (tick s.world) (h (tick (tick s.world)) refl))

pub ruleset answer_rules =
    (pure-Always, respond-Always, ignore-Always, decoded-Always, with_claims-Always)
