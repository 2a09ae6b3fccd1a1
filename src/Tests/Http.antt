-- ===== src/Tests/Http.antt =====
-- A client's requests to the server.
use dift_backend_auth.Base.{
  ℕ, ◌≡◌, refl, false, none, some, List, [], ◌∷◌, ◌++◌, ◌⊎◌, Text, codes, arith,
}
use dift_backend_auth.Middleware.{Request}
use dift_backend_auth.Middleware.RateLimiter.{new_rate_limiter}
use dift_backend_auth.Http.{Body}
use dift_backend_auth.Http.Auth.{LoginBody}
use dift_backend_auth.Http.Server.{Public, Protected, Endpoint, HttpRequest, Server, Answer, serve}
use dift_backend_auth.Http.Gates.{guarded-cases, TurnedAway, LetIn}
use dift_backend_auth.Http.Kept.{left_by, left_by-kept}
use dift_backend_auth.Http.Codes.{IsCoded, Say, protections, serve-IsCoded}
use dift_backend_auth.Http.StepUp.{serve_all, NoneGiven, Honest, serve_all-NoneGiven}
use dift_backend_auth.Invariant.Keyed.{AreKeyed}
use dift_backend_auth.Invariant.Trail.{Extends}
use dift_backend_auth.Tests.Program.{program}
use dift_backend_auth.Tests.Samples.{env}
use dift_backend_auth.Tests.Journey.{town, town-AreKeyed}

abbrev headers_with : Text → Request
headers_with token = record {
  authorization = token;
  x_real_ip = [];
  x_forwarded_for = [];
  remote_addr = codes "9";
}

abbrev login_body : LoginBody
login_body = record {
  identifier = codes "e";
  password = codes "pw12";
  device_id = codes "d";
  device_name = codes "n";
  platform = codes "android";
  app_version = codes "1";
  os_version = codes "14";
  fingerprint = codes "f";
  is_rooted = false;
  is_jailbroken = false;
}

abbrev fresh_server : Server
fresh_server = record { world = town; limiter = new_rate_limiter }

abbrev login_request : HttpRequest
login_request = record {
  headers = headers_with [];
  user_agent = codes "a";
  endpoint = Endpoint.public (Public.login (some login_body));
}

abbrev access_token_of : Body → Text
access_token_of (Body.logged_in access refresh user_id otp) = access
access_token_of _ = []

abbrev logged_in : Server × Answer
logged_in = serve env fresh_server login_request

abbrev with_token : Protected → HttpRequest
with_token e = record {
  headers = headers_with (codes "Bearer " ++ access_token_of logged_in.1.response.body);
  user_agent = codes "a";
  endpoint = Endpoint.protected e;
}

abbrev requests : List HttpRequest
requests =
    login_request
    ∷ with_token (Protected.challenge (some (codes "enroll")))
    ∷ with_token (Protected.authorize_payment none)
    ∷ []

abbrev codes_of : List Answer → List ℕ
codes_of [] = []
codes_of (a ∷ more) = a.response.code ∷ codes_of more

requests-run : codes_of (serve_all env fresh_server requests) ≡ 200 ∷ 200 ∷ 403 ∷ []
unfolding program
requests-run = refl

left_by-kept_example :
    AreKeyed (left_by env fresh_server requests).world.db
    × Extends town.audits (left_by env fresh_server requests).world.audits
left_by-kept_example = left_by-kept env fresh_server requests town-AreKeyed

serve-IsCoded_example :
    IsCoded (serve env fresh_server login_request).1.response
    × Say protections (serve env fresh_server login_request).1.headers
serve-IsCoded_example = serve-IsCoded env fresh_server login_request

guarded-cases_example :
    TurnedAway (with_token Protected.unenroll) Protected.unenroll env logged_in.0.world
    ⊎ LetIn (with_token Protected.unenroll) Protected.unenroll env logged_in.0.world
guarded-cases_example =
    guarded-cases (with_token Protected.unenroll) Protected.unenroll env logged_in.0.world

requests-Honest : Honest env fresh_server [] requests
unfolding program
requests-Honest = (
  (λ p signed held. ground arith),
  ((λ p signed held. ground arith), ((λ p signed held. ground arith), tt)),
)

serve_all-NoneGiven_example : NoneGiven (serve_all env fresh_server requests)
serve_all-NoneGiven_example = serve_all-NoneGiven env requests fresh_server requests-Honest
