-- ===== src/Account/Handlers.antt =====
-- auth-service-main/internal/adapter/inbound/http/auth_handler.go.
use dift_backend_auth.Base.{
  ℕ, Bool, true, false, Option, none, some, Text, codes, not, ◌||◌, is_empty, drop, if◌then◌else◌,
}
use dift_backend_auth.Base.Ascii.{to_lower, trim_space, starts_with}
use dift_backend_auth.Account.{IdentityGateway, Failure, Result, ok, err}
use dift_backend_auth.Account.Service
use dift_backend_auth.Account.Service.{Outside, State, AuthResponse, UserProfile}
use dift_backend_auth.Account.Emails.{clean_string, clean_email, is_given, fits, validate_email}

pub record RegisterEmailRequest : Type 0 where
  pub name : Text
  pub email : Text
  pub password : Text

pub record LoginEmailRequest : Type 0 where
  pub email : Text
  pub password : Text

-- A body as far as gin binds it: it decodes, and meets the rules of its fields' `binding` tags. The
-- profile comes with the header Authorization.
pub data Request : Type 0 where
  register_email : Option RegisterEmailRequest → Request
  login_email : Option LoginEmailRequest → Request
  refresh_token : Option Text → Request
  logout : Option Text → Request
  me : Text → Request

pub data Body : Type 0 where
  error : Text → Body
  failure : Text → Failure → Body
  auth : AuthResponse → Body
  status : Text → Body
  profile : UserProfile → Body

pub record Response : Type 0 where
  pub code : ℕ
  pub body : Body

abbrev pub responded : ℕ → Body → Response
responded code body = record { code = code; body = body }

abbrev pub invalid_request : Response
invalid_request = responded 400 (Body.error (codes "invalid_request"))

-- `AuthBearerMiddleware` of health_handler.go.
unfoldable pub bearer_token : Text → Option Text
bearer_token header =
    let authz = trim_space header in
    if is_empty authz || not (starts_with (codes "bearer ") (to_lower authz))
    then none
    else (let token = trim_space (drop 7 authz) in if is_empty token then none else some token)

module _ {S : Type 0} (identity : IdentityGateway S) (out : Outside) where
  abbrev pub Step : Type 0
  Step = State S → Response × State S

  abbrev pub settled :
      {A : Type 0} → ℕ → (A → Body) → ℕ → Text → Result A × State S → Response × State S
  settled done body failed kind (ok a, w) = (responded done (body a), w)
  settled done body failed kind (err e, w) = (responded failed (Body.failure kind e), w)

  -- A request that does not pass the checks in front of the service is answered as such.
  abbrev pub checked : Bool → Step → Step
  checked true k w = k w
  checked false k w = (invalid_request, w)

  abbrev pub handle_register_email : RegisterEmailRequest → Step
  handle_register_email req =
      let name = clean_string req.name in
      let email = clean_email req.email in
      checked (is_given name) (
        checked (fits 100 name) (
          checked (validate_email email) (
            checked (is_given req.password) (λ w.
              settled 201 Body.auth 400 (codes "register_failed")
                (Service.register_email identity name email req.password out w)))))

  abbrev pub handle_login_email : LoginEmailRequest → Step
  handle_login_email req =
      let email = clean_email req.email in
      checked (validate_email email) (
        checked (is_given req.password) (λ w.
          settled 200 Body.auth 401 (codes "auth_failed")
            (Service.login_email identity email req.password out w)))

  abbrev pub handle_refresh_token : Text → Step
  handle_refresh_token token =
      let cleaned = clean_string token in
      checked (is_given cleaned) (λ w.
        settled 200 Body.auth 401 (codes "refresh_failed")
          (Service.refresh_token identity cleaned out w))

  abbrev pub handle_logout : Text → Step
  handle_logout token =
      let cleaned = clean_string token in
      checked (is_given cleaned) (λ w.
        settled 200 (λ _. Body.status (codes "logged_out")) 400 (codes "logout_failed")
          (Service.logout identity cleaned w))

  abbrev pub handle_me : Text → Step
  handle_me token w =
      settled 200 Body.profile 401 (codes "invalid_token") (Service.me identity token out w)

  abbrev pub handle_profile : Option Text → Step
  handle_profile none w = (responded 401 (Body.error (codes "unauthorized")), w)
  handle_profile (some token) w = handle_me token w

  unfoldable pub serve : Request → Step
  serve (register_email none) w = (invalid_request, w)
  serve (register_email (some req)) w = handle_register_email req w
  serve (login_email none) w = (invalid_request, w)
  serve (login_email (some req)) w = handle_login_email req w
  serve (refresh_token none) w = (invalid_request, w)
  serve (refresh_token (some token)) w = handle_refresh_token token w
  serve (logout none) w = (invalid_request, w)
  serve (logout (some token)) w = handle_logout token w
  serve (me header) w = handle_profile (bearer_token header) w
