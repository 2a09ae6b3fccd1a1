-- ===== src/Legacy/Engine/Handlers.antt =====
-- The handlers and routes of the earlier engine, internal/auth/handler.go, and the checks of a token
-- in front of them, internal/middleware/middleware.go. A body is what the JSON library and the
-- validator make of it, none where they refuse it. The limiter in front is not part of a request
-- here, nor are the two requests with a face.
use dift_backend_auth.Base.{
  ℕ, Option, none, some, List, [], ◌∷◌, if◌then◌else◌, Text, codes, text_eq, is_empty, ◌==◌,
}
use dift_backend_auth.Base.Ascii.{to_lower}
use dift_backend_auth.Legacy.Codes
use dift_backend_auth.Legacy.Engine.{
  User, Claims, Outside, State, Failure, Result, ok, err, invalid_credentials, email_already_exists,
  phone_already_exists, account_locked, account_suspended, invalid_token, session_expired,
  session_limit_reached, invalid_mfa_code, user_not_found,
}
use dift_backend_auth.Legacy.Engine.Service.{
  RegisterRequest, LoginRequest, OAuthLoginRequest, TokenResponse, LoginAnswer, mfa_required,
  tokens, Origin, register, send_otp, verify_otp,
}
use dift_backend_auth.Legacy.Engine.Login.{login}
use dift_backend_auth.Legacy.Engine.Access.{
  MfaSetup, oauth_login, refresh_token, get_user, logout, logout_all, request_password_reset,
  reset_password, enable_mfa, confirm_mfa, disable_mfa,
}
use dift_backend_auth.Legacy.Engine.Tokens.{parse_access_token}

pub data Body : Type 0 where
  bad_request missing_header bad_format : Body
  failed : Failure → Body
  registered : Text → Body
  session : TokenResponse → Body
  mfa_code_wanted : Body
  profile : User → Body
  setup : MfaSetup → Body
  done : Body

abbrev pub Response : Type 0
Response = ℕ × Body

pub record VerifyRequest : Type 0 where
  pub recipient : Text
  pub purpose : Text
  pub code : Text

pub record ResetRequest : Type 0 where
  pub identifier : Text
  pub token : Text
  pub new_password : Text

pub data PublicRequest : Type 0 where
  post_register : Option RegisterRequest → PublicRequest
  post_login : Option LoginRequest → PublicRequest
  post_oauth_login : Option OAuthLoginRequest → PublicRequest
  post_refresh : Option Text → PublicRequest
  post_send_otp : Option Codes.SendOtpRequest → PublicRequest
  post_verify_otp : Option VerifyRequest → PublicRequest
  post_forgot_password : Option Text → PublicRequest
  post_reset_password : Option ResetRequest → PublicRequest

-- Behind `JWTAuth`.
pub data PrivateRequest : Type 0 where
  post_logout post_logout_all get_me : PrivateRequest
  post_enable_mfa post_confirm_mfa delete_mfa : Option Text → PrivateRequest

pub data Request : Type 0 where
  public_request : PublicRequest → Request
  -- with the header Authorization, empty where there is none
  private_request : (header : Text) → PrivateRequest → Request

unfoldable pub handle_auth_error : Failure → ℕ
handle_auth_error invalid_credentials = 401
handle_auth_error user_not_found = 401
handle_auth_error account_locked = 429
handle_auth_error account_suspended = 403
handle_auth_error email_already_exists = 409
handle_auth_error phone_already_exists = 409
handle_auth_error invalid_token = 401
handle_auth_error session_expired = 401
handle_auth_error invalid_mfa_code = 401
handle_auth_error session_limit_reached = 429
handle_auth_error e = 500

abbrev pub answer :
    {A : Type 0} → (Failure → ℕ) → (A → Response) → Result A × State → Response × State
answer code f (ok a, w) = (f a, w)
answer code f (err e, w) = ((code e, failed e), w)

-- A handler whose body has to be there, and one that drops the error of its call.
abbrev pub with_body :
    {A : Type 0} → Option A → (A → State → Response × State) → State → Response × State
with_body none f w = ((400, bad_request), w)
with_body (some a) f w = f a w

abbrev pub always : {A : Type 0} → Result A × State → Response × State
always (r, w) = ((200, done), w)

abbrev pub show_login : LoginAnswer → Response
show_login mfa_required = (200, mfa_code_wanted)
show_login (tokens r) = (200, session r)

-- `uuid.Nil`, since no one is logged in.
abbrev pub nil_id : Text
nil_id = codes "00000000-0000-0000-0000-000000000000"

abbrev pub with_register : Outside → Origin → Option RegisterRequest → State → Response × State
with_register out from body =
    with_body body
      λ req w. answer handle_auth_error (λ u. (201, registered u.id)) (register out req from w)

abbrev pub with_login : Outside → Origin → Option LoginRequest → State → Response × State
with_login out from body =
    with_body body λ req w. answer handle_auth_error show_login (login out req from w)

abbrev pub show_session_of : TokenResponse → Response
show_session_of r = (200, session r)

abbrev pub all_done : Unit {0} → Response
all_done u = (200, done)

abbrev pub with_oauth : Outside → Origin → Option OAuthLoginRequest → State → Response × State
with_oauth out from body =
    with_body body λ req w. answer handle_auth_error show_session_of (oauth_login out req from w)

abbrev pub with_refresh : Outside → Option Text → State → Response × State
with_refresh out body =
    with_body body λ token w. answer handle_auth_error show_session_of (refresh_token out token w)

abbrev pub with_send_otp : Outside → Option Codes.SendOtpRequest → State → Response × State
with_send_otp out body =
    with_body body λ req w. answer (λ e. 500) all_done (send_otp out nil_id req w)

abbrev pub with_verify_otp : Outside → Option VerifyRequest → State → Response × State
with_verify_otp out body =
    with_body body
      λ req w. answer (λ e. 400) all_done (verify_otp out req.recipient req.purpose req.code w)

abbrev pub with_forgot : Outside → Option Text → State → Response × State
with_forgot out body =
    with_body body λ identifier w. always (request_password_reset out identifier w)

abbrev pub with_reset : Outside → Origin → Option ResetRequest → State → Response × State
with_reset out from body = with_body body λ req w.
    answer handle_auth_error all_done
      (reset_password out req.identifier req.token req.new_password from w)

unfoldable pub serve_public : Outside → Origin → PublicRequest → State → Response × State
serve_public out from (post_register body) = with_register out from body
serve_public out from (post_login body) = with_login out from body
serve_public out from (post_oauth_login body) = with_oauth out from body
serve_public out from (post_refresh body) = with_refresh out body
serve_public out from (post_send_otp body) = with_send_otp out body
serve_public out from (post_verify_otp body) = with_verify_otp out body
serve_public out from (post_forgot_password body) = with_forgot out body
serve_public out from (post_reset_password body) = with_reset out from body

abbrev pub handle_logout : Outside → Claims → State → Response × State
handle_logout out c w = always (logout out c.session_id w)

abbrev pub handle_logout_all : Outside → Claims → State → Response × State
handle_logout_all out c w = always (logout_all out c.user_id w)

abbrev pub handle_me : Outside → Claims → State → Response × State
handle_me out c w = answer (λ e. 404) (λ u. (200, profile u)) (get_user out c.user_id w)

abbrev pub with_enable : Outside → Claims → Option Text → State → Response × State
with_enable out c body = with_body body λ password w.
    answer handle_auth_error (λ s. (200, setup s)) (enable_mfa out c.user_id password w)

abbrev pub with_confirm : Outside → Claims → Option Text → State → Response × State
with_confirm out c body =
    with_body body λ code w. answer handle_auth_error all_done (confirm_mfa out c.user_id code w)

abbrev pub with_disable : Outside → Claims → Option Text → State → Response × State
with_disable out c body =
    with_body body λ code w. answer handle_auth_error all_done (disable_mfa out c.user_id code w)

unfoldable pub serve_private : Outside → Claims → PrivateRequest → State → Response × State
serve_private out c post_logout = handle_logout out c
serve_private out c post_logout_all = handle_logout_all out c
serve_private out c get_me = handle_me out c
serve_private out c (post_enable_mfa body) = with_enable out c body
serve_private out c (post_confirm_mfa body) = with_confirm out c body
serve_private out c (delete_mfa body) = with_disable out c body

-- `strings.SplitN` at the first space.
unfoldable pub split_space : Text → Option (Text × Text)
split_space [] = none
split_space (c ∷ cs) =
    let rest = split_space cs in
    if c == 32 then some ([], cs) else elim rest [ none ↦ none | some (a, b) ↦ some (c ∷ a, b) ]

abbrev pub bearer : Option (Text × Text) → Option Text
bearer none = none
bearer (some (scheme, token)) =
    if text_eq (to_lower scheme) (codes "bearer") then some token else none

abbrev pub let_in : (Claims → State → Response × State) → Result Claims × State → Response × State
let_in next (ok c, w) = next c w
let_in next (err e, w) = ((401, failed e), w)

abbrev pub admit :
    Outside → (Claims → State → Response × State) → Option Text → State → Response × State
admit out next none w = ((401, bad_format), w)
admit out next (some token) w = let_in next (parse_access_token out token w)

unfoldable pub jwt_auth :
    Outside → (header : Text) → (Claims → State → Response × State) → State → Response × State
jwt_auth out header next w =
    if is_empty header
    then ((401, missing_header), w)
    else admit out next (bearer (split_space header)) w

unfoldable pub serve : Outside → Origin → Request → State → Response × State
serve out from (public_request r) w = serve_public out from r w
serve out from (private_request header r) w = jwt_auth out header (λ c v. serve_private out c r v) w

unfoldable pub serve_all : Outside → List (Origin × Request) → State → State
serve_all out [] w = w
serve_all out ((from, r) ∷ rs) w = serve_all out rs (serve out from r w).1
