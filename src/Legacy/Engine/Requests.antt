-- ===== src/Legacy/Engine/Requests.antt =====
-- What the service keeps of the sessions, every request keeps.
use dift_backend_auth.Base.{
  ℕ, Bool, true, false, Option, none, some, List, [], ◌∷◌, if◌then◌else◌, Text, is_empty,
}
use dift_backend_auth.Legacy.Engine.{Claims, Outside, State, Failure, Result, ok, err}
use dift_backend_auth.Legacy.Engine.Frame.{Property}
use dift_backend_auth.Legacy.Engine.Users
use dift_backend_auth.Legacy.Engine.Tokens.{parse_access_token, access}
use dift_backend_auth.Legacy.Engine.Service.{Origin}
use dift_backend_auth.Legacy.Engine.Kept.{get_by_id-Keeps, parse_token-Keeps}
use dift_backend_auth.Legacy.Engine.Handlers.{
  Request, PublicRequest, PrivateRequest, Response, profile, answer, with_body, let_in, admit,
  serve_public, serve_private, jwt_auth, serve, serve_all, bearer, split_space, post_register,
  post_login, post_oauth_login, post_refresh, post_send_otp, post_verify_otp, post_forgot_password,
  post_reset_password, post_logout, post_logout_all, get_me, post_enable_mfa, post_confirm_mfa,
  delete_mfa, public_request, private_request, missing_header,
}
use dift_backend_auth.Legacy.Engine.Served.{
  IsKept, register-Keeps, login-Keeps, oauth_login-Keeps, refresh_token-Keeps,
  request_password_reset-Keeps, reset_password-Keeps, revoke-Keeps, revoke_all-Keeps,
  enable_mfa-Keeps, confirm_mfa-Keeps, disable_mfa-Keeps,
}

module _ {P : Property} (out : Outside) (kept : IsKept P out) where
  -- A response's state, of a call that keeps the property.
  answer-keeps :
      {A : Type 0} (code : Failure → ℕ) (f : A → Response) (r : Result A × State)
      → P r.1.sessions
      → P (answer code f r).1.sessions
  answer-keeps code f (ok a, w) p = p
  answer-keeps code f (err e, w) p = p

  with_body-keeps :
      {A : Type 0} (o : Option A) (f : A → State → Response × State) (w : State)
      → ((a : A) → P (f a w).1.sessions)
      → P w.sessions
      → P (with_body o f w).1.sessions
  with_body-keeps none f w h p = p
  with_body-keeps (some a) f w h p = h a

  serve_public-keeps :
      (from : Origin) (r : PublicRequest) (w : State)
      → P w.sessions
      → P (serve_public out from r w).1.sessions
  unfolding serve_public
  serve_public-keeps from (post_register o) w p =
      with_body-keeps o _ w
        (λ req. answer-keeps _ _ _ ((register-Keeps out kept req from).apply w p)) p
  serve_public-keeps from (post_login o) w p =
      with_body-keeps o _ w (λ req. answer-keeps _ _ _ ((login-Keeps out kept req from).apply w p))
        p
  serve_public-keeps from (post_oauth_login o) w p =
      with_body-keeps o _ w
        (λ req. answer-keeps _ _ _ ((oauth_login-Keeps out kept req from).apply w p)) p
  serve_public-keeps from (post_refresh o) w p =
      with_body-keeps o _ w (λ t. answer-keeps _ _ _ ((refresh_token-Keeps out kept t).apply w p)) p
  serve_public-keeps from (post_send_otp o) w p =
      with_body-keeps o _ w (λ req. answer-keeps _ _ _ p) p
  serve_public-keeps from (post_verify_otp o) w p =
      with_body-keeps o _ w (λ req. answer-keeps _ _ _ p) p
  serve_public-keeps from (post_forgot_password o) w p =
      with_body-keeps o _ w (λ t. (request_password_reset-Keeps out kept t).apply w p) p
  serve_public-keeps from (post_reset_password o) w p =
      with_body-keeps o _ w
        (λ r.
          answer-keeps _ _ _
            ((reset_password-Keeps out kept r.identifier r.token r.new_password from).apply w p))
        p

  serve_private-keeps :
      (c : Claims) (r : PrivateRequest) (w : State)
      → P w.sessions
      → P (serve_private out c r w).1.sessions
  unfolding serve_private
  serve_private-keeps c post_logout w p = (revoke-Keeps out kept c.session_id).apply w p
  serve_private-keeps c post_logout_all w p = (revoke_all-Keeps out kept c.user_id).apply w p
  serve_private-keeps c get_me w p =
      answer-keeps (λ e. 404) (λ u. (200, profile u)) (Users.get_by_id out c.user_id w)
        ((get_by_id-Keeps {P = P} out c.user_id).apply w p)
  serve_private-keeps c (post_enable_mfa o) w p =
      with_body-keeps o _ w
        (λ t. answer-keeps _ _ _ ((enable_mfa-Keeps out kept c.user_id t).apply w p)) p
  serve_private-keeps c (post_confirm_mfa o) w p =
      with_body-keeps o _ w
        (λ t. answer-keeps _ _ _ ((confirm_mfa-Keeps out kept c.user_id t).apply w p)) p
  serve_private-keeps c (delete_mfa o) w p =
      with_body-keeps o _ w
        (λ t. answer-keeps _ _ _ ((disable_mfa-Keeps out kept c.user_id t).apply w p)) p

  let_in-keeps :
      (r : PrivateRequest) (a : Result Claims × State)
      → P a.1.sessions
      → P (let_in (λ c v. serve_private out c r v) a).1.sessions
  let_in-keeps r (ok c, w) p = serve_private-keeps c r w p
  let_in-keeps r (err e, w) p = p

  jwt_auth-keeps :
      (header : Text) (r : PrivateRequest) (w : State)
      → P w.sessions
      → P (jwt_auth out header (λ c v. serve_private out c r v) w).1.sessions
  unfolding jwt_auth
  jwt_auth-keeps header r w p = go (is_empty header)
    where
      admitted : (o : Option Text) → P (admit out (λ c v. serve_private out c r v) o w).1.sessions
      admitted none = p
      admitted (some t) =
          let_in-keeps r (parse_access_token out t w)
            ((parse_token-Keeps {P = P} out out.cfg.access_secret access t).apply w p)

      go :
          (b : Bool)
          → P
              (if b
                then ((401, missing_header), w)
                else admit out
                    (λ c v. serve_private out c r v)
                    (bearer (split_space header))
                    w).1.sessions
      go true = p
      go false = admitted (bearer (split_space header))

  pub serve-keeps :
      (from : Origin) (r : Request) (w : State) → P w.sessions → P (serve out from r w).1.sessions
  unfolding serve
  serve-keeps from (public_request r) w p = serve_public-keeps from r w p
  serve-keeps from (private_request header r) w p = jwt_auth-keeps header r w p

  pub serve_all-keeps :
      (rs : List (Origin × Request)) (w : State) → P w.sessions → P (serve_all out rs w).sessions
  unfolding serve_all
  serve_all-keeps [] w p = p
  serve_all-keeps ((from, r) ∷ rs) w p =
      serve_all-keeps rs (serve out from r w).1 (serve-keeps from r w p)
