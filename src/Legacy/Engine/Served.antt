-- ===== src/Legacy/Engine/Served.antt =====
-- What the service does to the sessions: they issue, end and touch them. A property of the sessions
-- that these three keep is kept by every call.
use dift_backend_auth.Base.{ℕ, Bool, Option, none, some, List, Text, text_eq}
use dift_backend_auth.Store
use dift_backend_auth.Legacy.Engine.{
  User, Session, OAuthProvider, ProviderUser, Outside, Failure, Result, ok, err, M,
}
use dift_backend_auth.Legacy.Engine.Frame.{Property, Keeps, frame_rules, write_sessions-Keeps}
use dift_backend_auth.Legacy.Engine.Sessions
use dift_backend_auth.Legacy.Engine.Sessions.{end, seen_at, change_if}
use dift_backend_auth.Legacy.Engine.Service.{
  RegisterRequest, LoginRequest, OAuthLoginRequest, Origin, refuse_taken, send_email, send_phone,
  register, issue_tokens,
}
use dift_backend_auth.Legacy.Engine.Login.{
  failed_login, use_code, check_given, check_second, mfa_gate, login_as, login_found, login,
  refuse_locked, or_refuse_code, after_gate,
}
use dift_backend_auth.Legacy.Engine.Access.{
  linked_user, provider_user, oauth_login, refuse_over, refresh_token, request_password_reset,
  send_reset, reset_password, enable_mfa, confirm_mfa, disable_mfa,
}
use dift_backend_auth.Legacy.Engine.Kept.{table_rules}

pub record IsKept (P : Property) (out : Outside) : Type 0 where
  pub issued :
      (u : User) (device : Text) (from : Origin) (mfa_done : Bool)
      → Keeps P (issue_tokens out u device from mfa_done)
  pub ended :
      (p : Session → Bool) (m : Store.Store Session)
      → P m
      → P (Store.update_all (change_if p end) m)
  pub touched :
      (p : Session → Bool) (t : ℕ) (m : Store.Store Session)
      → P m
      → P (Store.update_all (change_if p (seen_at t)) m)

module _ {P : Property} (out : Outside) (kept : IsKept P out) where
  pub revoke-Keeps : (id : Text) → Keeps P (Sessions.revoke out id)
  unfolding Sessions.revoke
  revoke-Keeps id = write_sessions-Keeps out _ (λ w. kept.ended (λ s. text_eq s.id id) w.sessions)

  pub revoke_all-Keeps : (user : Text) → Keeps P (Sessions.revoke_all out user)
  unfolding Sessions.revoke_all
  revoke_all-Keeps user =
      write_sessions-Keeps out _ (λ w. kept.ended (λ s. text_eq s.user_id user) w.sessions)

  touched-Keeps :
      (id : Text) (t : ℕ) → Keeps P (Sessions.change out (λ s. text_eq s.id id) (seen_at t))
  touched-Keeps id t =
      write_sessions-Keeps out _ (λ w. kept.touched (λ s. text_eq s.id id) t w.sessions)

  touch-Keeps : (id : Text) → Keeps P (Sessions.touch out id)
  unfolding Sessions.touch
  touch-Keeps id = search (frame_rules, touched-Keeps)

  send_phone-Keeps :
      (user purpose : Text) (o : Option Text) → Keeps P (send_phone out user purpose o)
  send_phone-Keeps user purpose none = search frame_rules
  send_phone-Keeps user purpose (some t) = search frame_rules

  send_email-Keeps :
      (user purpose : Text) (m : M (Unit {0})) (o : Option Text)
      → Keeps P m
      → Keeps P (send_email out user purpose m o)
  send_email-Keeps user purpose m none h = h
  send_email-Keeps user purpose m (some t) h = search frame_rules

  refuse_taken-Keeps :
      (look : Text → M User) (o : Option Text) (e : Failure)
      → ((t : Text) → Keeps P (look t))
      → Keeps P (refuse_taken look o e)
  refuse_taken-Keeps look none e h = search frame_rules
  refuse_taken-Keeps look (some t) e h = search (frame_rules, h)

  pub register-Keeps : (req : RegisterRequest) (from : Origin) → Keeps P (register out req from)
  unfolding register
  register-Keeps req from =
      search (table_rules, refuse_taken-Keeps, send_email-Keeps, send_phone-Keeps) depth 24

  use_code-Keeps : (u : User) (o : Option (List Text)) → Keeps P (use_code out u o)
  use_code-Keeps u none = search table_rules
  use_code-Keeps u (some hs) = search table_rules

  or_refuse_code-Keeps :
      (u : User) (from : Origin) (o : Option User) → Keeps P (or_refuse_code out u from o)
  or_refuse_code-Keeps u from none = search table_rules
  or_refuse_code-Keeps u from (some v) = search table_rules

  check_given-Keeps :
      (u : User) (from : Origin) (o : Option Text) (c : Text) → Keeps P (check_given out u from o c)
  check_given-Keeps u from none c = search frame_rules
  check_given-Keeps u from (some secret) c =
      search (table_rules, use_code-Keeps, or_refuse_code-Keeps) depth 12

  check_second-Keeps :
      (u : User) (from : Origin) (o : Option Text) → Keeps P (check_second out u from o)
  check_second-Keeps u from none = search frame_rules
  check_second-Keeps u from (some c) = check_given-Keeps u from u.mfa_secret c

  mfa_gate-Keeps : (u : User) (c : Option Text) (from : Origin) → Keeps P (mfa_gate out u c from)
  unfolding mfa_gate
  mfa_gate-Keeps u c from = search (frame_rules, check_second-Keeps)

  after_gate-Keeps :
      (req : LoginRequest) (from : Origin) (o : Option User) → Keeps P (after_gate out req from o)
  after_gate-Keeps req from none = search frame_rules
  after_gate-Keeps req from (some u) = search (frame_rules, kept.issued)

  refuse_locked-Keeps : (o : Option ℕ) → Keeps P (refuse_locked out o)
  refuse_locked-Keeps none = search frame_rules
  refuse_locked-Keeps (some t) = search frame_rules

  failed_login-Keeps :
      {A : Type 0} (u : User) (from : Origin) → Keeps P (failed_login {A = A} out u from)
  unfolding failed_login
  failed_login-Keeps u from = search table_rules depth 16

  login_as-Keeps :
      (req : LoginRequest) (from : Origin) (u : User) → Keeps P (login_as out req from u)
  unfolding login_as
  login_as-Keeps req from u =
      search
        (table_rules, mfa_gate-Keeps, after_gate-Keeps, refuse_locked-Keeps, failed_login-Keeps)
        depth 16

  login_found-Keeps :
      (req : LoginRequest) (from : Origin) (r : Result User) → Keeps P (login_found out req from r)
  login_found-Keeps req from (ok u) = login_as-Keeps req from u
  login_found-Keeps req from (err e) = search table_rules

  pub login-Keeps : (req : LoginRequest) (from : Origin) → Keeps P (login out req from)
  unfolding login
  login-Keeps req from = search (table_rules, login_found-Keeps)

  linked_user-Keeps :
      (provider : Text) (p : ProviderUser) (r : Result OAuthProvider)
      → Keeps P (linked_user out provider p r)
  linked_user-Keeps provider p (ok link) = search table_rules
  linked_user-Keeps provider p (err e) = search table_rules

  provider_user-Keeps :
      (provider : Text) (from : Origin) (o : Option (Option ProviderUser))
      → Keeps P (provider_user out provider from o)
  provider_user-Keeps provider from none = search table_rules
  provider_user-Keeps provider from (some none) = search table_rules
  provider_user-Keeps provider from (some (some p)) = search table_rules

  pub oauth_login-Keeps :
      (req : OAuthLoginRequest) (from : Origin) → Keeps P (oauth_login out req from)
  unfolding oauth_login
  oauth_login-Keeps req from =
      search (table_rules, linked_user-Keeps, provider_user-Keeps, kept.issued) depth 16

  refuse_over-Keeps : (s : Session) → Keeps P (refuse_over out s)
  refuse_over-Keeps s = search (table_rules, revoke-Keeps)

  pub refresh_token-Keeps : (t : Text) → Keeps P (refresh_token out t)
  unfolding refresh_token
  refresh_token-Keeps t = search (table_rules, refuse_over-Keeps, touch-Keeps) depth 24

  send_reset-Keeps : (r : Result User) → Keeps P (send_reset out r)
  send_reset-Keeps (ok u) = search (send_email-Keeps, send_phone-Keeps)
  send_reset-Keeps (err e) = search frame_rules

  pub request_password_reset-Keeps : (t : Text) → Keeps P (request_password_reset out t)
  unfolding request_password_reset
  request_password_reset-Keeps t = search (table_rules, send_reset-Keeps)

  pub reset_password-Keeps :
      (t c p : Text) (from : Origin) → Keeps P (reset_password out t c p from)
  unfolding reset_password
  reset_password-Keeps t c p from = search (table_rules, revoke_all-Keeps) depth 24

  pub enable_mfa-Keeps : (u p : Text) → Keeps P (enable_mfa out u p)
  unfolding enable_mfa
  enable_mfa-Keeps u p = search table_rules depth 20

  pub confirm_mfa-Keeps : (u c : Text) → Keeps P (confirm_mfa out u c)
  unfolding confirm_mfa
  confirm_mfa-Keeps u c = search table_rules depth 20

  pub disable_mfa-Keeps : (u c : Text) → Keeps P (disable_mfa out u c)
  unfolding disable_mfa
  disable_mfa-Keeps u c = search table_rules depth 20
