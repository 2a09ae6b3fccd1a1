-- ===== src/Http/Kept.antt =====
-- Serving requests keeps what the writes of the repositories keep.
use dift_backend_auth.Base.{Bool, true, false, Option, none, some, Text, List, [], ◌∷◌}
use dift_backend_auth.Base.Int.{ℤ}
use dift_backend_auth.Domain.{TokenClaims, Device, DeviceStatus}
use dift_backend_auth.Runtime.{
  Env, World, Outcome, M, pure, fail, Error, device_is_revoked, device_is_blocked,
}
use dift_backend_auth.Runtime.Frame.{Within, frame_rules}
use dift_backend_auth.Token.{verify_access_token}
use dift_backend_auth.Device.{list_user_devices, validate_device, usable}
use dift_backend_auth.Repository.Audits
use dift_backend_auth.Repository.Devices
use dift_backend_auth.Audit.{get_logs}
use dift_backend_auth.Middleware
use dift_backend_auth.Middleware.{
  Gate, pass, stop, extract_ip, require_step_up, validate_device_gate, not_expired,
}
use dift_backend_auth.Middleware.RateLimiter.{RateLimiter, limit_request}
use dift_backend_auth.Http.{Response, respond, decoded, with_claims}
use dift_backend_auth.Http.Auth.{
  handle_login, handle_send_otp, handle_verify_otp, handle_refresh, handle_logout,
  handle_logout_all, handle_authorize_payment,
}
use dift_backend_auth.Http.Biometric.{
  handle_challenge, handle_enroll, handle_exchange, handle_unenroll,
}
use dift_backend_auth.Http.Devices.{
  handle_list_devices, handle_revoke_device, handle_verify_device, handle_logs,
}
use dift_backend_auth.Http.Server.{
  Public, Protected, Endpoint, HttpRequest, Server, past, logged, limited, route, guarded, serve,
  serve_public, serve_protected, dispatched, security_headers,
}
use dift_backend_auth.Invariant.{IsKept}
use dift_backend_auth.Invariant.Steps.{verify-Within, owned-Within}
use dift_backend_auth.Invariant.Services.{get_challenge-Within, enroll-Within, revoke_device-Within}
use dift_backend_auth.Invariant.Logins.{
  login-Within, verify_otp-Within, exchange_biometric_token-Within, refresh-Within, logout-Within,
  logout_all-Within, authorize_payment-Within,
}
use dift_backend_auth.Invariant.Keyed.{AreKeyed, StaysKeyed-IsKept}
use dift_backend_auth.Invariant.Trail.{Extends, Grows-IsKept}
use dift_backend_auth.Token.Signing.{tick}

-- The server after requests served in turn.
abbrev pub left_by : Env → Server → List HttpRequest → Server
left_by env s [] = s
left_by env s (r ∷ rs) = left_by env (serve env s r).0 rs

module _ {R : World → World → Type 0} where
  respond-Within :
      {A : Type 0} (m : M A) (f : A → Response) (g : Error → Response)
      → Within R m
      → Within R (respond m f g)
  respond-Within m f g h = record { apply = λ env w. h.apply env w }

module _ {R : World → World → Type 0} (kept : IsKept R) where
  decoded-Within :
      {A : Type 0} (o : Option A) (k : A → M Response)
      → ((a : A) → Within R (k a))
      → Within R (decoded o k)
  decoded-Within none k h = record { apply = λ env w. kept.frame.refl w }
  decoded-Within (some a) k h = record { apply = λ env w. (h a).apply env w }

  with_claims-Within :
      (o : Option TokenClaims) (k : TokenClaims → M Response)
      → ((c : TokenClaims) → Within R (k c))
      → Within R (with_claims o k)
  with_claims-Within none k h = search (frame_rules, kept.frame)
  with_claims-Within (some c) k h = h c

  past-Within :
      {A : Type 0} (g : Gate A) (k : A → M Response)
      → ((a : A) → Within R (k a))
      → Within R (past g k)
  past-Within (pass a) k h = h a
  past-Within (stop code) k h = search (frame_rules, kept.frame)

  ruleset handler_rules =
      (frame_rules, respond-Within, decoded-Within, with_claims-Within, past-Within)

  serve_public-Within : (r : HttpRequest) (e : Public) → Within R (serve_public r e)
  unfolding serve_public handle_login handle_send_otp handle_verify_otp handle_refresh
  serve_public-Within r (Public.login body) = search (handler_rules, kept, login-Within) depth 12
  serve_public-Within r Public.send_otp = search (frame_rules, kept.frame)
  serve_public-Within r (Public.verify_otp body) =
      search (handler_rules, kept, verify_otp-Within) depth 12
  serve_public-Within r (Public.refresh body) =
      search (handler_rules, kept, refresh-Within) depth 12

  verify_access_token-Within : (t : Text) → Within R (verify_access_token t)
  unfolding verify_access_token
  verify_access_token-Within t = search (frame_rules, kept.frame, verify-Within) depth 12

  authenticate-Within : (r : Middleware.Request) → Within R (Middleware.authenticate r)
  unfolding Middleware.authenticate
  authenticate-Within r = search (frame_rules, kept.frame, verify_access_token-Within) depth 12

  by_status-Within :
      (d : Device) (st : DeviceStatus)
      → Within R (elim st as (λ _. M Device) [
        | DeviceStatus.active ↦ pure d
        | DeviceStatus.revoked ↦ fail device_is_revoked
        | DeviceStatus.blocked ↦ fail device_is_blocked
      ])
  by_status-Within d DeviceStatus.active = search (frame_rules, kept.frame)
  by_status-Within d DeviceStatus.revoked = search (frame_rules, kept.frame)
  by_status-Within d DeviceStatus.blocked = search (frame_rules, kept.frame)

  usable-Within : (d : Device) → Within R (usable d)
  usable-Within d = by_status-Within d d.status

  lift-Within : {A : Type 0} (r : Outcome A) → Within R (Audits.lift r)
  lift-Within r = record { apply = λ env w. kept.frame.refl w }

  validate_device-Within : (device_id user_id : Text) → Within R (validate_device device_id user_id)
  unfolding validate_device Devices.get_by_id
  validate_device-Within device_id user_id =
      search (frame_rules, kept.frame, usable-Within, owned-Within) depth 12

  validate_device_gate-Within : (c : TokenClaims) → Within R (validate_device_gate (some c))
  unfolding validate_device_gate
  validate_device_gate-Within c = search (frame_rules, kept.frame, validate_device-Within) depth 12

  not_expired-Within : (o : Option ℤ) → Within R (not_expired o)
  not_expired-Within none = search (frame_rules, kept.frame)
  not_expired-Within (some t) = search (frame_rules, kept.frame)

  require_step_up-Within : (c : TokenClaims) → Within R (require_step_up (some c))
  unfolding require_step_up
  require_step_up-Within c = search (frame_rules, kept.frame, not_expired-Within)

  get_logs-Within : (user_id : Text) (limit offset : ℤ) → Within R (get_logs user_id limit offset)
  unfolding get_logs Audits.get_by_user
  get_logs-Within user_id limit offset = search (frame_rules, kept.frame, lift-Within)

  list_user_devices-Within : (user_id : Text) → Within R (list_user_devices user_id)
  unfolding list_user_devices Devices.list_by_user
  list_user_devices-Within user_id = search (frame_rules, kept.frame)

  serve_protected-Within : (c : TokenClaims) (e : Protected) → Within R (serve_protected (some c) e)
  unfolding serve_protected handle_challenge handle_enroll handle_exchange handle_unenroll
      handle_list_devices handle_revoke_device handle_verify_device handle_logs handle_logout
      handle_logout_all handle_authorize_payment
  serve_protected-Within c (Protected.challenge body) =
      search (handler_rules, kept, get_challenge-Within) depth 12
  serve_protected-Within c (Protected.enroll body) =
      search (handler_rules, kept, enroll-Within) depth 12
  serve_protected-Within c (Protected.exchange body) =
      search (handler_rules, kept, exchange_biometric_token-Within) depth 12
  serve_protected-Within c Protected.unenroll = search (frame_rules, kept.frame)
  serve_protected-Within c Protected.list_devices =
      search (handler_rules, list_user_devices-Within) depth 12
  serve_protected-Within c (Protected.revoke_device id) =
      search (handler_rules, kept, revoke_device-Within) depth 12
  serve_protected-Within c Protected.verify_device =
      search (handler_rules, validate_device-Within) depth 12
  serve_protected-Within c Protected.logout =
      search (handler_rules, kept, kept.frame, logout-Within) depth 12
  serve_protected-Within c Protected.logout_all =
      search (handler_rules, kept, kept.frame, logout_all-Within) depth 12
  serve_protected-Within c (Protected.authorize_payment body) =
      search (handler_rules, kept, kept.frame, require_step_up-Within, authorize_payment-Within)
        depth 16
  serve_protected-Within c Protected.logs = search (handler_rules, get_logs-Within) depth 12

  guarded-Within : (r : HttpRequest) (e : Protected) → Within R (guarded r e)
  unfolding guarded
  guarded-Within r e =
      search
        (
          handler_rules, kept.frame, authenticate-Within, validate_device_gate-Within,
          serve_protected-Within,
        )
        depth 16

  dispatched-Within : (r : HttpRequest) (e : Endpoint) → Within R (dispatched r e)
  dispatched-Within r (Endpoint.public e) = serve_public-Within r e
  dispatched-Within r (Endpoint.protected e) = guarded-Within r e
  dispatched-Within r Endpoint.not_found = search handler_rules
  dispatched-Within r Endpoint.method_not_allowed = search handler_rules

  route-Within : (r : HttpRequest) → Within R (route r)
  unfolding route
  route-Within r = dispatched-Within r r.endpoint

  logged-Within : (r : HttpRequest) → Within R (logged (route r))
  logged-Within r = search (frame_rules, kept.frame, route-Within) depth 12

  serve-kept : (env : Env) (s : Server) (r : HttpRequest) → R s.world (serve env s r).0.world
  unfolding serve
  serve-kept env s r = go (limit_request s.limiter (extract_ip r.headers) (env.clock s.world.reads))
    where
      counted : R s.world (tick s.world)
      counted = kept.frame.reads s.world _

      go :
          (x : RateLimiter × Bool)
          → R s.world (limited env r (security_headers []) (tick s.world) x).0.world
      go (rl, false) = counted
      go (rl, true) =
          kept.frame.trans s.world (tick s.world) _ counted
            ((logged-Within r).apply env (tick s.world))

  serve_all-kept :
      (env : Env) (rs : List HttpRequest) (s : Server) → R s.world (left_by env s rs).world
  serve_all-kept env [] s = kept.frame.refl s.world
  serve_all-kept env (r ∷ rs) s =
      kept.frame.trans s.world (serve env s r).0.world _ (serve-kept env s r)
        (serve_all-kept env rs (serve env s r).0)

-- Whatever requests the server answers, one after another, from a state in which every user, device,
-- session and challenge lies under its own id: they all still do, and the audit log begins with the
-- log it had, no record of it changed or removed.
pub left_by-kept :
    (env : Env) (s : Server) (rs : List HttpRequest)
    → AreKeyed s.world.db
    → AreKeyed (left_by env s rs).world.db × Extends s.world.audits (left_by env s rs).world.audits
left_by-kept env s rs keyed =
    (serve_all-kept StaysKeyed-IsKept env rs s keyed, serve_all-kept Grows-IsKept env rs s)
