-- ===== src/Http/Devices.antt =====
-- `DeviceHandler` and `AuditHandler` of auth-service-main/biometric-auth/internal/handler/handler.go.
use dift_backend_auth.Base.{Option, Text, codes, length}
use dift_backend_auth.Base.Int.{pos}
use dift_backend_auth.Domain.{TokenClaims}
use dift_backend_auth.Runtime.{M}
use dift_backend_auth.Audit.{get_logs}
use dift_backend_auth.Device.{list_user_devices, revoke_device, validate_device}
use dift_backend_auth.Http.{Body, Response, write_json, write_error, respond, with_claims}

unfoldable pub handle_list_devices : Option TokenClaims → M Response
handle_list_devices claims = with_claims claims (λ c.
    respond (list_user_devices c.user_id) (λ ds. write_json 200 (Body.devices ds))
      (λ _. write_error 500 (codes "failed to list devices")))

unfoldable pub handle_revoke_device : Option TokenClaims → Text → M Response
handle_revoke_device claims device_id = with_claims claims (λ c.
    respond (revoke_device device_id c.user_id c.user_id)
      (λ _. write_json 200 (Body.status (codes "device_revoked")))
      (λ e. write_json 400 (Body.failure e)))

-- The answer shows four fields of the device.
unfoldable pub handle_verify_device : Option TokenClaims → M Response
handle_verify_device claims = with_claims claims (λ c.
    respond (validate_device c.device_id c.user_id) (λ d. write_json 200 (Body.device d))
      (λ e. write_json 403 (Body.failure e)))

unfoldable pub handle_logs : Option TokenClaims → M Response
handle_logs claims = with_claims claims (λ c.
    respond (get_logs c.user_id (pos 50) (pos 0)) (λ ls. write_json 200 (Body.logs ls (length ls)))
      (λ _. write_error 500 (codes "failed to get logs")))
