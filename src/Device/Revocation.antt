-- ===== src/Device/Revocation.antt =====
-- A revoked device.
use dift_backend_auth.Base.{
  suc, ◌≡◌, ◌≢◌, refl, ap, ◌∙◌, some, Text, text_eq_iff, text_eq_refl, arith,
}
use dift_backend_auth.Store
use dift_backend_auth.Store.Keyed.{IsKeyed}
use dift_backend_auth.Domain.{Device, DeviceStatus, AuditAction, AuditResult}
use dift_backend_auth.Runtime.{Env, World, ok, err, device_is_revoked, device_ownership}
use dift_backend_auth.Repository.Devices.{set_devices}
use dift_backend_auth.Audit.{entry, audit-ok, audit-db}
use dift_backend_auth.Token.Signing.{tick}
use dift_backend_auth.Device.{
  revoke_device, revoked_device, validate_device, enable_biometric, EnableBiometricParams,
  register_device, registered, scored,
}

-- `RevokeDevice` by the owner succeeds and stores the device revoked, without its key.
pub revoke_device-found :
    (env : Env) (w : World) (id user_id by : Text) (d : Device)
    → IsKeyed (λ d. d.id) w.db.devices
    → Store.get id w.db.devices ≡ some d
    → d.user_id ≡ user_id
    → ((revoke_device id user_id by env w).0 ≡ ok tt)
      × (Store.get id (revoke_device id user_id by env w).1.db.devices
          ≡ some (revoked_device d by (env.clock w.reads)))
unfolding revoke_device
revoke_device-found env w id user_id by d keyed found own =
    let key : d.id ≡ id = keyed id d found in
    let r = revoked_device d by (env.clock w.reads) in
    let w' = set_devices (Store.put d.id r) (tick w) in
    let l = entry user_id id AuditAction.device_revoked AuditResult.success in
    let there : Store.get id w'.db.devices ≡ some r =
      Store.get-put d.id id r w.db.devices ∙ rw ((text_eq_iff d.id id).1 key) in
    rw (found, (text_eq_iff d.user_id user_id).1 own)
      (audit-ok l env w', ap (λ db. Store.get id db.devices) (audit-db l env w') ∙ there)

-- A device of another user is neither revoked nor enrolled nor validated, and nothing changes.
pub device-of_another :
    (env : Env) (w : World) (id user_id by : Text) (params : EnableBiometricParams) (d : Device)
    → Store.get id w.db.devices ≡ some d
    → d.user_id ≢ user_id
    → (revoke_device id user_id by env w ≡ (err device_ownership, w))
      × (enable_biometric id user_id params env w ≡ (err device_ownership, w))
      × (validate_device id user_id env w ≡ (err device_ownership, w))
unfolding revoke_device enable_biometric validate_device
device-of_another env w id user_id by params d found other = (
  ground (arith, text_eq_iff d.user_id user_id),
  ground (arith, text_eq_iff d.user_id user_id),
  ground (arith, text_eq_iff d.user_id user_id),
)

-- A device that is stored revoked does not validate.
validate_device-revoked :
    (env : Env) (v : World) (id user_id : Text) (d : Device)
    → Store.get id v.db.devices ≡ some d
    → d.user_id ≡ user_id
    → d.status ≡ DeviceStatus.revoked
    → validate_device id user_id env v ≡ (err device_is_revoked, v)
unfolding validate_device
validate_device-revoked env v id user_id d found own revoked =
    ground (arith, text_eq_iff d.user_id user_id)

-- A device that its owner revoked does not validate from then on, while the devices are as the
-- revocation left them.
pub revoke_device-validate_device :
    (env : Env) (w v : World) (id user_id by : Text) (d : Device)
    → IsKeyed (λ d. d.id) w.db.devices
    → Store.get id w.db.devices ≡ some d
    → d.user_id ≡ user_id
    → v.db.devices ≡ (revoke_device id user_id by env w).1.db.devices
    → validate_device id user_id env v ≡ (err device_is_revoked, v)
revoke_device-validate_device env w v id user_id by d keyed found own same =
    validate_device-revoked env v id user_id (revoked_device d by (env.clock w.reads))
      (ap (Store.get id) same ∙ (revoke_device-found env w id user_id by d keyed found own).1) own
      refl

-- A device that is registered validates for the user who registered it, in the state that the
-- registration gave it, while the devices are as that left them, also where the device says that it
-- is rooted or jailbroken. Nothing is asked of what was stored under the device's id before: it may
-- be revoked, blocked, or another user's.
pub register_device-validate_device :
    (env : Env) (w v : World) (user_id : Text) (d : Device)
    → v.db.devices ≡ (register_device user_id d env w).1.db.devices
    → validate_device d.id user_id env v ≡ ((register_device user_id d env w).0, v)
unfolding validate_device register_device
register_device-validate_device env w v user_id d same =
    let there =
      ap (Store.get d.id) same
      ∙ Store.get-put_self d.id
          (scored (registered env user_id d (env.clock w.reads) (env.clock (suc w.reads))))
          w.db.devices in
    rw (there, text_eq_refl user_id) refl
