-- ===== src/Device.antt =====
-- `DeviceService` of auth-service-main/biometric-auth/internal/service/device.go.
pub mod Trust
pub mod Revocation
use dift_backend_auth.Base.{
  ℕ, Bool, true, false, Option, none, some, List, [], ◌||◌, if◌then◌else◌, Text, text_eq, is_empty,
}
use dift_backend_auth.Base.Int.{ℤ, pos, pos_part, ◌-ℤ◌, ltb_ℤ}
use dift_backend_auth.Domain.{Device, DeviceStatus, AuditAction, AuditResult}
use dift_backend_auth.Runtime.{
  Env, World, Outcome, ok, err, panic, M, ◌>>=◌, ◌>>◌, pure, fail, crash, ask, now, guard,
  device_not_found, device_ownership, device_is_revoked, device_is_blocked,
}
use dift_backend_auth.Repository.Devices
use dift_backend_auth.Audit.{entry, audit}
use dift_backend_auth.Crypto.{hash_fingerprint}

abbrev pub minus_if : Bool → ℕ → ℤ → ℤ
minus_if true n score = score -ℤ pos n
minus_if false n score = score

unfoldable pub compute_trust_score : Device → ℕ
compute_trust_score d =
    let compromised = minus_if (d.is_rooted || d.is_jailbroken) 60 (pos 100) in
    let attested = minus_if (is_empty d.attestation_data) 20 compromised in
    let score = minus_if (is_empty d.app_version) 5 attested in
    if ltb_ℤ score (pos 0) then 0 else pos_part score

-- `RegisterDevice` on the device that the caller has filled in.
abbrev pub registered : Env → Text → Device → ℕ → ℕ → Device
registered env user_id d seen created = record d {
  user_id = user_id;
  device_fingerprint = hash_fingerprint env d.device_fingerprint;
  status = DeviceStatus.active;
  last_seen_at = seen;
  created_at = created;
}

abbrev pub scored : Device → Device
scored d = record d { trust_score = compute_trust_score d }

unfoldable pub register_device : Text → Device → M Device
unfolding Devices.store
register_device user_id d = do
  env ← ask
  seen ← now
  created ← now
  let d' = scored (registered env user_id d seen created)
  Devices.store d'
  pure d'

pub record EnableBiometricParams : Type 0 where
  pub public_key : Text
  pub key_id : Text
  pub key_algo : Text
  pub biometric_type : Text
  pub attestation_data : Text
  pub is_rooted : Bool
  pub is_jailbroken : Bool

-- A device that was found and belongs to the user.
abbrev pub owned : Text → Option Device → M Device
owned user_id none = fail device_not_found
owned user_id (some d) = guard (text_eq d.user_id user_id) device_ownership >> pure d

abbrev pub enrolled : Device → EnableBiometricParams → ℕ → Device
enrolled d params t = record d {
  biometric_enabled = true;
  public_key = params.public_key;
  key_id = params.key_id;
  biometric_type = params.biometric_type;
  attestation_data = params.attestation_data;
  is_rooted = params.is_rooted;
  is_jailbroken = params.is_jailbroken;
  enrolled_at = some t;
}

unfoldable pub enable_biometric : Text → Text → EnableBiometricParams → M (Unit {0})
unfolding Devices.get_by_id Devices.update
enable_biometric device_id user_id params = do
  device ← owned user_id (← Devices.get_by_id device_id)
  t ← now
  Devices.update (scored (enrolled device params t))

unfoldable pub get_device : Text → M (Option Device)
unfolding Devices.get_by_id
get_device device_id = Devices.get_by_id device_id

unfoldable pub list_user_devices : Text → M (List Device)
unfolding Devices.list_by_user
list_user_devices user_id = Devices.list_by_user user_id

abbrev pub revoked_device : Device → Text → ℕ → Device
revoked_device d revoked_by t = record d {
  status = DeviceStatus.revoked;
  revoked_at = some t;
  revoked_by = revoked_by;
  biometric_enabled = false;
  public_key = [];
}

unfoldable pub revoke_device : Text → Text → Text → M (Unit {0})
unfolding Devices.get_by_id Devices.update
revoke_device device_id user_id revoked_by = do
  device ← owned user_id (← Devices.get_by_id device_id)
  t ← now
  Devices.update (revoked_device device revoked_by t)
  audit (entry user_id device_id AuditAction.device_revoked AuditResult.success)

-- The switch on the status.
abbrev pub usable : Device → M Device
usable d = elim d.status [
  | DeviceStatus.active ↦ pure d
  | DeviceStatus.revoked ↦ fail device_is_revoked
  | DeviceStatus.blocked ↦ fail device_is_blocked
]

unfoldable pub validate_device : Text → Text → M Device
unfolding Devices.get_by_id
validate_device device_id user_id = do usable (← owned user_id (← Devices.get_by_id device_id))

-- A nil pointer panics.
abbrev pub see : Option Device → M (Unit {0})
see none = crash
see (some d) = do t ← now; Devices.update (record d { last_seen_at = t })

unfoldable pub update_last_seen : Text → M (Unit {0})
unfolding Devices.get_by_id Devices.update
update_last_seen device_id = do see (← Devices.get_by_id device_id)
