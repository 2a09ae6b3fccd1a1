-- ===== src/Biometric/Enrolment.antt =====
-- What a successful enrolment rests on, and what it leaves.
use dift_backend_auth.Base.{
  ℕ, ◌≡◌, sym, ap, ◌∙◌, true, false, some, Text, ◌||◌, text_eq_iff, arith, Option-cases, inl, inr,
}
use dift_backend_auth.Store
use dift_backend_auth.Store.Keyed.{IsKeyed}
use dift_backend_auth.Domain.{Device, AuditAction, AuditResult, action_enroll}
use dift_backend_auth.Runtime.{
  PublicKey, Env, World, ok, M, ◌>>◌, on_error, signature_invalid, timestamp_drift,
}
use dift_backend_auth.Runtime.Frame.{KeepsDb, db_rules}
use dift_backend_auth.Runtime.Inversion.{bind_ok, guard_ok}
use dift_backend_auth.Audit.{entry, audit, audit-db}
use dift_backend_auth.Token.Signing.{tick}
use dift_backend_auth.Device.{enable_biometric, EnableBiometricParams, enrolled, scored}
use dift_backend_auth.Drift.{drift_ok}
use dift_backend_auth.Crypto.{
  build_signed_payload, verify_signature_for_algo, validate_public_key_format,
  parse_ecdsa_public_key, parse_rsa_public_key, parse_key,
}
use dift_backend_auth.Biometric.{
  EnrollRequest, enroll, consume_challenge, check_timestamp_drift, reporting,
}
use dift_backend_auth.Biometric.Consumption.{Consumed, consume_challenge-Consumed}
use dift_backend_auth.Biometric.Soundness.{
  reject_rooted_ok, reported_ok, check_timestamp_drift-KeepsDb, as_key-KeepsDb,
  verify_signature_for_algo-KeepsDb,
}

validate_public_key_format-KeepsDb :
    (pem algo : Text) → KeepsDb (validate_public_key_format pem algo)
unfolding validate_public_key_format parse_ecdsa_public_key parse_rsa_public_key parse_key
validate_public_key_format-KeepsDb pem algo =
    search
      (db_rules, λ (k : PublicKey). (as_key-KeepsDb k).0, λ (k : PublicKey). (as_key-KeepsDb k).1)
      depth 12

abbrev pub params_of : EnrollRequest → EnableBiometricParams
params_of req = record {
  public_key = req.public_key_pem;
  key_id = req.key_id;
  key_algo = req.key_algo;
  biometric_type = req.biometric_type;
  attestation_data = req.attestation_data;
  is_rooted = req.is_rooted;
  is_jailbroken = req.is_jailbroken;
}

-- The steps of an enrolment, each with what follows it.
abbrev enabling : EnrollRequest → M (Unit {0})
enabling req =
    enable_biometric req.device_id req.user_id (params_of req)
    >> audit (entry req.user_id req.device_id AuditAction.biometric_enroll AuditResult.success)

abbrev pub signed_payload : EnrollRequest → Text
signed_payload req = build_signed_payload req.challenge_id req.device_id action_enroll req.timestamp

abbrev verifying : EnrollRequest → M (Unit {0})
verifying req =
    on_error
      (verify_signature_for_algo req.key_algo req.public_key_pem (signed_payload req) req.signature)
      (λ _.
        reporting (entry req.user_id req.device_id AuditAction.biometric_failed AuditResult.failure)
          signature_invalid)

abbrev validating : EnrollRequest → M (Unit {0})
validating req =
    validate_public_key_format req.public_key_pem req.key_algo >> (verifying req >> enabling req)

abbrev checking : EnrollRequest → M (Unit {0})
checking req = check_timestamp_drift req.timestamp >> validating req

abbrev consuming : EnrollRequest → M (Unit {0})
consuming req = consume_challenge req.challenge_id req.device_id action_enroll >> checking req

enroll_ok :
    (req : EnrollRequest) (env : Env) (w : World) {u : Unit {0}} {w' : World}
    → enroll req env w ≡ (ok u, w')
    → ((req.is_rooted || req.is_jailbroken) ≡ false) × (consuming req env w ≡ (ok u, w'))
unfolding enroll
enroll_ok req env w h =
    reject_rooted_ok (consuming req) req.user_id req.device_id (req.is_rooted || req.is_jailbroken)
      env w h

-- The device of the user that an enrolment found, and what it wrote.
pub record Enabled (device_id user_id : Text) (params : EnableBiometricParams) (w w' : World)
    : Type 0 where
  pub device : Device
  pub time : ℕ
  pub found : Store.get device_id w.db.devices ≡ some device
  pub own_device : device.user_id ≡ user_id
  pub written : w'.db ≡ record w.db {
    devices = Store.put device.id (scored (enrolled device params time)) w.db.devices;
  }

enable_biometric_ok :
    (device_id user_id : Text) (params : EnableBiometricParams) (env : Env) (w : World)
    {u : Unit {0}} {w' : World}
    → enable_biometric device_id user_id params env w ≡ (ok u, w')
    → Enabled device_id user_id params w w'
unfolding enable_biometric
enable_biometric_ok device_id user_id params env w h =
    elim (Option-cases (Store.get device_id w.db.devices)) [
      | inl missing ↦ absurd (ground arith)
      | inr (d, found) ↦ record {
        device = d;
        time = env.clock w.reads;
        found = found;
        own_device = (text_eq_iff d.user_id user_id).0 (ground arith);
        written = ground arith;
      }
    ]

-- The time and the signature behind an enrolment, before the device is enabled.
record Checked (req : EnrollRequest) (env : Env) (w : World) (u : Unit {0}) (w' : World)
    : Type 0 where
  pub before_signature : World
  pub before_enabling : World
  pub on_time : drift_ok (env.clock w.reads) req.timestamp ≡ true
  pub signed :
      (verify_signature_for_algo req.key_algo req.public_key_pem
        (signed_payload req)
        req.signature
        env
        before_signature).0
      ≡ ok tt
  pub kept : before_enabling.db ≡ w.db
  pub enabled : enabling req env before_enabling ≡ (ok u, w')

checking_ok :
    (req : EnrollRequest) (env : Env) (w : World) {u : Unit {0}} {w' : World}
    → checking req env w ≡ (ok u, w')
    → Checked req env w u w'
unfolding check_timestamp_drift
checking_ok req env w h =
    let algo = req.key_algo in
    let pem = req.public_key_pem in
    let t = bind_ok (check_timestamp_drift req.timestamp) (λ _. validating req) env w h in
    let v =
      bind_ok (validate_public_key_format pem algo) (λ _. verifying req >> enabling req) env
        t.between t.second in
    let s = bind_ok (verifying req) (λ _. enabling req) env v.between v.second in
    let verify = verify_signature_for_algo algo pem (signed_payload req) req.signature in
    let verified =
      reported_ok verify
        (entry req.user_id req.device_id AuditAction.biometric_failed AuditResult.failure)
        (λ _. signature_invalid) env v.between s.first in
    record {
      before_signature = v.between;
      before_enabling = s.between;
      on_time =
          (guard_ok (drift_ok (env.clock w.reads) req.timestamp) timestamp_drift env (tick w)
            t.first).0;
      signed = ap (λ p. p.0) verified;
      kept =
          ap (λ p. p.1.db) (sym verified)
          ∙ (verify_signature_for_algo-KeepsDb algo pem (signed_payload req) req.signature).apply
              env v.between
          ∙ ap (λ p. p.1.db) (sym v.first)
          ∙ (validate_public_key_format-KeepsDb pem algo).apply env t.between
          ∙ ap (λ p. p.1.db) (sym t.first)
          ∙ (check_timestamp_drift-KeepsDb req.timestamp).apply env w;
      enabled = s.second;
    }

-- The time, the challenge and the signature behind an enrolment, and the device afterwards.
pub record Enrolled (req : EnrollRequest) (env : Env) (w w' : World) : Type 0 where
  pub after_challenge : World
  pub before_signature : World
  pub device : Device
  pub time : ℕ
  pub intact : (req.is_rooted || req.is_jailbroken) ≡ false
  pub consumed : Consumed req.challenge_id req.device_id action_enroll env w after_challenge
  pub on_time : drift_ok (env.clock after_challenge.reads) req.timestamp ≡ true
  pub signed :
      (verify_signature_for_algo req.key_algo req.public_key_pem
        (signed_payload req)
        req.signature
        env
        before_signature).0
      ≡ ok tt
  pub found : Store.get req.device_id w.db.devices ≡ some device
  pub own_device : device.user_id ≡ req.user_id
  pub stored :
      Store.get req.device_id w'.db.devices ≡ some (scored (enrolled device (params_of req) time))

-- An enrolment that succeeds comes from a device that does not say it is rooted or jailbroken; it
-- consumed an unused challenge of that device for an enrolment, in time and sealed; its time is
-- within the drift, and the enrolled key itself verifies its signature of the challenge's id, the
-- device, the word enroll and the time, in which the nonce of the challenge has no part; and the
-- device, which is the user's, is stored with the key and enabled for biometric logins. Every stored
-- device lies under its own id.
pub enroll-Enrolled :
    (req : EnrollRequest) (env : Env) (w : World) {u : Unit {0}} {w' : World}
    → IsKeyed (λ d. d.id) w.db.devices
    → enroll req env w ≡ (ok u, w')
    → Enrolled req env w w'
enroll-Enrolled req env w {u} {w'} keyed h =
    let (whole, h₁) = enroll_ok req env w h in
    let c =
      bind_ok (consume_challenge req.challenge_id req.device_id action_enroll) (λ _. checking req)
        env w h₁ in
    let done =
      consume_challenge-Consumed req.challenge_id req.device_id action_enroll env w c.first in
    let k = checking_ok req env c.between c.second in
    let l = entry req.user_id req.device_id AuditAction.biometric_enroll AuditResult.success in
    let e =
      bind_ok (enable_biometric req.device_id req.user_id (params_of req)) (λ _. audit l) env
        k.before_enabling k.enabled in
    let on =
      enable_biometric_ok req.device_id req.user_id (params_of req) env k.before_enabling e.first in
    let devices : k.before_enabling.db.devices ≡ w.db.devices =
      ap (λ db. db.devices) k.kept ∙ ap (λ x. x.db.devices) done.written in
    let there : Store.get req.device_id w.db.devices ≡ some on.device =
      ap (Store.get req.device_id) (sym devices) ∙ on.found in
    let d = scored (enrolled on.device (params_of req) on.time) in
    let key : on.device.id ≡ req.device_id = keyed req.device_id on.device there in
    record {
      after_challenge = c.between;
      before_signature = k.before_signature;
      device = on.device;
      time = on.time;
      intact = whole;
      consumed = done;
      on_time = k.on_time;
      signed = k.signed;
      found = there;
      own_device = on.own_device;
      stored =
          ap (λ p. Store.get req.device_id p.1.db.devices) (sym e.second)
          ∙ ap (λ db. Store.get req.device_id db.devices) (audit-db l env e.between ∙ on.written)
          ∙ Store.get-put on.device.id req.device_id d k.before_enabling.db.devices
          ∙ rw ((text_eq_iff on.device.id req.device_id).1 key);
    }
