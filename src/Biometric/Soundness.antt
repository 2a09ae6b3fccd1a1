-- ===== src/Biometric/Soundness.antt =====
-- What a successful biometric login rests on.
use dift_backend_auth.Base.{
  ◌≡◌, refl, sym, ap, ◌∙◌, true, false, Bool, Option, none, some, Text, ◌||◌, is_empty, text_eq_iff,
  arith,
}
use dift_backend_auth.Store
use dift_backend_auth.Domain.{
  Device, DeviceStatus, AuditLog, AuditAction, AuditResult, action_authenticate,
}
use dift_backend_auth.Base.Int.{ℤ}
use dift_backend_auth.Runtime.Frame.{
  Within, KeepsDb, SameChallenges, SameChallenges-IsFrame, KeepsDb-SameChallenges, frame_rules,
  db_rules,
}
use dift_backend_auth.Runtime.{
  PublicKey, ecdsa, rsa, other, Env, World, ok, Error, M, on_error, ◌>>=◌, ◌>>◌, fail,
  rooted_device, timestamp_drift, signature_invalid,
}
use dift_backend_auth.Runtime.Inversion.{Steps, bind_ok, guard_ok, on_error_ok}
use dift_backend_auth.Token.Signing.{tick}
use dift_backend_auth.Audit.{entry, audit, audit-ok, audit-KeepsDb}
use dift_backend_auth.Device.{get_device, update_last_seen}
use dift_backend_auth.Drift.{drift_ok}
use dift_backend_auth.Crypto.{
  build_signed_payload, verify_signature_for_algo, parse_key, as_ecdsa, as_rsa,
  parse_ecdsa_public_key, parse_rsa_public_key, verify_ecdsa_signature, verify_rsa_signature,
}
use dift_backend_auth.Biometric.{
  in_time, check_signature, accept, reporting, verify_login, reject_rooted, enrolled_device,
  AuthenticateRequest, AuthenticateResult, authenticate, consume_challenge, check_timestamp_drift,
}
use dift_backend_auth.Biometric.Consumption.{Consumed, consume_challenge-Consumed}

pub check_timestamp_drift-KeepsDb : (ts : ℤ) → KeepsDb (check_timestamp_drift ts)
unfolding check_timestamp_drift
check_timestamp_drift-KeepsDb ts = search db_rules

update_last_seen-SameChallenges : (id : Text) → Within SameChallenges (update_last_seen id)
unfolding update_last_seen
update_last_seen-SameChallenges id = record { apply = λ env w. ground arith }

pub as_key-KeepsDb : (k : PublicKey) → KeepsDb (as_ecdsa k) × KeepsDb (as_rsa k)
as_key-KeepsDb (ecdsa p256 key) = (search db_rules, search db_rules)
as_key-KeepsDb (rsa bits key) = (search db_rules, search db_rules)
as_key-KeepsDb other = (search db_rules, search db_rules)

pub verify_signature_for_algo-KeepsDb :
    (algo pem payload sig : Text) → KeepsDb (verify_signature_for_algo algo pem payload sig)
unfolding verify_signature_for_algo parse_ecdsa_public_key parse_rsa_public_key parse_key
    verify_ecdsa_signature verify_rsa_signature
verify_signature_for_algo-KeepsDb algo pem payload sig =
    search
      (db_rules, λ (k : PublicKey). (as_key-KeepsDb k).0, λ (k : PublicKey). (as_key-KeepsDb k).1)
      depth 12

verify_login-SameChallenges :
    (req : AuthenticateRequest) (d : Device) → Within SameChallenges (verify_login req d)
unfolding verify_login
verify_login-SameChallenges req d =
    search
      (
        frame_rules, SameChallenges-IsFrame, KeepsDb-SameChallenges, check_timestamp_drift-KeepsDb,
        verify_signature_for_algo-KeepsDb, update_last_seen-SameChallenges, audit-KeepsDb,
      )
      depth 12

pub reject_rooted_ok :
    {A : Type 0} (m : M A) (u d : Text) (b : Bool) (env : Env) (w : World) {a : A} {w' : World}
    → (reject_rooted u d b >> m) env w ≡ (ok a, w')
    → (b ≡ false) × (m env w ≡ (ok a, w'))
reject_rooted_ok m u d true env w h =
    let done = bind_ok (reject_rooted u d true) (λ _. m) env w h in
    let e =
      bind_ok (audit (entry u d AuditAction.rooted_device AuditResult.blocked))
        (λ _. fail rooted_device) env w done.first in
    absurd (ground (arith, e.second))
reject_rooted_ok m u d false env w h = (refl, h)

-- The device behind a login.
pub record Enrolled (user_id : Text) (o : Option Device) : Type 0 where
  pub device : Device
  pub found : o ≡ some device
  pub own_device : device.user_id ≡ user_id
  pub active : device.status ≡ DeviceStatus.active
  pub enabled : device.biometric_enabled ≡ true
  pub has_key : is_empty device.public_key ≡ false

enrolled_device_ok :
    (user_id : Text) (o : Option Device) (env : Env) (w : World) {d : Device} {w' : World}
    → enrolled_device user_id o env w ≡ (ok d, w')
    → (e : Enrolled user_id o) × (e.device ≡ d) × (w' ≡ w)
enrolled_device_ok user_id none env w h = absurd (ground arith)
enrolled_device_ok user_id (some d) env w h = (
  record {
    device = d;
    found = refl;
    own_device = (text_eq_iff d.user_id user_id).0 (ground arith);
    active = ground arith;
    enabled = ground arith;
    has_key = ground arith;
  },
  ground arith,
  ground arith,
)

-- A step that reports its failure went through as the step itself.
pub reported_ok :
    (m : M (Unit {0})) (l : AuditLog) (f : Error → Error) (env : Env) (w : World) {u : Unit {0}}
    {w' : World}
    → on_error m (λ e. reporting l (f e)) env w ≡ (ok u, w')
    → m env w ≡ (ok u, w')
reported_ok m l f env w h =
    on_error_ok m (λ e. reporting l (f e)) env w (λ e v x h'. ground (arith, audit-ok l env v)) h

-- The time and the signature behind a login.
pub record Verified (req : AuthenticateRequest) (d : Device) (env : Env) (w : World) : Type 0 where
  pub after_drift : World
  pub on_time : drift_ok (env.clock w.reads) req.timestamp ≡ true
  pub signed :
      (verify_signature_for_algo env.cfg.signature_algo d.public_key
        (build_signed_payload req.nonce req.device_id action_authenticate req.timestamp)
        req.signature
        env
        after_drift).0
      ≡ ok tt

verify_login_ok :
    (req : AuthenticateRequest) (d : Device) (env : Env) (w : World) {r : AuthenticateResult}
    {w' : World}
    → verify_login req d env w ≡ (ok r, w')
    → Verified req d env w
unfolding verify_login check_timestamp_drift
verify_login_ok req d env w h =
    let a = bind_ok (in_time req) (λ _. check_signature req d env >> accept req) env w h in
    let drift =
      reported_ok (check_timestamp_drift req.timestamp)
        (entry req.user_id req.device_id AuditAction.replay_detected AuditResult.blocked) (λ e. e)
        env w a.first in
    let b = bind_ok (check_signature req d env) (λ _. accept req) env a.between a.second in
    let sig =
      reported_ok
        (verify_signature_for_algo env.cfg.signature_algo d.public_key
          (build_signed_payload req.nonce req.device_id action_authenticate req.timestamp)
          req.signature)
        (entry req.user_id req.device_id AuditAction.biometric_failed AuditResult.failure)
        (λ _. signature_invalid) env a.between b.first in
    record {
      after_drift = a.between;
      on_time =
          (guard_ok (drift_ok (env.clock w.reads) req.timestamp) timestamp_drift env (tick w)
            drift).0;
      signed = ap (λ p. p.0) sig;
    }

-- What follows once the device is found.
abbrev after_device : AuthenticateRequest → Device → M AuthenticateResult
after_device req d =
    consume_challenge req.challenge_id req.device_id action_authenticate >> verify_login req d

authenticate_ok :
    (req : AuthenticateRequest) (env : Env) (w : World) {r : AuthenticateResult} {w' : World}
    → authenticate req env w ≡ (ok r, w')
    → ((req.is_rooted || req.is_jailbroken) ≡ false)
      × Steps
          (enrolled_device req.user_id (Store.get req.device_id w.db.devices))
          (after_device req)
          env
          w
          r
          w'
unfolding authenticate get_device
authenticate_ok req env w h =
    let (whole, rest) =
      reject_rooted_ok
        (get_device req.device_id >>= λ o. enrolled_device req.user_id o >>= after_device req)
        req.user_id req.device_id (req.is_rooted || req.is_jailbroken) env w h in
    (
      whole,
      bind_ok (enrolled_device req.user_id (Store.get req.device_id w.db.devices))
          (after_device req) env w rest,
    )

-- The device, the challenge, the time and the signature behind a login.
pub record Authenticated (req : AuthenticateRequest) (env : Env) (w : World) (w' : World)
    : Type 0 where
  pub after_challenge : World
  pub intact : (req.is_rooted || req.is_jailbroken) ≡ false
  pub enrolment : Enrolled req.user_id (Store.get req.device_id w.db.devices)
  pub consumed : Consumed req.challenge_id req.device_id action_authenticate env w after_challenge
  pub verified : Verified req enrolment.device env after_challenge
  pub kept : w'.db.challenges ≡ after_challenge.db.challenges

-- A login that succeeds comes from a device that does not say it is rooted or jailbroken, that is
-- the user's, active and enrolled with a key; it consumed a challenge of that device for a login,
-- unused, in time and sealed; its time is within the drift, and the device's key verifies its
-- signature.
pub authenticate-Authenticated :
    (req : AuthenticateRequest) (env : Env) (w : World) {r : AuthenticateResult} {w' : World}
    → authenticate req env w ≡ (ok r, w')
    → Authenticated req env w w'
authenticate-Authenticated req env w {r} {w'} h =
    let (whole, s) = authenticate_ok req env w h in
    let (e, one, still) =
      enrolled_device_ok req.user_id (Store.get req.device_id w.db.devices) env w s.first in
    let rest : after_device req e.device env w ≡ (ok r, w') = rw (one, ← still) s.second in
    let c =
      bind_ok (consume_challenge req.challenge_id req.device_id action_authenticate)
        (λ _. verify_login req e.device) env w rest in
    record {
      after_challenge = c.between;
      intact = whole;
      enrolment = e;
      consumed =
          consume_challenge-Consumed req.challenge_id req.device_id action_authenticate env w
            c.first;
      verified = verify_login_ok req e.device env c.between c.second;
      kept =
          ap (λ p. p.1.db.challenges) (sym c.second)
          ∙ (verify_login-SameChallenges req e.device).apply env c.between;
    }
