-- ===== src/Invariant/Steps.antt =====
-- The helpers of the services keep what the writes of the repositories keep.
use dift_backend_auth.Base.{ℕ, Text, Bool, true, false, Option, none, some, List, [], ◌∷◌}
use dift_backend_auth.Domain.{
  User, Device, Session, SessionStatus, Challenge, AuditLog, TokenPayload,
}
use dift_backend_auth.Runtime.{
  PublicKey, ecdsa, rsa, other, World, M, pure, fail, now, modify, token_revoked, challenge_used,
}
use dift_backend_auth.Runtime.Frame.{Within, frame_rules, bind-Within, now-Within}
use dift_backend_auth.Audit.{log, audit}
use dift_backend_auth.Crypto.{
  random_bytes, random_base64_url, random_hex, secure_hex, verify_signature_for_algo,
  validate_public_key_format, parse_key, as_ecdsa, as_rsa, parse_ecdsa_public_key,
  parse_rsa_public_key, verify_ecdsa_signature, verify_rsa_signature,
}
use dift_backend_auth.Encoding.{split}
use dift_backend_auth.Repository.Sessions
use dift_backend_auth.Repository.Devices
use dift_backend_auth.Repository.Challenges
use dift_backend_auth.Repository.Users
use dift_backend_auth.Repository.Users.{set_users}
use dift_backend_auth.Store
use dift_backend_auth.Token
use dift_backend_auth.Token.{sign, verify, issue_token_pair, active_session, revoke_found}
use dift_backend_auth.Device.{owned, see}
use dift_backend_auth.Biometric.{unused, enrolled_device, reject_rooted}
use dift_backend_auth.Auth.{refuse_locked}
use dift_backend_auth.Auth.Access.{some_session}
use dift_backend_auth.Invariant.{IsKept}

module _ {R : World → World → Type 0} (kept : IsKept R) where
  pub user_update-Within : (u : User) → Within R (Users.update u)
  unfolding Users.update
  user_update-Within u =
      bind-Within kept.frame now
        (λ t. modify (set_users (Store.put u.id (record u { updated_at = t }))))
        (now-Within kept.frame) (λ t. kept.user (record u { updated_at = t }))

  pub device_update-Within : (d : Device) → Within R (Devices.update d)
  unfolding Devices.update
  device_update-Within d = kept.device d

  pub device_store-Within : (d : Device) → Within R (Devices.store d)
  unfolding Devices.store
  device_store-Within d = kept.device d

  pub session_update-Within : (s : Session) → Within R (Sessions.update s)
  unfolding Sessions.update
  session_update-Within s = kept.session s

  pub session_store-Within : (s : Session) → Within R (Sessions.store s)
  unfolding Sessions.store
  session_store-Within s = kept.session s

  pub revoke_family-Within :
      (f : Text) (status : SessionStatus) → Within R (Sessions.revoke_family f status)
  unfolding Sessions.revoke_family
  revoke_family-Within f status = kept.family f status

  pub revoke_all_by_user-Within : (u : Text) → Within R (Sessions.revoke_all_by_user u)
  unfolding Sessions.revoke_all_by_user
  revoke_all_by_user-Within u = kept.of_user u

  pub challenge_store-Within : (c : Challenge) → Within R (Challenges.store c)
  unfolding Challenges.store
  challenge_store-Within c = kept.challenge c

  pub challenge_update-Within : (c : Challenge) → Within R (Challenges.update c)
  unfolding Challenges.update
  challenge_update-Within c = kept.challenge c

  pub secure_hex-Within : (n : ℕ) → Within R (secure_hex n)
  unfolding secure_hex
  secure_hex-Within n = search (frame_rules, kept.frame)

  pub random_base64_url-Within : (n : ℕ) → Within R (random_base64_url n)
  unfolding random_base64_url random_bytes
  random_base64_url-Within n = search (frame_rules, kept.frame)

  pub random_hex-Within : (n : ℕ) → Within R (random_hex n)
  unfolding random_hex random_bytes
  random_hex-Within n = search (frame_rules, kept.frame)

  pub audit-Within : (l : AuditLog) → Within R (audit l)
  unfolding audit log
  audit-Within l = search (frame_rules, kept.frame, kept.log) depth 12

  pub sign-Within : (p : TokenPayload) (secret : Text) → Within R (sign p secret)
  unfolding sign
  sign-Within p secret = search (frame_rules, kept.frame)

  verify_parts-Within :
      (secret : Text) (parts : List Text) → Within R (Token.verify_parts secret parts)
  unfolding Token.verify_parts
  verify_parts-Within secret [] = search (frame_rules, kept.frame)
  verify_parts-Within secret (a ∷ []) = search (frame_rules, kept.frame)
  verify_parts-Within secret (a ∷ b ∷ []) = search (frame_rules, kept.frame)
  verify_parts-Within secret (a ∷ b ∷ c ∷ []) = search (frame_rules, kept.frame) depth 20
  verify_parts-Within secret (a ∷ b ∷ c ∷ d ∷ r) = search (frame_rules, kept.frame)

  pub verify-Within : (token secret : Text) → Within R (verify token secret)
  unfolding verify
  verify-Within token secret = verify_parts-Within secret (split b'.' token)

  pub issue_token_pair-Within :
      (user_id device_id session_id family : Text)
      → Within R (issue_token_pair user_id device_id session_id family)
  unfolding issue_token_pair
  issue_token_pair-Within user_id device_id session_id family =
      search (frame_rules, kept.frame, sign-Within, secure_hex-Within) depth 12

  by_status-Within :
      (s : Session) (st : SessionStatus)
      → Within R
          (elim st as (λ _. M Session) [ SessionStatus.active ↦ pure s | _ ↦ fail token_revoked ])
  by_status-Within s SessionStatus.active = search (frame_rules, kept.frame)
  by_status-Within s SessionStatus.revoked = search (frame_rules, kept.frame)
  by_status-Within s SessionStatus.expired = search (frame_rules, kept.frame)
  by_status-Within s SessionStatus.replayed = search (frame_rules, kept.frame)

  pub active_session-Within : (o : Option Session) → Within R (active_session o)
  active_session-Within none = search (frame_rules, kept.frame)
  active_session-Within (some s) = by_status-Within s s.status

  pub revoke_found-Within : (o : Option Session) → Within R (revoke_found o)
  revoke_found-Within none = search (frame_rules, kept.frame)
  revoke_found-Within (some s) = session_update-Within (record s { status = SessionStatus.revoked })

  pub owned-Within : (u : Text) (o : Option Device) → Within R (owned u o)
  owned-Within u none = search (frame_rules, kept.frame)
  owned-Within u (some d) = search (frame_rules, kept.frame)

  pub see-Within : (o : Option Device) → Within R (see o)
  see-Within none = search (frame_rules, kept.frame)
  see-Within (some d) = search (frame_rules, kept.frame, device_update-Within)

  by_use-Within :
      (c : Challenge) (used : Option ℕ)
      → Within R (elim used as (λ _. M Challenge) [ none ↦ pure c | some t ↦ fail challenge_used ])
  by_use-Within c none = search (frame_rules, kept.frame)
  by_use-Within c (some t) = search (frame_rules, kept.frame)

  pub unused-Within : (o : Option Challenge) → Within R (unused o)
  unused-Within none = search (frame_rules, kept.frame)
  unused-Within (some c) = by_use-Within c c.used_at

  pub enrolled_device-Within : (u : Text) (o : Option Device) → Within R (enrolled_device u o)
  enrolled_device-Within u none = search (frame_rules, kept.frame)
  enrolled_device-Within u (some d) = search (frame_rules, kept.frame) depth 12

  pub reject_rooted-Within : (u d : Text) (b : Bool) → Within R (reject_rooted u d b)
  reject_rooted-Within u d true = search (frame_rules, kept.frame, audit-Within)
  reject_rooted-Within u d false = search (frame_rules, kept.frame)

  pub refuse_locked-Within : (o : Option ℕ) → Within R (refuse_locked o)
  refuse_locked-Within none = search (frame_rules, kept.frame)
  refuse_locked-Within (some t) = search (frame_rules, kept.frame)

  pub some_session-Within : (o : Option Session) → Within R (some_session o)
  some_session-Within none = search (frame_rules, kept.frame)
  some_session-Within (some s) = search (frame_rules, kept.frame)

  as_ecdsa-Within : (k : PublicKey) → Within R (as_ecdsa k)
  as_ecdsa-Within (ecdsa p256 key) = search (frame_rules, kept.frame)
  as_ecdsa-Within (rsa bits key) = search (frame_rules, kept.frame)
  as_ecdsa-Within other = search (frame_rules, kept.frame)

  as_rsa-Within : (k : PublicKey) → Within R (as_rsa k)
  as_rsa-Within (ecdsa p256 key) = search (frame_rules, kept.frame)
  as_rsa-Within (rsa bits key) = search (frame_rules, kept.frame)
  as_rsa-Within other = search (frame_rules, kept.frame)

  pub verify_signature_for_algo-Within :
      (algo pem payload sig : Text) → Within R (verify_signature_for_algo algo pem payload sig)
  unfolding verify_signature_for_algo parse_ecdsa_public_key parse_rsa_public_key parse_key
      verify_ecdsa_signature verify_rsa_signature
  verify_signature_for_algo-Within algo pem payload sig =
      search (frame_rules, kept.frame, as_ecdsa-Within, as_rsa-Within) depth 12

  pub validate_public_key_format-Within :
      (pem algo : Text) → Within R (validate_public_key_format pem algo)
  unfolding validate_public_key_format parse_ecdsa_public_key parse_rsa_public_key parse_key
  validate_public_key_format-Within pem algo =
      search (frame_rules, kept.frame, as_ecdsa-Within, as_rsa-Within) depth 12
