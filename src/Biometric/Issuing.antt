-- ===== src/Biometric/Issuing.antt =====
-- A challenge that was issued can be used.
use dift_backend_auth.Base.{
  ℕ, suc, ◌+◌, ◌≤◌, ◌≡◌, refl, ap, ◌∙◌, true, none, some, Text, text_eq_refl, arith, Option-cases,
  inl, inr,
}
use dift_backend_auth.Encoding.{hex_encode}
use dift_backend_auth.Encoding.Base64
use dift_backend_auth.Encoding.Base64.{url}
use dift_backend_auth.Encoding.Base64.RoundTrip.{decode-encode}
use dift_backend_auth.Store
use dift_backend_auth.Domain.{Challenge}
use dift_backend_auth.Runtime.{Env, World, ok}
use dift_backend_auth.Crypto.{
  hmac_challenge, verify_hmac_challenge, challenge_message, random_base64_url, random_hex,
  random_bytes,
}
use dift_backend_auth.Crypto.Assumed.{IsDocumented}
use dift_backend_auth.Biometric.{
  ChallengeRequest, ChallengeResponse, get_challenge, consume_challenge, is_sealed,
}

-- A seal verifies with what it was made of.
pub verify_hmac_challenge-hmac_challenge :
    (env : Env) (nonce device_id action : Text) (expiry : ℕ)
    → IsDocumented env
    → verify_hmac_challenge env nonce device_id action expiry
        (hmac_challenge env nonce device_id action expiry)
      ≡ true
unfolding verify_hmac_challenge hmac_challenge
verify_hmac_challenge-hmac_challenge env nonce device_id action expiry d =
    let m =
      env.hmac_sha256 env.cfg.challenge_secret (challenge_message nonce device_id action expiry) in
    ground (arith, decode-encode url m (d.hmac_bytes _ _), text_eq_refl m)

-- The challenge that a response speaks of.
abbrev pub issued_challenge : ChallengeRequest → ChallengeResponse → ℕ → Challenge
issued_challenge req r created = record {
  id = r.challenge_id;
  nonce = r.nonce;
  user_id = req.user_id;
  device_id = req.device_id;
  action = req.action;
  hmac = r.hmac;
  expires_at = r.expires_at;
  used_at = none;
  created_at = created;
}

get_challenge-stored :
    (env : Env) (w : World) (req : ChallengeRequest) {r : ChallengeResponse} {w' : World}
    → get_challenge req env w ≡ (ok r, w')
    → (created : ℕ) × (Store.get r.challenge_id w'.db.challenges
        ≡ some (issued_challenge req r created))
      × (r.hmac ≡ hmac_challenge env r.nonce req.device_id req.action r.expires_at)
      × (r.expires_at ≡ env.clock w.reads + env.cfg.challenge_ttl)
unfolding get_challenge random_base64_url random_hex random_bytes
get_challenge-stored env w req {r} {w'} h = elim (Option-cases (env.random w.draws 32)) [
  | inl failed ↦ absurd (ground arith)
  | inr (n, drawn) ↦ elim (Option-cases (env.random (suc w.draws) 16)) [
    | inl failed ↦ absurd (ground arith)
    | inr (i, drawn') ↦
        let e = env.clock w.reads + env.cfg.challenge_ttl in
        let nonce = Base64.encode url n in
        let r' : ChallengeResponse = record {
          challenge_id = hex_encode i;
          nonce = nonce;
          expires_at = e;
          hmac = hmac_challenge env nonce req.device_id req.action e;
        } in
        let c = issued_challenge req r' (env.clock (suc w.reads)) in
        let result : r ≡ r' = ground arith in
        let written : w'.db.challenges ≡ Store.put c.id c w.db.challenges = ground arith in
        (
          env.clock (suc w.reads),
          rw (result, written) (Store.get-put_self c.id c w.db.challenges),
          rw result refl,
          rw result refl,
        )
  ]
]

consume_challenge-ready :
    (env : Env) (v : World) (id : Text) (c : Challenge)
    → Store.get id v.db.challenges ≡ some c
    → c.used_at ≡ none
    → env.clock v.reads ≤ c.expires_at
    → is_sealed env c ≡ true
    → (consume_challenge id c.device_id c.action env v).0 ≡ ok tt
unfolding consume_challenge
consume_challenge-ready env v id c found fresh early sealed =
    ground (arith, text_eq_refl c.device_id, text_eq_refl c.action)

-- A challenge that was issued for a device and an action is consumed for that device and action
-- until its time to live has passed, while the challenges are as its issue left them.
pub get_challenge-consume_challenge :
    (env : Env) (w v : World) (req : ChallengeRequest) {r : ChallengeResponse} {w' : World}
    → IsDocumented env
    → get_challenge req env w ≡ (ok r, w')
    → v.db.challenges ≡ w'.db.challenges
    → env.clock v.reads ≤ env.clock w.reads + env.cfg.challenge_ttl
    → (consume_challenge r.challenge_id req.device_id req.action env v).0 ≡ ok tt
get_challenge-consume_challenge env w v req {r} d h same early =
    let (created, there, sealed, expiry) = get_challenge-stored env w req h in
    consume_challenge-ready env v r.challenge_id (issued_challenge req r created)
      (ap (Store.get r.challenge_id) same ∙ there) refl (rw expiry early)
      (rw sealed
        (verify_hmac_challenge-hmac_challenge env r.nonce req.device_id req.action r.expires_at d))
