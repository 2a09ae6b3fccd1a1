-- ===== src/Token/Issuing.antt =====
-- Issuing tokens touches no repository, and what is issued verifies.
use dift_backend_auth.Base.{
  ℕ, ◌<◌, ◌/◌, ◌%◌, ◌≡◌, ◌∙◌, ap, [], ◌∷◌, ◌++◌, some, Text, arith, Option-cases, inl, inr,
  text_eq_refl,
}
use dift_backend_auth.Domain.{TokenPayload, TokenClaims, token_type_access, token_type_refresh}
use dift_backend_auth.Runtime.{Env, World, Outcome, ok, err, panic, read_random}
use dift_backend_auth.Runtime.Frame.{KeepsDb, db_rules}
use dift_backend_auth.Encoding.{split, hex_encode, hex_digit}
use dift_backend_auth.Encoding.Parts.{IsFree, split_one, split_more}
use dift_backend_auth.Encoding.Base64
use dift_backend_auth.Encoding.Base64.{url}
use dift_backend_auth.Encoding.Base64.RoundTrip.{AreBytes, ArePlain, encode-ArePlain, decode-encode}
use mathlib.Core.List.{append_assoc}
use dift_backend_auth.Crypto.{secure_hex}
use dift_backend_auth.Crypto.Assumed.{IsAscii, IsDocumented, IsAsciiPayload}
use dift_backend_auth.Token.Signing.{tick, payload_of, payload_of_parts}
use dift_backend_auth.Token.{header, pair_payload, sign, issue_token_pair, issue_step_up_token}

sign-KeepsDb : (p : TokenPayload) (secret : Text) → KeepsDb (sign p secret)
unfolding sign
sign-KeepsDb p secret = search db_rules

pub secure_hex-KeepsDb : (n : ℕ) → KeepsDb (secure_hex n)
unfolding secure_hex
secure_hex-KeepsDb n = search db_rules

pub issue_token_pair-KeepsDb :
    (user_id device_id session_id family : Text)
    → KeepsDb (issue_token_pair user_id device_id session_id family)
unfolding issue_token_pair
issue_token_pair-KeepsDb user_id device_id session_id family =
    search (db_rules, sign-KeepsDb, secure_hex-KeepsDb) depth 12

pub issue_step_up_token-KeepsDb : (c : TokenClaims) → KeepsDb (issue_step_up_token c)
unfolding issue_step_up_token
issue_step_up_token-KeepsDb c = search (db_rules, sign-KeepsDb, secure_hex-KeepsDb) depth 12

ArePlain-IsFree_dot : (t : Text) → ArePlain t → IsFree b'.' t
ArePlain-IsFree_dot [] h = tt
ArePlain-IsFree_dot (c ∷ cs) h = (h.0.0, ArePlain-IsFree_dot cs h.1)

header-IsFree : IsFree b'.' header
unfolding Base64.encode
header-IsFree = omega arith

-- The parts of a token that is put together from a payload and a seal.
split-token :
    (payload64 sig64 : Text)
    → IsFree b'.' payload64
    → IsFree b'.' sig64
    → split b'.' ((header ++ (b'.' ∷ payload64)) ++ (b'.' ∷ sig64))
      ≡ header ∷ payload64 ∷ sig64 ∷ []
split-token payload64 sig64 h k = rw append_assoc (
    split_more b'.' header _ header-IsFree
    ∙ ap (◌∷◌ header)
        (split_more b'.' payload64 sig64 h ∙ ap (◌∷◌ payload64) (split_one b'.' sig64 k)))

-- A signed payload is read back from the token under the same secret.
pub sign-payload_of :
    (env : Env) (p : TokenPayload) (secret : Text) (w : World) {t : Text} {w' : World}
    → IsDocumented env
    → IsAsciiPayload p
    → sign p secret env w ≡ (ok t, w')
    → payload_of env t secret ≡ some p
unfolding sign payload_of payload_of_parts
sign-payload_of env p secret w {t} d ascii h = elim (Option-cases (env.json_marshal p)) [
  | inl failed ↦ absurd (ground arith)
  | inr (json, marshalled) ↦
      let payload64 = Base64.encode url json in
      let mac = env.hmac_sha256 secret (header ++ (b'.' ∷ payload64)) in
      let sig64 = Base64.encode url mac in
      let bytes : AreBytes json = d.marshal_bytes p json marshalled in
      let formed : t ≡ (header ++ (b'.' ∷ payload64)) ++ (b'.' ∷ sig64) = ground arith in
      rw (
        formed,
        split-token payload64 sig64 (ArePlain-IsFree_dot _ (encode-ArePlain url json bytes))
            (ArePlain-IsFree_dot _ (encode-ArePlain url mac (d.hmac_bytes _ _))),
        decode-encode url mac (d.hmac_bytes _ _),
        text_eq_refl,
        decode-encode url json bytes,
        d.unmarshal_marshal p json ascii marshalled,
        payload_of_parts,
      )
]

-- The text that a call returned.
abbrev pub text_of : Outcome Text → Text
text_of (ok t) = t
text_of (err e) = []
text_of panic = []

hex_digit-lt : (v : ℕ) → v < 16 → hex_digit v < 128
hex_digit-lt v h = ground arith

hex_encode-IsAscii : (b : Text) → AreBytes b → IsAscii (hex_encode b)
unfolding hex_encode
hex_encode-IsAscii [] h = tt
hex_encode-IsAscii (x ∷ b) h = (
  hex_digit-lt (x / 16) (omega arith),
  (hex_digit-lt (x % 16) (omega arith), hex_encode-IsAscii b h.1),
)

pub secure_hex-IsAscii :
    (env : Env) (n : ℕ) (w : World) → IsDocumented env → IsAscii (text_of (secure_hex n env w).0)
unfolding secure_hex
secure_hex-IsAscii env n w d = elim (Option-cases (env.random w.draws n)) [
  | inl failed ↦ rw (failed, read_random) tt
  | inr (b, drawn) ↦ rw (drawn, read_random) (hex_encode-IsAscii b (d.random_bytes _ _ b drawn))
]

-- What a pair that was issued consists of.
pub record Issued (user_id device_id session_id family : Text) (env : Env) (w : World) (a r : Text)
    (w' : World) : Type 0 where
  pub jti_access : Text
  pub jti_refresh : Text
  pub ascii_access : IsDocumented env → IsAscii jti_access
  pub ascii_refresh : IsDocumented env → IsAscii jti_refresh
  pub before_access : World
  pub before_refresh : World
  pub access :
      sign
        (pair_payload user_id device_id session_id family token_type_access
          (env.clock w.reads)
          env.cfg.access_token_ttl
          jti_access)
        env.cfg.access_token_secret
        env
        before_access
      ≡ (ok a, before_refresh)
  pub refresh :
      sign
        (pair_payload user_id device_id session_id family token_type_refresh
          (env.clock w.reads)
          env.cfg.refresh_token_ttl
          jti_refresh)
        env.cfg.refresh_token_secret
        env
        before_refresh
      ≡ (ok r, w')

pub issue_token_pair-Issued :
    (user_id device_id session_id family : Text) (env : Env) (w : World) {a r : Text} {w' : World}
    → issue_token_pair user_id device_id session_id family env w ≡ (ok (a, r), w')
    → Issued user_id device_id session_id family env w a r w'
unfolding issue_token_pair
issue_token_pair-Issued user_id device_id session_id family env w {a} {r} {w'} h =
    let h₁ = secure_hex 16 env (tick w) in
    let h₂ = secure_hex 16 env h₁.1 in
    let s =
      sign
        (pair_payload user_id device_id session_id family token_type_access (env.clock w.reads)
          env.cfg.access_token_ttl (text_of h₁.0))
        env.cfg.access_token_secret env h₂.1 in
    record {
      jti_access = text_of h₁.0;
      jti_refresh = text_of h₂.0;
      ascii_access = secure_hex-IsAscii env 16 (tick w);
      ascii_refresh = secure_hex-IsAscii env 16 h₁.1;
      before_access = h₂.1;
      before_refresh = s.1;
      access = ground arith;
      refresh = ground arith;
    }
