-- ===== src/Token/Signing.antt =====
-- What `verify` returns, as a function of the token and one reading of the clock.
use dift_backend_auth.Base.{
  suc, ◌≡◌, refl, Bool, Option, none, some, List, [], ◌∷◌, ◌++◌, Text, text_eq, if◌then◌else◌,
  arith,
}
use dift_backend_auth.Base.Int.{pos, ltb_ℤ}
use dift_backend_auth.Encoding.{split}
use dift_backend_auth.Encoding.Base64
use dift_backend_auth.Encoding.Base64.{url}
use dift_backend_auth.Domain.{TokenPayload}
use dift_backend_auth.Runtime.{Env, World, Outcome, ok, err, token_invalid, token_expired}
use dift_backend_auth.Crypto.{unix}
use dift_backend_auth.Token.{verify, verify_parts}

-- The signed payload of a token, whatever the time.
unfoldable pub payload_of_parts : Env → Text → List Text → Option TokenPayload
payload_of_parts env secret (head64 ∷ payload64 ∷ sig64 ∷ []) = elim (Base64.decode url sig64) [
  | none ↦ none
  | some sig ↦
      if text_eq sig (env.hmac_sha256 secret (head64 ++ (b'.' ∷ payload64)))
      then elim (Base64.decode url payload64) [ none ↦ none | some json ↦ env.json_unmarshal json ]
      else none
]
payload_of_parts env secret _ = none

unfoldable pub payload_of : Env → Text → Text → Option TokenPayload
unfolding payload_of_parts
payload_of env token secret = payload_of_parts env secret (split b'.' token)

abbrev pub tick : World → World
tick w = record w { reads = suc w.reads }

-- Whether the payload has expired at the next reading of the clock.
abbrev pub is_expired : Env → World → TokenPayload → Bool
is_expired env w p = ltb_ℤ p.exp (pos (unix (env.clock w.reads)))

-- The result of `verify` for a token with this payload.
abbrev pub timed : Env → World → Option TokenPayload → Outcome TokenPayload × World
timed env w none = (err token_invalid, w)
timed env w (some p) = (if is_expired env w p then err token_expired else ok p, tick w)

verify_parts-timed :
    (env : Env) (secret : Text) (parts : List Text) (w : World)
    → verify_parts secret parts env w ≡ timed env w (payload_of_parts env secret parts)
unfolding verify_parts payload_of_parts
verify_parts-timed env secret [] w = refl
verify_parts-timed env secret (a ∷ []) w = refl
verify_parts-timed env secret (a ∷ b ∷ []) w = refl
verify_parts-timed env secret (a ∷ b ∷ c ∷ []) w = ground arith
verify_parts-timed env secret (a ∷ b ∷ c ∷ d ∷ r) w = refl

pub verify-timed :
    (env : Env) (token secret : Text) (w : World)
    → verify token secret env w ≡ timed env w (payload_of env token secret)
unfolding verify payload_of
verify-timed env token secret w = verify_parts-timed env secret (split b'.' token) w
