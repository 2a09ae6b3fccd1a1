-- ===== src/Tests/Samples.antt =====
-- A small environment that behaves as the theorems assume, and states to start from.
use dift_backend_auth.Base.{
  ℕ, zero, suc, ◌+◌, ◌*◌, ◌%◌, ◌≡◌, refl, ap, true, some, [], ◌∷◌, length, Text, codes, text_eq,
  arith,
}
use dift_backend_auth.Encoding.Base64.RoundTrip.{AreBytes}
use dift_backend_auth.Runtime.{Config, ecdsa, Env, Db, World}
use dift_backend_auth.Crypto.{second}
use dift_backend_auth.Crypto.Assumed.{IsDocumented}
use dift_backend_auth.Tests.Codec.{
  marshal, unmarshal, marshal_bytes, unmarshal-marshal, scan_params, scan_params-print_params,
}

abbrev pub config : Config
config = record {
  access_token_secret = codes "a";
  refresh_token_secret = codes "r";
  access_token_ttl = 15 * second;
  refresh_token_ttl = 60 * second;
  step_up_token_ttl = 10 * second;
  challenge_secret = codes "c";
  challenge_ttl = 20 * second;
  signature_algo = codes "ES256";
  max_login_attempts = 2;
  lockout_duration = 30 * second;
  hash_memory = 8;
  hash_iterations = 1;
  hash_parallelism = 1;
  hash_key_length = 4;
}

-- A text of n bytes that begins like another.
unfoldable pub fit : ℕ → Text → Text
fit zero t = []
fit (suc n) [] = 0 ∷ fit n []
fit (suc n) (c ∷ cs) = c % 256 ∷ fit n cs

pub fit-AreBytes : (n : ℕ) (t : Text) → AreBytes (fit n t)
unfolding fit
fit-AreBytes zero t = tt
fit-AreBytes (suc n) [] = (omega arith, fit-AreBytes n [])
fit-AreBytes (suc n) (c ∷ cs) = (omega arith, fit-AreBytes n cs)

length-fit : (n : ℕ) (t : Text) → length (fit n t) ≡ n
unfolding fit
length-fit zero t = refl
length-fit (suc n) [] = ap suc (length-fit n [])
length-fit (suc n) (c ∷ cs) = ap suc (length-fit n cs)

unfoldable pub total : Text → ℕ
total [] = 0
total (c ∷ cs) = c + total cs

-- Two check bytes.
unfoldable pub digest : Text → Text
unfolding total
digest t = total t % 256 ∷ length t % 256 ∷ []

digest-AreBytes : (t : Text) → AreBytes (digest t)
unfolding digest
digest-AreBytes t = omega arith

-- A keyed check byte.
unfoldable pub seal : Text → Text → Text
unfolding total
seal key t = (total key + total t) % 256 ∷ []

seal-AreBytes : (key t : Text) → AreBytes (seal key t)
unfolding seal
seal-AreBytes key t = omega arith

abbrev pub draw : ℕ → Text
draw k = k % 256 ∷ []

-- The clock stands at five seconds and moves by a nanosecond at each reading.
abbrev pub env : Env
env = record {
  cfg = config;
  clock = λ k. 5 * second + k;
  random = λ k n. some (draw k);
  sha256 = digest;
  hmac_sha256 = seal;
  argon2_id_key = λ p s i m q k. fit k p;
  scan_params = scan_params;
  json_marshal = marshal;
  json_unmarshal = unmarshal;
  pem_decode = λ t. some t;
  parse_pkix = λ t. some (ecdsa true t);
  ecdsa_verify = λ key d r s. text_eq r (fit 32 d);
  rsa_verify_pss = λ key d s. text_eq s d;
}

draw-AreBytes : (k n : ℕ) (b : Text) → some (draw k) ≡ some b → AreBytes b
draw-AreBytes k n b h = let e : draw k ≡ b = cc in rw (← e) (omega arith)

pub env-IsDocumented : IsDocumented env
env-IsDocumented = record {
  random_bytes = draw-AreBytes;
  sha256_bytes = digest-AreBytes;
  hmac_bytes = seal-AreBytes;
  argon2_bytes = λ p s i m q k. fit-AreBytes k p;
  argon2_length = λ p s i m q k. length-fit k p;
  scan_printed = λ m i p hm hi hp. scan_params-print_params m i p;
  marshal_bytes = marshal_bytes;
  unmarshal_marshal = unmarshal-marshal;
}

abbrev pub nobody : Db
nobody = record { users = []; devices = []; sessions = []; challenges = [] }

abbrev pub empty : World
empty = record { db = nobody; audits = []; reads = 0; draws = 0 }
