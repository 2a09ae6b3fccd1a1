-- ===== src/Crypto/Passwords.antt =====
-- Hashing a password and verifying it.
use dift_backend_auth.Base.{
  ℕ, ◌<◌, ◌^◌, ◌≡◌, ◌∙◌, ap, true, some, [], ◌∷◌, ◌++◌, length, Text, text_eq, text_eq_refl, arith,
  Option-cases, inl, inr, codes,
}
use native.Mathlib.Nat.{mod-eq_of_lt}
use dift_backend_auth.Encoding.{split, decimal}
use dift_backend_auth.Encoding.Parts.{IsFree, split_one, split_more, append-IsFree}
use dift_backend_auth.Encoding.Digits.{decimal-IsFree}
use dift_backend_auth.Encoding.Base64
use dift_backend_auth.Encoding.Base64.{std}
use dift_backend_auth.Encoding.Base64.RoundTrip.{AreBytes, ArePlain, encode-ArePlain, decode-encode}
use dift_backend_auth.Runtime.{Env, World, ok}
use dift_backend_auth.Crypto.{random_bytes, hash_password, verify_password, verify_parts}
use dift_backend_auth.Crypto.Assumed.{IsDocumented}
use dift_backend_auth.Crypto.Formats.{print_params, encode_hash}

ArePlain-IsFree_dollar : (t : Text) → ArePlain t → IsFree b'$' t
ArePlain-IsFree_dollar [] h = tt
ArePlain-IsFree_dollar (c ∷ cs) h = (h.0.1, ArePlain-IsFree_dollar cs h.1)

print_params-IsFree : (m i p : ℕ) → IsFree b'$' (print_params m i p)
unfolding print_params
print_params-IsFree m i p =
    let dollar = λ (n : ℕ). decimal-IsFree b'$' n (omega arith) in
    let rest =
      append-IsFree b'$' (decimal i) (codes ",p=" ++ decimal p) (dollar i)
        (omega arith, (omega arith, (omega arith, dollar p))) in
    (
      omega arith,
      (
        omega arith,
        append-IsFree b'$' (decimal m) _ (dollar m)
            (omega arith, (omega arith, (omega arith, rest))),
      ),
    )

split-encode_hash :
    (params salt hash : Text)
    → IsFree b'$' params
    → IsFree b'$' salt
    → IsFree b'$' hash
    → split b'$' (encode_hash params salt hash)
      ≡ [] ∷ codes "argon2id" ∷ codes "v=19" ∷ params ∷ salt ∷ hash ∷ []
unfolding encode_hash
split-encode_hash params salt hash h k l =
    split_more b'$' [] _ tt
    ∙ ap (◌∷◌ []) (
        split_more b'$' (codes "argon2id") _ (omega arith)
        ∙ ap (◌∷◌ (codes "argon2id")) (
            split_more b'$' (codes "v=19") _ (omega arith)
            ∙ ap (◌∷◌ (codes "v=19")) (
                split_more b'$' params _ h
                ∙ ap (◌∷◌ params)
                    (split_more b'$' salt _ k ∙ ap (◌∷◌ salt) (split_one b'$' hash l)))))

-- Verification recomputes the hash with the salt and the parameters of the encoded hash.
verify_password-encode_hash :
    (env : Env) (password salt hash : Text) (m i p : ℕ) (v : World)
    → AreBytes salt
    → AreBytes hash
    → env.scan_params (print_params m i p) ≡ some (m, i, p)
    → length hash < 2 ^ 32
    → verify_password password
        (encode_hash (print_params m i p) (Base64.encode std salt) (Base64.encode std hash))
        env
        v
      ≡ (ok (text_eq (env.argon2_id_key password salt i m p (length hash)) hash), v)
unfolding verify_password verify_parts text_eq
verify_password-encode_hash env password salt hash m i p v hs hh scan short = rw (
  split-encode_hash (print_params m i p) (Base64.encode std salt) (Base64.encode std hash)
      (print_params-IsFree m i p) (ArePlain-IsFree_dollar _ (encode-ArePlain std salt hs))
      (ArePlain-IsFree_dollar _ (encode-ArePlain std hash hh)),
  scan,
  decode-encode std salt hs,
  decode-encode std hash hh,
  mod-eq_of_lt short,
)

-- The hash that `hash_password` returns for a password verifies with that password, whatever the
-- salt and the parameters in the configuration.
pub verify_password-hash_password :
    (env : Env) (password : Text) (w : World) {encoded : Text} {w' : World}
    → IsDocumented env
    → env.cfg.hash_memory < 2 ^ 32
    → env.cfg.hash_iterations < 2 ^ 32
    → env.cfg.hash_parallelism < 256
    → env.cfg.hash_key_length < 2 ^ 32
    → hash_password password env w ≡ (ok encoded, w')
    → (v : World) → verify_password password encoded env v ≡ (ok true, v)
unfolding hash_password random_bytes
verify_password-hash_password env password w {encoded} d hm hi hp hk e v =
    elim (Option-cases (env.random w.draws 16)) [
      | inl failed ↦ ground arith
      | inr (salt, drawn) ↦
          let hash =
            env.argon2_id_key password salt cfg.hash_iterations cfg.hash_memory cfg.hash_parallelism
              cfg.hash_key_length in
          let formed : encoded
              ≡ encode_hash (print_params cfg.hash_memory cfg.hash_iterations cfg.hash_parallelism)
                  (Base64.encode std salt) (Base64.encode std hash) =
            ground arith in
          let long : length hash ≡ cfg.hash_key_length = d.argon2_length _ _ _ _ _ _ in
          rw formed (
            verify_password-encode_hash env password salt hash cfg.hash_memory cfg.hash_iterations
              cfg.hash_parallelism v (d.random_bytes _ _ salt drawn) (d.argon2_bytes _ _ _ _ _ _)
              (d.scan_printed _ _ _ hm hi hp) (omega arith)
            ∙ rw (long, text_eq_refl))
    ]
  where
    open env use {cfg}
