-- ===== src/Crypto/Formats.antt =====
-- The texts that crypto.go formats and reads back.
use dift_backend_auth.Base.{ℕ, ◌/◌, ◌∷◌, ◌++◌, Text, codes}
use dift_backend_auth.Base.Int.{ℤ}
use dift_backend_auth.Encoding.{decimal, signed_decimal}

-- Nanoseconds in a second.
abbrev pub second : ℕ
second = 1_000_000_000

-- `t.Unix()` of a time of the server.
abbrev pub unix : ℕ → ℕ
unix t = t / second

-- The parameters of a hash as `m=%d,t=%d,p=%d` prints them.
unfoldable pub print_params : ℕ → ℕ → ℕ → Text
print_params memory iterations parallelism =
    codes "m="
    ++ (decimal memory
        ++ (codes ",t=" ++ (decimal iterations ++ (codes ",p=" ++ decimal parallelism))))

-- The fields of an encoded hash, each behind a dollar sign.
unfoldable pub encode_hash : Text → Text → Text → Text
encode_hash params salt hash =
    b'$'
    ∷ (codes "argon2id"
        ++ (b'$' ∷ (codes "v=19" ++ (b'$' ∷ (params ++ (b'$' ∷ (salt ++ (b'$' ∷ hash))))))))

-- The text that a challenge's seal is taken over.
unfoldable pub challenge_message : Text → Text → Text → ℕ → Text
challenge_message nonce device_id action expiry =
    nonce ++ (b'|' ∷ (device_id ++ (b'|' ∷ (action ++ (b'|' ∷ decimal (unix expiry))))))

unfoldable pub build_signed_payload : Text → Text → Text → ℤ → Text
build_signed_payload nonce device_id action ts =
    nonce ++ (b'.' ∷ (device_id ++ (b'.' ∷ (action ++ (b'.' ∷ signed_decimal ts)))))
