-- ===== src/Tests/OpenTokens.antt =====
-- A token format without secrecy that behaves as the JWT library is assumed to: the secret and the
-- claims in clear, each text after its length.
use dift_backend_auth.Base.{
  ℕ, zero, suc, ◌≡◌, refl, ap, ◌∙◌, ◌&&◌, Option, none, some, [], ◌∷◌, ◌++◌, length, take, drop,
  Text, text_eq, if◌then◌else◌,
}
use dift_backend_auth.Base.Int.{ℤ, pos, negsuc, ltb_ℤ}
use dift_backend_auth.Account.Service.{JwtClaims}

abbrev pub write : Text → Text → Text
write t rest = length t ∷ t ++ rest

abbrev pub read : Text → Text × Text
read [] = ([], [])
read (n ∷ t) = (take n t, drop n t)

take-append : (t rest : Text) → take (length t) (t ++ rest) ≡ t
take-append [] rest = refl
take-append (c ∷ t) rest = ap (λ l. c ∷ l) (take-append t rest)

drop-append : (t rest : Text) → drop (length t) (t ++ rest) ≡ rest
drop-append [] rest = refl
drop-append (c ∷ t) rest = drop-append t rest

abbrev pub write_time : ℤ → Text
write_time (pos n) = 0 ∷ n ∷ []
write_time (negsuc n) = 1 ∷ n ∷ []

abbrev pub read_time : Text → ℤ
read_time (zero ∷ n ∷ []) = pos n
read_time (suc k ∷ n ∷ []) = negsuc n
read_time _ = pos 0

read-write_time : (z : ℤ) → read_time (write_time z) ≡ z
read-write_time (pos n) = refl
read-write_time (negsuc n) = refl

abbrev pub printed : JwtClaims → Text → Text
printed c secret = write secret (
    write c.sub (
      write c.name (
        write c.email (write c.role (write c.token_type (c.issued_at ∷ write_time c.expires_at))))))

abbrev pub times : Text → ℕ × ℤ
times [] = (0, pos 0)
times (n ∷ t) = (n, read_time t)

unfoldable pub claims_in : Text → JwtClaims
claims_in t =
    let t1 = (read t).1 in
    let t2 = (read t1).1 in
    let t3 = (read t2).1 in
    let t4 = (read t3).1 in
    let t5 = (read t4).1 in
    record {
      sub = (read t1).0;
      name = (read t2).0;
      email = (read t3).0;
      role = (read t4).0;
      token_type = (read t5).0;
      issued_at = (times (read t5).1).0;
      expires_at = (times (read t5).1).1;
    }

abbrev pub judged : Text → Text → ℕ → JwtClaims → Option JwtClaims
judged sealed secret now c =
    if text_eq sealed secret && ltb_ℤ (pos now) c.expires_at then some c else none

unfoldable pub parsed : Text → ℕ → Text → Option JwtClaims
parsed secret now t = judged (read t).0 secret now (claims_in t)

claims_in-printed : (c : JwtClaims) (secret : Text) → claims_in (printed c secret) ≡ c
unfolding claims_in
claims_in-printed c secret = simp (take-append, drop-append, read-write_time)

pub parsed-printed :
    (c : JwtClaims) (secret secret' : Text) (now : ℕ)
    → parsed secret' now (printed c secret) ≡ judged secret secret' now c
unfolding parsed
parsed-printed c secret secret' now =
    ap (λ x. judged x secret' now (claims_in (printed c secret))) (take-append secret _)
    ∙ ap (judged secret secret' now) (claims_in-printed c secret)
