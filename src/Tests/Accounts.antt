-- ===== src/Tests/Accounts.antt =====
-- Registrations, logins and tokens of the email service, with a plain hash and an open token format.
use dift_backend_auth.Base.{
  ℕ, ◌+◌, ◌*◌, ◌≡◌, ◌↔◌, refl, sym, ap, ◌∙◌, ◌&&◌, true, false, Bool, none, some, List, [], ◌∷◌,
  Text, codes, text_eq, text_eq_refl, arith, if◌then◌else◌,
}
use dift_backend_auth.Base.Int.{ℤ, pos, ltb_ℤ}
use dift_backend_auth.Base.Ascii.{trim_space}
use dift_backend_auth.Crypto.{second}
use dift_backend_auth.Account.{
  IdentityUser, Failure, Result, ok, err, LocalStore, local_identity, new_local_store, id_of,
}
use dift_backend_auth.Account.Service.{
  Outside, State, JwtClaims, AuthResponse, profile_of, register_email, login_email, refresh_token,
  me, build_auth_response,
}
use dift_backend_auth.Account.Login.{IsBcrypt, Call, after_all, register_email-login_email}
use dift_backend_auth.Account.Tokens.{
  IsJwt, SameClaims, IsRefused, Refreshed, build_auth_response-me, refresh_token-Refreshed,
}
use dift_backend_auth.Account.Emails.{validate_email, IsAddress, validate_email_iff}
use dift_backend_auth.Tests.Program.{program}
use dift_backend_auth.Tests.OpenTokens.{printed, parsed, parsed-printed}
use mathlib.Core.Path.{subst}

abbrev compare : Text → Text → Bool
compare p [] = false
compare p (k ∷ h) = text_eq p h

id_of-run : id_of (codes "a@b_c.d") ≡ id_of (codes "a_b@c.d")
id_of-run = refl

validate_email_iff_example :
    (validate_email (codes " a@b.c ") ≡ true) ↔ IsAddress (trim_space (codes " a@b.c "))
validate_email_iff_example = validate_email_iff (codes " a@b.c ")

abbrev outside : Outside
outside = record {
  clock = λ k. 5 * second + k;
  bcrypt = λ k p. some (k ∷ p);
  bcrypt_compare = compare;
  signed = λ c secret. some (printed c secret);
  parse = parsed;
  jwt_secret = codes "s";
  refresh_jwt_secret = codes "s";
  access_token_expires = some (pos (900 * second));
  refresh_token_expires = some (pos (9000 * second));
}

outside-IsBcrypt : IsBcrypt outside
outside-IsBcrypt k p hash made = ground (arith, text_eq_refl p)

SameClaims-refl : (c : JwtClaims) → SameClaims c c
SameClaims-refl c = record { sub = refl; name = refl; email = refl; token_type = refl }

outside-IsJwt : IsJwt outside
outside-IsJwt = record {
  in_time = λ c secret t now made young. in_time_as c secret t now made young;
  payload = λ c secret secret' t now c' made given. payload_as c secret secret' t now c' made given;
}
  where
    before : (now : ℕ) (z : ℤ) → ltb_ℤ (pos (now + second)) z ≡ true → ltb_ℤ (pos now) z ≡ true
    before now z h = ground arith

    in_time_as :
        (c : JwtClaims) (secret t : Text) (now : ℕ)
        → some (printed c secret) ≡ some t
        → ltb_ℤ (pos (now + second)) c.expires_at ≡ true
        → (c' : JwtClaims) × (parsed secret now t ≡ some c') × SameClaims c c'
    in_time_as c secret t now made young =
        let e : printed c secret ≡ t = cc made in
        (
          c,
          rw (← e) (
              parsed-printed c secret secret now
              ∙ rw (text_eq_refl secret, before now c.expires_at young) refl),
          SameClaims-refl c,
        )

    judged_as :
        (b : Bool) (c c' : JwtClaims) → (if b then some c else none) ≡ some c' → SameClaims c c'
    judged_as true c c' h = let e : c ≡ c' = cc h in subst (SameClaims c) e (SameClaims-refl c)
    judged_as false c c' h = absurd (cc h)

    payload_as :
        (c : JwtClaims) (secret secret' t : Text) (now : ℕ) (c' : JwtClaims)
        → some (printed c secret) ≡ some t
        → parsed secret' now t ≡ some c'
        → SameClaims c c'
    payload_as c secret secret' t now c' made given =
        let e : printed c secret ≡ t = cc made in
        judged_as (text_eq secret secret' && ltb_ℤ (pos now) c.expires_at) c c'
          (sym (parsed-printed c secret secret' now) ∙ ap (parsed secret' now) e ∙ given)

abbrev start : State LocalStore
start = record { users = new_local_store; reads = 0; salts = 0 }

abbrev registered : Result AuthResponse × State LocalStore
registered =
    register_email local_identity (codes "Ann") (codes "A@b.c") (codes "password") outside start

abbrev response : AuthResponse
unfolding program
response = elim registered.0 [
  | ok res ↦ res
  | err e ↦ record {
    user = record { id = []; name = []; email = []; phone = [] };
    access_token = [];
    refresh_token = [];
  }
]

abbrev ann : IdentityUser
ann = record {
  id = codes "usr_a_b.c";
  name = codes "Ann";
  email = codes "a@b.c";
  phone = [];
  password = 0 ∷ codes "password";
}

abbrev calls : List Call
calls =
    Call.register (codes "Eve") (codes " a@B.c") (codes "guess")
    ∷ Call.login (codes "a@b.c") (codes "guess")
    ∷ Call.refreshing response.refresh_token
    ∷ Call.leaving response.refresh_token
    ∷ []

register_email-login_email_example :
    (u : IdentityUser) × (response.user ≡ profile_of u)
    × (outside.bcrypt_compare (codes "password") u.password ≡ true)
    × (login_email local_identity
          (codes " a@b.C")
          (codes "guess")
          outside
          (after_all outside registered.1 calls)
        ≡ (if outside.bcrypt_compare (codes "guess") u.password
            then build_auth_response local_identity u outside (after_all outside registered.1 calls)
            else (err Failure.invalid_credentials, after_all outside registered.1 calls)))
unfolding program
register_email-login_email_example =
    register_email-login_email outside (codes "Ann") (codes "A@b.c") (codes "password") start
      response calls (codes " a@b.C") (codes "guess") outside-IsBcrypt refl refl

build_auth_response-me_example :
    ((me local_identity response.access_token outside registered.1).0
      ≡ ok (record { id = ann.id; name = ann.name; email = ann.email; phone = [] }))
    × IsRefused (refresh_token local_identity response.access_token outside registered.1).0
    × IsRefused (me local_identity response.refresh_token outside registered.1).0
unfolding program
build_auth_response-me_example =
    build_auth_response-me local_identity ann outside (record registered.1 { reads = 0 })
      registered.1 registered.1 response (900 * second) outside-IsJwt refl refl (omega arith)

refresh_token-Refreshed_example :
    Refreshed local_identity outside response.refresh_token registered.1
      (elim (refresh_token local_identity response.refresh_token outside registered.1).0 [
        | ok res ↦ res
        | err e ↦ response
      ])
unfolding program
refresh_token-Refreshed_example =
    refresh_token-Refreshed local_identity outside response.refresh_token registered.1
      (elim (refresh_token local_identity response.refresh_token outside registered.1).0 [
        | ok res ↦ res
        | err e ↦ response
      ])
      refl
