-- ===== src/Account/Service.antt =====
-- internal/service/auth_service.go and internal/utils of auth-service-main, over any identity
-- gateway. bcrypt, the JWT library and `time.ParseDuration` are parameters.
use dift_backend_auth.Base.{
  ℕ, suc, Bool, Option, none, some, List, [], ◌∷◌, ◌++◌, if◌then◌else◌, Text, codes, text_eq,
}
use dift_backend_auth.Base.Int.{ℤ, pos, ◌+ℤ◌}
use dift_backend_auth.Account.{
  IdentityUser, IdentityGateway, Failure, Result, ok, err, invalid_credentials, user_not_found,
  invalid_refresh_token, invalid_access_token, invalid_token_type, subject_mismatch, hash_failed,
  sign_failed,
}

pub record JwtClaims : Type 0 where
  pub sub : Text
  pub name : Text
  pub email : Text
  pub role : Text
  pub token_type : Text
  pub issued_at : ℕ
  pub expires_at : ℤ

-- `clock k` is the k-th reading of the clock in nanoseconds. `bcrypt k` is the hash with the k-th
-- salt, `none` an error. `parse secret now token` are the claims of a token that the library finds
-- valid, which the code lets be signed with HMAC alone.
pub record Outside : Type 0 where
  pub clock : ℕ → ℕ
  pub bcrypt : ℕ → Text → Option Text
  pub bcrypt_compare : (password hash : Text) → Bool
  pub signed : JwtClaims → (secret : Text) → Option Text
  pub parse : (secret : Text) → ℕ → Text → Option JwtClaims
  pub jwt_secret : Text
  pub refresh_jwt_secret : Text
  -- what `time.ParseDuration` gives for the two configured lives
  pub access_token_expires : Option ℤ
  pub refresh_token_expires : Option ℤ

pub record State (S : Type 0) : Type 0 where
  pub users : S
  pub reads : ℕ
  pub salts : ℕ

pub record UserProfile : Type 0 where
  pub id : Text
  pub name : Text
  pub email : Text
  pub phone : Text

pub record AuthResponse : Type 0 where
  pub user : UserProfile
  pub access_token : Text
  pub refresh_token : Text

abbrev pub access : Text
access = codes "access"

abbrev pub refresh : Text
refresh = codes "refresh"

abbrev pub join : List Text → Text
join [] = []
join (r ∷ []) = r
join (r ∷ s ∷ rs) = r ++ b',' ∷ join (s ∷ rs)

abbrev pub or_none : Result (List Text) → List Text
or_none (ok roles) = roles
or_none (err e) = []

abbrev pub claims_for : IdentityUser → (role token_type : Text) → ℕ → ℤ → JwtClaims
claims_for u role token_type now duration = record {
  sub = u.id;
  name = u.name;
  email = u.email;
  role = role;
  token_type = token_type;
  issued_at = now;
  expires_at = pos now +ℤ duration;
}

-- `GenerateJWT`: the clock is read once the duration parses.
abbrev pub generate_jwt :
    {S : Type 0}
    → Outside
    → IdentityUser
    → (role token_type secret : Text) → Option ℤ
    → State S
    → Option Text × State S
generate_jwt out u role token_type secret none w = (none, w)
generate_jwt out u role token_type secret (some duration) w = (
  out.signed (claims_for u role token_type (out.clock w.reads) duration) secret,
  record w { reads = suc w.reads },
)

abbrev pub profile_of : IdentityUser → UserProfile
profile_of u = record { id = u.id; name = u.name; email = u.email; phone = u.phone }

-- The refresh token is made once there is an access token.
abbrev pub with_refresh :
    {S : Type 0} → IdentityUser → Text → Option Text × State S → Result AuthResponse × State S
with_refresh u a (none, w) = (err sign_failed, w)
with_refresh u a (some r, w) =
    (ok (record { user = profile_of u; access_token = a; refresh_token = r }), w)

abbrev pub with_access :
    {S : Type 0}
    → Outside
    → IdentityUser
    → Text
    → Option Text × State S
    → Result AuthResponse × State S
with_access out u role (none, w) = (err sign_failed, w)
with_access out u role (some a, w) =
    with_refresh u a
      (generate_jwt out u role refresh out.refresh_jwt_secret out.refresh_token_expires w)

-- `ParseJWT` with a type that is wanted.
abbrev pub of_type : Text → Failure → Option JwtClaims → Result JwtClaims
of_type wanted invalid none = err invalid
of_type wanted invalid (some c) =
    if text_eq c.token_type wanted then ok c else err invalid_token_type

module _ {S : Type 0} (identity : IdentityGateway S) where
  unfoldable pub build_auth_response :
      IdentityUser → Outside → State S → Result AuthResponse × State S
  build_auth_response u out w =
      let (roles, s) = identity.get_user_roles u.id w.users in
      let role = join (or_none roles) in
      with_access out u role (
        generate_jwt out u role access out.jwt_secret out.access_token_expires
          (record w { users = s }))

  -- What follows a creation.
  abbrev pub registered :
      Outside → State S → Result IdentityUser × S → Result AuthResponse × State S
  registered out w (err e, s) = (err e, record w { users = s })
  registered out w (ok u, s) = build_auth_response u out (record w { users = s })

  abbrev pub with_hash :
      (name email : Text) → Outside → State S → Option Text → Result AuthResponse × State S
  with_hash name email out w none = (err hash_failed, w)
  with_hash name email out w (some hashed) =
      registered out w (identity.create_email_user name email hashed w.users)

  unfoldable pub register_email :
      (name email password : Text) → Outside → State S → Result AuthResponse × State S
  register_email name email password out w =
      with_hash name email out (record w { salts = suc w.salts }) (out.bcrypt w.salts password)

  -- The user whom the gateway finds; its errors are answered as an absence.
  abbrev pub with_user :
      {A : Type 0}
      → State S
      → Result (Option IdentityUser) × S
      → (IdentityUser → State S → Result A × State S)
      → Result A × State S
  with_user w (ok (some u), s) k = k u (record w { users = s })
  with_user w (ok none, s) k = (err user_not_found, record w { users = s })
  with_user w (err e, s) k = (err user_not_found, record w { users = s })

  unfoldable pub login_email :
      (email password : Text) → Outside → State S → Result AuthResponse × State S
  login_email email password out w = with_user w (identity.get_user_by_email email w.users) (λ u w'.
      if out.bcrypt_compare password u.password
      then build_auth_response u out w'
      else (err invalid_credentials, w'))

  -- The claims of a refresh token, and what is done with them.
  abbrev pub refreshed : Outside → State S → Result JwtClaims → Result AuthResponse × State S
  refreshed out w (err e) = (err e, w)
  refreshed out w (ok c) = with_user w (identity.get_user_by_email c.email w.users) (λ u w'.
      if text_eq u.id c.sub then build_auth_response u out w' else (err subject_mismatch, w'))

  -- The library reads the clock once.
  unfoldable pub refresh_token : Text → Outside → State S → Result AuthResponse × State S
  refresh_token token out w =
      refreshed out (record w { reads = suc w.reads })
        (of_type refresh invalid_refresh_token
          (out.parse out.refresh_jwt_secret (out.clock w.reads) token))

  abbrev pub claimed : Result JwtClaims → Result UserProfile
  claimed (err e) = err e
  claimed (ok c) = ok (record { id = c.sub; name = c.name; email = c.email; phone = [] })

  unfoldable pub me : Text → Outside → State S → Result UserProfile × State S
  me token out w = (
    claimed
        (of_type access invalid_access_token (out.parse out.jwt_secret (out.clock w.reads) token)),
    record w { reads = suc w.reads },
  )

  -- Nothing is revoked.
  unfoldable pub logout : Text → State S → Result (Unit {0}) × State S
  logout token w = (ok tt, w)
