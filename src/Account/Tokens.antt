-- ===== src/Account/Tokens.antt =====
-- The tokens that the service issues and takes, over any identity gateway.
use dift_backend_auth.Base.{
  ℕ, suc, ◌+◌, ◌<◌, ◌≡◌, refl, ap, ◌∙◌, ◌⊎◌, inl, inr, true, false, Option, none, some, Text,
  text_eq, text_eq_iff, text_eq_refl, arith, Bool-cases, Option-cases, if◌then◌else◌, [],
}
use dift_backend_auth.Base.Int.{ℤ, pos, ltb_ℤ, ◌+ℤ◌}
use dift_backend_auth.Crypto.{second}
use dift_backend_auth.Account.{
  IdentityUser, IdentityGateway, Failure, Result, ok, err, invalid_refresh_token,
  invalid_access_token, invalid_token_type,
}
use dift_backend_auth.Account.Service.{
  JwtClaims, Outside, State, AuthResponse, profile_of, access, refresh, claims_for, generate_jwt,
  with_access, with_refresh, of_type, with_user, build_auth_response, refresh_token, me, or_none,
  join,
}

-- The claims that are the service's own.
pub record SameClaims (c c' : JwtClaims) : Type 0 where
  pub sub : c'.sub ≡ c.sub
  pub name : c'.name ≡ c.name
  pub email : c'.email ≡ c.email
  pub token_type : c'.token_type ≡ c.token_type

-- What the JWT library documents: a token parses with its secret until the second before its expiry,
-- and what parses, with whatever secret, has the claims that were signed.
pub record IsJwt (out : Outside) : Type 0 where
  pub in_time :
      (c : JwtClaims) (secret t : Text) (now : ℕ)
      → out.signed c secret ≡ some t
      → ltb_ℤ (pos (now + second)) c.expires_at ≡ true
      → (c' : JwtClaims) × (out.parse secret now t ≡ some c') × SameClaims c c'
  pub payload :
      (c : JwtClaims) (secret secret' t : Text) (now : ℕ) (c' : JwtClaims)
      → out.signed c secret ≡ some t
      → out.parse secret' now t ≡ some c'
      → SameClaims c c'

-- How the tokens of a response were made.
pub record Issued (out : Outside) (u : IdentityUser) (now : ℕ) (res : AuthResponse) : Type 0 where
  pub role : Text
  pub later : ℕ
  pub access_life : ℤ
  pub refresh_life : ℤ
  pub configured : out.access_token_expires ≡ some access_life
  pub access_signed :
      out.signed (claims_for u role access now access_life) out.jwt_secret ≡ some res.access_token
  pub refresh_signed :
      out.signed (claims_for u role refresh later refresh_life) out.refresh_jwt_secret
      ≡ some res.refresh_token

module _ {S : Type 0} (identity : IdentityGateway S) where
  build_auth_response-Issued :
      (u : IdentityUser) (out : Outside) (w : State S) {res : AuthResponse}
      → (build_auth_response identity u out w).0 ≡ ok res
      → Issued out u (out.clock w.reads) res
  unfolding build_auth_response
  build_auth_response-Issued u out w {res} h =
      go (join (or_none (identity.get_user_roles u.id w.users).0))
        (record w { users = (identity.get_user_roles u.id w.users).1 })
        (Option-cases out.access_token_expires) (Option-cases out.refresh_token_expires) h
    where
      go :
          (role : Text) (v : State S)
          → (out.access_token_expires ≡ none) ⊎ ((d : ℤ) × (out.access_token_expires ≡ some d))
          → (out.refresh_token_expires ≡ none) ⊎ ((d : ℤ) × (out.refresh_token_expires ≡ some d))
          → (with_access out u role
              (generate_jwt out u role access out.jwt_secret out.access_token_expires v)).0
            ≡ ok res
          → Issued out u (out.clock v.reads) res
      go role v (inl unset) r h = absurd (ground arith)
      go role v (inr (d, set)) (inl unset) h = absurd (ground arith)
      go role v (inr (d, set)) (inr (d', set')) h = record {
        role = role;
        later = out.clock (suc v.reads);
        access_life = d;
        refresh_life = d';
        configured = set;
        access_signed = ground arith;
        refresh_signed = ground arith;
      }

abbrev pub IsRefused : {A : Type 0} → Result A → Type 0
IsRefused (ok a) = ⊥
IsRefused (err e) = Unit {0}

-- A token that parses, if at all, to claims of another type.
of_type-refused :
    (wanted : Text) (e : Failure) (o : Option JwtClaims)
    → ((c : JwtClaims) → o ≡ some c → text_eq c.token_type wanted ≡ false)
    → (e' : Failure) × (of_type wanted e o ≡ err e')
of_type-refused wanted e none h = (e, refl)
of_type-refused wanted e (some c) h = (invalid_token_type, rw (h c refl) refl)

module _ {S : Type 0} (identity : IdentityGateway S) where
  me-IsRefused :
      (out : Outside) (t : Text) (v : State S)
      → ((c : JwtClaims)
          → out.parse out.jwt_secret (out.clock v.reads) t ≡ some c
          → text_eq c.token_type access ≡ false)
      → IsRefused (me identity t out v).0
  unfolding me
  me-IsRefused out t v h =
      let (e, refusal) =
        of_type-refused access invalid_access_token (out.parse out.jwt_secret (out.clock v.reads) t)
          h in
      rw refusal tt

  refresh_token-IsRefused :
      (out : Outside) (t : Text) (v : State S)
      → ((c : JwtClaims)
          → out.parse out.refresh_jwt_secret (out.clock v.reads) t ≡ some c
          → text_eq c.token_type refresh ≡ false)
      → IsRefused (refresh_token identity t out v).0
  unfolding refresh_token
  refresh_token-IsRefused out t v h =
      let (e, refusal) =
        of_type-refused refresh invalid_refresh_token
          (out.parse out.refresh_jwt_secret (out.clock v.reads) t) h in
      rw refusal tt

  me-accepted :
      (out : Outside) (t : Text) (v : State S) (c : JwtClaims)
      → out.parse out.jwt_secret (out.clock v.reads) t ≡ some c
      → c.token_type ≡ access
      → (me identity t out v).0
        ≡ ok (record { id = c.sub; name = c.name; email = c.email; phone = [] })
  unfolding me
  me-accepted out t v c parsed typ =
      let typ' : text_eq c.token_type access ≡ true = rw typ (text_eq_refl access) in
      rw (parsed, typ') refl

  -- With a JWT library as it is documented, the access token of a response shows the user's profile,
  -- without the phone, up to a second before the end of its life; and whatever the time and the
  -- secrets, the access token is refused as a refresh token and the refresh token as an access token.
  pub build_auth_response-me :
      (u : IdentityUser) (out : Outside) (w v v' : State S) (res : AuthResponse) (life : ℕ)
      → IsJwt out
      → (build_auth_response identity u out w).0 ≡ ok res
      → out.access_token_expires ≡ some (pos life)
      → out.clock v.reads + second < out.clock w.reads + life
      → ((me identity res.access_token out v).0
          ≡ ok (record { id = u.id; name = u.name; email = u.email; phone = [] }))
        × IsRefused (refresh_token identity res.access_token out v').0
        × IsRefused (me identity res.refresh_token out v').0
  unfolding ◌+ℤ◌ text_eq
  build_auth_response-me u out w v v' res life jwt done set young =
      let i = build_auth_response-Issued identity u out w done in
      let a = claims_for u i.role access (out.clock w.reads) i.access_life in
      let r = claims_for u i.role refresh i.later i.refresh_life in
      let same_life : i.access_life ≡ pos life = cc (i.configured, set) in
      let (c, parsed, same) =
        jwt.in_time a out.jwt_secret res.access_token (out.clock v.reads) i.access_signed
          (rw same_life (ground arith)) in
      (
        me-accepted out res.access_token v c parsed same.token_type
            ∙ rw (same.sub, same.name, same.email) refl,
        refresh_token-IsRefused out res.access_token v' (λ c' p'.
            rw
              (jwt.payload a out.jwt_secret out.refresh_jwt_secret res.access_token
                (out.clock v'.reads) c' i.access_signed p').token_type
              refl),
        me-IsRefused out res.refresh_token v' (λ c' p'.
            rw
              (jwt.payload r out.refresh_jwt_secret out.jwt_secret res.refresh_token
                (out.clock v'.reads) c' i.refresh_signed p').token_type
              refl),
      )

-- A refresh that went through.
pub record Refreshed {S : Type 0} (identity : IdentityGateway S) (out : Outside) (token : Text)
    (w : State S) (res : AuthResponse) : Type 0 where
  pub claims : JwtClaims
  pub user : IdentityUser
  pub parsed : out.parse out.refresh_jwt_secret (out.clock w.reads) token ≡ some claims
  pub typed : claims.token_type ≡ refresh
  pub found : (identity.get_user_by_email claims.email w.users).0 ≡ ok (some user)
  pub subject : user.id ≡ claims.sub
  pub shown : res.user ≡ profile_of user

module _ {S : Type 0} (identity : IdentityGateway S) where
  with_refresh-user :
      (u : IdentityUser) (a : Text) (x : Option Text × State S) {res : AuthResponse}
      → (with_refresh u a x).0 ≡ ok res
      → res.user ≡ profile_of u
  with_refresh-user u a (none, w) h = absurd (cc h)
  with_refresh-user u a (some r, w) {res} h = ground arith

  with_access-user :
      (out : Outside) (u : IdentityUser) (role : Text) (x : Option Text × State S)
      {res : AuthResponse}
      → (with_access out u role x).0 ≡ ok res
      → res.user ≡ profile_of u
  with_access-user out u role (none, w) h = absurd (cc h)
  with_access-user out u role (some a, w) h = with_refresh-user u a _ h

  build_auth_response-user :
      (u : IdentityUser) (out : Outside) (w : State S) {res : AuthResponse}
      → (build_auth_response identity u out w).0 ≡ ok res
      → res.user ≡ profile_of u
  unfolding build_auth_response
  build_auth_response-user u out w h = with_access-user out u _ _ h

  -- A refresh that goes through was given a token that the library finds valid with the refresh
  -- secret, of the type refresh, whose address the gateway knows a user for with the token's
  -- subject as id; the response shows that user.
  pub refresh_token-Refreshed :
      (out : Outside) (token : Text) (w : State S) (res : AuthResponse)
      → (refresh_token identity token out w).0 ≡ ok res
      → Refreshed identity out token w res
  unfolding refresh_token
  refresh_token-Refreshed out token w res h =
      elim (Option-cases (out.parse out.refresh_jwt_secret (out.clock w.reads) token)) [
        | inl unparsed ↦ absurd (ground arith)
        | inr (c, parsed) ↦ elim (Bool-cases (text_eq c.token_type refresh)) [
          | inr other ↦ absurd (ground arith)
          | inl typed ↦
              go c parsed typed (identity.get_user_by_email c.email w.users) refl (ground arith)
        ]
      ]
    where
      w' : State S
      w' = record w { reads = suc w.reads }

      go :
          (c : JwtClaims)
          → out.parse out.refresh_jwt_secret (out.clock w.reads) token ≡ some c
          → text_eq c.token_type refresh ≡ true
          → (x : Result (Option IdentityUser) × S) → identity.get_user_by_email c.email w.users ≡ x
          → (with_user identity w' x (λ u v.
              if text_eq u.id c.sub
              then build_auth_response identity u out v
              else (err Failure.subject_mismatch, v))).0
            ≡ ok res
          → Refreshed identity out token w res
      go c parsed typed (err e, s) found k = absurd (cc k)
      go c parsed typed (ok none, s) found k = absurd (cc k)
      go c parsed typed (ok (some u), s) found k = elim (Bool-cases (text_eq u.id c.sub)) [
        | inr other ↦ absurd (ground arith)
        | inl same ↦ record {
          claims = c;
          user = u;
          parsed = parsed;
          typed = (text_eq_iff c.token_type refresh).0 typed;
          found = ap (λ y. y.0) found;
          subject = (text_eq_iff u.id c.sub).0 same;
          shown =
              build_auth_response-user u out (record w' { users = s }) {res = res} (ground arith);
        }
      ]
