-- ===== src/Account/Login.antt =====
-- Who registered can log in.
use dift_backend_auth.Base.{
  ℕ, suc, ◌≡◌, refl, sym, ap, ◌∙◌, ◌⊎◌, inl, inr, true, false, Option, none, some, List, [], ◌∷◌,
  Text, text_eq, text_eq_iff, arith, Bool-cases, Option-cases, if◌then◌else◌,
}
use dift_backend_auth.Base.Int.{ℤ}
use dift_backend_auth.Store
use dift_backend_auth.Store.{get-put, get-put_self, get-put_ne}
use dift_backend_auth.Account
use dift_backend_auth.Account.{
  IdentityUser, Failure, Result, ok, err, LocalStore, local_identity, local_user, email_key, added,
  id_of,
}
use dift_backend_auth.Account.Service.{
  Outside, State, AuthResponse, profile_of, register_email, login_email, refresh_token, me, logout,
  build_auth_response, with_access, with_refresh, generate_jwt, registered,
}

-- What bcrypt documents: a password matches its hash.
abbrev pub IsBcrypt : Outside → Type 0
IsBcrypt out =
    (k : ℕ) (password hash : Text)
    → out.bcrypt k password ≡ some hash
    → out.bcrypt_compare password hash ≡ true

-- The calls that reach the service.
pub data Call : Type 0 where
  register : (name email password : Text) → Call
  login : (email password : Text) → Call
  refreshing : Text → Call
  profile : Text → Call
  leaving : Text → Call

abbrev pub after : Outside → State LocalStore → Call → State LocalStore
after out w (Call.register name email password) =
    (register_email local_identity name email password out w).1
after out w (Call.login email password) = (login_email local_identity email password out w).1
after out w (Call.refreshing token) = (refresh_token local_identity token out w).1
after out w (Call.profile token) = (me local_identity token out w).1
after out w (Call.leaving token) = (logout local_identity token w).1

abbrev pub after_all : Outside → State LocalStore → List Call → State LocalStore
after_all out w [] = w
after_all out w (c ∷ cs) = after_all out (after out w c) cs

-- An account that is there stays as it is.
abbrev pub Stays : LocalStore → LocalStore → Type 0
Stays s s' =
    (key : Text) (u : IdentityUser)
    → Store.get key s.by_email ≡ some u
    → Store.get key s'.by_email ≡ some u

generate_jwt-users :
    (out : Outside) (u : IdentityUser) (role typ secret : Text) (d : Option ℤ)
    (w : State LocalStore)
    → (generate_jwt out u role typ secret d w).1.users ≡ w.users
generate_jwt-users out u role typ secret none w = refl
generate_jwt-users out u role typ secret (some d) w = refl

build_auth_response-users :
    (u : IdentityUser) (out : Outside) (w : State LocalStore)
    → (build_auth_response local_identity u out w).1.users ≡ w.users
unfolding build_auth_response Account.get_user_roles
build_auth_response-users u out w = ground arith

same-Stays : (s s' : LocalStore) → s' ≡ s → Stays s s'
same-Stays s s' e key u found = rw e found

create_email_user-Stays :
    (name email password : Text) (s : LocalStore)
    → Stays s (Account.create_email_user name email password s).1
unfolding Account.create_email_user
create_email_user-Stays name email password s key u found =
    elim (Option-cases (Store.get (email_key email) s.by_email)) [
      | inr (v, taken) ↦ rw (Account.create_email_user, taken) found
      | inl absent ↦
          rw (Account.create_email_user, absent)
            (get-put_ne (email_key email) key (local_user name (email_key email) password)
                s.by_email (other absent)
              ∙ found)
    ]
  where
    other : Store.get (email_key email) s.by_email ≡ none → text_eq (email_key email) key ≡ false
    other absent = elim (Bool-cases (text_eq (email_key email) key)) [
      | inr different ↦ different
      | inl same ↦
          let e : email_key email ≡ key = (text_eq_iff (email_key email) key).0 same in
          let absent' : Store.get key s.by_email ≡ none = rw (← e) absent in
          absurd (cc (absent', found))
    ]

register_email-users :
    (name email password : Text) (out : Outside) (w : State LocalStore)
    → ((register_email local_identity name email password out w).1.users ≡ w.users)
      ⊎ ((hashed : Text) × ((register_email local_identity name email password out w).1.users
            ≡ (Account.create_email_user name email hashed w.users).1))
unfolding register_email
register_email-users name email password out w = elim (Option-cases (out.bcrypt w.salts password)) [
  | inl failed ↦ inl (rw failed refl)
  | inr (hashed, made) ↦ inr (hashed, rw made (after_creation hashed))
]
  where
    w' : State LocalStore
    w' = record w { salts = suc w.salts }

    go : (x : Result IdentityUser × LocalStore) → (registered local_identity out w' x).1.users ≡ x.1
    go (ok u, s) = build_auth_response-users u out (record w' { users = s })
    go (err e, s) = refl

    after_creation :
        (hashed : Text)
        → (registered local_identity out w'
            (Account.create_email_user name email hashed w.users)).1.users
          ≡ (Account.create_email_user name email hashed w.users).1
    after_creation hashed = go (Account.create_email_user name email hashed w.users)

login_email-users :
    (email password : Text) (out : Outside) (w : State LocalStore)
    → (login_email local_identity email password out w).1.users ≡ w.users
unfolding login_email Account.get_user_by_email build_auth_response Account.get_user_roles
login_email-users email password out w = ground arith

refresh_token-users :
    (token : Text) (out : Outside) (w : State LocalStore)
    → (refresh_token local_identity token out w).1.users ≡ w.users
unfolding refresh_token Account.get_user_by_email build_auth_response Account.get_user_roles
refresh_token-users token out w = ground arith

after-Stays :
    (out : Outside) (w : State LocalStore) (c : Call) → Stays w.users (after out w c).users
unfolding me logout
after-Stays out w (Call.register name email password) =
    elim (register_email-users name email password out w) [
      | inl same ↦ same-Stays w.users _ same
      | inr (hashed, made) ↦
          λ key u found. rw made (create_email_user-Stays name email hashed w.users key u found)
    ]
after-Stays out w (Call.login email password) =
    same-Stays w.users _ (login_email-users email password out w)
after-Stays out w (Call.refreshing token) = same-Stays w.users _ (refresh_token-users token out w)
after-Stays out w (Call.profile token) = same-Stays w.users _ refl
after-Stays out w (Call.leaving token) = same-Stays w.users _ refl

after_all-Stays :
    (out : Outside) (cs : List Call) (w : State LocalStore)
    → Stays w.users (after_all out w cs).users
after_all-Stays out [] w key u found = found
after_all-Stays out (c ∷ cs) w key u found =
    after_all-Stays out cs (after out w c) key u (after-Stays out w c key u found)

-- What a registration that goes through leaves.
pub record Registered (out : Outside) (w : State LocalStore) (name email password : Text)
    (res : AuthResponse) (w' : State LocalStore) : Type 0 where
  pub hashed : Text
  pub made : out.bcrypt w.salts password ≡ some hashed
  pub stored :
      Store.get (email_key email) w'.users.by_email
      ≡ some (local_user name (email_key email) hashed)
  pub shown : res.user ≡ profile_of (local_user name (email_key email) hashed)

with_refresh-shown :
    (u : IdentityUser) (a : Text) (x : Option Text × State LocalStore) {res : AuthResponse}
    → (with_refresh u a x).0 ≡ ok res
    → res.user ≡ profile_of u
with_refresh-shown u a (none, w) h = absurd (cc h)
with_refresh-shown u a (some r, w) {res} h = ground arith

with_access-shown :
    (out : Outside) (u : IdentityUser) (role : Text) (x : Option Text × State LocalStore)
    {res : AuthResponse}
    → (with_access out u role x).0 ≡ ok res
    → res.user ≡ profile_of u
with_access-shown out u role (none, w) h = absurd (cc h)
with_access-shown out u role (some a, w) h = with_refresh-shown u a _ h

build_auth_response-shown :
    (u : IdentityUser) (out : Outside) (w : State LocalStore) {res : AuthResponse}
    → (build_auth_response local_identity u out w).0 ≡ ok res
    → res.user ≡ profile_of u
unfolding build_auth_response
build_auth_response-shown u out w h = with_access-shown out u _ _ h

create_email_user-new :
    (name email hashed : Text) (s : LocalStore)
    → Store.get (email_key email) s.by_email ≡ none
    → Account.create_email_user name email hashed s ≡ (
      ok (local_user name (email_key email) hashed),
      added (local_user name (email_key email) hashed) s,
    )
unfolding Account.create_email_user
create_email_user-new name email hashed s absent = rw (Account.create_email_user, absent) refl

register_email-Registered :
    (name email password : Text) (out : Outside) (w : State LocalStore) {res : AuthResponse}
    → (register_email local_identity name email password out w).0 ≡ ok res
    → Registered out w name email password res
        (register_email local_identity name email password out w).1
unfolding register_email Account.create_email_user
register_email-Registered name email password out w {res} h =
    elim (Option-cases (out.bcrypt w.salts password)) [
      | inl failed ↦ absurd (ground arith)
      | inr (hashed, made) ↦ elim (Option-cases (Store.get (email_key email) w.users.by_email)) [
        | inr (v, taken) ↦ absurd (ground arith)
        | inl absent ↦
            let u = local_user name (email_key email) hashed in
            let w1 : State LocalStore = record w { salts = suc w.salts; users = added u w.users } in
            let run : register_email local_identity name email password out w
                ≡ build_auth_response local_identity u out w1 =
              rw (register_email, made)
                (ap (registered local_identity out (record w { salts = suc w.salts }))
                  (create_email_user-new name email hashed w.users absent)) in
            record {
              hashed = hashed;
              made = made;
              stored =
                  rw (run, build_auth_response-users u out w1)
                    (get-put_self (email_key email) u w.users.by_email);
              shown = build_auth_response-shown u out w1 (ap (λ x. x.0) (sym run) ∙ h);
            }
      ]
    ]

login_email-found :
    (email guess : Text) (out : Outside) (w : State LocalStore) (u : IdentityUser)
    → Store.get (email_key email) w.users.by_email ≡ some u
    → login_email local_identity email guess out w ≡ (
        if out.bcrypt_compare guess u.password
        then build_auth_response local_identity u out w
        else (err Failure.invalid_credentials, w))
unfolding login_email Account.get_user_by_email
login_email-found email guess out w u found = rw (login_email, found) refl

-- After a registration that went through, and whatever calls come between, with bcrypt as it is
-- documented: the address, in whatever case and with whatever spaces around it, is that of one
-- user, whose profile the registration answered. Bcrypt takes the password of the registration for
-- that user's, and a login with any password answers with the user's tokens if bcrypt takes it for
-- the user's, and is refused, with nothing changed, if it does not.
pub register_email-login_email :
    (out : Outside) (name email password : Text) (w : State LocalStore) (res : AuthResponse)
    (cs : List Call) (email' guess : Text)
    → IsBcrypt out
    → (register_email local_identity name email password out w).0 ≡ ok res
    → email_key email' ≡ email_key email
    → (u : IdentityUser) × (res.user ≡ profile_of u)
      × (out.bcrypt_compare password u.password ≡ true)
      × (let v = after_all out (register_email local_identity name email password out w).1 cs in
          login_email local_identity email' guess out v ≡ (
            if out.bcrypt_compare guess u.password
            then build_auth_response local_identity u out v
            else (err Failure.invalid_credentials, v)))
register_email-login_email out name email password w res cs email' guess documented done same =
    let w1 = (register_email local_identity name email password out w).1 in
    let v = after_all out w1 cs in
    let reg = register_email-Registered name email password out w done in
    let u = local_user name (email_key email) reg.hashed in
    let stored : Store.get (email_key email') v.users.by_email ≡ some u =
      rw same (after_all-Stays out cs w1 (email_key email) u reg.stored) in
    (
      u,
      reg.shown,
      documented w.salts password reg.hashed reg.made,
      login_email-found email' guess out v u stored,
    )
