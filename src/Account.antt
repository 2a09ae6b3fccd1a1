-- ===== src/Account.antt =====
-- The login by email of auth-service-main: the identity gateway
-- (internal/interface/repository) and the store that stands for it in local use
-- (internal/adapter/outbound/identity/local_identity_store.go).
pub mod Service
pub mod Emails
pub mod Handlers
pub mod Login
pub mod Tokens
use dift_backend_auth.Base.{
  ℕ, Bool, true, false, Option, none, some, List, [], ◌∷◌, ◌++◌, ◌==◌, map, if◌then◌else◌, Text,
  codes,
}
use dift_backend_auth.Base.Ascii.{to_lower, trim_space}
use dift_backend_auth.Store

pub record IdentityUser : Type 0 where
  pub id : Text
  pub name : Text
  pub email : Text
  pub phone : Text
  pub password : Text

-- The errors of the gateways and of the service; `unavailable` is one of a gateway's own.
pub data Failure : Type 0 where
  unavailable email_exists user_not_found invalid_credentials invalid_refresh_token : Failure
  invalid_access_token invalid_token_type subject_mismatch hash_failed sign_failed : Failure

pub data Result (A : Type 0) : Type 0 where
  ok : A → Result A
  err : Failure → Result A

-- The gateway's methods on its state. A user who is not there is no error.
pub record IdentityGateway (S : Type 0) : Type 0 where
  pub get_user_by_email : Text → S → Result (Option IdentityUser) × S
  pub create_email_user : (name email password : Text) → S → Result IdentityUser × S
  pub get_user_roles : Text → S → Result (List Text) × S

pub record LocalStore : Type 0 where
  pub by_email : Store.Store IdentityUser
  pub user_role : Store.Store (List Text)

abbrev pub new_local_store : LocalStore
new_local_store = record { by_email = []; user_role = [] }

abbrev pub email_key : Text → Text
email_key email = to_lower (trim_space email)

unfoldable pub get_user_by_email : Text → LocalStore → Result (Option IdentityUser) × LocalStore
get_user_by_email email s = (ok (Store.get (email_key email) s.by_email), s)

-- `strings.ReplaceAll(key, "@", "_")`
abbrev pub without_at : Text → Text
without_at t = map (λ c. if c == b'@' then b'_' else c) t

abbrev pub id_of : Text → Text
id_of key = codes "usr_" ++ without_at key

abbrev pub local_user : (name key password : Text) → IdentityUser
local_user name key password = record {
  id = id_of key;
  name = trim_space name;
  email = key;
  phone = [];
  password = password;
}

abbrev pub user_roles : List Text
user_roles = codes "user" ∷ []

abbrev pub added : IdentityUser → LocalStore → LocalStore
added u s = record {
  by_email = Store.put u.email u s.by_email;
  user_role = Store.put u.id user_roles s.user_role;
}

unfoldable pub create_email_user :
    (name email password : Text) → LocalStore → Result IdentityUser × LocalStore
create_email_user name email password s = elim (Store.get (email_key email) s.by_email) [
  | some u ↦ (err email_exists, s)
  | none ↦ let u = local_user name (email_key email) password in (ok u, added u s)
]

unfoldable pub get_user_roles : Text → LocalStore → Result (List Text) × LocalStore
get_user_roles user_id s = elim (Store.get user_id s.user_role) [
  | some roles ↦ (ok roles, s)
  | none ↦ (ok user_roles, s)
]

abbrev pub local_identity : IdentityGateway LocalStore
local_identity = record {
  get_user_by_email = get_user_by_email;
  create_email_user = create_email_user;
  get_user_roles = get_user_roles;
}
