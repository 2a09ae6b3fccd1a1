-- ===== src/AccessControl/Tables.antt =====
-- internal/adapter/repository/postgres/access_repo.go: its SQL statements on the tables of
-- migrations/001_access_control.sql, with their primary keys, unique columns and references.
use dift_backend_auth.Base.{
  ℕ, suc, Bool, false, not, ◌&&◌, ◌||◌, List, [], ◌∷◌, ◌++◌, map, leb, take, drop, if◌then◌else◌,
  Text, text_eq,
}
use dift_backend_auth.Base.Int.{ℤ, pos, negsuc}
use dift_backend_auth.AccessControl.{
  UserStatus, User, Role, Permission, UserRole, Result, ok, err, Query, Repository, unavailable,
  no_rows, unique_violation, foreign_key_violation, bad_argument,
}

pub record Tables : Type 0 where
  pub users : List User
  pub roles : List Role
  pub permissions : List Permission
  pub role_permissions : List (Text × Text)
  pub user_roles : List UserRole
  -- statements so far
  pub statements : ℕ

-- What the database adds: whether it is reached for the k-th statement, its `now()` there, and the
-- order of its texts.
pub record Database : Type 0 where
  pub reached : ℕ → Bool
  pub now : ℕ → ℕ
  pub precedes : Text → Text → Bool

module _ {A : Type 0} where
  abbrev pub any : (A → Bool) → List A → Bool
  any p [] = false
  any p (x ∷ xs) = p x || any p xs

  unfoldable pub where_ : (A → Bool) → List A → List A
  where_ p [] = []
  where_ p (x ∷ xs) = let rest = where_ p xs in if p x then x ∷ rest else rest

  abbrev pub first : List A → Result A
  first [] = err no_rows
  first (x ∷ xs) = ok x

  unfoldable pub insert_by : (A → A → Bool) → A → List A → List A
  insert_by before x [] = x ∷ []
  insert_by before x (y ∷ ys) =
      let rest = insert_by before x ys in if before x y then x ∷ y ∷ rest else y ∷ rest

  -- `order by`
  unfoldable pub sort_by : (A → A → Bool) → List A → List A
  sort_by before [] = []
  sort_by before (x ∷ xs) = insert_by before x (sort_by before xs)

-- `select distinct`
unfoldable pub distinct : List Text → List Text
distinct [] = []
distinct (k ∷ ks) = let rest = distinct ks in if any (text_eq k) rest then rest else k ∷ rest

-- A statement fails where the database is not reached.
abbrev pub statement : {A : Type 0} → Database → (Tables → Result A × Tables) → Query Tables A
statement db body t =
    let t' = record t { statements = suc t.statements } in
    if db.reached t.statements then body t' else (err unavailable, t')

abbrev pub read : {A : Type 0} → (Tables → Result A) → Tables → Result A × Tables
read f t = (f t, t)

unfoldable pub create_user : Database → User → Query Tables User
create_user db u = statement db (λ t.
    if any (λ v. text_eq v.id u.id || text_eq v.email u.email) t.users
    then (err unique_violation, t)
    else (ok u, record t { users = t.users ++ u ∷ [] }))

unfoldable pub get_user_by_id : Database → Text → Query Tables User
get_user_by_id db id = statement db (read (λ t. first (where_ (λ u. text_eq u.id id) t.users)))

unfoldable pub get_user_by_email : Database → Text → Query Tables User
get_user_by_email db email =
    statement db (read (λ t. first (where_ (λ u. text_eq u.email email) t.users)))

abbrev pub with_status : Text → UserStatus → ℕ → User → User
with_status id status t u =
    if text_eq u.id id then record u { status = status; updated_at = t } else u

-- An update of no row is not an error.
unfoldable pub set_user_status : Database → Text → UserStatus → Query Tables (Unit {0})
set_user_status db id status =
    statement db
      (λ t. (ok tt, record t { users = map (with_status id status (db.now t.statements)) t.users }))

abbrev pub offset : {A : Type 0} → ℕ → ℤ → List A → Result (List A)
offset limit (pos n) xs = ok (take limit (drop n xs))
offset limit (negsuc n) xs = err bad_argument

abbrev pub page : {A : Type 0} → ℤ → ℤ → List A → Result (List A)
page (pos limit) from xs = offset limit from xs
page (negsuc n) from xs = err bad_argument

unfoldable pub list_users : Database → ℤ → ℤ → Query Tables (List User)
list_users db limit from =
    statement db
      (read (λ t. page limit from (sort_by (λ u v. leb v.created_at u.created_at) t.users)))

unfoldable pub create_role : Database → Role → Query Tables Role
create_role db r = statement db (λ t.
    if any (λ v. text_eq v.id r.id || text_eq v.name r.name) t.roles
    then (err unique_violation, t)
    else (let r' = record r { created_at = db.now t.statements } in
        (ok r', record t { roles = t.roles ++ r' ∷ [] })))

unfoldable pub list_roles : Database → Query Tables (List Role)
list_roles db = statement db (read (λ t. ok (sort_by (λ r s. db.precedes r.name s.name) t.roles)))

unfoldable pub create_permission : Database → Permission → Query Tables Permission
create_permission db p = statement db (λ t.
    if any (λ v. text_eq v.id p.id || text_eq v.key p.key) t.permissions
    then (err unique_violation, t)
    else (ok p, record t { permissions = t.permissions ++ p ∷ [] }))

abbrev pub is_grant : Text → Text → Text × Text → Bool
is_grant role_id permission_id (r, p) = text_eq r role_id && text_eq p permission_id

-- `on conflict do nothing` comes before the references are checked.
unfoldable pub grant_permission_to_role : Database → Text → Text → Query Tables (Unit {0})
grant_permission_to_role db role_id permission_id = statement db (λ t.
    if any (is_grant role_id permission_id) t.role_permissions
    then (ok tt, t)
    else if any (λ r. text_eq r.id role_id) t.roles
        && any (λ p. text_eq p.id permission_id) t.permissions
    then (
      ok tt,
      record t { role_permissions = t.role_permissions ++ (role_id, permission_id) ∷ [] },
    )
    else (err foreign_key_violation, t))

abbrev pub is_assignment : Text → Text → Text → UserRole → Bool
is_assignment user_id role_id tenant_id a =
    text_eq a.user_id user_id && text_eq a.role_id role_id && text_eq a.tenant_id tenant_id

abbrev pub assignment : Text → Text → Text → ℕ → UserRole
assignment user_id role_id tenant_id t = record {
  user_id = user_id;
  role_id = role_id;
  tenant_id = tenant_id;
  created_at = t;
}

-- The user need not be there.
unfoldable pub assign_role : Database → Text → Text → Text → Query Tables (Unit {0})
assign_role db user_id role_id tenant_id = statement db (λ t.
    if any (is_assignment user_id role_id tenant_id) t.user_roles
    then (ok tt, t)
    else if any (λ r. text_eq r.id role_id) t.roles
    then (
      ok tt,
      record t {
        user_roles =
            t.user_roles ++ assignment user_id role_id tenant_id (db.now t.statements) ∷ [];
      },
    )
    else (err foreign_key_violation, t))

unfoldable pub remove_role : Database → Text → Text → Text → Query Tables (Unit {0})
remove_role db user_id role_id tenant_id = statement db (λ t. (
  ok tt,
  record t {
    user_roles = where_ (λ a. not (is_assignment user_id role_id tenant_id a)) t.user_roles;
  },
))

-- The joins of `UserPermissions`, innermost first.
abbrev pub keys_of_permission : List Permission → Text → List Text
keys_of_permission [] permission_id = []
keys_of_permission (p ∷ ps) permission_id =
    let rest = keys_of_permission ps permission_id in
    if text_eq p.id permission_id then p.key ∷ rest else rest

abbrev pub keys_of_role : List Permission → List (Text × Text) → Text → List Text
keys_of_role ps [] role_id = []
keys_of_role ps ((r, permission_id) ∷ gs) role_id =
    let rest = keys_of_role ps gs role_id in
    if text_eq r role_id then keys_of_permission ps permission_id ++ rest else rest

abbrev pub keys_of_user :
    List Permission → List (Text × Text) → List UserRole → Text → Text → List Text
keys_of_user ps gs [] user_id tenant_id = []
keys_of_user ps gs (a ∷ more) user_id tenant_id =
    let rest = keys_of_user ps gs more user_id tenant_id in
    if text_eq a.user_id user_id && text_eq a.tenant_id tenant_id
    then keys_of_role ps gs a.role_id ++ rest
    else rest

unfoldable pub user_permissions : Database → Text → Text → Query Tables (List Text)
user_permissions db user_id tenant_id = statement db (
    read (λ t.
      ok (distinct (keys_of_user t.permissions t.role_permissions t.user_roles user_id tenant_id))))

abbrev pub postgres : Database → Repository Tables
postgres db = record {
  create_user = create_user db;
  get_user_by_id = get_user_by_id db;
  get_user_by_email = get_user_by_email db;
  set_user_status = set_user_status db;
  list_users = list_users db;
  create_role = create_role db;
  list_roles = list_roles db;
  create_permission = create_permission db;
  grant_permission_to_role = grant_permission_to_role db;
  assign_role = assign_role db;
  remove_role = remove_role db;
  user_permissions = user_permissions db;
}
