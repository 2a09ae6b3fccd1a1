-- ===== src/Legacy/Engine/Users.antt =====
-- internal/repository/user.go, on a table with the unique columns of deployments/migrations.sql.
use dift_backend_auth.Base.{
  ℕ, suc, Bool, true, false, not, ◌&&◌, ◌||◌, Option, none, some, if◌then◌else◌, Text, text_eq,
}
use dift_backend_auth.Store
use dift_backend_auth.Legacy.Engine.{User, Outside, State, ok, err, M, ◌>>=◌, conflict, now}
use dift_backend_auth.Legacy.Engine.Tables.{
  query, write_users, is_at, is_kept, found, only_if, first_user,
}

abbrev same_column : Option Text → Option Text → Bool
same_column none s = false
same_column (some t) s = is_at t s

-- Whether the unique columns of another row have a value of the user's.
abbrev pub clashes : User → User → Bool
clashes u v =
    not (text_eq v.id u.id) && (same_column u.email v.email || same_column u.phone v.phone)

abbrev pub any_clash : User → State → Bool
any_clash u w = elim (Store.find (clashes u) w.users) [ none ↦ false | some v ↦ true ]

-- The database fills in the id.
unfoldable pub create : Outside → User → M User
create out user = write_users out λ w.
    let u = record user { id = out.row_id w.statements } in
    if any_clash u w then (err conflict, w.users) else elim (Store.get u.id w.users) [
      | some v ↦ (err conflict, w.users)
      | none ↦ (ok u, Store.put u.id u w.users)
    ]

unfoldable pub get_by_id : Outside → Text → M User
get_by_id out id = query out λ w. found (only_if is_kept (Store.get id w.users))

unfoldable pub get_by_email : Outside → Text → M User
get_by_email out email = query out (first_user out (λ u. is_at email u.email))

unfoldable pub get_by_phone : Outside → Text → M User
get_by_phone out phone = query out (first_user out (λ u. is_at phone u.phone))

unfoldable pub get_by_identifier : Outside → Text → M User
get_by_identifier out t = query out (first_user out (λ u. is_at t u.email || is_at t u.phone))

-- `Save` writes every column, and inserts a row that is not there.
unfoldable pub update : Outside → User → M (Unit {0})
update out u =
    write_users out
      λ w. if any_clash u w then (err conflict, w.users) else (ok tt, Store.put u.id u w.users)

abbrev pub change : Outside → Text → (User → User) → M (Unit {0})
change out id f =
    write_users out λ w. (ok tt, Store.update_all (λ u. if text_eq u.id id then f u else u) w.users)

unfoldable pub incr_failed_login : Outside → Text → M (Unit {0})
incr_failed_login out id =
    change out id λ u. record u { failed_login_count = suc u.failed_login_count }

unfoldable pub reset_failed_login : Outside → Text → M (Unit {0})
reset_failed_login out id =
    change out id λ u. record u { failed_login_count = 0; locked_until = none }

unfoldable pub lock_account : Outside → Text → ℕ → M (Unit {0})
lock_account out id until = change out id λ u. record u { locked_until = some until }

unfoldable pub soft_delete : Outside → Text → M (Unit {0})
soft_delete out id = do t ← now out; change out id λ u. record u { deleted_at = some t }
