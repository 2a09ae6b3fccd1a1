-- ===== src/Repository/Users.antt =====
-- `inMemoryUserRepo`.
use dift_backend_auth.Base.{◌||◌, Text, text_eq, Bool}
use dift_backend_auth.Store
use dift_backend_auth.Domain.{User}
use dift_backend_auth.Runtime.{World, M, ◌>>=◌, gets, modify, now, or_fail, user_not_found}

abbrev pub set_users : (Store.Store User → Store.Store User) → World → World
set_users f w = record w { db = record w.db { users = f w.db.users } }

unfoldable pub find_by_id : Text → M User
find_by_id id = do or_fail (← gets (λ w. Store.get id w.db.users)) user_not_found

-- Whether a user has the phone number or the address.
abbrev pub has_identifier : Text → User → Bool
has_identifier identifier u = text_eq u.phone identifier || text_eq u.email identifier

unfoldable pub find_by_identifier : Text → M User
find_by_identifier identifier = do
  or_fail (← gets (λ w. Store.find (has_identifier identifier) w.db.users)) user_not_found

unfoldable pub store : User → M (Unit {0})
store user = modify (set_users (Store.put user.id user))

unfoldable pub update : User → M (Unit {0})
update user = do t ← now; modify (set_users (Store.put user.id (record user { updated_at = t })))
