-- ===== src/AccessControl/Statements.antt =====
-- What each statement on the tables does to the policy.
use dift_backend_auth.Base.{
  ℕ, suc, ◌≡◌, refl, Bool, true, ◌&&◌, ◌||◌, List, [], ◌∷◌, ◌++◌, Text, text_eq, text_eq_iff, arith,
}
use dift_backend_auth.Base.Int.{ℤ}
use dift_backend_auth.AccessControl.{User, UserStatus, Role, Permission, Result, ok, err, Event}
use dift_backend_auth.AccessControl.Tables
use dift_backend_auth.AccessControl.Tables.{
  Tables, Database, any, is_grant, is_assignment, assignment, statement, postgres, read,
}
use dift_backend_auth.AccessControl.Policy.{Policy, policy_of, apply_event, is_named}

Policy_ext :
    {p q : Policy}
    → ((u r t : Text) → p.holds u r t ≡ q.holds u r t)
    → ((r i : Text) → p.grants r i ≡ q.grants r i)
    → ((i k : Text) → p.names i k ≡ q.names i k)
    → p ≡ q
Policy_ext h g n =
    λ i. record { holds = λ u r t. h u r t i; grants = λ r p. g r p i; names = λ p k. n p k i }

any-append :
    {A : Type 0} (p : A → Bool) (xs : List A) (x : A) → any p (xs ++ x ∷ []) ≡ (any p xs || p x)
any-append p [] x = ground arith
any-append p (y ∷ ys) x = ground (arith, any-append p ys x)

-- What a write of the repository does to the policy, by how it ended.
abbrev pub Refines : {A : Type 0} → (A → Event) → Tables → Result A × Tables → Type 0
Refines f t (ok a, s) = policy_of s ≡ apply_event (f a) (policy_of t)
Refines f t (err e, s) = policy_of s ≡ policy_of t

-- Statements that keep the three relations.
pub create_user-Refines :
    (db : Database) (u : User) (t : Tables)
    → Refines Event.user_created t (Tables.create_user db u t)
unfolding Tables.create_user
create_user-Refines db u t = ground arith

pub set_user_status-Refines :
    (event : Event) (db : Database) (id : Text) (status : UserStatus) (t : Tables)
    → apply_event event (policy_of t) ≡ policy_of t
    → Refines (λ _. event) t (Tables.set_user_status db id status t)
unfolding Tables.set_user_status
set_user_status-Refines event db id status t silent = ground arith

pub create_role-Refines :
    (db : Database) (r : Role) (t : Tables)
    → Refines Event.role_created t (Tables.create_role db r t)
unfolding Tables.create_role
create_role-Refines db r t = ground arith

named-added :
    (t : Tables) (p : Permission)
    → policy_of (record t { permissions = t.permissions ++ p ∷ [] })
      ≡ apply_event (Event.permission_created p) (policy_of t)
named-added t p =
    Policy_ext (λ u r n. refl) (λ r i. refl) (λ i k. any-append (is_named i k) t.permissions p)

granted-added :
    (t : Tables) (role permission : Text)
    → policy_of (record t { role_permissions = t.role_permissions ++ (role, permission) ∷ [] })
      ≡ apply_event (Event.permission_granted role permission) (policy_of t)
granted-added t role permission =
    Policy_ext (λ u r n. refl)
      (λ r i. any-append (is_grant r i) t.role_permissions (role, permission)) (λ i k. refl)

held-added :
    (t : Tables) (user role tenant : Text) (now : ℕ)
    → policy_of (record t { user_roles = t.user_roles ++ assignment user role tenant now ∷ [] })
      ≡ apply_event (Event.role_assigned user role tenant) (policy_of t)
held-added t user role tenant now =
    Policy_ext
      (λ u r n. any-append (is_assignment u r n) t.user_roles (assignment user role tenant now))
      (λ r i. refl) (λ i k. refl)

-- What is there already is not changed by being added.
granted-again :
    (t : Tables) (role permission : Text)
    → any (is_grant role permission) t.role_permissions ≡ true
    → policy_of t ≡ apply_event (Event.permission_granted role permission) (policy_of t)
granted-again t role permission there = Policy_ext (λ u r n. refl) (λ r i. again r i) (λ i k. refl)
  where
    again :
        (r i : Text)
        → any (is_grant r i) t.role_permissions
          ≡ (any (is_grant r i) t.role_permissions || is_grant r i (role, permission))
    again r i = ground (arith, text_eq_iff role r, text_eq_iff permission i)

held-again :
    (t : Tables) (user role tenant : Text)
    → any (is_assignment user role tenant) t.user_roles ≡ true
    → policy_of t ≡ apply_event (Event.role_assigned user role tenant) (policy_of t)
held-again t user role tenant there = Policy_ext (λ u r n. again u r n) (λ r i. refl) (λ i k. refl)
  where
    again :
        (u r n : Text)
        → any (is_assignment u r n) t.user_roles ≡ (
            any (is_assignment u r n) t.user_roles
            || (text_eq user u && text_eq role r && text_eq tenant n))
    again u r n = ground (arith, text_eq_iff user u, text_eq_iff role r, text_eq_iff tenant n)

pub create_permission-Refines :
    (db : Database) (p : Permission) (t : Tables)
    → Refines Event.permission_created t (Tables.create_permission db p t)
unfolding Tables.create_permission
create_permission-Refines db p t =
    ground (arith, named-added (record t { statements = suc t.statements }) p)

pub grant-Refines :
    (db : Database) (role permission : Text) (t : Tables)
    → Refines
        (λ _. Event.permission_granted role permission)
        t
        (Tables.grant_permission_to_role db role permission t)
unfolding Tables.grant_permission_to_role
grant-Refines db role permission t = ground (
  arith,
  granted-added (record t { statements = suc t.statements }) role permission,
  granted-again (record t { statements = suc t.statements }) role permission,
)

pub assign-Refines :
    (db : Database) (user role tenant : Text) (t : Tables)
    → Refines
        (λ _. Event.role_assigned user role tenant)
        t
        (Tables.assign_role db user role tenant t)
unfolding Tables.assign_role
assign-Refines db user role tenant t = ground (
  arith,
  held-added (record t { statements = suc t.statements }) user role tenant
      (db.now (suc t.statements)),
  held-again (record t { statements = suc t.statements }) user role tenant,
)

-- Queries change no relation.
pub list_users-same :
    (db : Database) (limit from : ℤ) (t : Tables)
    → policy_of (Tables.list_users db limit from t).1 ≡ policy_of t
unfolding Tables.list_users
list_users-same db limit from t = ground arith

pub get_user-same :
    (db : Database) (id : Text) (t : Tables)
    → policy_of (Tables.get_user_by_id db id t).1 ≡ policy_of t
unfolding Tables.get_user_by_id
get_user-same db id t = ground arith

pub list_roles-same :
    (db : Database) (t : Tables) → policy_of (Tables.list_roles db t).1 ≡ policy_of t
unfolding Tables.list_roles
list_roles-same db t = ground arith

pub user_permissions-same :
    (db : Database) (user tenant : Text) (t : Tables)
    → policy_of (Tables.user_permissions db user tenant t).1 ≡ policy_of t
unfolding Tables.user_permissions
user_permissions-same db user tenant t = ground arith
