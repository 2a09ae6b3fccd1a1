-- ===== src/AccessControl/Service.antt =====
-- internal/application/access/service.go, over any repository.
use dift_backend_auth.Base.{
  ℕ, suc, true, false, ◌||◌, List, [], ◌∷◌, ◌++◌, if◌then◌else◌, Text, codes, text_eq, is_empty,
  length,
}
use dift_backend_auth.Base.Int.{ℤ, pos, ltb_ℤ, leb_ℤ}
use dift_backend_auth.Base.Ascii.{to_lower, trim_space}
use dift_backend_auth.AccessControl.{
  UserStatus, User, Role, Permission, Decision, Result, ok, err, Repository, Event, Ambient, State,
}

module _ {S : Type 0} where
  -- A call of the repository.
  abbrev pub with_store : {A : Type 0} → State S → Result A × S → Result A × State S
  with_store w (r, s) = (r, record w { store = s })

  -- `_ = s.events.Publish(…)`: an event that is not published is lost, and nobody is told.
  unfoldable pub publish : Ambient → Event → State S → State S
  publish env e w = record w {
    offered = w.offered ++ e ∷ [];
    events = if env.publishes (length w.offered) then w.events ++ e ∷ [] else w.events;
  }

  -- A call of the repository, and an event where it went through.
  abbrev pub announce :
      {A : Type 0} → (A → Event) → Ambient → State S → Result A × S → Result A × State S
  announce event env w (ok a, s) = (ok a, publish env (event a) (record w { store = s }))
  announce event env w (err e, s) = (err e, record w { store = s })

  abbrev pub draw_id : State S → State S
  draw_id w = record w { ids = suc w.ids }

pub record CreateUserCommand : Type 0 where
  pub email : Text
  pub phone : Text
  pub display_name : Text
  pub metadata : Text

abbrev pub new_user : CreateUserCommand → Text → ℕ → User
new_user cmd id now = record {
  id = id;
  email = to_lower (trim_space cmd.email);
  phone = trim_space cmd.phone;
  display_name = trim_space cmd.display_name;
  status = UserStatus.pending;
  metadata = cmd.metadata;
  created_at = now;
  updated_at = now;
}

-- No limit, or one above 200, means 50.
abbrev pub page_limit : ℤ → ℤ
page_limit limit = if leb_ℤ limit (pos 0) || ltb_ℤ (pos 200) limit then pos 50 else limit

abbrev pub tenant_or_default : Text → Text
tenant_or_default tenant_id = if is_empty tenant_id then codes "default" else tenant_id

abbrev pub granted : List Text → Decision
granted perms = record { allowed = true; reason = codes "permission granted"; permissions = perms }

abbrev pub missing : List Text → Decision
missing perms = record { allowed = false; reason = codes "permission missing"; permissions = perms }

abbrev pub wildcard : Text
wildcard = codes "*"

-- The loop of `Check`, from the permissions that are left.
unfoldable pub decide : List Text → List Text → Text → Decision
decide all [] permission = missing all
decide all (p ∷ ps) permission =
    let rest = decide all ps permission in
    if text_eq p permission || text_eq p wildcard then granted all else rest

abbrev pub decided : Text → Result (List Text) → Result Decision
decided permission (ok perms) = ok (decide perms perms permission)
decided permission (err e) = err e

module _ {S : Type 0} (repo : Repository S) where
  unfoldable pub create_user : CreateUserCommand → Ambient → State S → Result User × State S
  create_user cmd env w =
      let u = new_user cmd (env.uuid w.ids) (env.clock w.reads) in
      announce Event.user_created env (record w { ids = suc w.ids; reads = suc w.reads })
        (repo.create_user u w.store)

  unfoldable pub get_user : Text → State S → Result User × State S
  get_user id w = with_store w (repo.get_user_by_id id w.store)

  unfoldable pub list_users : ℤ → ℤ → State S → Result (List User) × State S
  list_users limit offset w = with_store w (repo.list_users (page_limit limit) offset w.store)

  unfoldable pub activate_user : Text → Ambient → State S → Result (Unit {0}) × State S
  activate_user id env w =
      announce (λ _. Event.user_activated id) env w
        (repo.set_user_status id UserStatus.active w.store)

  unfoldable pub lock_user : Text → Ambient → State S → Result (Unit {0}) × State S
  lock_user id env w =
      announce (λ _. Event.user_locked id) env w (repo.set_user_status id UserStatus.locked w.store)

  unfoldable pub create_role : Text → Text → Ambient → State S → Result Role × State S
  create_role name desc env w = announce Event.role_created env (draw_id w) (
      repo.create_role
        (record { id = env.uuid w.ids; name = trim_space name; description = desc; created_at = 0 })
        w.store)

  unfoldable pub list_roles : State S → Result (List Role) × State S
  list_roles w = with_store w (repo.list_roles w.store)

  unfoldable pub create_permission :
      Text → Text → Text → Text → Ambient → State S → Result Permission × State S
  create_permission key res action desc env w = announce Event.permission_created env (draw_id w) (
      repo.create_permission
        (record {
          id = env.uuid w.ids;
          key = key;
          resource = res;
          action = action;
          description = desc;
        })
        w.store)

  unfoldable pub grant : Text → Text → Ambient → State S → Result (Unit {0}) × State S
  grant role_id permission_id env w =
      announce (λ _. Event.permission_granted role_id permission_id) env w
        (repo.grant_permission_to_role role_id permission_id w.store)

  unfoldable pub assign_role : Text → Text → Text → Ambient → State S → Result (Unit {0}) × State S
  assign_role user_id role_id tenant_id env w =
      let tenant = tenant_or_default tenant_id in
      announce (λ _. Event.role_assigned user_id role_id tenant) env w
        (repo.assign_role user_id role_id tenant w.store)

  unfoldable pub check : Text → Text → Text → State S → Result Decision × State S
  check user_id tenant_id permission w =
      let (perms, s) = repo.user_permissions user_id (tenant_or_default tenant_id) w.store in
      (decided permission perms, record w { store = s })
