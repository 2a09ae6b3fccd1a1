-- ===== src/AccessControl.antt =====
-- access-control-service: the domain model (internal/domain), the interface of the repository
-- (internal/port/repository.go), and what the service keeps.
pub mod Tables
pub mod Service
pub mod Policy
pub mod Checks
pub mod Statements
pub mod Refinement
pub mod Events
pub mod Router
use dift_backend_auth.Base.{ℕ, List, [], ◌∷◌, ◌++◌, Text, Bool}
use dift_backend_auth.Base.Int.{ℤ}

pub data UserStatus : Type 0 where
  pending active locked disabled deleted : UserStatus

-- The metadata is its JSON text.
pub record User : Type 0 where
  pub id : Text
  pub email : Text
  pub phone : Text
  pub display_name : Text
  pub status : UserStatus
  pub metadata : Text
  pub created_at : ℕ
  pub updated_at : ℕ

pub record Role : Type 0 where
  pub id : Text
  pub name : Text
  pub description : Text
  pub created_at : ℕ

pub record Permission : Type 0 where
  pub id : Text
  pub key : Text
  pub resource : Text
  pub action : Text
  pub description : Text

pub record UserRole : Type 0 where
  pub user_id : Text
  pub role_id : Text
  pub tenant_id : Text
  pub created_at : ℕ

pub record Decision : Type 0 where
  pub allowed : Bool
  pub reason : Text
  pub permissions : List Text

-- Why a statement fails: the database is not reached, no row matches, a constraint is violated, or
-- an argument is refused.
pub data Failure : Type 0 where
  unavailable no_rows unique_violation foreign_key_violation bad_argument : Failure

pub data Result (A : Type 0) : Type 0 where
  ok : A → Result A
  err : Failure → Result A

-- What a repository does to its state.
abbrev pub Query : Type 0 → Type 0 → Type 0
Query S A = S → Result A × S

pub record Repository (S : Type 0) : Type 0 where
  pub create_user : User → Query S User
  pub get_user_by_id : Text → Query S User
  pub get_user_by_email : Text → Query S User
  pub set_user_status : Text → UserStatus → Query S (Unit {0})
  pub list_users : ℤ → ℤ → Query S (List User)
  pub create_role : Role → Query S Role
  pub list_roles : Query S (List Role)
  pub create_permission : Permission → Query S Permission
  pub grant_permission_to_role : Text → Text → Query S (Unit {0})
  pub assign_role : Text → Text → Text → Query S (Unit {0})
  pub remove_role : Text → Text → Text → Query S (Unit {0})
  pub user_permissions : Text → Text → Query S (List Text)

-- What the publisher is called with, by subject.
pub data Event : Type 0 where
  user_created : User → Event
  user_activated : Text → Event
  user_locked : Text → Event
  role_created : Role → Event
  permission_created : Permission → Event
  permission_granted : (role_id permission_id : Text) → Event
  role_assigned : (user_id role_id tenant_id : Text) → Event

-- `uuid k` is the k-th identifier drawn, `clock k` the k-th reading of the clock, and `publishes k`
-- whether the k-th call of the publisher ends without an error.
pub record Ambient : Type 0 where
  pub uuid : ℕ → Text
  pub clock : ℕ → ℕ
  pub publishes : ℕ → Bool

-- The repository's state, the events of the calls of the publisher, those of them that were
-- published, and how often the ambient was asked.
pub record State (S : Type 0) : Type 0 where
  pub store : S
  pub offered : List Event
  pub events : List Event
  pub ids : ℕ
  pub reads : ℕ
