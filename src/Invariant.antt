-- ===== src/Invariant.antt =====
-- Relations between the state before and after an operation that hold of every operation of the
-- services, from the writes of the repositories.
pub mod Steps
pub mod Services
pub mod Logins
pub mod Reachable
pub mod Keyed
pub mod Trail
use dift_backend_auth.Base.{ℕ, Text, Bool}
use dift_backend_auth.Store
use dift_backend_auth.Domain.{User, Device, Session, SessionStatus, Challenge, AuditLog}
use dift_backend_auth.Runtime.{World, M, modify}
use dift_backend_auth.Runtime.Frame.{IsFrame, Within}
use dift_backend_auth.Repository.Users.{set_users}
use dift_backend_auth.Repository.Devices.{set_devices}
use dift_backend_auth.Repository.Sessions.{set_sessions, mark_family, mark_user}
use dift_backend_auth.Repository.Challenges.{set_challenges}
use dift_backend_auth.Base.{◌++◌, [], ◌∷◌}

-- A relation that each write of a repository keeps.
pub record IsKept (R : World → World → Type 0) : Type 0 where
  pub frame : IsFrame R
  pub user : (u : User) → Within R (modify (set_users (Store.put u.id u)))
  pub device : (d : Device) → Within R (modify (set_devices (Store.put d.id d)))
  pub session : (s : Session) → Within R (modify (set_sessions (Store.put s.id s)))
  pub family :
      (f : Text) (status : SessionStatus)
      → Within R (modify (set_sessions (Store.update_all (mark_family f status))))
  pub of_user : (u : Text) → Within R (modify (set_sessions (Store.update_all (mark_user u))))
  pub challenge : (c : Challenge) → Within R (modify (set_challenges (Store.put c.id c)))
  pub log : (l : AuditLog) → Within R (modify (λ w. record w { audits = w.audits ++ l ∷ [] }))
