-- ===== src/Repository.antt =====
-- The in-memory repositories of auth-service-main/biometric-auth/internal/repository/repository.go.
-- Each method takes the lock for its whole body, so a method is one step of the state. A repository
-- hands out pointers; every caller that writes through one then calls `Update` with it, so the
-- model writes at the `update`.
pub mod Users
pub mod Devices
pub mod Sessions
pub mod Audits
pub mod Challenges
