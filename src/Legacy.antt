-- ===== src/Legacy.antt =====
-- The earlier engine that auth-service-main keeps under docs/legacy-auth-engine-v2, behind a build
-- tag: the password policy, the one-time codes and the API keys.
pub mod Passwords
pub mod Repeats
pub mod Strengths
pub mod Codes
pub mod Unlimited
pub mod Keys
pub mod Revoked
pub mod Engine
