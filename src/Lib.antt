-- ===== src/Lib.antt =====
-- Verification of the authentication backend: auth-service-main with its biometric-auth service, its
-- own verification and email login services and the earlier engine under docs, and
-- access-control-service.
--
-- The programs. In biometric-auth a mobile app logs in with a password, enrols a device's public key,
-- and from then on logs in and steps up by signing a challenge. Services hold the logic: tokens (signed
-- with HMAC, issued in pairs, rotated on refresh), devices (registered, enrolled, revoked), challenges
-- and biometric logins, accounts (login, lockout, logout), and the audit log; repositories hold their
-- state, and handlers call the services behind a chain of middlewares. A service calls the repositories,
-- the cryptography and the other services; AuthService calls all of them. The auth-service beside it
-- verifies one-time codes, faces and risks, and registers and logs in users by email over an identity
-- gateway. The access-control service keeps users, roles, permissions and their grants in a database,
-- publishes an event for every write, and decides what a user may do.
--
-- The files of biometric-auth, with the code each models (paths below
-- auth-service-main/biometric-auth/internal):
--   Domain            domain/models.go: the records and enumerations
--   Runtime           config/config.go, the calls that leave the repository, and the monad of a method
--   Runtime/Frame     effects of a call within a relation; Runtime/Inversion: a call that went through
--   Store, Repository repository/repository.go: a map as an association list, one file per repository
--   Encoding          what the code uses of encoding/base64, encoding/hex and strings.Split
--   Crypto            service/crypto.go; Crypto/Assumed: what is assumed of the code outside
--   Audit             service/audit.go
--   Token             service/token.go; its children hold the theorems on signing, issuing, rotation,
--                     replay, revocation, step-up and acceptance
--   Device            service/device.go; Device/Trust, Device/Revocation
--   Drift             checkTimestampDrift of service/biometric.go, on 64-bit durations
--   Biometric         service/biometric.go; Biometric/Issuing, Consumption, Soundness, Replay,
--                     Enrolment
--   Auth              service/auth.go up to Login; Auth/Access: the rest of it; Auth/Lockout, Opening,
--                     Soundness, Logout
--   Middleware        middleware/middleware.go; Middleware/Gates, Middleware/RateLimiter/Window
--                     and Cleaning
--   Http              handler/handler.go and the routes of ../main.go: Http/Auth, Biometric and Devices
--                     hold the handlers, Http/Server the chain in front of them; Http/Gates, Always,
--                     StepUp, Kept and Codes the theorems on a request and on requests in turn
--   Invariant         relations that every operation keeps; Invariant/Reachable has the calls of the
--                     handlers as steps between states
--
-- The files of the other services (paths from the repository's root):
--   Verification      auth-service-main/internal/service/verification_service.go;
--                     Verification/Handlers: the handlers and routes; Once, Waiting, Trail, Risk
--   Account           auth-service-main/internal: Account has the gateway and the local store, Service
--                     service/auth_service.go and utils, Handlers adapter/inbound/http/auth_handler.go,
--                     Emails pkg/authguard; Account/Login and Account/Tokens
--   AccessControl     access-control-service/internal: AccessControl has domain and port, Tables the SQL
--                     of adapter/repository/postgres, Service application/access, Router adapter/http;
--                     Policy the abstract policy, Statements, Checks and Refinement that the tables
--                     implement it, Events what is published
--   Legacy            auth-service-main/docs/legacy-auth-engine-v2: Passwords pkg/validator, Codes
--                     internal/otp and Keys internal/apikey, both on internal/repository/stores.go and
--                     internal/crypto; Repeats, Strengths, Unlimited, Revoked
--   Legacy/Engine     the earlier engine's users and sessions: Users, Sessions, Links and Trail
--                     internal/repository, Tokens pkg/jwt, Secrets internal/crypto, Policy, Service,
--                     Login and Access internal/auth/service.go, Handlers handler.go and the check of
--                     a token in internal/middleware; Frame, Kept, Served and Requests what requests keep,
--                     Padded that its encoding decodes, Opened, Sound, Ended, Capped, Reused,
--                     Restored and Confirmed the theorems
--   Tests             sample environments, runs of the code, and the theorems at concrete inputs
--
-- How the code is rendered. A method is a function in the monad M: it reads the environment, takes
-- the state (the four repositories, the audit log, and how often the clock and the random source were
-- read) and ends with a value, an error or a panic; what was written before an error or a panic stays
-- written. A nil pointer that the code dereferences is a panic. Errors are told apart as far as
-- errors.Is tells them apart. Texts are lists of byte values. The write through a pointer that a
-- repository returned is rendered together with the Update that follows it.
-- The other services are functions of their state that return a result and the new state, for the
-- earlier engine's users and sessions in a monad of their own; a service over an interface takes a
-- record of the interface's methods, IdentityGateway and Repository, and an implementation is such a
-- record. A request of the process is one step: the limiter, then the chain.
--
-- Bounds. Times of the server are nanoseconds since 1970 as natural numbers, durations of the
-- configuration are not negative, counters that the code only increments are natural numbers. A
-- client's timestamp is a signed 64-bit number of seconds, and the drift check wraps and saturates as
-- Go's does; so does the sum in paginate. Every loop is a recursion on a list or a count, but for the
-- digits of a number, which are computed on fuel: the number's successor, which is more than it has digits.
--
-- Parameters. The record Env of Runtime holds the code that is not in the repository: the clock, the
-- random source, SHA-256, HMAC, Argon2, JSON, PEM and X.509 parsing, signature verification.
-- Crypto/Assumed states what theorems assume of it; Tests/Samples has an environment of which it
-- holds. Verification, Account, AccessControl, Legacy/Codes, Legacy/Keys and Legacy/Engine have such
-- records of their own: providers, bcrypt and the JWT library, identifiers, whether the database or
-- Redis is reached, and which calls of the publisher end without an error. A body of a request is
-- what the JSON library decodes, a route what the router matches, or that it matches none, and the
-- address what RealIP leaves. Texts that are trimmed or lowered are ASCII.
--
-- Not modelled. Process start and configuration loading; logs and metrics; the details map of an audit
-- record, which nothing reads; that a map's order of iteration is open (the order of insertion stands
-- for it); the time limit of access-control-service's handler. Of auth-service-main, the middlewares
-- around gin, two of which are declared twice, and the gRPC client. Of the earlier engine, everything but
-- the passwords, the one-time codes, the API keys, and the users and sessions without the faces, whose
-- comparison is in floating point. The engine wiring of access-control-service. Generated code.
pub mod Base
pub mod Store
pub mod Domain
pub mod Runtime
pub mod Legacy
pub mod Verification
pub mod Encoding
pub mod Crypto
pub mod Repository
pub mod Audit
pub mod Token
pub mod Device
pub mod Drift
pub mod Biometric
pub mod AccessControl
pub mod Account
pub mod Auth
pub mod Middleware
pub mod Http
pub mod Invariant
mod Tests
