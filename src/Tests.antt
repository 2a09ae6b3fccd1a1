-- ===== src/Tests.antt =====
-- Inputs on which the code runs, and the theorems at inputs that meet their hypotheses.
mod Codec
mod Samples
mod Program
mod Tokens
mod Journey
mod Sessions
mod Biometrics
mod Limits
mod Http
mod Access
mod Verifying
mod Accounts
mod OpenTokens
mod Earlier
mod Opened
mod Engine
mod SecondFactor
