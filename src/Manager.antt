-- ===== src/Manager.antt =====
-- The Manager: the operations that a host calls, over the store, the clock, the randomness and the
-- hooks that a configuration gives it.
pub mod State
pub mod Inversion
pub mod Failures
pub mod Config
pub mod Ids
pub mod Audits
pub mod Authn
pub mod StepUp
pub mod Roles
pub mod Catalog
pub mod Tokens
pub mod PatScopes
pub mod Pats
pub mod PatIssuing
pub mod IssuedPats
pub mod Sealing
pub mod Totp
pub mod SpentCodes
pub mod Promotions
pub mod Recoveries
pub mod SecondFactor
pub mod PatRejections
pub mod LivePats
pub mod Authorize
pub mod Sessions
pub mod Passwords
pub mod SignIn
pub mod SignInLookups
pub mod SignIns
pub mod ChangePassword
pub mod PasswordChanges
pub mod Admin
pub mod Gates
pub mod Capable
pub mod Monotonic
pub mod Permits
pub mod LiveSessions
pub mod SignOuts
pub mod CurrentPasswords
