-- ===== src/Store.antt =====
-- memory/store.go: the in-memory store. Each operation is a function of the state that returns its
-- result with the state after it, an error's included, since the code changes the maps in place.
pub mod State
pub mod Commits
pub mod Ceremonies
pub mod Revocation
pub mod Users
pub mod Passwords
pub mod Factors
pub mod Sessions
pub mod Pats
pub mod Members
pub mod Oauth
pub mod Admins
pub mod Effects
pub mod Kept
pub mod CallEffects
pub mod Calls
pub mod Outcomes
pub mod Chain
pub mod History
pub mod Inversion
pub mod Revoking
pub mod RevokingCalls
pub mod Lockout
pub mod LoginFailures
pub mod SingleUse
pub mod LastAdmin
pub mod LastMember
