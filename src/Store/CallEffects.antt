-- ===== src/Store/CallEffects.antt =====
-- Each operation of the store has an effect: it is rejected, idle, or commits one change.
pub mod Accounts
pub mod Credentials
pub mod Tokens
pub mod Authorization
pub mod Registrations
