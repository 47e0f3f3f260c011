-- ===== src/Tests.antt =====
-- The theorems at concrete inputs: one store, one user and one call or more for each.
pub mod Fixture
pub mod Chains
pub mod Calls
pub mod Guards
pub mod Managers
pub mod Roles
pub mod Oauth
pub mod Tokens
pub mod Promotions
