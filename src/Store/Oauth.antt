-- ===== src/Store/Oauth.antt =====
-- memory/oauth.go: the authorization server's part of the in-memory store.
pub mod Revocation
pub mod Issuers
pub mod Initials
pub mod Clients
pub mod Codes
pub mod Refresh
pub mod Kept
pub mod SingleUse
pub mod Families
pub mod GrantRevocation
pub mod Disabling
pub mod Index
