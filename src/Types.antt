-- ===== src/Types.antt =====
-- types.go, oauth_types.go and errors.go: the records, the enumerations and the errors that the
-- store and the manager share.
mod Errors
mod Accounts
mod Credentials
mod Oauth
mod Audits
mod Primitives
pub use Errors.*
pub use Accounts.*
pub use Credentials.*
pub use Oauth.*
pub use Audits.*
pub use Primitives.*
