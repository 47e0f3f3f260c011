-- ===== src/Types/Primitives.antt =====
-- The primitives that the program takes from Go's standard library and from the vendored UUID
-- package, as parameters: nothing is assumed of them here.
use credbound.Prelude.{String}
use credbound.Types.Accounts.{Uuid}
use credbound.Types.Credentials.{Bytes}

-- `sha256.Sum256`, `hmac.New(sha256.New, key)` of a message, and `UUID.String`.
pub record Crypto : Type 0 where
  pub sha256 : Bytes → Bytes
  pub hmac : Bytes → Bytes → Bytes
  pub uuid_string : Uuid → String
