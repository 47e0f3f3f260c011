-- ===== src/Manager/Authn.antt =====
-- types.go: `Authentication`, `Interactive`, `HasScope`.
use credbound.Prelude.{ℕ, Bool, true, false, ◌||◌, List, [], ◌∷◌, String, str_eq, if◌then◌else◌}
use credbound.Types.{Uuid, Time, Bytes, AuthMethod}

pub record Authentication : Type 0 where
  pub user_id : Uuid
  pub method : AuthMethod
  pub level : ℕ
  pub authenticated_at : Time
  pub second_factor_required : Bool
  pub workspace_id : Uuid
  pub scopes : List String
  pub credential_digest : Bytes

abbrev pub aal1 : ℕ
aal1 = 1

abbrev pub aal2 : ℕ
aal2 = 2

unfoldable pub interactive_method : AuthMethod → Bool
interactive_method AuthMethod.password = true
interactive_method AuthMethod.totp = true
interactive_method AuthMethod.passkey = true
interactive_method AuthMethod.sso = true
interactive_method AuthMethod.email = true
interactive_method AuthMethod.pat = false
interactive_method AuthMethod.unset = false

unfoldable pub interactive : Authentication → Bool
unfolding interactive_method
interactive authn = interactive_method authn.method

unfoldable pub scope_matches : String → List String → Bool
scope_matches required [] = false
scope_matches required (scope ∷ scopes) =
    (str_eq scope required || str_eq scope "*") || scope_matches required scopes

unfoldable pub has_scope : Authentication → String → Bool
unfolding scope_matches
has_scope authn required = if str_eq required "" then true else scope_matches required authn.scopes

-- `len(authn.Scopes) > 0`
abbrev pub is_scoped : Authentication → Bool
is_scoped authn = elim authn.scopes [ [] ↦ false | _ ↦ true ]
