-- ===== src/Manager/Roles.antt =====
-- workspace_roles.go: the compiled role catalog's `normalize`, `includes` and `allows`, and the
-- grammar of permissions.
use credbound.Prelude.{
  ℕ, Bool, true, false, ◌&&◌, ◌||◌, Option, none, some, List, [], ◌∷◌, String, str_eq, ◌==◌, leb,
  length, if◌then◌else◌,
}
use credbound.Types.{Bytes, Error, Result, ok, err}
use credbound.Audit.Encoding.{utf8}
use credbound.Manager.Config.{CompiledRole}

unfoldable pub find_role : String → List CompiledRole → Option CompiledRole
find_role role [] = none
find_role role (r ∷ rs) = if str_eq r.name role then some r else find_role role rs

unfoldable pub member : String → List String → Bool
member x [] = false
member x (y ∷ ys) = str_eq y x || member x ys

unfoldable pub normalize : List CompiledRole → String → Result String
unfolding find_role
normalize catalog role = elim (find_role role catalog) [
  | none ↦ err (Error.validation "role" "unknown")
  | some r ↦ ok role
]

unfoldable pub includes : List CompiledRole → String → String → Bool
unfolding find_role member
includes catalog role wanted = elim (find_role role catalog) [
  | none ↦ false
  | some r ↦ member wanted r.roles
]

unfoldable pub allows : List CompiledRole → String → String → Bool
unfolding find_role member
allows catalog role permission = elim (find_role role catalog) [
  | none ↦ false
  | some r ↦ member permission r.permissions
]

abbrev pub is_lower : ℕ → Bool
is_lower b = leb b'a' b && leb b b'z'

unfoldable pub is_permission_byte : ℕ → Bool
is_permission_byte b =
    is_lower b || ((leb b'0' b && leb b b'9') || (b == b'.' || (b == b'_' || b == b'-')))

unfoldable pub all_permission_bytes : Bytes → Bool
unfolding is_permission_byte
all_permission_bytes [] = true
all_permission_bytes (b ∷ bs) = is_permission_byte b && all_permission_bytes bs

unfoldable pub matches_permission : Bytes → Bool
unfolding all_permission_bytes
matches_permission [] = false
matches_permission (b ∷ bs) = is_lower b && (all_permission_bytes bs && leb (length bs) 127)

-- `workspacePermissionPattern`
unfoldable pub is_permission : String → Bool
unfolding matches_permission
is_permission text = matches_permission (utf8 text)
