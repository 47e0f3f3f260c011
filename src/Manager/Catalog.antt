-- ===== src/Manager/Catalog.antt =====
-- workspace_roles.go: `buildRoleCatalog`. Go's sets are lists here, of which only the members are
-- read, and the map of definitions is a list with one entry for each role.
pub mod Terminates
pub mod Reach
pub mod Exact
pub mod Correct
pub mod Admin
use Prim.Native.String.{compare}
use text.Mathlib.Text.{is_lt}
use credbound.Prelude.{
  ℕ, zero, suc, Bool, true, false, not, ◌&&◌, ◌||◌, Option, none, some, List, [], ◌∷◌, ◌++◌, String,
  str_eq, leb, length, map, if◌then◌else◌,
}
use credbound.Types.{Bytes, Error, Result, ok, err}
use credbound.Audit.Encoding.{utf8}
use credbound.Store.Users.{role_admin}
use credbound.Manager.Config.{CompiledRole}
use credbound.Manager.Roles.{find_role, member, is_lower, all_permission_bytes, is_permission}

pub record RoleDefinition : Type 0 where
  pub role : String
  pub permissions : List String
  pub inherits : List String

-- `out_of_fuel` is no result of the code: its recursion has run deeper than allowed.
pub data Outcome (A : Type 0) : Type 0 where
  done : A → Outcome A
  refused : Error → Outcome A
  out_of_fuel : Outcome A

abbrev pub proceed : {A B : Type 0} → Outcome A → (A → Outcome B) → Outcome B
proceed (done a) f = f a
proceed (refused e) f = refused e
proceed out_of_fuel f = out_of_fuel

unfoldable pub matches_role : Bytes → Bool
matches_role [] = false
matches_role (b ∷ bs) = is_lower b && (all_permission_bytes bs && leb (length bs) 63)

-- `roleNamePattern`
unfoldable pub is_role_name : String → Bool
unfolding matches_role
is_role_name text = matches_role (utf8 text)

unfoldable pub find_definition : String → List RoleDefinition → Option RoleDefinition
find_definition role [] = none
find_definition role (d ∷ ds) = if str_eq d.role role then some d else find_definition role ds

-- `definitions[d.Role] = d`
unfoldable pub put_definition : RoleDefinition → List RoleDefinition → List RoleDefinition
put_definition d [] = d ∷ []
put_definition d (e ∷ ds) = if str_eq e.role d.role then d ∷ ds else e ∷ put_definition d ds

-- `definitions[role]`, with Go's zero value for a missing role.
unfoldable pub definition_or_zero : Option RoleDefinition → RoleDefinition
definition_or_zero none = record { role = ""; permissions = []; inherits = [] }
definition_or_zero (some d) = d

abbrev pub role_member : String
role_member = "member"

abbrev pub built_in : List RoleDefinition
built_in =
    record { role = role_member; permissions = "workspace.access" ∷ []; inherits = [] }
    ∷ record {
      role = role_admin;
      permissions =
          "workspace.access" ∷ "workspace.users.read" ∷ "workspace.users.write"
          ∷ "workspace.settings.write" ∷ "workspace.rbac.write" ∷ "workspace.audit.read"
          ∷ "workspace.credentials.manage" ∷ "oauth.resource.manage" ∷ [];
      inherits = role_member ∷ [];
    }
    ∷ []

-- Every role but the built-in ones inherits from the members' role.
unfoldable pub with_member : String → List String → List String
with_member role inherits =
    if not (str_eq role role_member)
      && (not (str_eq role role_admin) && not (member role_member inherits))
    then inherits ++ role_member ∷ []
    else inherits

unfoldable pub extend_definition : RoleDefinition → RoleDefinition → RoleDefinition
unfolding with_member
extend_definition raw old = record {
  role = raw.role;
  permissions = old.permissions ++ raw.permissions;
  inherits = with_member raw.role (old.inherits ++ raw.inherits);
}

-- The loop over the configured roles.
unfoldable pub add_configured :
    List RoleDefinition → List RoleDefinition → Result (List RoleDefinition)
unfolding extend_definition
add_configured ds [] = ok ds
add_configured ds (raw ∷ raws) =
    let added =
      put_definition (extend_definition raw (definition_or_zero (find_definition raw.role ds)))
        ds in
    let rest = add_configured added raws in
    if is_role_name raw.role then rest else err Error.invalid_input

-- `slices.Sort`
unfoldable pub insert_sorted : String → List String → List String
insert_sorted x [] = x ∷ []
insert_sorted x (y ∷ ys) = if is_lt (compare y x) then y ∷ insert_sorted x ys else x ∷ y ∷ ys

unfoldable pub sort : List String → List String
unfolding insert_sorted
sort [] = []
sort (x ∷ xs) = insert_sorted x (sort xs)

-- `slices.Compact`: of equal neighbours the first one stays.
unfoldable pub drop_equal : String → List String → List String
drop_equal x [] = x ∷ []
drop_equal x (y ∷ ys) = if str_eq x y then drop_equal x ys else x ∷ drop_equal y ys

unfoldable pub compact : List String → List String
unfolding drop_equal
compact [] = []
compact (x ∷ xs) = drop_equal x xs

-- `uniqueWorkspacePermissions`, `uniqueRoles`
unfoldable pub unique : List String → List String
unfolding sort compact
unique values = compact (sort values)

unfoldable pub all_permissions : List String → Bool
all_permissions [] = true
all_permissions (p ∷ ps) = is_permission p && all_permissions ps

abbrev pub normalize_definition : RoleDefinition → RoleDefinition
normalize_definition d = record d {
  permissions = unique d.permissions;
  inherits = unique d.inherits;
}

-- The loop that makes the lists unique and checks the permissions.
unfoldable pub normalize_definitions : List RoleDefinition → Result (List RoleDefinition)
normalize_definitions [] = ok []
normalize_definitions (d ∷ ds) =
    let rest : Result (List RoleDefinition) = elim (normalize_definitions ds) [
      | ok es ↦ ok (normalize_definition d ∷ es)
      | err e ↦ err e
    ] in
    if all_permissions (unique d.permissions) then rest else err Error.invalid_input

-- `allPermissions`
unfoldable pub permissions_of : List RoleDefinition → List String
permissions_of [] = []
permissions_of (d ∷ ds) = d.permissions ++ permissions_of ds

-- The administrators' role carries every permission.
unfoldable pub complete_admin : List RoleDefinition → List RoleDefinition
complete_admin ds =
    let admin = definition_or_zero (find_definition role_admin ds) in
    put_definition
      (record {
        role = role_admin;
        permissions = unique (admin.permissions ++ permissions_of ds);
        inherits = admin.inherits;
      })
      ds

unfoldable pub complete : Result (List RoleDefinition) → Result (List RoleDefinition)
complete (err e) = err e
complete (ok ds) = ok (complete_admin ds)

unfoldable pub normalize_all : Result (List RoleDefinition) → Result (List RoleDefinition)
normalize_all (err e) = err e
normalize_all (ok ds) = normalize_definitions ds

-- The definitions that are compiled.
unfoldable pub definitions_of : List RoleDefinition → Result (List RoleDefinition)
unfolding complete normalize_all
definitions_of configured = complete (normalize_all (add_configured built_in configured))

abbrev pub own_role : String → RoleDefinition → CompiledRole
own_role role d = record { name = role; roles = role ∷ []; permissions = d.permissions }

abbrev pub merge_role : CompiledRole → CompiledRole → CompiledRole
merge_role result inherited = record result {
  roles = inherited.roles ++ result.roles;
  permissions = inherited.permissions ++ result.permissions;
}

abbrev pub Compiled : Type 0
Compiled = CompiledRole × List CompiledRole

-- The loop over the inherited roles, by what compiles one of them.
unfoldable pub inherit_all :
    (String → List CompiledRole → Outcome Compiled)
    → List String
    → CompiledRole
    → List CompiledRole
    → Outcome Compiled
inherit_all compile_one [] result catalog = done (result, catalog)
inherit_all compile_one (role ∷ roles) result catalog =
    proceed (compile_one role catalog)
      λ (inherited, catalog'). inherit_all compile_one roles (merge_role result inherited) catalog'

-- `catalog.roles[role] = result`
abbrev pub record_role : Outcome Compiled → Outcome Compiled
record_role outcome = proceed outcome λ (result, catalog). done (result, result ∷ catalog)

-- A role that is in the catalog is not compiled again.
unfoldable pub answer_or :
    Option CompiledRole → List CompiledRole → Outcome Compiled → Outcome Compiled
answer_or none catalog compiling = compiling
answer_or (some compiled) catalog compiling = done (compiled, catalog)

-- What `compile` does with a role that is not in the catalog, by its definition.
unfoldable pub compile_new :
    (String → List CompiledRole → Outcome Compiled)
    → List String
    → String
    → List CompiledRole
    → Option RoleDefinition
    → Outcome Compiled
compile_new compile_one visiting role catalog none = refused Error.invalid_input
compile_new compile_one visiting role catalog (some d) =
    if member role visiting
    then refused Error.invalid_input
    else record_role (inherit_all compile_one d.inherits (own_role role d) catalog)

-- The closure `compile`. A role is being visited exactly while the calls below its own run, so
-- those roles are an argument; the visited ones are those of the catalog, which is asked first.
unfoldable pub compile :
    List RoleDefinition → ℕ → List String → String → List CompiledRole → Outcome Compiled
compile ds zero visiting role catalog = out_of_fuel
compile ds (suc fuel) visiting role catalog = answer_or (find_role role catalog) catalog (
    compile_new (compile ds fuel (role ∷ visiting)) visiting role catalog (find_definition role ds))

unfoldable pub compile_all :
    List RoleDefinition → ℕ → List String → List CompiledRole → Outcome (List CompiledRole)
compile_all ds fuel [] catalog = done catalog
compile_all ds fuel (role ∷ roles) catalog =
    proceed (compile ds fuel [] role catalog)
      λ (compiled, catalog'). compile_all ds fuel roles catalog'

abbrev pub role_names : List RoleDefinition → List String
role_names = map (λ d. d.role)

-- `order` gives the order in which Go runs through the map of definitions.
unfoldable pub compile_definitions :
    (List String → List String) → Result (List RoleDefinition) → Outcome (List CompiledRole)
compile_definitions order (err e) = refused e
compile_definitions order (ok ds) = compile_all ds (suc (length ds)) (order (role_names ds)) []

unfoldable pub build_role_catalog :
    (List String → List String) → List RoleDefinition → Outcome (List CompiledRole)
unfolding compile_definitions
build_role_catalog order configured = compile_definitions order (definitions_of configured)
