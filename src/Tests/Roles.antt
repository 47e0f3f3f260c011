-- ===== src/Tests/Roles.antt =====
-- A configuration with two roles, and the catalog that it builds.
use credbound.Prelude.{◌≡◌, ◌≢◌, refl, ◌↔◌, true, List, [], ◌∷◌, String}
use credbound.Types.{Error, Result, ok, err}
use credbound.Audit.Encoding.{utf8, utf8_rune}
use credbound.Manager.Config.{CompiledRole}
use credbound.Manager.Roles
use credbound.Manager.Catalog
use credbound.Manager.Catalog.{RoleDefinition, Outcome, done, refused, out_of_fuel}
use credbound.Manager.Catalog.Reach.{Reaches, Carries}
use credbound.Manager.Catalog.Terminates.{build_role_catalog_terminates}
use credbound.Manager.Catalog.Correct.{build_role_catalog_iff}
use credbound.Manager.Catalog.Admin.{build_role_catalog-admin}

abbrev viewer : RoleDefinition
viewer = record { role = "viewer"; permissions = "docs.read" ∷ []; inherits = [] }

abbrev editor : RoleDefinition
editor = record { role = "editor"; permissions = "docs.write" ∷ []; inherits = "viewer" ∷ [] }

abbrev configured : List RoleDefinition
configured = editor ∷ viewer ∷ []

abbrev defined_of : Result (List RoleDefinition) → List RoleDefinition
defined_of (ok ds) = ds
defined_of (err e) = []

abbrev built_of : Outcome (List CompiledRole) → List CompiledRole
built_of (done catalog) = catalog
built_of (refused e) = []
built_of out_of_fuel = []

abbrev same : List String → List String
same names = names

abbrev defined : List RoleDefinition
defined = defined_of (Catalog.definitions_of configured)

abbrev built : List CompiledRole
built = built_of (Catalog.build_role_catalog same configured)

build_role_catalog_terminates_example : Catalog.build_role_catalog same configured ≢ out_of_fuel
build_role_catalog_terminates_example = build_role_catalog_terminates same configured

definitions_of-configured : Catalog.definitions_of configured ≡ ok defined
unfolding Catalog.definitions_of Catalog.add_configured Catalog.extend_definition
    Catalog.find_definition Catalog.put_definition Catalog.definition_or_zero Catalog.is_role_name
    Catalog.normalize_definitions Catalog.unique Catalog.all_permissions Catalog.complete_admin
    Roles.member Roles.is_permission Roles.matches_permission Roles.all_permission_bytes
    Roles.is_permission_byte utf8 utf8_rune
definitions_of-configured = refl

build_role_catalog-configured : Catalog.build_role_catalog same configured ≡ done built
unfolding Catalog.definitions_of Catalog.add_configured Catalog.extend_definition
    Catalog.find_definition Catalog.put_definition Catalog.definition_or_zero Catalog.is_role_name
    Catalog.normalize_definitions Catalog.unique Catalog.all_permissions Catalog.complete_admin
    Catalog.build_role_catalog Catalog.compile_all Catalog.compile Catalog.compile_new
    Catalog.answer_or Catalog.inherit_all Roles.find_role Roles.member Roles.is_permission
    Roles.matches_permission Roles.all_permission_bytes Roles.is_permission_byte utf8 utf8_rune
build_role_catalog-configured = refl

build_role_catalog_iff_example :
    ((Roles.includes built "editor" "viewer" ≡ true) ↔ Reaches defined "editor" "viewer")
    × ((Roles.allows built "editor" "viewer" ≡ true) ↔ Carries defined "editor" "viewer")
build_role_catalog_iff_example =
    build_role_catalog_iff same configured defined built (λ names role. refl)
      definitions_of-configured build_role_catalog-configured "editor" "viewer"

allows-editor : Roles.allows built "editor" "docs.read" ≡ true
unfolding Catalog.definitions_of Catalog.add_configured Catalog.extend_definition
    Catalog.find_definition Catalog.put_definition Catalog.definition_or_zero Catalog.is_role_name
    Catalog.normalize_definitions Catalog.unique Catalog.all_permissions Catalog.complete_admin
    Catalog.build_role_catalog Catalog.compile_all Catalog.compile Catalog.compile_new
    Catalog.answer_or Catalog.inherit_all Roles.find_role Roles.allows Roles.member
    Roles.is_permission Roles.matches_permission Roles.all_permission_bytes Roles.is_permission_byte
    utf8 utf8_rune
allows-editor = refl

build_role_catalog-admin_example : Roles.allows built "admin" "docs.read" ≡ true
build_role_catalog-admin_example =
    build_role_catalog-admin same configured defined built (λ names role. refl)
      definitions_of-configured build_role_catalog-configured "editor" "docs.read" allows-editor

-- Two roles that inherit from each other.
cyclic-refused :
    Catalog.build_role_catalog same (editor ∷ record viewer { inherits = "editor" ∷ [] } ∷ [])
    ≡ refused Error.invalid_input
unfolding Catalog.definitions_of Catalog.add_configured Catalog.extend_definition
    Catalog.find_definition Catalog.put_definition Catalog.definition_or_zero Catalog.is_role_name
    Catalog.normalize_definitions Catalog.unique Catalog.all_permissions Catalog.complete_admin
    Catalog.build_role_catalog Catalog.compile_all Catalog.compile Catalog.compile_new
    Catalog.answer_or Catalog.inherit_all Roles.find_role Roles.allows Roles.member
    Roles.is_permission Roles.matches_permission Roles.all_permission_bytes Roles.is_permission_byte
    utf8 utf8_rune
cyclic-refused = refl
