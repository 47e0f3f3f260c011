-- ===== src/Manager/PatScopes.antt =====
-- pat.go: `normalizeScopes`.
use Prim.Native.Char.{code}
use Prim.Native.String.{String}
use credbound.Prelude.{ℕ, Bool, not, ◌&&◌, ◌||◌, List, [], ◌∷◌, str_eq, ◌==◌, leb, if◌then◌else◌}
use credbound.Types.{Error, Result, ok, err}
use credbound.Manager.Roles.{member, is_permission}
use credbound.Manager.Catalog.{sort}

-- `unicode.IsSpace`
abbrev pub is_space : ℕ → Bool
is_space c =
    (leb 9 c && leb c 13)
    || (c == 0x20
        || (c == 0x85
            || (c == 0xa0
                || (c == 0x1680
                    || ((leb 0x2000 c && leb c 0x200a)
                        || (c == 0x2028
                            || (c == 0x2029 || (c == 0x202f || (c == 0x205f || c == 0x3000)))))))))

unfoldable pub trim_left : String → String
trim_left String.[] = String.[]
trim_left (String.◌∷◌ c s) =
    let rest = trim_left s in if is_space (code c) then rest else String.◌∷◌ c s

unfoldable pub trim_right : String → String
trim_right String.[] = String.[]
trim_right (String.◌∷◌ c s) =
    let rest = trim_right s in
    if str_eq rest "" && is_space (code c) then String.[] else String.◌∷◌ c rest

-- `strings.TrimSpace`
unfoldable pub trim_space : String → String
unfolding trim_left trim_right
trim_space text = trim_right (trim_left text)

-- The loop of `normalizeScopes`, with the scopes that it has seen.
unfoldable pub collect_scopes : List String → List String → Result (List String)
unfolding trim_space
collect_scopes seen [] = ok []
collect_scopes seen (raw ∷ scopes) =
    let scope = trim_space raw in
    let repeated = collect_scopes seen scopes in
    let rest = collect_scopes (scope ∷ seen) scopes in
    if not (str_eq scope "*") && not (is_permission scope)
    then err (Error.validation "scopes" "format")
    else if member scope seen
    then repeated
    else elim rest [ ok found ↦ ok (scope ∷ found) | err e ↦ err e ]

unfoldable pub normalize_scopes : List String → Result (List String)
unfolding collect_scopes
normalize_scopes [] = err (Error.validation "scopes" "required")
normalize_scopes (scope ∷ scopes) = elim (collect_scopes [] (scope ∷ scopes)) [
  | ok found ↦ ok (sort found)
  | err e ↦ err e
]
