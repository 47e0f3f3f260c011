-- ===== src/Manager/Catalog/Exact.antt =====
-- The compiled roles list exactly what their definitions reach and carry.
use credbound.Prelude.{
  ℕ, zero, suc, ◌≡◌, refl, sym, subst, Bool, true, false, Option, none, some, List, [], ◌∷◌, ◌++◌,
  String, str_eq, eq_iff, arith, ◌⊎◌, inl, inr, ◌↔◌, Bool-cases, if◌then◌else◌,
}
use credbound.Types.{Error}
use credbound.Manager.Config.{CompiledRole}
use credbound.Manager.Roles.{find_role, member}
use credbound.Manager.Catalog.{
  RoleDefinition, Outcome, done, refused, out_of_fuel, proceed, find_definition, Compiled, own_role,
  merge_role, inherit_all, record_role, answer_or, compile_new, compile,
}
use credbound.Manager.Catalog.Reach.{
  Reaches, here, inherited, Carries, Reaches-cases, Carries-cases, not-member-nil,
  member-append_iff, member-cons_iff, find_role-name, IsExact, AllExact, find_role-IsExact,
}

pub proceed-done :
    {A B : Type 0} (r : Outcome A) (f : A → Outcome B) (b : B)
    → proceed r f ≡ done b
    → (a : A) × (r ≡ done a) × (f a ≡ done b)
proceed-done (done a) f b h = (a, refl, h)
proceed-done (refused e) f b h = absurd (cc)
proceed-done out_of_fuel f b h = absurd (cc)

-- The roles of the first catalog are roles of the second one.
abbrev pub Keeps : List CompiledRole → List CompiledRole → Type 0
Keeps catalog catalog' =
    (role : String) (c : CompiledRole)
    → find_role role catalog ≡ some c
    → (c' : CompiledRole) × (find_role role catalog' ≡ some c')

Keeps-cons : (c : CompiledRole) (catalog : List CompiledRole) → Keeps catalog (c ∷ catalog)
unfolding find_role
Keeps-cons c catalog role d h = elim (Bool-cases (str_eq c.name role)) [
  | inl same ↦ (c, ground arith)
  | inr other ↦ (d, ground arith)
]

find_role-cons :
    (c : CompiledRole) (catalog : List CompiledRole) → find_role c.name (c ∷ catalog) ≡ some c
unfolding find_role
find_role-cons c catalog = ground (arith, eq_iff c.name c.name)

module _ (ds : List RoleDefinition) where
  -- What one compilation has done to the catalog.
  pub record IsCompiled (role : String) (catalog : List CompiledRole) (c : CompiledRole)
      (catalog' : List CompiledRole) : Type 0 where
    pub named : c.name ≡ role
    pub exact : IsExact ds c
    pub all : AllExact ds catalog'
    pub keeps : Keeps catalog catalog'
    pub listed : (c' : CompiledRole) × (find_role role catalog' ≡ some c')

  -- What the loop over the inherited roles has gathered on top of a first role.
  record Gathered (roles : List String) (base : CompiledRole) (catalog : List CompiledRole)
      (c : CompiledRole) (catalog' : List CompiledRole) : Type 0 where
    named : c.name ≡ base.name
    reached :
        (r : String)
        → (member r c.roles ≡ true) ↔ (
            (member r base.roles ≡ true)
            ⊎ ((b : String) × (member b roles ≡ true) × Reaches ds b r))
    carried :
        (p : String)
        → (member p c.permissions ≡ true) ↔ (
            (member p base.permissions ≡ true)
            ⊎ ((b : String) × (member b roles ≡ true) × Carries ds b p))
    all : AllExact ds catalog'
    keeps : Keeps catalog catalog'

  abbrev Compiles : (String → List CompiledRole → Outcome Compiled) → Type 0
  Compiles one =
      (role : String) (catalog catalog' : List CompiledRole) (c : CompiledRole)
      → AllExact ds catalog
      → one role catalog ≡ done (c, catalog')
      → IsCompiled role catalog c catalog'

  -- Adding one list of members in front, and one role to the ones gathered.
  gather :
      (P : String → String → Type 0) (x role : String) (roles own base rest : List String)
      → ((member x own ≡ true) ↔ P role x)
      → ((member x rest ≡ true)
          ↔ ((member x (own ++ base) ≡ true) ⊎ ((b : String) × (member b roles ≡ true) × P b x)))
      → (member x rest ≡ true)
        ↔ ((member x base ≡ true) ⊎ ((b : String) × (member b (role ∷ roles) ≡ true) × P b x))
  gather P x role roles own base rest mine step = (
    λ h. elim (step.0 h) [
      | inr (b, among, p) ↦ inr (b, (member-cons_iff b role roles).1 (inr among), p)
      | inl m ↦ elim ((member-append_iff x own base).0 m) [
        | inl new ↦ inr (role, (member-cons_iff role role roles).1 (inl refl), mine.0 new)
        | inr old ↦ inl old
      ]
    ],
    λ h. elim h [
      | inl old ↦ step.1 (inl ((member-append_iff x own base).1 (inr old)))
      | inr (b, among, p) ↦ elim ((member-cons_iff b role roles).0 among) [
        | inl same ↦ step.1 (
            inl ((member-append_iff x own base).1 (inl (mine.1 (subst (λ k. P k x) (sym same) p)))))
        | inr later ↦ step.1 (inr (b, later, p))
      ]
    ],
  )

  inherit_all-Gathered :
      (one : String → List CompiledRole → Outcome Compiled)
      → Compiles one
      → (roles : List String) (base c : CompiledRole) (catalog catalog' : List CompiledRole)
      → AllExact ds catalog
      → inherit_all one roles base catalog ≡ done (c, catalog')
      → Gathered roles base catalog c catalog'
  unfolding inherit_all
  inherit_all-Gathered one compiles [] base c catalog catalog' all h =
      let same : base ≡ c = cc in
      let unchanged : catalog ≡ catalog' = cc in
      subst (λ k. Gathered [] base catalog c k) unchanged
        (subst (λ k. Gathered [] base catalog k catalog) same
          (record {
            named = refl;
            reached = λ r. (
              inl,
              λ h. elim h [ inl m ↦ m | inr (b, among, p) ↦ absurd (not-member-nil b among) ],
            );
            carried = λ r. (
              inl,
              λ h. elim h [ inl m ↦ m | inr (b, among, p) ↦ absurd (not-member-nil b among) ],
            );
            all = all;
            keeps = λ role d found. (d, found);
          }))
  inherit_all-Gathered one compiles (role ∷ roles) base c catalog catalog' all h =
      let ((first, middle), compiled, h1) = proceed-done (one role catalog) _ (c, catalog') h in
      let step = compiles role catalog middle first all compiled in
      let rest =
        inherit_all-Gathered one compiles roles (merge_role base first) c middle catalog' step.all
          h1 in
      record {
        named = rest.named;
        reached = λ r.
            gather (Reaches ds) r role roles first.roles base.roles c.roles
              (subst (λ k. (member r first.roles ≡ true) ↔ Reaches ds k r) step.named
                (step.exact.reached r))
              (rest.reached r);
        carried = λ p.
            gather (Carries ds) p role roles first.permissions base.permissions c.permissions
              (subst (λ k. (member p first.permissions ≡ true) ↔ Carries ds k p) step.named
                (step.exact.carried p))
              (rest.carried p);
        all = rest.all;
        keeps = λ n d found. let (d', found') = step.keeps n d found in rest.keeps n d' found';
      }

  -- A role's own list and what it has gathered are what its definition reaches and carries.
  Gathered-IsExact :
      (role : String) (d : RoleDefinition) (c : CompiledRole) (catalog catalog' : List CompiledRole)
      → find_definition role ds ≡ some d
      → Gathered d.inherits (own_role role d) catalog c catalog'
      → IsExact ds c
  Gathered-IsExact role d c catalog catalog' defined g =
      let exact : (k : String) → k ≡ role → IsExact ds (record c { name = k }) = λ k e. record {
        reached = λ r. (
          λ m. elim ((g.reached r).0 m) [
            | inl own ↦ elim ((member-cons_iff r role []).0 own) [
              | inl same ↦
                  subst (λ j. Reaches ds j r) (sym e)
                    (subst (Reaches ds role) same (here d defined))
              | inr nothing ↦ absurd (not-member-nil r nothing)
            ]
            | inr (b, among, rest) ↦
                subst (λ j. Reaches ds j r) (sym e) (inherited d defined among rest)
          ],
          λ w. elim (Reaches-cases ds (subst (λ j. Reaches ds j r) e w) d defined) [
            | inl same ↦ (g.reached r).1 (inl ((member-cons_iff r role []).1 (inl same)))
            | inr rest ↦ (g.reached r).1 (inr rest)
          ],
        );
        carried = λ p. (
          λ m. elim ((g.carried p).0 m) [
            | inl own ↦ subst (λ j. Carries ds j p) (sym e) (role, d, here d defined, defined, own)
            | inr (b, among, (r, f, rest, has, holds)) ↦
                subst (λ j. Carries ds j p) (sym e)
                  (r, f, inherited d defined among rest, has, holds)
          ],
          λ w.
              (g.carried p).1 (Carries-cases ds role p d (subst (λ j. Carries ds j p) e w) defined),
        );
      } in
      exact c.name g.named

  record_role-IsCompiled :
      (role : String) (d : RoleDefinition) (catalog catalog' : List CompiledRole) (c : CompiledRole)
      (r : Outcome Compiled)
      → find_definition role ds ≡ some d
      → ((c : CompiledRole) (catalog' : List CompiledRole)
          → r ≡ done (c, catalog')
          → Gathered d.inherits (own_role role d) catalog c catalog')
      → record_role r ≡ done (c, catalog')
      → IsCompiled role catalog c catalog'
  record_role-IsCompiled role d catalog catalog' c r defined gathered h =
      let ((e, middle), run, last) = proceed-done r _ (c, catalog') h in
      let g = gathered e middle run in
      let exact = Gathered-IsExact role d e catalog middle defined g in
      let same : e ≡ c = cc in
      let grown : e ∷ middle ≡ catalog' = cc in
      subst (λ k. IsCompiled role catalog c k) grown
        (subst (λ k. IsCompiled role catalog k (e ∷ middle)) same
          (record {
            named = g.named;
            exact = exact;
            all = (exact, g.all);
            keeps = λ n k found.
                let (k', found') = g.keeps n k found in Keeps-cons e middle n k' found';
            listed = (
              e,
              subst (λ n. find_role n (e ∷ middle) ≡ some e) g.named (find_role-cons e middle),
            );
          }))

  compile_new-IsCompiled :
      (one : String → List CompiledRole → Outcome Compiled) (visiting : List String)
      → Compiles one
      → (role : String) (catalog catalog' : List CompiledRole) (c : CompiledRole)
        (o : Option RoleDefinition)
      → find_definition role ds ≡ o
      → AllExact ds catalog
      → compile_new one visiting role catalog o ≡ done (c, catalog')
      → IsCompiled role catalog c catalog'
  unfolding compile_new
  compile_new-IsCompiled one visiting compiles role catalog catalog' c none defined all h =
      absurd (cc)
  compile_new-IsCompiled one visiting compiles role catalog catalog' c (some d) defined all h =
      go (member role visiting) h
    where
      rest : Outcome Compiled
      rest = record_role (inherit_all one d.inherits (own_role role d) catalog)

      go :
          (cyclic : Bool)
          → (if cyclic then refused Error.invalid_input else rest) ≡ done (c, catalog')
          → IsCompiled role catalog c catalog'
      go true h = absurd (cc)
      go false h =
          record_role-IsCompiled role d catalog catalog' c _ defined
            (λ c catalog' run.
              inherit_all-Gathered one compiles d.inherits (own_role role d) c catalog catalog' all
                run)
            h

  answer_or-IsCompiled :
      (role : String) (catalog catalog' : List CompiledRole) (c : CompiledRole)
      (o : Option CompiledRole) (r : Outcome Compiled)
      → find_role role catalog ≡ o
      → AllExact ds catalog
      → (r ≡ done (c, catalog') → IsCompiled role catalog c catalog')
      → answer_or o catalog r ≡ done (c, catalog')
      → IsCompiled role catalog c catalog'
  unfolding answer_or
  answer_or-IsCompiled role catalog catalog' c none r found all new h = new h
  answer_or-IsCompiled role catalog catalog' c (some k) r found all new h =
      let same : k ≡ c = cc in
      let unchanged : catalog ≡ catalog' = cc in
      subst (λ j. IsCompiled role catalog c j) unchanged
        (subst (λ j. IsCompiled role catalog j catalog) same
          (record {
            named = find_role-name role catalog k found;
            exact = find_role-IsExact ds role catalog k all found;
            all = all;
            keeps = λ n d found. (d, found);
            listed = (k, found);
          }))

  pub compile-IsCompiled : (fuel : ℕ) (visiting : List String) → Compiles (compile ds fuel visiting)
  unfolding compile
  compile-IsCompiled zero visiting role catalog catalog' c all h = absurd (cc)
  compile-IsCompiled (suc fuel) visiting role catalog catalog' c all h =
      answer_or-IsCompiled role catalog catalog' c (find_role role catalog) _ refl all
        (compile_new-IsCompiled (compile ds fuel (role ∷ visiting)) visiting
          (compile-IsCompiled fuel (role ∷ visiting)) role catalog catalog' c
          (find_definition role ds) refl all)
        h
