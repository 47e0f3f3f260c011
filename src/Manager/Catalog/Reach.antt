-- ===== src/Manager/Catalog/Reach.antt =====
-- What the configured roles mean: the roles that a role reaches by inheritance.
use credbound.Prelude.{
  ◌≡◌, ◌≢◌, refl, Bool, true, false, ◌||◌, some, List, [], ◌∷◌, ◌++◌, String, str_eq, eq_iff, arith,
  ◌⊎◌, inl, inr, ◌↔◌, Bool-cases, subst,
}
use credbound.Manager.Config.{CompiledRole}
use credbound.Manager.Roles.{find_role, member}
use credbound.Manager.Catalog.{RoleDefinition, find_definition}

-- A defined role reaches itself and what the roles that it inherits from reach.
pub data Reaches (ds : List RoleDefinition) : String → String → Type 0 where
  here : {a : String} (d : RoleDefinition) → find_definition a ds ≡ some d → Reaches ds a a
  inherited :
      {a b c : String} (d : RoleDefinition)
      → find_definition a ds ≡ some d
      → member b d.inherits ≡ true
      → Reaches ds b c
      → Reaches ds a c

-- Some role that it reaches is defined with this permission.
abbrev pub Carries : List RoleDefinition → String → String → Type 0
Carries ds a permission =
    (b : String) × (d : RoleDefinition) × Reaches ds a b
    × (find_definition b ds ≡ some d)
    × (member permission d.permissions ≡ true)

pub or-eq-true : (a b : Bool) → (a || b ≡ true) ↔ ((a ≡ true) ⊎ (b ≡ true))
or-eq-true true b = (λ h. inl refl, λ h. refl)
or-eq-true false b = (λ h. inr h, λ h. elim h [ inl e ↦ absurd (cc) | inr e ↦ e ])

pub not-member-nil : (x : String) → member x [] ≢ true
unfolding member
not-member-nil x h = absurd (cc)

pub member-append :
    (x : String) (xs ys : List String) → member x (xs ++ ys) ≡ (member x xs || member x ys)
unfolding member
member-append x [] ys = refl
member-append x (y ∷ xs) ys = ground (arith, member-append x xs ys)

pub member-append_iff :
    (x : String) (xs ys : List String)
    → (member x (xs ++ ys) ≡ true) ↔ ((member x xs ≡ true) ⊎ (member x ys ≡ true))
member-append_iff x xs ys = rw (member-append x xs ys) (or-eq-true (member x xs) (member x ys))

pub member-cons_iff :
    (x y : String) (ys : List String)
    → (member x (y ∷ ys) ≡ true) ↔ ((y ≡ x) ⊎ (member x ys ≡ true))
unfolding member
member-cons_iff x y ys =
    let (split, join) = or-eq-true (str_eq y x) (member x ys) in
    (
      λ h. elim (split h) [ inl e ↦ inl ((eq_iff y x).0 e) | inr m ↦ inr m ],
      λ h. elim h [ inl e ↦ join (inl ((eq_iff y x).1 e)) | inr m ↦ join (inr m) ],
    )

pub find_role-name :
    (role : String) (catalog : List CompiledRole) (c : CompiledRole)
    → find_role role catalog ≡ some c
    → c.name ≡ role
unfolding find_role
find_role-name role [] c h = absurd (cc)
find_role-name role (r ∷ rs) c h = elim (Bool-cases (str_eq r.name role)) [
  | inl same ↦
      let found : some r ≡ some c = ground arith in let named = (eq_iff r.name role).0 same in cc
  | inr other ↦ find_role-name role rs c (ground arith)
]

-- The compiled role lists exactly what its definition reaches and carries.
pub record IsExact (ds : List RoleDefinition) (c : CompiledRole) : Type 0 where
  pub reached : (r : String) → (member r c.roles ≡ true) ↔ Reaches ds c.name r
  pub carried : (p : String) → (member p c.permissions ≡ true) ↔ Carries ds c.name p

abbrev pub AllExact : List RoleDefinition → List CompiledRole → Type 0
AllExact ds [] = Unit
AllExact ds (c ∷ cs) = IsExact ds c × AllExact ds cs

pub find_role-IsExact :
    (ds : List RoleDefinition) (role : String) (catalog : List CompiledRole) (c : CompiledRole)
    → AllExact ds catalog
    → find_role role catalog ≡ some c
    → IsExact ds c
unfolding find_role
find_role-IsExact ds role [] c all h = absurd (cc)
find_role-IsExact ds role (r ∷ rs) c all h = elim (Bool-cases (str_eq r.name role)) [
  | inl same ↦ subst (IsExact ds) (let found : some r ≡ some c = ground arith in cc) all.0
  | inr other ↦ find_role-IsExact ds role rs c all.1 (ground arith)
]

module _ (ds : List RoleDefinition) where
  -- One step of what a defined role reaches.
  pub Reaches-cases :
      {a r : String}
      → Reaches ds a r
      → (d : RoleDefinition) → find_definition a ds ≡ some d
      → (a ≡ r) ⊎ ((b : String) × (member b d.inherits ≡ true) × Reaches ds b r)
  Reaches-cases (here e defined) d h = inl refl
  Reaches-cases (inherited {b = b} e defined among rest) d h =
      let same : e ≡ d = cc in inr (b, subst (λ k. member b k.inherits ≡ true) same among, rest)

  pub Carries-cases :
      (a p : String) (d : RoleDefinition)
      → Carries ds a p
      → find_definition a ds ≡ some d
      → (member p d.permissions ≡ true)
        ⊎ ((b : String) × (member b d.inherits ≡ true) × Carries ds b p)
  Carries-cases a p d (r, e, reaches, defined, has) h = elim (Reaches-cases reaches d h) [
    | inl same ↦
        let found : find_definition r ds ≡ some d =
          subst (λ k. find_definition k ds ≡ some d) same h in
        let equal : e ≡ d = cc in inl (subst (λ k. member p k.permissions ≡ true) equal has)
    | inr (b, among, rest) ↦ inr (b, among, (r, e, rest, defined, has))
  ]
