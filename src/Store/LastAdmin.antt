-- ===== src/Store/LastAdmin.antt =====
-- The guards that keep the last root and the last active workspace admin.
use credbound.Prelude.{
  ℕ, ◌+◌, ◌≤◌, ◌<◌, ◌≡◌, ◌≢◌, refl, Bool, true, false, not, ◌&&◌, ◌||◌, Option, none, some, Map,
  lookup, insert, [], ◌∷◌, arith, ◌==◌, ap, sym, ◌∙◌, subst, Bool-cases, inl, inr, leb, erase,
  lookup-insert, if◌then◌else◌, count, weight, IsUnique, count-insert, count-erase,
}
use credbound.Types.{Uuid, Time, User, Crypto, Commit, Error, ok, InstanceAdministrator, is_root}
use credbound.Store.State.{Store}
use credbound.Store.Revocation.{revoke_user_credentials_locked, revoke_user_sessions_locked}
use credbound.Store.Users.{
  is_root_of, is_enabled, is_enabled_root, orphans_workspace, set_user_disabled, disable_user,
  disable_is_refused,
}
use credbound.Store.Admins.{
  roots, set_instance_role, remove_instance_role, put_admin, keep_role_created_at,
}
use credbound.Store.Effects.{with_ceremonies}
use credbound.Store.Inversion.{check_context-ok, require-ok, fail_if-ok, transact-elim}

-- A root may be put in the place of an entry unless the entry was the one root.
put_admin-roots :
    (admin : InstanceAdministrator) (m : Map InstanceAdministrator)
    → is_root_of (lookup admin.user_id m) && (not (is_root admin.role) && leb (roots m) 1) ≡ false
    → 0 < roots m
    → 0 < roots (insert admin.user_id (keep_role_created_at (lookup admin.user_id m) admin) m)
unfolding is_root_of
put_admin-roots admin m = go (lookup admin.user_id m) refl
  where
    is_root_entry : ℕ → InstanceAdministrator → Bool
    is_root_entry id candidate = is_root candidate.role

    go :
        (o : Option InstanceAdministrator)
        → lookup admin.user_id m ≡ o
        → is_root_of o && (not (is_root admin.role) && leb (roots m) 1) ≡ false
        → 0 < roots m
        → 0 < roots (insert admin.user_id (keep_role_created_at o admin) m)
    go none e allowed some_root = ground (arith, count-insert is_root_entry admin.user_id admin m)
    go (some existing) e allowed some_root =
        let put = record admin { created_at = existing.created_at } in
        let moved : roots (insert admin.user_id put m) + (if is_root existing.role then 1 else 0)
            ≡ roots m + (if is_root admin.role then 1 else 0) =
          ap (λ o. roots (insert admin.user_id put m) + weight is_root_entry admin.user_id o)
            (sym e)
          ∙ count-insert is_root_entry admin.user_id put m in
        ground arith

module _ (crypto : Crypto) (ctx : Option Error) (commit : Commit) (s s' : Store) where
  -- Suppose there is a root. After a successful `SetInstanceRole` there still is one.
  pub set_instance_role-keeps_root :
      (admin : InstanceAdministrator)
      → 0 < roots s.admins
      → set_instance_role crypto ctx admin commit s ≡ (ok tt, s')
      → 0 < roots s'.admins
  unfolding set_instance_role
  set_instance_role-keeps_root admin some_root h =
      let h1 = check_context-ok ctx _ h in
      let (user, found, h2) =
        require-ok {s = s} (lookup admin.user_id s.users) Error.not_found _ h1 in
      let (allowed, h3) =
        fail_if-ok {s = s}
          (is_root_of (lookup admin.user_id s.admins)
            && (not (is_root admin.role) && leb (roots s.admins) 1))
          Error.conflict _ h2 in
      transact-elim crypto commit (put_admin admin) (λ t. 0 < roots t.admins) s s' h3
        λ c audits ids sequence head.
          unfold put_admin in put_admin-roots admin s.admins allowed some_root

  -- Suppose no administrator is listed twice and there is a root. After a successful
  -- `RemoveInstanceRole` there still is one.
  pub remove_instance_role-keeps_root :
      (user_id : Uuid)
      → IsUnique s.admins
      → 0 < roots s.admins
      → remove_instance_role crypto ctx user_id commit s ≡ (ok tt, s')
      → 0 < roots s'.admins
  unfolding remove_instance_role
  remove_instance_role-keeps_root user_id unique some_root h =
      let h1 = check_context-ok ctx _ h in
      let (admin, found, h2) = require-ok {s = s} (lookup user_id s.admins) Error.not_found _ h1 in
      let (allowed, h3) =
        fail_if-ok {s = s} (is_root admin.role && leb (roots s.admins) 1) Error.conflict _ h2 in
      transact-elim crypto commit (λ t. record t { admins = erase user_id t.admins })
        (λ t. 0 < roots t.admins) s s' h3
        λ c audits ids sequence head.
          ground
            (arith, count-erase (λ id candidate. is_root candidate.role) user_id s.admins unique)

-- Entries that differ at one key change a count by the weight of that key at most.
count-off_key :
    {V : Type 0} (p q : ℕ → V → Bool) (u : ℕ) (m : Map V)
    → ((k : ℕ) (v : V) → k ≢ u → p k v ≡ q k v)
    → IsUnique m
    → count p m ≤ count q m + weight p u (lookup u m)
unfolding count lookup
count-off_key p q u [] same unique = omega arith
count-off_key p q u ((k, v) ∷ m) same unique = elim (Bool-cases (k == u)) [
  | inl here ↦
      let at_key : k ≡ u = ground arith in
      let gone : lookup u m ≡ none = subst (λ z. lookup z m ≡ none) at_key unique.0 in
      let rest : count p m ≤ count q m + weight p u none =
        subst (λ o. count p m ≤ count q m + weight p u o) gone
          (count-off_key p q u m same unique.1) in
      rw here (ground arith)
  | inr elsewhere ↦
      let same_here : p k v ≡ q k v = same k v (ground arith) in
      let rest = count-off_key p q u m same unique.1 in rw elsewhere (ground arith)
]

count_mono :
    {V : Type 0} (p q : ℕ → V → Bool) (m : Map V)
    → ((k : ℕ) (v : V) → p k v ≡ true → q k v ≡ true)
    → count p m ≤ count q m
unfolding count
count_mono p q [] step = omega arith
count_mono p q ((k, v) ∷ m) step = ground (arith, step k v, count_mono p q m step)

weight_root :
    (users : Map User) (user_id : Uuid) (o : Option InstanceAdministrator)
    → weight (is_enabled_root users) user_id o ≤ (if is_root_of o then 1 else 0)
unfolding is_root_of is_enabled_root
weight_root users user_id none = omega arith
weight_root users user_id (some admin) = ground arith

left_false : (a b : Bool) → a || b ≡ false → a ≡ false
left_false true b h = h
left_false false b h = refl

-- What a disabling makes of the users and of the administrators.
disable_user-users :
    (user_id : Uuid) (disabled : Bool) (at : Time) (user : User) (s : Store)
    → ((disable_user user_id disabled at user s).users
        ≡ insert user_id (record user { disabled = disabled; updated_at = at }) s.users)
      × ((disable_user user_id disabled at user s).admins ≡ s.admins)
unfolding disable_user revoke_user_credentials_locked revoke_user_sessions_locked
disable_user-users user_id true at user s = (refl, refl)
disable_user-users user_id false at user s = (refl, refl)

-- The guard of a disabling leaves an enabled root among the administrators.
disable-roots :
    (user_id : Uuid) (disabled : Bool) (at : Time) (user : User) (s : Store)
    → IsUnique s.admins
    → disabled && disable_is_refused user_id s ≡ false
    → 0 < count (is_enabled_root s.users) s.admins
    → 0
      < count
          (is_enabled_root
            (insert user_id (record user { disabled = disabled; updated_at = at }) s.users))
          s.admins
unfolding disable_is_refused is_enabled_root is_enabled
disable-roots user_id false at user s unique allowed some_root =
    let more =
      count_mono (is_enabled_root s.users)
        (is_enabled_root
          (insert user_id (record user { disabled = false; updated_at = at }) s.users))
        s.admins
        λ k v. ground (
          arith,
          lookup-insert user_id k (record user { disabled = false; updated_at = at }) s.users,
        ) in
    omega (arith, more, some_root)
disable-roots user_id true at user s unique allowed some_root =
    let one_less =
      count-off_key (is_enabled_root s.users)
        (is_enabled_root
          (insert user_id (record user { disabled = true; updated_at = at }) s.users))
        user_id s.admins
        (λ k v differs. ground (
          arith,
          lookup-insert user_id k (record user { disabled = true; updated_at = at }) s.users,
        ))
        unique in
    let light = weight_root s.users user_id (lookup user_id s.admins) in
    let spare =
      left_false
        (is_root_of (lookup user_id s.admins) && leb (count (is_enabled_root s.users) s.admins) 1)
        (orphans_workspace s.users user_id s.memberships) allowed in
    ground (arith, one_less, light, spare, some_root)

module _ (crypto : Crypto) (ctx : Option Error) (commit : Commit) (s s' : Store) where
  abbrev pub enabled_roots : Store → ℕ
  enabled_roots t = count (is_enabled_root t.users) t.admins

  -- Suppose no administrator is listed twice and at least one root is enabled. After a successful
  -- `SetUserDisabled`, enabling or disabling, at least one root is enabled.
  pub set_user_disabled-keeps_root :
      (user_id : Uuid) (disabled : Bool) (at : Time)
      → IsUnique s.admins
      → 0 < enabled_roots s
      → set_user_disabled crypto ctx user_id disabled at commit s ≡ (ok tt, s')
      → 0 < enabled_roots s'
  unfolding set_user_disabled
  set_user_disabled-keeps_root user_id disabled at unique some_root h =
      let h1 = check_context-ok ctx _ h in
      let (user, found, h2) = require-ok {s = s} (lookup user_id s.users) Error.not_found _ h1 in
      let (allowed, h3) =
        fail_if-ok {s = s} (disabled && disable_is_refused user_id s) Error.conflict _ h2 in
      transact-elim crypto commit (disable_user user_id disabled at user) (λ t. 0 < enabled_roots t)
        s s' h3
        λ c audits ids sequence head.
          let (users, admins) = disable_user-users user_id disabled at user (with_ceremonies c s) in
          rw (users, admins) (disable-roots user_id disabled at user s unique allowed some_root)
