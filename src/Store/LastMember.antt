-- ===== src/Store/LastMember.antt =====
-- The guard that keeps an active admin in every workspace.
use credbound.Prelude.{
  ℕ, ◌+◌, ◌≤◌, ◌<◌, ◌≡◌, refl, Bool, true, false, not, ◌&&◌, Option, none, some, Map, lookup,
  insert, arith, ◌==◌, ap, sym, ◌∙◌, Bool-cases, inl, inr, erase, lookup-insert, if◌then◌else◌,
  count, weight, IsUnique, count-insert, count-erase,
}
use credbound.Types.{Uuid, Time, Crypto, Commit, Error, ok, Membership, is_active}
use credbound.Store.State.{Store}
use credbound.Store.Revocation.{revoke_user_credentials_locked}
use credbound.Store.Users.{is_active_admin, is_active_admin_of}
use credbound.Store.Members.{
  members_of, or_empty, upsert_membership, remove_membership, put_membership, drop_membership,
  has_one_admin, normalize_membership, keep_created_at,
}
use credbound.Store.Effects.{with_ceremonies}
use credbound.Store.Inversion.{check_context-ok, require-ok, fail_if-ok, transact-elim}

-- The active admins of a workspace, disabled or not.
abbrev pub admins_of : Uuid → Store → ℕ
admins_of workspace_id s = count (λ user_id m. is_active_admin m) (members_of workspace_id s)

admin-normalize :
    (o : Option Membership) (m : Membership)
    → is_active_admin m ≡ true
    → is_active_admin (normalize_membership (keep_created_at o m)) ≡ true
unfolding is_active_admin normalize_membership
admin-normalize none m h = ground arith
admin-normalize (some existing) m h = ground arith

weight_admin :
    (user_id : Uuid) (o : Option Membership)
    → weight (λ user_id m. is_active_admin m) user_id o ≤ (if is_active_admin_of o then 1 else 0)
unfolding is_active_admin_of
weight_admin user_id none = omega arith
weight_admin user_id (some m) = ground arith

-- The guard of a write leaves an active admin among the members.
put-admins :
    (membership : Membership) (ms : Map Membership)
    → is_active_admin_of (lookup membership.user_id ms)
        && (not (is_active_admin membership) && has_one_admin ms)
      ≡ false
    → 0 < count (λ user_id m. is_active_admin m) ms
    → 0
      < count
          (λ user_id m. is_active_admin m)
          (insert membership.user_id
            (normalize_membership (keep_created_at (lookup membership.user_id ms) membership))
            ms)
unfolding is_active_admin_of has_one_admin
put-admins membership ms = go (lookup membership.user_id ms) refl
  where
    go :
        (o : Option Membership)
        → lookup membership.user_id ms ≡ o
        → is_active_admin_of o && (not (is_active_admin membership) && has_one_admin ms) ≡ false
        → 0 < count (λ user_id m. is_active_admin m) ms
        → 0
          < count
              (λ user_id m. is_active_admin m)
              (insert membership.user_id (normalize_membership (keep_created_at o membership)) ms)
    go o e allowed some_admin =
        let put = normalize_membership (keep_created_at o membership) in
        let moved : count (λ user_id m. is_active_admin m) (insert membership.user_id put ms)
              + weight (λ user_id m. is_active_admin m) membership.user_id o
            ≡ count (λ user_id m. is_active_admin m) ms + (if is_active_admin put then 1 else 0) =
          ap
            (λ z.
              count (λ user_id m. is_active_admin m) (insert membership.user_id put ms)
              + weight (λ user_id m. is_active_admin m) membership.user_id z)
            (sym e)
          ∙ count-insert (λ user_id m. is_active_admin m) membership.user_id put ms in
        ground (arith, moved, admin-normalize o membership, weight_admin membership.user_id o)

-- The guard of a removal leaves an active admin among the members.
erase-admins :
    (user_id : Uuid) (membership : Membership) (ms : Map Membership)
    → IsUnique ms
    → lookup user_id ms ≡ some membership
    → is_active_admin membership && has_one_admin ms ≡ false
    → 0 < count (λ id m. is_active_admin m) ms
    → 0 < count (λ id m. is_active_admin m) (erase user_id ms)
unfolding has_one_admin
erase-admins user_id membership ms unique found allowed some_admin =
    let moved : count (λ id m. is_active_admin m) (erase user_id ms)
          + (if is_active_admin membership then 1 else 0)
        ≡ count (λ id m. is_active_admin m) ms =
      ap
        (λ z.
          count (λ id m. is_active_admin m) (erase user_id ms)
          + weight (λ id m. is_active_admin m) user_id z)
        (sym found)
      ∙ count-erase (λ id m. is_active_admin m) user_id ms unique in
    ground arith

-- The members of a workspace after the write of those of another or the same.
members-written :
    (w workspace_id : Uuid) (ms : Map Membership) (s t : Store)
    → t.memberships ≡ insert workspace_id ms s.memberships
    → members_of w t ≡ (if workspace_id == w then ms else members_of w s)
members-written w workspace_id ms s t h =
    ap (λ m. or_empty (lookup w m)) h
    ∙ ap or_empty (lookup-insert workspace_id w ms s.memberships)
    ∙ choose (workspace_id == w)
  where
    choose :
        (b : Bool)
        → or_empty (if b then some ms else lookup w s.memberships)
          ≡ (if b then ms else members_of w s)
    choose true = refl
    choose false = refl

if-memberships :
    (b : Bool) (s t : Store) (m : Map (Map Membership))
    → s.memberships ≡ m
    → t.memberships ≡ m
    → (if b then s else t).memberships ≡ m
if-memberships true s t m hs ht = hs
if-memberships false s t m hs ht = ht

put_membership-memberships :
    (membership : Membership) (at : Time) (s : Store)
    → (put_membership membership at s).memberships
      ≡ insert membership.workspace_id
          (insert membership.user_id
            (normalize_membership (
              keep_created_at
                (lookup membership.user_id (members_of membership.workspace_id s))
                membership))
            (members_of membership.workspace_id s))
          s.memberships
unfolding put_membership revoke_user_credentials_locked
put_membership-memberships membership at s =
    if-memberships (is_active membership.status) _ _ _ refl refl

-- A write that leaves the workspace an active admin leaves every workspace its own.
keeps-written :
    (w workspace_id : Uuid) (ms : Map Membership) (s t : Store)
    → t.memberships ≡ insert workspace_id ms s.memberships
    → (0 < admins_of workspace_id s → 0 < count (λ user_id m. is_active_admin m) ms)
    → 0 < admins_of w s
    → 0 < admins_of w t
keeps-written w workspace_id ms s t h keeps some_admin = elim (Bool-cases (workspace_id == w)) [
  | inl here ↦
      let same : workspace_id ≡ w = ground arith in
      rw (members-written w workspace_id ms s t h, here) (keeps (rw same some_admin))
  | inr elsewhere ↦ rw (members-written w workspace_id ms s t h, elsewhere) some_admin
]

module _ (crypto : Crypto) (ctx : Option Error) (commit : Commit) (s s' : Store) (w : Uuid) where
  -- Suppose a workspace has an active admin. After a successful `UpsertMembership`, in this
  -- workspace or another, it still has one.
  pub upsert_membership-keeps_admin :
      (membership : Membership)
      → 0 < admins_of w s
      → upsert_membership crypto ctx membership commit s ≡ (ok tt, s')
      → 0 < admins_of w s'
  unfolding upsert_membership
  upsert_membership-keeps_admin membership some_admin h =
      let ms = members_of membership.workspace_id s in
      let h1 = check_context-ok ctx _ h in
      let (workspace, found, h2) =
        require-ok {s = s} (lookup membership.workspace_id s.workspaces) Error.not_found _ h1 in
      let (user, owner, h3) =
        require-ok {s = s} (lookup membership.user_id s.users) Error.not_found _ h2 in
      let (allowed, h4) =
        fail_if-ok {s = s}
          (is_active_admin_of (lookup membership.user_id ms)
            && (not (is_active_admin membership) && has_one_admin ms))
          Error.conflict _ h3 in
      transact-elim crypto commit (put_membership membership commit.audit.occurred_at)
        (λ t. 0 < admins_of w t) s s' h4
        λ c audits ids sequence head.
          keeps-written w membership.workspace_id _ s
            (put_membership membership commit.audit.occurred_at (with_ceremonies c s))
            (put_membership-memberships membership commit.audit.occurred_at (with_ceremonies c s))
            (put-admins membership ms allowed) some_admin

  -- Suppose a workspace has an active admin and no member of the workspace of the removal is
  -- listed twice. After a successful `RemoveMembership`, in this workspace or another, it still
  -- has one.
  pub remove_membership-keeps_admin :
      (workspace_id user_id : Uuid) (at : Time)
      → IsUnique (members_of workspace_id s)
      → 0 < admins_of w s
      → remove_membership crypto ctx workspace_id user_id at commit s ≡ (ok tt, s')
      → 0 < admins_of w s'
  unfolding remove_membership
  remove_membership-keeps_admin workspace_id user_id at unique some_admin h =
      let ms = members_of workspace_id s in
      let h1 = check_context-ok ctx _ h in
      let (membership, found, h2) = require-ok {s = s} (lookup user_id ms) Error.not_found _ h1 in
      let (allowed, h3) =
        fail_if-ok {s = s} (is_active_admin membership && has_one_admin ms) Error.conflict _ h2 in
      transact-elim crypto commit (drop_membership workspace_id user_id at) (λ t. 0 < admins_of w t)
        s s' h3
        λ c audits ids sequence head.
          keeps-written w workspace_id (erase user_id ms) s
            (drop_membership workspace_id user_id at (with_ceremonies c s))
            (unfold drop_membership revoke_user_credentials_locked in refl)
            (λ some_here. erase-admins user_id membership ms unique found allowed some_here)
            some_admin
