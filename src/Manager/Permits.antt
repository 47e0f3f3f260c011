-- ===== src/Manager/Permits.antt =====
-- What an authentication that `AuthorizePermission` accepts carries.
use credbound.Prelude.{
  ◌≡◌, ◌≢◌, refl, ap, ◌∙◌, subst, Bool, true, false, not, ◌&&◌, ◌||◌, Option, some, lookup, ◌==◌,
  arith, inl, inr, String,
}
use credbound.Types.{Uuid, Membership, is_active, Error, ok}
use credbound.Store.State.{Store}
use credbound.Store.Members.{membership_of, members_of, normalize_membership}
use credbound.Store.Inversion.{check_context-ok, require-ok}
use credbound.Manager.State.{World, Env, Op, call, reached, ◌>>=◌}
use credbound.Manager.Config.{Config}
use credbound.Manager.Authn.{Authentication, has_scope, is_scoped}
use credbound.Manager.Roles.{allows, is_permission}
use credbound.Manager.Authorize.{
  authorize_permission, deny, deny_if, emit_authorization_denied, require_enabled,
  require_workspace, is_bound_elsewhere,
}
use credbound.Manager.Inversion.{refuse_if-ok, >>=-ok, refuse_if-end, either-ok, call-ok}

pub record Permitted (config : Config) (authn : Authentication) (workspace_id : Uuid)
    (permission : String) (s : Store) : Type 0 where
  pub identified : authn.user_id ≢ 0
  pub complete : authn.second_factor_required ≡ false
  pub in_scope : is_scoped authn ≡ true → has_scope authn permission ≡ true
  pub bound_here : authn.workspace_id ≢ 0 → authn.workspace_id ≡ workspace_id
  pub stored : Membership
  pub found : lookup authn.user_id (members_of workspace_id s) ≡ some stored
  pub active : is_active (normalize_membership stored).status ≡ true
  pub allowed : allows config.workspace_roles stored.role permission ≡ true

role-normalize_membership : (m : Membership) → m.role ≡ (normalize_membership m).role
unfolding normalize_membership
role-normalize_membership m = refl

module _ (env : Env) (config : Config) where
  membership_of-ok :
      (ctx : Option Error) (workspace_id user_id : Uuid) (s s' : Store) (membership : Membership)
      → membership_of config.crypto ctx workspace_id user_id s ≡ (ok membership, s')
      → (stored : Membership) × (lookup user_id (members_of workspace_id s) ≡ some stored)
        × (normalize_membership stored ≡ membership)
        × (s ≡ s')
  unfolding membership_of
  membership_of-ok ctx workspace_id user_id s s' membership h =
      let (stored, found, h1) =
        require-ok {s = s} (lookup user_id (members_of workspace_id s)) Error.not_found _
          (check_context-ok ctx _ h) in
      (stored, found, cc, cc)

  deny_if-ok :
      {B : Type 0} (test : Bool) (authn : Authentication) (m : Op B) (w w' : World) (b : B)
      → (deny_if env config test authn >>= λ _. m) w ≡ (ok b, w')
      → (test ≡ false) × (m w ≡ (ok b, w'))
  unfolding deny_if deny
  deny_if-ok true authn m w w' b h =
      let (u, v, denied, g) = >>=-ok {w = w} (deny env config authn) _ h in
      let (t, v1, emitted, k) =
        >>=-ok {w = w} (emit_authorization_denied env config authn) _ denied in
      absurd (cc)
  deny_if-ok false authn m w w' b h = (refl, h)

  -- When `AuthorizePermission` accepts, whatever other callers do, the authentication names a
  -- user and has no pending second factor, a scoped one carries the permission or the wildcard,
  -- one bound to a workspace is bound to this one, and the store that is left has a membership of
  -- the user that is active, an empty status read as active, and whose role carries the
  -- permission.
  pub authorize_permission-Permitted :
      (authn : Authentication) (workspace_id : Uuid) (permission : String) (w w' : World)
      → authorize_permission env config authn workspace_id permission w ≡ (ok tt, w')
      → Permitted config authn workspace_id permission w'.store
  unfolding authorize_permission
  authorize_permission-Permitted authn workspace_id permission w w' h =
      let (identified, h1) = refuse_if-ok {w = w} (authn.user_id == 0) Error.unauthorized _ h in
      let (complete, h2) =
        refuse_if-ok {w = w} authn.second_factor_required Error.step_up_required _ h1 in
      let (named, h3) =
        refuse_if-ok {w = w} (workspace_id == 0 || not (is_permission permission))
          Error.invalid_input _ h2 in
      let (scoped, h4) =
        deny_if-ok (is_scoped authn && not (has_scope authn permission)) authn _ w w' tt h3 in
      let (u, v, enabled, h5) = >>=-ok {w = w} (require_enabled env config authn.user_id) _ h4 in
      let (bound, h6) = deny_if-ok (is_bound_elsewhere authn workspace_id) authn _ v w' tt h5 in
      let (u1, v1, workspace, h7) =
        >>=-ok {w = v} (require_workspace env config authn workspace_id) _ h6 in
      elim (either-ok {w = v1}
        (call env (λ ctx. membership_of config.crypto ctx workspace_id authn.user_id)) _ _ h7) [
          | inr (e, v2, missing, g) ↦ absurd (cc)
          | inl (membership, v2, called, g) ↦
              let (stored, found, normal, same) =
                membership_of-ok (env.context_error v1.calls) workspace_id authn.user_id
                  (reached env v1) v2.store membership
                  (call-ok env (λ ctx. membership_of config.crypto ctx workspace_id authn.user_id)
                    v1 v2 membership called) in
              let in_role : stored.role ≡ membership.role =
                role-normalize_membership stored ∙ ap (λ (m : Membership). m.role) normal in
              let (member, last) =
                refuse_if-end
                  (not (is_active membership.status)
                    || not (allows config.workspace_roles membership.role permission))
                  Error.forbidden v2 w' g in
              record {
                identified = λ e. ground arith;
                complete = complete;
                in_scope = λ e. ground arith;
                bound_here = λ e. ground arith;
                stored = stored;
                found =
                    subst
                      (λ (s : Store).
                        lookup authn.user_id (members_of workspace_id s) ≡ some stored)
                      (same ∙ ap (λ (x : World). x.store) last) found;
                active = ap (λ (m : Membership). is_active m.status) normal ∙ ground arith;
                allowed =
                    ap (λ role. allows config.workspace_roles role permission) in_role
                    ∙ ground arith;
              }
        ]
