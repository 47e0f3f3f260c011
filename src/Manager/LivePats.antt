-- ===== src/Manager/LivePats.antt =====
-- What a personal access token that was accepted is.
use credbound.Prelude.{
  ◌+◌, ◌≡◌, refl, Bool, true, false, Option, none, some, String, arith, lookup, is_some, ap, sym,
  subst, ◌∙◌, inl, inr, if◌then◌else◌,
}
use credbound.Types.{Uuid, Time, Pat, AuditOutcome, Error, ok}
use credbound.Audit.Encoding.{utf8}
use credbound.Store.State.{Store}
use credbound.Store.Users.{user_by_id}
use credbound.Store.Pats.{lookup_prefix, or_zero_pat, pat_by_prefix, touch_pat}
use credbound.Store.Inversion.{check_context-ok, require-ok}
use credbound.Manager.State.{World, Env, done, call, reached, plain_commit}
use credbound.Manager.Config.{Config}
use credbound.Manager.Authn.{Authentication}
use credbound.Manager.Audits.{new_audit, emit_event}
use credbound.Manager.Sessions.{match_digest_ring}
use credbound.Manager.Tokens.{parse_pat}
use credbound.Manager.Pats.{
  has_ended, pat_authentication, reject_pat, reject_owner, find_pat, accepts, require_owner,
  require_binding, is_recent, touch_and_answer_pat, answer_pat, authenticate_pat,
}
use credbound.Manager.Failures.{fail_store-fails}
use credbound.Manager.Inversion.{>>=-ok, either-ok, call-ok, if-cases}
use credbound.Manager.Gates.{IsEnabled, user_by_id-ok}
use credbound.Manager.PatRejections.{reject_pat-fails, reject_owner-fails}

-- The token's prefix leads to a record in the store, unrevoked, unended, with the token's digest,
-- and the store, when it is read next, has the owner enabled.
pub record LivePat (env : Env) (config : Config) (raw : String) (w : World) (authn : Authentication)
    : Type 0 where
  pub prefix : String
  pub id : Uuid
  pub stored : Pat
  pub parsed : parse_pat config.pat_prefix raw ≡ some prefix
  pub indexed : lookup_prefix prefix (reached env w).pat_prefixes ≡ some id
  pub found : or_zero_pat (lookup id (reached env w).pats) ≡ stored
  pub matches : match_digest_ring config stored.digest config.read_pat_peppers (utf8 raw) ≡ true
  pub unrevoked : is_some stored.revoked_at ≡ false
  pub unended : has_ended (env.clock w.clock_reads) stored.expires_at ≡ false
  pub owned : IsEnabled stored.user_id (env.other_calls (w.calls + 1) (reached env w))
  pub answer : authn ≡ pat_authentication stored (env.clock w.clock_reads)

module _ (env : Env) (config : Config) where
  pat_by_prefix-ok :
      (ctx : Option Error) (prefix : String) (s s' : Store) (pat : Pat)
      → pat_by_prefix config.crypto ctx prefix s ≡ (ok pat, s')
      → (id : Uuid) × (lookup_prefix prefix s.pat_prefixes ≡ some id)
        × (or_zero_pat (lookup id s.pats) ≡ pat)
        × (s ≡ s')
  unfolding pat_by_prefix
  pat_by_prefix-ok ctx prefix s s' pat h =
      let (id, indexed, h1) =
        require-ok {s = s} (lookup_prefix prefix s.pat_prefixes) Error.not_found _
          (check_context-ok ctx _ h) in
      (id, indexed, cc, cc)

  find_pat-ok :
      (o : Option String) (w v : World) (pat : Pat)
      → find_pat env config o w ≡ (ok (pat, true), v)
      → (prefix : String) × (id : Uuid) × (o ≡ some prefix)
        × (lookup_prefix prefix (reached env w).pat_prefixes ≡ some id)
        × (or_zero_pat (lookup id (reached env w).pats) ≡ pat)
        × (v.clock_reads ≡ w.clock_reads)
        × (v.calls ≡ w.calls + 1)
        × (v.store ≡ reached env w)
  unfolding find_pat
  find_pat-ok none w v pat h = absurd (cc)
  find_pat-ok (some prefix) w v pat h =
      elim (either-ok {w = w} (call env (λ ctx. pat_by_prefix config.crypto ctx prefix))
        (λ pat. done (pat, true)) _ h) [
          | inr (e, u, called, g) ↦ absurd (cc)
          | inl (stored, u, called, g) ↦
              let (id, indexed, found, same) =
                pat_by_prefix-ok (env.context_error w.calls) prefix (reached env w) u.store stored
                  (call-ok env (λ ctx. pat_by_prefix config.crypto ctx prefix) w u stored called) in
              let same_pat : stored ≡ pat = cc in
              let last : u ≡ v = cc in
              (
                prefix,
                id,
                refl,
                indexed,
                found ∙ same_pat,
                ap (λ (x : World). x.clock_reads) (sym last)
                    ∙ ap (λ r. r.1.clock_reads) (sym called),
                ap (λ (x : World). x.calls) (sym last) ∙ ap (λ r. r.1.calls) (sym called),
                ap (λ (x : World). x.store) (sym last) ∙ sym same,
              )
        ]

  owner-enabled :
      (disabled : Bool) (pat : Pat) (v w' : World)
      → (if disabled then reject_owner env config pat else done tt) v ≡ (ok tt, w')
      → disabled ≡ false
  owner-enabled true pat v w' h = absurd (reject_owner-fails env config pat v w' tt h)
  owner-enabled false pat v w' h = refl

  require_owner-ok :
      (pat : Pat) (v w' : World)
      → require_owner env config pat v ≡ (ok tt, w')
      → IsEnabled pat.user_id (reached env v)
  unfolding require_owner
  require_owner-ok pat v w' h =
      elim (either-ok {w = v} (call env (λ ctx. user_by_id config.crypto ctx pat.user_id))
        (λ user. if user.disabled then reject_owner env config pat else done tt) _ h) [
          | inr (e, u, called, g) ↦ absurd (reject_owner-fails env config pat u w' tt g)
          | inl (user, u, called, g) ↦
              let (found, same) =
                user_by_id-ok env config (env.context_error v.calls) pat.user_id (reached env v)
                  u.store user
                  (call-ok env (λ ctx. user_by_id config.crypto ctx pat.user_id) v u user called) in
              (user, found, owner-enabled user.disabled pat u w' g)
        ]

  touch_and_answer_pat-answer :
      (pat : Pat) (at : Time) (v w' : World) (authn : Authentication)
      → touch_and_answer_pat env config pat at v ≡ (ok authn, w')
      → authn ≡ pat_authentication pat at
  unfolding touch_and_answer_pat
  touch_and_answer_pat-answer pat at v w' authn h =
      let (event, v1, audited, h1) =
        >>=-ok {w = v}
          (new_audit env config pat.user_id "auth.pat" "pat" (config.crypto.uuid_string pat.id)
            pat.workspace_id AuditOutcome.succeeded "")
          _ h in
      elim (either-ok {w = v1}
        (call env (λ ctx. touch_pat config.crypto ctx pat.id at (plain_commit env event))) _ _ h1) [
          | inr (e, u, failed, g) ↦ absurd (fail_store-fails env config _ e u w' authn g)
          | inl (t, u, touched, g) ↦
              let (x, u1, emitted, g1) =
                >>=-ok {w = u}
                  (emit_event env config "pat.authenticated" "auth.pat.authenticate" pat.user_id "")
                  _ g in
              let (y, u2, emitted', g2) =
                >>=-ok {w = u1}
                  (emit_event env config "authentication.succeeded" "auth.pat.authenticate"
                    pat.user_id "")
                  _ g1 in
              cc
        ]

  answer_pat-ok :
      (pat : Pat) (at : Time) (v w' : World) (authn : Authentication)
      → answer_pat env config pat at v ≡ (ok authn, w')
      → IsEnabled pat.user_id (reached env v) × (authn ≡ pat_authentication pat at)
  unfolding answer_pat
  answer_pat-ok pat at v w' authn h =
      let (u, v1, owned, h1) = >>=-ok {w = v} (require_owner env config pat) _ h in
      let (u', v2, bound, h2) = >>=-ok {w = v1} (require_binding env config pat) _ h1 in
      (
        require_owner-ok pat v v1 owned,
        elim (if-cases (is_recent env config at pat.last_used_at) (done (pat_authentication pat at))
            (touch_and_answer_pat env config pat at) v2 _ h2) [
              | inl recent ↦ cc
              | inr touched ↦ touch_and_answer_pat-answer pat at v2 w' authn touched
            ],
      )

  accepted-ok :
      (test : Bool) (pat : Pat) (at : Time) (v w' : World) (authn : Authentication)
      → (if test then answer_pat env config pat at else reject_pat env config pat) v
        ≡ (ok authn, w')
      → (test ≡ true) × (answer_pat env config pat at v ≡ (ok authn, w'))
  accepted-ok true pat at v w' authn h = (refl, h)
  accepted-ok false pat at v w' authn h = absurd (reject_pat-fails env config pat v w' authn h)

  accepts-true :
      (raw : String) (at : Time) (pat : Pat) (known : Bool)
      → accepts env config raw at (pat, known) ≡ true
      → (known ≡ true)
        × (match_digest_ring config pat.digest config.read_pat_peppers (utf8 raw) ≡ true)
        × (is_some pat.revoked_at ≡ false)
        × (has_ended at pat.expires_at ≡ false)
  unfolding accepts
  accepts-true raw at pat known h = ground arith

  -- When `AuthenticatePAT` answers an authentication, whatever other callers do to the store
  -- meanwhile, the token parses to a prefix, under which the store, when it was read, has a token
  -- with a matching digest, not revoked and not ended at the first clock reading. The store has
  -- its owner enabled at the next call, and the answer is that token's user, workspace and scopes
  -- at the first level.
  pub authenticate_pat-LivePat :
      (raw : String) (w w' : World) (authn : Authentication)
      → authenticate_pat env config raw w ≡ (ok authn, w')
      → LivePat env config raw w authn
  unfolding authenticate_pat
  authenticate_pat-LivePat raw w w' authn h =
      let ((pat, known), v, named, h1) =
        >>=-ok {w = w} (find_pat env config (parse_pat config.pat_prefix raw)) _ h in
      let at = env.clock v.clock_reads in
      let v1 : World = record v { clock_reads = v.clock_reads + 1 } in
      let (passed, answered) =
        accepted-ok (accepts env config raw at (pat, known)) pat at v1 w' authn h1 in
      let (is_known, matches, unrevoked, unended) = accepts-true raw at pat known passed in
      let (prefix, id, parsed, indexed, found, reads, calls, same) =
        find_pat-ok (parse_pat config.pat_prefix raw) w v pat
          (named ∙ ap (λ k. (ok (pat, k), v)) is_known) in
      let (owned, answer) = answer_pat-ok pat at v1 w' authn answered in
      record {
        prefix = prefix;
        id = id;
        stored = pat;
        parsed = parsed;
        indexed = indexed;
        found = found;
        matches = matches;
        unrevoked = unrevoked;
        unended = subst (λ n. has_ended (env.clock n) pat.expires_at ≡ false) reads unended;
        owned = rw (sym calls, sym same) owned;
        answer = subst (λ n. authn ≡ pat_authentication pat (env.clock n)) reads answer;
      }
