-- ===== src/Manager/IssuedPats.antt =====
-- An issued token is one that `AuthenticatePAT` finds and accepts.
use Prim.Native.String.{String}
use text.Mathlib.TextPositions.{eq_refl}
use credbound.Prelude.{
  ◌+◌, ◌≡◌, refl, true, false, Option, none, some, List, [], ◌∷◌, arith, lookup, lookup-inserted,
  is_some, length, ap, sym, subst, ◌∙◌, inl, inr, bytes_equal,
}
use credbound.Types.{Uuid, Time, Bytes, Pat, Commit, AuditOutcome, Error, ok}
use credbound.Audit.Encoding.{utf8}
use credbound.Store.State.{Store}
use credbound.Store.Pats.{lookup_prefix, create_pat, pat_by_prefix}
use credbound.Store.Inversion.{check_context-ok, require-ok, fail_if-ok, transact-elim}
use credbound.Manager.State.{World, Env, call, reached, now, random_bytes}
use credbound.Manager.Config.{Config}
use credbound.Manager.Authn.{Authentication}
use credbound.Manager.Ids.{new_id}
use credbound.Manager.Audits.{new_audit}
use credbound.Manager.Sessions.{match_digest_ring, transactional_commit}
use credbound.Manager.Tokens.{parse_pat, pat_text, valid_token_marker}
use credbound.Manager.Tokens.RoundTrip.{parse_pat-pat_text}
use credbound.Manager.Pats.{has_ended, accepts}
use credbound.Manager.PatIssuing.{CreatePatInput, IssuedPat, new_pat, store_pat, issue_pat}
use credbound.Manager.Failures.{fail_store-fails}
use credbound.Manager.Inversion.{>>=-ok, either-ok, call-ok}

bytes_equal_refl : (xs : Bytes) → bytes_equal xs xs ≡ true
unfolding bytes_equal
bytes_equal_refl [] = refl
bytes_equal_refl (x ∷ xs) = ground (arith, bytes_equal_refl xs)

module _ (config : Config) where
  active_pepper-matches :
      (peppers : List Bytes) (raw : Bytes)
      → config.read_pat_peppers ≡ config.pat_pepper ∷ peppers
      → match_digest_ring config
          (config.crypto.hmac config.pat_pepper raw)
          config.read_pat_peppers
          raw
        ≡ true
  active_pepper-matches peppers raw ring = rw ring (
      unfold match_digest_ring in
      rw (bytes_equal_refl (config.crypto.hmac config.pat_pepper raw)) refl)

  create_pat-stored :
      (ctx : Option Error) (pat : Pat) (commit : Commit) (s s' : Store)
      → create_pat config.crypto ctx pat commit s ≡ (ok tt, s')
      → pat_by_prefix config.crypto none pat.prefix s' ≡ (ok pat, s')
  unfolding create_pat
  create_pat-stored ctx pat commit s s' h =
      let h1 = check_context-ok ctx _ h in
      let (fresh, h2) = fail_if-ok {s = s} (is_some (lookup pat.id s.pats)) Error.conflict _ h1 in
      let (free, h3) =
        fail_if-ok {s = s} (is_some (lookup_prefix pat.prefix s.pat_prefixes)) Error.conflict _
          h2 in
      let (user, owner, h4) =
        require-ok {s = s} (lookup pat.user_id s.users) Error.not_found _ h3 in
      let (indexed, held) =
        transact-elim config.crypto commit _
          (λ t.
            (lookup_prefix pat.prefix t.pat_prefixes ≡ some pat.id)
            × (lookup pat.id t.pats ≡ some pat))
          s s' h4
          λ c audits ids sequence head. (
            unfold lookup_prefix in rw (eq_refl pat.prefix) refl,
            lookup-inserted pat.id pat s.pats,
          ) in
      unfold pat_by_prefix in rw (indexed, held) refl

module _ (env : Env) (config : Config) where
  store_pat-ok :
      (pat : Pat) (raw : String) (commit : Commit) (v w' : World) (issued : IssuedPat)
      → store_pat env config pat raw commit v ≡ (ok issued, w')
      → (issued.token ≡ raw)
        × (pat_by_prefix config.crypto none pat.prefix w'.store ≡ (ok pat, w'.store))
  unfolding store_pat
  store_pat-ok pat raw commit v w' issued h =
      elim (either-ok {w = v} (call env (λ ctx. create_pat config.crypto ctx pat commit)) _ _ h) [
        | inr (e, u, failed, g) ↦ absurd (fail_store-fails env config _ e u w' issued g)
        | inl (t, u, created, g) ↦
            let stored =
              create_pat-stored config (env.context_error v.calls) pat commit (reached env v)
                u.store
                (call-ok env (λ ctx. create_pat config.crypto ctx pat commit) v u tt created) in
            let same : u.store ≡ w'.store = ap (λ r. r.1.store) g in
            let answer : IssuedPat = record { pat = record pat { digest = [] }; token = raw } in
            let answered : answer ≡ issued = cc in
            (sym (ap (λ (i : IssuedPat). i.token) answered), rw (sym same) stored)
      ]

  drawn :
      (bytes bytes' : Bytes) (w v : World)
      → env.random w.draws ≡ ok bytes
      → random_bytes env w ≡ (ok bytes', v)
      → (bytes' ≡ bytes) × (v.draws ≡ w.draws + 1)
  drawn bytes bytes' w v known h = (cc, ap (λ r. r.1.draws) (sym h))

  -- What an issue ends in.
  module _ (actor : Authentication) (input : CreatePatInput) (scopes : List String) where
    abbrev token_of : Bytes → Bytes → String
    token_of prefix secret = pat_text config.pat_prefix prefix secret

    abbrev record_of : Bytes → Bytes → Uuid → Time → Pat
    record_of prefix secret id at =
        new_pat env config actor input scopes prefix (token_of prefix secret) id at

    abbrev Stored : Bytes → Bytes → IssuedPat → World → Type 0
    Stored prefix secret issued w' =
        (id : Uuid) × (at : Time) × (commit : Commit) × (v : World) × (store_pat env config
            (record_of prefix secret id at) (token_of prefix secret) commit v
          ≡ (ok issued, w'))

    issue_pat-Stored :
        (prefix secret : Bytes) (w w' : World) (issued : IssuedPat)
        → env.random w.draws ≡ ok prefix
        → env.random (w.draws + 1) ≡ ok secret
        → issue_pat env config actor input scopes w ≡ (ok issued, w')
        → Stored prefix secret issued w'
    unfolding issue_pat
    issue_pat-Stored prefix secret w w' issued first second h =
        let (p, w1, drew, h1) = >>=-ok {w = w} (random_bytes env) _ h in
        let (s, w2, drew', h2) = >>=-ok {w = w1} (random_bytes env) _ h1 in
        let (same_prefix, moved) = drawn prefix p w w1 first drew in
        let (same_secret, moved') =
          drawn secret s w1 w2 (ap (λ n. env.random n) moved ∙ second) drew' in
        let (id, w3, named, h3) = >>=-ok {w = w2} (new_id env) _ h2 in
        let w4 : World = record w3 { clock_reads = w3.clock_reads + 1 } in
        let (event, w5, audited, h4) =
          >>=-ok {w = w4}
            (new_audit env config actor.user_id "pat.create" "pat" (config.crypto.uuid_string id)
              input.workspace_id AuditOutcome.succeeded "")
            _ h3 in
        let (meta, w6, named', h5) = >>=-ok {w = w5} (new_id env) _ h4 in
        let w7 : World = record w6 { clock_reads = w6.clock_reads + 1 } in
        let (commit, w8, hooked, h6) =
          >>=-ok {w = w7} (transactional_commit env config event) _ h5 in
        subst (λ b. Stored b secret issued w') same_prefix
          (subst (λ b. Stored p b issued w') same_secret
            (id, env.clock w3.clock_reads, commit, w8, h6))

    abbrev pub Accepted : Time → IssuedPat → World → Type 0
    Accepted at issued w' =
        (pat : Pat) × (parse_pat config.pat_prefix issued.token ≡ some pat.prefix)
        × (pat_by_prefix config.crypto none pat.prefix w'.store ≡ (ok pat, w'.store))
        × (accepts env config issued.token at (pat, true) ≡ true)
        × (pat.user_id ≡ actor.user_id)
        × (pat.scopes ≡ scopes)
        × (pat.workspace_id ≡ input.workspace_id)

    accepts-record_of :
        (peppers : List Bytes) (prefix secret : Bytes) (id : Uuid) (at now : Time)
        → config.read_pat_peppers ≡ config.pat_pepper ∷ peppers
        → has_ended now input.expires_at ≡ false
        → accepts env config (token_of prefix secret) now (record_of prefix secret id at, true)
          ≡ true
    unfolding accepts new_pat
    accepts-record_of peppers prefix secret id at now ring live =
        rw (active_pepper-matches config peppers (utf8 (token_of prefix secret)) ring, live) refl

    -- Suppose the marker is a valid one, the active pepper heads the ring, the next two draws
    -- give 6 and 32 bytes, and the wanted expiry is none or after a time. When the part of
    -- `CreatePAT` after its checks then succeeds, the returned token parses to a prefix under
    -- which the store that is left has a token of the actor with the given scopes and workspace,
    -- and `AuthenticatePAT`'s test of digest, revocation and expiry accepts the returned text for
    -- it at that time.
    pub issue_pat-Accepted :
        (peppers : List Bytes) (prefix secret : Bytes) (at : Time) (w w' : World)
        (issued : IssuedPat)
        → valid_token_marker config.pat_prefix ≡ true
        → config.read_pat_peppers ≡ config.pat_pepper ∷ peppers
        → env.random w.draws ≡ ok prefix
        → length prefix ≡ 6
        → env.random (w.draws + 1) ≡ ok secret
        → length secret ≡ 32
        → has_ended at input.expires_at ≡ false
        → issue_pat env config actor input scopes w ≡ (ok issued, w')
        → Accepted at issued w'
    issue_pat-Accepted peppers prefix secret at w w' issued valid ring first six second enough live
          h =
        let (id, created_at, commit, v, ended) =
          issue_pat-Stored prefix secret w w' issued first second h in
        let (token, stored) =
          store_pat-ok (record_of prefix secret id created_at) (token_of prefix secret) commit v w'
            issued ended in
        let parsed = parse_pat-pat_text config.pat_prefix prefix secret valid six enough in
        let accepted = accepts-record_of peppers prefix secret id created_at at ring live in
        (
          record_of prefix secret id created_at,
          unfold new_pat in rw token parsed,
          stored,
          rw token accepted,
          unfold new_pat in refl,
          unfold new_pat in refl,
          unfold new_pat in refl,
        )
