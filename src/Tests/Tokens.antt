-- ===== src/Tests/Tokens.antt =====
-- Runs of the issuing and the authentication of personal access tokens.
use credbound.Prelude.{
  String, ℕ, zero, suc, ◌≡◌, refl, none, some, [], ◌∷◌, lookup, zeros, bytes_equal,
}
use credbound.Types.{ok, err, Bytes, Result, Pat}
use credbound.Audit.Encoding.{utf8, utf8_rune}
use credbound.Store.Commits
use credbound.Store.Users
use credbound.Store.Pats
use credbound.Store.Pats.{zero_pat}
use credbound.Manager.State.{Env, World}
use credbound.Manager.Ids
use credbound.Manager.Audits
use credbound.Manager.Sessions as Signing
use credbound.Manager.Tokens
use credbound.Manager.Tokens.RoundTrip.{parse_pat-pat_text}
use credbound.Manager.Pats as Keys
use credbound.Manager.LivePats.{LivePat, authenticate_pat-LivePat}
use credbound.Manager.PatIssuing.{CreatePatInput, IssuedPat}
use credbound.Manager.PatIssuing as Issuing
use credbound.Manager.IssuedPats.{Accepted, issue_pat-Accepted}
use credbound.Tests.Fixture.{crypto, env, config, world, store, authn}

parse_pat-pat_text_example :
    Tokens.parse_pat "cbp" (Tokens.pat_text "cbp" (zeros 6) (zeros 32))
    ≡ some (Tokens.hex_encode (zeros 6))
unfolding Tokens.valid_token_marker Tokens.all_bytes utf8 utf8_rune zeros
parse_pat-pat_text_example = parse_pat-pat_text "cbp" (zeros 6) (zeros 32) refl refl refl

abbrev raw : String
raw = "cbp_000000000000_AAAAAAAAAAAAAAAAAAAAAAAAAAAAAAAAAAAAAAAAAAA"

abbrev pat : Pat
pat = record zero_pat {
  id = 50;
  user_id = 1;
  prefix = "000000000000";
  digest = crypto.hmac (3 ∷ []) (utf8 raw);
  scopes = "*" ∷ [];
}

abbrev with_pat : World
with_pat = record world {
  store = record store { pats = (50, pat) ∷ []; pat_prefixes = ("000000000000", 50) ∷ [] };
}

abbrev authenticated : World
authenticated = (Keys.authenticate_pat env config raw with_pat).1

authenticate_pat-LivePat_example :
    LivePat env config raw with_pat (Keys.pat_authentication pat 5000)
unfolding Keys.authenticate_pat Keys.answer_pat Keys.find_pat Tokens.parse_pat utf8 utf8_rune
    Pats.pat_by_prefix Pats.lookup_prefix Keys.accepts Signing.match_digest_ring bytes_equal
    Keys.has_ended Keys.require_owner Users.user_by_id Keys.require_binding Keys.is_recent
    Keys.touch_and_answer_pat Pats.touch_pat Audits.emit_event Ids.new_id Ids.tick Ids.stamp_id
    Ids.timestamp_bytes Ids.uuid_from zeros Audits.new_audit Commits.transact Commits.prepare_commit
    Commits.prepare_after Commits.can_audit Commits.contains Commits.consume_ceremony
    Commits.snapshot_for Commits.finish_commit Commits.finish_after lookup
authenticate_pat-LivePat_example =
    authenticate_pat-LivePat env config raw with_pat authenticated
      (Keys.pat_authentication pat 5000) refl

-- Six bytes, 32 bytes, then blocks for identifiers.
abbrev draw : ℕ → Result Bytes
draw zero = ok (zeros 6)
draw (suc zero) = ok (zeros 32)
draw (suc (suc n)) = ok (zeros 16)

abbrev drawing : Env
drawing = record env { random = draw }

abbrev input : CreatePatInput
input = record { name = "ci"; workspace_id = 0; scopes = "*" ∷ []; expires_at = none }

abbrev run : Result IssuedPat × World
run = Issuing.issue_pat drawing config authn input ("*" ∷ []) world

abbrev value : Result IssuedPat → IssuedPat
value (ok issued) = issued
value (err e) = record { pat = zero_pat; token = "" }

issue_pat-Accepted_example : Accepted drawing config authn input ("*" ∷ []) 6000 (value run.0) run.1
unfolding Issuing.issue_pat Issuing.store_pat Issuing.new_pat Tokens.valid_token_marker
    Tokens.all_bytes Tokens.pat_text Tokens.hex_encode utf8 utf8_rune Keys.has_ended
    Signing.transactional_commit Pats.create_pat Pats.lookup_prefix Ids.new_id Ids.tick Ids.stamp_id
    Ids.timestamp_bytes Ids.uuid_from zeros Audits.new_audit Commits.transact Commits.prepare_commit
    Commits.prepare_after Commits.can_audit Commits.contains Commits.consume_ceremony
    Commits.snapshot_for Commits.finish_commit Commits.finish_after lookup
issue_pat-Accepted_example =
    issue_pat-Accepted drawing config authn input ("*" ∷ []) [] (zeros 6) (zeros 32) 6000 world
      run.1 (value run.0) refl refl refl refl refl refl refl refl
