-- ===== src/Manager/Config.antt =====
-- config.go and types.go: the parts of the configuration that the modelled operations read, and the
-- step-up policies.
use credbound.Prelude.{ℕ, Bool, true, false, Option, List, String}
use credbound.Types.{Uuid, Time, Bytes, Crypto, Error, Result, InstanceRole}

-- `StepUpPolicy`: `unset` is the empty string, and `unknown` any other value.
pub data StepUpPolicy : Type 0 where
  unset required user_capable none unknown : StepUpPolicy

unfoldable pub valid_policy : StepUpPolicy → Bool
valid_policy StepUpPolicy.required = true
valid_policy StepUpPolicy.user_capable = true
valid_policy StepUpPolicy.none = true
valid_policy StepUpPolicy.unset = false
valid_policy StepUpPolicy.unknown = false

-- `StepUpScope`, `other` for a scope that no constant names.
pub data StepUpScope : Type 0 where
  pat workspace account admin other : StepUpScope

pub record StepUpPolicies : Type 0 where
  pub default_policy : StepUpPolicy
  pub pat : StepUpPolicy
  pub workspace : StepUpPolicy
  pub account : StepUpPolicy
  pub admin : StepUpPolicy

unfoldable pub or_policy : StepUpPolicy → StepUpPolicy → StepUpPolicy
or_policy StepUpPolicy.unset inherited = inherited
or_policy StepUpPolicy.required inherited = StepUpPolicy.required
or_policy StepUpPolicy.user_capable inherited = StepUpPolicy.user_capable
or_policy StepUpPolicy.none inherited = StepUpPolicy.none
or_policy StepUpPolicy.unknown inherited = StepUpPolicy.unknown

unfoldable pub resolve : StepUpPolicies → StepUpPolicies
unfolding or_policy
resolve p =
    let d = or_policy p.default_policy StepUpPolicy.required in
    record {
      default_policy = d;
      pat = or_policy p.pat d;
      workspace = or_policy p.workspace d;
      account = or_policy p.account d;
      admin = or_policy p.admin d;
    }

unfoldable pub policy_for : StepUpPolicies → StepUpScope → StepUpPolicy
policy_for p StepUpScope.pat = p.pat
policy_for p StepUpScope.workspace = p.workspace
policy_for p StepUpScope.account = p.account
policy_for p StepUpScope.admin = p.admin
policy_for p StepUpScope.other = StepUpPolicy.required

-- A role with the roles that it reaches and the permissions that it carries.
pub record CompiledRole : Type 0 where
  pub name : String
  pub roles : List String
  pub permissions : List String

-- `verify` answers whether a password matches a hash and whether the hash is outdated; `hash`
-- derives one. `validate_totp` is the TOTP provider's check of a code against a secret, `gcm_open`
-- AES-GCM's opening under a key and a nonce, and `upper_rune` Unicode's upper case. `parse_token` is `parseSecretToken` of the session prefix.
pub record Config : Type 0 where
  pub crypto : Crypto
  pub max_failed_logins : ℕ
  pub lockout_duration : ℕ
  pub step_up_max_age : ℕ
  pub step_up : StepUpPolicies
  pub has_passkeys : Bool
  pub session_idle_timeout : ℕ
  pub session_touch_interval : ℕ
  pub read_digest_keys : List Bytes
  pub workspace_roles : List CompiledRole
  pub admin_permissions : InstanceRole → List String
  pub parse_token : String → Option Uuid
  pub verify : String → String → Result (Bool × Bool)
  pub hash : String → Result String
  pub min_password_len : ℕ
  pub password_policy : String → Option Error
  pub pat_prefix : String
  pub pat_pepper : Bytes
  pub read_pat_peppers : List Bytes
  pub pat_touch_interval : ℕ
  pub has_totp : Bool
  pub validate_totp : String → Bytes → Time → Option ℕ
  pub read_recovery_peppers : List Bytes
  pub read_seal_keys : List Bytes
  pub gcm_open : Bytes → Bytes → Bytes → Option Bytes
  pub upper_rune : ℕ → ℕ
