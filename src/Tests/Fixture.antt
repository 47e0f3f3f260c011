-- ===== src/Tests/Fixture.antt =====
-- A store with two users who are roots and admins of one workspace, and a concrete environment.
use credbound.Prelude.{true, false, none, some, [], ◌∷◌, zeros}
use credbound.Types.{
  Uuid, Bytes, User, Workspace, Membership, MembershipStatus, InstanceAdministrator, InstanceRole,
  PasswordCredential, PasswordResetCredential, TotpFactor, RecoveryCode, Session, AuthMethod,
  Crypto, AuditEvent, ActorKind, AuditOutcome, Commit, ok,
}
use credbound.Store.State.{Store, new_store}
use credbound.Manager.State.{World, Env}
use credbound.Manager.Config.{Config, StepUpPolicy, CompiledRole}
use credbound.Manager.Authn.{Authentication}

-- A constant digest of 32 bytes, and authentication codes that are empty.
abbrev pub crypto : Crypto
crypto = record { sha256 = λ x. zeros 32; hmac = λ key value. []; uuid_string = λ id. "id" }

abbrev pub event : Uuid → AuditEvent
event id = record {
  id = id;
  occurred_at = 5000;
  actor_kind = ActorKind.user;
  actor_id = 1;
  action = "act";
  resource_type = "user";
  resource_id = "1";
  workspace_id = 0;
  outcome = AuditOutcome.succeeded;
  reason = "";
  ip_address = "";
  user_agent = "";
  sequence = 0;
  previous_hash = [];
  hash = [];
}

abbrev pub commit : Uuid → Commit
commit id = record { audit = event id; transactional = none; ceremony = none; unchained = false }

abbrev pub user : Uuid → User
user id = record {
  id = id;
  email = "a@b.c";
  display_name = "A";
  disabled = false;
  last_seen_at = none;
  created_at = 1;
  updated_at = 1;
}

abbrev pub member : Uuid → Membership
member id = record {
  workspace_id = 8;
  user_id = id;
  role = "admin";
  status = MembershipStatus.active;
  provisioning_source = "local";
  created_at = 1;
  updated_at = 1;
}

abbrev pub root : Uuid → InstanceAdministrator
root id = record { user_id = id; role = InstanceRole.root; created_at = 1; updated_at = 1 }

abbrev pub password : PasswordCredential
password = record { user_id = 1; hash = "old"; updated_at = 1 }

abbrev pub new_password : PasswordCredential
new_password = record { user_id = 1; hash = "new"; updated_at = 2 }

abbrev pub factor : TotpFactor
factor = record {
  user_id = 1;
  encrypted_secret = [];
  active = true;
  last_used_step = 3;
  created_at = 1;
  updated_at = 1;
}

abbrev pub code : Bytes → RecoveryCode
code digest = record { user_id = 1; digest = digest; used_at = none }

abbrev pub session : Session
session = record {
  id = 4;
  user_id = 1;
  method = AuthMethod.password;
  level = 2;
  authenticated_at = 4000;
  second_factor_required = false;
  user_agent = "";
  ip_address = "";
  digest = [];
  created_at = 1;
  last_seen_at = 1;
  expires_at = 9000;
  revoked_at = none;
}

abbrev pub reset : PasswordResetCredential
reset = record {
  id = 6;
  user_id = 1;
  digest = [];
  created_at = 1;
  expires_at = 900;
  used_at = none;
}

abbrev pub workspace : Workspace
workspace = record {
  id = 8;
  name = "W";
  require_mfa = false;
  created_at = 1;
  updated_at = 1;
  disabled_at = none;
}

abbrev pub store : Store
store = record new_store {
  users = (1, user 1) ∷ (2, user 2) ∷ [];
  passwords = (1, password) ∷ [];
  workspaces = (8, workspace) ∷ [];
  memberships = (8, (1, member 1) ∷ (2, member 2) ∷ []) ∷ [];
  admins = (1, root 1) ∷ (2, root 2) ∷ [];
  totp = (1, factor) ∷ [];
  recovery = (1, code (7 ∷ []) ∷ code (9 ∷ []) ∷ []) ∷ [];
  sessions = (4, session) ∷ [];
  password_resets = (6, reset) ∷ [];
}

abbrev pub env : Env
env = record {
  clock = λ n. 5000;
  random = λ n. ok (zeros 16);
  context_error = λ n. none;
  other_calls = λ n s. s;
  hook_outcome = λ n. none;
  ip_address = "";
  user_agent = "";
}

abbrev pub world : World
world = record {
  store = store;
  id_unix_milli = 0;
  id_sequence = 0;
  clock_reads = 0;
  draws = 0;
  calls = 0;
  emitted = [];
}

abbrev pub admin_role : CompiledRole
admin_role = record { name = "admin"; roles = "admin" ∷ []; permissions = "rbac.write" ∷ [] }

abbrev pub config : Config
config = record {
  crypto = crypto;
  max_failed_logins = 3;
  lockout_duration = 100;
  step_up_max_age = 2000;
  step_up = record {
    default_policy = StepUpPolicy.user_capable;
    pat = StepUpPolicy.user_capable;
    workspace = StepUpPolicy.user_capable;
    account = StepUpPolicy.user_capable;
    admin = StepUpPolicy.required;
  };
  has_passkeys = false;
  session_idle_timeout = 0;
  session_touch_interval = 0;
  read_digest_keys = (1 ∷ []) ∷ [];
  workspace_roles = admin_role ∷ [];
  admin_permissions = λ role. [];
  parse_token = λ raw. some 4;
  verify = λ password hash. ok (true, false);
  hash = λ password. ok "new";
  min_password_len = 3;
  password_policy = λ password. none;
  pat_prefix = "cbp";
  pat_pepper = 3 ∷ [];
  read_pat_peppers = (3 ∷ []) ∷ [];
  pat_touch_interval = 0;
  has_totp = true;
  validate_totp = λ code secret at. some 9;
  read_recovery_peppers = (3 ∷ []) ∷ [];
  read_seal_keys = zeros 32 ∷ [];
  gcm_open = λ key nonce sealed. some sealed;
  upper_rune = λ c. c;
}

abbrev pub authn : Authentication
authn = record {
  user_id = 1;
  method = AuthMethod.totp;
  level = 2;
  authenticated_at = 4000;
  second_factor_required = false;
  workspace_id = 0;
  scopes = [];
  credential_digest = [];
}
