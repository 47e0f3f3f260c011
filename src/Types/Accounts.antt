-- ===== src/Types/Accounts.antt =====
-- types.go: users, workspaces, memberships and instance administrators. An identifier is a number
-- and 0 is the zero UUID. A time is a number of nanoseconds and 0 is the zero time.
use credbound.Prelude.{ℕ, Bool, Option, String}

abbrev pub Uuid : Type 0
Uuid = ℕ

abbrev pub Time : Type 0
Time = ℕ

pub record User : Type 0 where
  pub id : Uuid
  pub email : String
  pub display_name : String
  pub disabled : Bool
  pub last_seen_at : Option Time
  pub created_at : Time
  pub updated_at : Time

pub record Workspace : Type 0 where
  pub id : Uuid
  pub name : String
  pub require_mfa : Bool
  pub created_at : Time
  pub updated_at : Time
  pub disabled_at : Option Time

pub data MembershipStatus : Type 0 where
  unset active suspended : MembershipStatus

abbrev pub is_active : MembershipStatus → Bool
is_active MembershipStatus.active = Bool.true
is_active _ = Bool.false

pub record Membership : Type 0 where
  pub workspace_id : Uuid
  pub user_id : Uuid
  pub role : String
  pub status : MembershipStatus
  pub provisioning_source : String
  pub created_at : Time
  pub updated_at : Time

pub data InstanceRole : Type 0 where
  root developer support marketing sales : InstanceRole

abbrev pub is_root : InstanceRole → Bool
is_root InstanceRole.root = Bool.true
is_root _ = Bool.false

pub record InstanceAdministrator : Type 0 where
  pub user_id : Uuid
  pub role : InstanceRole
  pub created_at : Time
  pub updated_at : Time
