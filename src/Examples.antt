-- ===== src/Examples.antt =====
-- One small database, and a run of each operation on it: the data here, the runs in the children.
pub mod Access
pub mod Accounts
pub mod Answers
pub mod Directory
pub mod Platform
pub mod Policy
pub mod Roles
pub mod Teaching
use kelolakelas_identity_ser.Base.{
  ℕ, ◌+◌, ◌*◌, ◌/◌, String, ◌==◌, string_eq, Bool, true, false, Option, none, some, List, [], ◌∷◌,
  Text, text_beq,
}
use kelolakelas_identity_ser.Schema.{
  Time, Db, User, Tenant, Role, Permission, RolePermission, TenantMember, TenantInvitation,
  CreatorRequest, PasswordResetToken, FactorAssignment, FactorChallenge, ConfigurationHead,
}
use kelolakelas_identity_ser.Sql.{Env, State}
use kelolakelas_identity_ser.Resets.{second}
use kelolakelas_identity_ser.Sessions.{Jwt, Claims, parsed}
use kelolakelas_identity_ser.Factor.{Crypto}

-- No statement fails, and the clock stands.
abbrev pub calm : Env
calm = record {
  fails = λ n. false;
  now = λ n. 1_000 * second;
  fresh = λ n. 100 + n;
  fresh_token = λ n. "fresh";
  hash_password = λ p. some p;
  check_password = λ p h. p == h;
  lower_rune = λ c. c;
  space_rune = λ c. false;
  sql_lower = λ t. t;
  sql_lower_name = λ t. t;
  equal_fold = text_beq;
  jsonb = λ t. some t;
}

abbrev pub ann_email : Text
ann_email = b'a' ∷ b'@' ∷ b'k' ∷ []

abbrev pub new_email : Text
new_email = b'n' ∷ b'@' ∷ b'k' ∷ []

abbrev pub account : ℕ → Text → Option ℕ → User
account id email until = record {
  id = id;
  email = email;
  password_hash = "secret";
  session_valid_after = none;
  failed_login_attempts = 0;
  login_locked_until = until;
  first_name = "A";
  last_name = "B";
  phone = none;
  is_parent = false;
  deleted_at = none;
}

abbrev pub ann : User
ann = account 1 ann_email none

abbrev pub barred : User
barred = account 2 (b'b' ∷ []) (some (2_000 * second))

abbrev pub school : Tenant
school = record {
  id = 7;
  name = "School";
  phone = none;
  address = none;
  status = "active";
  deleted_at = none;
}

abbrev pub office : Role
office = record { id = 3; tenant_id = some 7; name = "Office"; description = "" }

abbrev pub creator : Role
creator = record { id = 2; tenant_id = none; name = "Creator"; description = "" }

abbrev pub teacher : Role
teacher = record { id = 4; tenant_id = none; name = "Teacher"; description = "" }

abbrev pub invites : Permission
invites = record { id = 5; name = "member:invite"; description = "" }

abbrev pub office_invites : RolePermission
office_invites = record { role_id = 3; permission_id = 5 }

abbrev pub membership : ℕ → ℕ → ℕ → TenantMember
membership id user_id role_id = record {
  id = id;
  tenant_id = 7;
  user_id = user_id;
  role_id = role_id;
  is_active = true;
  updated_at = 0;
  deleted_at = none;
}

abbrev pub invitation : TenantInvitation
invitation = record {
  id = 11;
  tenant_id = 7;
  role_id = 3;
  email = new_email;
  token = "invite";
  is_used = false;
  expires_at = 2_000 * second;
  accepted_member_id = none;
  updated_at = 0;
}

abbrev pub request : CreatorRequest
request = record {
  id = 21;
  tenant_id = 7;
  requester_user_id = 1;
  target_email = new_email;
  target_user_id = none;
  reason = b'r' ∷ [];
  status = "pending";
  decided_by = none;
  decided_at = none;
  rejection_reason = none;
  invitation_id = none;
  created_at = 0;
  updated_at = 0;
}

abbrev pub reset_hash : Text
reset_hash = b'h' ∷ []

abbrev pub reset : PasswordResetToken
reset = record { token_hash = reset_hash; user_id = 1; expires_at = 2_000 * second; used_at = none }

abbrev pub administrator : FactorAssignment
administrator = record {
  user_id = 1;
  is_active = true;
  factor_secret = b's' ∷ [];
  enrollment_allowed = false;
  factor_version = 1;
}

abbrev pub code_token : Text
code_token = b'c' ∷ []

abbrev pub code : FactorChallenge
code = record {
  token_hash = code_token;
  user_id = 1;
  purpose = "verify";
  pending_secret = [];
  factor_version = 1;
  expires_at = 2_000 * second;
  attempts = 4;
  consumed_at = none;
}

abbrev pub registration_head : ConfigurationHead
registration_head = record {
  application = "identity";
  environment = "platform";
  key = "TENANT_REGISTRATION_OPEN";
  latest_version = 0;
}

abbrev pub tables : Db
tables = record {
  users = ann ∷ barred ∷ [];
  tenants = school ∷ [];
  roles = office ∷ creator ∷ teacher ∷ [];
  permissions = invites ∷ [];
  role_permissions = office_invites ∷ [];
  tenant_members = membership 8 1 3 ∷ membership 9 2 2 ∷ [];
  tenant_invitations = invitation ∷ [];
  tenant_wallets = [];
  user_wallets = [];
  creator_requests = request ∷ [];
  creator_request_audit = [];
  password_reset_tokens = reset ∷ [];
  platform_admin_assignments = administrator ∷ [];
  platform_factor_challenges = code ∷ [];
  configuration_heads = registration_head ∷ [];
  configuration_versions = [];
  configuration_reports = [];
}

abbrev pub start : State
start = record { db = tables; step = 0 }

abbrev pub ann_claims : Time → Claims
ann_claims now = record {
  user_id = 1;
  email = ann_email;
  tenant_id = 0;
  role_id = 0;
  member_id = 0;
  is_parent = false;
  is_platform_admin = false;
  platform_factor_version = 0;
  platform_pending = false;
  platform_pending_version = 0;
  expires_at = some (now + 3_600 * second);
  issued_at = some now;
}

-- A package for tokens in which every token is that of the first user.
abbrev pub tokens : Jwt
tokens = record {
  numeric_date = λ t. t / second * second;
  signed_string = λ c. some "signed";
  parse_with_claims = λ now t. parsed (ann_claims now);
  token_duration = 3_600 * second;
}

abbrev pub plain : Crypto
plain = record {
  has_key = true;
  seal = λ t. some t;
  unseal = λ t. some t;
  digest = λ t. t;
  verify = λ t. some true;
}
