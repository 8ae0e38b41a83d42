-- ===== src/Schema.antt =====
-- The rows of the service's tables: internal/domain and migrations/.
use kelolakelas_identity_ser.Base.{ℕ, String, Bool, Option, List, Text}

-- uuid.UUID; 0 is uuid.Nil.
abbrev pub Uuid : Type 0
Uuid = ℕ

-- Nanoseconds since the epoch.
abbrev pub Time : Type 0
Time = ℕ

-- domain.User
pub record User : Type 0 where
  pub id : Uuid
  pub email : Text
  pub password_hash : String
  pub session_valid_after : Option Time
  pub failed_login_attempts : ℕ
  pub login_locked_until : Option Time
  pub first_name : String
  pub last_name : String
  pub phone : Option String
  pub is_parent : Bool
  pub deleted_at : Option Time

-- domain.Tenant; the columns of the location, the profile and the payment account are left out.
pub record Tenant : Type 0 where
  pub id : Uuid
  pub name : String
  pub phone : Option String
  pub address : Option String
  pub status : String
  pub deleted_at : Option Time

-- domain.Role and domain.Permission
pub record Role : Type 0 where
  pub id : Uuid
  pub tenant_id : Option Uuid
  pub name : String
  pub description : String

pub record Permission : Type 0 where
  pub id : Uuid
  pub name : String
  pub description : String

-- domain.RolePermission
pub record RolePermission : Type 0 where
  pub role_id : Uuid
  pub permission_id : Uuid

-- domain.TenantMember
pub record TenantMember : Type 0 where
  pub id : Uuid
  pub tenant_id : Uuid
  pub user_id : Uuid
  pub role_id : Uuid
  pub is_active : Bool
  pub updated_at : Time
  pub deleted_at : Option Time

-- domain.TenantInvitation: the stored columns.
pub record TenantInvitation : Type 0 where
  pub id : Uuid
  pub tenant_id : Uuid
  pub role_id : Uuid
  pub email : Text
  pub token : String
  pub is_used : Bool
  pub expires_at : Time
  pub accepted_member_id : Option Uuid
  pub updated_at : Time

-- domain.TenantWallet and domain.UserWallet
pub record TenantWallet : Type 0 where
  pub id : Uuid
  pub tenant_id : Uuid
  pub available_balance : ℕ
  pub pending_balance : ℕ

pub record UserWallet : Type 0 where
  pub id : Uuid
  pub user_id : Uuid
  pub balance : ℕ

-- domain.CreatorRequest, and a row of creator_request_audit
pub record CreatorRequest : Type 0 where
  pub id : Uuid
  pub tenant_id : Uuid
  pub requester_user_id : Uuid
  pub target_email : Text
  pub target_user_id : Option Uuid
  pub reason : Text
  pub status : String
  pub decided_by : Option Uuid
  pub decided_at : Option Time
  pub rejection_reason : Option Text
  pub invitation_id : Option Uuid
  pub created_at : Time
  pub updated_at : Time

pub record CreatorRequestAudit : Type 0 where
  pub id : Uuid
  pub request_id : Uuid
  pub tenant_id : Uuid
  pub actor_user_id : Uuid
  pub decision : String
  pub rejection_reason : Option Text
  pub created_at : Time

-- passwordResetToken of internal/repository
pub record PasswordResetToken : Type 0 where
  pub token_hash : Text
  pub user_id : Uuid
  pub expires_at : Time
  pub used_at : Option Time

-- factorAssignment and factorChallengeRow of internal/repository; `none` is a NULL secret.
pub record FactorAssignment : Type 0 where
  pub user_id : Uuid
  pub is_active : Bool
  pub factor_secret : Text
  pub enrollment_allowed : Bool
  pub factor_version : ℕ

pub record FactorChallenge : Type 0 where
  pub token_hash : Text
  pub user_id : Uuid
  pub purpose : String
  pub pending_secret : Text
  pub factor_version : ℕ
  pub expires_at : Time
  pub attempts : ℕ
  pub consumed_at : Option Time

-- A row of configuration_heads, domain.ConfigurationVersion and domain.ConfigurationReport.
pub record ConfigurationHead : Type 0 where
  pub application : String
  pub environment : String
  pub key : String
  pub latest_version : ℕ

pub record ConfigurationVersion : Type 0 where
  pub id : ℕ
  pub application : String
  pub environment : String
  pub key : String
  pub version : ℕ
  pub value : Text
  pub created_by : Uuid
  pub rollback_of_version_id : Option ℕ

pub record ConfigurationReport : Type 0 where
  pub id : ℕ
  pub version_id : ℕ
  pub status : String
  pub reported_by : Uuid

pub record Db : Type 0 where
  pub users : List User
  pub tenants : List Tenant
  pub roles : List Role
  pub permissions : List Permission
  pub role_permissions : List RolePermission
  pub tenant_members : List TenantMember
  pub tenant_invitations : List TenantInvitation
  pub tenant_wallets : List TenantWallet
  pub user_wallets : List UserWallet
  pub creator_requests : List CreatorRequest
  pub creator_request_audit : List CreatorRequestAudit
  pub password_reset_tokens : List PasswordResetToken
  pub platform_admin_assignments : List FactorAssignment
  pub platform_factor_challenges : List FactorChallenge
  pub configuration_heads : List ConfigurationHead
  pub configuration_versions : List ConfigurationVersion
  pub configuration_reports : List ConfigurationReport
