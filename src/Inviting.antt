-- ===== src/Inviting.antt =====
-- internal/usecase/invitation_usecase.go: who may invite, to which role, and what an invited person
-- is shown.
use kelolakelas_identity_ser.Base.{
  ◌+◌, ◌*◌, String, nat_eq, string_eq, text_eq, Bool, false, ◌||◌, not, Option, none, some, Text,
  ltb, is_some,
}
use kelolakelas_identity_ser.Schema.{Time, Uuid, User, TenantInvitation}
use kelolakelas_identity_ser.Sql.{
  Exec, pure, guard, required, query, ask, time_now, new_uuid, ◌>>=◌, ◌>>◌, record_not_found,
  creator_grant_forbidden, invitation_expired, invitation_used, invitation_role_invalid,
  role_not_found,
}
use kelolakelas_identity_ser.Members.{is_null, is_id, find_role, is_system_creator_role, Caller}
use kelolakelas_identity_ser.Permissions.{require_permission}
use kelolakelas_identity_ser.Emails.{normalize_email, user_by_email}
use kelolakelas_identity_ser.Resets.{second}
use kelolakelas_identity_ser.Invitations.{get_by_token, tenant_by_id, replace_active, revoke}
use kelolakelas_identity_ser.Accepting.{validate_existing_teacher}

-- validateInvitableRole
unfoldable pub validate_invitable_role : Uuid → Uuid → Exec (Unit {0})
validate_invitable_role tenant_id role_id = do
  role ← query (find_role role_id)
  role ← required invitation_role_invalid role
  guard (not (is_system_creator_role role)) creator_grant_forbidden
  guard (is_null role.tenant_id || is_id role.tenant_id tenant_id) invitation_role_invalid

-- The check of an address that has an account.
unfoldable pub validate_account : Uuid → Uuid → Option User → Exec (Unit {0})
validate_account tenant_id role_id none = pure tt
validate_account tenant_id role_id (some user) = validate_existing_teacher tenant_id role_id user.id

abbrev new_invitation : Uuid → Uuid → Uuid → Text → String → Time → TenantInvitation
new_invitation id tenant_id role_id email token now = record {
  id = id;
  tenant_id = tenant_id;
  role_id = role_id;
  email = email;
  token = token;
  is_used = false;
  expires_at = now + 172_800 * second;
  accepted_member_id = none;
  updated_at = now;
}

-- CreateInvitation; the e-mail that it sends, whose failure is only reported, is left out.
unfoldable pub create_invitation : Option Caller → Uuid → Uuid → Uuid → Text → Exec TenantInvitation
create_invitation caller tenant_id caller_role_id role_id email = do
  require_permission caller tenant_id caller_role_id "member:invite"
  validate_invitable_role tenant_id role_id
  env ← ask (λ env n. env)
  user ← query (user_by_email env (normalize_email env email))
  validate_account tenant_id role_id user
  tenant ← query (tenant_by_id tenant_id)
  tenant ← required record_not_found tenant
  token ← ask (λ env n. env.fresh_token n)
  now ← time_now
  id ← new_uuid
  replace_active (new_invitation id tenant_id role_id (normalize_email env email) token now)
  pure (new_invitation id tenant_id role_id (normalize_email env email) token now)

unfoldable pub revoke_invitation : Option Caller → Uuid → Uuid → Uuid → Exec (Unit {0})
revoke_invitation caller tenant_id caller_role_id id = do
  require_permission caller tenant_id caller_role_id "member:invite"
  revoke tenant_id id

-- What VerifyInvitation shows: the invitation, the names of the tenant and the role, and whether
-- the address has an account.
pub record InvitationView : Type 0 where
  pub invitation : TenantInvitation
  pub tenant_name : String
  pub role_name : String
  pub existing_account : Bool

unfoldable pub verify_invitation : String → Exec InvitationView
verify_invitation token = do
  i ← get_by_token token
  guard (not i.is_used) invitation_used
  now ← time_now
  guard (not (ltb i.expires_at now)) invitation_expired
  tenant ← query (tenant_by_id i.tenant_id)
  tenant ← required record_not_found tenant
  role ← query (find_role i.role_id)
  role ← required role_not_found role
  env ← ask (λ env n. env)
  user ← query (user_by_email env i.email)
  pure record {
    invitation = i;
    tenant_name = tenant.name;
    role_name = role.name;
    existing_account = is_some user;
  }
