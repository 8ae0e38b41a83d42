-- ===== src/Accepting.antt =====
-- internal/repository/existing_invitation.go: an existing teacher accepts an invitation.
pub mod Teachers
use kelolakelas_identity_ser.Base.{
  String, ◌==◌, nat_eq, string_eq, text_eq, Bool, true, ◌&&◌, not, Option, none, some,
  if◌then◌else◌, ltb, exists, update,
}
use kelolakelas_identity_ser.Schema.{Time, Uuid, Db, User, Tenant, TenantMember, TenantInvitation}
use kelolakelas_identity_ser.Sql.{
  Exec, pure, guard, branch, required, query, insert, execute, ask, time_now, new_uuid, ◌>>=◌, ◌>>◌,
  transaction, record_not_found, invitation_account_mismatch, existing_teacher_required,
  invitation_member_inactive, invitation_not_found, invitation_expired, invitation_used,
  already_tenant_member, tenant_session_forbidden, tenant_session_invalid,
}
use kelolakelas_identity_ser.Members.{is_null, is_id, find_role}
use kelolakelas_identity_ser.Emails.{normalize_email}
use kelolakelas_identity_ser.Resets.{user_by_id}
use kelolakelas_identity_ser.Sessions.{own_active, tenant_active, role_of}
use kelolakelas_identity_ser.Registration.{member_of, add_member, member_constraint}
use kelolakelas_identity_ser.Invitations.{
  invitation_by_token, invitation_by_id, any_membership, active_tenant,
}

-- ownTenantChoices with ro.tenant_id IS NULL AND ro.name = 'Teacher'
abbrev teacher_in : Db → TenantMember → Tenant → Bool
teacher_in d tm t =
    tenant_active tm t
    && exists (λ ro. role_of tm ro && is_null ro.tenant_id && ro.name == "Teacher") d.roles

unfoldable pub teaches : Uuid → Db → Bool
teaches user_id d =
    exists (λ tm. own_active user_id tm && exists (teacher_in d tm) d.tenants) d.tenant_members

-- existingTeacher
unfoldable pub existing_teacher : Uuid → Uuid → Exec (Unit {0})
existing_teacher user_id role_id = do
  user ← query (user_by_id user_id)
  user ← required record_not_found user
  guard (not user.is_parent) existing_teacher_required
  role ← query (find_role role_id)
  role ← required record_not_found role
  guard (is_null role.tenant_id && role.name == "Teacher") existing_teacher_required
  found ← query (teaches user_id)
  guard found existing_teacher_required

unfoldable pub live_or_none : Option TenantMember → Exec (Option TenantMember)
live_or_none none = pure none
live_or_none (some m) = do
  guard (m.is_active && is_null m.deleted_at) invitation_member_inactive
  pure (some m)

unfoldable pub invitation_target_member : Uuid → Uuid → Exec (Option TenantMember)
invitation_target_member tenant_id user_id = do
  found ← query (any_membership tenant_id user_id)
  live_or_none found

unfoldable pub validate_existing_teacher : Uuid → Uuid → Uuid → Exec (Unit {0})
validate_existing_teacher tenant_id role_id user_id = transaction do
  existing_teacher user_id role_id
  member ← invitation_target_member tenant_id user_id
  guard (is_null member) already_tenant_member

-- *invitation.AcceptedMemberID == member.ID, both present
abbrev pub accepted_by : TenantInvitation → Option TenantMember → Option TenantMember
accepted_by i none = none
accepted_by i (some m) = if is_id i.accepted_member_id m.id then some m else none

unfoldable pub member_or_new : Uuid → TenantInvitation → Option TenantMember → Exec TenantMember
member_or_new user_id i (some m) = pure m
member_or_new user_id i none = do
  id ← new_uuid
  joined ← time_now
  now ← time_now
  insert (member_constraint i.tenant_id user_id)
      (add_member (member_of id i.tenant_id user_id i.role_id now))
  pure (member_of id i.tenant_id user_id i.role_id now)

unfoldable pub accept_invitation : Uuid → Uuid → Time → Db → Db
accept_invitation id member_id now d = record d {
  tenant_invitations =
      update (λ i. i.id == id)
        (λ i. record i { is_used = true; accepted_member_id = some member_id; updated_at = now })
        d.tenant_invitations;
}

-- What the transaction does with an unused invitation.
unfoldable pub accept_unused : Uuid → TenantInvitation → Option TenantMember → Exec TenantMember
accept_unused user_id i found = do
  clock ← time_now
  guard (ltb clock i.expires_at) invitation_expired
  member ← member_or_new user_id i found
  now ← time_now
  execute (accept_invitation i.id member.id now)
  pure member

unfoldable pub accept_existing : String → Uuid → (User → Exec (Unit {0})) → Exec TenantMember
accept_existing token user_id validate = transaction do
  hint ← query (invitation_by_token token)
  hint ← required invitation_not_found hint
  tenant ← query (active_tenant hint.tenant_id)
  tenant ← required tenant_session_forbidden tenant
  i ← query (invitation_by_id hint.id)
  i ← required record_not_found i
  user ← query (user_by_id user_id)
  user ← required tenant_session_invalid user
  validate user
  env ← ask (λ env n. env)
  guard (normalize_email env user.email == normalize_email env i.email) invitation_account_mismatch
  existing_teacher user_id i.role_id
  member ← invitation_target_member i.tenant_id user_id
  validate user
  branch i.is_used (required invitation_used (accepted_by i member))
      (accept_unused user.id i member)
