-- ===== src/Invitations.antt =====
-- internal/repository/invitation_repository.go: the invitations of a tenant, and the lookups that
-- every way to redeem one shares.
pub mod Single
use kelolakelas_identity_ser.Base.{
  ℕ, ◌+◌, ◌*◌, String, ◌==◌, nat_eq, string_eq, text_eq, Bool, true, false, ◌&&◌, ◌||◌, not, Option,
  none, some, List, [], ◌∷◌, ◌++◌, if◌then◌else◌, Text, ltb, first, exists, update, rows, count,
  from, head, is_some, leb,
}
use kelolakelas_identity_ser.Schema.{
  Time, Uuid, Db, User, Tenant, Role, TenantMember, TenantInvitation, CreatorRequest,
}
use kelolakelas_identity_ser.Sql.{
  Error, Env, Exec, pure, throw, guard, branch, required, query, insert, execute, affect, ask,
  time_now, new_uuid, on_error, ◌>>=◌, ◌>>◌, transaction, record_not_found, hash_error,
  user_already_exists, creator_grant_forbidden, creator_request_stale, unique_violation,
  invitation_account_mismatch, existing_teacher_required, invitation_member_inactive,
  invitation_not_found, invitation_expired, invitation_used, already_tenant_member,
  invitation_role_invalid, tenant_session_forbidden, tenant_session_invalid,
}
use kelolakelas_identity_ser.Members.{is_null, is_id, find_role, is_system_creator_role, Caller}
use kelolakelas_identity_ser.Permissions.{require_permission}
use kelolakelas_identity_ser.Emails.{normalize_email, user_by_email}
use kelolakelas_identity_ser.Resets.{second, user_by_id}
use kelolakelas_identity_ser.Sessions.{own_tenant_choices, own_active, tenant_active, role_of}
use kelolakelas_identity_ser.Registration.{
  member_of, add_member, member_constraint, create_user, add_user_wallet, empty_user_wallet,
  user_wallet_constraint,
}

-- Where("token = ?").First
unfoldable pub invitation_by_token : String → Db → Option TenantInvitation
invitation_by_token token d = first (λ i. i.id) (λ i. i.token == token) d.tenant_invitations

unfoldable pub invitation_by_id : Uuid → Db → Option TenantInvitation
invitation_by_id id d = first (λ i. i.id) (λ i. i.id == id) d.tenant_invitations

unfoldable pub get_by_token : String → Exec TenantInvitation
get_by_token token = do
  invitation ← query (invitation_by_token token)
  required invitation_not_found invitation

-- First(&tenant, "id = ?"), with gorm's soft-delete scope
unfoldable pub tenant_by_id : Uuid → Db → Option Tenant
tenant_by_id id d = first (λ t. t.id) (λ t. t.id == id && is_null t.deleted_at) d.tenants

-- tenant_id = ? AND LOWER(email) = ? AND is_used = false
unfoldable pub is_open_for : Env → Uuid → Text → TenantInvitation → Bool
is_open_for env tenant_id email i =
    i.tenant_id == tenant_id && env.sql_lower i.email == email && not i.is_used

abbrev pub spend : Time → TenantInvitation → TenantInvitation
spend now i = record i { is_used = true; updated_at = now }

unfoldable pub spend_open : Env → Uuid → Text → Time → Db → Db
spend_open env tenant_id email now d = record d {
  tenant_invitations = update (is_open_for env tenant_id email) (spend now) d.tenant_invitations;
}

unfoldable pub add_invitation : TenantInvitation → Db → Db
add_invitation i d = record d { tenant_invitations = d.tenant_invitations ++ i ∷ [] }

unfoldable pub invitation_constraint : String → Db → Option Error
invitation_constraint token d =
    if exists (λ i. i.token == token) d.tenant_invitations
    then some (unique_violation "tenant_invitations_token_key")
    else none

unfoldable pub replace_active_body : Env → TenantInvitation → Exec (Unit {0})
replace_active_body env invitation = do
  tenant ← query (tenant_by_id invitation.tenant_id)
  tenant ← required record_not_found tenant
  now ← time_now
  execute (spend_open env invitation.tenant_id invitation.email now)
  insert (invitation_constraint invitation.token) (add_invitation invitation)

-- ReplaceActive: the address is brought to its canonical form first.
unfoldable pub replace_active : TenantInvitation → Exec (Unit {0})
replace_active invitation = do
  env ← ask (λ env n. env)
  transaction
      (replace_active_body env (record invitation { email = normalize_email env invitation.email }))

abbrev revocable : Uuid → Uuid → TenantInvitation → Bool
revocable tenant_id id i = i.id == id && i.tenant_id == tenant_id && not i.is_used

unfoldable pub revoke : Uuid → Uuid → Exec (Unit {0})
revoke tenant_id id = do
  now ← time_now
  affected ←
      affect (λ d. count (revocable tenant_id id) d.tenant_invitations)
        (λ d. record d {
          tenant_invitations = update (revocable tenant_id id) (spend now) d.tenant_invitations;
        })
  guard (not (affected == 0)) invitation_not_found

-- tx.Unscoped: the row of the tenant and the user, deleted or not
unfoldable pub any_membership : Uuid → Uuid → Db → Option TenantMember
any_membership tenant_id user_id d =
    first (λ m. m.id) (λ m. m.tenant_id == tenant_id && m.user_id == user_id) d.tenant_members

-- Where("id = ? AND status = 'active'")
unfoldable pub active_tenant : Uuid → Db → Option Tenant
active_tenant id d =
    first (λ t. t.id) (λ t. t.id == id && t.status == "active" && is_null t.deleted_at) d.tenants
