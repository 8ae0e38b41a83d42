-- ===== src/Redeeming.antt =====
-- RegisterInvitedUserTx of internal/repository/user_repository.go: an invitation makes an account.
pub mod Once
use kelolakelas_identity_ser.Base.{
  ℕ, ◌+◌, ◌*◌, String, ◌==◌, nat_eq, string_eq, text_eq, Bool, true, false, ◌&&◌, ◌||◌, not, Option,
  none, some, List, [], ◌∷◌, ◌++◌, if◌then◌else◌, Text, ltb, first, exists, update, rows, count,
  from, head, is_some, leb,
}
use kelolakelas_identity_ser.Schema.{
  Time, Uuid, Db, User, Tenant, Role, TenantMember, TenantInvitation, CreatorRequest,
}
use kelolakelas_identity_ser.Sql.{
  Error, Env, Exec, pure, throw, guard, branch, required, query, insert, execute, affect, ask,
  time_now, new_uuid, on_error, ◌>>=◌, ◌>>◌, transaction, record_not_found, hash_error,
  user_already_exists, creator_grant_forbidden, creator_request_stale, unique_violation,
  invitation_account_mismatch, existing_teacher_required, invitation_member_inactive,
  invitation_not_found, invitation_expired, invitation_used, already_tenant_member,
  invitation_role_invalid, tenant_session_forbidden, tenant_session_invalid,
}
use kelolakelas_identity_ser.Members.{is_null, is_id, find_role, is_system_creator_role, Caller}
use kelolakelas_identity_ser.Permissions.{require_permission}
use kelolakelas_identity_ser.Emails.{normalize_email, user_by_email}
use kelolakelas_identity_ser.Resets.{second, user_by_id}
use kelolakelas_identity_ser.Sessions.{own_tenant_choices, own_active, tenant_active, role_of}
use kelolakelas_identity_ser.Registration.{
  member_of, add_member, member_constraint, create_user, add_user_wallet, empty_user_wallet,
  user_wallet_constraint,
}
use kelolakelas_identity_ser.Invitations.{
  invitation_by_token, invitation_by_id, get_by_token, tenant_by_id, spend, any_membership,
  active_tenant,
}

-- COUNT of the approved requests that stand behind a Creator invitation
unfoldable pub approves : Env → TenantInvitation → Text → CreatorRequest → Bool
approves env i email r =
    is_id r.invitation_id i.id
    && r.tenant_id == i.tenant_id
    && env.sql_lower r.target_email == email
    && r.status == "approved"
    && is_null r.target_user_id

unfoldable pub creator_approved : Env → TenantInvitation → Text → Exec (Unit {0})
creator_approved env i email = do
  approved ← query (λ d. count (approves env i email) d.creator_requests)
  guard (approved == 1) creator_grant_forbidden
  tenant ← on_error (λ e. creator_request_stale) (query (active_tenant i.tenant_id))
  tenant ← required creator_request_stale tenant
  pure tt

abbrev pub invited_user : Uuid → Text → String → String → String → User
invited_user id email password_hash first_name last_name = record {
  id = id;
  email = email;
  password_hash = password_hash;
  session_valid_after = none;
  failed_login_attempts = 0;
  login_locked_until = none;
  first_name = first_name;
  last_name = last_name;
  phone = none;
  is_parent = false;
  deleted_at = none;
}

-- tx.Save(&invitation), which writes every column of the row with its id
unfoldable pub save_invitation : TenantInvitation → Db → Db
save_invitation i d = record d {
  tenant_invitations = update (λ j. j.id == i.id) (λ j. i) d.tenant_invitations;
}

unfoldable pub register_invited_body : String → String → String → String → Exec User
register_invited_body token first_name last_name password = do
  i ← query (invitation_by_token token)
  i ← required invitation_not_found i
  guard (not i.is_used) invitation_used
  clock ← time_now
  guard (not (ltb i.expires_at clock)) invitation_expired
  role ← query (find_role i.role_id)
  role ← required record_not_found role
  env ← ask (λ env n. env)
  branch (is_system_creator_role role) (creator_approved env i (normalize_email env i.email))
      (pure tt)
  existing ← query (user_by_email env i.email)
  guard (is_null existing) user_already_exists
  password_hash ← required hash_error (env.hash_password password)
  id ← new_uuid
  create_user env (invited_user id (normalize_email env i.email) password_hash first_name last_name)
  member_id ← new_uuid
  created ← time_now
  insert (member_constraint i.tenant_id id)
      (add_member (member_of member_id i.tenant_id id i.role_id created))
  wallet_id ← new_uuid
  insert (user_wallet_constraint id) (add_user_wallet (empty_user_wallet wallet_id id))
  now ← time_now
  execute (save_invitation (spend now i))
  pure (invited_user id (normalize_email env i.email) password_hash first_name last_name)

unfoldable pub register_invited_user_tx : String → String → String → String → Exec User
register_invited_user_tx token first_name last_name password =
    transaction (register_invited_body token first_name last_name password)
