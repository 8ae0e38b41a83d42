-- ===== src/CreatorDecisions.antt =====
-- internal/repository/creator_decision_repository.go: a platform administrator decides a request.
pub mod Decided
pub mod Granted
use kelolakelas_identity_ser.Base.{
  ℕ, suc, ◌+◌, ◌*◌, String, ◌==◌, nat_eq, string_eq, text_eq, Bool, true, false, ◌&&◌, ◌||◌, not,
  Option, none, some, List, [], ◌∷◌, ◌++◌, if◌then◌else◌, Text, ltb, leb, first, exists, update,
  rows, count, is_some,
}
use kelolakelas_identity_ser.Schema.{
  Time, Uuid, Db, User, Role, TenantMember, TenantInvitation, CreatorRequest, CreatorRequestAudit,
}
use kelolakelas_identity_ser.Sql.{
  Error, Env, Exec, pure, throw, guard, branch, required, query, insert, execute, ask, time_now,
  new_uuid, on_error, ◌>>=◌, ◌>>◌, transaction, record_not_found, unique_violation,
  creator_request_forbidden, creator_request_duplicate, creator_target_already_creator,
  creator_request_invalid, creator_request_not_found, creator_request_decided,
  creator_request_stale,
}
use kelolakelas_identity_ser.Members.{is_null, is_id}
use kelolakelas_identity_ser.Emails.{normalize_email, trim_space}
use kelolakelas_identity_ser.Resets.{second, user_by_id}
use kelolakelas_identity_ser.Registration.{
  member_of, add_member, member_constraint, system_creator_role,
}
use kelolakelas_identity_ser.Invitations.{
  any_membership, active_tenant, add_invitation, invitation_constraint,
}
use kelolakelas_identity_ser.CreatorRequests.{user_at, is_empty}

unfoldable pub request_by_id : Uuid → Db → Option CreatorRequest
request_by_id id d = first (λ r. r.id) (λ r. r.id == id) d.creator_requests

unfoldable pub is_platform_admin : Uuid → Db → Bool
is_platform_admin user_id d =
    exists (λ a. a.user_id == user_id && a.is_active) d.platform_admin_assignments

-- tx.Model(&member).Update("role_id", …), which also sets updated_at
unfoldable pub make_creator : Uuid → Uuid → Time → Db → Db
make_creator member_id role_id now d = record d {
  tenant_members =
      update (λ m. m.id == member_id && is_null m.deleted_at)
        (λ m. record m { role_id = role_id; updated_at = now }) d.tenant_members;
}

-- The grant to an account that has no row in the tenant, or has one.
unfoldable pub grant_creator : CreatorRequest → Uuid → Role → Option TenantMember → Exec (Unit {0})
grant_creator r user_id role none = do
  id ← new_uuid
  now ← time_now
  insert (member_constraint r.tenant_id user_id)
      (add_member (member_of id r.tenant_id user_id role.id now))
grant_creator r user_id role (some m) = do
  guard (is_null m.deleted_at && m.is_active) creator_request_stale
  guard (not (m.role_id == role.id)) creator_target_already_creator
  now ← time_now
  execute (make_creator m.id role.id now)

abbrev invitation_row : Uuid → CreatorRequest → Uuid → String → Time → TenantInvitation
invitation_row id r role_id token now = record {
  id = id;
  tenant_id = r.tenant_id;
  role_id = role_id;
  email = r.target_email;
  token = token;
  is_used = false;
  expires_at = now + 172_800 * second;
  accepted_member_id = none;
  updated_at = now;
}

-- The account that the address has now must be the one that the request named, if it named one.
abbrev is_target : CreatorRequest → User → Bool
is_target r u = is_id r.target_user_id u.id

-- Approval, by what the lookup of the address found: a grant to the account, or an invitation.
unfoldable pub approve : CreatorRequest → Time → Option User → Exec CreatorRequest
approve r now (some u) = do
  guard (is_target r u) creator_request_stale
  guard (not u.is_parent) creator_request_stale
  role ← query system_creator_role
  role ← required record_not_found role
  found ← query (any_membership r.tenant_id u.id)
  grant_creator r u.id role found
  pure (record r { target_user_id = some u.id; status = "approved" })
approve r now none = do
  guard (is_null r.target_user_id) creator_request_stale
  role ← query system_creator_role
  role ← required record_not_found role
  id ← new_uuid
  token ← ask (λ env n. env.fresh_token n)
  insert (invitation_constraint token) (add_invitation (invitation_row id r role.id token now))
  pure (record r { invitation_id = some id; status = "approved" })

-- len counts bytes: `size` is the length of the text in UTF-8.
unfoldable pub reject : (Text → ℕ) → CreatorRequest → Text → Exec CreatorRequest
reject size r reason = do
  env ← ask (λ env n. env)
  guard (not (is_empty (trim_space env reason)) && leb (size reason) 2000) creator_request_invalid
  pure (record r { status = "rejected"; rejection_reason = some (trim_space env reason) })

-- tx.Save(&request)
unfoldable pub save_request : CreatorRequest → Db → Db
save_request r d = record d {
  creator_requests = update (λ q. q.id == r.id) (λ q. r) d.creator_requests;
}

abbrev pub audit_row : Uuid → CreatorRequest → Uuid → Time → CreatorRequestAudit
audit_row id r actor_id now = record {
  id = id;
  request_id = r.id;
  tenant_id = r.tenant_id;
  actor_user_id = actor_id;
  decision = r.status;
  rejection_reason = r.rejection_reason;
  created_at = now;
}

-- creator_request_audit.request_id is unique.
unfoldable pub audit_constraint : Uuid → Db → Option Error
audit_constraint request_id d =
    if exists (λ a. a.request_id == request_id) d.creator_request_audit
    then some (unique_violation "creator_request_audit_request_id_key")
    else none

unfoldable pub add_audit : CreatorRequestAudit → Db → Db
add_audit a d = record d { creator_request_audit = d.creator_request_audit ++ a ∷ [] }

abbrev pub decided : CreatorRequest → Uuid → Time → CreatorRequest
decided r actor_id now = record r {
  decided_by = some actor_id;
  decided_at = some now;
  updated_at = now;
}

unfoldable pub settle_request :
    (Text → ℕ) → CreatorRequest → Time → Bool → Text → Exec CreatorRequest
settle_request size r now true reason = do
  env ← ask (λ env n. env)
  user ← query (user_at env r.target_email)
  approve r now user
settle_request size r now false reason = reject size r reason

unfoldable pub decide : (Text → ℕ) → Uuid → Uuid → Bool → Text → Exec CreatorRequest
decide size request_id actor_id approval reason = transaction do
  admin ← query (is_platform_admin actor_id)
  guard admin creator_request_forbidden
  r ← query (request_by_id request_id)
  r ← required creator_request_not_found r
  guard (r.status == "pending") creator_request_decided
  tenant ← query (active_tenant r.tenant_id)
  tenant ← required creator_request_stale tenant
  now ← time_now
  r' ← settle_request size r now approval reason
  execute (save_request (decided r' actor_id now))
  id ← new_uuid
  insert (audit_constraint r'.id) (add_audit (audit_row id (decided r' actor_id now) actor_id now))
  pure (decided r' actor_id now)
