-- ===== src/Permissions.antt =====
-- internal/repository/member_permission.go, internal/usecase/permission.go and the query of
-- internal/domain/caller.go: the one permission decision.

pub mod Grants
pub mod Required
use kelolakelas_identity_ser.Base.{
  ℕ, String, ◌==◌, nat_eq, string_eq, Bool, true, false, ◌&&◌, ◌||◌, not, Option, none, some, List,
  if◌then◌else◌, count, total_where, ltb, is_some,
}
use kelolakelas_identity_ser.Schema.{Uuid, Db, Role, Permission, RolePermission, TenantMember}
use kelolakelas_identity_ser.Sql.{
  Exec, Error, pure, branch, guard, required, query, ◌>>=◌, ◌>>◌, permission_denied,
  membership_inactive,
}
use kelolakelas_identity_ser.Members.{Caller, is_id, is_null, given}

-- domain.MemberPermissionQuery
pub record MemberPermissionQuery : Type 0 where
  pub tenant_id : Uuid
  pub role_id : Uuid
  pub member_id : Uuid
  pub user_id : Uuid
  pub permission : String

unfoldable pub complete : MemberPermissionQuery → Bool
complete q =
    given q.tenant_id
    && given q.role_id
    && not (q.permission == "")
    && (given q.member_id || given q.user_id)

-- `if id != uuid.Nil { query.Where("column = ?", id) }`
abbrev pinned : Uuid → Uuid → Bool
pinned wanted column = not (given wanted) || column == wanted

-- The WHERE clauses on tenant_members tm
unfoldable pub member_matches : MemberPermissionQuery → TenantMember → Bool
member_matches q tm =
    tm.tenant_id == q.tenant_id
    && tm.role_id == q.role_id
    && tm.is_active
    && is_null tm.deleted_at
    && pinned q.member_id tm.id
    && pinned q.user_id tm.user_id

-- The WHERE clause on roles ro
unfoldable pub role_in_scope : Uuid → Role → Bool
role_in_scope tenant_id ro = is_id ro.tenant_id tenant_id || is_null ro.tenant_id

-- The ON clauses of the joins, each with the WHERE clauses on its table.
abbrev pub role_joins : MemberPermissionQuery → TenantMember → Role → Bool
role_joins q tm ro = ro.id == tm.role_id && role_in_scope q.tenant_id ro

abbrev pub link_joins : Role → RolePermission → Bool
link_joins ro rp = rp.role_id == ro.id

abbrev pub permission_joins : MemberPermissionQuery → RolePermission → Permission → Bool
permission_joins q rp p = p.id == rp.permission_id && p.name == q.permission

-- count(*) over tm JOIN ro JOIN rp JOIN p
abbrev pub link_rows : MemberPermissionQuery → Db → RolePermission → ℕ
link_rows q d rp = count (permission_joins q rp) d.permissions

abbrev pub role_rows : MemberPermissionQuery → Db → Role → ℕ
role_rows q d ro = total_where (link_joins ro) (link_rows q d) d.role_permissions

abbrev pub member_rows : MemberPermissionQuery → Db → TenantMember → ℕ
member_rows q d tm = total_where (role_joins q tm) (role_rows q d) d.roles

unfoldable pub permission_rows : MemberPermissionQuery → Db → ℕ
permission_rows q d = total_where (member_matches q) (member_rows q d) d.tenant_members

unfoldable pub active_member_has_permission : MemberPermissionQuery → Exec Bool
active_member_has_permission q =
    branch (not (complete q)) (pure false) (do n ← query (permission_rows q); pure (ltb 0 n))

-- The query that a verified caller's request asks; `none` is a context without a caller.
unfoldable pub caller_query : Caller → Uuid → Uuid → String → MemberPermissionQuery
caller_query caller tenant_id role_id permission = record {
  tenant_id = tenant_id;
  role_id = role_id;
  member_id = caller.member_id;
  user_id = caller.user_id;
  permission = permission;
}

unfoldable pub caller_has_permission : Option Caller → Uuid → Uuid → String → Exec Bool
unfolding caller_query
caller_has_permission none tenant_id role_id permission = pure false
caller_has_permission (some caller) tenant_id role_id permission =
    branch (not (given caller.user_id)) (pure false) (
      branch (not (complete (caller_query caller tenant_id role_id permission))) (pure false)
        (active_member_has_permission (caller_query caller tenant_id role_id permission)))

unfoldable pub require_permission : Option Caller → Uuid → Uuid → String → Exec (Unit {0})
require_permission caller tenant_id role_id permission = do
  allowed ← caller_has_permission caller tenant_id role_id permission
  guard allowed permission_denied
