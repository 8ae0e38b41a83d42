-- ===== src/Permissions/Grants.antt =====
-- What a granted permission rests on.
use kelolakelas_identity_ser.Base.{
  ◌<◌, ◌≡◌, ◌≢◌, ◌⊎◌, String, nat_eq, string_eq, true, Option, none, some, refl, arith, Within,
  total_where-positive, positive-total_where, count-Within, Within-count, if◌then◌else◌, eq_iff,
}
use kelolakelas_identity_ser.Schema.{Uuid, Db, Role, Permission, RolePermission, TenantMember}
use kelolakelas_identity_ser.Sql.{Env, State, ok, err, db_error, ◌>>=◌}
use kelolakelas_identity_ser.Members.{Caller}
use kelolakelas_identity_ser.Permissions.{
  MemberPermissionQuery, complete, member_matches, role_in_scope, permission_rows, role_joins,
  link_joins, permission_joins, link_rows, role_rows, member_rows, active_member_has_permission,
  caller_query, caller_has_permission,
}

-- The rows that grant a permission: an active membership of the tenant that carries the role, is
-- the one that the query pins, and a role of that tenant, or of none, that lists the permission.
pub record Grant (q : MemberPermissionQuery) (d : Db) : Type 0 where
  pub member : TenantMember
  pub role : Role
  pub link : RolePermission
  pub permission : Permission
  pub member_stored : Within member d.tenant_members
  pub role_stored : Within role d.roles
  pub link_stored : Within link d.role_permissions
  pub permission_stored : Within permission d.permissions
  pub tenant : member.tenant_id ≡ q.tenant_id
  pub carries : member.role_id ≡ q.role_id
  pub active : member.is_active ≡ true
  pub kept : member.deleted_at ≡ none
  pub pinned_member : q.member_id ≢ 0 → member.id ≡ q.member_id
  pub pinned_user : q.user_id ≢ 0 → member.user_id ≡ q.user_id
  pub role_of_member : role.id ≡ member.role_id
  pub role_scope : (role.tenant_id ≡ some q.tenant_id) ⊎ (role.tenant_id ≡ none)
  pub link_role : link.role_id ≡ role.id
  pub link_permission : permission.id ≡ link.permission_id
  pub names : permission.name ≡ q.permission

module _ (q : MemberPermissionQuery) (d : Db) where
  pub permission_rows-Grant : 0 < permission_rows q d → Grant q d
  unfolding permission_rows member_matches role_in_scope
  permission_rows-Grant h =
      let (m, hm, em, nm) =
        total_where-positive (member_matches q) (member_rows q d) d.tenant_members h in
      let (r, hr, er, nr) = total_where-positive (role_joins q m) (role_rows q d) d.roles nm in
      let (l, hl, el, nl) =
        total_where-positive (link_joins r) (link_rows q d) d.role_permissions nr in
      let (p, hp, ep) = count-Within (permission_joins q l) d.permissions nl in
      record {
        member = m;
        role = r;
        link = l;
        permission = p;
        member_stored = hm;
        role_stored = hr;
        link_stored = hl;
        permission_stored = hp;
        tenant = ground arith;
        carries = ground arith;
        active = ground arith;
        kept = ground arith;
        pinned_member = λ g. ground arith;
        pinned_user = λ g. ground arith;
        role_of_member = ground arith;
        role_scope = ground arith;
        link_role = ground arith;
        link_permission = ground arith;
        names = ground (arith, eq_iff p.name q.permission);
      }

  pub Grant-permission_rows : Grant q d → 0 < permission_rows q d
  unfolding permission_rows member_matches role_in_scope
  Grant-permission_rows g =
      positive-total_where (member_matches q) (member_rows q d) d.tenant_members g.member
        g.member_stored (ground arith)
        (positive-total_where (role_joins q g.member) (role_rows q d) d.roles g.role g.role_stored
          (ground arith)
          (positive-total_where (link_joins g.role) (link_rows q d) d.role_permissions g.link
            g.link_stored (ground arith)
            (Within-count (permission_joins q g.link) d.permissions g.permission g.permission_stored
              (ground (arith, eq_iff g.permission.name q.permission)))))

module _ (caller : Caller) (tenant_id role_id : Uuid) (permission : String) (env : Env)
    (s : State) where
  pub caller_has_permission-Grant :
      (caller_has_permission (some caller) tenant_id role_id permission env s).0 ≡ ok true
      → Grant (caller_query caller tenant_id role_id permission) s.db
        × (complete (caller_query caller tenant_id role_id permission) ≡ true)
        × (caller.user_id ≢ 0)
        × ((caller_has_permission (some caller) tenant_id role_id permission env s).1.db ≡ s.db)
  unfolding caller_has_permission active_member_has_permission ◌>>=◌
  caller_has_permission-Grant h =
      (permission_rows-Grant _ _ (ground arith), ground arith, ground arith, ground arith)

  -- Where such rows are stored and the query is complete, the check answers yes, unless its
  -- statement fails: then it reports the failure, and never a yes or a no.
  pub caller_has_permission-complete :
      Grant (caller_query caller tenant_id role_id permission) s.db
      → complete (caller_query caller tenant_id role_id permission) ≡ true
      → caller.user_id ≢ 0
      → (caller_has_permission (some caller) tenant_id role_id permission env s).0
        ≡ (if env.fails s.step then err db_error else ok true)
  unfolding caller_has_permission active_member_has_permission ◌>>=◌
  caller_has_permission-complete g c u =
      ground
        (arith, Grant-permission_rows (caller_query caller tenant_id role_id permission) s.db g)

-- A permission check that answers yes is about a caller that is known, and rests on stored rows that
-- grant the permission in this tenant to this caller's membership and role; the tenant, the role,
-- the caller's user and the permission are all named, and the check writes nothing.
pub caller_has_permission_sound :
    (o : Option Caller) (tenant_id role_id : Uuid) (permission : String) (env : Env) (s : State)
    → (caller_has_permission o tenant_id role_id permission env s).0 ≡ ok true
    → (caller : Caller) × (o ≡ some caller)
      × Grant (caller_query caller tenant_id role_id permission) s.db
      × (complete (caller_query caller tenant_id role_id permission) ≡ true)
      × (caller.user_id ≢ 0)
      × ((caller_has_permission o tenant_id role_id permission env s).1.db ≡ s.db)
unfolding caller_has_permission ◌>>=◌
caller_has_permission_sound none tenant_id role_id permission env s h = absurd (cc)
caller_has_permission_sound (some caller) tenant_id role_id permission env s h =
    let g = caller_has_permission-Grant caller tenant_id role_id permission env s h in
    (caller, refl, g.0, g.1, g.2, g.3)
