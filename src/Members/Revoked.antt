-- ===== src/Members/Revoked.antt =====
-- A token outlives the membership that it was issued for, and grants nothing then.
use kelolakelas_identity_ser.Base.{
  ◌≡◌, ◌≢◌, String, nat_eq, true, none, some, arith, first-none, Within-exists,
}
use kelolakelas_identity_ser.Schema.{Uuid, TenantMember}
use kelolakelas_identity_ser.Sql.{Env, State, ok}
use kelolakelas_identity_ser.Members.{Caller, live_member, find_member, delete_member}
use kelolakelas_identity_ser.Members.Safety.{delete_member_gone}
use kelolakelas_identity_ser.Permissions.{caller_query, caller_has_permission}
use kelolakelas_identity_ser.Permissions.Grants.{caller_has_permission-Grant}

granted-live :
    (tenant_id member_id : Uuid) (m : TenantMember)
    → m.id ≡ member_id
    → m.tenant_id ≡ tenant_id
    → m.deleted_at ≡ none
    → live_member tenant_id member_id m ≡ true
unfolding live_member
granted-live t i m a b c = ground arith

-- After a removal that reports success, no check of a permission in that tenant says yes to a
-- caller whose token was issued for the removed membership, for any role and permission.
pub delete_member_revokes :
    (tenant_id member_id role_id : Uuid) (permission : String) (actor caller : Caller)
    (env env' : Env) (s : State)
    → caller.member_id ≡ member_id
    → member_id ≢ 0
    → (delete_member tenant_id member_id actor env s).0 ≡ ok tt
    → (caller_has_permission
        (some caller)
        tenant_id
        role_id
        permission
        env'
        (delete_member tenant_id member_id actor env s).1).0
      ≢ ok true
unfolding caller_query find_member
delete_member_revokes t i role permission actor caller env env' s same named h granted =
    let grant =
      (caller_has_permission-Grant caller t role permission env' (delete_member t i actor env s).1
        granted).0 in
    let live =
      granted-live t i grant.member (ground (arith, grant.pinned_member)) grant.tenant grant.kept in
    cc (
      Within-exists (live_member t i) (delete_member t i actor env s).1.db.tenant_members
          grant.member grant.member_stored live,
      first-none (λ (m : TenantMember). m.id) (live_member t i)
          (delete_member t i actor env s).1.db.tenant_members
          (delete_member_gone t i actor env s h),
    )
