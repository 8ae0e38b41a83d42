-- ===== src/Roles/Deletion.antt =====
-- What a deletion of a role needs, and what it leaves.
use kelolakelas_identity_ser.Base.{
  ◌≡◌, ◌==◌, nat_eq, false, Option, some, arith, exists, exists-delete_self,
}
use kelolakelas_identity_ser.Schema.{Uuid, Db, Role}
use kelolakelas_identity_ser.Sql.{Env, State, ok}
use kelolakelas_identity_ser.Sql.Rules.{
  Ensures-bind, Ensures-insert, Ensures-transaction, Ensures-ok, Ensures-weaken, bind_query,
  bind_required, bind_guard, bind_execute,
}
use kelolakelas_identity_ser.Members.{Caller, find_role}
use kelolakelas_identity_ser.Permissions.Required.{Permitted, require_permission-Permitted}
use kelolakelas_identity_ser.Roles.{
  drop_links, drop_role, delete_role, members_by_role, delete_custom_role,
}

-- The role was a custom one of the tenant, which no active member carried; afterwards neither it
-- nor a link of its is stored.
pub record Deleted (caller : Option Caller) (tenant_id caller_role_id role_id : Uuid)
    (before after : Db) : Type 0 where
  pub permitted : Permitted caller tenant_id caller_role_id "role:delete" before
  pub role : Role
  pub found : find_role role_id before ≡ some role
  pub own : role.tenant_id ≡ some tenant_id
  pub unused : members_by_role role_id before ≡ 0
  pub gone : exists (λ r. r.id == role_id) after.roles ≡ false
  pub unlinked : exists (λ l. l.role_id == role_id) after.role_permissions ≡ false

-- A role is deleted only for a caller with the permission role:delete in the tenant, only a custom
-- role of that tenant, and only if no active member carries it; afterwards neither the role nor any
-- of its permissions is stored.
pub delete_custom_role-Deleted :
    (caller : Option Caller) (tenant_id caller_role_id role_id : Uuid) (env : Env) (s : State)
    → (delete_custom_role caller tenant_id caller_role_id role_id env s).0 ≡ ok tt
    → Deleted caller tenant_id caller_role_id role_id s.db
        (delete_custom_role caller tenant_id caller_role_id role_id env s).1.db
unfolding delete_custom_role delete_role drop_links drop_role
delete_custom_role-Deleted caller tenant_id caller_role_id role_id env s h =
    Ensures-ok env s (delete_custom_role caller tenant_id caller_role_id role_id)
      (λ _ s'. Deleted caller tenant_id caller_role_id role_id s.db s'.db) tt h
      (Ensures-bind _ _ (
        Ensures-weaken env s _ _ _
          (require_permission-Permitted env s caller tenant_id caller_role_id "role:delete")
          λ _ s1 allowed. bind_query _ _ (
            bind_required _ _ _ λ role found. bind_guard _ _ _ λ custom. bind_guard _ _ _ λ own.
              bind_query _ _ (
                bind_guard _ _ _ λ unused. Ensures-transaction _ (
                  bind_execute _ _ (
                    Ensures-insert _ _ λ free. record {
                      permitted = allowed.1;
                      role = role;
                      found = rw (← allowed.0) found;
                      own = ground arith;
                      unused = rw (← allowed.0) (ground arith);
                      gone = exists-delete_self _ s1.db.roles;
                      unlinked = exists-delete_self _ s1.db.role_permissions;
                    }))))))
