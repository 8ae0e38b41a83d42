-- ===== src/Roles.antt =====
-- internal/repository/rbac_repository.go and internal/usecase/role_usecase.go: the custom roles of a
-- tenant.
pub mod Deletion
use kelolakelas_identity_ser.Base.{
  ℕ, String, ◌==◌, nat_eq, string_eq, Bool, true, false, ◌&&◌, ◌||◌, not, Option, none, some, List,
  [], ◌∷◌, ◌++◌, if◌then◌else◌, first, exists, update, delete, rows, count,
}
use kelolakelas_identity_ser.Schema.{Uuid, Db, Role, RolePermission, TenantMember}
use kelolakelas_identity_ser.Sql.{
  Error, Exec, pure, guard, branch, required, query, insert, execute, new_uuid, ◌>>=◌, ◌>>◌,
  transaction, role_not_found, role_name_exists, system_role_cannot_be_modified,
  forbidden_role_access, role_assigned_to_active_members, unique_violation, foreign_key_violation,
}
use kelolakelas_identity_ser.Members.{Caller, is_id, is_null, find_role}
use kelolakelas_identity_ser.Permissions.{require_permission}

-- Where("name = ? AND tenant_id = ?")
unfoldable pub role_named : String → Uuid → Db → Option Role
role_named name tenant_id d =
    first (λ r. r.id) (λ r. r.name == name && is_id r.tenant_id tenant_id) d.roles

-- uq_roles_tenant_name
unfoldable pub role_constraint : String → Uuid → Db → Option Error
role_constraint name tenant_id d =
    if exists (λ r. r.name == name && is_id r.tenant_id tenant_id) d.roles
    then some (unique_violation "uq_roles_tenant_name")
    else none

unfoldable pub store_role : Role → Db → Db
store_role r d = record d { roles = d.roles ++ r ∷ [] }

abbrev is_link : Uuid → Uuid → RolePermission → Bool
is_link role_id permission_id l = l.role_id == role_id && l.permission_id == permission_id

-- The primary key and the foreign key of role_permissions
unfoldable pub link_constraint : Uuid → Uuid → Db → Option Error
link_constraint role_id permission_id d =
    if exists (is_link role_id permission_id) d.role_permissions
    then some (unique_violation "role_permissions_pkey")
    else if exists (λ p. p.id == permission_id) d.permissions
    then none
    else some (foreign_key_violation "role_permissions_permission_id_fkey")

unfoldable pub add_link : Uuid → Uuid → Db → Db
add_link role_id permission_id d = record d {
  role_permissions =
      d.role_permissions ++ record { role_id = role_id; permission_id = permission_id } ∷ [];
}

unfoldable pub add_links : Uuid → List Uuid → Exec (Unit {0})
add_links role_id [] = pure tt
add_links role_id (p ∷ ps) =
    insert (link_constraint role_id p) (add_link role_id p) >> add_links role_id ps

unfoldable pub create_role_tx : Uuid → Role → List Uuid → Exec (Unit {0})
create_role_tx tenant_id role permission_ids = transaction do
  insert (role_constraint role.name tenant_id) (store_role role)
  add_links role.id permission_ids

abbrev custom_role : Uuid → Uuid → String → String → Role
custom_role id tenant_id name description = record {
  id = id;
  tenant_id = some tenant_id;
  name = name;
  description = description;
}

-- CreateCustomRole; the role that is read back stands for the response.
unfoldable pub create_custom_role :
    Option Caller → Uuid → Uuid → String → String → List Uuid → Exec Role
create_custom_role caller tenant_id caller_role_id name description permission_ids = do
  require_permission caller tenant_id caller_role_id "role:create"
  existing ← query (role_named name tenant_id)
  guard (is_null existing) role_name_exists
  id ← new_uuid
  create_role_tx tenant_id (custom_role id tenant_id name description) permission_ids
  created ← query (find_role id)
  required role_not_found created

unfoldable pub drop_links : Uuid → Db → Db
drop_links role_id d = record d {
  role_permissions = delete (λ l. l.role_id == role_id) d.role_permissions;
}

unfoldable pub drop_role : Uuid → Db → Db
drop_role role_id d = record d { roles = delete (λ r. r.id == role_id) d.roles }

-- uq_roles_tenant_name, for a role that takes a new name
unfoldable pub rename_constraint : Uuid → Uuid → String → Db → Option Error
rename_constraint tenant_id role_id name d =
    if exists (λ r. r.name == name && is_id r.tenant_id tenant_id && not (r.id == role_id)) d.roles
    then some (unique_violation "uq_roles_tenant_name")
    else none

unfoldable pub rename_role : Uuid → String → String → Db → Db
rename_role role_id name description d = record d {
  roles =
      update (λ r. r.id == role_id) (λ r. record r { name = name; description = description })
        d.roles;
}

-- UpdateRoleTx
unfoldable pub replace_role : Uuid → Uuid → String → String → List Uuid → Exec (Unit {0})
replace_role tenant_id role_id name description permission_ids = transaction do
  insert (rename_constraint tenant_id role_id name) (rename_role role_id name description)
  execute (drop_links role_id)
  add_links role_id permission_ids

-- A new name must be free in the tenant.
unfoldable pub name_free : Uuid → Role → String → Exec (Unit {0})
name_free tenant_id role name =
    branch (role.name == name) (pure tt)
      do existing ← query (role_named name tenant_id); guard (is_null existing) role_name_exists

-- UpdateCustomRole
unfoldable pub update_custom_role :
    Option Caller → Uuid → Uuid → Uuid → String → String → List Uuid → Exec Role
update_custom_role caller tenant_id caller_role_id role_id name description permission_ids = do
  require_permission caller tenant_id caller_role_id "role:update"
  role ← query (find_role role_id)
  role ← required role_not_found role
  guard (not (is_null role.tenant_id)) system_role_cannot_be_modified
  guard (is_id role.tenant_id tenant_id) forbidden_role_access
  name_free tenant_id role name
  replace_role tenant_id role_id name description permission_ids
  updated ← query (find_role role_id)
  required role_not_found updated

-- The rows that still name the role, whatever their state
unfoldable pub role_referenced : Uuid → Db → Option Error
role_referenced role_id d =
    if exists (λ m. m.role_id == role_id) d.tenant_members
    then some (foreign_key_violation "fk_tenant_members_role")
    else if exists (λ i. i.role_id == role_id) d.tenant_invitations
    then some (foreign_key_violation "tenant_invitations_role_id_fkey")
    else none

unfoldable pub delete_role : Uuid → Exec (Unit {0})
delete_role role_id =
    transaction
      do execute (drop_links role_id); insert (role_referenced role_id) (drop_role role_id)

-- CountMembersByRole, with gorm's soft-delete scope
unfoldable pub members_by_role : Uuid → Db → ℕ
members_by_role role_id d =
    count (λ m. m.role_id == role_id && m.is_active && is_null m.deleted_at) d.tenant_members

-- DeleteCustomRole
unfoldable pub delete_custom_role : Option Caller → Uuid → Uuid → Uuid → Exec (Unit {0})
delete_custom_role caller tenant_id caller_role_id role_id = do
  require_permission caller tenant_id caller_role_id "role:delete"
  role ← query (find_role role_id)
  role ← required role_not_found role
  guard (not (is_null role.tenant_id)) system_role_cannot_be_modified
  guard (is_id role.tenant_id tenant_id) forbidden_role_access
  n ← query (members_by_role role_id)
  guard (n == 0) role_assigned_to_active_members
  delete_role role_id
