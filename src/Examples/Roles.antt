-- ===== src/Examples/Roles.antt =====
-- Deletions of a custom role that nobody has, and of one that a removed member had.
use kelolakelas_identity_ser.Base.{
  ◌≡◌, refl, nat_eq, some, [], ◌∷◌, first, exists, delete, count, total_where,
}
use kelolakelas_identity_ser.Schema.{Role, Permission}
use kelolakelas_identity_ser.Sql.{State, ok, ◌>>=◌, transaction}
use kelolakelas_identity_ser.Members.{Caller, find_role}
use kelolakelas_identity_ser.Permissions.{
  complete, member_matches, role_in_scope, permission_rows, active_member_has_permission,
  caller_query, caller_has_permission, require_permission,
}
use kelolakelas_identity_ser.Roles.{
  drop_links, drop_role, role_referenced, delete_role, members_by_role, delete_custom_role,
}
use kelolakelas_identity_ser.Roles.Deletion.{Deleted, delete_custom_role-Deleted}
use kelolakelas_identity_ser.Examples.{calm, tables, office, invites}

abbrev manager : Caller
manager = record { role_id = 3; user_id = 1; member_id = 8 }

abbrev spare : Role
spare = record office { id = 6; name = "Spare" }

abbrev deletes : Permission
deletes = record invites { name = "role:delete" }

abbrev unused : State
unused = record {
  db = record tables { roles = office ∷ spare ∷ []; permissions = deletes ∷ [] };
  step = 0;
}

dropped : (delete_custom_role (some manager) 7 3 6 calm unused).0 ≡ ok tt
unfolding delete_custom_role require_permission caller_has_permission active_member_has_permission
    permission_rows member_matches role_in_scope complete caller_query find_role members_by_role
    delete_role drop_links drop_role role_referenced first exists delete count total_where
    transaction ◌>>=◌
dropped = refl

delete_custom_role-Deleted_example :
    Deleted
      (some manager)
      7
      3
      6
      unused.db
      (delete_custom_role (some manager) 7 3 6 calm unused).1.db
delete_custom_role-Deleted_example =
    delete_custom_role-Deleted (some manager) 7 3 6 calm unused dropped
