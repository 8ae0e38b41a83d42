-- ===== src/Examples/Access.antt =====
-- Runs of the permission check and of the operations on members.
use kelolakelas_identity_ser.Base.{
  ◌≡◌, ◌≢◌, refl, inl, ◌==◌, nat_eq, not, true, some, arith, rows, first, count, total_where,
  update, if◌then◌else◌,
}
use kelolakelas_identity_ser.Sql.{ok, err, db_error, ◌>>=◌, transaction}
use kelolakelas_identity_ser.Members.{
  Caller, live_member, find_member, is_own_membership, soft_delete_member, delete_member,
  update_role_tx,
}
use kelolakelas_identity_ser.Members.Isolation.{HasKeys, holds_creator}
use kelolakelas_identity_ser.Members.Safety.{
  update_role_creators, update_role_scope, delete_member_scope,
}
use kelolakelas_identity_ser.Members.Revoked.{delete_member_revokes}
use kelolakelas_identity_ser.Permissions.{
  complete, member_matches, role_in_scope, permission_rows, active_member_has_permission,
  caller_query, caller_has_permission,
}
use kelolakelas_identity_ser.Permissions.Grants.{
  Grant, caller_has_permission_sound, caller_has_permission-complete,
}
use kelolakelas_identity_ser.Examples.{
  calm, start, tables, membership, office, office_invites, invites,
}

abbrev caller : Caller
caller = record { role_id = 3; user_id = 1; member_id = 8 }

abbrev other : Caller
other = record { role_id = 2; user_id = 2; member_id = 9 }

allowed : (caller_has_permission (some caller) 7 3 "member:invite" calm start).0 ≡ ok true
unfolding caller_has_permission active_member_has_permission permission_rows member_matches
    role_in_scope complete caller_query ◌>>=◌ total_where count
allowed = refl

caller_has_permission_sound_example :
    (c : Caller) × (some caller ≡ some c)
    × Grant (caller_query c 7 3 "member:invite") tables
    × (complete (caller_query c 7 3 "member:invite") ≡ true)
    × (c.user_id ≢ 0)
    × ((caller_has_permission (some caller) 7 3 "member:invite" calm start).1.db ≡ tables)
caller_has_permission_sound_example =
    caller_has_permission_sound (some caller) 7 3 "member:invite" calm start allowed

table_keys : HasKeys tables
table_keys = record {
  members = (((λ e. omega arith), tt), (tt, tt));
  roles = (((λ e. omega arith), ((λ e. omega arith), tt)), (((λ e. omega arith), tt), (tt, tt)));
}

grant : Grant (caller_query caller 7 3 "member:invite") tables
unfolding caller_query
grant = record {
  member = membership 8 1 3;
  role = office;
  link = office_invites;
  permission = invites;
  member_stored = inl refl;
  role_stored = inl refl;
  link_stored = inl refl;
  permission_stored = inl refl;
  tenant = refl;
  carries = refl;
  active = refl;
  kept = refl;
  pinned_member = λ g. refl;
  pinned_user = λ g. refl;
  role_of_member = refl;
  role_scope = inl refl;
  link_role = refl;
  link_permission = refl;
  names = refl;
}

is_complete : complete (caller_query caller 7 3 "member:invite") ≡ true
unfolding complete caller_query
is_complete = refl

caller_has_permission-complete_example :
    (caller_has_permission (some caller) 7 3 "member:invite" calm start).0
    ≡ (if calm.fails 0 then err db_error else ok true)
caller_has_permission-complete_example =
    caller_has_permission-complete caller 7 3 "member:invite" calm start grant is_complete
      (λ e. omega arith)

removed : (delete_member 7 8 other calm start).0 ≡ ok tt
unfolding delete_member find_member live_member is_own_membership soft_delete_member transaction
    ◌>>=◌ first count update
removed = refl

delete_member_revokes_example :
    (caller_has_permission
      (some caller)
      7
      3
      "member:invite"
      calm
      (delete_member 7 8 other calm start).1).0
    ≢ ok true
delete_member_revokes_example =
    delete_member_revokes 7 8 3 "member:invite" other caller calm calm start refl (λ e. omega arith)
      removed

update_role_creators_example :
    rows (holds_creator tables) (update_role_tx 7 8 4 other calm start).1.db.tenant_members
    ≡ rows (holds_creator tables) tables.tenant_members
update_role_creators_example = update_role_creators 7 8 other calm start table_keys 4

update_role_scope_example :
    (rows (λ m. not (m.tenant_id == 7)) (update_role_tx 7 8 4 other calm start).1.db.tenant_members
      ≡ rows (λ m. not (m.tenant_id == 7)) tables.tenant_members)
    × (rows (λ m. m.user_id == 2) (update_role_tx 7 8 4 other calm start).1.db.tenant_members
        ≡ rows (λ m. m.user_id == 2) tables.tenant_members)
update_role_scope_example = update_role_scope 7 8 other calm start table_keys 4 (λ e. omega arith)

delete_member_scope_example :
    (rows (λ m. not (m.tenant_id == 7)) (delete_member 7 8 other calm start).1.db.tenant_members
      ≡ rows (λ m. not (m.tenant_id == 7)) tables.tenant_members)
    × (rows (λ m. m.user_id == 2) (delete_member 7 8 other calm start).1.db.tenant_members
        ≡ rows (λ m. m.user_id == 2) tables.tenant_members)
delete_member_scope_example = delete_member_scope 7 8 other calm start table_keys (λ e. omega arith)
