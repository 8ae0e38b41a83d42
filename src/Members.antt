-- ===== src/Members.antt =====
-- internal/repository/member_repository.go: the memberships of a tenant, and the changes of them.
pub mod Isolation
pub mod Safety
pub mod Revoked
use kelolakelas_identity_ser.Base.{
  ℕ, String, ◌==◌, nat_eq, string_eq, Bool, true, false, ◌&&◌, ◌||◌, not, Option, none, some, List,
  [], ◌∷◌, if◌then◌else◌, Text, first, rows, update, exists, count, nat_beq, ltb,
}
use kelolakelas_identity_ser.Schema.{
  Uuid, Time, Db, User, Role, Permission, RolePermission, TenantMember,
}
use kelolakelas_identity_ser.Sql.{
  Exec, Error, pure, throw, guard, required, query, execute, affect, time_now, ◌>>=◌, ◌>>◌,
  transaction, record_not_found, member_not_found, member_self_removal, member_self_role_change,
  member_role_conflict, creator_grant_forbidden, member_role_forbidden, membership_inactive,
}

-- domain.Caller; 0 is uuid.Nil.
pub record Caller : Type 0 where
  pub role_id : Uuid
  pub user_id : Uuid
  pub member_id : Uuid

-- `column = ?` at a nullable column, and `column IS NULL`
abbrev pub is_id : Option ℕ → ℕ → Bool
is_id none i = false
is_id (some j) i = nat_beq j i

abbrev pub is_null {ℓ} : {A : Type ℓ} → Option A → Bool
is_null none = true
is_null (some a) = false

abbrev pub given : Uuid → Bool
given i = not (nat_beq i 0)

-- tx.Where("id = ? AND tenant_id = ?"), with gorm's soft-delete scope
unfoldable pub live_member : Uuid → Uuid → TenantMember → Bool
live_member tenant_id member_id m =
    m.id == member_id && m.tenant_id == tenant_id && is_null m.deleted_at

unfoldable pub find_member : Uuid → Uuid → Db → Option TenantMember
find_member tenant_id member_id d =
    first (λ m. m.id) (live_member tenant_id member_id) d.tenant_members

unfoldable pub find_role : Uuid → Db → Option Role
find_role id d = first (λ r. r.id) (λ r. r.id == id) d.roles

-- tx.Where("id = ? AND (tenant_id = ? OR tenant_id IS NULL)")
unfoldable pub find_tenant_role : Uuid → Uuid → Db → Option Role
find_tenant_role tenant_id id d =
    first (λ r. r.id) (λ r. r.id == id && (is_id r.tenant_id tenant_id || is_null r.tenant_id))
      d.roles

unfoldable pub is_system_creator_role : Role → Bool
is_system_creator_role r = is_null r.tenant_id && r.name == "Creator"

unfoldable pub is_own_membership : TenantMember → Caller → Bool
is_own_membership m actor =
    (given actor.member_id && m.id == actor.member_id)
    || (given actor.user_id && m.user_id == actor.user_id)

-- UPDATE tenant_members SET role_id, updated_at WHERE id = ? AND deleted_at IS NULL
unfoldable pub set_member_role : Time → Uuid → Uuid → Db → Db
set_member_role now member_id role_id d = record d {
  tenant_members =
      update (λ m. m.id == member_id && is_null m.deleted_at)
        (λ m. record m { role_id = role_id; updated_at = now }) d.tenant_members;
}

unfoldable pub update_role_tx : Uuid → Uuid → Uuid → Caller → Exec (Unit {0})
update_role_tx tenant_id member_id role_id actor = transaction do
  member ← query (find_member tenant_id member_id)
  member ← required member_not_found member
  guard (not (is_own_membership member actor)) member_self_role_change
  role ← query (find_tenant_role tenant_id role_id)
  role ← required member_role_conflict role
  guard (not (is_system_creator_role role)) creator_grant_forbidden
  current ← query (find_role member.role_id)
  current ← required record_not_found current
  guard (not (is_system_creator_role current)) member_role_forbidden
  now ← time_now
  execute (set_member_role now member.id role_id)

-- UPDATE tenant_members SET deleted_at WHERE id = ? AND tenant_id = ? AND deleted_at IS NULL
unfoldable pub soft_delete_member : Time → Uuid → Uuid → Db → Db
soft_delete_member now tenant_id member_id d = record d {
  tenant_members =
      update (live_member tenant_id member_id) (λ m. record m { deleted_at = some now })
        d.tenant_members;
}

unfoldable pub delete_member : Uuid → Uuid → Caller → Exec (Unit {0})
delete_member tenant_id member_id actor = transaction do
  member ← query (find_member tenant_id member_id)
  member ← required member_not_found member
  guard (not (is_own_membership member actor)) member_self_removal
  now ← time_now
  affected ←
      affect (λ d. count (live_member tenant_id member_id) d.tenant_members)
        (soft_delete_member now tenant_id member_id)
  guard (not (affected == 0)) member_not_found

-- The SELECT of GetByID, and the row that it scans.
pub record MemberResponse : Type 0 where
  pub id : Uuid
  pub user_id : Uuid
  pub tenant_id : Uuid
  pub email : Text
  pub first_name : String
  pub last_name : String
  pub phone : Option String
  pub status : String
  pub role_id : Uuid
  pub role_name : String
  pub is_system_role : Bool

unfoldable pub member_row : TenantMember → User → Role → MemberResponse
member_row m u r = record {
  id = m.id;
  user_id = m.user_id;
  tenant_id = m.tenant_id;
  email = u.email;
  first_name = u.first_name;
  last_name = u.last_name;
  phone = u.phone;
  status = if m.is_active then "active" else "inactive";
  role_id = r.id;
  role_name = r.name;
  is_system_role = is_null r.tenant_id;
}

-- JOIN users u ON u.id = tm.user_id JOIN roles ro ON ro.id = tm.role_id
join_member : TenantMember → Option User → Option Role → Option MemberResponse
unfolding member_row
join_member m (some u) (some r) = some (member_row m u r)
join_member m none r = none
join_member m (some u) none = none

unfoldable pub select_member : Uuid → Uuid → Db → Option MemberResponse
unfolding join_member
select_member tenant_id member_id d = elim (find_member tenant_id member_id d) [
  | none ↦ none
  | some m ↦
      join_member m (first (λ u. u.id) (λ u. u.id == m.user_id) d.users) (find_role m.role_id d)
]

unfoldable pub get_member : Uuid → Uuid → Exec MemberResponse
get_member tenant_id member_id = do
  row ← query (select_member tenant_id member_id)
  required member_not_found row

unfoldable pub update_role : Uuid → Uuid → Uuid → Caller → Exec MemberResponse
unfolding update_role_tx get_member
update_role tenant_id member_id role_id actor = do
  update_role_tx tenant_id member_id role_id actor
  get_member tenant_id member_id
