-- ===== src/MemberDirectory.antt =====
-- internal/usecase/member_usecase.go, List and ListTutors of internal/repository/member_repository.go,
-- internal/repository/membership_read.go and membership_active.go: who is a member.
pub mod Paging
pub mod Described
use kelolakelas_identity_ser.Base.{
  ℕ, ◌+◌, ◌-◌, ◌*◌, ◌/◌, ◌%◌, ◌^◌, zero, suc, String, ◌==◌, nat_eq, string_eq, text_eq, Bool, true,
  false, ◌&&◌, ◌||◌, not, Option, none, some, List, [], ◌∷◌, map, if◌then◌else◌, ltb, leb, Text,
  rows, from, exists, head, count, length, ℤ, pos, negsuc,
}
use kelolakelas_identity_ser.Schema.{Uuid, Db, User, Role, Permission, RolePermission, TenantMember}
use kelolakelas_identity_ser.Sql.{
  Env, Exec, pure, guard, branch, required, query, ask, ◌>>=◌, ◌>>◌, membership_inactive,
  member_permission, member_delete_permission, member_self_removal,
}
use kelolakelas_identity_ser.Members.{
  Caller, MemberResponse, member_row, is_null, given, get_member, update_role, delete_member,
}
use kelolakelas_identity_ser.Permissions.{
  MemberPermissionQuery, caller_query, member_matches, role_joins, caller_has_permission,
  require_permission,
}

-- What PostgreSQL does with texts: ILIKE '%search%', and ORDER BY under its collation.
pub record Dialect : Type 0 where
  pub like_text : Text → Text → Bool
  pub like_name : Text → String → Bool
  pub sort_members : String → Bool → List MemberResponse → List MemberResponse
  pub sort_users : List User → List User
  pub sort_names : List String → List String

-- domain.MemberQuery
pub record MemberQuery : Type 0 where
  pub page : ℤ
  pub page_size : ℤ
  pub search : Text
  pub status : String
  pub role_id : Option Uuid
  pub sort : String
  pub order : String

abbrev pub page_of : ℤ → ℕ
page_of (pos zero) = 1
page_of (pos (suc n)) = suc n
page_of (negsuc n) = 1

abbrev pub size_of : ℤ → ℕ
size_of (pos n) = if ltb n 1 || ltb 100 n then 20 else n
size_of (negsuc n) = 20

-- int(math.Ceil(float64(total) / float64(size))): exact for totals below 2 ^ 53
abbrev pub pages_of : ℕ → ℕ → ℕ
pages_of total size = (total + (size - 1)) / size

abbrev pub no_search : Text → Bool
no_search [] = true
no_search (c ∷ s) = false

abbrev searched : Dialect → Text → User → Bool
searched q search u =
    no_search search
    || q.like_text search u.email
    || q.like_name search u.first_name
    || q.like_name search u.last_name

abbrev status_matches : String → TenantMember → Bool
status_matches status tm =
    if status == "active"
    then tm.is_active
    else if status == "inactive"
    then not tm.is_active
    else true

abbrev role_matches : Option Uuid → TenantMember → Bool
role_matches none tm = true
role_matches (some id) tm = tm.role_id == id

unfoldable pub listed : Uuid → MemberQuery → TenantMember → Bool
listed tenant_id q tm =
    tm.tenant_id == tenant_id
    && is_null tm.deleted_at
    && status_matches q.status tm
    && role_matches q.role_id tm

-- tenant_members tm JOIN users u JOIN roles ro, with the WHERE clauses
unfoldable pub member_listing : Dialect → Uuid → MemberQuery → Db → List MemberResponse
member_listing l tenant_id q d =
    from
      (λ tm.
        from (λ u. map (λ ro. member_row tm u ro) (rows (λ ro. ro.id == tm.role_id) d.roles))
          (rows (λ u. u.id == tm.user_id && searched l q.search u) d.users))
      (rows (listed tenant_id q) d.tenant_members)

-- OFFSET and LIMIT
abbrev pub skip {ℓ} : {A : Type ℓ} → ℕ → List A → List A
skip zero xs = xs
skip (suc n) [] = []
skip (suc n) (x ∷ xs) = skip n xs

abbrev pub keep {ℓ} : {A : Type ℓ} → ℕ → List A → List A
keep zero xs = []
keep (suc n) [] = []
keep (suc n) (x ∷ xs) = x ∷ keep n xs

abbrev pub order_column : String → String
order_column sort =
    if sort == "updated_at"
    then "tm.updated_at"
    else if sort == "email"
    then "u.email"
    else if sort == "name"
    then "u.last_name"
    else "tm.joined_at"

-- (query.Page - 1) * query.PageSize as an int64, which wraps around; gorm writes an OFFSET only if it
-- is positive.
abbrev pub wrapped_offset : ℕ → ℕ
wrapped_offset n = if ltb n (2 ^ 63) then n else 0

unfoldable pub offset_of : ℕ → ℕ → ℕ
offset_of page size = wrapped_offset ((page - 1) * size % 2 ^ 64)

-- One page of a listing. The permissions of the roles, a third statement, are left out.
abbrev pub page_rows {ℓ} : {A : Type ℓ} → ℕ → ℕ → List A → List A
page_rows page size xs = keep size (skip (offset_of page size) xs)

unfoldable pub list_repository :
    Dialect → Uuid → MemberQuery → ℕ → ℕ → Exec (List MemberResponse × ℕ)
list_repository l tenant_id q page size = do
  total ← query (λ d. length (member_listing l tenant_id q d))
  items ← query (λ d.
      page_rows page size
        (l.sort_members (order_column q.sort) (q.order == "desc") (member_listing l tenant_id q d)))
  pure (items, total)

-- domain.MemberListResponse and domain.TutorListResponse
pub record Listing {ℓ} (A : Type ℓ) : Type ℓ where
  pub items : List A
  pub page : ℕ
  pub page_size : ℕ
  pub total_items : ℕ
  pub total_pages : ℕ

abbrev pub caller_role : Option Caller → Uuid
caller_role none = 0
caller_role (some c) = c.role_id

unfoldable pub list_members :
    Dialect → Option Caller → Uuid → MemberQuery → Exec (Listing MemberResponse)
list_members l caller tenant_id q = do
  u ← require_permission caller tenant_id (caller_role caller) "member:read"
  (items, total) ← list_repository l tenant_id q (page_of q.page) (size_of q.page_size)
  pure record {
    items = items;
    page = page_of q.page;
    page_size = size_of q.page_size;
    total_items = total;
    total_pages = pages_of total (size_of q.page_size);
  }

unfoldable pub get_by_id : Option Caller → Uuid → Uuid → Exec MemberResponse
get_by_id caller tenant_id member_id = do
  u ← require_permission caller tenant_id (caller_role caller) "member:read"
  get_member tenant_id member_id

-- `caller, _ := domain.CallerFromContext(ctx)`
abbrev caller_or_nil : Option Caller → Caller
caller_or_nil none = record { role_id = 0; user_id = 0; member_id = 0 }
caller_or_nil (some c) = c

unfoldable pub change_role : Option Caller → Uuid → Uuid → Uuid → Uuid → Exec MemberResponse
change_role caller tenant_id caller_role_id member_id role_id = do
  allowed ← caller_has_permission caller tenant_id caller_role_id "member:update"
  guard allowed member_permission
  update_role tenant_id member_id role_id (caller_or_nil caller)

unfoldable pub remove_member : Option Caller → Uuid → Uuid → Uuid → Exec (Unit {0})
remove_member caller tenant_id caller_role_id member_id = do
  allowed ← caller_has_permission caller tenant_id caller_role_id "member:delete"
  guard allowed member_delete_permission
  guard
      (not
        (given (caller_or_nil caller).member_id && (caller_or_nil caller).member_id == member_id))
      member_self_removal
  delete_member tenant_id member_id (caller_or_nil caller)

-- LOWER(ro.name) IN ('teacher', 'tutor', 'pengajar')
abbrev is_tutor_role : Env → Role → Bool
is_tutor_role env ro =
    env.sql_lower_name ro.name == "teacher"
    || env.sql_lower_name ro.name == "tutor"
    || env.sql_lower_name ro.name == "pengajar"

-- domain.TutorQuery
pub record TutorQuery : Type 0 where
  pub page : ℤ
  pub page_size : ℤ
  pub search : Text
  pub status : String

unfoldable pub tutor_rows : Env → Dialect → Uuid → TutorQuery → Db → List User
tutor_rows env l tenant_id q d =
    from
      (λ tm.
        from (λ u. map (λ ro. u) (rows (λ ro. ro.id == tm.role_id && is_tutor_role env ro) d.roles))
          (rows (λ u. u.id == tm.user_id && searched l q.search u) d.users))
      (rows
        (λ tm.
          tm.tenant_id == tenant_id
          && tm.is_active
          && is_null tm.deleted_at
          && not (q.status == "inactive"))
        d.tenant_members)

unfoldable pub list_tutors : Dialect → Uuid → TutorQuery → Exec (Listing User)
list_tutors l tenant_id q = do
  env ← ask (λ env n. env)
  total ← query (λ d. length (tutor_rows env l tenant_id q d))
  items ← query (λ d.
      page_rows (page_of q.page) (size_of q.page_size)
        (l.sort_users (tutor_rows env l tenant_id q d)))
  pure record {
    items = items;
    page = page_of q.page;
    page_size = size_of q.page_size;
    total_items = total;
    total_pages = pages_of total (size_of q.page_size);
  }

unfoldable pub is_active_tenant_member : Uuid → Uuid → Exec Bool
is_active_tenant_member tenant_id member_id = do
  n ← query (λ d.
      count
        (λ tm.
          tm.id == member_id && tm.tenant_id == tenant_id && tm.is_active && is_null tm.deleted_at)
        d.tenant_members)
  pure (ltb 0 n)

-- domain.ActiveMembership and domain.MyMembershipResponse
pub record Membership : Type 0 where
  pub member_id : Uuid
  pub role_id : Uuid
  pub role_name : String
  pub permission_names : List String

-- The first row of tm JOIN ro. The query pins what a permission check pins; it names no permission.
unfoldable pub membership_row : MemberPermissionQuery → Db → Option (TenantMember × Role)
membership_row q d = head (
    from (λ tm. map (λ ro. (tm, ro)) (rows (λ ro. role_joins q tm ro) d.roles))
      (rows (member_matches q) d.tenant_members))

-- role_permissions rp JOIN permissions p
unfoldable pub names_of : Uuid → Db → List String
names_of role_id d =
    from (λ rp. map (λ p. p.name) (rows (λ p. p.id == rp.permission_id) d.permissions))
      (rows (λ rp. rp.role_id == role_id) d.role_permissions)

unfoldable pub find_active_membership : Dialect → MemberPermissionQuery → Exec Membership
find_active_membership l q = do
  row ← query (membership_row q)
  (tm, ro) ← required membership_inactive row
  guard (given tm.id) membership_inactive
  names ← query (λ d. l.sort_names (names_of tm.role_id d))
  pure record {
    member_id = tm.id;
    role_id = tm.role_id;
    role_name = ro.name;
    permission_names = names;
  }

unfoldable pub fetch_my_membership : Dialect → Option Caller → Uuid → Uuid → Exec Membership
fetch_my_membership l caller tenant_id role_id = do
  caller ← required membership_inactive caller
  guard (given caller.user_id && given role_id) membership_inactive
  find_active_membership l (caller_query caller tenant_id role_id "")
