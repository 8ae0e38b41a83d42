-- ===== src/Services.antt =====
-- internal/delivery/grpc: the guards of the services for other processes, over structpb requests.
pub mod Listed
pub mod Guards
pub mod Status
pub mod Decision
use kelolakelas_identity_ser.Base.{
  ℕ, ◌==◌, ◌^◌, nat_eq, string_eq, Bool, true, false, ◌&&◌, ◌||◌, not, Option, none, some, List, [],
  ◌∷◌, String, if◌then◌else◌, ltb, count, total_where, ℤ, pos,
}
use kelolakelas_identity_ser.Schema.{Uuid, Db, Role, RolePermission}
use kelolakelas_identity_ser.Sql.{
  Error, Result, ok, err, State, Exec, pure, throw, guard, branch, required, query, on_error, ◌>>=◌,
  ◌>>◌, invalid_argument, missing_field, internal_error, service_unavailable, failed_precondition,
  platform_forbidden,
}
use kelolakelas_identity_ser.Members.{given}
use kelolakelas_identity_ser.Permissions.{
  MemberPermissionQuery, role_in_scope, active_member_has_permission,
}
use kelolakelas_identity_ser.MemberDirectory.{is_active_tenant_member}
use kelolakelas_identity_ser.Factor.{Crypto}
use kelolakelas_identity_ser.PlatformAuth.{check_version}
use kelolakelas_identity_ser.ControlPlane.Values.{Parsers}
use kelolakelas_identity_ser.Policies.{
  FeeState, CatalogState, platform_fee_state, public_catalog_state,
}

-- A float64: an integer, or a fraction, an infinity or NaN.
pub data Number : Type 0 where
  integral : ℤ → Number
  fractional : Number

-- structpb.Value by its kind, which may be unset.
pub data Value : Type 0 where
  no_kind null_value composite_value : Value
  bool_value : Bool → Value
  number_value : Number → Value
  string_value : String → Value

-- structpb.Struct: its fields. A nil request has none, and a nil value is a field that is missing.
abbrev pub Struct : Type 0
Struct = List (String × Value)

-- uuid.Parse, where `none` is an error, and the variable RequirePermissionTenantID.
pub record Gateway : Type 0 where
  pub parse_uuid : String → Option Uuid
  pub require_tenant_id : Bool

abbrev pub field : String → Struct → Option Value
field key [] = none
field key ((name, value) ∷ fields) = if name == key then some value else field key fields

-- GetStringValue and GetNumberValue
abbrev pub string_of : Option Value → String
string_of (some (string_value text)) = text
string_of none = ""
string_of (some no_kind) = ""
string_of (some null_value) = ""
string_of (some composite_value) = ""
string_of (some (bool_value b)) = ""
string_of (some (number_value n)) = ""

-- structString; `none` is its error, "<key> is required".
unfoldable pub struct_string : String → Struct → Option String
struct_string key req =
    if string_of (field key req) == "" then none else some (string_of (field key req))

abbrev member_id_error : Error
member_id_error = invalid_argument "member_id must be a UUID"

unfoldable pub optional_member_id : Gateway → Option Value → Exec (Option Uuid)
optional_member_id g none = pure none
optional_member_id g (some null_value) = pure none
optional_member_id g (some no_kind) = throw member_id_error
optional_member_id g (some composite_value) = throw member_id_error
optional_member_id g (some (bool_value b)) = throw member_id_error
optional_member_id g (some (number_value n)) = throw member_id_error
optional_member_id g (some (string_value text)) = branch (text == "") (pure none) do
  id ← required member_id_error (g.parse_uuid text)
  guard (given id) member_id_error
  pure (some id)

-- The WHERE clauses of checkPermission on roles r; without a tenant, a role of any tenant.
unfoldable pub role_matches : Option Uuid → Uuid → Role → Bool
role_matches none role_id r = r.id == role_id
role_matches (some tenant_id) role_id r = r.id == role_id && role_in_scope tenant_id r

-- count(*) over r JOIN rp JOIN p
abbrev pub named_rows : String → Db → RolePermission → ℕ
named_rows permission d rp =
    count (λ p. p.id == rp.permission_id && p.name == permission) d.permissions

abbrev pub listed_rows : String → Db → Role → ℕ
listed_rows permission d r =
    total_where (λ rp. rp.role_id == r.id) (named_rows permission d) d.role_permissions

unfoldable pub granting_rows : Option Uuid → Uuid → String → Db → ℕ
granting_rows tenant role_id permission d =
    total_where (role_matches tenant role_id) (listed_rows permission d) d.roles

abbrev pub check_failed : Error → Error
check_failed e = internal_error "check permission"

-- checkPermission
unfoldable pub role_permission : Option Uuid → Uuid → String → Exec Bool
role_permission tenant role_id permission = do
  n ← query (granting_rows tenant role_id permission)
  pure (ltb 0 n)

abbrev pub member_query : Uuid → Uuid → Uuid → String → MemberPermissionQuery
member_query tenant_id role_id member_id permission = record {
  tenant_id = tenant_id;
  role_id = role_id;
  member_id = member_id;
  user_id = 0;
  permission = permission;
}

unfoldable pub scoped_permission : Option Uuid → Uuid → Uuid → String → Exec Bool
scoped_permission none tenant_id role_id permission =
    on_error check_failed (role_permission (some tenant_id) role_id permission)
scoped_permission (some member_id) tenant_id role_id permission =
    on_error check_failed
      (active_member_has_permission (member_query tenant_id role_id member_id permission))

-- The answer once the role, the permission and the member are read.
unfoldable pub answer : Gateway → Option Uuid → Option String → Uuid → String → Exec Bool
answer g (some member_id) none role_id permission =
    throw (invalid_argument "tenant_id is required when member_id is set")
answer g none none role_id permission =
    branch g.require_tenant_id (throw (missing_field "tenant_id"))
      (on_error check_failed (role_permission none role_id permission))
answer g member (some tenant) role_id permission = do
  tenant_id ← required (invalid_argument "tenant_id must be a UUID") (g.parse_uuid tenant)
  scoped_permission member tenant_id role_id permission

-- CheckPermission: the field "allowed"
unfoldable pub check_permission : Gateway → Struct → Exec Bool
check_permission g req = do
  role ← required (missing_field "role_id") (struct_string "role_id" req)
  permission ← required (missing_field "permission") (struct_string "permission" req)
  role_id ← required (invalid_argument "role_id must be a UUID") (g.parse_uuid role)
  member ← optional_member_id g (field "member_id" req)
  answer g member (struct_string "tenant_id" req) role_id permission

-- CheckActiveMembership: the field "active"
unfoldable pub check_active_membership : Gateway → Struct → Exec Bool
check_active_membership g req = do
  tenant ← required (missing_field "tenant_id") (struct_string "tenant_id" req)
  tenant_id ← required (invalid_argument "tenant_id must be a UUID") (g.parse_uuid tenant)
  member ← required (missing_field "member_id") (struct_string "member_id" req)
  member_id ← required member_id_error (g.parse_uuid member)
  on_error (λ e. internal_error "check membership: database error")
      (is_active_tenant_member tenant_id member_id)

-- GetPlatformFeePolicy: the numbers of the state, as float64, which is exact below 2 ^ 53
unfoldable pub get_platform_fee_policy : Parsers → Exec FeeState
get_platform_fee_policy p = do
  evaluated ←
      on_error (λ e. service_unavailable "platform fee policy unavailable") (platform_fee_state p)
  guard evaluated.applied (failed_precondition "platform fee policy has no applied version")
  pure evaluated

-- GetPublicCatalogPolicy
unfoldable pub get_public_catalog_policy : Exec CatalogState
get_public_catalog_policy =
    on_error (λ e. service_unavailable "public catalog policy unavailable") public_catalog_state

-- The version as an int64 that equals it and is at least 1, or else 0
abbrev pub whole_version : Option Value → ℕ
whole_version (some (number_value (integral (pos n)))) = if ltb n (2 ^ 63) then n else 0
whole_version v = 0

-- errors.Is(err, usecase.ErrPlatformForbidden)
unfoldable pub is_forbidden : Error → Bool
is_forbidden platform_forbidden = true
is_forbidden e = false

abbrev pub authorized : Result (Unit {0}) × State → Result Bool × State
authorized (ok u, s) = (ok true, s)
authorized (err e, s) =
    if is_forbidden e
    then (ok false, s)
    else (err (service_unavailable "platform authorization unavailable"), s)

unfoldable pub answered : Exec (Unit {0}) → Exec Bool
answered m env s = authorized (m env s)

unfoldable pub check_admin_version : Crypto → Option Uuid → ℕ → Exec Bool
check_admin_version crypto none version = pure false
check_admin_version crypto (some id) version =
    branch (not (given id) || not (ltb 0 version)) (pure false)
      (answered (check_version crypto id version))

-- CheckActive of PlatformAdminService: the field "allowed"
unfoldable pub check_active : Gateway → Crypto → Struct → Exec Bool
check_active g crypto req =
    check_admin_version crypto (g.parse_uuid (string_of (field "user_id" req)))
      (whole_version (field "platform_factor_version" req))
