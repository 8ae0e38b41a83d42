-- ===== src/Services/Status.antt =====
-- ValidateTenantStatus of internal/delivery/grpc/tenant_handler.go.
use kelolakelas_identity_ser.Base.{
  ◌==◌, nat_eq, string_eq, String, ◌&&◌, Option, none, some, if◌then◌else◌, first,
}
use kelolakelas_identity_ser.Schema.{Uuid, Db, Tenant}
use kelolakelas_identity_ser.Sql.{Result, ok, err, State, Exec, pure, query}
use kelolakelas_identity_ser.Members.{is_null}
use kelolakelas_identity_ser.Services.{Gateway}

-- The message of the response; only the last one comes with IsActive.
pub data TenantStatus : Type 0 where
  invalid_tenant_id tenant_not_found database_error : TenantStatus
  tenant_status : String → TenantStatus
  tenant_is_active : TenantStatus

unfoldable pub live_tenant : Uuid → Db → Option Tenant
live_tenant id d = first (λ t. t.id) (λ t. t.id == id && is_null t.deleted_at) d.tenants

abbrev status_response : Result (Option Tenant) × State → Result TenantStatus × State
status_response (ok none, s) = (ok tenant_not_found, s)
status_response (ok (some t), s) =
    if t.status == "active" then (ok tenant_is_active, s) else (ok (tenant_status t.status), s)
status_response (err e, s) = (ok database_error, s)

-- Every failure is a response too.
unfoldable pub responding : Exec (Option Tenant) → Exec TenantStatus
responding m env s = status_response (m env s)

abbrev status_of_tenant : Option Uuid → Exec TenantStatus
status_of_tenant none = pure invalid_tenant_id
status_of_tenant (some id) = responding (query (live_tenant id))

unfoldable pub validate_tenant_status : Gateway → String → Exec TenantStatus
validate_tenant_status g tenant_id = status_of_tenant (g.parse_uuid tenant_id)
