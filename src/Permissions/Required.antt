-- ===== src/Permissions/Required.antt =====
-- What requirePermission of internal/usecase/permission.go has found where it lets a caller through.
use kelolakelas_identity_ser.Base.{◌≡◌, refl, nat_eq, false, Option, none, some, arith, String}
use kelolakelas_identity_ser.Schema.{Uuid, Db}
use kelolakelas_identity_ser.Sql.{Env, State}
use kelolakelas_identity_ser.Sql.Rules.{
  Ensures, Ensures-pure, Ensures-guard, Ensures-branch, Ensures-bind, bind_query,
}
use kelolakelas_identity_ser.Members.{Caller}
use kelolakelas_identity_ser.Permissions.{
  caller_query, caller_has_permission, active_member_has_permission, require_permission,
}
use kelolakelas_identity_ser.Permissions.Grants.{Grant, permission_rows-Grant}

-- What a permission check that lets a caller through has found.
abbrev pub Permitted : Option Caller → Uuid → Uuid → String → Db → Type 0
Permitted none tenant_id role_id permission d = ⊥
Permitted (some caller) tenant_id role_id permission d =
    Grant (caller_query caller tenant_id role_id permission) d

pub require_permission-Permitted :
    (env : Env) (s : State) (caller : Option Caller) (tenant_id role_id : Uuid)
    (permission : String)
    → Ensures env s
        (require_permission caller tenant_id role_id permission)
        (λ _ s'. (s'.db ≡ s.db) × Permitted caller tenant_id role_id permission s.db)
unfolding require_permission caller_has_permission active_member_has_permission
require_permission-Permitted env s none t r p =
    Ensures-bind _ _ (Ensures-pure false (Ensures-guard _ _ λ e. cc))
require_permission-Permitted env s (some caller) t r p = Ensures-bind _ _ (
    Ensures-branch _ _ _ (λ a. Ensures-pure false (Ensures-guard _ _ λ e. cc))
      λ a.
        Ensures-branch _ _ _ (λ b. Ensures-pure false (Ensures-guard _ _ λ e. cc))
          λ b.
            Ensures-branch _ _ _ (λ c. Ensures-pure false (Ensures-guard _ _ λ e. cc))
              λ c. bind_query _ _ (
                Ensures-pure _
                  (Ensures-guard _ _ λ e. (refl, permission_rows-Grant _ s.db (ground arith)))))
