-- ===== src/Registration.antt =====
-- internal/repository/user_repository.go (RegisterTenantTx) and RegisterTenant of
-- internal/usecase/tenant_usecase.go: a new tenant with its first account.
pub mod Outcome
use kelolakelas_identity_ser.Base.{
  ℕ, String, ◌==◌, nat_eq, string_eq, text_eq, Bool, true, false, ◌&&◌, not, Option, none, some,
  List, [], ◌∷◌, ◌++◌, if◌then◌else◌, Text, first, exists, is_some,
}
use kelolakelas_identity_ser.Schema.{
  Time, Uuid, Db, User, Tenant, Role, TenantMember, TenantWallet, UserWallet,
}
use kelolakelas_identity_ser.Sql.{
  Error, Env, Exec, pure, guard, branch, required, query, insert, ask, time_now, new_uuid, on_error,
  ◌>>=◌, ◌>>◌, transaction, hash_error, user_already_exists, registration_closed,
  tenant_name_already_exists, unique_violation,
}
use kelolakelas_identity_ser.Members.{is_null}
use kelolakelas_identity_ser.Emails.{normalize_email, user_by_email}
use kelolakelas_identity_ser.Configuration.{registration_open_in_tx}
use kelolakelas_identity_ser.Sessions.{Jwt, generate_token}

-- users_email_key and uq_users_email_lower; deleted rows count too.
unfoldable pub user_constraint : Env → User → Db → Option Error
user_constraint env user d =
    if exists (λ u. u.email == user.email) d.users
    then some (unique_violation "users_email_key")
    else if exists (λ u. env.sql_lower u.email == env.sql_lower user.email) d.users
    then some (unique_violation "uq_users_email_lower")
    else none

-- isUserEmailConflict, and the error that stands for it
unfoldable pub email_conflict : Error → Error
email_conflict (unique_violation name) =
    if name == "users_email_key"
    then user_already_exists
    else if name == "uq_users_email_lower"
    then user_already_exists
    else unique_violation name
email_conflict e = e

unfoldable pub add_user : User → Db → Db
add_user u d = record d { users = d.users ++ u ∷ [] }

-- Create of userRepository
unfoldable pub create_user : Env → User → Exec (Unit {0})
create_user env user = on_error email_conflict (insert (user_constraint env user) (add_user user))

unfoldable pub tenant_constraint : Tenant → Db → Option Error
tenant_constraint tenant d =
    if exists (λ t. t.name == tenant.name) d.tenants
    then some (unique_violation "tenants_name_key")
    else none

unfoldable pub add_tenant : Tenant → Db → Db
add_tenant t d = record d { tenants = d.tenants ++ t ∷ [] }

unfoldable pub tenant_wallet_constraint : Uuid → Db → Option Error
tenant_wallet_constraint tenant_id d =
    if exists (λ w. w.tenant_id == tenant_id) d.tenant_wallets
    then some (unique_violation "tenant_wallets_tenant_id_key")
    else none

unfoldable pub add_tenant_wallet : TenantWallet → Db → Db
add_tenant_wallet w d = record d { tenant_wallets = d.tenant_wallets ++ w ∷ [] }

unfoldable pub user_wallet_constraint : Uuid → Db → Option Error
user_wallet_constraint user_id d =
    if exists (λ w. w.user_id == user_id) d.user_wallets
    then some (unique_violation "user_wallets_user_id_key")
    else none

unfoldable pub add_user_wallet : UserWallet → Db → Db
add_user_wallet w d = record d { user_wallets = d.user_wallets ++ w ∷ [] }

unfoldable pub member_constraint : Uuid → Uuid → Db → Option Error
member_constraint tenant_id user_id d =
    if exists (λ m. m.tenant_id == tenant_id && m.user_id == user_id) d.tenant_members
    then some (unique_violation "uq_tenant_members_tenant_user")
    else none

unfoldable pub add_member : TenantMember → Db → Db
add_member m d = record d { tenant_members = d.tenant_members ++ m ∷ [] }

unfoldable pub add_role : Role → Db → Db
add_role r d = record d { roles = d.roles ++ r ∷ [] }

-- Where("name = ? AND tenant_id IS NULL", "Creator").First
unfoldable pub system_creator_role : Db → Option Role
system_creator_role d = first (λ r. r.id) (λ r. r.name == "Creator" && is_null r.tenant_id) d.roles

abbrev default_creator : Uuid → Role
default_creator id = record {
  id = id;
  tenant_id = none;
  name = "Creator";
  description = "System Default Creator Role";
}

-- A name without a tenant may repeat: a unique constraint does not compare NULLs.
unfoldable pub creator_or_new : Option Role → Exec Role
creator_or_new (some role) = pure role
creator_or_new none = do
  id ← new_uuid
  insert (λ d. none) (add_role (default_creator id))
  pure (default_creator id)

abbrev pub member_of : Uuid → Uuid → Uuid → Uuid → Time → TenantMember
member_of id tenant_id user_id role_id now = record {
  id = id;
  tenant_id = tenant_id;
  user_id = user_id;
  role_id = role_id;
  is_active = true;
  updated_at = now;
  deleted_at = none;
}

-- The address that the account is stored under.
abbrev pub canonical : Env → User → User
canonical env user = record user { email = normalize_email env user.email }

abbrev pub empty_tenant_wallet : Uuid → Uuid → TenantWallet
empty_tenant_wallet id tenant_id = record {
  id = id;
  tenant_id = tenant_id;
  available_balance = 0;
  pending_balance = 0;
}

abbrev pub empty_user_wallet : Uuid → Uuid → UserWallet
empty_user_wallet id user_id = record { id = id; user_id = user_id; balance = 0 }

unfoldable pub register_tenant_body : User → Tenant → Exec TenantMember
register_tenant_body user tenant = do
  is_open ← on_error (λ e. registration_closed) registration_open_in_tx
  guard is_open registration_closed
  env ← ask (λ env n. env)
  create_user env (canonical env user)
  insert (tenant_constraint tenant) (add_tenant tenant)
  tenant_wallet_id ← new_uuid
  insert (tenant_wallet_constraint tenant.id)
      (add_tenant_wallet (empty_tenant_wallet tenant_wallet_id tenant.id))
  user_wallet_id ← new_uuid
  insert (user_wallet_constraint user.id)
      (add_user_wallet (empty_user_wallet user_wallet_id user.id))
  found ← query system_creator_role
  role ← creator_or_new found
  id ← new_uuid
  now ← time_now
  insert (member_constraint tenant.id user.id)
      (add_member (member_of id tenant.id user.id role.id now))
  pure (member_of id tenant.id user.id role.id now)

unfoldable pub register_tenant_tx : User → Tenant → Exec TenantMember
register_tenant_tx user tenant = transaction (register_tenant_body user tenant)

-- domain.RegisterTenantRequest
pub record RegisterTenantRequest : Type 0 where
  pub tenant_name : String
  pub tenant_phone : Option String
  pub tenant_address : Option String
  pub email : Text
  pub password : String
  pub first_name : String
  pub last_name : String
  pub phone : Option String

abbrev new_user : RegisterTenantRequest → Uuid → Text → String → User
new_user req id email password_hash = record {
  id = id;
  email = email;
  password_hash = password_hash;
  session_valid_after = none;
  failed_login_attempts = 0;
  login_locked_until = none;
  first_name = req.first_name;
  last_name = req.last_name;
  phone = req.phone;
  is_parent = false;
  deleted_at = none;
}

abbrev new_tenant : RegisterTenantRequest → Uuid → Tenant
new_tenant req id = record {
  id = id;
  name = req.tenant_name;
  phone = req.tenant_phone;
  address = req.tenant_address;
  status = "active";
  deleted_at = none;
}

-- IsNameExists: LOWER(name) = LOWER(?), with gorm's soft-delete scope
unfoldable pub name_exists : Env → String → Db → Bool
name_exists env name d =
    exists (λ t. env.sql_lower_name t.name == env.sql_lower_name name && is_null t.deleted_at)
      d.tenants

-- RegisterTenant; `policy` is Evaluate of the RegistrationPolicy, and saving the permissions in
-- the cache, whose failure is ignored, is left out.
unfoldable pub register_tenant : Jwt → Exec Bool → RegisterTenantRequest → Exec String
register_tenant lib policy req = do
  is_open ← on_error (λ e. registration_closed) policy
  guard is_open registration_closed
  name_exists ←
      query (λ d. exists (λ t. t.name == req.tenant_name && is_null t.deleted_at) d.tenants)
  guard (not name_exists) tenant_name_already_exists
  env ← ask (λ env n. env)
  existing ← query (user_by_email env (normalize_email env req.email))
  guard (not (is_some existing)) user_already_exists
  password_hash ← required hash_error (env.hash_password req.password)
  user_id ← new_uuid
  tenant_id ← new_uuid
  member ←
      register_tenant_tx (new_user req user_id (normalize_email env req.email) password_hash)
        (new_tenant req tenant_id)
  generate_token lib user_id (normalize_email env (normalize_email env req.email)) tenant_id
      member.role_id member.id false
