-- ===== src/Sessions.antt =====
-- pkg/jwt/jwt.go, internal/usecase/tenant_session.go and internal/repository/tenant_session.go: the
-- tokens that the service issues, and the choice of a tenant that a token is exchanged for.
pub mod Boundary
pub mod Switching
use kelolakelas_identity_ser.Base.{
  ℕ, ◌+◌, ◌*◌, String, ◌==◌, nat_eq, string_eq, Bool, true, false, ◌&&◌, ◌||◌, not, Option, none,
  some, List, [], ◌∷◌, if◌then◌else◌, Text, ltb, is_some, rows, from, head,
}
use kelolakelas_identity_ser.Schema.{Time, Uuid, Db, User, Tenant, Role, TenantMember}
use kelolakelas_identity_ser.Sql.{
  Env, Exec, pure, throw, guard, required, query, ask, time_now, ◌>>=◌, ◌>>◌, transaction, Error,
  Result, ok, err, tenant_session_invalid, tenant_session_forbidden, invalid_token, expired_token,
  sign_error,
}
use kelolakelas_identity_ser.Members.{is_null, is_id, given}
use kelolakelas_identity_ser.Emails.{normalize_email}
use kelolakelas_identity_ser.Resets.{second, user_by_id}

-- Claims
pub record Claims : Type 0 where
  pub user_id : Uuid
  pub email : Text
  pub tenant_id : Uuid
  pub role_id : Uuid
  pub member_id : Uuid
  pub is_parent : Bool
  pub is_platform_admin : Bool
  pub platform_factor_version : ℕ
  pub platform_pending : Bool
  pub platform_pending_version : ℕ
  pub expires_at : Option Time
  pub issued_at : Option Time

-- What jwt.ParseWithClaims makes of a token: its claims, or why it is refused.
pub data Parsed : Type 0 where
  parsed : Claims → Parsed
  token_expired token_refused : Parsed

-- The package golang-jwt, with the key and the duration that a JWTService holds.
pub record Jwt : Type 0 where
  pub numeric_date : Time → Time
  pub signed_string : Claims → Option String
  pub parse_with_claims : Time → String → Parsed
  pub token_duration : Time

-- The later of now and the boundary of the sessions.
unfoldable pub issue_at : Time → Option Time → Time
issue_at now none = now
issue_at now (some valid_after) = if ltb now valid_after then valid_after else now

unfoldable pub tenant_claims : Jwt → Uuid → Text → Uuid → Uuid → Uuid → Bool → Time → Claims
tenant_claims lib user_id email tenant_id role_id member_id is_parent issued = record {
  user_id = user_id;
  email = email;
  tenant_id = tenant_id;
  role_id = role_id;
  member_id = member_id;
  is_parent = is_parent;
  is_platform_admin = false;
  platform_factor_version = 0;
  platform_pending = false;
  platform_pending_version = 0;
  expires_at = some (lib.numeric_date (issued + lib.token_duration));
  issued_at = some (lib.numeric_date issued);
}

-- sign: the address in a token is the canonical one.
unfoldable pub sign : Jwt → Claims → Exec String
sign lib claims = do
  env ← ask (λ env n. env)
  required sign_error
      (lib.signed_string (record claims { email = normalize_email env claims.email }))

unfoldable pub generate_token_after :
    Jwt → Uuid → Text → Uuid → Uuid → Uuid → Bool → Option Time → Exec String
generate_token_after lib user_id email tenant_id role_id member_id is_parent valid_after = do
  now ← time_now
  sign lib (
      tenant_claims lib user_id email tenant_id role_id member_id is_parent
        (issue_at now valid_after))

unfoldable pub generate_token : Jwt → Uuid → Text → Uuid → Uuid → Uuid → Bool → Exec String
generate_token lib user_id email tenant_id role_id member_id is_parent =
    generate_token_after lib user_id email tenant_id role_id member_id is_parent none

unfoldable pub generate_pending_platform_token : Jwt → Uuid → Text → ℕ → Exec String
generate_pending_platform_token lib user_id email version = do
  expiry ← time_now
  now ← time_now
  sign lib record {
    user_id = user_id;
    email = email;
    tenant_id = 0;
    role_id = 0;
    member_id = 0;
    is_parent = false;
    is_platform_admin = false;
    platform_factor_version = 0;
    platform_pending = true;
    platform_pending_version = version;
    expires_at = some (lib.numeric_date (expiry + 300 * second));
    issued_at = some (lib.numeric_date now);
  }

unfoldable pub generate_verified_platform_token : Jwt → Uuid → Text → Option Time → ℕ → Exec String
generate_verified_platform_token lib user_id email valid_after version = do
  now ← time_now
  sign lib record {
    user_id = user_id;
    email = email;
    tenant_id = 0;
    role_id = 0;
    member_id = 0;
    is_parent = false;
    is_platform_admin = true;
    platform_factor_version = version;
    platform_pending = false;
    platform_pending_version = 0;
    expires_at = some (lib.numeric_date (issue_at now valid_after + lib.token_duration));
    issued_at = some (lib.numeric_date (issue_at now valid_after));
  }

unfoldable pub claims_of : Parsed → Result Claims
claims_of (parsed c) = ok c
claims_of token_expired = err expired_token
claims_of token_refused = err invalid_token

-- ValidateToken
unfoldable pub validate_token : Jwt → Time → String → Result Claims
unfolding claims_of
validate_token lib now token = claims_of (lib.parse_with_claims now token)

abbrev pub result_option : {A : Type 0} → Result A → Option A
result_option (ok a) = some a
result_option (err e) = none

unfoldable pub principal : Jwt → String → Exec Claims
principal lib token = do
  now ← time_now
  c ← required tenant_session_invalid (result_option (validate_token lib now token))
  guard (given c.user_id && is_some c.issued_at) tenant_session_invalid
  guard (not (c.is_parent || c.is_platform_admin || c.platform_pending)) tenant_session_forbidden
  pure c

-- c.ExpiresAt != nil && time.Now().Before(c.ExpiresAt.Time)
unfoldable pub in_date : Time → Option Time → Bool
in_date now none = false
in_date now (some expires_at) = ltb now expires_at

-- user.SessionValidAfter != nil && c.IssuedAt.Time.Before(*user.SessionValidAfter); `principal`
-- refuses a token without IssuedAt.
unfoldable pub issued_before : Option Time → Option Time → Bool
issued_before none valid_after = is_some valid_after
issued_before (some issued) none = false
issued_before (some issued) (some valid_after) = ltb issued valid_after

unfoldable pub valid_tenant_user : User → Claims → Exec (Unit {0})
valid_tenant_user user c = do
  now ← time_now
  guard (in_date now c.expires_at) tenant_session_invalid
  guard (not (issued_before c.issued_at user.session_valid_after)) tenant_session_invalid
  guard (not user.is_parent) tenant_session_forbidden

-- domain.TenantChoice
pub record TenantChoice : Type 0 where
  pub tenant_id : Uuid
  pub tenant_name : String
  pub member_id : Uuid
  pub role_id : Uuid
  pub role_name : String

abbrev pub choice_row : TenantMember → Tenant → Role → TenantChoice
choice_row tm t ro = record {
  tenant_id = tm.tenant_id;
  tenant_name = t.name;
  member_id = tm.id;
  role_id = tm.role_id;
  role_name = ro.name;
}

-- The WHERE and ON clauses of ownTenantChoices, by table.
abbrev pub own_active : Uuid → TenantMember → Bool
own_active user_id tm = tm.user_id == user_id && tm.is_active && is_null tm.deleted_at

abbrev pub tenant_active : TenantMember → Tenant → Bool
tenant_active tm t = t.id == tm.tenant_id && t.status == "active" && is_null t.deleted_at

abbrev pub role_of : TenantMember → Role → Bool
role_of tm ro = ro.id == tm.role_id && (is_null ro.tenant_id || is_id ro.tenant_id tm.tenant_id)

unfoldable pub own_tenant_choices : Uuid → Db → List TenantChoice
own_tenant_choices user_id d =
    from
      (λ tm.
        from (λ t. from (λ ro. choice_row tm t ro ∷ []) (rows (role_of tm) d.roles))
          (rows (tenant_active tm) d.tenants))
      (rows (own_active user_id) d.tenant_members)

-- withUser, WithUser
unfoldable pub with_user : {A : Type 0} → Uuid → (User → Exec A) → Exec A
with_user user_id fn =
    transaction
      do user ← query (user_by_id user_id); user ← required tenant_session_invalid user; fn user

unfoldable pub with_membership :
    {A : Type 0} → Uuid → Uuid → (User → TenantChoice → Exec A) → Exec A
unfolding with_user
with_membership user_id tenant_id fn = with_user user_id λ user. do
  choice ← query (λ d. head (rows (λ c. c.tenant_id == tenant_id) (own_tenant_choices user_id d)))
  choice ← required tenant_session_forbidden choice
  fn user choice

-- List; `by_name` is ORDER BY t.name, t.id in the collation of the database.
unfoldable pub list_choices :
    Jwt → (List TenantChoice → List TenantChoice) → String → Exec (List TenantChoice)
list_choices lib by_name token = do
  c ← principal lib token
  with_user c.user_id (λ user. valid_tenant_user user c)
  query (λ d. by_name (own_tenant_choices c.user_id d))

unfoldable pub reissue : Jwt → Claims → User → TenantChoice → Exec (String × TenantChoice)
reissue lib c user choice = do
  valid_tenant_user user c
  token ←
      generate_token_after lib user.id user.email choice.tenant_id choice.role_id choice.member_id
        false user.session_valid_after
  pure (token, choice)

unfoldable pub switch : Jwt → String → Uuid → Exec (String × TenantChoice)
switch lib token tenant_id = do
  c ← principal lib token
  with_membership c.user_id tenant_id (reissue lib c)
