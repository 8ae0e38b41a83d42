-- ===== src/Auth.antt =====
-- internal/usecase/auth_usecase.go: accounts, password resets and the login.
pub mod Issued
use kelolakelas_identity_ser.Base.{
  ℕ, ◌+◌, String, ◌==◌, nat_eq, string_eq, Bool, true, false, ◌&&◌, ◌||◌, not, Option, none, some,
  List, [], ◌∷◌, if◌then◌else◌, Text, leb, length, first, exists, is_some,
}
use kelolakelas_identity_ser.Schema.{Uuid, Time, Db, User, TenantMember}
use kelolakelas_identity_ser.Sql.{
  Error, Env, Exec, pure, guard, branch, required, query, ask, time_now, new_uuid, ◌>>=◌, ◌>>◌,
  db_error, hash_error, user_already_exists, invalid_reset_token,
}
use kelolakelas_identity_ser.Members.{given}
use kelolakelas_identity_ser.Emails.{normalize_email, user_by_email}
use kelolakelas_identity_ser.Login.{authenticate}
use kelolakelas_identity_ser.Resets.{issue, consume, session_valid_after}
use kelolakelas_identity_ser.Registration.{create_user}
use kelolakelas_identity_ser.Sessions.{
  Jwt, generate_token_after, own_active, tenant_active, role_of,
}

unfoldable pub register : User → String → Exec User
register user password = do
  env ← ask (λ env n. env)
  existing ← query (user_by_email env (normalize_email env user.email))
  guard (not (is_some existing)) user_already_exists
  password_hash ← required hash_error (env.hash_password password)
  id ← branch (given user.id) (pure user.id) new_uuid
  let saved : User = record user {
    id = id;
    email = normalize_email env user.email;
    password_hash = password_hash;
  }
  create_user env saved
  pure saved

-- crypto/rand at a step, in hexadecimal, and SHA-256 in hexadecimal
pub record ResetCrypto : Type 0 where
  pub random_hex : ℕ → Option Text
  pub token_hash : Text → Text

abbrev send_reset : ResetCrypto → Time → Option User → Exec (Unit {0})
send_reset c lifetime none = pure tt
send_reset c lifetime (some user) = do
  token ← ask (λ env n. c.random_hex n)
  token ← required db_error token
  now ← time_now
  issue user.id (c.token_hash token) (now + lifetime)

-- The mail goes out after the token is stored; a mail that fails is logged and changes nothing.
unfoldable pub request_password_reset : ResetCrypto → Time → Text → Exec (Unit {0})
request_password_reset c lifetime email = do
  env ← ask (λ env n. env)
  user ← query (user_by_email env (normalize_email env email))
  send_reset c lifetime user

abbrev is_hex : ℕ → Bool
is_hex c = (leb b'0' c && leb c b'9') || (leb b'a' c && leb c b'f') || (leb b'A' c && leb c b'F')

abbrev all_hex : Text → Bool
all_hex [] = true
all_hex (c ∷ s) = is_hex c && all_hex s

unfoldable pub confirm_password_reset : ResetCrypto → Text → String → Exec (Unit {0})
confirm_password_reset c token password = do
  guard (length token == 64) invalid_reset_token
  guard (all_hex token) invalid_reset_token
  env ← ask (λ env n. env)
  password_hash ← required hash_error (env.hash_password password)
  now ← time_now
  consume (c.token_hash token) password_hash now

-- GetTenantMemberByUserID: tenant_members JOIN tenants t JOIN roles ro
unfoldable pub live_membership : Db → Uuid → TenantMember → Bool
live_membership d user_id tm =
    own_active user_id tm && exists (tenant_active tm) d.tenants && exists (role_of tm) d.roles

unfoldable pub tenant_member_of : Uuid → Db → Option TenantMember
tenant_member_of user_id d = first (λ tm. tm.id) (live_membership d user_id) d.tenant_members

-- The tenant, the role and the member that a token names.
pub record Place : Type 0 where
  pub tenant_id : Uuid
  pub role_id : Uuid
  pub member_id : Uuid

abbrev pub place_of : Option TenantMember → Place
place_of none = record { tenant_id = 0; role_id = 0; member_id = 0 }
place_of (some tm) = record { tenant_id = tm.tenant_id; role_id = tm.role_id; member_id = tm.id }

-- The cache of permissions that a login fills is left out: nothing reads what it answers.
unfoldable pub login : Jwt → ℕ → Time → Text → String → Exec (String × User × Uuid)
login lib threshold duration email password = do
  env ← ask (λ env n. env)
  user ← authenticate (normalize_email env email) password threshold duration
  member ← branch user.is_parent (pure none) (query (tenant_member_of user.id))
  valid_after ← session_valid_after user.id
  let place = place_of member
  token ←
      generate_token_after lib user.id user.email place.tenant_id place.role_id place.member_id
        user.is_parent valid_after
  pure (token, user, place.tenant_id)
