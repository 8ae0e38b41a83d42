-- ===== src/PlatformAuth.antt =====
-- internal/usecase/platform_auth.go and platform_factor.go: the login of platform administrators.
pub mod Codes
pub mod Verified
use kelolakelas_identity_ser.Base.{
  ℕ, zero, suc, ◌+◌, ◌-◌, ◌*◌, ◌/◌, ◌%◌, ◌^◌, String, ◌==◌, nat_eq, string_eq, text_eq, Bool, true,
  false, ◌&&◌, ◌||◌, not, Option, none, some, List, [], ◌∷◌, if◌then◌else◌, Text, ltb, length,
  exists, is_some,
}
use kelolakelas_identity_ser.Schema.{Uuid, Time, Db, User}
use kelolakelas_identity_ser.Sql.{
  Error, Result, ok, err, Exec, pure, guard, branch, required, query, ask, time_now, on_error,
  ◌>>=◌, ◌>>◌, db_error, invalid_credentials, platform_forbidden, platform_unavailable,
  user_not_found,
}
use kelolakelas_identity_ser.Members.{given}
use kelolakelas_identity_ser.Emails.{normalize_email, user_by_email}
use kelolakelas_identity_ser.Resets.{second, user_by_id, session_valid_after}
use kelolakelas_identity_ser.Sessions.{
  Jwt, Claims, generate_pending_platform_token, generate_verified_platform_token, validate_token,
}
use kelolakelas_identity_ser.Factor.{
  Crypto, begin_challenge, consume_factor, assignment_version, factor_version,
}
use kelolakelas_identity_ser.ControlPlane.Texts.{parse_int}

-- HMAC-SHA1 of a counter, crypto/rand of a number of bytes at a step, and the encodings; base32 is
-- without its padding.
pub record FactorLib : Type 0 where
  pub mac : Text → ℕ → Text
  pub random : ℕ → ℕ → Option Text
  pub hex : Text → Text
  pub unhex : Text → Option Text
  pub base32 : Text → Text

abbrev byte_at : ℕ → Text → ℕ
byte_at n [] = 0
byte_at zero (c ∷ s) = c
byte_at (suc n) (c ∷ s) = byte_at n s

abbrev last_byte : Text → ℕ
last_byte [] = 0
last_byte (c ∷ []) = c
last_byte (c ∷ d ∷ s) = last_byte (d ∷ s)

-- The four bytes at the offset, big-endian, without the sign bit
abbrev truncated : ℕ → Text → ℕ
truncated offset digest =
    (byte_at offset digest % 128) * 2 ^ 24
    + byte_at (offset + 1) digest * 2 ^ 16
    + byte_at (offset + 2) digest * 2 ^ 8
    + byte_at (offset + 3) digest

-- "%06d"
abbrev pub six_digits : ℕ → Text
six_digits n =
    (b'0' + n / 100000 % 10)
    ∷ (b'0' + n / 10000 % 10)
    ∷ (b'0' + n / 1000 % 10)
    ∷ (b'0' + n / 100 % 10)
    ∷ (b'0' + n / 10 % 10)
    ∷ (b'0' + n % 10)
    ∷ []

unfoldable pub factor_code : FactorLib → Text → ℕ → Text
factor_code f secret counter =
    let digest = f.mac secret counter in
    six_digits (truncated (last_byte digest % 16) digest % 1000000)

-- now.Unix()/30 - 1 as a uint64
abbrev pub counter_before : ℕ → ℕ
counter_before n = (n + (2 ^ 64 - 1)) % 2 ^ 64

unfoldable pub check_factor : FactorLib → Text → Text → Time → Bool
check_factor f secret code now =
    let n = now / second / 30 in
    if not (length code == 6)
    then false
    else if not (is_some (parse_int code))
    then false
    else factor_code f secret (counter_before n) == code
      || factor_code f secret n == code
      || factor_code f secret (n + 1) == code

-- IsActive
unfoldable pub is_active_admin : Uuid → Db → Bool
is_active_admin id d = exists (λ a. a.user_id == id && a.is_active) d.platform_admin_assignments

unfoldable pub check_admin : Uuid → Exec (Unit {0})
check_admin id = do
  guard (given id) platform_forbidden
  active ← query (is_active_admin id)
  guard active platform_forbidden
  user ← query (user_by_id id)
  user ← required platform_forbidden user
  pure tt

abbrev unavailable : Error → Error
unavailable e = platform_unavailable

unfoldable pub platform_login : Jwt → Crypto → Text → String → Exec String
platform_login lib crypto email password = do
  env ← ask (λ env n. env)
  user ← query (user_by_email env (normalize_email env email))
  user ← required invalid_credentials user
  guard (env.check_password password user.password_hash) invalid_credentials
  u ← check_admin user.id
  valid_after ← session_valid_after user.id
  version ← on_error unavailable (assignment_version crypto user.id)
  generate_pending_platform_token lib user.id user.email version

unfoldable pub check_version : Crypto → Uuid → ℕ → Exec (Unit {0})
check_version crypto id version = do
  guard (ltb 0 version) platform_forbidden
  u ← check_admin id
  current ← on_error unavailable (factor_version crypto id)
  guard (current == version) platform_forbidden

abbrev pub valid_claims : Result Claims → Option Claims
valid_claims (ok c) = some c
valid_claims (err e) = none

-- pending: the claims of a token of the password stage
unfoldable pub pending_claims : Jwt → Crypto → String → Exec Claims
pending_claims lib crypto token = do
  now ← time_now
  c ← required platform_forbidden (valid_claims (validate_token lib now token))
  guard (c.platform_pending && not c.is_platform_admin && given c.user_id) platform_forbidden
  u ← check_admin c.user_id
  version ← on_error unavailable (assignment_version crypto c.user_id)
  guard (version == c.platform_pending_version) platform_forbidden
  pure c

abbrev new_secret : FactorLib → String → Exec Text
new_secret f purpose =
    branch (purpose == "enroll")
      (do secret ← ask (λ env n. f.random n 20); required db_error secret) (pure [])

unfoldable pub start_factor : FactorLib → Jwt → Crypto → String → String → Exec (Text × Text)
start_factor f lib crypto pending purpose = do
  c ← pending_claims lib crypto pending
  token ← ask (λ env n. f.random n 32)
  token ← required db_error token
  secret ← new_secret f purpose
  now ← time_now
  version ←
      on_error unavailable
        (begin_challenge crypto c.user_id purpose token secret (now + 300 * second))
  pure (f.hex token, f.base32 secret)

abbrev pub of_size : Option Text → Option Text
of_size none = none
of_size (some token) = if length token == 32 then some token else none

-- The clock is read once more for the check of the code, here before the transaction of Consume.
unfoldable pub finish_factor :
    FactorLib → Jwt → Crypto → String → Text → Text → String → Exec String
finish_factor f lib crypto pending challenge code purpose = do
  c ← pending_claims lib crypto pending
  token ← required platform_forbidden (of_size (f.unhex challenge))
  now ← time_now
  checked ← time_now
  (accepted, version) ← on_error unavailable (
      consume_factor
        (record crypto { verify = λ secret. some (check_factor f secret code checked) }) c.user_id
        purpose token now)
  guard accepted platform_forbidden
  u ← check_version crypto c.user_id version
  user ← query (user_by_id c.user_id)
  user ← required user_not_found user
  generate_verified_platform_token lib user.id user.email none version
