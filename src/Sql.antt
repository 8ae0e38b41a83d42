-- ===== src/Sql.antt =====
-- Statements, transactions and errors, as gorm runs them against PostgreSQL.

pub mod Rules
pub mod Atomic
use kelolakelas_identity_ser.Base.{
  ℕ, zero, suc, String, Bool, Option, none, some, if◌then◌else◌, Text,
}
use kelolakelas_identity_ser.Schema.{Db, Time, Uuid}

-- The errors that the code tells apart.
pub data Error : Type 0 where
  -- a statement, a commit or a library call failed
  db_error hash_error : Error
  -- gorm.ErrRecordNotFound and sql.ErrNoRows, where they are passed on
  record_not_found : Error
  unique_violation foreign_key_violation : String → Error
  -- domain/user.go
  user_already_exists invalid_credentials user_not_found : Error
  -- domain/rbac.go
  role_not_found role_name_exists system_role_cannot_be_modified forbidden_role_access : Error
  role_assigned_to_active_members permission_denied creator_grant_forbidden : Error
  membership_inactive : Error
  -- domain/member.go
  member_not_found member_role_forbidden member_role_conflict member_self_role_change : Error
  member_permission member_delete_permission member_self_removal : Error
  -- domain/invitation.go
  invitation_account_mismatch existing_teacher_required invitation_member_inactive : Error
  invitation_not_found invitation_expired invitation_used already_tenant_member : Error
  invitation_role_invalid : Error
  -- domain/tenant.go, domain/tenant_session.go, domain/password_reset.go
  tenant_name_already_exists tenant_session_forbidden tenant_session_invalid : Error
  invalid_reset_token : Error
  -- domain/creator_request.go
  creator_request_forbidden creator_request_duplicate creator_target_already_creator : Error
  creator_request_invalid creator_request_not_found creator_request_decided : Error
  creator_request_stale : Error
  -- domain/configuration.go and the policies
  registration_closed configuration_version_conflict configuration_version_not_found : Error
  invalid_platform_fee_policy policy_unavailable invalid_policy_value : Error
  invalid_configuration : String → Error
  -- internal/usecase/platform_auth.go, internal/repository/platform_factor.go
  platform_forbidden platform_unavailable factor_unavailable factor_cipher_error : Error
  -- pkg/jwt/jwt.go
  invalid_token expired_token sign_error : Error
  -- google.golang.org/grpc/status, with the code first; `missing_field` is InvalidArgument too
  invalid_argument missing_field internal_error service_unavailable failed_precondition :
      String → Error

pub data Result {ℓ} (A : Type ℓ) : Type ℓ where
  ok : A → Result A
  err : Error → Result A

-- What a run of the service meets: which statements fail, the readings of the clock, the random
-- ids, and the functions of other packages. Each is asked by the number of the step.
pub record Env : Type 0 where
  pub fails : ℕ → Bool
  pub now : ℕ → Time
  pub fresh : ℕ → Uuid
  pub fresh_token : ℕ → String
  -- bcrypt; `none` is an error
  pub hash_password : String → Option String
  pub check_password : String → String → Bool
  -- unicode.ToLower and unicode.IsSpace above ASCII, and LOWER of PostgreSQL
  pub lower_rune : ℕ → ℕ
  pub space_rune : ℕ → Bool
  pub sql_lower : Text → Text
  pub sql_lower_name : String → String
  -- strings.EqualFold
  pub equal_fold : Text → Text → Bool
  -- the cast to jsonb; `none` is an error
  pub jsonb : Text → Option Text

-- The committed or pending tables, and the number of steps taken.
pub record State : Type 0 where
  pub db : Db
  pub step : ℕ

-- A call of the service: what it returns, and the state that it leaves, also after an error.
abbrev pub Exec : Type 0 → Type 0
Exec A = Env → State → Result A × State

abbrev pub tick : State → State
tick s = record s { step = suc s.step }

-- The number of a later step.
abbrev pub steps_after : ℕ → ℕ → ℕ
steps_after zero n = n
steps_after (suc k) n = suc (steps_after k n)

unfoldable pub pure : {A : Type 0} → A → Exec A
pure a env s = (ok a, s)

unfoldable pub throw : {A : Type 0} → Error → Exec A
throw e env s = (err e, s)

-- `if !b { return e }`
unfoldable pub guard : Bool → Error → Exec (Unit {0})
guard b e env s = if b then (ok tt, s) else (err e, s)

-- `if b { … } else { … }` with statements in the branches
unfoldable pub branch : {A : Type 0} → Bool → Exec A → Exec A → Exec A
branch b m n env s = if b then m env s else n env s

-- A lookup that found nothing is the error `e`.
unfoldable pub required : {A : Type 0} → Error → Option A → Exec A
required e none env s = (err e, s)
required e (some a) env s = (ok a, s)

-- A statement that reads.
unfoldable pub query : {A : Type 0} → (Db → A) → Exec A
query f env s = if env.fails s.step then (err db_error, tick s) else (ok (f s.db), tick s)

abbrev pub written : State → Db → State
written s d = record { db = d; step = suc s.step }

abbrev checked : Option Error → State → Db → Result (Unit {0}) × State
checked none s d = (ok tt, written s d)
checked (some e) s d = (err e, tick s)

-- A statement that writes, unless a constraint of the schema refuses it.
unfoldable pub insert : (Db → Option Error) → (Db → Db) → Exec (Unit {0})
insert constraint f env s =
    if env.fails s.step then (err db_error, tick s) else checked (constraint s.db) s (f s.db)

-- A statement that writes and that no constraint can refuse.
unfoldable pub execute : (Db → Db) → Exec (Unit {0})
execute f env s = if env.fails s.step then (err db_error, tick s) else (ok tt, written s (f s.db))

-- A statement that writes and returns the number of rows that it changed, or what RETURNING says.
unfoldable pub affect : {A : Type 0} → (Db → A) → (Db → Db) → Exec A
affect n f env s =
    if env.fails s.step then (err db_error, tick s) else (ok (n s.db), written s (f s.db))

-- time.Now(), uuid.New() and any other value that the environment supplies at this step.
unfoldable pub ask : {A : Type 0} → (Env → ℕ → A) → Exec A
ask f env s = (ok (f env s.step), tick s)

abbrev pub time_now : Exec Time
time_now = ask (λ env n. env.now n)

abbrev pub new_uuid : Exec Uuid
new_uuid = ask (λ env n. env.fresh n)

abbrev pub continue : {A B : Type 0} → Result A → (A → Exec B) → Exec B
continue (ok a) f env s = f a env s
continue (err e) f env s = (err e, s)

abbrev pub renamed : {A : Type 0} → (Error → Error) → Result A × State → Result A × State
renamed f (ok a, s) = (ok a, s)
renamed f (err e, s) = (err (f e), s)

-- `if err != nil { return … }`, with another error in place of the one met
unfoldable pub on_error : {A : Type 0} → (Error → Error) → Exec A → Exec A
on_error f m env s = renamed f (m env s)

infixl 5 ◌>>=◌ ◌>>◌
-- Opening this opens the statements above too.
unfoldable pub ◌>>=◌ : {A B : Type 0} → Exec A → (A → Exec B) → Exec B
unfolding pure throw guard branch required query insert execute affect ask on_error
◌>>=◌ m f env s = let (r, s') = m env s in continue r f env s'

abbrev pub ◌>>◌ : {B : Type 0} → Exec (Unit {0}) → Exec B → Exec B
m >> k = m >>= λ _. k

-- COMMIT, or ROLLBACK to the tables that the transaction found.
abbrev pub close : {A : Type 0} → Env → Db → Result A × State → Result A × State
close env before (ok a, s) =
    if env.fails s.step then (err db_error, written s before) else (ok a, tick s)
close env before (err e, s) = (err e, written s before)

-- db.Transaction: BEGIN, the body, and COMMIT or ROLLBACK.
unfoldable pub transaction : {A : Type 0} → Exec A → Exec A
transaction m env s =
    if env.fails s.step then (err db_error, tick s) else close env s.db (m env (tick s))
