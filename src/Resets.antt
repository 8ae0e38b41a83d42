-- ===== src/Resets.antt =====
-- internal/repository/password_reset_repository.go: one-time reset tokens, and the boundary that
-- revokes the sessions issued before a reset.
pub mod Once
use kelolakelas_identity_ser.Base.{
  ℕ, ◌+◌, ◌*◌, ◌/◌, String, ◌==◌, nat_eq, text_eq, Bool, true, false, ◌&&◌, ◌||◌, not, Option, none,
  some, List, [], ◌∷◌, ◌++◌, if◌then◌else◌, Text, ltb, first, exists, update, delete, is_some,
}
use kelolakelas_identity_ser.Schema.{Time, Uuid, Db, User, PasswordResetToken}
use kelolakelas_identity_ser.Sql.{
  Error, Exec, pure, guard, required, query, insert, execute, time_now, ◌>>=◌, ◌>>◌, transaction,
  record_not_found, invalid_reset_token, unique_violation,
}
use kelolakelas_identity_ser.Members.{is_null}

-- time.Second
abbrev pub second : Time
second = 1_000_000_000

-- First(&user, "id = ?"), with gorm's soft-delete scope
unfoldable pub user_by_id : Uuid → Db → Option User
user_by_id id d = first (λ u. u.id) (λ u. u.id == id && is_null u.deleted_at) d.users

-- Where("token_hash = ?").Take
unfoldable pub token_by_hash : Text → Db → Option PasswordResetToken
token_by_hash token_hash d =
    first (λ t. 0) (λ t. t.token_hash == token_hash) d.password_reset_tokens

-- The primary key of password_reset_tokens
unfoldable pub token_constraint : Text → Db → Option Error
token_constraint token_hash d =
    if exists (λ t. t.token_hash == token_hash) d.password_reset_tokens
    then some (unique_violation "password_reset_tokens_pkey")
    else none

unfoldable pub issue : Uuid → Text → Time → Exec (Unit {0})
issue user_id token_hash expires_at = transaction do
  user ← query (user_by_id user_id)
  user ← required record_not_found user
  execute (λ d. record d {
    password_reset_tokens = delete (λ t. t.user_id == user_id) d.password_reset_tokens;
  })
  insert (token_constraint token_hash) (λ d. record d {
    password_reset_tokens =
        d.password_reset_tokens
        ++ record {
          token_hash = token_hash;
          user_id = user_id;
          expires_at = expires_at;
          used_at = none;
        }
          ∷ [];
  })

-- now.UTC().Truncate(time.Second).Add(time.Second), moved on past an earlier boundary
unfoldable pub next_boundary : Time → Option Time → Time
next_boundary now none = now / second * second + second
next_boundary now (some valid_after) =
    if not (ltb valid_after (now / second * second + second))
    then valid_after + second
    else now / second * second + second

unfoldable pub set_password : Uuid → String → Time → Db → Db
set_password user_id password_hash boundary d = record d {
  users =
      update (λ u. u.id == user_id && is_null u.deleted_at)
        (λ u. record u { password_hash = password_hash; session_valid_after = some boundary })
        d.users;
}

unfoldable pub mark_used : Text → Time → Db → Db
mark_used token_hash now d = record d {
  password_reset_tokens =
      update (λ t. t.token_hash == token_hash) (λ t. record t { used_at = some now })
        d.password_reset_tokens;
}

unfoldable pub drop_others : Uuid → Text → Db → Db
drop_others user_id token_hash d = record d {
  password_reset_tokens =
      delete (λ t. t.user_id == user_id && not (t.token_hash == token_hash))
        d.password_reset_tokens;
}

unfoldable pub consume : Text → String → Time → Exec (Unit {0})
consume token_hash password_hash now = transaction do
  hint ← query (token_by_hash token_hash)
  hint ← required invalid_reset_token hint
  user ← query (user_by_id hint.user_id)
  user ← required invalid_reset_token user
  token ← query (token_by_hash token_hash)
  token ← required invalid_reset_token token
  clock ← time_now
  guard (is_null token.used_at && ltb clock token.expires_at) invalid_reset_token
  execute (set_password user.id password_hash (next_boundary now user.session_valid_after))
  execute (mark_used token_hash now)
  execute (drop_others user.id token_hash)

-- SessionValidAfter
unfoldable pub session_valid_after : Uuid → Exec (Option Time)
session_valid_after user_id = do
  user ← query (user_by_id user_id)
  user ← required record_not_found user
  pure user.session_valid_after
