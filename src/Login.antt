-- ===== src/Login.antt =====
-- internal/repository/login_attempts.go: password checks with a lockout for each account.
pub mod Lockout
pub mod Success
use kelolakelas_identity_ser.Base.{
  ℕ, ◌+◌, String, ◌==◌, nat_eq, Bool, true, false, ◌&&◌, ◌||◌, not, Option, none, some, List, [],
  ◌∷◌, if◌then◌else◌, Text, ltb, leb, update, is_some,
}
use kelolakelas_identity_ser.Schema.{Time, Uuid, Db, User}
use kelolakelas_identity_ser.Sql.{
  Env, Exec, pure, guard, branch, required, query, execute, ask, time_now, ◌>>=◌, ◌>>◌, transaction,
  invalid_credentials,
}
use kelolakelas_identity_ser.Members.{is_null}
use kelolakelas_identity_ser.Emails.{user_by_email}

-- user.LoginLockedUntil != nil && now.Before(*user.LoginLockedUntil)
unfoldable pub locked : Time → User → Bool
locked now u = elim u.login_locked_until [ none ↦ false | some until ↦ ltb now until ]

-- The columns that a wrong password writes.
unfoldable pub count_failure : ℕ → Time → Time → User → User
count_failure threshold duration now u =
    let attempts = u.failed_login_attempts + 1 in
    if leb threshold attempts
    then record u { failed_login_attempts = 0; login_locked_until = some (now + duration) }
    else record u { failed_login_attempts = attempts; login_locked_until = none }

unfoldable pub clear_failures : User → User
clear_failures u = record u { failed_login_attempts = 0; login_locked_until = none }

-- tx.Model(&user).Updates: UPDATE users SET … WHERE id = ? AND deleted_at IS NULL, with values
-- that the code computes from the row that it holds under lock
unfoldable pub save_attempts : User → Db → Db
save_attempts new d = record d {
  users =
      update (λ u. u.id == new.id && is_null u.deleted_at)
        (λ u. record u {
          failed_login_attempts = new.failed_login_attempts;
          login_locked_until = new.login_locked_until;
        })
        d.users;
}

-- What the transaction does once the row is locked and the password is compared.
unfoldable pub settle : ℕ → Time → Time → User → Bool → Exec (Option User)
settle threshold duration now u false = do
  execute (save_attempts (count_failure threshold duration now u))
  pure none
settle threshold duration now u true =
    branch (not (u.failed_login_attempts == 0) || is_some u.login_locked_until)
      (do execute (save_attempts (clear_failures u)); pure (some (clear_failures u)))
      (pure (some u))

unfoldable pub authenticate_body : Text → String → ℕ → Time → Exec (Option User)
authenticate_body email password threshold duration = do
  env ← ask (λ env n. env)
  user ← query (user_by_email env email)
  user ← required invalid_credentials user
  now ← time_now
  guard (not (locked now user)) invalid_credentials
  settle threshold duration now user (env.check_password password user.password_hash)

unfoldable pub authenticate_tx : Text → String → ℕ → Time → Exec (Option User)
authenticate_tx email password threshold duration =
    transaction (authenticate_body email password threshold duration)

unfoldable pub authenticate : Text → String → ℕ → Time → Exec User
authenticate email password threshold duration = do
  authenticated ← authenticate_tx email password threshold duration
  required invalid_credentials authenticated
