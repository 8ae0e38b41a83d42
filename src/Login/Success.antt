-- ===== src/Login/Success.antt =====
-- What a login rests on.
use kelolakelas_identity_ser.Base.{
  ℕ, suc, ◌≡◌, refl, String, nat_eq, Bool, true, false, some, arith, Text,
}
use kelolakelas_identity_ser.Schema.{Time, Db, User}
use kelolakelas_identity_ser.Sql.{Env, State, ok}
use kelolakelas_identity_ser.Sql.Rules.{
  Ensures, Ensures-pure, Ensures-required, Ensures-transaction, Ensures-ok, Ensures-branch,
  Ensures-bind, Ensures-weaken, bind_query, bind_required, bind_guard, bind_ask, bind_execute,
}
use kelolakelas_identity_ser.Emails.{user_by_email}
use kelolakelas_identity_ser.Login.{
  locked, clear_failures, settle, authenticate_body, authenticate_tx, authenticate,
}

-- A stored account of the address whose password matches and which some reading of the clock
-- finds unlocked.
pub record Entitled (env : Env) (email : Text) (password : String) (d : Db) (u : User)
    : Type 0 where
  pub account : User
  pub found : user_by_email env email d ≡ some account
  pub password_matches : env.check_password password account.password_hash ≡ true
  pub reading : ℕ
  pub unlocked : locked (env.now reading) account ≡ false
  pub same : u.id ≡ account.id

module _ (threshold duration : ℕ) (now : Time) (env : Env) (s : State) where
  settle_matches :
      (user : User) (matches : Bool)
      → Ensures env s
          (settle threshold duration now user matches)
          (λ o s'. (u : User) → o ≡ some u → (matches ≡ true) × (u.id ≡ user.id))
  unfolding settle clear_failures
  settle_matches user false = bind_execute _ _ (Ensures-pure _ λ u e. cc)
  settle_matches user true =
      Ensures-branch _ _ _ (λ a. bind_execute _ _ (Ensures-pure _ λ u e. (refl, ground (arith, e))))
        (λ b. Ensures-pure _ λ u e. (refl, ground (arith, e)))

-- A login that succeeds rests on a stored account of the address, whose password matches and which
-- a reading of the clock finds unlocked, and returns that account.
pub authenticate-Entitled :
    (email : Text) (password : String) (threshold duration : ℕ) (env : Env) (s : State) (u : User)
    → (authenticate email password threshold duration env s).0 ≡ ok u
    → Entitled env email password s.db u
unfolding authenticate authenticate_tx authenticate_body
authenticate-Entitled email password threshold duration env s u h =
    Ensures-ok env s (authenticate email password threshold duration)
      (λ u s'. Entitled env email password s.db u) u h
      (Ensures-bind _ _ (
        Ensures-transaction _ (
          bind_ask _ _ (
            bind_query _ _ (
              bind_required _ _ _ λ user found. bind_ask _ _ (
                bind_guard _ _ _ λ open_.
                  Ensures-weaken env _ _ _ _ (settle_matches threshold duration _ env _ user _)
                    λ o s' k. Ensures-required _ _ λ u e. record {
                      account = user;
                      found = found;
                      password_matches = (k u e).0;
                      reading = suc (suc (suc s.step));
                      unlocked = ground arith;
                      same = (k u e).1;
                    }))))))
