-- ===== src/Login/Lockout.antt =====
-- The lockout of an account, and what a login needs to succeed.
use kelolakelas_identity_ser.Base.{
  length, ℕ, suc, ◌+◌, ◌<◌, ◌≡◌, ◌≢◌, refl, String, Bool, true, false, Option, none, some, List, [],
  ◌∷◌, arith, Text, All, All-update, ltb,
}
use kelolakelas_identity_ser.Schema.{Time, Db, User}
use kelolakelas_identity_ser.Sql.{
  Env, State, Exec, tick, Result, ok, err, continue, required, ◌>>=◌, invalid_credentials,
}
use kelolakelas_identity_ser.Sql.Rules.{
  Ensures, Ensures-pure, Ensures-transaction, Ensures-ok, Ensures-branch, Ensures-bind, bind_query,
  bind_required, bind_guard, bind_ask, bind_execute,
}
use kelolakelas_identity_ser.Sql.Atomic.{transaction_keeps}
use kelolakelas_identity_ser.Emails.{user_by_email}
use kelolakelas_identity_ser.Login.{
  locked, count_failure, clear_failures, save_attempts, settle, authenticate_body, authenticate_tx,
  authenticate,
}

-- The account after wrong passwords at the given times, one after the other.
pub fail_at : ℕ → Time → List Time → User → User
fail_at threshold duration [] u = u
fail_at threshold duration (t ∷ ts) u =
    fail_at threshold duration ts (count_failure threshold duration t u)

fail_at_counts :
    (threshold duration : ℕ) (ts : List Time) (u : User)
    → u.failed_login_attempts + length ts < threshold
    → (fail_at threshold duration ts u).failed_login_attempts ≡ u.failed_login_attempts + length ts
unfolding fail_at count_failure
fail_at_counts threshold duration [] u h = omega arith
fail_at_counts threshold duration (t ∷ ts) u h =
    ground (arith, fail_at_counts threshold duration ts (count_failure threshold duration t u))

fail_at_unlocked :
    (threshold duration : ℕ) (ts : List Time) (now : Time) (u : User)
    → u.failed_login_attempts + length ts < threshold
    → locked now u ≡ false
    → locked now (fail_at threshold duration ts u) ≡ false
unfolding fail_at count_failure locked
fail_at_unlocked threshold duration [] now u h free = free
fail_at_unlocked threshold duration (t ∷ ts) now u h free =
    ground
      (arith, fail_at_unlocked threshold duration ts now (count_failure threshold duration t u))

-- From a fresh count on an account that a check finds unlocked, the wrong password that makes
-- `threshold` in a row locks the account: for `duration` from that moment every check finds it
-- locked, from then on none does, and the count starts again at 0. After fewer wrong passwords
-- the check still finds it unlocked, and the count is their number.
pub fail_at_locks :
    (threshold duration : ℕ) (early ts : List Time) (t now : Time) (u : User)
    → u.failed_login_attempts ≡ 0
    → locked now u ≡ false
    → length early < threshold
    → suc (length ts) ≡ threshold
    → let before = fail_at threshold duration ts u in
      let after = count_failure threshold duration t before in
      (locked now (fail_at threshold duration early u) ≡ false)
      × ((fail_at threshold duration early u).failed_login_attempts ≡ length early)
      × (after.failed_login_attempts ≡ 0)
      × (locked now after ≡ ltb now (t + duration))
unfolding count_failure locked
fail_at_locks threshold duration early ts t now u z free few e = (
  fail_at_unlocked threshold duration early now u (omega arith) free,
  counted early few,
  ground (arith, fail_at_counts threshold duration ts u),
  ground (arith, fail_at_counts threshold duration ts u),
)
  where
    counted :
        (l : List Time)
        → length l < threshold
        → (fail_at threshold duration l u).failed_login_attempts ≡ length l
    counted l h = ground (arith, fail_at_counts threshold duration l u)

-- Every stored count of wrong passwords is below the threshold.
abbrev pub CountsBelow : ℕ → Db → Type 0
CountsBelow threshold d = All (λ u. u.failed_login_attempts < threshold) d.users

counted_below :
    (threshold duration : ℕ) (now : Time) (u : User)
    → 0 < threshold
    → (count_failure threshold duration now u).failed_login_attempts < threshold
unfolding count_failure
counted_below threshold duration now u pos = ground arith

cleared_below :
    (threshold : ℕ) (u : User)
    → 0 < threshold
    → (clear_failures u).failed_login_attempts < threshold
unfolding clear_failures
cleared_below threshold u pos = pos

required_state :
    (r : Result (Option User) × State) (env : Env)
    → (continue r.0 (required invalid_credentials) env r.1).1 ≡ r.1
unfolding required
required_state (ok none, s) env = refl
required_state (ok (some u), s) env = refl
required_state (err e, s) env = refl

after_required :
    (P : Db → Type 0) (m : Exec (Option User)) (env : Env) (s : State)
    → P (m env s).1.db
    → P ((m >>= required invalid_credentials) env s).1.db
unfolding ◌>>=◌
after_required P m env s h = rw (required_state (m env s) env) h

module _ (email : Text) (password : String) (threshold duration : ℕ) (env : Env) (s : State) where
  refused :
      (Q : Option User → State → Type 0) (user : User)
      → user_by_email env email s.db ≡ some user
      → ((n : ℕ) → locked (env.now n) user ≡ true)
      → Ensures env (tick s) (authenticate_body email password threshold duration) Q
  unfolding authenticate_body
  refused Q user found lock = bind_ask _ _ (
      bind_query _ _ (
        bind_required _ _ _ λ u e.
          bind_ask _ _
            (bind_guard _ _ _ λ unlocked. ground (arith, lock (suc (suc (suc s.step)))))))

module _ (email : Text) (password : String) (threshold duration : ℕ) (env : Env) (s : State) where
  settle-CountsBelow :
      (now : Time) (u : User) (s' : State)
      → 0 < threshold
      → (matches : Bool) → CountsBelow threshold s'.db
      → Ensures env s'
          (settle threshold duration now u matches)
          (λ _ s''. CountsBelow threshold s''.db)
  unfolding settle save_attempts
  settle-CountsBelow now u s' pos false h = bind_execute _ _ (
      Ensures-pure none (
        All-update (λ u. u.failed_login_attempts < threshold) _ _ s'.db.users
          (λ x p. counted_below threshold duration now u pos) h))
  settle-CountsBelow now u s' pos true h =
      Ensures-branch _ _ _
        (λ stale. bind_execute _ _ (
          Ensures-pure _ (
            All-update (λ u. u.failed_login_attempts < threshold) _ _ s'.db.users
              (λ x p. cleared_below threshold u pos) h)))
        (λ fresh. Ensures-pure _ h)

  -- A login attempt, whatever its outcome, keeps every count of wrong passwords below the
  -- threshold, provided that the threshold is positive.
  pub authenticate-CountsBelow :
      0 < threshold
      → CountsBelow threshold s.db
      → CountsBelow threshold (authenticate email password threshold duration env s).1.db
  unfolding authenticate authenticate_tx authenticate_body
  authenticate-CountsBelow pos h = after_required (CountsBelow threshold) _ env s (
      transaction_keeps _ env s (CountsBelow threshold) h (
        bind_ask _ _ (
          bind_query _ _ (
            bind_required _ _ _ λ user found.
              bind_ask _ _ (bind_guard _ _ _ λ unlocked. settle-CountsBelow _ user _ pos _ h)))))

  -- While the account of the address is locked at every reading of the clock, no password logs in
  -- and no table changes.
  pub authenticate-locked :
      (user : User)
      → user_by_email env email s.db ≡ some user
      → ((n : ℕ) → locked (env.now n) user ≡ true)
      → ((u : User) → (authenticate email password threshold duration env s).0 ≢ ok u)
        × ((authenticate email password threshold duration env s).1.db ≡ s.db)
  unfolding authenticate authenticate_tx
  authenticate-locked user found lock = (
    (λ u h.
        Ensures-ok env s (authenticate email password threshold duration) (λ _ _. ⊥) u h
          (Ensures-bind _ _ (
            Ensures-transaction _ (
              refused email password threshold duration env s
                (λ x s'. Ensures env (tick s') (required invalid_credentials x) (λ _ _. ⊥)) user
                found lock)))),
    after_required (λ d. d ≡ s.db) _ env s
        (transaction_keeps _ env s (λ d. d ≡ s.db) refl
          (refused email password threshold duration env s (λ _ s'. s'.db ≡ s.db) user found lock)),
  )
