-- ===== src/Sql/Atomic.antt =====
-- What holds before a transaction and after its body holds after it, also where it goes back.
use kelolakelas_identity_ser.Base.{Bool, true, false, if◌then◌else◌}
use kelolakelas_identity_ser.Schema.{Db}
use kelolakelas_identity_ser.Sql.{
  Result, ok, err, db_error, Env, State, Exec, tick, written, close, transaction,
}
use kelolakelas_identity_ser.Sql.Rules.{Post, Ensures}

if_state :
    {A : Type 0} (P : Db → Type 0) (b : Bool) (r q : Result A × State)
    → P r.1.db
    → P q.1.db
    → P (if◌then◌else◌ {A = Result A × State} b r q).1.db
if_state P true r q hr hq = hr
if_state P false r q hr hq = hq

module _ {A : Type 0} (m : Exec A) (env : Env) (s : State) where
  -- A property of the tables that holds before the transaction, and after its body where that
  -- succeeds, holds after the transaction.
  pub transaction_keeps :
      (P : Db → Type 0)
      → P s.db
      → Ensures env (tick s) m (λ a s'. P s'.db)
      → P (transaction m env s).1.db
  unfolding transaction
  transaction_keeps P before body =
      if_state P (env.fails s.step) _ _ before (closed (m env (tick s)) body.holds)
    where
      closed : (r : Result A × State) → Post (λ a s'. P s'.db) r → P (close env s.db r).1.db
      closed (ok a, s') h =
          if_state P (env.fails s'.step) (err db_error, written s' s.db) (ok a, tick s') before h
      closed (err x, s') h = before
