-- ===== src/Sql/Rules.antt =====
-- What holds after a call, one rule for each statement and for each way to join calls.
use kelolakelas_identity_ser.Base.{
  ℕ, ◌≡◌, refl, arith, Bool, true, false, Option, none, some, if◌then◌else◌,
}
use kelolakelas_identity_ser.Schema.{Db}
use kelolakelas_identity_ser.Sql.{
  Error, Result, ok, err, db_error, Env, State, Exec, tick, written, checked, continue, pure, throw,
  guard, branch, required, query, insert, execute, affect, ask, on_error, renamed, ◌>>=◌, close,
  transaction,
}

abbrev pub Post : {A : Type 0} → (A → State → Type 0) → Result A × State → Type 0
Post Q (ok a, s) = Q a s
Post Q (err e, s) = Unit

-- If the call succeeds, `Q` holds of its result and the state that it leaves.
pub record Ensures {A : Type 0} (env : Env) (s : State) (m : Exec A) (Q : A → State → Type 0)
    : Type 0 where
  pub holds : Post Q (m env s)

module _ {A : Type 0} (s : State) (Q : A → State → Type 0) where
  query-Post :
      (a : A) (b : Bool)
      → Q a (tick s)
      → Post Q (if b then (err db_error, tick s) else (ok a, tick s))
  query-Post a true h = tt
  query-Post a false h = h

  close-Post :
      (env : Env) (before : Db) (r : Result A × State)
      → Post (λ a s'. Q a (tick s')) r
      → Post Q (close env before r)
  close-Post env before (err e, s') h = tt
  close-Post env before (ok a, s') h = commit (env.fails s'.step)
    where
      commit :
          (b : Bool) → Post Q (if b then (err db_error, written s' before) else (ok a, tick s'))
      commit true = tt
      commit false = h

  begin-Post :
      (b : Bool) (r : Result A × State)
      → Post Q r
      → Post Q (if b then (err db_error, tick s) else r)
  begin-Post true r h = tt
  begin-Post false r h = h

renamed-Post :
    {A : Type 0} (Q : A → State → Type 0) (f : Error → Error) (r : Result A × State)
    → Post Q r
    → Post Q (renamed f r)
renamed-Post Q f (ok a, s) h = h
renamed-Post Q f (err e, s) h = tt

branch-Post :
    {A : Type 0} (Q : A → State → Type 0) (b : Bool) (r q : Result A × State)
    → (b ≡ true → Post Q r)
    → (b ≡ false → Post Q q)
    → Post Q (if b then r else q)
branch-Post Q true r q hr hq = hr refl
branch-Post Q false r q hr hq = hq refl

module _ (s : State) (Q : Unit {0} → State → Type 0) where
  guard-Post : (env : Env) (b : Bool) (e : Error) → (b ≡ true → Q tt s) → Post Q (guard b e env s)
  unfolding guard
  guard-Post env true e k = k refl
  guard-Post env false e k = tt

  checked-Post :
      (o : Option Error) (d : Db) → (o ≡ none → Q tt (written s d)) → Post Q (checked o s d)
  checked-Post none d k = k refl
  checked-Post (some e) d k = tt

module _ {A B : Type 0} (env : Env) (Q : B → State → Type 0) where
  bind-Post :
      (f : A → Exec B) (r : Result A × State)
      → Post (λ a s'. Ensures env s' (f a) Q) r
      → Post Q (continue r.0 f env r.1)
  bind-Post f (ok a, s) h = h.holds
  bind-Post f (err e, s) h = tt

module _ {A : Type 0} {env : Env} {s : State} {Q : A → State → Type 0} where
  pub Ensures-pure : (a : A) → Q a s → Ensures env s (pure a) Q
  unfolding pure
  Ensures-pure a h = record { holds = h }

  pub Ensures-throw : (e : Error) → Ensures env s (throw e) Q
  unfolding throw
  Ensures-throw e = record { holds = tt }

  pub Ensures-required :
      (e : Error) (o : Option A) → ((a : A) → o ≡ some a → Q a s) → Ensures env s (required e o) Q
  unfolding required
  Ensures-required e none k = record { holds = tt }
  Ensures-required e (some a) k = record { holds = k a refl }

  pub Ensures-query : (f : Db → A) → Q (f s.db) (tick s) → Ensures env s (query f) Q
  unfolding query
  Ensures-query f h = record { holds = query-Post s Q (f s.db) (env.fails s.step) h }

  Ensures-ask : (f : Env → ℕ → A) → Q (f env s.step) (tick s) → Ensures env s (ask f) Q
  unfolding ask
  Ensures-ask f h = record { holds = h }

  pub Ensures-branch :
      (b : Bool) (m n : Exec A)
      → (b ≡ true → Ensures env s m Q)
      → (b ≡ false → Ensures env s n Q)
      → Ensures env s (branch b m n) Q
  unfolding branch
  Ensures-branch b m n km kn = record {
    holds = branch-Post Q b _ _ (λ h. (km h).holds) (λ h. (kn h).holds);
  }

  pub Ensures-transaction :
      (m : Exec A)
      → Ensures env (tick s) m (λ a s'. Q a (tick s'))
      → Ensures env s (transaction m) Q
  unfolding transaction
  Ensures-transaction m h = record {
    holds = begin-Post s Q (env.fails s.step) _ (close-Post s Q env s.db (m env (tick s)) h.holds);
  }

module _ {env : Env} {s : State} {Q : Unit {0} → State → Type 0} where
  pub Ensures-guard : (b : Bool) (e : Error) → (b ≡ true → Q tt s) → Ensures env s (guard b e) Q
  Ensures-guard b e k = record { holds = guard-Post s Q env b e k }

  pub Ensures-insert :
      (constraint : Db → Option Error) (f : Db → Db)
      → (constraint s.db ≡ none → Q tt (written s (f s.db)))
      → Ensures env s (insert constraint f) Q
  unfolding insert
  Ensures-insert constraint f k = record {
    holds = begin-Post s Q (env.fails s.step) _ (checked-Post s Q (constraint s.db) (f s.db) k);
  }

  pub Ensures-execute : (f : Db → Db) → Q tt (written s (f s.db)) → Ensures env s (execute f) Q
  unfolding execute
  Ensures-execute f h = record { holds = begin-Post s Q (env.fails s.step) _ h }

module _ {A : Type 0} {env : Env} {s : State} {Q : A → State → Type 0} where
  Ensures-affect :
      (n : Db → A) (f : Db → Db) → Q (n s.db) (written s (f s.db)) → Ensures env s (affect n f) Q
  unfolding affect
  Ensures-affect n f h = record { holds = begin-Post s Q (env.fails s.step) _ h }

  pub Ensures-on_error :
      (f : Error → Error) (m : Exec A) → Ensures env s m Q → Ensures env s (on_error f m) Q
  unfolding on_error
  Ensures-on_error f m h = record { holds = renamed-Post Q f (m env s) h.holds }

module _ {A B : Type 0} {env : Env} {s : State} {Q : B → State → Type 0} where
  pub Ensures-bind :
      (m : Exec A) (f : A → Exec B)
      → Ensures env s m (λ a s'. Ensures env s' (f a) Q)
      → Ensures env s (m >>= f) Q
  unfolding ◌>>=◌
  Ensures-bind m f h = record { holds = bind-Post env Q f (m env s) h.holds }

module _ {A : Type 0} (env : Env) (s : State) (m : Exec A) where
  -- The rule put to use at a run that succeeded.
  pub Ensures-ok :
      (Q : A → State → Type 0) (a : A) → (m env s).0 ≡ ok a → Ensures env s m Q → Q a (m env s).1
  Ensures-ok Q a e h = at (m env s) e h.holds
    where
      at : (r : Result A × State) → r.0 ≡ ok a → Post Q r → Q a r.1
      at (ok b, s') e h = ground (arith, e, h)
      at (err x, s') e h = cc

module _ {A : Type 0} where
  weaker-Post :
      (P Q : A → State → Type 0) (r : Result A × State)
      → ((a : A) (s' : State) → P a s' → Q a s')
      → Post P r
      → Post Q r
  weaker-Post P Q (ok a, s') k h = k a s' h
  weaker-Post P Q (err e, s') k h = tt

  -- What a call ensures may be weakened.
  pub Ensures-weaken :
      (env : Env) (s : State) (m : Exec A) (P Q : A → State → Type 0)
      → Ensures env s m P
      → ((a : A) (s' : State) → P a s' → Q a s')
      → Ensures env s m Q
  Ensures-weaken env s m P Q h k = record { holds = weaker-Post P Q (m env s) k h.holds }

module _ {A : Type 0} where
  self-Post : (r : Result A × State) → Post (λ a s'. (r.0 ≡ ok a) × (r.1 ≡ s')) r
  self-Post (ok a, s') = (refl, refl)
  self-Post (err e, s') = tt

  -- A call that returns `a` and leaves `s'` is the run that does.
  pub Ensures-self :
      (env : Env) (s : State) (m : Exec A)
      → Ensures env s m (λ a s'. ((m env s).0 ≡ ok a) × ((m env s).1 ≡ s'))
  Ensures-self env s m = record { holds = self-Post (m env s) }

module _ {A H : Type 0} (env : Env) (s : State) (m : Exec A) (Q : A → State → Type 0) where
  given-Post : (r : Result A × State) → (H → Post Q r) → Post (λ a s'. H → Q a s') r
  given-Post (ok a, s') k = k
  given-Post (err e, s') k = tt

  -- A condition that does not depend on the run may be moved into what it ensures.
  pub Ensures-given : (H → Ensures env s m Q) → Ensures env s m (λ a s'. H → Q a s')
  Ensures-given k = record { holds = given-Post (m env s) (λ h. (k h).holds) }

-- The same for a statement that stands at the head of a block.
module _ {B : Type 0} {env : Env} {s : State} {Q : B → State → Type 0} where
  pub bind_query :
      {A : Type 0} (g : Db → A) (f : A → Exec B)
      → Ensures env (tick s) (f (g s.db)) Q
      → Ensures env s (query g >>= f) Q
  bind_query g f h = Ensures-bind (query g) f (Ensures-query g h)

  pub bind_required :
      {A : Type 0} (e : Error) (o : Option A) (f : A → Exec B)
      → ((a : A) → o ≡ some a → Ensures env s (f a) Q)
      → Ensures env s (required e o >>= f) Q
  bind_required e o f h = Ensures-bind (required e o) f (Ensures-required e o h)

  pub bind_guard :
      (b : Bool) (e : Error) (f : Unit {0} → Exec B)
      → (b ≡ true → Ensures env s (f tt) Q)
      → Ensures env s (guard b e >>= f) Q
  bind_guard b e f h = Ensures-bind (guard b e) f (Ensures-guard b e h)

  pub bind_ask :
      {A : Type 0} (g : Env → ℕ → A) (f : A → Exec B)
      → Ensures env (tick s) (f (g env s.step)) Q
      → Ensures env s (ask g >>= f) Q
  bind_ask g f h = Ensures-bind (ask g) f (Ensures-ask g h)

  pub bind_insert :
      (constraint : Db → Option Error) (g : Db → Db) (f : Unit {0} → Exec B)
      → (constraint s.db ≡ none → Ensures env (written s (g s.db)) (f tt) Q)
      → Ensures env s (insert constraint g >>= f) Q
  bind_insert constraint g f h =
      Ensures-bind (insert constraint g) f (Ensures-insert constraint g h)

  pub bind_execute :
      (g : Db → Db) (f : Unit {0} → Exec B)
      → Ensures env (written s (g s.db)) (f tt) Q
      → Ensures env s (execute g >>= f) Q
  bind_execute g f h = Ensures-bind (execute g) f (Ensures-execute g h)

  pub bind_affect :
      {A : Type 0} (n : Db → A) (g : Db → Db) (f : A → Exec B)
      → Ensures env (written s (g s.db)) (f (n s.db)) Q
      → Ensures env s (affect n g >>= f) Q
  bind_affect n g f h = Ensures-bind (affect n g) f (Ensures-affect n g h)
