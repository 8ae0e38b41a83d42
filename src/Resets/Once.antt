-- ===== src/Resets/Once.antt =====
-- A reset token is good once, and a reset moves the session boundary forward.
use kelolakelas_identity_ser.Base.{
  ◌%◌, ◌<◌, ◌≡◌, ◌≢◌, refl, String, ◌==◌, nat_eq, text_eq, true, false, Option, none, some, List,
  [], ◌∷◌, arith, Text, All, All-delete, All-Within, first_holds, first-Within, update, text_beq,
}
use kelolakelas_identity_ser.Schema.{Time, Db, PasswordResetToken}
use kelolakelas_identity_ser.Sql.{Env, State, ok}
use kelolakelas_identity_ser.Sql.Rules.{
  Ensures-transaction, Ensures-execute, Ensures-ok, bind_query, bind_required, bind_guard, bind_ask,
  bind_execute,
}
use kelolakelas_identity_ser.Members.{is_null}
use kelolakelas_identity_ser.Resets.{
  second, token_by_hash, next_boundary, set_password, mark_used, drop_others, consume,
}

-- Every stored token with this hash has been used.
abbrev UsedUp : Text → Db → Type 0
UsedUp h d =
    All (λ (t : PasswordResetToken). text_beq t.token_hash h ≡ true → is_null t.used_at ≡ false)
      d.password_reset_tokens

mark_used-UsedUp :
    (h : Text) (now : Time) (ts : List PasswordResetToken)
    → All
        (λ (t : PasswordResetToken). text_beq t.token_hash h ≡ true → is_null t.used_at ≡ false)
        (update (λ t. t.token_hash == h) (λ t. record t { used_at = some now }) ts)
unfolding update
mark_used-UsedUp h now [] = tt
mark_used-UsedUp h now (t ∷ ts) = ((λ e. ground arith), mark_used-UsedUp h now ts)

module _ (token_hash : Text) (password_hash : String) (now : Time) (env : Env) (s : State) where
  -- A consumption that reports success leaves the token used, whatever else is stored.
  consume-UsedUp :
      (consume token_hash password_hash now env s).0 ≡ ok tt
      → UsedUp token_hash (consume token_hash password_hash now env s).1.db
  unfolding consume set_password mark_used drop_others
  consume-UsedUp h =
      Ensures-ok env s (consume token_hash password_hash now) (λ _ s'. UsedUp token_hash s'.db) tt h
        (Ensures-transaction _ (
          bind_query _ _ (
            bind_required _ _ _ λ hint eh. bind_query _ _ (
              bind_required _ _ _ λ user eu. bind_query _ _ (
                bind_required _ _ _ λ token et. bind_ask _ _ (
                  bind_guard _ _ _ λ fresh. bind_execute _ _ (
                    bind_execute _ _ (
                      Ensures-execute _ (
                        All-delete _ _ _
                          (mark_used-UsedUp token_hash now s.db.password_reset_tokens))))))))))

  -- A used token cannot be consumed, at any time and with any password.
  UsedUp-consume : UsedUp token_hash s.db → (consume token_hash password_hash now env s).0 ≢ ok tt
  unfolding consume token_by_hash
  UsedUp-consume used h =
      Ensures-ok env s (consume token_hash password_hash now) (λ _ _. ⊥) tt h
        (Ensures-transaction _ (
          bind_query _ _ (
            bind_required _ _ _ λ hint eh. bind_query _ _ (
              bind_required _ _ _ λ user eu. bind_query _ _ (
                bind_required _ _ _ λ token et. bind_ask _ _ (
                  bind_guard _ _ _ λ fresh. ground (
                    arith,
                    All-Within _ s.db.password_reset_tokens token used
                        (first-Within _ _ s.db.password_reset_tokens token et),
                    first_holds (λ (t : PasswordResetToken). 0) (λ t. t.token_hash == token_hash)
                        s.db.password_reset_tokens token et,
                  )))))))

-- A reset token is good for one reset: after one that reports success, any later consumption of
-- it fails, in every environment, at every time and with every password, as long as the tokens
-- stay as that reset left them.
pub consume_once :
    (token_hash : Text) (password_hash other_hash : String) (now later : Time) (env env' : Env)
    (s : State)
    → (consume token_hash password_hash now env s).0 ≡ ok tt
    → (consume token_hash other_hash later env' (consume token_hash password_hash now env s).1).0
      ≢ ok tt
consume_once t p o now later env env' s h =
    UsedUp-consume t o later env' _ (consume-UsedUp t p now env s h)

-- The boundary of a reset lies after the moment of the reset, after any earlier boundary, and on
-- a whole second wherever the earlier boundary did.
pub next_boundary_advances :
    (now : Time) (valid_after : Option Time)
    → (now < next_boundary now valid_after)
      × ((v : Time) → valid_after ≡ some v → v < next_boundary now valid_after)
      × (((v : Time) → valid_after ≡ some v → v % second ≡ 0)
          → next_boundary now valid_after % second ≡ 0)
unfolding next_boundary
next_boundary_advances now none = (omega arith, (λ v e. cc), (λ k. omega arith))
next_boundary_advances now (some w) =
    (ground arith, (λ v e. ground arith), (λ k. ground (arith, k w refl)))
