-- ===== src/Members/Safety.antt =====
-- What an administrator of a tenant cannot do through the member operations, and what they do.
use kelolakelas_identity_ser.Base.{
  ◌≡◌, ◌≢◌, nat_eq, ◌==◌, false, not, none, some, arith, rows, first-not_exists, exists-update_self,
}
use kelolakelas_identity_ser.Schema.{Uuid, Time, TenantMember}
use kelolakelas_identity_ser.Sql.{Env, State, ok}
use kelolakelas_identity_ser.Sql.Rules.{
  Ensures-ok, Ensures-guard, Ensures-transaction, bind_query, bind_required, bind_guard, bind_ask,
  bind_affect,
}
use kelolakelas_identity_ser.Members.{
  Caller, is_own_membership, update_role_tx, delete_member, find_member, live_member,
  soft_delete_member,
}
use kelolakelas_identity_ser.Members.Isolation.{
  HasKeys, holds_creator, rows-update_role, rows-delete_member,
}

deleted-dead :
    (tenant_id member_id : Uuid) (now : Time) (m : TenantMember)
    → live_member tenant_id member_id (record m { deleted_at = some now }) ≡ false
unfolding live_member
deleted-dead t i now m = ground arith

module _ (tenant_id member_id : Uuid) (actor : Caller) (env : Env) (s : State)
    (keys : HasKeys s.db) where
  -- Whatever the outcome, a change of role neither makes a member a system Creator nor takes that
  -- role away: the memberships that carry it are the same rows before and after, given that ids
  -- are primary keys.
  pub update_role_creators :
      (role_id : Uuid)
      → rows
          (holds_creator s.db)
          (update_role_tx tenant_id member_id role_id actor env s).1.db.tenant_members
        ≡ rows (holds_creator s.db) s.db.tenant_members
  unfolding holds_creator
  update_role_creators role_id =
      rows-update_role tenant_id member_id actor (holds_creator s.db) env s keys role_id
        λ now fresh m t own old. (old, fresh)

  -- Whatever the outcome, a change of role leaves every membership of another tenant, and every
  -- membership of the acting user, as it was, given that ids are primary keys and that the caller
  -- names a user.
  pub update_role_scope :
      (role_id : Uuid)
      → actor.user_id ≢ 0
      → (rows
            (λ m. not (m.tenant_id == tenant_id))
            (update_role_tx tenant_id member_id role_id actor env s).1.db.tenant_members
          ≡ rows (λ m. not (m.tenant_id == tenant_id)) s.db.tenant_members)
        × (rows
              (λ m. m.user_id == actor.user_id)
              (update_role_tx tenant_id member_id role_id actor env s).1.db.tenant_members
            ≡ rows (λ m. m.user_id == actor.user_id) s.db.tenant_members)
  unfolding is_own_membership
  update_role_scope role_id given = (
    rows-update_role tenant_id member_id actor _ env s keys role_id
        (λ now fresh m t own old. ground arith),
    rows-update_role tenant_id member_id actor _ env s keys role_id
        (λ now fresh m t own old. ground arith),
  )

  -- Whatever the outcome, a removal leaves every membership of another tenant, and every
  -- membership of the acting user, as it was, given that ids are primary keys and that the caller
  -- names a user.
  pub delete_member_scope :
      actor.user_id ≢ 0
      → (rows
            (λ m. not (m.tenant_id == tenant_id))
            (delete_member tenant_id member_id actor env s).1.db.tenant_members
          ≡ rows (λ m. not (m.tenant_id == tenant_id)) s.db.tenant_members)
        × (rows
              (λ m. m.user_id == actor.user_id)
              (delete_member tenant_id member_id actor env s).1.db.tenant_members
            ≡ rows (λ m. m.user_id == actor.user_id) s.db.tenant_members)
  unfolding is_own_membership
  delete_member_scope given = (
    rows-delete_member tenant_id member_id actor _ env s keys (λ now m t own. ground arith),
    rows-delete_member tenant_id member_id actor _ env s keys (λ now m t own. ground arith),
  )

-- After a removal that reports success, the membership can no longer be found in the tenant, so
-- that a second removal of it has nothing to remove.
pub delete_member_gone :
    (tenant_id member_id : Uuid) (actor : Caller) (env : Env) (s : State)
    → (delete_member tenant_id member_id actor env s).0 ≡ ok tt
    → find_member tenant_id member_id (delete_member tenant_id member_id actor env s).1.db ≡ none
unfolding delete_member soft_delete_member find_member
delete_member_gone t i actor env s h =
    Ensures-ok env s (delete_member t i actor) (λ _ s'. find_member t i s'.db ≡ none) tt h
      (Ensures-transaction _ (
        bind_query _ _ (
          bind_required _ _ _ λ member found. bind_guard _ _ _ λ own. bind_ask _ _ (
            bind_affect _ _ _ (
              Ensures-guard _ _ λ some_row.
                first-not_exists (λ m. m.id) (live_member t i) _
                  (exists-update_self (live_member t i) _ s.db.tenant_members
                    (λ m e. deleted-dead t i _ m)))))))
