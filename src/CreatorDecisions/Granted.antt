-- ===== src/CreatorDecisions/Granted.antt =====
-- What the approval of a request grants.
use kelolakelas_identity_ser.Base.{
  Within-update, ◌⊎◌, ◌&&◌, ◌≡◌, refl, ◌==◌, nat_eq, string_eq, text_eq, true, false, Option, none,
  some, arith, Within, Within-append_last, first_holds, first-Within,
}
use kelolakelas_identity_ser.Schema.{Uuid, Db, Role, TenantMember, TenantInvitation, CreatorRequest}
use kelolakelas_identity_ser.Members.{is_null}
use kelolakelas_identity_ser.Sql.{Env, State}
use kelolakelas_identity_ser.Sql.Rules.{
  Ensures, Ensures-execute, Ensures-insert, bind_guard, bind_ask,
}
use kelolakelas_identity_ser.Registration.{add_member, system_creator_role}
use kelolakelas_identity_ser.Invitations.{any_membership}
use kelolakelas_identity_ser.CreatorDecisions.{make_creator, grant_creator}

-- What an approval has granted: the system role Creator, as an active membership of the account that
-- the request is about, or as an open invitation of its address.
pub record Granted (r q : CreatorRequest) (before after : Db) : Type 0 where
  pub role : Role
  pub creator : system_creator_role before ≡ some role
  pub given :
      ((m : TenantMember) × Within m after.tenant_members
        × (m.tenant_id ≡ r.tenant_id)
        × (q.target_user_id ≡ some m.user_id)
        × (m.role_id ≡ role.id)
        × (m.is_active ≡ true)
        × (m.deleted_at ≡ none))
      ⊎ ((i : TenantInvitation) × Within i after.tenant_invitations
          × (i.tenant_id ≡ r.tenant_id)
          × (i.email ≡ r.target_email)
          × (i.role_id ≡ role.id)
          × (i.is_used ≡ false)
          × (q.invitation_id ≡ some i.id))

module _ (env : Env) (s : State) (r : CreatorRequest) where
  pub grant_creator_keeps :
      (user_id : Uuid) (role : Role) (o : Option TenantMember)
      → any_membership r.tenant_id user_id s.db ≡ o
      → Ensures env s (grant_creator r user_id role o) (λ _ s'.
        (s'.db.creator_requests ≡ s.db.creator_requests)
        × (m : TenantMember) × Within m s'.db.tenant_members
        × (m.tenant_id ≡ r.tenant_id)
        × (m.user_id ≡ user_id)
        × (m.role_id ≡ role.id)
        × (m.is_active ≡ true)
        × (m.deleted_at ≡ none))
  unfolding grant_creator add_member make_creator any_membership
  grant_creator_keeps user_id role none e = bind_ask _ _ (
      bind_ask _ _ (
        Ensures-insert _ _
          λ c. (refl, _, Within-append_last s.db.tenant_members _, refl, refl, refl, refl, refl)))
  grant_creator_keeps user_id role (some m) e = bind_guard _ _ _ λ live. bind_guard _ _ _ λ b.
      bind_ask _ _ (
        let held =
          first_holds (λ (m : TenantMember). m.id)
            (λ m. m.tenant_id == r.tenant_id && m.user_id == user_id) s.db.tenant_members m e in
        Ensures-execute _ (
          refl,
          _,
          Within-update (λ k. k.id == m.id && is_null k.deleted_at) _ s.db.tenant_members m
              (first-Within (λ (m : TenantMember). m.id)
                (λ m. m.tenant_id == r.tenant_id && m.user_id == user_id) s.db.tenant_members m e)
              (ground arith),
          ground arith,
          ground arith,
          refl,
          ground arith,
          ground arith,
        ))
