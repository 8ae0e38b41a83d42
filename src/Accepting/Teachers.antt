-- ===== src/Accepting/Teachers.antt =====
-- Who may accept an invitation with an account, and as what.
use kelolakelas_identity_ser.Base.{
  ◌≡◌, refl, sym, ◌∙◌, String, ◌==◌, nat_eq, string_eq, text_eq, text_beq_eq, eq_iff, true, false,
  ◌&&◌, Option, none, some, arith, Within, Within-append_last, first_holds, first-Within,
}
use kelolakelas_identity_ser.Schema.{Uuid, Db, User, Role, TenantMember, TenantInvitation}
use kelolakelas_identity_ser.Sql.{Env, State, steps_after, ok, branch, required, invitation_used}
use kelolakelas_identity_ser.Sql.Rules.{
  Ensures, Ensures-pure, Ensures-required, Ensures-guard, Ensures-transaction, Ensures-ok,
  Ensures-branch, Ensures-bind, Ensures-weaken, bind_query, bind_required, bind_guard, bind_ask,
  bind_insert, bind_execute,
}
use kelolakelas_identity_ser.Members.{is_null, find_role}
use kelolakelas_identity_ser.Emails.{normalize_email}
use kelolakelas_identity_ser.Resets.{user_by_id}
use kelolakelas_identity_ser.Registration.{add_member}
use kelolakelas_identity_ser.Sessions.{Claims, in_date, issued_before, valid_tenant_user}
use kelolakelas_identity_ser.Invitations.{invitation_by_token, invitation_by_id, any_membership}
use kelolakelas_identity_ser.Accepting.{
  existing_teacher, live_or_none, invitation_target_member, accepted_by, member_or_new,
  accept_invitation, accept_unused, accept_existing,
}

-- An active membership of the user in the tenant.
abbrev Joined : Uuid → Uuid → TenantMember → Type 0
Joined tenant_id user_id m =
    (m.tenant_id ≡ tenant_id) × (m.user_id ≡ user_id) × (m.is_active ≡ true) × (m.deleted_at ≡ none)

module _ (env : Env) (s : State) (tenant_id user_id : Uuid) where
  live_or_none-Joined :
      (o : Option TenantMember)
      → any_membership tenant_id user_id s.db ≡ o
      → Ensures env s (live_or_none o) (λ r s'.
        (s'.db ≡ s.db)
        × ((m : TenantMember)
            → r ≡ some m
            → Within m s.db.tenant_members × Joined tenant_id user_id m))
  unfolding live_or_none any_membership
  live_or_none-Joined none e = Ensures-pure none (refl, λ m h. cc)
  live_or_none-Joined (some k) e = bind_guard _ _ _ λ live. Ensures-pure (some k) (
    refl,
    λ m h. (
      first-Within (λ (m : TenantMember). m.id)
          (λ m. m.tenant_id == tenant_id && m.user_id == user_id) s.db.tenant_members m (e ∙ h),
      (
        ground (
          arith,
          first_holds (λ (m : TenantMember). m.id)
              (λ m. m.tenant_id == tenant_id && m.user_id == user_id) s.db.tenant_members m (e ∙ h),
        ),
        ground (
          arith,
          first_holds (λ (m : TenantMember). m.id)
              (λ m. m.tenant_id == tenant_id && m.user_id == user_id) s.db.tenant_members m (e ∙ h),
        ),
        ground (arith, h),
        ground (arith, h),
      ),
    ),
  )

module _ (env : Env) (s : State) (user_id : Uuid) (i : TenantInvitation) where
  member_or_new-Joined :
      (o : Option TenantMember)
      → ((m : TenantMember)
          → o ≡ some m
          → Within m s.db.tenant_members × Joined i.tenant_id user_id m)
      → Ensures env s
          (member_or_new user_id i o)
          (λ m s'. Within m s'.db.tenant_members × Joined i.tenant_id user_id m)
  unfolding member_or_new add_member
  member_or_new-Joined none k = bind_ask _ _ (
      bind_ask _ _ (
        bind_ask _ _ (
          bind_insert _ _ _ λ c.
            Ensures-pure _ (Within-append_last s.db.tenant_members _, (refl, refl, refl, refl)))))
  member_or_new-Joined (some m) k = Ensures-pure m (k m refl)

  accepted_by-some :
      (o : Option TenantMember) (m : TenantMember) → accepted_by i o ≡ some m → o ≡ some m
  accepted_by-some none m e = cc
  accepted_by-some (some k) m e = ground (arith, e)

module _ (env : Env) (s : State) (user_id : Uuid) (i : TenantInvitation) where
  outcome-Joined :
      (o : Option TenantMember)
      → ((m : TenantMember)
          → o ≡ some m
          → Within m s.db.tenant_members × Joined i.tenant_id user_id m)
      → Ensures env s
          (branch i.is_used
            (required invitation_used (accepted_by i o))
            (accept_unused user_id i o))
          (λ m s'. Within m s'.db.tenant_members × Joined i.tenant_id user_id m)
  unfolding accept_unused accept_invitation
  outcome-Joined o k =
      Ensures-branch _ _ _
        (λ used. Ensures-required _ _ λ m e. k m (accepted_by-some env s user_id i o m e))
        (λ unused. bind_ask _ _ (
          bind_guard _ _ _ λ fresh. Ensures-bind _ _ (
            Ensures-weaken env _ _ _ _ (member_or_new-Joined env _ user_id i o k)
              λ m s' h. bind_ask _ _ (bind_execute _ _ (Ensures-pure m h)))))

module _ (env : Env) (s : State) (user_id : Uuid) where
  user_by_id-id : (user : User) → user_by_id user_id s.db ≡ some user → user.id ≡ user_id
  unfolding user_by_id
  user_by_id-id user eu = ground (
    arith,
    first_holds (λ (x : User). x.id) (λ x. x.id == user_id && is_null x.deleted_at) s.db.users user
        eu,
  )

Joined-same :
    (tenant_id a b : Uuid) (m : TenantMember) → a ≡ b → Joined tenant_id a m → Joined tenant_id b m
Joined-same tenant_id a b m e h = rw (← e) h

Joined-moved :
    (d d' : Db) (tenant_id a b : Uuid) (m : TenantMember)
    → d ≡ d'
    → a ≡ b
    → Within m d'.tenant_members × Joined tenant_id a m
    → Within m d.tenant_members × Joined tenant_id b m
Joined-moved d d' tenant_id a b m same e h = (rw same h.0, Joined-same tenant_id a b m e h.1)

-- What an acceptance rests on and leaves.
pub record Accepted (env : Env) (c : Claims) (token : String) (user_id : Uuid) (m : TenantMember)
    (s : State) (after : Db) : Type 0 where
  pub hint : TenantInvitation
  pub invitation : TenantInvitation
  pub user : User
  pub role : Role
  pub hinted : Within hint s.db.tenant_invitations × (hint.token ≡ token)
  pub invited : Within invitation s.db.tenant_invitations × (invitation.id ≡ hint.id)
  pub user_stored : Within user s.db.users × (user.id ≡ user_id)
  pub address : normalize_email env user.email ≡ normalize_email env invitation.email
  pub unexpired : in_date (env.now (steps_after 5 s.step)) c.expires_at ≡ true
  pub session : issued_before c.issued_at user.session_valid_after ≡ false
  pub parent : user.is_parent ≡ false
  pub role_stored : Within role s.db.roles × (role.id ≡ invitation.role_id)
  pub teacher : (role.tenant_id ≡ none) × (role.name ≡ "Teacher")
  pub member_stored : Within m after.tenant_members
  pub joined : Joined invitation.tenant_id user_id m

-- An invitation is accepted only by a user whose session has not expired at a reading of the clock
-- during the call and is no older than the boundary of the sessions, who is no parent and whose
-- canonical address is the invited one, and only for the system role Teacher; the member that is
-- returned is stored afterwards, an active membership of that user in the inviting tenant.
pub accept_existing-Accepted :
    (token : String) (user_id : Uuid) (c : Claims) (env : Env) (s : State) (m : TenantMember)
    → (accept_existing token user_id (λ u. valid_tenant_user u c) env s).0 ≡ ok m
    → Accepted env c token user_id m s
        (accept_existing token user_id (λ u. valid_tenant_user u c) env s).1.db
unfolding accept_existing valid_tenant_user existing_teacher invitation_target_member
    invitation_by_token invitation_by_id user_by_id find_role
accept_existing-Accepted token user_id c env s m h =
    Ensures-ok env s (accept_existing token user_id (λ u. valid_tenant_user u c))
      (λ m s'. Accepted env c token user_id m s s'.db) m h
      (Ensures-transaction _ (
        bind_query _ _ (
          bind_required _ _ _ λ hint eh. bind_query _ _ (
            bind_required _ _ _ λ tenant et. bind_query _ _ (
              bind_required _ _ _ λ i ei. bind_query _ _ (
                bind_required _ _ _ λ user eu. Ensures-bind _ _ (
                  bind_ask _ _ (
                    bind_guard _ _ _ λ fresh. bind_guard _ _ _ λ current. Ensures-guard _ _ λ plain.
                      bind_ask _ _ (
                        bind_guard _ _ _ λ address. Ensures-bind _ _ (
                          bind_query _ _ (
                            bind_required _ _ _ λ known ek. bind_guard _ _ _ λ adult.
                              bind_query _ _ (
                                bind_required _ _ _ λ role er. bind_guard _ _ _ λ teacher.
                                  bind_query _ _ (
                                    Ensures-guard _ _ λ teaching. Ensures-bind _ _ (
                                      bind_query _ _ (
                                        Ensures-weaken env _ _ _ _
                                          (live_or_none-Joined env _ i.tenant_id user_id _ refl)
                                          λ o s1 live. Ensures-bind _ _ (
                                            bind_ask _ _ (
                                              bind_guard _ _ _ λ fresh'.
                                                bind_guard _ _ _ λ current'.
                                                  Ensures-guard _ _ λ plain'.
                                                    Ensures-weaken env _ _
                                                      (λ m s'.
                                                        Within m s'.db.tenant_members
                                                        × Joined i.tenant_id user.id m)
                                                      _
                                                      (outcome-Joined env _ user.id i o (λ k e.
                                                        Joined-moved s1.db s.db i.tenant_id user_id
                                                          user.id k live.0
                                                          (sym
                                                            (user_by_id-id env s user_id user eu))
                                                          (live.1 k e)))
                                                      λ m s' q. record {
                                                        hint = hint;
                                                        invitation = i;
                                                        user = user;
                                                        role = role;
                                                        hinted = (
                                                          first-Within
                                                            (λ (x : TenantInvitation). x.id)
                                                            (λ x. x.token == token)
                                                            s.db.tenant_invitations hint eh,
                                                          ground (
                                                            arith,
                                                            eq_iff hint.token token,
                                                            first_holds
                                                            (λ (x : TenantInvitation). x.id)
                                                            (λ x. x.token == token)
                                                            s.db.tenant_invitations hint eh,
                                                          ),
                                                        );
                                                        invited = (
                                                          first-Within
                                                            (λ (x : TenantInvitation). x.id)
                                                            (λ x. x.id == hint.id)
                                                            s.db.tenant_invitations i ei,
                                                          ground (
                                                            arith,
                                                            first_holds
                                                            (λ (x : TenantInvitation). x.id)
                                                            (λ x. x.id == hint.id)
                                                            s.db.tenant_invitations i ei,
                                                          ),
                                                        );
                                                        user_stored = (
                                                          first-Within (λ (x : User). x.id)
                                                            (λ x.
                                                            x.id == user_id && is_null x.deleted_at)
                                                            s.db.users user eu,
                                                          user_by_id-id env s user_id user eu,
                                                        );
                                                        address =
                                                            text_beq_eq
                                                            (normalize_email env user.email)
                                                            (normalize_email env i.email) address;
                                                        unexpired = fresh;
                                                        session = ground arith;
                                                        parent = ground arith;
                                                        role_stored = (
                                                          first-Within (λ (x : Role). x.id)
                                                            (λ x. x.id == i.role_id) s.db.roles role
                                                            er,
                                                          ground (
                                                            arith,
                                                            first_holds (λ (x : Role). x.id)
                                                            (λ x. x.id == i.role_id) s.db.roles role
                                                            er,
                                                          ),
                                                        );
                                                        teacher = (
                                                          ground arith,
                                                          ground
                                                            (arith, eq_iff role.name "Teacher"),
                                                        );
                                                        member_stored = q.0;
                                                        joined =
                                                            rw
                                                            (← user_by_id-id env s user_id user eu)
                                                            q.1;
                                                      })))))))))))))))))
