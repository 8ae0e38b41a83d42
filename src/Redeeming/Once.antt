-- ===== src/Redeeming/Once.antt =====
-- A redeemed invitation is spent, and a spent one redeems nothing.
use kelolakelas_identity_ser.Base.{
  suc, ◌≡◌, ◌≢◌, refl, String, ◌==◌, nat_eq, string_eq, text_eq, eq_iff, Bool, true, false, some,
  List, [], ◌∷◌, arith, Text, All, inl, inr, count, All-Within, update, Within, Within-append_last,
  first_holds, first-Within,
}
use kelolakelas_identity_ser.Schema.{Db, User, Role, TenantMember, TenantInvitation}
use kelolakelas_identity_ser.Sql.{Env, State, ok, pure, branch}
use kelolakelas_identity_ser.Sql.Rules.{
  Ensures, Ensures-pure, Ensures-query, Ensures-transaction, Ensures-ok, Ensures-bind,
  Ensures-branch, Ensures-weaken, Ensures-on_error, Ensures-insert, bind_query, bind_required,
  bind_guard, bind_ask, bind_insert, bind_execute,
}
use kelolakelas_identity_ser.Members.{is_system_creator_role, find_role}
use kelolakelas_identity_ser.Emails.{normalize_email}
use kelolakelas_identity_ser.Registration.{
  member_of, add_user, add_user_wallet, add_member, create_user,
}
use kelolakelas_identity_ser.Invitations.{invitation_by_token, spend}
use kelolakelas_identity_ser.Redeeming.{
  save_invitation, creator_approved, approves, register_invited_body, register_invited_user_tx,
}

-- Every stored invitation with this token is spent.
abbrev Spent : String → Db → Type 0
Spent token d =
    All (λ (i : TenantInvitation). (i.token == token) ≡ true → i.is_used ≡ true)
      d.tenant_invitations

-- Ids and tokens are keys of the table of invitations.
abbrev pub TokenKey : String → Db → Type 0
TokenKey token d =
    (i j : TenantInvitation)
    → Within i d.tenant_invitations
    → Within j d.tenant_invitations
    → (i.token == token) ≡ true
    → (j.token == token) ≡ true
    → i.id ≡ j.id

save-Spent :
    (token : String) (i : TenantInvitation) (xs : List TenantInvitation)
    → i.is_used ≡ true
    → ((j : TenantInvitation) → Within j xs → (j.token == token) ≡ true → j.id ≡ i.id)
    → All
        (λ (j : TenantInvitation). (j.token == token) ≡ true → j.is_used ≡ true)
        (update (λ j. j.id == i.id) (λ j. i) xs)
unfolding update
save-Spent token i [] used key = tt
save-Spent token i (x ∷ xs) used key =
    ((λ e. ground (arith, key x (inl refl))), save-Spent token i xs used (λ j m. key j (inr m)))

module _ (token : String) (env : Env) (s : State) where
  Spent-register :
      (first_name last_name password : String) (u : User)
      → Spent token s.db
      → (register_invited_user_tx token first_name last_name password env s).0 ≢ ok u
  unfolding register_invited_user_tx register_invited_body invitation_by_token
  Spent-register f l p u spent h =
      Ensures-ok env s (register_invited_user_tx token f l p) (λ _ _. ⊥) u h
        (Ensures-transaction _ (
          bind_query _ _ (
            bind_required _ _ _ λ i found. bind_guard _ _ _ λ unused. ground (
              arith,
              All-Within _ s.db.tenant_invitations i spent (
                  first-Within (λ (i : TenantInvitation). i.id) (λ i. i.token == token)
                    s.db.tenant_invitations i found),
              first_holds (λ (i : TenantInvitation). i.id) (λ i. i.token == token)
                  s.db.tenant_invitations i found,
            ))))

  -- The check of a Creator invitation only reads, and lets one through that has been approved.
  creator_check :
      (i : TenantInvitation) (b : Bool) (email : Text)
      → Ensures env s (branch b (creator_approved env i email) (pure tt)) (λ _ s'.
        (s'.db ≡ s.db) × (b ≡ true → count (approves env i email) s.db.creator_requests ≡ 1))
  unfolding creator_approved
  creator_check i b email =
      Ensures-branch _ _ _
        (λ t. bind_query _ _ (
          bind_guard _ _ _ λ g. Ensures-bind _ _ (
            Ensures-on_error _ _ (
              Ensures-query _
                (bind_required _ _ _ λ t e. Ensures-pure tt (refl, λ y. ground arith))))))
        (λ f. Ensures-pure tt (refl, λ y. cc))

-- What a redemption leaves: the account, its active membership with the invited role in the
-- inviting tenant, under the invited address, and the invitation spent.
pub record Redeemed (env : Env) (token : String) (u : User) (before after : Db) : Type 0 where
  pub invitation : TenantInvitation
  pub stored : Within invitation before.tenant_invitations
  pub named : invitation.token ≡ token
  pub unused : invitation.is_used ≡ false
  pub address : u.email ≡ normalize_email env invitation.email
  pub user_stored : Within u after.users
  pub member : TenantMember
  pub member_stored : Within member after.tenant_members
  pub joins : (member.tenant_id ≡ invitation.tenant_id) × (member.role_id ≡ invitation.role_id)
  pub belongs : (member.user_id ≡ u.id) × (member.is_active ≡ true)
  pub approved :
      (r : Role)
      → find_role invitation.role_id before ≡ some r
      → is_system_creator_role r ≡ true
      → count
          (approves env invitation (normalize_email env invitation.email))
          before.creator_requests
        ≡ 1
  pub spent : TokenKey token before → Spent token after

module _ (token first_name last_name password : String) (env : Env) (s : State) where
  -- A redemption that succeeds makes the account under the invited address and its active
  -- membership in the inviting tenant with the invited role, from an unused invitation with that
  -- token, which is spent afterwards if no two invitations share the token; the system role Creator
  -- is only granted if exactly one approved request stands behind the invitation.
  pub register_invited-Redeemed :
      (u : User)
      → (register_invited_user_tx token first_name last_name password env s).0 ≡ ok u
      → Redeemed env token u s.db
          (register_invited_user_tx token first_name last_name password env s).1.db
  unfolding register_invited_user_tx register_invited_body invitation_by_token create_user add_user
      add_member add_user_wallet save_invitation
  register_invited-Redeemed u h =
      Ensures-ok env s (register_invited_user_tx token first_name last_name password)
        (λ u s'. Redeemed env token u s.db s'.db) u h
        (Ensures-transaction _ (
          bind_query _ _ (
            bind_required _ _ _ λ i found. bind_guard _ _ _ λ unused. bind_ask _ _ (
              bind_guard _ _ _ λ inside. bind_query _ _ (
                bind_required _ _ _ λ role hr. bind_ask _ _ (
                  Ensures-bind _ _ (
                    Ensures-weaken env _ _ _ _
                      (creator_check token env _ i (is_system_creator_role role)
                        (normalize_email env i.email))
                      λ _ s1 known. bind_query _ _ (
                        bind_guard _ _ _ λ free. bind_required _ _ _ λ hash hh. bind_ask _ _ (
                          Ensures-bind _ _ (
                            Ensures-on_error _ _ (
                              Ensures-insert _ _ λ c1. bind_ask _ _ (
                                bind_ask _ _ (
                                  bind_insert _ _ _ λ c2. bind_ask _ _ (
                                    bind_insert _ _ _ λ c3. bind_ask _ _ (
                                      bind_execute _ _ (
                                        Ensures-pure _ record {
                                          invitation = i;
                                          stored =
                                              first-Within (λ (i : TenantInvitation). i.id)
                                                (λ i. i.token == token) s.db.tenant_invitations i
                                                found;
                                          named = ground (
                                            arith,
                                            eq_iff i.token token,
                                            first_holds (λ (i : TenantInvitation). i.id)
                                                (λ i. i.token == token) s.db.tenant_invitations i
                                                found,
                                          );
                                          unused = ground arith;
                                          address = refl;
                                          user_stored = Within-append_last s1.db.users _;
                                          member =
                                              member_of (env.fresh (suc (suc (suc s1.step))))
                                                i.tenant_id (env.fresh (suc s1.step)) i.role_id
                                                (env.now (suc (suc (suc (suc s1.step)))));
                                          member_stored = Within-append_last s1.db.tenant_members _;
                                          joins = (refl, refl);
                                          belongs = (refl, refl);
                                          approved = λ r e c. known.1 (ground (arith, e, hr, c));
                                          spent = λ key.
                                              save-Spent token (spend _ i) s1.db.tenant_invitations
                                                refl
                                                λ j m e.
                                                  key j i (rw (← known.0) m)
                                                    (first-Within (λ (i : TenantInvitation). i.id)
                                                      (λ i. i.token == token)
                                                      s.db.tenant_invitations i found)
                                                    e
                                                    (first_holds (λ (i : TenantInvitation). i.id)
                                                      (λ i. i.token == token)
                                                      s.db.tenant_invitations i found);
                                        }))))))))))))))))

-- An invitation is redeemed at most once: after a redemption, no later one with its token
-- succeeds on the tables that it left, in any environment and for anybody, given that no two
-- invitations share the token.
pub register_invited_once :
    (token f l p f' l' p' : String) (env env' : Env) (s : State) (u w : User)
    → TokenKey token s.db
    → (register_invited_user_tx token f l p env s).0 ≡ ok u
    → (register_invited_user_tx token f' l' p' env'
        (register_invited_user_tx token f l p env s).1).0
      ≢ ok w
register_invited_once token f l p f' l' p' env env' s u w key h =
    Spent-register token env' _ f' l' p' w
      ((register_invited-Redeemed token f l p env s u h).spent key)
