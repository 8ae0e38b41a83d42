-- ===== src/Registration/Outcome.antt =====
-- What a registration needs, and what it leaves.
use kelolakelas_identity_ser.Base.{
  suc, ◌≡◌, ◌⊎◌, refl, inl, inr, ◌==◌, nat_eq, string_eq, text_eq, true, Option, none, some, ◌&&◌,
  arith, eq_iff, Within, Within-append_last, first_holds, first-Within,
}
use kelolakelas_identity_ser.Schema.{Uuid, Db, User, Tenant, Role, TenantMember, ConfigurationHead}
use kelolakelas_identity_ser.Sql.{Env, State, ok, tick}
use kelolakelas_identity_ser.Sql.Rules.{
  Ensures, Ensures-pure, Ensures-throw, Ensures-branch, Ensures-insert, Ensures-transaction,
  Ensures-ok, Ensures-bind, Ensures-on_error, Ensures-weaken, bind_query, bind_required, bind_guard,
  bind_ask, bind_insert,
}
use kelolakelas_identity_ser.Members.{is_null}
use kelolakelas_identity_ser.Configuration.{
  Application, registration_setting, find_head, last_applied, applied_open, true_text,
  registration_open_in_tx,
}
use kelolakelas_identity_ser.Registration.{
  add_user, create_user, add_tenant, add_tenant_wallet, add_user_wallet, add_member, add_role,
  system_creator_role, creator_or_new, canonical, empty_tenant_wallet, empty_user_wallet,
  register_tenant_body, register_tenant_tx,
}

-- What lets a new tenant in: the head of the policy is there, and no version has been written, or
-- none has been applied, or the newest application says true.
pub record NotClosed (d : Db) : Type 0 where
  pub head : ConfigurationHead
  pub found : find_head registration_setting d ≡ some head
  pub effective :
      (head.latest_version ≡ 0)
      ⊎ (last_applied registration_setting d ≡ none)
      ⊎ ((a : Application) × (last_applied registration_setting d ≡ some a)
          × (a.version.value ≡ true_text))

module _ (env : Env) (s : State) where
  applied_open_holds :
      (d : Db) (head : ConfigurationHead)
      → find_head registration_setting d ≡ some head
      → (o : Option Application) → last_applied registration_setting d ≡ o
      → s.db ≡ d
      → Ensures env s (applied_open o) (λ b s'. (s'.db ≡ d) × (b ≡ true → NotClosed d))
  unfolding applied_open
  applied_open_holds d head found none e same =
      Ensures-pure true (same, λ h. record { head = head; found = found; effective = inr (inl e) })
  applied_open_holds d head found (some a) e same =
      Ensures-branch _ _ _ (λ bad. Ensures-throw _)
        λ good. Ensures-pure _ (
          same,
          λ h. record { head = head; found = found; effective = inr (inr (a, e, ground arith)) },
        )

module _ (env : Env) (s : State) where
  registration_open_in_tx_holds :
      Ensures env s registration_open_in_tx (λ b s'. (s'.db ≡ s.db) × (b ≡ true → NotClosed s.db))
  unfolding registration_open_in_tx
  registration_open_in_tx_holds = bind_query _ _ (
      bind_required _ _ _ λ head found.
        Ensures-branch _ _ _
          (λ unset.
            Ensures-pure true
              (refl, λ h. record { head = head; found = found; effective = inl (ground arith) }))
          (λ set. bind_query _ _ (
            applied_open_holds env (tick (tick s)) s.db head found
              (last_applied registration_setting s.db) refl refl)))

  -- The role that the membership gets.
  abbrev IsCreator : Db → Role → Db → Type 0
  IsCreator before r after =
      Within r after.roles
      × (r.name ≡ "Creator")
      × (r.tenant_id ≡ none)
      × (after.users ≡ before.users)
      × (after.tenants ≡ before.tenants)
      × (after.tenant_wallets ≡ before.tenant_wallets)
      × (after.user_wallets ≡ before.user_wallets)

  creator_or_new_holds :
      (o : Option Role)
      → system_creator_role s.db ≡ o
      → Ensures env s (creator_or_new o) (λ r s'. IsCreator s.db r s'.db)
  unfolding creator_or_new system_creator_role add_role
  creator_or_new_holds none e = bind_ask _ _ (
      bind_insert _ _ _
        λ c. Ensures-pure _ (Within-append_last s.db.roles _, refl, refl, refl, refl, refl, refl))
  creator_or_new_holds (some r) e =
      let held =
        first_holds (λ (r : Role). r.id) (λ r. r.name == "Creator" && is_null r.tenant_id)
          s.db.roles r e in
      Ensures-pure r (
        first-Within (λ (r : Role). r.id) (λ r. r.name == "Creator" && is_null r.tenant_id)
            s.db.roles r e,
        ground (arith, eq_iff r.name "Creator"),
        ground arith,
        refl,
        refl,
        refl,
        refl,
      )

-- What a registration leaves: the account under its canonical address, the tenant, one empty
-- wallet for each, and an active membership with the system role Creator.
pub record Registered (env : Env) (user : User) (tenant : Tenant) (m : TenantMember) (d : Db)
    : Type 0 where
  pub user_stored : Within (canonical env user) d.users
  pub tenant_stored : Within tenant d.tenants
  pub tenant_wallet : (id : Uuid) × Within (empty_tenant_wallet id tenant.id) d.tenant_wallets
  pub user_wallet : (id : Uuid) × Within (empty_user_wallet id user.id) d.user_wallets
  pub member_stored : Within m d.tenant_members
  pub member_of_tenant : (m.tenant_id ≡ tenant.id) × (m.user_id ≡ user.id)
  pub active : (m.is_active ≡ true) × (m.deleted_at ≡ none)
  pub creator :
      (r : Role) × Within r d.roles
      × (r.id ≡ m.role_id)
      × (r.name ≡ "Creator")
      × (r.tenant_id ≡ none)

-- A registration that succeeds found that no version of the registration policy had been written, or
-- that none had been applied, or that the newest applied one says true; in the second case the
-- comments of the policy want the registration refused. It leaves the account under its canonical
-- address, the tenant, an empty wallet for each, and an active membership of the account
-- in the tenant with the system role Creator.
pub register_tenant_tx-Registered :
    (user : User) (tenant : Tenant) (env : Env) (s : State) (m : TenantMember)
    → (register_tenant_tx user tenant env s).0 ≡ ok m
    → NotClosed s.db × Registered env user tenant m (register_tenant_tx user tenant env s).1.db
unfolding register_tenant_tx register_tenant_body create_user add_user add_tenant add_tenant_wallet
    add_user_wallet add_member
register_tenant_tx-Registered user tenant env s m h =
    Ensures-ok env s (register_tenant_tx user tenant)
      (λ m s'. NotClosed s.db × Registered env user tenant m s'.db) m h
      (Ensures-transaction _ (
        Ensures-bind _ _ (
          Ensures-on_error _ _ (
            Ensures-weaken env (tick s) _ _ _ (registration_open_in_tx_holds env (tick s))
              λ is_open s1 h1. bind_guard _ _ _ λ opened. bind_ask _ _ (
                Ensures-bind _ _ (
                  Ensures-on_error _ _ (
                    Ensures-insert _ _ λ fresh. bind_insert _ _ _ λ c1. bind_ask _ _ (
                      bind_insert _ _ _ λ c2. bind_ask _ _ (
                        bind_insert _ _ _ λ c3. bind_query _ _ (
                          Ensures-bind _ _ (
                            Ensures-weaken env _ _ _ _ (creator_or_new_holds env _ _ refl)
                              λ role s2 h2. bind_ask _ _ (
                                bind_ask _ _ (
                                  bind_insert _ _ _ λ c4. Ensures-pure _ (
                                    h1.1 opened,
                                    record {
                                      user_stored = rw h2.3 (Within-append_last s1.db.users _);
                                      tenant_stored = rw h2.4 (Within-append_last s1.db.tenants _);
                                      tenant_wallet = (
                                        env.fresh (suc (suc (suc s1.step))),
                                        rw h2.5 (Within-append_last s1.db.tenant_wallets _),
                                      );
                                      user_wallet = (
                                        env.fresh (suc (suc (suc (suc (suc s1.step))))),
                                        rw h2.6 (Within-append_last s1.db.user_wallets _),
                                      );
                                      member_stored = Within-append_last s2.db.tenant_members _;
                                      member_of_tenant = (refl, refl);
                                      active = (refl, refl);
                                      creator = (role, h2.0, refl, h2.1, h2.2);
                                    },
                                  ))))))))))))))
