-- ===== src/Sessions/Switching.antt =====
-- What a switched token names.
use kelolakelas_identity_ser.Base.{
  some, refl, ◌≡◌, String, ◌==◌, nat_eq, string_eq, true, false, ◌&&◌, none, arith, Within, rows,
  rows-Within, head-Within, from-Within, first_holds, first-Within, inl, inr,
}
use kelolakelas_identity_ser.Schema.{Time, Uuid, Db, User, Tenant, Role, TenantMember}
use kelolakelas_identity_ser.Sql.{Env, State, steps_after, ok}
use kelolakelas_identity_ser.Sql.Rules.{
  Ensures-pure, Ensures-required, Ensures-guard, Ensures-transaction, Ensures-ok, Ensures-bind,
  bind_query, bind_required, bind_guard, bind_ask,
}
use kelolakelas_identity_ser.Members.{is_null}
use kelolakelas_identity_ser.Resets.{user_by_id}
use kelolakelas_identity_ser.Sessions.{
  Claims, Jwt, Parsed, parsed, token_expired, token_refused, claims_of, validate_token,
  result_option, in_date, issue_at, TenantChoice, choice_row, own_active, tenant_active, role_of,
  own_tenant_choices, tenant_claims, issued_before, switch, reissue, valid_tenant_user,
  generate_token_after, sign, principal, with_membership,
}

-- A stored membership of the user in an active tenant, with a role of that tenant or of none.
pub record Belongs (d : Db) (user_id : Uuid) (choice : TenantChoice) : Type 0 where
  pub member : TenantMember
  pub tenant : Tenant
  pub role : Role
  pub member_stored : Within member d.tenant_members
  pub tenant_stored : Within tenant d.tenants
  pub role_stored : Within role d.roles
  pub own : own_active user_id member ≡ true
  pub active : tenant_active member tenant ≡ true
  pub scope : role_of member role ≡ true
  pub names : choice_row member tenant role ≡ choice

own_tenant_choices-Belongs :
    (d : Db) (user_id : Uuid) (c : TenantChoice)
    → Within c (own_tenant_choices user_id d)
    → Belongs d user_id c
unfolding own_tenant_choices
own_tenant_choices-Belongs d user_id c w =
    let (tm, wm, w1) = from-Within _ (rows (own_active user_id) d.tenant_members) c w in
    let (t, wt, w2) = from-Within _ (rows (tenant_active tm) d.tenants) c w1 in
    let (ro, wr, w3) = from-Within _ (rows (role_of tm) d.roles) c w2 in
    let km = rows-Within (own_active user_id) d.tenant_members tm wm in
    let kt = rows-Within (tenant_active tm) d.tenants t wt in
    let kr = rows-Within (role_of tm) d.roles ro wr in
    record {
      member = tm;
      tenant = t;
      role = ro;
      member_stored = km.0;
      tenant_stored = kt.0;
      role_stored = kr.0;
      own = km.1;
      active = kt.1;
      scope = kr.1;
      names = elim w3 [ inl e ↦ e | inr m ↦ elim m [ ] ];
    }

-- What a switch rests on: the claims of a live token of an ordinary user, issued no earlier than
-- the boundary of that user's sessions, and a membership of that user in the tenant asked for.
pub record Switched (lib : Jwt) (token : String) (env : Env) (s : State) (tenant_id : Uuid)
    (switched : String) (choice : TenantChoice) : Type 0 where
  pub claims : Claims
  pub presented : lib.parse_with_claims (env.now s.step) token ≡ parsed claims
  pub unexpired : in_date (env.now (steps_after 4 s.step)) claims.expires_at ≡ true
  pub user : User
  pub user_stored : Within user s.db.users
  pub user_id : user.id ≡ claims.user_id
  pub live : user.deleted_at ≡ none
  pub platform : (claims.is_platform_admin ≡ false) × (claims.platform_pending ≡ false)
  pub parent : (claims.is_parent ≡ false) × (user.is_parent ≡ false)
  pub current : issued_before claims.issued_at user.session_valid_after ≡ false
  pub belongs : Belongs s.db claims.user_id choice
  pub tenant : choice.tenant_id ≡ tenant_id
  pub issued : Claims
  pub signed : lib.signed_string issued ≡ some switched
  pub named :
      (issued.user_id ≡ claims.user_id)
      × (issued.tenant_id ≡ tenant_id)
      × (issued.role_id ≡ choice.role_id)
      × (issued.member_id ≡ choice.member_id)
  pub ordinary :
      (issued.is_parent ≡ false)
      × (issued.is_platform_admin ≡ false)
      × (issued.platform_pending ≡ false)
  pub dated :
      issued.issued_at
      ≡ some (lib.numeric_date (issue_at (env.now (steps_after 5 s.step)) user.session_valid_after))

valid-parsed :
    (lib : Jwt) (now : Time) (token : String) (c : Claims)
    → result_option (validate_token lib now token) ≡ some c
    → lib.parse_with_claims now token ≡ parsed c
unfolding validate_token claims_of
valid-parsed lib now token c e = at (lib.parse_with_claims now token) e
  where
    at : (p : Parsed) → result_option (claims_of p) ≡ some c → p ≡ parsed c
    at (parsed a) e = ground (arith, e)
    at token_expired e = cc
    at token_refused e = cc

-- A switch that succeeds rests on the claims of the presented token: those of an ordinary user, not
-- expired, and issued no earlier than the boundary of that user's sessions, and on a stored active membership of that user in the active tenant
-- that was asked for. The choice that it returns is that membership, and the token that it returns
-- is signed for this user, tenant, role and membership, and dated at the later of the time of issue
-- and the boundary.
pub switch-Switched :
    (lib : Jwt) (token : String) (tenant_id : Uuid) (env : Env) (s : State)
    (r : String × TenantChoice)
    → (switch lib token tenant_id env s).0 ≡ ok r
    → Switched lib token env s tenant_id r.0 r.1
unfolding switch principal with_membership reissue generate_token_after sign tenant_claims
    valid_tenant_user user_by_id
switch-Switched lib token tenant_id env s r h =
    Ensures-ok env s (switch lib token tenant_id)
      (λ r s'. Switched lib token env s tenant_id r.0 r.1) r h
      (Ensures-bind _ _ (
        bind_ask _ _ (
          bind_required _ _ _ λ c hc. bind_guard _ _ _ λ named. bind_guard _ _ _ λ plain.
            Ensures-pure c (
              Ensures-transaction _ (
                bind_query _ _ (
                  bind_required _ _ _ λ user hu. bind_query _ _ (
                    bind_required _ _ _ λ choice hch. Ensures-bind _ _ (
                      bind_ask _ _ (
                        bind_guard _ _ _ λ fresh. bind_guard _ _ _ λ current.
                          Ensures-guard _ _ λ teacher. Ensures-bind _ _ (
                            bind_ask _ _ (
                              bind_ask _ _ (
                                Ensures-required _ _ λ signed ht.
                                  Ensures-pure _
                                    let found =
                                        rows-Within (λ (k : TenantChoice). k.tenant_id == tenant_id)
                                          (own_tenant_choices c.user_id s.db) choice
                                          (head-Within _ choice hch) in
                                      let held =
                                        first_holds (λ (u : User). u.id)
                                          (λ u. u.id == c.user_id && is_null u.deleted_at)
                                          s.db.users user hu in
                                      record {
                                        claims = c;
                                        presented = valid-parsed lib _ token c hc;
                                        unexpired = fresh;
                                        user = user;
                                        user_stored =
                                            first-Within (λ (u : User). u.id)
                                              (λ u. u.id == c.user_id && is_null u.deleted_at)
                                              s.db.users user hu;
                                        user_id = ground arith;
                                        live = ground arith;
                                        platform = ground arith;
                                        parent = ground arith;
                                        current = ground arith;
                                        belongs =
                                            own_tenant_choices-Belongs s.db c.user_id choice
                                              found.0;
                                        tenant = ground (arith, found.1);
                                        issued = _;
                                        signed = ht;
                                        named = (ground arith, ground (arith, found.1), refl, refl);
                                        ordinary = (refl, refl, refl);
                                        dated = refl;
                                      }))))))))))))
