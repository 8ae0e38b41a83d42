-- ===== src/Auth/Issued.antt =====
-- What the login of internal/usecase/auth_usecase.go issues a token for.
use kelolakelas_identity_ser.Base.{
  ℕ, ◌+◌, ◌≡◌, refl, sym, ap, ◌∙◌, String, nat_eq, Bool, true, false, Option, none, some, Text,
  arith, first_holds, first-Within, Within,
}
use mathlib.Core.Path.{subst}
use kelolakelas_identity_ser.Schema.{Uuid, Time, Db, User, TenantMember}
use kelolakelas_identity_ser.Sql.{Env, State, steps_after, ok, pure, query, branch}
use kelolakelas_identity_ser.Sql.Rules.{
  Ensures, Ensures-pure, Ensures-query, Ensures-branch, Ensures-ok, Ensures-bind, Ensures-weaken,
  Ensures-self, Ensures-required, bind_query, bind_required, bind_ask,
}
use kelolakelas_identity_ser.Emails.{normalize_email}
use kelolakelas_identity_ser.Login.{authenticate}
use kelolakelas_identity_ser.Login.Success.{Entitled, authenticate-Entitled}
use kelolakelas_identity_ser.Resets.{user_by_id, session_valid_after}
use kelolakelas_identity_ser.Sessions.{
  Jwt, Claims, issue_at, tenant_claims, sign, generate_token_after,
}
use kelolakelas_identity_ser.Auth.{place_of, live_membership, tenant_member_of, login}

-- The membership that a token names: none for a parent, and otherwise a live one or none.
pub record Placed (user : User) (o : Option TenantMember) (d : Db) : Type 0 where
  pub parent : user.is_parent ≡ true → o ≡ none
  pub live :
      (tm : TenantMember)
      → o ≡ some tm
      → Within tm d.tenant_members × (live_membership d user.id tm ≡ true)

pub record Issued (lib : Jwt) (env : Env) (email : Text) (password : String) (before : Db)
    (after : State) (token : String) (user : User) (tenant_id : Uuid) : Type 0 where
  pub entitled : Entitled env (normalize_email env email) password before user
  pub member : Option TenantMember
  pub placed : Placed user member after.db
  pub account : User
  pub stored : user_by_id user.id after.db ≡ some account
  pub claims : Claims
  pub signed : lib.signed_string claims ≡ some token
  pub subject : claims.user_id ≡ user.id
  pub place : place_of member ≡ record {
    tenant_id = claims.tenant_id;
    role_id = claims.role_id;
    member_id = claims.member_id;
  }
  pub tenant : tenant_id ≡ claims.tenant_id
  pub ordinary : (claims.is_platform_admin ≡ false) × (claims.platform_pending ≡ false)
  pub moment : ℕ
  pub last : steps_after 2 moment ≡ after.step
  pub dated :
      claims.issued_at
      ≡ some (lib.numeric_date (issue_at (env.now moment) account.session_valid_after))
  pub lasting :
      claims.expires_at
      ≡ some (
          lib.numeric_date
            (issue_at (env.now moment) account.session_valid_after + lib.token_duration))

module _ (env : Env) (s : State) where
  session_valid_after-account :
      (id : Uuid)
      → Ensures env s (session_valid_after id) λ v s'.
        (u : User) × (user_by_id id s.db ≡ some u) × (v ≡ u.session_valid_after) × (s'.db ≡ s.db)
  unfolding session_valid_after
  session_valid_after-account id =
      bind_query _ _ (bind_required _ _ _ λ u e. Ensures-pure _ (u, e, refl, refl))

  generate_token_after-signed :
      (lib : Jwt) (user_id : Uuid) (email : Text) (tenant_id role_id member_id : Uuid)
      (is_parent : Bool) (valid_after : Option Time)
      → Ensures env s
          (generate_token_after lib user_id email tenant_id role_id member_id is_parent valid_after)
          λ token s'.
            (text : Text) × (lib.signed_string
                (record (tenant_claims lib user_id text tenant_id role_id member_id is_parent
                  (issue_at (env.now s.step) valid_after)) { email = text })
              ≡ some token)
            × (s'.db ≡ s.db)
            × (steps_after 2 s.step ≡ s'.step)
  unfolding generate_token_after sign tenant_claims
  generate_token_after-signed lib user_id email tenant_id role_id member_id is_parent valid_after =
      bind_ask _ _ (bind_ask _ _ (Ensures-required _ _ λ token e. (_, e, refl, refl)))

  member-Placed :
      (user : User)
      → Ensures env s
          (branch user.is_parent (pure none) (query (tenant_member_of user.id)))
          λ o s'. Placed user o s.db × (s'.db ≡ s.db)
  unfolding tenant_member_of
  member-Placed user =
      Ensures-branch _ _ _
        (λ q. Ensures-pure _ (record { parent = λ p. refl; live = λ tm. cc }, refl))
        (λ q. Ensures-query _ (
          record {
            parent = λ p. absurd (ground (arith, p, q));
            live = λ tm e. (
              first-Within (λ (m : TenantMember). m.id) (live_membership s.db user.id)
                  s.db.tenant_members tm e,
              first_holds (λ (m : TenantMember). m.id) (live_membership s.db user.id)
                  s.db.tenant_members tm e,
            );
          },
          refl,
        ))

-- A login answers with a token only for an account that the address and the password entitle, and
-- the token is signed for that account. It names the membership of a live tenant, with its role, or
-- none, and none for a parent; the tenant in the answer is the one in the token. It is dated at the
-- later of the reading of the clock in the last but one step and the boundary of the account's
-- sessions, it expires a token's duration after that, and it is no token of the platform.
pub login-Issued :
    (lib : Jwt) (threshold duration : ℕ) (email : Text) (password : String) (env : Env) (s : State)
    (token : String) (user : User) (tenant_id : Uuid)
    → (login lib threshold duration email password env s).0 ≡ ok (token, user, tenant_id)
    → Issued lib env email password s.db
        (login lib threshold duration email password env s).1
        token
        user
        tenant_id
unfolding login tenant_claims
login-Issued lib threshold duration email password env s token user tenant_id h =
    Ensures-ok env s (login lib threshold duration email password)
      (λ r s'. Issued lib env email password s.db s' r.0 r.1 r.2) (token, user, tenant_id) h
      (bind_ask _ _ (
        Ensures-bind _ _ (
          Ensures-weaken env _ _ _ _
            (Ensures-self env _
              (authenticate (normalize_email env email) password threshold duration))
            λ u s1 r1. Ensures-bind _ _ (
              Ensures-weaken env s1 _ _ _ (member-Placed env s1 u) λ o s2 r2. Ensures-bind _ _ (
                Ensures-weaken env s2 _ _ _ (session_valid_after-account env s2 u.id) λ v s3 r3.
                  Ensures-bind _ _ (
                    Ensures-weaken env s3 _ _ _
                      (generate_token_after-signed env s3 lib u.id u.email _ _ _ u.is_parent v)
                      λ t s4 r4. Ensures-pure _ record {
                        entitled =
                            authenticate-Entitled (normalize_email env email) password threshold
                              duration env _ u r1.0;
                        member = o;
                        placed = subst (Placed u o) (sym (r4.2 ∙ r3.3 ∙ r2.1)) r2.0;
                        account = r3.0;
                        stored = ap (user_by_id u.id) (r4.2 ∙ r3.3) ∙ r3.1;
                        claims = _;
                        signed = r4.1;
                        subject = refl;
                        place = refl;
                        tenant = refl;
                        ordinary = (refl, refl);
                        moment = s3.step;
                        last = r4.3;
                        dated =
                            ap (λ v. some (lib.numeric_date (issue_at (env.now s3.step) v))) r3.2;
                        lasting =
                            ap
                              (λ v. some (
                                lib.numeric_date
                                  (issue_at (env.now s3.step) v + lib.token_duration)))
                              r3.2;
                      }))))))
