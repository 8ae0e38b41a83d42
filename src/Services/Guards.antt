-- ===== src/Services/Guards.antt =====
-- What the answers of CheckActive and of GetPlatformFeePolicy rest on: platform_admin_service.go and
-- fee_policy_service.go of internal/delivery/grpc.
use kelolakelas_identity_ser.Base.{ℕ, ◌<◌, ◌≡◌, ◌≢◌, refl, nat_eq, true, Option, none, some, arith}
use kelolakelas_identity_ser.Schema.{Uuid, Db, ConfigurationHead, FactorAssignment}
use kelolakelas_identity_ser.Sql.{◌>>=◌, Env, State, Result, ok, err}
use kelolakelas_identity_ser.Sql.Rules.{
  Ensures-pure, Ensures-bind, Ensures-on_error, Ensures-weaken, Ensures-ok, Ensures-self,
  bind_guard,
}
use kelolakelas_identity_ser.Configuration.{find_head, last_applied}
use kelolakelas_identity_ser.Factor.{Crypto, assignment}
use kelolakelas_identity_ser.PlatformAuth.{is_active_admin, check_version}
use kelolakelas_identity_ser.PlatformAuth.Verified.{check_version-current}
use kelolakelas_identity_ser.ControlPlane.Values.{Parsers}
use kelolakelas_identity_ser.Policies.{FeeState, fee_setting, platform_fee_state}
use kelolakelas_identity_ser.Policies.Fees.{Read, platform_fee_state-canonical}
use kelolakelas_identity_ser.Services.{
  Gateway, Struct, field, string_of, whole_version, authorized, answered, check_admin_version,
  check_active, get_platform_fee_policy,
}

-- An active administrator, whose factor has the version that a request presents.
pub record Authorized (g : Gateway) (req : Struct) (d : Db) : Type 0 where
  pub id : Uuid
  pub named : g.parse_uuid (string_of (field "user_id" req)) ≡ some id
  pub given_id : id ≢ 0
  pub factor : FactorAssignment
  pub assigned : assignment id d ≡ some factor
  pub version : factor.factor_version ≡ whole_version (field "platform_factor_version" req)
  pub positive : 0 < factor.factor_version
  pub active : is_active_admin id d ≡ true

authorized-ok : (r : Result (Unit {0}) × State) → (authorized r).0 ≡ ok true → r.0 ≡ ok tt
authorized-ok (ok u, s) h = refl
authorized-ok (err e, s) h = ground (arith, h)

module _ (crypto : Crypto) (env : Env) (s : State) where
  answered-current :
      (id : Uuid) (version : ℕ)
      → (answered (check_version crypto id version) env s).0 ≡ ok true
      → (a : FactorAssignment) × (assignment id s.db ≡ some a)
        × (a.factor_version ≡ version)
        × (0 < version)
        × (is_active_admin id s.db ≡ true)
  unfolding answered
  answered-current id version h =
      Ensures-ok env s (check_version crypto id version)
        (λ u s'.
          (a : FactorAssignment) × (assignment id s.db ≡ some a)
          × (a.factor_version ≡ version)
          × (0 < version)
          × (is_active_admin id s.db ≡ true))
        tt (authorized-ok (check_version crypto id version env s) h)
        (Ensures-weaken env s _ _ _ (check_version-current env s crypto id version)
          λ u s' r. (r.0, r.1, r.2, r.3, r.4))

-- CheckActive answers yes only for a request that names an active administrator, not the nil id, and
-- the current version of that administrator's factor, which is at least 1.
pub check_active-Authorized :
    (g : Gateway) (crypto : Crypto) (req : Struct) (env : Env) (s : State)
    → (check_active g crypto req env s).0 ≡ ok true
    → Authorized g req s.db
unfolding check_active check_admin_version ◌>>=◌
check_active-Authorized g crypto req env s h =
    named (g.parse_uuid (string_of (field "user_id" req))) refl h
  where
    named :
        (o : Option Uuid)
        → g.parse_uuid (string_of (field "user_id" req)) ≡ o
        → (check_admin_version crypto o
            (whole_version (field "platform_factor_version" req))
            env
            s).0
          ≡ ok true
        → Authorized g req s.db
    named none e h = absurd (cc)
    named (some id) e h =
        let v = whole_version (field "platform_factor_version" req) in
        let r = answered-current crypto env s id v (ground (arith, h)) in
        record {
          id = id;
          named = e;
          given_id = ground (arith, h);
          factor = r.0;
          assigned = r.1;
          version = r.2;
          positive = rw (r.2) r.3;
          active = r.4;
        }

-- GetPlatformFeePolicy answers only with a rule that is applied: the zero rule at version 0 of the
-- stored head of the fee setting, and past it the rule of the newest applied report, which is there.
pub get_platform_fee_policy-applied :
    (p : Parsers) (env : Env) (s : State) (st : FeeState)
    → (get_platform_fee_policy p env s).0 ≡ ok st
    → (head : ConfigurationHead) × (find_head fee_setting s.db ≡ some head)
      × Read p head (last_applied fee_setting s.db) st
      × (st.applied ≡ true)
      × (0 < head.latest_version → last_applied fee_setting s.db ≢ none)
unfolding get_platform_fee_policy
get_platform_fee_policy-applied p env s st h =
    Ensures-ok env s (get_platform_fee_policy p)
      (λ st s'.
        (head : ConfigurationHead) × (find_head fee_setting s.db ≡ some head)
        × Read p head (last_applied fee_setting s.db) st
        × (st.applied ≡ true)
        × (0 < head.latest_version → last_applied fee_setting s.db ≢ none))
      st h
      (Ensures-bind _ _ (
        Ensures-on_error _ _ (
          Ensures-weaken env s _ _ _ (Ensures-self env s (platform_fee_state p)) λ st s' r.
            bind_guard _ _ _ λ applied.
              let (head, found, read) = platform_fee_state-canonical p env s st r.0 in
              Ensures-pure _ (
                head,
                found,
                read,
                applied,
                λ past absent. cc (applied, read.unknown absent past),
              ))))
