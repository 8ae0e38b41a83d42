-- ===== src/Policies/Fees.antt =====
-- The fee rule that internal/repository/platform_fee_policy.go reads, and what Set stores.
use kelolakelas_identity_ser.Base.{
  ◌<◌, ◌≡◌, refl, nat_eq, string_eq, text_eq, true, false, Option, none, some, Text, arith, Within,
}
use kelolakelas_identity_ser.Schema.{Uuid, Db, ConfigurationHead, ConfigurationVersion}
use kelolakelas_identity_ser.Sql.{Env, State, Result, ok, err}
use kelolakelas_identity_ser.Sql.Rules.{
  Ensures, Ensures-pure, Ensures-throw, Ensures-branch, Ensures-transaction, Ensures-ok,
  Ensures-bind, Ensures-weaken, bind_query, bind_required,
}
use kelolakelas_identity_ser.Configuration.{
  Setting, Application, last_applied, find_head, is_version,
}
use kelolakelas_identity_ser.FeePolicy.{FeeValue, validate, encode, parse_fee_value}
use kelolakelas_identity_ser.FeePolicy.Canonical.{parse_fee_value-encode}
use kelolakelas_identity_ser.ControlPlane.Histories.{configuration_history}
use kelolakelas_identity_ser.ControlPlane.Values.{Parsers}
use kelolakelas_identity_ser.Policies.Desired.{
  find_head-positive, Unreported, create_configuration_version-Desired,
}
use kelolakelas_identity_ser.Policies.{
  FeeState, fee_setting, no_fee, returned, applied_rule, platform_fee_state, set_platform_fee,
}

returned-Ensures :
    {A : Type 0} (env : Env) (s : State) (r : Result A)
    → Ensures env s (returned r) λ a s'. (r ≡ ok a) × (s'.db ≡ s.db)
returned-Ensures env s (ok a) = Ensures-pure _ (refl, refl)
returned-Ensures env s (err e) = Ensures-throw _

-- Where an answer comes from: the baseline of a head that no version has advanced, no application,
-- or the text of the newest application.
pub record Read (p : Parsers) (head : ConfigurationHead) (o : Option Application) (st : FeeState)
    : Type 0 where
  pub desired : st.desired_version ≡ head.latest_version
  pub baseline :
      head.latest_version ≡ 0 → (st.applied ≡ true) × (st.rule ≡ no_fee) × (st.applied_version ≡ 0)
  pub valid : validate st.rule ≡ ok tt
  pub canonical :
      (a : Application)
      → o ≡ some a
      → 0 < head.latest_version
      → (st.applied ≡ true)
        × (st.applied_version ≡ a.version.version)
        × (p.unmarshal_string a.version.value ≡ some (encode st.rule))
  pub unknown : o ≡ none → 0 < head.latest_version → st.applied ≡ false

no_fee-valid : validate no_fee ≡ ok tt
unfolding validate
no_fee-valid = refl

module _ (p : Parsers) where
  applied_rule-Read :
      (env : Env) (s : State) (head : ConfigurationHead) (o : Option Application)
      → 0 < head.latest_version
      → Ensures env s
          (applied_rule p head.latest_version o)
          λ st s'. Read p head o st × (s'.db ≡ s.db)
  unfolding applied_rule
  applied_rule-Read env s head none past = Ensures-pure _ (
    record {
      desired = refl;
      baseline = λ z. absurd (omega arith);
      valid = no_fee-valid;
      canonical = λ a e. cc;
      unknown = λ e d. refl;
    },
    refl,
  )
  applied_rule-Read env s head (some a) past = bind_required _ _ _ λ text u. Ensures-bind _ _ (
      Ensures-weaken env s _ _ _ (returned-Ensures env s (parse_fee_value text)) λ rule s' r.
        let (valid, same) = (parse_fee_value-encode text rule).0 r.0 in
        Ensures-pure _ (
          record {
            desired = refl;
            baseline = λ z. absurd (omega arith);
            valid = valid;
            canonical = λ b e d. (refl, cc (e), cc (e, u, same));
            unknown = λ e d. cc;
          },
          r.1,
        ))

  platform_fee_state-Read :
      (env : Env) (s : State)
      → Ensures env s (platform_fee_state p) λ st s'.
        (head : ConfigurationHead) × (find_head fee_setting s.db ≡ some head)
        × Read p head (last_applied fee_setting s.db) st
        × (s'.db ≡ s.db)
  unfolding platform_fee_state
  platform_fee_state-Read env s = Ensures-transaction _ (
      bind_query _ _ (
        bind_required _ _ _ λ h e.
          Ensures-branch _ _ _
            (λ q. Ensures-pure _ (
              h,
              e,
              record {
                desired = ground (arith, q);
                baseline = λ z. (refl, refl, refl);
                valid = no_fee-valid;
                canonical = λ a e d. absurd (ground (arith, q));
                unknown = λ e d. absurd (ground (arith, q));
              },
              refl,
            ))
            (λ q. bind_query _ _ (
              Ensures-weaken env _ _ _ _ (applied_rule-Read _ _ h _ (ground (arith, q)))
                λ st s' r. (h, e, r.0, r.1)))))

-- The rule that is read is always within the bounds of the policy, and its desired version is that of
-- the stored head of the fee setting. At version 0 of the head the rule is zero and counts as
-- applied. Past it, if there is an applied report, the rule counts as applied, with the number of
-- the version of the newest one, and the stored value of that version is the canonical text of
-- the rule; without an applied report the rule counts as unknown.
pub platform_fee_state-canonical :
    (p : Parsers) (env : Env) (s : State) (st : FeeState)
    → (platform_fee_state p env s).0 ≡ ok st
    → (head : ConfigurationHead) × (find_head fee_setting s.db ≡ some head)
      × Read p head (last_applied fee_setting s.db) st
platform_fee_state-canonical p env s st h =
    Ensures-ok env s (platform_fee_state p)
      (λ st s'.
        (head : ConfigurationHead) × (find_head fee_setting s.db ≡ some head)
        × Read p head (last_applied fee_setting s.db) st)
      st h (Ensures-weaken env s _ _ _ (platform_fee_state-Read p env s) λ st s' r. (r.0, r.1, r.2))

configuration_history-keeps :
    (k : Setting) (env : Env) (s : State)
    → Ensures env s (configuration_history k) λ c s'. s'.db ≡ s.db
unfolding configuration_history
configuration_history-keeps k env s =
    bind_query _ _
      (Ensures-branch _ _ _ (λ q. Ensures-pure _ refl) λ q. bind_query _ _ (Ensures-pure _ refl))

-- What an answer says of the newest application once a version has been written.
pub record Answered (p : Parsers) (o : Option Application) (st : FeeState) : Type 0 where
  pub valid : validate st.rule ≡ ok tt
  pub desired : 0 < st.desired_version
  pub canonical :
      (a : Application)
      → o ≡ some a
      → (st.applied ≡ true)
        × (st.applied_version ≡ a.version.version)
        × (p.unmarshal_string a.version.value ≡ some (encode st.rule))
  pub unknown : o ≡ none → st.applied ≡ false

Read-Answered :
    (p : Parsers) (head : ConfigurationHead) (o : Option Application) (st : FeeState)
    → 0 < head.latest_version
    → Read p head o st
    → Answered p o st
Read-Answered p head o st past r = record {
  valid = r.valid;
  desired = rw (r.desired) past;
  canonical = λ a e. r.canonical a e past;
  unknown = λ e. r.unknown e past;
}

-- What an accepted fee rule leaves behind.
pub record Recorded (p : Parsers) (env : Env) (operator : Uuid) (value : FeeValue) (d : Db)
    : Type 0 where
  pub valid : validate value ≡ ok tt
  pub text : Text
  pub marshalled : p.marshal_string (encode value) ≡ some text
  pub version : ConfigurationVersion
  pub converted : env.jsonb text ≡ some version.value
  pub stored : Within version d.configuration_versions
  pub setting : is_version fee_setting version ≡ true
  pub author : version.created_by ≡ operator

-- A fee rule is accepted only within the bounds, and then its canonical text is stored as a version of
-- the fee setting, by the operator. The answer is not about this version: it is the rule of the newest
-- applied report from before the call, and where there was none, the rule counts as unknown, also
-- where the zero rule of the baseline was in force until then. The ids that the call draws are not
-- yet referred to by a report.
pub set_platform_fee-Recorded :
    (p : Parsers) (operator : Uuid) (value : FeeValue) (env : Env) (s : State) (st : FeeState)
    → Unreported env s.db
    → (set_platform_fee p operator value env s).0 ≡ ok st
    → Recorded p env operator value (set_platform_fee p operator value env s).1.db
      × Answered p (last_applied fee_setting s.db) st
unfolding set_platform_fee configuration_history
set_platform_fee-Recorded p operator value env s st fresh h =
    Ensures-ok env s (set_platform_fee p operator value)
      (λ st s'. Recorded p env operator value s'.db × Answered p (last_applied fee_setting s.db) st)
      st h
      (Ensures-bind _ _ (
        Ensures-weaken env s _ _ _ (returned-Ensures env s (validate value)) λ u s1 r1.
          Ensures-bind _ _ (
            Ensures-weaken env s1 (configuration_history fee_setting) (λ c s'. s'.db ≡ s1.db) _
              (configuration_history-keeps fee_setting env s1)
              λ past s2 r2. bind_required _ _ _ λ text m. Ensures-bind _ _ (
                Ensures-weaken env s2 _ _ _
                  (create_configuration_version-Desired _ env s2 (rw (r2, r1.1) fresh))
                  λ v s3 d.
                    Ensures-weaken env s3 (platform_fee_state p)
                      (λ st s'.
                        (head : ConfigurationHead) × (find_head fee_setting s3.db ≡ some head)
                        × Read p head (last_applied fee_setting s3.db) st
                        × (s'.db ≡ s3.db))
                      _ (platform_fee_state-Read p env s3)
                      λ st s4 r4. (
                        record {
                          valid = r1.0;
                          text = text;
                          marshalled = m;
                          version = v;
                          converted = d.value;
                          stored = rw (r4.3) d.stored;
                          setting = d.setting;
                          author = d.author;
                        },
                        rw (← r1.1, ← r2, ← d.unchanged fee_setting)
                            (Read-Answered p r4.0 (last_applied fee_setting s3.db) st
                              (find_head-positive fee_setting s3.db r4.0 d.positive r4.1) r4.2),
                      )))))
