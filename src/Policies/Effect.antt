-- ===== src/Policies/Effect.antt =====
-- What the policies of internal/usecase answer after a change, and what decides it.
use kelolakelas_identity_ser.Base.{
  ℕ, ◌<◌, ◌≡◌, refl, sym, ap, ◌∙◌, ◌==◌, nat_eq, string_eq, text_eq, Bool, true, false, Option,
  none, some, arith,
}
use kelolakelas_identity_ser.Schema.{Uuid, Db, ConfigurationHead}
use kelolakelas_identity_ser.Sql.{Env, State, ok}
use kelolakelas_identity_ser.Sql.Rules.{
  Ensures, Ensures-pure, Ensures-throw, Ensures-branch, Ensures-transaction, Ensures-ok,
  Ensures-bind, Ensures-weaken, bind_query, bind_required,
}
use kelolakelas_identity_ser.Configuration.{Application, last_applied, find_head, true_text}
use kelolakelas_identity_ser.Policies.Desired.{
  Unreported, find_head-positive, create_configuration_version-Desired,
}
use kelolakelas_identity_ser.Policies.{
  CatalogState, catalog_setting, applied_catalog, public_catalog_state, switch_catalog,
}

-- Whether the newest application opens the catalog.
abbrev pub reported_open : Option Application → Bool
reported_open none = false
reported_open (some a) = a.version.value == true_text

abbrev pub reported_number : Option Application → ℕ
reported_number none = 0
reported_number (some a) = a.version.version

applied_catalog-reported :
    (env : Env) (s : State) (desired : ℕ) (o : Option Application)
    → Ensures env s (applied_catalog desired o) λ st s'.
      (st.is_open ≡ reported_open o)
      × (st.applied_version ≡ reported_number o)
      × (s'.db ≡ s.db)
      × (st.desired_version ≡ desired)
unfolding applied_catalog
applied_catalog-reported env s desired none = Ensures-pure _ (refl, refl, refl, refl)
applied_catalog-reported env s desired (some a) =
    Ensures-branch _ _ _ (λ q. Ensures-pure _ (sym q, refl, refl, refl))
      λ q.
        Ensures-branch _ _ _ (λ q'. Ensures-pure _ (sym q, refl, refl, refl))
          (λ q'. Ensures-throw _)

-- The default of the head at version 0 stands until a version has been written.
public_catalog_state-reported :
    (env : Env) (s : State)
    → ((h : ConfigurationHead) → find_head catalog_setting s.db ≡ some h → 0 < h.latest_version)
    → Ensures env s public_catalog_state λ st s'.
      (st.is_open ≡ reported_open (last_applied catalog_setting s.db))
      × (st.applied_version ≡ reported_number (last_applied catalog_setting s.db))
unfolding public_catalog_state
public_catalog_state-reported env s past = Ensures-transaction _ (
    bind_query _ _ (
      bind_required _ _ _ λ h e.
        Ensures-branch _ _ _ (λ q. absurd (zero_head h (past h e) q))
          λ q.
            bind_query _ _ (
              Ensures-weaken env _ _ _ _ (applied_catalog-reported _ _ _ _) λ st s' r. (r.0, r.1))))
  where
    zero_head : (h : ConfigurationHead) → 0 < h.latest_version → h.latest_version == 0 ≡ true → ⊥
    zero_head h p q = ground arith

public_catalog_state-reads :
    (env : Env) (s : State) → Ensures env s public_catalog_state λ st s'. s'.db ≡ s.db
unfolding public_catalog_state applied_catalog
public_catalog_state-reads env s = Ensures-transaction _ (
    bind_query _ _ (
      bind_required _ _ _
        λ h e. Ensures-branch _ _ _ (λ q. Ensures-pure _ refl) λ q. bind_query _ _ (reads _ _ _)))
  where
    reads :
        (s : State) (n : ℕ) (o : Option Application)
        → Ensures env s (applied_catalog n o) λ st s'. s'.db ≡ s.db
    reads s n none = Ensures-pure _ refl
    reads s n (some a) =
        Ensures-branch _ _ _ (λ q. Ensures-pure _ refl)
          λ q. Ensures-branch _ _ _ (λ q'. Ensures-pure _ refl) (λ q'. Ensures-throw _)

-- What public_catalog_state answers before and after a change: the same, once a version has been
-- written.
public_catalog_state-past :
    (env : Env) (s : State)
    → Ensures env s public_catalog_state λ st s'.
      (s'.db ≡ s.db)
      × (0 < st.desired_version
          → (st.is_open ≡ reported_open (last_applied catalog_setting s.db))
            × (st.applied_version ≡ reported_number (last_applied catalog_setting s.db)))
      × (st.desired_version ≡ 0 → st.is_open ≡ true)
unfolding public_catalog_state
public_catalog_state-past env s = Ensures-transaction _ (
    bind_query _ _ (
      bind_required _ _ _ λ h e.
        Ensures-branch _ _ _ (λ q. Ensures-pure _ (refl, (λ p. absurd (omega arith)), λ z. refl))
          λ q. bind_query _ _ (
            Ensures-weaken env _ _ _ _ (applied_catalog-reported env _ h.latest_version _)
              λ st s' r. (r.2, (λ p. (r.0, r.1)), λ z. absurd (ground (arith, q, r.3))))))

-- What a change of the catalog answers: what the newest applied report says, and closed without one.
pub record Unmoved (before : Db) (st : CatalogState) : Type 0 where
  pub reported : st.is_open ≡ reported_open (last_applied catalog_setting before)
  pub number : st.applied_version ≡ reported_number (last_applied catalog_setting before)

-- Whichever of closing and opening was asked for, the answer is decided by the newest applied report
-- from before the call: open exactly when its version says true, and closed where there is none. If
-- the policy was read before the call and a version had been written by then, the answer is the
-- one that was read. If none had been written, the answer that was read is open, so the first
-- change, be it to open, closes a catalog without an applied report. The ids that the call draws are
-- not yet referred to by a report.
pub switch_catalog-reported :
    (operator : Uuid) (is_open : Bool) (env env' : Env) (s : State) (past st : CatalogState)
    → Unreported env s.db
    → (public_catalog_state env' s).0 ≡ ok past
    → (switch_catalog operator is_open env s).0 ≡ ok st
    → Unmoved s.db st
      × (0 < past.desired_version
          → (st.is_open ≡ past.is_open) × (st.applied_version ≡ past.applied_version))
      × (past.desired_version ≡ 0 → past.is_open ≡ true)
unfolding switch_catalog
switch_catalog-reported operator is_open env env' s past st fresh read h =
    let u = moved in
    let b =
      Ensures-ok env' s public_catalog_state
        (λ c s'.
          (0 < c.desired_version
            → (c.is_open ≡ reported_open (last_applied catalog_setting s.db))
              × (c.applied_version ≡ reported_number (last_applied catalog_setting s.db)))
          × (c.desired_version ≡ 0 → c.is_open ≡ true))
        past read
        (Ensures-weaken env' s _ _ _ (public_catalog_state-past env' s) λ c s' r. (r.1, r.2)) in
    (u, (λ p. (u.reported ∙ sym (b.0 p).0, u.number ∙ sym (b.0 p).1)), b.1)
  where
    moved : Unmoved s.db st
    moved =
        Ensures-ok env s (switch_catalog operator is_open) (λ st s'. Unmoved s.db st) st h
          (Ensures-bind _ _ (
            Ensures-weaken env s public_catalog_state (λ c s'. s'.db ≡ s.db) _
              (public_catalog_state-reads env s)
              λ current s1 same. Ensures-bind _ _ (
                Ensures-weaken env s1 _ _ _
                  (create_configuration_version-Desired _ env s1 (rw (same) fresh))
                  λ v s2 d.
                    Ensures-weaken env s2 public_catalog_state _ _
                      (public_catalog_state-reported env s2
                        (λ h. find_head-positive catalog_setting s2.db h d.positive))
                      λ st s3 r.
                        let e =
                          d.unchanged catalog_setting ∙ ap (last_applied catalog_setting) same in
                        record {
                          reported = r.0 ∙ ap reported_open e;
                          number = r.1 ∙ ap reported_number e;
                        })))
