-- ===== src/ControlPlane/LastKnownGood.antt =====
-- The scan of internal/usecase/configuration.go for the last known good version, against the join
-- of internal/repository that decides what is in force.
use kelolakelas_identity_ser.Base.{
  ℕ, ◌≡◌, ◌≤◌, refl, ap, ◌∙◌, ◌==◌, nat_eq, string_eq, Bool, true, ◌&&◌, Option, none, some, List,
  [], ◌∷◌, arith, exists, rows, descending, head, Within, Unique, All-Within, inl, inr, Unique-eq,
  rows-Within, head-Within, from-Within, Within-rows, Within-from, exists-Within, Within-exists,
  Within-descending, descending-Within, head-descending_greatest, head-rows-none, newest_greatest,
  newest-none,
}
use mathlib.Core.Path.{subst}
use kelolakelas_identity_ser.Schema.{Db, ConfigurationVersion, ConfigurationReport}
use kelolakelas_identity_ser.Configuration.{
  Setting, Application, is_version, applications, last_applied,
}
use kelolakelas_identity_ser.ControlPlane.{last_known_good_id}
use kelolakelas_identity_ser.ControlPlane.Histories.{versions_of, reports_of}

abbrev pub version_in_force : Option Application → ℕ
version_in_force none = 0
version_in_force (some a) = a.version.id

abbrev is_applied : ConfigurationReport → Bool
is_applied r = r.status == "applied"

abbrev reported_version : Option ConfigurationReport → ℕ
reported_version none = 0
reported_version (some r) = r.version_id

last_known_good_id-head :
    (rs : List ConfigurationReport)
    → last_known_good_id rs ≡ reported_version (head (rows is_applied rs))
unfolding last_known_good_id rows
last_known_good_id-head [] = refl
last_known_good_id-head (r ∷ rs) = ground (arith, last_known_good_id-head rs)

module _ (k : Setting) (d : Db) where
  abbrev known : ConfigurationReport → Bool
  known r = exists (λ v. v.id == r.version_id) (versions_of k d)

  -- An application joins a stored version of the setting with an applied report of it.
  record Joined (a : Application) : Type 0 where
    version : Within a.version d.configuration_versions
    of_setting : is_version k a.version ≡ true
    report : Within a.report d.configuration_reports
    about : (a.report.version_id == a.version.id) ≡ true
    applied : is_applied a.report ≡ true

  applications-Joined : (a : Application) → Within a (applications k d) → Joined a
  unfolding applications
  applications-Joined a m =
      let (v, mv, ma) = from-Within _ (rows (is_version k) d.configuration_versions) a m in
      let (sv, qv) = rows-Within (is_version k) d.configuration_versions v mv in
      let (r, mr, one) =
        from-Within _
          (rows (λ r. r.version_id == v.id && r.status == "applied") d.configuration_reports) a
          ma in
      let (sr, qr) =
        rows-Within (λ r. r.version_id == v.id && r.status == "applied") d.configuration_reports r
          mr in
      elim one [
        | inl e ↦ subst Joined e record {
          version = sv;
          of_setting = qv;
          report = sr;
          about = ground (arith, qr);
          applied = ground (arith, qr);
        }
        | inr n ↦ elim n [ ]
      ]

  Joined-applications : (a : Application) → Joined a → Within a (applications k d)
  unfolding applications
  Joined-applications a j =
      Within-from _ (rows (is_version k) d.configuration_versions) a.version a
        (Within-rows (is_version k) d.configuration_versions a.version j.version j.of_setting)
        (Within-from _
          (rows (λ r. r.version_id == a.version.id && r.status == "applied")
            d.configuration_reports)
          a.report a
          (Within-rows _ d.configuration_reports a.report j.report
            (ground (arith, j.about, j.applied)))
          (inl refl))

  Joined-known : (a : Application) → Joined a → known a.report ≡ true
  unfolding versions_of
  Joined-known a j =
      Within-exists (λ v. v.id == a.report.version_id)
        (descending (λ v. v.version) (rows (is_version k) d.configuration_versions)) a.version
        (Within-descending (λ v. v.version) (rows (is_version k) d.configuration_versions) a.version
          (Within-rows (is_version k) d.configuration_versions a.version j.version j.of_setting))
        (ground (arith, j.about))

  known-Joined :
      (r : ConfigurationReport)
      → Within r d.configuration_reports
      → known r ≡ true
      → is_applied r ≡ true
      → (v : ConfigurationVersion) × Joined (record { version = v; report = r })
  unfolding versions_of
  known-Joined r m q p =
      let (v, mv, e) =
        exists-Within (λ v. v.id == r.version_id)
          (descending (λ v. v.version) (rows (is_version k) d.configuration_versions)) q in
      let (sv, qv) =
        rows-Within (is_version k) d.configuration_versions v (
          descending-Within (λ v. v.version) (rows (is_version k) d.configuration_versions) v mv) in
      (
        v,
        record {
          version = sv;
          of_setting = qv;
          report = m;
          about = ground (arith, e);
          applied = p;
        },
      )

  abbrev scanned : Option ConfigurationReport
  scanned = head (rows is_applied (descending (λ r. r.id) (rows known d.configuration_reports)))

  scanned-Joined :
      (r : ConfigurationReport)
      → scanned ≡ some r
      → (v : ConfigurationVersion) × Joined (record { version = v; report = r })
  scanned-Joined r e =
      let (m, p) =
        rows-Within is_applied (descending (λ r. r.id) (rows known d.configuration_reports)) r
          (head-Within _ r e) in
      let (n, q) =
        rows-Within known d.configuration_reports r
          (descending-Within (λ r. r.id) (rows known d.configuration_reports) r m) in
      known-Joined r n q p

  scanned_greatest :
      (r : ConfigurationReport) (a : Application) → scanned ≡ some r → Joined a → a.report.id ≤ r.id
  scanned_greatest r a e j =
      head-descending_greatest (λ r. r.id) is_applied (rows known d.configuration_reports) r
        a.report e (Within-rows known d.configuration_reports a.report j.report (Joined-known a j))
        j.applied

  scanned-none : (a : Application) → scanned ≡ none → Joined a → ⊥
  scanned-none a e j = cc (
    head-rows-none (λ r. r.id) is_applied
        (descending (λ r. r.id) (rows known d.configuration_reports)) a.report e
        (Within-descending (λ r. r.id) (rows known d.configuration_reports) a.report
          (Within-rows known d.configuration_reports a.report j.report (Joined-known a j))),
    j.applied,
  )

  nothing_joined : (a : Application) → last_applied k d ≡ none → Joined a → ⊥
  unfolding last_applied
  nothing_joined a e j =
      subst (Within a) (newest-none (λ a. a.report.id) (applications k d) e)
        (Joined-applications a j)

  applied_Joined : (a : Application) → last_applied k d ≡ some a → Joined a
  unfolding last_applied
  applied_Joined a e =
      applications-Joined a (newest_greatest (λ a. a.report.id) (applications k d) a e).0

  same_report :
      (r : ConfigurationReport) (a : Application)
      → Unique (λ r. r.id) d.configuration_reports
      → last_applied k d ≡ some a
      → scanned ≡ some r
      → r.version_id ≡ a.version.id
  unfolding last_applied
  same_report r a u e h =
      let (v, j) = scanned-Joined r h in
      let (m, all) = newest_greatest (λ a. a.report.id) (applications k d) a e in
      let i = applications-Joined a m in
      let over : r.id ≤ a.report.id =
        All-Within (λ (b : Application). b.report.id ≤ a.report.id) (applications k d)
          record { version = v; report = r } all (Joined-applications _ j) in
      let under : a.report.id ≤ r.id = scanned_greatest r a h i in
      let one : a.report ≡ r =
        Unique-eq (λ r. r.id) d.configuration_reports a.report r u i.report j.report
          (omega arith) in
      ground (arith, ap (λ (r : ConfigurationReport). r.version_id) one, i.about)

  agree :
      (o : Option Application) (q : Option ConfigurationReport)
      → Unique (λ r. r.id) d.configuration_reports
      → last_applied k d ≡ o
      → scanned ≡ q
      → reported_version q ≡ version_in_force o
  agree none none u e h = refl
  agree none (some r) u e h = let (v, j) = scanned-Joined r h in absurd (nothing_joined _ e j)
  agree (some a) none u e h = absurd (scanned-none a h (applied_Joined a e))
  agree (some a) (some r) u e h = same_report r a u e h

-- The version that a rollback may select, the one of the first applied report in the history of
-- the setting, is the version in force: the one that the policies read from the join of versions
-- and applied reports. With no applied report both are none, which is 0. The ids of the reports
-- are a primary key.
pub last_known_good_id-last_applied :
    (k : Setting) (d : Db)
    → Unique (λ r. r.id) d.configuration_reports
    → last_known_good_id (reports_of (versions_of k d) d) ≡ version_in_force (last_applied k d)
unfolding reports_of
last_known_good_id-last_applied k d u =
    last_known_good_id-head (descending (λ r. r.id) (rows (known k d) d.configuration_reports))
    ∙ agree k d (last_applied k d) (scanned k d) u refl refl
