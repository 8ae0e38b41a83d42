-- ===== src/Policies/Desired.antt =====
-- What CreateConfigurationVersion leaves in force: applications of earlier versions, and a head past
-- version 0.
use kelolakelas_identity_ser.Base.{
  eq_iff, Within-append_last, first-Within, first_holds, first-none, first-All_least, All-Within,
  if_both, ℕ, ◌+◌, ◌≤◌, ◌<◌, ◌≡◌, refl, ap, ◌==◌, nat_eq, string_eq, text_eq, Bool, true, false,
  ◌&&◌, Option, none, some, List, [], ◌∷◌, ◌++◌, arith, exists, rows, from, newest, update, Within,
  All,
}
use mathlib.Core.List.{append-nil}
use kelolakelas_identity_ser.Schema.{
  Db, ConfigurationHead, ConfigurationVersion, ConfigurationReport,
}
use kelolakelas_identity_ser.Sql.{Env, State}
use kelolakelas_identity_ser.Sql.Rules.{
  Ensures, Ensures-pure, Ensures-transaction, bind_affect, bind_required, bind_ask, bind_insert,
}
use kelolakelas_identity_ser.Configuration.{
  Setting, Application, is_version, applications, last_applied, is_head, find_head, advanced,
  upserted, VersionRequest, advance, advance_head, add_version, create_configuration_version,
}
use kelolakelas_identity_ser.Configuration.Versions.{advanced-at}

rows-none :
    {A : Type 0} (p q : A → Bool) (xs : List A)
    → exists p xs ≡ false
    → rows (λ x. p x && q x) xs ≡ []
unfolding rows exists
rows-none p q [] h = refl
rows-none p q (x ∷ xs) h = ground (arith, rows-none p q xs (ground arith))

-- A row that finds no partner adds nothing to a join.
from-append :
    {A B : Type 0} (f : A → List B) (p : A → Bool) (xs : List A) (a : A)
    → f a ≡ []
    → from f (rows p (xs ++ a ∷ [])) ≡ from f (rows p xs)
unfolding from rows
from-append f p [] a h =
    if_both (λ ys. from f ys ≡ []) (p a) (a ∷ []) [] (λ q. ap (λ ys. ys ++ []) h) (λ q. refl)
from-append f p (x ∷ xs) a h = ground (arith, from-append f p xs a h)

-- No report refers to a version that has not been inserted: ids are drawn from a sequence, and the
-- reports have a foreign key.
abbrev pub Unreported : Env → Db → Type 0
Unreported env d =
    (n : ℕ) → exists (λ r. r.version_id == env.fresh n) d.configuration_reports ≡ false

abbrev joined : ConfigurationVersion → ConfigurationReport → List Application
joined v r = record { version = v; report = r } ∷ []

last_applied-add_version :
    (k : Setting) (v : ConfigurationVersion) (d : Db)
    → exists (λ r. r.version_id == v.id) d.configuration_reports ≡ false
    → last_applied k (add_version v d) ≡ last_applied k d
unfolding last_applied applications add_version from
last_applied-add_version k v d h = ap (newest (λ (a : Application). a.report.id)) (
    from-append
      (λ (v : ConfigurationVersion).
        from (joined v)
          (rows (λ r. r.version_id == v.id && r.status == "applied") d.configuration_reports))
      (is_version k) d.configuration_versions v
      (ap (from (joined v)) (
        rows-none (λ r. r.version_id == v.id) (λ r. r.status == "applied") d.configuration_reports
          h)))

abbrev pub Positive : Setting → List ConfigurationHead → Type 0
Positive k hs = All (λ g. is_head k g ≡ true → 0 < g.latest_version) hs

module _ (k : Setting) (n : ℕ) where
  update-Positive :
      (hs : List ConfigurationHead)
      → All (λ g. is_head k g ≡ true → n ≤ g.latest_version) hs
      → Positive k (
          update
            (λ g. is_head k g && g.latest_version == n)
            (λ g. record g { latest_version = g.latest_version + 1 })
            hs)
  unfolding update is_head
  update-Positive [] h = tt
  update-Positive (g ∷ hs) h = (
    if_both (λ (x : ConfigurationHead). is_head k x ≡ true → 0 < x.latest_version)
        (is_head k g && g.latest_version == n) _ _ (λ q e. omega arith)
        (λ q e. least g q e (h.0 e)),
    update-Positive hs h.1,
  )
    where
      least :
          (g : ConfigurationHead)
          → (is_head k g && g.latest_version == n) ≡ false
          → is_head k g ≡ true
          → n ≤ g.latest_version
          → 0 < g.latest_version
      least g q e l = ground arith

  none-Positive :
      (hs tail : List ConfigurationHead)
      → exists (is_head k) hs ≡ false
      → Positive k tail
      → Positive k (hs ++ tail)
  unfolding exists
  none-Positive [] tail h p = p
  none-Positive (g ∷ hs) tail h p =
      (λ e. ground (arith, h, e), none-Positive hs tail (ground (arith, h)) p)

  upserted-Positive :
      (m : ℕ) (o : Option ConfigurationHead) (hs : List ConfigurationHead)
      → (o ≡ none → exists (is_head k) hs ≡ false)
      → ((h : ConfigurationHead)
          → o ≡ some h
          → All (λ g. is_head k g ≡ true → h.latest_version ≤ g.latest_version) hs)
      → advanced n o ≡ some m
      → Positive k (upserted k n o hs)
  upserted-Positive m none hs absent least e =
      if_both (Positive k) (n == 0) _ _
        (λ q. none-Positive hs _ (absent refl) (λ _. omega arith, tt))
        (λ q. rw (← append-nil hs) (none-Positive hs [] (absent refl) tt))
  upserted-Positive m (some h) hs absent least e =
      update-Positive hs (rw (← advanced-at n m h e) (least h refl))

same_head :
    (o : Option ConfigurationHead) (h a : ConfigurationHead)
    → o ≡ some h
    → o ≡ some a
    → h.latest_version ≤ a.latest_version
same_head o h a f q = ground (arith, f, q)

-- After a version was written: it is stored with its value, no application has changed, and the head
-- has left version 0.
pub record Desired (env : Env) (request : VersionRequest) (before : Db) (v : ConfigurationVersion)
    (after : Db) : Type 0 where
  pub stored : Within v after.configuration_versions
  pub value : env.jsonb request.value ≡ some v.value
  pub setting : is_version request.setting v ≡ true
  pub author : v.created_by ≡ request.created_by
  pub unchanged : (j : Setting) → last_applied j after ≡ last_applied j before
  pub positive : Positive request.setting after.configuration_heads

pub find_head-positive :
    (k : Setting) (d : Db) (h : ConfigurationHead)
    → Positive k d.configuration_heads
    → find_head k d ≡ some h
    → 0 < h.latest_version
unfolding find_head
find_head-positive k d h p e =
    All-Within (λ (g : ConfigurationHead). is_head k g ≡ true → 0 < g.latest_version)
      d.configuration_heads h p
      (first-Within (λ (h : ConfigurationHead). h.latest_version) (is_head k) d.configuration_heads
        h e)
      (first_holds (λ (h : ConfigurationHead). h.latest_version) (is_head k) d.configuration_heads h
        e)

pub create_configuration_version-Desired :
    (request : VersionRequest) (env : Env) (s : State)
    → Unreported env s.db
    → Ensures env s (create_configuration_version request) λ v s'. Desired env request s.db v s'.db
unfolding is_version create_configuration_version advance_head add_version advance find_head
    last_applied applications
create_configuration_version-Desired request env s fresh = Ensures-transaction _ (
    bind_affect _ _ _ (
      bind_required _ _ _ λ version e. bind_ask _ _ (
        bind_required _ _ _ λ value j. bind_ask _ _ (
          bind_insert _ _ _ λ c. Ensures-pure _ record {
            stored = Within-append_last s.db.configuration_versions _;
            value = j;
            setting = ground (
              arith,
              eq_iff request.setting.application request.setting.application,
              eq_iff request.setting.environment request.setting.environment,
              eq_iff request.setting.key request.setting.key,
            );
            author = refl;
            unchanged = λ k. last_applied-add_version k _ s.db (fresh _);
            positive =
                upserted-Positive request.setting request.expected_version version
                  (find_head request.setting s.db) s.db.configuration_heads
                  (first-none (λ (h : ConfigurationHead). h.latest_version)
                    (is_head request.setting) s.db.configuration_heads)
                  (λ h f.
                    first-All_least (λ (h : ConfigurationHead). h.latest_version)
                      (is_head request.setting) h.latest_version s.db.configuration_heads
                      (λ a q. same_head _ h a f q))
                  e;
          }))))
