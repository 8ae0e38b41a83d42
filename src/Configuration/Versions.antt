-- ===== src/Configuration/Versions.antt =====
-- The version counter of a setting: a desired version is written against the one that was read.
use kelolakelas_identity_ser.Base.{
  eq_iff, sym, ap, ◌∙◌, ℕ, ◌+◌, ◌≡◌, ◌≢◌, refl, ◌==◌, nat_eq, string_eq, Bool, true, false, ◌&&◌,
  Option, none, some, List, [], ◌∷◌, arith, exists, exists-update_self, exists-update_same,
  exists-implied, exists-append, first-none, first_holds, first-Within, first-exists, Within,
  Within-exists, Within-append_last, Option-cases, inl, inr,
}
use kelolakelas_identity_ser.Schema.{Db, ConfigurationHead, ConfigurationVersion}
use kelolakelas_identity_ser.Sql.{Env, State, ok}
use kelolakelas_identity_ser.Sql.Rules.{
  Ensures-pure, Ensures-transaction, Ensures-ok, bind_affect, bind_required, bind_ask, bind_insert,
}
use kelolakelas_identity_ser.Configuration.{
  Setting, is_head, find_head, VersionRequest, advanced, advance, upserted, advance_head,
  add_version, create_configuration_version,
}

abbrev at_version : Setting → ℕ → ConfigurationHead → Bool
at_version k n h = is_head k h && h.latest_version == n

-- The setting has a head, and it has left version `n`.
pub record Past (k : Setting) (n : ℕ) (d : Db) : Type 0 where
  pub headed : exists (is_head k) d.configuration_heads ≡ true
  pub left : exists (at_version k n) d.configuration_heads ≡ false

pub advanced-at :
    (n m : ℕ) (h : ConfigurationHead) → advanced n (some h) ≡ some m → h.latest_version ≡ n
advanced-at n m h e = ground arith

Past-advance : (k : Setting) (n m : ℕ) (d : Db) → Past k n d → advance k n d ≢ some m
unfolding advance find_head
Past-advance k n m d past e = elim (Option-cases (find_head k d)) [
  | inl h ↦ cc (
    first-none (λ (h : ConfigurationHead). h.latest_version) (is_head k) d.configuration_heads h,
    past.headed,
  )
  | inr (h, found) ↦
      let at : h.latest_version ≡ n = advanced-at n m h (ap (advanced n) (sym found) ∙ e) in
      let stored : Within h d.configuration_heads =
        first-Within (λ (h : ConfigurationHead). h.latest_version) (is_head k) d.configuration_heads
          h found in
      let head : is_head k h ≡ true =
        first_holds (λ (h : ConfigurationHead). h.latest_version) (is_head k) d.configuration_heads
          h found in
      cc (Within-exists (at_version k n) d.configuration_heads h stored (ground arith), past.left)
]

module _ (k : Setting) where
  new_head :
      is_head k record {
        application = k.application;
        environment = k.environment;
        key = k.key;
        latest_version = 1;
      }
      ≡ true
  unfolding is_head
  new_head = ground (
    arith,
    eq_iff k.application k.application,
    eq_iff k.environment k.environment,
    eq_iff k.key k.key,
  )

  is_head-next :
      (h : ConfigurationHead)
      → is_head k (record h { latest_version = h.latest_version + 1 }) ≡ is_head k h
  unfolding is_head
  is_head-next h = refl

  upserted-Past :
      (n m : ℕ) (o : Option ConfigurationHead) (hs : List ConfigurationHead)
      → (o ≡ none → exists (is_head k) hs ≡ false)
      → ((h : ConfigurationHead) → o ≡ some h → exists (is_head k) hs ≡ true)
      → advanced n o ≡ some m
      → (m ≡ n + 1)
        × (exists (is_head k) (upserted k n o hs) ≡ true)
        × (exists (at_version k n) (upserted k n o hs) ≡ false)
  unfolding exists
  upserted-Past n m none hs absent present e = ground (
    arith,
    absent refl,
    new_head,
    exists-append (is_head k) hs (
        record {
          application = k.application;
          environment = k.environment;
          key = k.key;
          latest_version = 1;
        }
        ∷ []),
    exists-append (at_version k n) hs (
        record {
          application = k.application;
          environment = k.environment;
          key = k.key;
          latest_version = 1;
        }
        ∷ []),
    exists-implied (at_version k n) (is_head k) hs (λ h q. ground arith),
  )
  upserted-Past n m (some h) hs absent present e = (
    ground arith,
    exists-update_same (is_head k) _ _ hs is_head-next ∙ present h refl,
    exists-update_self (at_version k n) (λ g. record g { latest_version = g.latest_version + 1 }) hs
        (λ g q. ground arith),
  )

  advance-Past :
      (n m : ℕ) (d : Db) → advance k n d ≡ some m → (m ≡ n + 1) × Past k n (advance_head k n d)
  unfolding advance advance_head find_head
  advance-Past n m d e =
      let r =
        upserted-Past n m (find_head k d) d.configuration_heads
          (first-none (λ (h : ConfigurationHead). h.latest_version) (is_head k)
            d.configuration_heads)
          (first-exists (λ (h : ConfigurationHead). h.latest_version) (is_head k)
            d.configuration_heads)
          e in
      (r.0, record { headed = r.1; left = r.2 })

-- What an accepted request leaves: the next version of its setting, stored, and the one that it was
-- written against left behind.
pub record Accepted (env : Env) (request : VersionRequest) (v : ConfigurationVersion) (d : Db)
    : Type 0 where
  pub next : v.version ≡ request.expected_version + 1
  pub stored : Within v d.configuration_versions
  pub application : v.application ≡ request.setting.application
  pub key : v.key ≡ request.setting.key
  pub author : v.created_by ≡ request.created_by
  pub environment : v.environment ≡ request.setting.environment
  pub value : env.jsonb request.value ≡ some v.value
  pub past : Past request.setting request.expected_version d

module _ (request : VersionRequest) (env : Env) (s : State) (v : ConfigurationVersion) where
  pub create_configuration_version-Accepted :
      (create_configuration_version request env s).0 ≡ ok v
      → Accepted env request v (create_configuration_version request env s).1.db
  unfolding create_configuration_version add_version advance_head
  create_configuration_version-Accepted h =
      Ensures-ok env s (create_configuration_version request) (λ v s'. Accepted env request v s'.db)
        v h
        (Ensures-transaction _ (
          bind_affect _ _ _ (
            bind_required _ _ _ λ version e. bind_ask _ _ (
              bind_required _ _ _ λ value j. bind_ask _ _ (
                bind_insert _ _ _ λ c.
                  Ensures-pure _
                    let r = advance-Past request.setting request.expected_version version s.db e in
                      record {
                        next = r.0;
                        stored = Within-append_last s.db.configuration_versions _;
                        application = refl;
                        key = refl;
                        author = refl;
                        environment = refl;
                        value = j;
                        past = record { headed = r.1.headed; left = r.1.left };
                      })))))

  Past-create_configuration_version :
      Past request.setting request.expected_version s.db
      → (create_configuration_version request env s).0 ≢ ok v
  unfolding create_configuration_version
  Past-create_configuration_version past h =
      Ensures-ok env s (create_configuration_version request) (λ v s'. ⊥) v h
        (Ensures-transaction _ (
          bind_affect _ _ _ (
            bind_required _ _ _ λ version e.
              absurd (Past-advance request.setting request.expected_version version s.db past e))))

-- A request that is accepted stores the version after the one that it expected. Of two requests
-- for one setting that expect the same version only the first is accepted: the second one fails,
-- in any environment, whatever it asks for.
pub create_configuration_version_once :
    (first second : VersionRequest) (env env' : Env) (s : State) (v w : ConfigurationVersion)
    → first.setting ≡ second.setting
    → first.expected_version ≡ second.expected_version
    → (create_configuration_version first env s).0 ≡ ok v
    → (v.version ≡ first.expected_version + 1)
      × Within v (create_configuration_version first env s).1.db.configuration_versions
      × ((create_configuration_version second env' (create_configuration_version first env s).1).0
          ≢ ok w)
create_configuration_version_once first second env env' s v w es ev h =
    let a = create_configuration_version-Accepted first env s v h in
    let past : Past second.setting second.expected_version
        (create_configuration_version first env s).1.db =
      rw (← es, ← ev) a.past in
    (a.next, a.stored, Past-create_configuration_version second env' _ w past)
