-- ===== src/ControlPlane/Managed.antt =====
-- What CreateVersion of internal/usecase/configuration.go lets into the store.
use kelolakelas_identity_ser.Base.{
  ◌+◌, ◌≡◌, ◌≢◌, refl, ap, sym, ◌∙◌, ◌==◌, nat_eq, string_eq, true, false, Option, none, some,
  arith, ℤ, pos, String, Text, Within,
}
use mathlib.Core.Path.{subst}
use kelolakelas_identity_ser.Schema.{Db, ConfigurationVersion}
use kelolakelas_identity_ser.Sql.{Env, State, Result, ok, err}
use kelolakelas_identity_ser.Sql.Rules.{
  Ensures, Ensures-pure, Ensures-throw, Ensures-branch, Ensures-ok, Ensures-bind, Ensures-weaken,
  Ensures-self, Ensures-given, bind_required, bind_guard,
}
use kelolakelas_identity_ser.Configuration.{Setting, create_configuration_version}
use kelolakelas_identity_ser.Configuration.Versions.{create_configuration_version-Accepted}
use kelolakelas_identity_ser.FeePolicy.{FeeValue, validate, encode, parse_fee_value}
use kelolakelas_identity_ser.FeePolicy.Canonical.{parse_fee_value-encode}
use kelolakelas_identity_ser.ControlPlane.{
  CreateRequest, managed, create_version, requested_value, setting, magnitude,
}
use kelolakelas_identity_ser.ControlPlane.Catalog.{Definition, find_definition}
use kelolakelas_identity_ser.ControlPlane.Texts.{normalize_environment}
use kelolakelas_identity_ser.ControlPlane.Values.{
  Json, Parsers, check_type, as_string, validate_configuration_value, fee_or_error,
}

-- The value of a fee policy is one JSON string: the canonical text of a rule within the bounds.
pub record FeeText (p : Parsers) (value : Text) : Type 0 where
  pub rule : FeeValue
  pub rest : Text
  pub decoded : p.decode value ≡ some (Json.string (encode rule), rest)
  pub whole : p.at_end rest ≡ true
  pub valid : validate rule ≡ ok tt

not_boolean : (t : String) → t ≡ "platform_fee_policy" → t == "boolean" ≡ true → ⊥
not_boolean t e q = cc (subst (λ (t : String). t == "boolean" ≡ true) e q)

is_fee : (t : String) → t ≡ "platform_fee_policy" → t == "platform_fee_policy" ≡ false → ⊥
is_fee t e q = cc (subst (λ (t : String). t == "platform_fee_policy" ≡ false) e q)

module _ (env : Env) (s : State) (p : Parsers) where
  fee_or_error-canonical :
      (text : Text) (r : Result FeeValue)
      → parse_fee_value text ≡ r
      → Ensures env s
          (fee_or_error r)
          λ u s'. (v : FeeValue) × (validate v ≡ ok tt) × (encode v ≡ text)
  fee_or_error-canonical text (ok v) e =
      let r = (parse_fee_value-encode text v).0 e in Ensures-pure _ (v, r.0, r.1)
  fee_or_error-canonical text (err x) e = Ensures-throw _

  as_string-inverse : (j : Json) (t : Text) → as_string j ≡ some t → j ≡ Json.string t
  as_string-inverse (Json.string t) u e = ground (arith, e)
  as_string-inverse Json.null u e = cc
  as_string-inverse Json.composite u e = cc
  as_string-inverse (Json.boolean b) u e = cc
  as_string-inverse (Json.number t) u e = cc

  validate_configuration_value-FeeText :
      (d : Definition) (value : Text)
      → d.type ≡ "platform_fee_policy"
      → Ensures env s (validate_configuration_value p d value) λ u s'. FeeText p value
  unfolding validate_configuration_value check_type
  validate_configuration_value-FeeText d value t = bind_guard _ _ _ λ g1.
      bind_required _ _ _ λ (decoded, rest) e. bind_guard _ _ _ λ g2. bind_guard _ _ _ λ g3.
        Ensures-branch _ _ _ (λ q. absurd (not_boolean d.type t q))
          λ q.
            Ensures-branch _ _ _
              (λ q'. bind_required _ _ _ λ text e'.
                Ensures-weaken env s _ _ _ (fee_or_error-canonical text (parse_fee_value text) refl)
                  λ u s' r. record {
                    rule = r.0;
                    rest = rest;
                    decoded =
                        e
                        ∙ ap (λ j. some (j, rest))
                            (as_string-inverse decoded text e' ∙ ap Json.string (sym r.2));
                    whole = g2;
                    valid = r.1;
                  })
              (λ q'. absurd (is_fee d.type t q'))

-- What an accepted request of an operator has stored.
pub record Managed (p : Parsers) (env : Env) (request : CreateRequest) (v : ConfigurationVersion)
    (d : Db) : Type 0 where
  pub definition : Definition
  pub known : find_definition request.application request.key ≡ some definition
  pub plain : definition.sensitive ≡ false
  pub operator : request.created_by ≢ 0
  pub author : v.created_by ≡ request.created_by
  pub next : pos v.version ≡ pos (magnitude request.expected_version + 1)
  pub named : (v.application ≡ request.application) × (v.key ≡ request.key)
  pub stored : Within v d.configuration_versions
  pub value : Text
  pub converted : env.jsonb value ≡ some v.value
  pub checked : definition.type ≡ "platform_fee_policy" → FeeText p value
  pub given : request.rollback_of_version_id ≡ none → value ≡ request.value

module _ (env : Env) where
  managed-plain :
      (s : State) (application key : String)
      → Ensures env s
          (managed application key)
          λ d s'. (find_definition application key ≡ some d) × (d.sensitive ≡ false)
  unfolding managed
  managed-plain s application key =
      bind_required _ _ _ λ d e. bind_guard _ _ _ λ g. Ensures-pure _ (e, ground arith)

  requested_value-given :
      (s : State) (k : Setting) (value : Text) (id : Option ℤ)
      → Ensures env s (requested_value k value id) λ t s'. id ≡ none → t ≡ value
  requested_value-given s k value none = Ensures-pure _ (λ e. refl)
  requested_value-given s k value (some id) =
      Ensures-weaken env s _ _ _ (Ensures-self env s (requested_value k value (some id)))
        (λ t s' h e. cc)

-- A version is stored only for a setting of the catalog that is not a secret, by a named operator,
-- as the next one after the version that the request expects. A fee policy is stored only if its
-- value is the canonical text of a rule within the bounds. What is stored is this value as jsonb, and
-- without a rollback the value is the one of the request.
pub create_version-Managed :
    (p : Parsers) (request : CreateRequest) (env : Env) (s : State) (v : ConfigurationVersion)
    → (create_version p request env s).0 ≡ ok v
    → Managed p env request v (create_version p request env s).1.db
unfolding create_version
create_version-Managed p request env s v h =
    Ensures-ok env s (create_version p request) (λ v s'. Managed p env request v s'.db) v h
      (Ensures-bind _ _ (
        Ensures-weaken env s _ _ _ (managed-plain env s request.application request.key) λ d s1 r1.
          bind_guard _ _ _ λ g1. Ensures-bind _ _ (
            Ensures-weaken env s1 _ _ _
              (Ensures-self env s1 (normalize_environment request.environment))
              λ environment s2 r2. bind_guard _ _ _ λ g2. Ensures-bind _ _ (
                Ensures-weaken env s2 _ _ _
                  (requested_value-given env s2
                    (setting request.application environment request.key) request.value
                    request.rollback_of_version_id)
                  λ value s3 r3. Ensures-bind _ _ (
                    Ensures-weaken env s3 (validate_configuration_value p d value)
                      (λ u s'. d.type ≡ "platform_fee_policy" → FeeText p value) _
                      (Ensures-given env s3 _ _
                        (validate_configuration_value-FeeText env s3 p d value))
                      λ u s4 r4.
                        Ensures-weaken env s4 _ _ _
                          (Ensures-self env s4 (create_configuration_version _))
                          λ v s5 r5.
                            let a = create_configuration_version-Accepted _ env s4 v r5.0 in
                            record {
                              definition = d;
                              known = r1.0;
                              plain = r1.1;
                              operator = ground arith;
                              author = a.author;
                              next = ap pos a.next;
                              named = (a.application, a.key);
                              stored =
                                  subst (λ (t : State). Within v t.db.configuration_versions) r5.1
                                    a.stored;
                              value = value;
                              converted = a.value;
                              checked = r4;
                              given = r3;
                            })))))
