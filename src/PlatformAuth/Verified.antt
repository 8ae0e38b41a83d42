-- ===== src/PlatformAuth/Verified.antt =====
-- What a verified token of internal/usecase/platform_factor.go rests on.
use kelolakelas_identity_ser.Base.{
  ℕ, ◌<◌, ◌≡◌, refl, sym, ap, ◌∙◌, String, ◌==◌, nat_eq, true, Option, none, some, Text, arith,
  first_holds, suc,
}
use mathlib.Core.Path.{subst}
use kelolakelas_identity_ser.Schema.{Uuid, Time, Db, User, FactorAssignment}
use kelolakelas_identity_ser.Sql.{Env, State, Result, ok, err, steps_after, tick}
use kelolakelas_identity_ser.Sql.Rules.{
  Ensures, Ensures-pure, Ensures-guard, Ensures-required, Ensures-ok, Ensures-bind, Ensures-weaken,
  Ensures-self, Ensures-on_error, bind_query, bind_required, bind_ask, bind_guard,
}
use kelolakelas_identity_ser.Resets.{user_by_id}
use kelolakelas_identity_ser.Sessions.{
  Jwt, Claims, validate_token, sign, generate_verified_platform_token,
}
use kelolakelas_identity_ser.Factor.{
  Crypto, assignment, consume_factor, assignment_version, factor_version,
}
use kelolakelas_identity_ser.Factor.Challenges.{Admitted, consume_factor-Admitted}
use kelolakelas_identity_ser.PlatformAuth.{
  FactorLib, valid_claims, of_size, check_factor, is_active_admin, check_admin, check_version,
  pending_claims, finish_factor,
}

-- The store with the check of a code at a time.
abbrev pub checking : FactorLib → Crypto → Text → Time → Crypto
checking f crypto code at = record crypto {
  verify = λ secret. some (check_factor f secret code at);
}

pub record Verified (f : FactorLib) (lib : Jwt) (crypto : Crypto) (presented : String)
    (sent code : Text) (purpose : String) (env : Env) (s : State) (after : Db) (token : String)
    : Type 0 where
  pub password_stage : Claims
  pub parsed_stage : validate_token lib (env.now s.step) presented ≡ ok password_stage
  pub pending : password_stage.platform_pending ≡ true
  pub challenge : Text
  pub challenge_sent : f.unhex sent ≡ some challenge
  pub now : Time
  pub checked : Time
  pub read : (now ≡ env.now (steps_after 4 s.step)) × (checked ≡ env.now (steps_after 5 s.step))
  pub consumed : Db
  pub admitted :
      Admitted
        (checking f crypto code checked)
        password_stage.user_id
        purpose
        challenge
        now
        s.db
        consumed
  pub active : is_active_admin password_stage.user_id after ≡ true
  pub factor : FactorAssignment
  pub current : assignment password_stage.user_id after ≡ some factor
  pub positive : 0 < factor.factor_version
  pub claims : Claims
  pub signed : lib.signed_string claims ≡ some token
  pub subject : claims.user_id ≡ password_stage.user_id
  pub verified :
      (claims.is_platform_admin ≡ true) × (claims.platform_factor_version ≡ factor.factor_version)

valid-ok : (r : Result Claims) (c : Claims) → valid_claims r ≡ some c → r ≡ ok c
valid-ok (ok a) c e = ground (arith, e)
valid-ok (err x) c e = cc

of_size-unhex : (o : Option Text) (t : Text) → of_size o ≡ some t → o ≡ some t
of_size-unhex none t e = cc
of_size-unhex (some a) t e = ground (arith, e)

module _ (env : Env) (s : State) where
  check_admin-active :
      (id : Uuid)
      → Ensures env s (check_admin id) λ u s'.
        (is_active_admin id s.db ≡ true) × (s'.db ≡ s.db) × (s'.step ≡ steps_after 2 s.step)
  unfolding check_admin
  check_admin-active id = bind_guard _ _ _ λ g. bind_query _ _ (
      bind_guard _ _ _
        λ a. bind_query _ _ (bind_required _ _ _ λ u e. Ensures-pure _ (a, refl, refl)))

  assignment_version-keeps :
      (crypto : Crypto) (id : Uuid)
      → Ensures env s (assignment_version crypto id) λ n s'. (s'.db ≡ s.db) × (s'.step ≡ suc s.step)
  unfolding assignment_version
  assignment_version-keeps crypto id = bind_guard _ _ _ λ g.
      bind_query _ _ (bind_required _ _ _ λ a e. bind_guard _ _ _ λ g'. Ensures-pure _ (refl, refl))

  factor_version-current :
      (crypto : Crypto) (id : Uuid)
      → Ensures env s (factor_version crypto id) λ n s'.
        (a : FactorAssignment) × (assignment id s.db ≡ some a)
        × (n ≡ a.factor_version)
        × (s'.db ≡ s.db)
  unfolding factor_version
  factor_version-current crypto id = bind_guard _ _ _ λ g.
      bind_query _ _
        (bind_required _ _ _ λ a e. bind_guard _ _ _ λ g'. Ensures-pure _ (a, e, refl, refl))

same_version :
    (n version : ℕ) (a : FactorAssignment)
    → n == version ≡ true
    → n ≡ a.factor_version
    → a.factor_version ≡ version
same_version n version a q e = ground (arith, q, e)

module _ (env : Env) (s : State) where
  pub check_version-current :
      (crypto : Crypto) (id : Uuid) (version : ℕ)
      → Ensures env s (check_version crypto id version) λ u s'.
        (a : FactorAssignment) × (assignment id s.db ≡ some a)
        × (a.factor_version ≡ version)
        × (0 < version)
        × (is_active_admin id s.db ≡ true)
        × (s'.db ≡ s.db)
  unfolding check_version
  check_version-current crypto id version = bind_guard _ _ _ λ g. Ensures-bind _ _ (
      Ensures-weaken env s _ _ _ (check_admin-active env s id) λ u s1 r1. Ensures-bind _ _ (
        Ensures-weaken env s1 _ _ _ (Ensures-on_error _ _ (factor_version-current env s1 crypto id))
          λ n s2 r2. Ensures-guard _ _ λ q. (
            r2.0,
            ap (assignment id) (sym r1.1) ∙ r2.1,
            same_version n version r2.0 q r2.2,
            ground arith,
            r1.0,
            r2.3 ∙ r1.1,
          )))

  pending_claims-pending :
      (lib : Jwt) (crypto : Crypto) (token : String)
      → Ensures env s (pending_claims lib crypto token) λ c s'.
        (c.platform_pending ≡ true)
        × (s'.db ≡ s.db)
        × (s'.step ≡ steps_after 4 s.step)
        × (validate_token lib (env.now s.step) token ≡ ok c)
  unfolding pending_claims
  pending_claims-pending lib crypto token = bind_ask _ _ (
      bind_required _ _ _ λ c e. bind_guard _ _ _ λ g. Ensures-bind _ _ (
        Ensures-weaken env _ _ _ _ (check_admin-active env _ c.user_id) λ u s1 r1.
          Ensures-bind _ _ (
            Ensures-weaken env s1 _ _ _
              (Ensures-on_error _ _ (assignment_version-keeps env s1 crypto c.user_id))
              λ n s2 r2. bind_guard _ _ _ λ q.
                Ensures-pure _ (ground arith, r2.0 ∙ r1.1, r2.1 ∙ ap suc r1.2, valid-ok _ c e))))

  verified-signed :
      (lib : Jwt) (user_id : Uuid) (email : Text) (version : ℕ)
      → Ensures env s (generate_verified_platform_token lib user_id email none version) λ t s'.
        (c : Claims) × (lib.signed_string c ≡ some t)
        × (c.user_id ≡ user_id)
        × (c.is_platform_admin ≡ true)
        × (c.platform_factor_version ≡ version)
        × (s'.db ≡ s.db)
  unfolding generate_verified_platform_token sign
  verified-signed lib user_id email version =
      bind_ask _ _ (bind_ask _ _ (Ensures-required _ _ λ t e. (_, e, refl, refl, refl, refl)))

user_by_id-id : (d : Db) (id : Uuid) (u : User) → user_by_id id d ≡ some u → u.id ≡ id
unfolding user_by_id
user_by_id-id d id u e = ground (arith, first_holds (λ (u : User). u.id) _ d.users u e)

-- A verified token is issued only for a token that validates at the start of the call as one of the
-- password stage, and after the code has been accepted for the challenge that was sent, of the
-- account of that token, at the readings of the clock that follow; after that the account is still an active administrator, and the token names
-- this account as administrator with the factor's current version, which is not 0.
pub finish_factor-Verified :
    (f : FactorLib) (lib : Jwt) (crypto : Crypto) (pending : String) (challenge code : Text)
    (purpose : String) (env : Env) (s : State) (token : String)
    → (finish_factor f lib crypto pending challenge code purpose env s).0 ≡ ok token
    → Verified f lib crypto pending challenge code purpose env s
        (finish_factor f lib crypto pending challenge code purpose env s).1.db
        token
unfolding finish_factor
finish_factor-Verified f lib crypto pending challenge code purpose env s token h =
    Ensures-ok env s (finish_factor f lib crypto pending challenge code purpose)
      (λ t s'. Verified f lib crypto pending challenge code purpose env s s'.db t) token h
      (Ensures-bind _ _ (
        Ensures-weaken env s _ _ _ (pending_claims-pending env s lib crypto pending) λ c s1 r1.
          bind_required _ _ _ λ raw e1. bind_ask _ _ (
            bind_ask _ _ (
              Ensures-bind _ _ (
                Ensures-weaken env _ _ _ _
                  (Ensures-on_error _ _ (
                    Ensures-self env _ (
                      consume_factor (checking f crypto code (env.now _)) c.user_id purpose raw
                        (env.now _))))
                  λ (accepted, version) s2 r2. bind_guard _ _ _ λ g. Ensures-bind _ _ (
                    Ensures-weaken env s2 _ _ _
                      (check_version-current env s2 crypto c.user_id version)
                      λ u s3 r3. bind_query _ _ (
                        bind_required _ _ _ λ user e2.
                          Ensures-weaken env _ _ _ _
                            (verified-signed env _ lib user.id user.email version)
                            λ t s4 r4.
                              let after = r4.5 ∙ r3.5 in
                              record {
                                password_stage = c;
                                parsed_stage = r1.3;
                                pending = r1.0;
                                challenge = raw;
                                challenge_sent = of_size-unhex _ raw e1;
                                now = env.now s1.step;
                                checked = env.now (suc s1.step);
                                read = (ap env.now r1.2, ap (λ n. env.now (suc n)) r1.2);
                                consumed =
                                    (consume_factor (checking f crypto code (env.now (suc s1.step)))
                                      c.user_id purpose raw (env.now s1.step) env
                                      (tick (tick s1))).1.db;
                                admitted =
                                    subst
                                      (λ d.
                                        Admitted (checking f crypto code (env.now (suc s1.step)))
                                          c.user_id purpose raw (env.now s1.step) d
                                          (consume_factor
                                            (checking f crypto code (env.now (suc s1.step)))
                                            c.user_id purpose raw (env.now s1.step) env
                                            (tick (tick s1))).1.db)
                                      r1.1
                                      (consume_factor-Admitted
                                        (checking f crypto code (env.now (suc s1.step))) c.user_id
                                        purpose raw (env.now s1.step) env (tick (tick s1))
                                        (accepted, version) r2.0 g);
                                active = ap (is_active_admin c.user_id) after ∙ r3.4;
                                factor = r3.0;
                                current = ap (assignment c.user_id) after ∙ r3.1;
                                positive = rw r3.2 r3.3;
                                claims = r4.0;
                                signed = r4.1;
                                subject = r4.2 ∙ user_by_id-id s3.db c.user_id user e2;
                                verified = (r4.3, r4.4 ∙ sym r3.2);
                              })))))))
