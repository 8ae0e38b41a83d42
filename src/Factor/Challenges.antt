-- ===== src/Factor/Challenges.antt =====
-- A challenge admits one right code and five wrong ones.
use kelolakelas_identity_ser.Base.{
  ℕ, ◌<◌, ◌≡◌, ◌≢◌, refl, ap, ◌∙◌, String, ◌==◌, nat_eq, string_eq, text_eq, text_beq,
  text_beq_refl, text_beq_eq, Bool, true, false, ◌&&◌, Option, none, some, List, [], ◌∷◌, arith,
  Text, eq_iff, All, All-Within, update, Within, first_holds, first-Within, is_some,
}
use kelolakelas_identity_ser.Schema.{Time, Uuid, Db, FactorAssignment, FactorChallenge}
use kelolakelas_identity_ser.Sql.{Env, State, ok, tick}
use kelolakelas_identity_ser.Sql.Rules.{
  Ensures, Ensures-pure, Ensures-transaction, Ensures-ok, Ensures-branch, Ensures-weaken,
  bind_query, bind_required, bind_guard, bind_execute,
}
use kelolakelas_identity_ser.Factor.{
  Crypto, challenge, is_challenge, assignment, stale, consume_challenge, enroll_factor,
  settle_challenge, check_challenge, consume_factor, secret_of,
}

-- Every stored challenge with this hash has been consumed.
abbrev Consumed : Text → Db → Type 0
Consumed hash d =
    All (λ (c : FactorChallenge). text_beq c.token_hash hash ≡ true → is_some c.consumed_at ≡ true)
      d.platform_factor_challenges

consume-Consumed :
    (hash : Text) (now : Time) (xs : List FactorChallenge)
    → All
        (λ (c : FactorChallenge). text_beq c.token_hash hash ≡ true → is_some c.consumed_at ≡ true)
        (update
          (λ k. k.token_hash == hash)
          (λ k. record k { consumed_at = some now; pending_secret = [] })
          xs)
unfolding update
consume-Consumed hash now [] = tt
consume-Consumed hash now (x ∷ xs) = ((λ e. ground arith), consume-Consumed hash now xs)

-- What an accepted code rests on: the assignment of the user and a stored challenge of the user for the purpose, unspent, in
-- date, with less than five wrong codes so far, issued under the factor's version, and a secret
-- that the code matches.
pub record Admitted (crypto : Crypto) (id : Uuid) (purpose : String) (token : Text) (now : Time)
    (before after : Db) : Type 0 where
  pub factor : FactorAssignment
  pub factor_stored : Within factor before.platform_admin_assignments
  pub factor_owner : factor.user_id ≡ id
  pub active : factor.is_active ≡ true
  pub challenge : FactorChallenge
  pub challenge_stored : Within challenge before.platform_factor_challenges
  pub hash : challenge.token_hash ≡ crypto.digest token
  pub owner : challenge.user_id ≡ id
  pub asked_for : challenge.purpose ≡ purpose
  pub unspent : challenge.consumed_at ≡ none
  pub in_date : now < challenge.expires_at
  pub tries : challenge.attempts < 5
  pub version : challenge.factor_version ≡ factor.factor_version
  pub matched :
      (secret : Text) × (crypto.unseal (secret_of purpose factor challenge) ≡ some secret)
      × (crypto.verify secret ≡ some true)
  pub spent : Consumed (crypto.digest token) after

module _ (crypto : Crypto) (id : Uuid) (purpose : String) (token : Text) (now : Time)
    (env : Env) where
  found-challenge :
      (d : Db) (c : FactorChallenge)
      → challenge (crypto.digest token) id purpose d ≡ some c
      → Within c d.platform_factor_challenges
        × (c.token_hash ≡ crypto.digest token)
        × (c.user_id ≡ id)
        × (c.purpose ≡ purpose)
  unfolding challenge is_challenge
  found-challenge d c e =
      let held =
        first_holds (λ (c : FactorChallenge). c.attempts)
          (λ c. c.token_hash == crypto.digest token && c.user_id == id && c.purpose == purpose)
          d.platform_factor_challenges c e in
      (
        first-Within (λ (c : FactorChallenge). c.attempts)
            (λ c. c.token_hash == crypto.digest token && c.user_id == id && c.purpose == purpose)
            d.platform_factor_challenges c e,
        text_beq_eq c.token_hash (crypto.digest token) (ground arith),
        ground arith,
        ground (arith, eq_iff c.purpose purpose),
      )

  settle_accepted :
      (s : State) (a : FactorAssignment) (c : FactorChallenge) (matches : Bool)
      → Ensures env s
          (settle_challenge purpose a c now matches)
          (λ r s'. r.0 ≡ true → (matches ≡ true) × Consumed c.token_hash s'.db)
  unfolding settle_challenge consume_challenge enroll_factor
  settle_accepted s a c false = bind_execute _ _ (Ensures-pure _ λ k. cc)
  settle_accepted s a c true =
      Ensures-branch _ _ _
        (λ e. bind_execute _ _ (
          bind_execute _ _ (
            Ensures-pure _
              λ k. (refl, consume-Consumed c.token_hash now s.db.platform_factor_challenges))))
        (λ v. bind_execute _ _ (
          Ensures-pure _
            λ k. (refl, consume-Consumed c.token_hash now s.db.platform_factor_challenges)))

  check_accepted :
      (s : State) (a : FactorAssignment) (o : Option FactorChallenge)
      → Within a s.db.platform_admin_assignments
      → a.is_active ≡ true
      → a.user_id ≡ id
      → challenge (crypto.digest token) id purpose s.db ≡ o
      → Ensures env s
          (check_challenge crypto purpose a now o)
          (λ r s'. r.0 ≡ true → Admitted crypto id purpose token now s.db s'.db)
  unfolding check_challenge stale
  check_accepted s a none stored active mine e = Ensures-pure _ λ k. cc
  check_accepted s a (some c) stored active mine e =
      Ensures-branch _ _ _ (λ bad. Ensures-pure _ λ k. cc)
        λ good. bind_required _ _ _ λ secret hs. bind_required _ _ _ λ matches hm.
          Ensures-weaken env s _ _ _ (settle_accepted s a c matches) λ r s' h k.
            let held = found-challenge s.db c e in
            record {
              factor = a;
              factor_stored = stored;
              factor_owner = mine;
              active = active;
              challenge = c;
              challenge_stored = held.0;
              hash = held.1;
              owner = held.2;
              asked_for = held.3;
              unspent = ground (arith, good);
              in_date = ground (arith, good);
              tries = ground (arith, good);
              version = ground (arith, good);
              matched = (secret, hs, hm ∙ ap some (h k).0);
              spent = rw (← held.1) (h k).1;
            }

  -- A code is accepted only from an active administrator, under the assignment of that user, for a
  -- challenge of that user and for this purpose that is unspent, in date, under the current version of the factor and with less than five wrong codes
  -- so far, and only if it matches the secret; the challenge is consumed afterwards.
  pub consume_factor-Admitted :
      (s : State) (r : Bool × ℕ)
      → (consume_factor crypto id purpose token now env s).0 ≡ ok r
      → r.0 ≡ true
      → Admitted crypto id purpose token now s.db
          (consume_factor crypto id purpose token now env s).1.db
  unfolding consume_factor assignment
  consume_factor-Admitted s r h =
      Ensures-ok env s (consume_factor crypto id purpose token now)
        (λ r s'. r.0 ≡ true → Admitted crypto id purpose token now s.db s'.db) r h
        (bind_guard _ _ _ λ key. Ensures-transaction _ (
          bind_query _ _ (
            bind_required _ _ _ λ a found. bind_guard _ _ _ λ active. bind_query _ _ (
              Ensures-weaken env _ _ _ _
                (check_accepted (tick (tick (tick s))) a _
                  (first-Within (λ (a : FactorAssignment). a.factor_version) (λ a. a.user_id == id)
                    s.db.platform_admin_assignments a found)
                  active
                  (ground (
                    arith,
                    first_holds (λ (a : FactorAssignment). a.factor_version) (λ a. a.user_id == id)
                        s.db.platform_admin_assignments a found,
                  ))
                  refl)
                λ r s' k e. k e))))

  -- A consumed challenge admits no code.
  Consumed-consume_factor :
      (s : State) (r : Bool × ℕ)
      → Consumed (crypto.digest token) s.db
      → (consume_factor crypto id purpose token now env s).0 ≡ ok r
      → r.0 ≢ true
  Consumed-consume_factor s r spent h e =
      let a = consume_factor-Admitted s r h e in
      let hash : text_beq a.challenge.token_hash (crypto.digest token) ≡ true =
        rw a.hash (text_beq_refl (crypto.digest token)) in
      let used =
        All-Within
          (λ (c : FactorChallenge).
            text_beq c.token_hash (crypto.digest token) ≡ true → is_some c.consumed_at ≡ true)
          s.db.platform_factor_challenges a.challenge spent a.challenge_stored hash in
      ground (arith, a.unspent)

-- A challenge admits one code: once a code has been accepted for it, no later attempt with its
-- token is accepted on the tables that it left, whatever the code, the purpose and the time, as
-- long as the digest of the token stays the same.
pub consume_factor_once :
    (crypto crypto' : Crypto) (id id' : Uuid) (purpose purpose' : String) (token : Text)
    (now later : Time) (env env' : Env) (s : State) (v w : ℕ)
    → crypto'.digest token ≡ crypto.digest token
    → (consume_factor crypto id purpose token now env s).0 ≡ ok (true, v)
    → (consume_factor crypto' id' purpose' token later env'
        (consume_factor crypto id purpose token now env s).1).0
      ≢ ok (true, w)
consume_factor_once crypto crypto' id id' purpose purpose' token now later env env' s v w same h
      h' =
    Consumed-consume_factor crypto' id' purpose' token later env' _ (true, w)
      (rw same (consume_factor-Admitted crypto id purpose token now env s (true, v) h refl).spent)
      h' refl
