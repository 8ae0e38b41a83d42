-- ===== src/Factor.antt =====
-- internal/repository/platform_factor.go: the second factor of platform administrators.
pub mod Challenges
use kelolakelas_identity_ser.Base.{
  ℕ, ◌+◌, String, ◌==◌, nat_eq, string_eq, text_eq, Bool, true, false, ◌&&◌, ◌||◌, not, Option,
  none, some, List, [], ◌∷◌, ◌++◌, if◌then◌else◌, Text, ltb, first, exists, update, is_some,
}
use kelolakelas_identity_ser.Schema.{Time, Uuid, Db, FactorAssignment, FactorChallenge}
use kelolakelas_identity_ser.Sql.{
  Error, Exec, pure, guard, branch, required, query, insert, execute, ◌>>=◌, ◌>>◌, transaction,
  record_not_found, unique_violation, factor_unavailable, factor_cipher_error,
}
use kelolakelas_identity_ser.Members.{is_null}

-- The key of the store, AES-GCM under it, SHA-256, and the check of a code against a secret;
-- `none` is an error.
pub record Crypto : Type 0 where
  pub has_key : Bool
  pub seal : Text → Option Text
  pub unseal : Text → Option Text
  pub digest : Text → Text
  pub verify : Text → Option Bool

abbrev is_blank : Text → Bool
is_blank [] = true
is_blank (c ∷ s) = false

unfoldable pub assignment : Uuid → Db → Option FactorAssignment
assignment id d = first (λ a. a.factor_version) (λ a. a.user_id == id) d.platform_admin_assignments

unfoldable pub is_challenge : Text → Uuid → String → FactorChallenge → Bool
is_challenge hash id purpose c = c.token_hash == hash && c.user_id == id && c.purpose == purpose

unfoldable pub challenge : Text → Uuid → String → Db → Option FactorChallenge
challenge hash id purpose d =
    first (λ c. c.attempts) (is_challenge hash id purpose) d.platform_factor_challenges

-- Enrolment needs a permitted account without a secret, verification one with a secret.
unfoldable pub eligible : String → FactorAssignment → Bool
eligible purpose a =
    if purpose == "enroll"
    then a.enrollment_allowed && is_blank a.factor_secret
    else purpose == "verify" && not (is_blank a.factor_secret)

unfoldable pub sealed : Crypto → String → Text → Option Text
sealed crypto purpose secret = if purpose == "enroll" then crypto.seal secret else some []

unfoldable pub challenge_constraint : Text → Db → Option Error
challenge_constraint hash d =
    if exists (λ c. c.token_hash == hash) d.platform_factor_challenges
    then some (unique_violation "platform_factor_challenges_pkey")
    else none

unfoldable pub add_challenge : FactorChallenge → Db → Db
add_challenge c d = record d { platform_factor_challenges = d.platform_factor_challenges ++ c ∷ [] }

abbrev challenge_row : Text → Uuid → String → Text → ℕ → Time → FactorChallenge
challenge_row hash id purpose pending version expires_at = record {
  token_hash = hash;
  user_id = id;
  purpose = purpose;
  pending_secret = pending;
  factor_version = version;
  expires_at = expires_at;
  attempts = 0;
  consumed_at = none;
}

-- Begin
unfoldable pub begin_challenge : Crypto → Uuid → String → Text → Text → Time → Exec ℕ
begin_challenge crypto id purpose token secret expires_at = do
  guard crypto.has_key factor_unavailable
  transaction do
    a ← query (assignment id)
    a ← required record_not_found a
    guard a.is_active factor_unavailable
    guard (eligible purpose a) factor_unavailable
    pending ← required factor_cipher_error (sealed crypto purpose secret)
    insert (challenge_constraint (crypto.digest token)) (
        add_challenge
          (challenge_row (crypto.digest token) id purpose pending a.factor_version expires_at))
    pure a.factor_version

-- ch.ConsumedAt != nil || !ch.ExpiresAt.After(now) || ch.Attempts >= 5 || versions that differ
unfoldable pub stale : Time → FactorAssignment → FactorChallenge → Bool
stale now a c =
    is_some c.consumed_at
    || not (ltb now c.expires_at)
    || not (ltb c.attempts 5)
    || not (c.factor_version == a.factor_version)

unfoldable pub secret_of : String → FactorAssignment → FactorChallenge → Text
secret_of purpose a c = if purpose == "enroll" then c.pending_secret else a.factor_secret

-- tx.Model(&ch).Update("attempts", …), by the primary key
unfoldable pub count_attempt : FactorChallenge → Db → Db
count_attempt c d = record d {
  platform_factor_challenges =
      update (λ k. k.token_hash == c.token_hash) (λ k. record k { attempts = c.attempts + 1 })
        d.platform_factor_challenges;
}

-- consumed_at = now, pending_secret = NULL
unfoldable pub consume_challenge : FactorChallenge → Time → Db → Db
consume_challenge c now d = record d {
  platform_factor_challenges =
      update (λ k. k.token_hash == c.token_hash)
        (λ k. record k { consumed_at = some now; pending_secret = [] })
        d.platform_factor_challenges;
}

unfoldable pub enroll_factor : FactorAssignment → Text → Db → Db
enroll_factor a secret d = record d {
  platform_admin_assignments =
      update (λ k. k.user_id == a.user_id)
        (λ k. record k {
          factor_secret = secret;
          enrollment_allowed = false;
          factor_version = a.factor_version + 1;
        })
        d.platform_admin_assignments;
}

-- What a checked code writes: a wrong one counts, a right one spends the challenge.
unfoldable pub settle_challenge :
    String → FactorAssignment → FactorChallenge → Time → Bool → Exec (Bool × ℕ)
settle_challenge purpose a c now false = do execute (count_attempt c); pure (false, 0)
settle_challenge purpose a c now true =
    branch (purpose == "enroll")
      (do
        execute (enroll_factor a c.pending_secret)
        execute (consume_challenge c now)
        pure (true, a.factor_version + 1))
      (do execute (consume_challenge c now); pure (true, a.factor_version))

unfoldable pub check_challenge :
    Crypto → String → FactorAssignment → Time → Option FactorChallenge → Exec (Bool × ℕ)
check_challenge crypto purpose a now none = pure (false, 0)
check_challenge crypto purpose a now (some c) =
    branch (stale now a c || not (eligible purpose a)) (pure (false, 0)) do
      secret ← required factor_cipher_error (crypto.unseal (secret_of purpose a c))
      matches ← required factor_cipher_error (crypto.verify secret)
      settle_challenge purpose a c now matches

-- Consume: whether the code was accepted, and the version of the factor.
unfoldable pub consume_factor : Crypto → Uuid → String → Text → Time → Exec (Bool × ℕ)
consume_factor crypto id purpose token now = do
  guard crypto.has_key factor_unavailable
  transaction do
    a ← query (assignment id)
    a ← required record_not_found a
    guard a.is_active factor_unavailable
    c ← query (challenge (crypto.digest token) id purpose)
    check_challenge crypto purpose a now c

unfoldable pub assignment_version : Crypto → Uuid → Exec ℕ
assignment_version crypto id = do
  guard crypto.has_key factor_unavailable
  a ← query (assignment id)
  a ← required record_not_found a
  guard a.is_active factor_unavailable
  pure a.factor_version

-- Version
unfoldable pub factor_version : Crypto → Uuid → Exec ℕ
factor_version crypto id = do
  guard crypto.has_key factor_unavailable
  a ← query (assignment id)
  a ← required record_not_found a
  guard (a.is_active && not (is_blank a.factor_secret)) factor_unavailable
  pure a.factor_version
