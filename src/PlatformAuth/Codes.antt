-- ===== src/PlatformAuth/Codes.antt =====
-- The codes of internal/usecase/platform_factor.go.
use kelolakelas_identity_ser.Base.{
  ℕ, ◌+◌, ◌/◌, ◌%◌, ◌<◌, ◌≡◌, ◌↔◌, ◌⊎◌, inl, inr, refl, ◌==◌, nat_eq, text_eq, Bool, true, false,
  ◌&&◌, ◌||◌, not, [], ◌∷◌, Text, arith, length, if◌then◌else◌, is_some, text_beq_iff,
}
use mathlib.Core.Path.{subst}
use kelolakelas_identity_ser.Schema.{Time}
use kelolakelas_identity_ser.Resets.{second}
use kelolakelas_identity_ser.FeePolicy.{is_digit, parse_digits}
use kelolakelas_identity_ser.ControlPlane.Texts.{all_digits, parse_int}
use kelolakelas_identity_ser.PlatformAuth.{
  FactorLib, six_digits, factor_code, counter_before, check_factor,
}

is_digit-plus : (a : ℕ) → a < 10 → is_digit (b'0' + a) ≡ true
is_digit-plus a h = ground arith

parse_int_digits :
    (c : ℕ) (s : Text)
    → is_digit c ≡ true
    → all_digits s ≡ true
    → parse_digits 0 (c ∷ s) < 9223372036854775808
    → is_some (parse_int (c ∷ s)) ≡ true
unfolding parse_int
parse_int_digits c s h t b = ground (arith, h, t, b)

both : {a b : Bool} → a ≡ true → b ≡ true → (a && b) ≡ true
both h k = ground (arith, h, k)

digits-parse_int :
    (a b c d e g : ℕ)
    → a < 10
    → b < 10
    → c < 10
    → d < 10
    → e < 10
    → g < 10
    → is_some (
        parse_int
          ((b'0' + a) ∷ (b'0' + b) ∷ (b'0' + c) ∷ (b'0' + d) ∷ (b'0' + e) ∷ (b'0' + g) ∷ []))
      ≡ true
unfolding parse_digits
digits-parse_int a b c d e g ha hb hc hd he hg =
    parse_int_digits _ _ (is_digit-plus a ha)
      (both (is_digit-plus b hb) (
        both (is_digit-plus c hc)
          (both (is_digit-plus d hd) (both (is_digit-plus e he) (both (is_digit-plus g hg) refl)))))
      (omega arith)

remainder : (n : ℕ) → n % 10 < 10
remainder n = omega arith

six_digits-parse_int : (n : ℕ) → is_some (parse_int (six_digits n)) ≡ true
six_digits-parse_int n =
    digits-parse_int (n / 100000 % 10) (n / 10000 % 10) (n / 1000 % 10) (n / 100 % 10) (n / 10 % 10)
      (n % 10) (remainder _) (remainder _) (remainder _) (remainder _) (remainder _) (remainder _)

six_digits-accepted :
    (n : ℕ) (code : Text)
    → six_digits n ≡ code
    → (length code ≡ 6) × (is_some (parse_int code) ≡ true)
six_digits-accepted n code e =
    subst (λ code. (length code ≡ 6) × (is_some (parse_int code) ≡ true)) e
      (refl, six_digits-parse_int n)

abbrev accepts : Text → Text → Text → Text → Bool
accepts x y z code =
    if not (length code == 6)
    then false
    else if not (is_some (parse_int code))
    then false
    else x == code || y == code || z == code

accepts-cases :
    (x y z code : Text) → accepts x y z code ≡ true → (x ≡ code) ⊎ ((y ≡ code) ⊎ (z ≡ code))
accepts-cases x y z code h =
    ground (arith, text_beq_iff x code, text_beq_iff y code, text_beq_iff z code)

accepts_one :
    (x y z code : Text)
    → (length code ≡ 6) × (is_some (parse_int code) ≡ true)
    → (x == code || y == code || z == code) ≡ true
    → accepts x y z code ≡ true
accepts_one x y z code g h = ground (arith, g, h)

-- A code is accepted exactly when it is the code of the time's half minute, of the one before or of
-- the one after: the checks on its length and digits refuse nothing else.
pub check_factor-factor_code :
    (f : FactorLib) (secret code : Text) (now : Time)
    → let n = now / second / 30 in
      (check_factor f secret code now ≡ true) ↔ (
        (factor_code f secret (counter_before n) ≡ code)
        ⊎ ((factor_code f secret n ≡ code) ⊎ (factor_code f secret (n + 1) ≡ code)))
unfolding check_factor factor_code
check_factor-factor_code f secret code now =
    let n = now / second / 30 in
    let x = factor_code f secret (counter_before n) in
    let y = factor_code f secret n in
    let z = factor_code f secret (n + 1) in
    (
      accepts-cases x y z code,
      λ h. elim h [
        | inl e ↦
            accepts_one x y z code (six_digits-accepted _ code e)
              (ground (arith, text_beq_iff x code, e))
        | inr (inl e) ↦
            accepts_one x y z code (six_digits-accepted _ code e)
              (ground (arith, text_beq_iff y code, e))
        | inr (inr e) ↦
            accepts_one x y z code (six_digits-accepted _ code e)
              (ground (arith, text_beq_iff z code, e))
      ],
    )
