-- ===== src/FeePolicy.antt =====
-- internal/domain/configuration.go: the platform fee policy and its canonical text.
pub mod Decimals
pub mod Canonical
use kelolakelas_identity_ser.Base.{
  ℕ, zero, suc, ◌+◌, ◌-◌, ◌*◌, ◌/◌, ◌%◌, Bool, true, false, ◌&&◌, ◌||◌, not, Option, none, some,
  List, [], ◌∷◌, ◌++◌, if◌then◌else◌, ltb, leb, ◌==◌, nat_eq, text_eq, Text, ℤ, pos, negsuc,
  negative, above,
}
use kelolakelas_identity_ser.Sql.{Error, Result, ok, err, invalid_platform_fee_policy}

-- domain.PlatformFeePolicyValue
pub record FeeValue : Type 0 where
  pub percent_bps : ℤ
  pub fixed_fee : ℤ

abbrev pub max_percent_bps : ℕ
max_percent_bps = 2000

abbrev pub max_fixed_fee : ℕ
max_fixed_fee = 50000

unfoldable pub validate : FeeValue → Result (Unit {0})
validate v =
    if negative v.percent_bps
      || above v.percent_bps max_percent_bps
      || negative v.fixed_fee
      || above v.fixed_fee max_fixed_fee
    then err invalid_platform_fee_policy
    else ok tt

-- The digits of a number, put in front of a text: one round for each digit.
unfoldable pub emit : ℕ → ℕ → Text → Text
emit zero n out = out
emit (suc fuel) n out =
    let more = emit fuel (n / 10) ((b'0' + n % 10) ∷ out) in
    if ltb n 10 then (b'0' + n) ∷ out else more

-- `%d` of a number that is not negative: a number has fewer digits than its successor has units.
unfoldable pub decimal : ℕ → Text
decimal n = emit (suc n) n []

-- `%d`
unfoldable pub format_int : ℤ → Text
format_int (pos n) = decimal n
format_int (negsuc n) = b'-' ∷ decimal (suc n)

-- "percent_bps=" and ",fixed_fee="
abbrev pub percent_label : Text
percent_label =
    b'p' ∷ b'e' ∷ b'r' ∷ b'c' ∷ b'e' ∷ b'n' ∷ b't' ∷ b'_' ∷ b'b' ∷ b'p' ∷ b's' ∷ b'=' ∷ []

abbrev pub fixed_label : Text
fixed_label = b',' ∷ b'f' ∷ b'i' ∷ b'x' ∷ b'e' ∷ b'd' ∷ b'_' ∷ b'f' ∷ b'e' ∷ b'e' ∷ b'=' ∷ []

unfoldable pub encode : FeeValue → Text
encode v = percent_label ++ (format_int v.percent_bps ++ (fixed_label ++ format_int v.fixed_fee))

abbrev pub is_digit : ℕ → Bool
is_digit c = leb b'0' c && leb c b'9'

-- `[0-9]{0,k}`: the digits and the text after them
unfoldable pub digit_run : ℕ → Text → Text × Text
digit_run k [] = ([], [])
digit_run zero (c ∷ s) = ([], c ∷ s)
digit_run (suc k) (c ∷ s) =
    let (ds, rest) = digit_run k s in if is_digit c then (c ∷ ds, rest) else ([], c ∷ s)

-- `(0|[1-9][0-9]{0,k})`: what it matches and the text after it
unfoldable pub match_number : ℕ → Text → Option (Text × Text)
match_number k [] = none
match_number k (c ∷ s) =
    if c == b'0'
    then some (b'0' ∷ [], s)
    else if is_digit c
    then some (c ∷ (digit_run k s).0, (digit_run k s).1)
    else none

-- A literal part of a pattern: the text after it.
unfoldable pub match_label : Text → Text → Option Text
match_label [] s = some s
match_label (c ∷ label) [] = none
match_label (c ∷ label) (d ∷ s) = if c == d then match_label label s else none

infixl 5 ◌>>=◌
abbrev pub ◌>>=◌ : {A B : Type 0} → Option A → (A → Option B) → Option B
none >>= f = none
some a >>= f = f a

-- platformFeePolicyPattern: the two submatches
unfoldable pub match_policy : Text → Option (Text × Text)
match_policy text = do
  numbers ← match_label percent_label text
  (percent, rest) ← match_number 3 numbers
  rest ← match_label fixed_label rest
  (fixed, rest) ← match_number 4 rest
  if rest == [] then some (percent, fixed) else none

-- strconv.ParseInt of digits: the pattern admits at most five, so it is never out of range.
unfoldable pub parse_digits : ℕ → Text → ℕ
parse_digits n [] = n
parse_digits n (c ∷ s) = parse_digits (n * 10 + (c - b'0')) s

abbrev pub checked_value : FeeValue → Result (Unit {0}) → Result FeeValue
checked_value v (ok u) = ok v
checked_value v (err e) = err invalid_platform_fee_policy

abbrev pub parsed_value : Option (Text × Text) → Result FeeValue
parsed_value none = err invalid_platform_fee_policy
parsed_value (some (percent, fixed)) =
    let value : FeeValue = record {
      percent_bps = pos (parse_digits 0 percent);
      fixed_fee = pos (parse_digits 0 fixed);
    } in
    checked_value value (validate value)

unfoldable pub parse_fee_value : Text → Result FeeValue
parse_fee_value text = parsed_value (match_policy text)
