-- ===== src/ControlPlane/Texts.antt =====
-- The texts that internal/usecase/configuration.go walks: numbers, lists, header names and the name
-- of an environment.
use Prim.Native.Char.{Char, code}
use kelolakelas_identity_ser.Base.{
  ◌+◌, ℕ, zero, suc, String, ◌==◌, nat_eq, string_eq, Bool, true, false, ◌&&◌, ◌||◌, not, Option,
  none, some, List, [], ◌∷◌, if◌then◌else◌, ltb, leb, exists, Text, ℤ, pos, negsuc,
}
use kelolakelas_identity_ser.Sql.{Env, Exec, pure, guard, ask, ◌>>=◌, ◌>>◌, invalid_configuration}
use kelolakelas_identity_ser.Emails.{is_space}
use kelolakelas_identity_ser.FeePolicy.{is_digit, parse_digits}

-- strconv.ParseInt(s, 10, 64) of a number of JSON
abbrev in_range : ℤ → Option ℤ
in_range (pos n) = if ltb n 9223372036854775808 then some (pos n) else none
in_range (negsuc n) = if ltb n 9223372036854775808 then some (negsuc n) else none

abbrev negated : ℕ → ℤ
negated zero = pos zero
negated (suc n) = negsuc n

abbrev pub all_digits : Text → Bool
all_digits [] = true
all_digits (c ∷ s) = is_digit c && all_digits s

abbrev unsigned : Text → Option ℕ
unsigned [] = none
unsigned (c ∷ s) = if all_digits (c ∷ s) then some (parse_digits 0 (c ∷ s)) else none

abbrev parsed_int : (ℕ → ℤ) → Option ℕ → Option ℤ
parsed_int sign none = none
parsed_int sign (some n) = in_range (sign n)

unfoldable pub parse_int : Text → Option ℤ
unfolding parse_digits
parse_int [] = none
parse_int (c ∷ s) =
    if c == b'-'
    then parsed_int negated (unsigned s)
    else if c == b'+'
    then parsed_int pos (unsigned s)
    else parsed_int pos (unsigned (c ∷ s))

-- strings.Split(s, ",")
abbrev split_head : ℕ → List Text → List Text
split_head c [] = (c ∷ []) ∷ []
split_head c (part ∷ parts) = (c ∷ part) ∷ parts

unfoldable pub split : Text → List Text
split [] = [] ∷ []
split (c ∷ s) = let parts = split s in if c == b',' then [] ∷ parts else split_head c parts

abbrev is_alphanumeric : ℕ → Bool
is_alphanumeric c =
    (leb b'a' c && leb c b'z') || (leb b'A' c && leb c b'Z') || (leb b'0' c && leb c b'9')

abbrev all_of : (ℕ → Bool) → Text → Bool
all_of p [] = true
all_of p (c ∷ s) = p c && all_of p s

abbrev header_marks : Text
header_marks =
    b'!' ∷ b'#' ∷ b'$' ∷ b'%' ∷ b'&' ∷ 39 ∷ b'*' ∷ b'+' ∷ b'-' ∷ b'.' ∷ b'^' ∷ b'_' ∷ b'`' ∷ b'|'
    ∷ b'~' ∷ []

abbrev pub is_empty_text : Text → Bool
is_empty_text [] = true
is_empty_text (c ∷ s) = false

unfoldable pub valid_header_name : Text → Bool
valid_header_name value =
    not (is_empty_text value)
    && all_of (λ c. is_alphanumeric c || exists (λ m. m == c) header_marks) value

-- strings.TrimSpace of a name
abbrev trim_left_name : Env → String → String
trim_left_name env String.[] = ""
trim_left_name env (String.◌∷◌ c s) =
    let rest = trim_left_name env s in if is_space env (code c) then rest else String.◌∷◌ c s

abbrev unless_blank : Bool → Char → String → String
unless_blank true c String.[] = ""
unless_blank true c (String.◌∷◌ d s) = String.◌∷◌ c (String.◌∷◌ d s)
unless_blank false c s = String.◌∷◌ c s

abbrev trim_right_name : Env → String → String
trim_right_name env String.[] = ""
trim_right_name env (String.◌∷◌ c s) =
    unless_blank (is_space env (code c)) c (trim_right_name env s)

-- len, which counts the bytes of UTF-8
abbrev pub rune_size : ℕ → ℕ
rune_size c = if ltb c 128 then 1 else if ltb c 2_048 then 2 else if ltb c 65_536 then 3 else 4

abbrev byte_length : String → ℕ
byte_length String.[] = 0
byte_length (String.◌∷◌ c s) = rune_size (code c) + byte_length s

abbrev all_name_chars : String → Bool
all_name_chars String.[] = true
all_name_chars (String.◌∷◌ c s) =
    (is_alphanumeric (code c) || code c == b'-' || code c == b'_' || code c == b'.')
    && all_name_chars s

unfoldable pub normalize_environment : String → Exec String
normalize_environment environment = do
  env ← ask (λ env n. env)
  guard
      (not (trim_right_name env (trim_left_name env environment) == "")
        && leb (byte_length (trim_right_name env (trim_left_name env environment))) 64)
      (invalid_configuration "environment is required and must be at most 64 characters")
  guard (all_name_chars (trim_right_name env (trim_left_name env environment)))
      (invalid_configuration "environment contains invalid characters")
  pure (trim_right_name env (trim_left_name env environment))
