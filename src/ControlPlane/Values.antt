-- ===== src/ControlPlane/Values.antt =====
-- validateConfigurationValue of internal/usecase/configuration.go.
use kelolakelas_identity_ser.Base.{
  ℕ, ◌==◌, nat_eq, string_eq, text_eq, Bool, true, false, ◌&&◌, ◌||◌, not, Option, none, some, List,
  [], ◌∷◌, leb, length, Text, ℤ, negative, above,
}
use kelolakelas_identity_ser.Sql.{
  Result, ok, err, Exec, pure, throw, guard, branch, required, ask, ◌>>=◌, ◌>>◌,
  invalid_configuration,
}
use kelolakelas_identity_ser.Emails.{trim_space}
use kelolakelas_identity_ser.FeePolicy.{FeeValue, parse_fee_value}
use kelolakelas_identity_ser.ControlPlane.Catalog.{Definition}
use kelolakelas_identity_ser.ControlPlane.Texts.{parse_int, split, is_empty_text, valid_header_name}

-- What encoding/json decodes with UseNumber: a number is its text.
pub data Json : Type 0 where
  null composite : Json
  boolean : Bool → Json
  number string : Text → Json

-- url.URL, as far as it is read
pub record Url : Type 0 where
  pub scheme : Text
  pub host : Text
  pub has_user : Bool

-- The parsers of the standard library; `none` is an error.
pub record Parsers : Type 0 where
  -- len of a text, which counts the bytes of its UTF-8
  pub size : Text → ℕ
  -- Decode, and what it leaves unread
  pub decode : Text → Option (Json × Text)
  -- whether the next Decode returns io.EOF
  pub at_end : Text → Bool
  pub valid_utf8 : Text → Bool
  pub parse_request_uri : Text → Option Url
  -- netip.ParseAddr: the zone
  pub parse_addr : Text → Option Text
  -- netip.ParsePrefix: the number of bits and the zone
  pub parse_prefix : Text → Option (ℕ × Text)
  -- json.Marshal and json.Unmarshal of a string
  pub marshal_string : Text → Option Text
  pub unmarshal_string : Text → Option Text

-- An entry of TRUSTED_PROXY_CIDRS: an address without a zone, or a prefix that is not /0.
abbrev check_prefix : Option (ℕ × Text) → Exec (Unit {0})
check_prefix none = throw (invalid_configuration "value contains an invalid proxy IP or CIDR")
check_prefix (some (bits, zone)) =
    guard (not (bits == 0) && is_empty_text zone)
      (invalid_configuration "value contains an invalid proxy IP or CIDR")

abbrev check_address : Parsers → Text → Option Text → Exec (Unit {0})
check_address p entry (some zone) =
    guard (is_empty_text zone) (invalid_configuration "proxy address must not have a zone")
check_address p entry none = check_prefix (p.parse_prefix entry)

unfoldable pub check_entries : Parsers → List Text → Exec (Unit {0})
check_entries p [] = pure tt
check_entries p (part ∷ parts) = do
  env ← ask (λ env n. env)
  guard (not (is_empty_text (trim_space env part)))
      (invalid_configuration "value contains an empty proxy address")
  u ← check_address p (trim_space env part) (p.parse_addr (trim_space env part))
  check_entries p parts

abbrev check_integer : Definition → ℤ → Exec (Unit {0})
check_integer definition n =
    branch (definition.key == "REDIS_DB")
      (guard (not (negative n)) (invalid_configuration "value must be non-negative"))
      (guard (above n 0) (invalid_configuration "value must be positive"))

abbrev has_scheme : Url → Bool
has_scheme u =
    u.scheme == (b'h' ∷ b't' ∷ b't' ∷ b'p' ∷ [])
    || u.scheme == (b'h' ∷ b't' ∷ b't' ∷ b'p' ∷ b's' ∷ [])

abbrev check_url : Parsers → Definition → Text → Exec (Unit {0})
check_url p definition text = branch (is_empty_text text && not definition.is_required) (pure tt) do
  env ← ask (λ env n. env)
  guard (trim_space env text == text)
      (invalid_configuration "value must be an absolute HTTP(S) URL without user information")
  url ←
      required
        (invalid_configuration "value must be an absolute HTTP(S) URL without user information")
        (p.parse_request_uri text)
  guard (has_scheme url && not (is_empty_text url.host) && not url.has_user)
      (invalid_configuration "value must be an absolute HTTP(S) URL without user information")

abbrev check_string : Parsers → Definition → Text → Exec (Unit {0})
check_string p definition text = do
  env ← ask (λ env n. env)
  guard
      (not (is_empty_text (trim_space env text))
        || definition.key == "TRUSTED_CLIENT_IP_HEADER"
        || definition.key == "TRUSTED_PROXY_CIDRS")
      (invalid_configuration "value must be a non-empty string")
  guard
      (not (definition.key == "TRUSTED_CLIENT_IP_HEADER")
        || is_empty_text text
        || valid_header_name text)
      (invalid_configuration "value must be a valid HTTP header name")
  branch (definition.key == "TRUSTED_PROXY_CIDRS" && not (is_empty_text (trim_space env text)))
      (check_entries p (split text)) (pure tt)

abbrev pub fee_or_error : Result FeeValue → Exec (Unit {0})
fee_or_error (ok v) = pure tt
fee_or_error (err e) = throw (
    invalid_configuration
      "value must be \"percent_bps=<0-2000>,fixed_fee=<0-50000>\" with percent_bps 0-2000 and fixed_fee 0-50000")

-- The assertions `decoded.(bool)`, `decoded.(string)` and `decoded.(json.Number)`.
abbrev is_boolean : Json → Bool
is_boolean (Json.boolean b) = true
is_boolean Json.null = false
is_boolean Json.composite = false
is_boolean (Json.number t) = false
is_boolean (Json.string t) = false

abbrev pub as_string : Json → Option Text
as_string (Json.string t) = some t
as_string Json.null = none
as_string Json.composite = none
as_string (Json.boolean b) = none
as_string (Json.number t) = none

abbrev as_number : Json → Option Text
as_number (Json.number t) = some t
as_number Json.null = none
as_number Json.composite = none
as_number (Json.boolean b) = none
as_number (Json.string t) = none

abbrev is_null_json : Json → Bool
is_null_json Json.null = true
is_null_json Json.composite = false
is_null_json (Json.boolean b) = false
is_null_json (Json.number t) = false
is_null_json (Json.string t) = false

-- The switch on the type of the setting.
unfoldable pub check_type : Parsers → Definition → Json → Exec (Unit {0})
check_type p definition decoded =
    branch (definition.type == "boolean")
      (guard (is_boolean decoded) (invalid_configuration "value must be a boolean"))
      (branch (definition.type == "platform_fee_policy")
        (do
          text ←
              required
                (invalid_configuration
                  "value must be a string \"percent_bps=<0-2000>,fixed_fee=<0-50000>\"")
                (as_string decoded)
          fee_or_error (parse_fee_value text))
        (branch (definition.type == "integer")
          (do
            digits ← required (invalid_configuration "value must be an integer") (as_number decoded)
            n ← required (invalid_configuration "value must be an integer") (parse_int digits)
            check_integer definition n)
          (branch (definition.type == "url")
            (do
              text ←
                  required (invalid_configuration "value must be a URL string") (as_string decoded)
              check_url p definition text)
            (branch (definition.type == "string")
              (do
                text ←
                    required (invalid_configuration "value must be a non-empty string")
                      (as_string decoded)
                check_string p definition text)
              (throw (invalid_configuration "configuration key has unsupported value type"))))))

unfoldable pub validate_configuration_value : Parsers → Definition → Text → Exec (Unit {0})
validate_configuration_value p definition value = do
  guard (not (is_empty_text value) && leb (length value) 16384 && p.valid_utf8 value)
      (invalid_configuration "value is required, valid UTF-8, and at most 16384 bytes")
  (decoded, rest) ← required (invalid_configuration "value must be valid JSON") (p.decode value)
  guard (p.at_end rest) (invalid_configuration "value must contain exactly one JSON value")
  guard
      (not (is_null_json decoded)
        && not (definition.type == "object")
        && not (definition.type == "array"))
      (invalid_configuration "value must be a non-null JSON scalar")
  check_type p definition decoded
