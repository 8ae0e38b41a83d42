-- ===== src/Emails.antt =====
-- internal/domain/email.go: the canonical form of an address, and lookups by it.
pub mod Canonical
use Prim.Native.Nat.{◌+◌}
use kelolakelas_identity_ser.Base.{
  ℕ, ◌==◌, nat_eq, text_eq, Bool, true, false, ◌&&◌, ◌||◌, Option, List, [], ◌∷◌, map,
  if◌then◌else◌, Text, ltb, leb, first,
}
use kelolakelas_identity_ser.Schema.{Db, User}
use kelolakelas_identity_ser.Sql.{Env}
use kelolakelas_identity_ser.Members.{is_null}

-- unicode.ToLower and unicode.IsSpace: ASCII as it is defined, and the tables above it.
unfoldable pub to_lower : Env → ℕ → ℕ
to_lower env c =
    if leb b'A' c && leb c b'Z' then c + 32 else if ltb c 128 then c else env.lower_rune c

unfoldable pub is_space : Env → ℕ → Bool
is_space env c = if ltb c 128 then (leb 9 c && leb c 13) || c == 32 else env.space_rune c

-- strings.TrimSpace
unfoldable pub trim_left : Env → Text → Text
trim_left env [] = []
trim_left env (c ∷ s) = if is_space env c then trim_left env s else c ∷ s

abbrev pub keep_unless_blank : Bool → ℕ → Text → Text
keep_unless_blank true c [] = []
keep_unless_blank true c (d ∷ s) = c ∷ d ∷ s
keep_unless_blank false c s = c ∷ s

unfoldable pub trim_right : Env → Text → Text
trim_right env [] = []
trim_right env (c ∷ s) = keep_unless_blank (is_space env c) c (trim_right env s)

unfoldable pub trim_space : Env → Text → Text
unfolding trim_left trim_right
trim_space env s = trim_right env (trim_left env s)

-- NormalizeEmail
unfoldable pub normalize_email : Env → Text → Text
unfolding trim_space
normalize_email env s = map (to_lower env) (trim_space env s)

-- Where("LOWER(email) = ?", NormalizeEmail(email)), with gorm's soft-delete scope
unfoldable pub user_by_email : Env → Text → Db → Option User
user_by_email env email d =
    first (λ u. u.id)
      (λ u. env.sql_lower u.email == normalize_email env email && is_null u.deleted_at) d.users
