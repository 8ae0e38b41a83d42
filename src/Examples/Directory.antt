-- ===== src/Examples/Directory.antt =====
-- Runs of the member list, of the own membership, of a login and of the platform's second factor.
use kelolakelas_identity_ser.Base.{
  ℕ, zero, suc, ◌*◌, ◌≡◌, ◌↔◌, ◌⊎◌, refl, nat_eq, string_eq, text_eq, true, false, none, some, [],
  ◌∷◌, Text, pos, Within, exists, rows, from, first, count, total_where, update,
}
use kelolakelas_identity_ser.Schema.{Permission, RolePermission}
use kelolakelas_identity_ser.Sql.{State, ok, ◌>>=◌, transaction}
use kelolakelas_identity_ser.Members.{Caller, MemberResponse, member_row}
use kelolakelas_identity_ser.Permissions.{
  complete, caller_query, member_matches, role_in_scope, permission_rows,
  active_member_has_permission, caller_has_permission, require_permission,
}
use kelolakelas_identity_ser.Permissions.Required.{Permitted}
use kelolakelas_identity_ser.MemberDirectory.{
  Dialect, MemberQuery, Listing, Membership, listed, member_listing, list_repository, list_members,
  offset_of, membership_row, names_of, find_active_membership, fetch_my_membership,
}
use kelolakelas_identity_ser.MemberDirectory.Paging.{Page, list_members-Page}
use kelolakelas_identity_ser.MemberDirectory.Described.{fetch_my_membership-caller_has_permission}
use kelolakelas_identity_ser.Emails.{
  to_lower, is_space, trim_left, trim_right, trim_space, normalize_email, user_by_email,
}
use kelolakelas_identity_ser.Login.{
  settle, locked, authenticate_body, authenticate_tx, authenticate,
}
use kelolakelas_identity_ser.Resets.{second, user_by_id, session_valid_after}
use kelolakelas_identity_ser.Sessions.{
  Jwt, parsed, issue_at, tenant_claims, sign, generate_token_after,
  generate_verified_platform_token, claims_of, validate_token,
}
use kelolakelas_identity_ser.Auth.{live_membership, tenant_member_of, login}
use kelolakelas_identity_ser.Auth.Issued.{Issued, login-Issued}
use kelolakelas_identity_ser.Factor.{
  Crypto, assignment, is_challenge, challenge, eligible, stale, secret_of, consume_challenge,
  settle_challenge, check_challenge, consume_factor, assignment_version, factor_version,
}
use kelolakelas_identity_ser.ControlPlane.Texts.{parse_int}
use kelolakelas_identity_ser.FeePolicy.{parse_digits}
use kelolakelas_identity_ser.PlatformAuth.{
  FactorLib, factor_code, counter_before, check_factor, is_active_admin, check_admin, check_version,
  pending_claims, finish_factor,
}
use kelolakelas_identity_ser.PlatformAuth.Codes.{check_factor-factor_code}
use kelolakelas_identity_ser.PlatformAuth.Verified.{Verified, finish_factor-Verified}
use kelolakelas_identity_ser.Examples.{
  calm, start, tables, ann, ann_email, ann_claims, invites, office_invites, tokens, plain,
  code_token,
}

-- A database whose order is the one of the rows.
abbrev unordered : Dialect
unordered = record {
  like_text = λ search t. false;
  like_name = λ search t. false;
  sort_members = λ column down xs. xs;
  sort_users = λ xs. xs;
  sort_names = λ xs. xs;
}

abbrev reads : Permission
reads = record { id = 6; name = "member:read"; description = "" }

abbrev office_reads : RolePermission
office_reads = record { role_id = 3; permission_id = 6 }

abbrev readable : State
readable = record {
  db = record tables {
    permissions = invites ∷ reads ∷ [];
    role_permissions = office_invites ∷ office_reads ∷ [];
  };
  step = 0;
}

abbrev caller : Caller
caller = record { role_id = 3; user_id = 1; member_id = 8 }

abbrev second_page : MemberQuery
second_page = record {
  page = pos 2;
  page_size = pos 1;
  search = [];
  status = "";
  role_id = none;
  sort = "";
  order = "";
}

abbrev other : MemberResponse
other = record {
  id = 9;
  user_id = 2;
  tenant_id = 7;
  email = b'b' ∷ [];
  first_name = "A";
  last_name = "B";
  phone = none;
  status = "active";
  role_id = 2;
  role_name = "Creator";
  is_system_role = true;
}

abbrev shown : Listing MemberResponse
shown = record { items = other ∷ []; page = 2; page_size = 1; total_items = 2; total_pages = 2 }

listed_second : (list_members unordered (some caller) 7 second_page calm readable).0 ≡ ok shown
unfolding list_members list_repository require_permission caller_has_permission complete
    active_member_has_permission permission_rows member_matches role_in_scope total_where count
    member_listing offset_of listed member_row from rows ◌>>=◌
listed_second = refl

list_members-Page_example :
    Permitted (some caller) 7 3 "member:read" readable.db
    × Page unordered 7 second_page readable.db shown
list_members-Page_example =
    list_members-Page unordered (some caller) 7 second_page calm readable shown
      (λ xs column down. (refl, λ x m. m)) listed_second

abbrev own : Membership
own = record {
  member_id = 8;
  role_id = 3;
  role_name = "Office";
  permission_names = "member:invite" ∷ "member:read" ∷ [];
}

fetched : (fetch_my_membership unordered (some caller) 7 3 calm readable).0 ≡ ok own
unfolding fetch_my_membership find_active_membership caller_query membership_row names_of
    member_matches role_in_scope from rows ◌>>=◌
fetched = refl

fetch_my_membership-caller_has_permission_example :
    ((caller_has_permission (some caller) 7 3 "member:read" calm readable).0 ≡ ok true)
    ↔ Within "member:read" own.permission_names
fetch_my_membership-caller_has_permission_example =
    fetch_my_membership-caller_has_permission unordered caller 7 3 "member:read" calm calm readable
      own (λ xs x. (λ m. m, λ m. m)) (λ e. cc) (λ e. cc) refl fetched

signed_in : (login tokens 5 60 ann_email "secret" calm start).0 ≡ ok ("signed", ann, 7)
unfolding login authenticate authenticate_tx authenticate_body settle locked user_by_email
    normalize_email trim_space trim_left trim_right to_lower is_space tenant_member_of
    live_membership session_valid_after user_by_id generate_token_after issue_at sign tenant_claims
    first exists transaction ◌>>=◌
signed_in = refl

login-Issued_example :
    Issued tokens calm ann_email "secret" tables
      (login tokens 5 60 ann_email "secret" calm start).1
      "signed"
      ann
      7
login-Issued_example =
    login-Issued tokens 5 60 ann_email "secret" calm start "signed" ann 7 signed_in

-- A package in which every code is 000000 and every challenge is the same 32 bytes.
abbrev zeros : ℕ → Text
zeros zero = []
zeros (suc n) = 0 ∷ zeros n

abbrev factors : FactorLib
factors = record {
  mac = λ secret n. [];
  random = λ step n. none;
  hex = λ t. t;
  unhex = λ t. some (zeros 32);
  base32 = λ t. t;
}

abbrev six_zeros : Text
six_zeros = b'0' ∷ b'0' ∷ b'0' ∷ b'0' ∷ b'0' ∷ b'0' ∷ []

check_factor-factor_code_example : (check_factor factors [] six_zeros (1_000 * second) ≡ true) ↔ (
    (factor_code factors [] (counter_before 33) ≡ six_zeros)
    ⊎ ((factor_code factors [] 33 ≡ six_zeros) ⊎ (factor_code factors [] 34 ≡ six_zeros)))
check_factor-factor_code_example = check_factor-factor_code factors [] six_zeros (1_000 * second)

abbrev pending_tokens : Jwt
pending_tokens = record tokens {
  parse_with_claims = λ now t.
      parsed (record (ann_claims now) { platform_pending = true; platform_pending_version = 1 });
}

abbrev keyed : Crypto
keyed = record plain { digest = λ t. code_token }

finished :
    (finish_factor factors pending_tokens keyed "pending" [] six_zeros "verify" calm start).0
    ≡ ok "signed"
unfolding finish_factor pending_claims check_admin is_active_admin check_version claims_of
    validate_token assignment assignment_version factor_version consume_factor check_challenge
    challenge is_challenge stale eligible secret_of check_factor factor_code parse_int parse_digits
    settle_challenge consume_challenge user_by_id generate_verified_platform_token issue_at sign
    normalize_email trim_space trim_left trim_right to_lower is_space first exists update
    transaction ◌>>=◌
finished = refl

finish_factor-Verified_example :
    Verified factors pending_tokens keyed "pending" [] six_zeros "verify" calm start
      (finish_factor factors pending_tokens keyed "pending" [] six_zeros "verify" calm start).1.db
      "signed"
finish_factor-Verified_example =
    finish_factor-Verified factors pending_tokens keyed "pending" [] six_zeros "verify" calm start
      "signed" finished
