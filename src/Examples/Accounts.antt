-- ===== src/Examples/Accounts.antt =====
-- Runs of logins, resets, switches, registrations and invitations.
use kelolakelas_identity_ser.Base.{
  ℕ, ◌+◌, ◌*◌, ◌%◌, ◌<◌, ◌≡◌, ◌≢◌, refl, nat_eq, true, false, none, some, [], ◌∷◌, arith, rows,
  first, count, update, from, exists, delete, ltb,
}
use kelolakelas_identity_ser.Schema.{User, TenantInvitation}
use kelolakelas_identity_ser.Sql.{ok, ◌>>=◌, transaction}
use kelolakelas_identity_ser.Emails.{
  to_lower, is_space, trim_left, trim_right, trim_space, normalize_email, user_by_email,
}
use kelolakelas_identity_ser.Emails.Canonical.{IsUnicode, normalize_email_idem}
use kelolakelas_identity_ser.Login.{
  locked, count_failure, settle, authenticate_body, authenticate_tx, authenticate,
}
use kelolakelas_identity_ser.Login.Lockout.{
  fail_at, fail_at_locks, CountsBelow, authenticate-CountsBelow, authenticate-locked,
}
use kelolakelas_identity_ser.Login.Success.{Entitled, authenticate-Entitled}
use kelolakelas_identity_ser.Resets.{
  second, user_by_id, token_by_hash, next_boundary, set_password, mark_used, drop_others, consume,
}
use kelolakelas_identity_ser.Resets.Once.{consume_once, next_boundary_advances}
use kelolakelas_identity_ser.Sessions.{
  TenantChoice, issue_at, issued_before, sign, tenant_claims, generate_token_after, claims_of,
  validate_token, principal, in_date, valid_tenant_user, own_tenant_choices, with_user,
  with_membership, reissue, switch,
}
use kelolakelas_identity_ser.Sessions.Boundary.{IsJwt, reset_revokes}
use kelolakelas_identity_ser.Sessions.Switching.{Switched, switch-Switched}
use kelolakelas_identity_ser.Invitations.{
  tenant_by_id, is_open_for, spend_open, add_invitation, invitation_constraint, replace_active_body,
  replace_active,
}
use kelolakelas_identity_ser.Invitations.Single.{replace_active_single}
use kelolakelas_identity_ser.Examples.{
  calm, start, tables, tokens, ann, barred, ann_email, new_email, invitation, reset_hash,
}

unicode : IsUnicode calm
unfolding to_lower is_space
unicode = record { lower_twice = λ c h. ground arith; space_lower = λ c h. ground arith }

normalize_email_idem_example :
    normalize_email calm (normalize_email calm (b' ' ∷ b'A' ∷ []))
    ≡ normalize_email calm (b' ' ∷ b'A' ∷ [])
normalize_email_idem_example = normalize_email_idem calm (b' ' ∷ b'A' ∷ []) unicode

free : locked 20 ann ≡ false
unfolding locked
free = refl

fail_at_locks_example :
    let after = count_failure 2 60 9 (fail_at 2 60 (5 ∷ []) ann) in
    (locked 20 (fail_at 2 60 (3 ∷ []) ann) ≡ false)
    × ((fail_at 2 60 (3 ∷ []) ann).failed_login_attempts ≡ 1)
    × (after.failed_login_attempts ≡ 0)
    × (locked 20 after ≡ ltb 20 (9 + 60))
fail_at_locks_example = fail_at_locks 2 60 (3 ∷ []) (5 ∷ []) 9 20 ann refl free (omega arith) refl

authenticate-CountsBelow_example :
    CountsBelow 5 (authenticate ann_email "wrong" 5 60 calm start).1.db
authenticate-CountsBelow_example =
    authenticate-CountsBelow ann_email "wrong" 5 60 calm start (omega arith)
      (omega arith, (omega arith, tt))

found_barred : user_by_email calm (b'b' ∷ []) tables ≡ some barred
unfolding user_by_email normalize_email trim_space trim_left trim_right to_lower is_space first
found_barred = refl

is_barred : (n : ℕ) → locked (calm.now n) barred ≡ true
unfolding locked
is_barred n = refl

authenticate-locked_example :
    ((u : User) → (authenticate (b'b' ∷ []) "secret" 5 60 calm start).0 ≢ ok u)
    × ((authenticate (b'b' ∷ []) "secret" 5 60 calm start).1.db ≡ tables)
authenticate-locked_example =
    authenticate-locked (b'b' ∷ []) "secret" 5 60 calm start barred found_barred is_barred

logged_in : (authenticate ann_email "secret" 5 60 calm start).0 ≡ ok ann
unfolding authenticate authenticate_tx authenticate_body settle locked user_by_email normalize_email
    trim_space trim_left trim_right to_lower is_space first transaction ◌>>=◌
logged_in = refl

authenticate-Entitled_example : Entitled calm ann_email "secret" tables ann
authenticate-Entitled_example =
    authenticate-Entitled ann_email "secret" 5 60 calm start ann logged_in

was_reset : (consume reset_hash "new" (1_000 * second) calm start).0 ≡ ok tt
unfolding consume token_by_hash user_by_id set_password mark_used drop_others next_boundary first
    update delete transaction ◌>>=◌
was_reset = refl

consume_once_example :
    (consume reset_hash "other"
      (1_001 * second)
      calm
      (consume reset_hash "new" (1_000 * second) calm start).1).0
    ≢ ok tt
consume_once_example =
    consume_once reset_hash "new" "other" (1_000 * second) (1_001 * second) calm calm start
      was_reset

next_boundary_advances_example :
    (7 < next_boundary 7 none)
    × ((v : ℕ) → none ≡ some v → v < next_boundary 7 none)
    × (((v : ℕ) → none ≡ some v → v % second ≡ 0) → next_boundary 7 none % second ≡ 0)
next_boundary_advances_example = next_boundary_advances 7 none

seconds : IsJwt tokens
seconds = record { numeric_date-second = λ t. refl }

reset_revokes_example :
    let boundary = next_boundary 7 (some second) in
    (issued_before (some (tokens.numeric_date (issue_at 5 (some second)))) (some boundary) ≡ true)
    × (issued_before (some (tokens.numeric_date (issue_at 8 (some boundary)))) (some boundary)
        ≡ false)
reset_revokes_example = reset_revokes tokens 7 5 8 (some second) seconds refl (omega arith)

abbrev choice : TenantChoice
choice = record {
  tenant_id = 7;
  tenant_name = "School";
  member_id = 8;
  role_id = 3;
  role_name = "Office";
}

switched : (switch tokens "t" 7 calm start).0 ≡ ok ("signed", choice)
unfolding switch principal validate_token claims_of with_membership with_user user_by_id
    own_tenant_choices reissue valid_tenant_user in_date issued_before generate_token_after sign
    issue_at tenant_claims rows from first transaction ◌>>=◌
switched = refl

switch-Switched_example : Switched tokens "t" calm start 7 "signed" choice
switch-Switched_example = switch-Switched tokens "t" 7 calm start ("signed", choice) switched

canonical : normalize_email calm new_email ≡ new_email
unfolding normalize_email trim_space trim_left trim_right to_lower is_space
canonical = refl

abbrev renewed : TenantInvitation
renewed = record invitation { id = 12; token = "renewed" }

invited : (replace_active renewed calm start).0 ≡ ok tt
unfolding replace_active replace_active_body tenant_by_id spend_open is_open_for add_invitation
    invitation_constraint normalize_email trim_space trim_left trim_right to_lower is_space first
    update exists transaction ◌>>=◌
invited = refl

replace_active_single_example :
    count
      (is_open_for calm 7 (normalize_email calm new_email))
      (replace_active renewed calm start).1.db.tenant_invitations
    ≡ 1
replace_active_single_example = replace_active_single renewed calm start refl refl invited
