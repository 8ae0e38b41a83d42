-- ===== src/Examples/Platform.antt =====
-- Runs of redemptions, registrations, decisions, factor codes and configuration versions.
use kelolakelas_identity_ser.Base.{
  ℕ, ◌*◌, ◌≡◌, ◌≢◌, refl, inl, inr, string_eq, ap, sym, ◌∙◌, Text, true, false, none, some, [], ◌∷◌,
  first, update, exists, Within,
}
use kelolakelas_identity_ser.Schema.{
  User, Tenant, TenantMember, CreatorRequest, ConfigurationVersion,
}
use kelolakelas_identity_ser.Sql.{ok, ◌>>=◌, transaction}
use kelolakelas_identity_ser.Members.{find_role, is_system_creator_role}
use kelolakelas_identity_ser.Emails.{
  to_lower, is_space, trim_left, trim_right, trim_space, normalize_email, user_by_email,
}
use kelolakelas_identity_ser.Resets.{second}
use kelolakelas_identity_ser.Registration.{
  user_constraint, add_user, create_user, tenant_constraint, add_tenant, tenant_wallet_constraint,
  add_tenant_wallet, user_wallet_constraint, add_user_wallet, member_constraint, member_of,
  add_member, system_creator_role, creator_or_new, register_tenant_body, register_tenant_tx,
}
use kelolakelas_identity_ser.Registration.Outcome.{
  NotClosed, Registered, register_tenant_tx-Registered,
}
use kelolakelas_identity_ser.Configuration.{
  VersionRequest, registration_setting, is_head, find_head, is_version, advance, advance_head,
  version_constraint, version_row, add_version, create_configuration_version,
  registration_open_in_tx,
}
use kelolakelas_identity_ser.Configuration.Versions.{create_configuration_version_once}
use kelolakelas_identity_ser.Invitations.{invitation_by_token, active_tenant}
use kelolakelas_identity_ser.Redeeming.{
  save_invitation, creator_approved, invited_user, register_invited_body, register_invited_user_tx,
}
use kelolakelas_identity_ser.Redeeming.Once.{
  Redeemed, TokenKey, register_invited-Redeemed, register_invited_once,
}
use kelolakelas_identity_ser.CreatorDecisions.{
  request_by_id, is_platform_admin, reject, save_request, add_audit, audit_constraint,
  settle_request, decide,
}
use kelolakelas_identity_ser.CreatorDecisions.Decided.{decide_once}
use kelolakelas_identity_ser.Factor.{
  assignment, is_challenge, challenge, eligible, stale, secret_of, consume_challenge,
  settle_challenge, check_challenge, consume_factor,
}
use kelolakelas_identity_ser.Factor.Challenges.{
  Admitted, consume_factor-Admitted, consume_factor_once,
}
use kelolakelas_identity_ser.Examples.{
  calm, start, tables, plain, account, new_email, request, code_token,
}

abbrev redeemer : User
redeemer = invited_user 106 new_email "secret" "N" "E"

redeemed : (register_invited_user_tx "invite" "N" "E" "secret" calm start).0 ≡ ok redeemer
unfolding register_invited_user_tx register_invited_body invitation_by_token find_role
    is_system_creator_role creator_approved user_by_email normalize_email trim_space trim_left
    trim_right to_lower is_space create_user user_constraint add_user member_constraint add_member
    user_wallet_constraint add_user_wallet save_invitation first exists update transaction ◌>>=◌
redeemed = refl

register_invited-Redeemed_example :
    Redeemed calm "invite" redeemer tables
      (register_invited_user_tx "invite" "N" "E" "secret" calm start).1.db
register_invited-Redeemed_example =
    register_invited-Redeemed "invite" "N" "E" "secret" calm start redeemer redeemed

one_token : TokenKey "invite" tables
one_token i j (inl p) (inl q) hi hj = sym (ap (λ i. i.id) p) ∙ ap (λ i. i.id) q
one_token i j (inr m) q hi hj = elim m [ ]
one_token i j (inl p) (inr m) hi hj = elim m [ ]

register_invited_once_example :
    (register_invited_user_tx "invite" "X" "Y" "other" calm
      (register_invited_user_tx "invite" "N" "E" "secret" calm start).1).0
    ≢ ok redeemer
register_invited_once_example =
    register_invited_once "invite" "N" "E" "secret" "X" "Y" "other" calm calm start redeemer
      redeemer one_token redeemed

abbrev founder : User
founder = account 31 new_email none

abbrev club : Tenant
club = record {
  id = 32;
  name = "Club";
  phone = none;
  address = none;
  status = "active";
  deleted_at = none;
}

abbrev founding : TenantMember
founding = member_of 110 32 31 2 (1_000 * second)

registered : (register_tenant_tx founder club calm start).0 ≡ ok founding
unfolding register_tenant_tx register_tenant_body registration_open_in_tx find_head is_head
    create_user user_constraint add_user normalize_email trim_space trim_left trim_right to_lower
    is_space tenant_constraint add_tenant tenant_wallet_constraint add_tenant_wallet
    user_wallet_constraint add_user_wallet system_creator_role creator_or_new member_constraint
    add_member first exists transaction ◌>>=◌
registered = refl

register_tenant_tx-Registered_example :
    NotClosed tables
    × Registered calm founder club founding (register_tenant_tx founder club calm start).1.db
register_tenant_tx-Registered_example =
    register_tenant_tx-Registered founder club calm start founding registered

abbrev size : Text → ℕ
size t = 1

abbrev refusal : CreatorRequest
refusal = record request {
  status = "rejected";
  rejection_reason = some (b'n' ∷ []);
  decided_by = some 1;
  decided_at = some (1_000 * second);
  updated_at = 1_000 * second;
}

refused : (decide size 21 1 false (b'n' ∷ []) calm start).0 ≡ ok refusal
unfolding decide is_platform_admin request_by_id active_tenant settle_request reject trim_space
    trim_left trim_right is_space save_request audit_constraint add_audit first exists update
    transaction ◌>>=◌
refused = refl

decide_once_example :
    (decide size 21 1 true [] calm (decide size 21 1 false (b'n' ∷ []) calm start).1).0 ≢ ok request
decide_once_example =
    decide_once size 21 1 1 false true (b'n' ∷ []) [] calm calm start refusal request refused

admitted : (consume_factor plain 1 "verify" code_token 7 calm start).0 ≡ ok (true, 1)
unfolding consume_factor assignment challenge is_challenge check_challenge stale eligible secret_of
    settle_challenge consume_challenge first update transaction ◌>>=◌
admitted = refl

consume_factor-Admitted_example :
    Admitted plain 1 "verify" code_token 7 tables
      (consume_factor plain 1 "verify" code_token 7 calm start).1.db
consume_factor-Admitted_example =
    consume_factor-Admitted plain 1 "verify" code_token 7 calm start (true, 1) admitted refl

consume_factor_once_example :
    (consume_factor plain 1 "verify" code_token 8 calm
      (consume_factor plain 1 "verify" code_token 7 calm start).1).0
    ≢ ok (true, 1)
consume_factor_once_example =
    consume_factor_once plain plain 1 1 "verify" "verify" code_token 7 8 calm calm start 1 1 refl
      admitted

abbrev closing : VersionRequest
closing = record {
  setting = registration_setting;
  expected_version = 0;
  value = b'0' ∷ [];
  rollback_of_version_id = none;
  created_by = 1;
}

abbrev closed : ConfigurationVersion
closed = version_row closing 103 1 (b'0' ∷ [])

versioned : (create_configuration_version closing calm start).0 ≡ ok closed
unfolding create_configuration_version advance advance_head find_head is_head is_version
    version_constraint add_version first exists update transaction ◌>>=◌
versioned = refl

create_configuration_version_once_example :
    (closed.version ≡ 1)
    × Within closed (create_configuration_version closing calm start).1.db.configuration_versions
    × ((create_configuration_version closing calm
          (create_configuration_version closing calm start).1).0
        ≢ ok closed)
create_configuration_version_once_example =
    create_configuration_version_once closing closing calm calm start closed closed refl refl
      versioned
