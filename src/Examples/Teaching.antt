-- ===== src/Examples/Teaching.antt =====
-- A teacher of one school accepts the invitation of another.
use kelolakelas_identity_ser.Base.{◌*◌, ◌≡◌, refl, [], ◌∷◌, first, exists, update}
use kelolakelas_identity_ser.Schema.{Tenant, TenantMember, TenantInvitation}
use kelolakelas_identity_ser.Sql.{State, ok, ◌>>=◌, transaction}
use kelolakelas_identity_ser.Members.{find_role}
use kelolakelas_identity_ser.Emails.{
  to_lower, is_space, trim_left, trim_right, trim_space, normalize_email,
}
use kelolakelas_identity_ser.Resets.{second, user_by_id}
use kelolakelas_identity_ser.Registration.{member_of, member_constraint, add_member}
use kelolakelas_identity_ser.Sessions.{valid_tenant_user, in_date, issued_before}
use kelolakelas_identity_ser.Invitations.{
  invitation_by_token, invitation_by_id, any_membership, active_tenant,
}
use kelolakelas_identity_ser.Accepting.{
  teaches, existing_teacher, live_or_none, invitation_target_member, member_or_new,
  accept_invitation, accept_unused, accept_existing,
}
use kelolakelas_identity_ser.Accepting.Teachers.{Accepted, accept_existing-Accepted}
use kelolakelas_identity_ser.Examples.{
  calm, tables, school, membership, invitation, ann_email, ann_claims,
}

abbrev elsewhere : Tenant
elsewhere = record school { id = 9; name = "Elsewhere" }

abbrev teaching : TenantMember
teaching = record (membership 10 1 4) { tenant_id = 9 }

abbrev offer : TenantInvitation
offer = record invitation { role_id = 4; email = ann_email }

abbrev before : State
before = record {
  db = record tables {
    tenants = school ∷ elsewhere ∷ [];
    tenant_members = teaching ∷ [];
    tenant_invitations = offer ∷ [];
  };
  step = 0;
}

abbrev newcomer : TenantMember
newcomer = member_of 113 7 1 4 (1_000 * second)

joined :
    (accept_existing "invite" 1
      (λ u. valid_tenant_user u (ann_claims (1_000 * second)))
      calm
      before).0
    ≡ ok newcomer
unfolding accept_existing invitation_by_token active_tenant invitation_by_id user_by_id
    valid_tenant_user in_date issued_before normalize_email trim_space trim_left trim_right to_lower
    is_space existing_teacher find_role teaches invitation_target_member any_membership live_or_none
    accept_unused member_or_new member_constraint add_member accept_invitation first exists update
    transaction ◌>>=◌
joined = refl

accept_existing-Accepted_example :
    Accepted calm
      (ann_claims (1_000 * second))
      "invite"
      1
      newcomer
      before
      (accept_existing "invite" 1
        (λ u. valid_tenant_user u (ann_claims (1_000 * second)))
        calm
        before).1.db
accept_existing-Accepted_example =
    accept_existing-Accepted "invite" 1 (ann_claims (1_000 * second)) calm before newcomer joined
