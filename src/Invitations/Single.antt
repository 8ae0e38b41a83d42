-- ===== src/Invitations/Single.antt =====
-- One open invitation for each tenant and address.
use kelolakelas_identity_ser.Base.{
  ◌≡◌, nat_eq, string_eq, text_eq, text_beq_refl, true, false, List, [], ◌∷◌, ◌++◌, arith, Text,
  update, count, exists-update_self, count-append, count-not_exists,
}
use kelolakelas_identity_ser.Schema.{Time, Uuid, TenantInvitation}
use kelolakelas_identity_ser.Sql.{Env, State, ok}
use kelolakelas_identity_ser.Sql.Rules.{
  Ensures-insert, Ensures-transaction, Ensures-ok, bind_query, bind_required, bind_ask,
  bind_execute,
}
use kelolakelas_identity_ser.Emails.{normalize_email}
use kelolakelas_identity_ser.Invitations.{
  is_open_for, spend, spend_open, add_invitation, replace_active, replace_active_body,
}

module _ (env : Env) (tenant_id : Uuid) (email : Text) where
  spent-closed :
      (now : Time) (i : TenantInvitation)
      → is_open_for env tenant_id email i ≡ true
      → is_open_for env tenant_id email (spend now i) ≡ false
  unfolding is_open_for
  spent-closed now i h = ground arith

  replaced-count :
      (now : Time) (xs : List TenantInvitation) (i : TenantInvitation)
      → is_open_for env tenant_id email i ≡ true
      → count
          (is_open_for env tenant_id email)
          (update (is_open_for env tenant_id email) (spend now) xs ++ i ∷ [])
        ≡ 1
  unfolding count
  replaced-count now xs i h = ground (
    arith,
    count-append (is_open_for env tenant_id email)
        (update (is_open_for env tenant_id email) (spend now) xs) (i ∷ []),
    count-not_exists (is_open_for env tenant_id email)
        (update (is_open_for env tenant_id email) (spend now) xs)
        (exists-update_self (is_open_for env tenant_id email) (spend now) xs (spent-closed now)),
  )

-- Sending an invitation leaves exactly one open invitation of the tenant for the address, the new
-- one, whatever was open before; LOWER of PostgreSQL has nothing to change in a canonical address.
pub replace_active_single :
    (i : TenantInvitation) (env : Env) (s : State)
    → env.sql_lower (normalize_email env i.email) ≡ normalize_email env i.email
    → i.is_used ≡ false
    → (replace_active i env s).0 ≡ ok tt
    → count
        (is_open_for env i.tenant_id (normalize_email env i.email))
        (replace_active i env s).1.db.tenant_invitations
      ≡ 1
unfolding replace_active replace_active_body spend_open add_invitation is_open_for
replace_active_single i env s lower unused h =
    Ensures-ok env s (replace_active i)
      (λ _ s'.
        count (is_open_for env i.tenant_id (normalize_email env i.email)) s'.db.tenant_invitations
        ≡ 1)
      tt h
      (bind_ask _ _ (
        Ensures-transaction _ (
          bind_query _ _ (
            bind_required _ _ _ λ tenant e. bind_ask _ _ (
              bind_execute _ _ (
                Ensures-insert _ _ λ c.
                  replaced-count env i.tenant_id (normalize_email env i.email) _
                    s.db.tenant_invitations (record i { email = normalize_email env i.email })
                    (ground (arith, lower, text_beq_refl (normalize_email env i.email)))))))))
