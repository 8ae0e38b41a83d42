-- ===== src/Members/Isolation.antt =====
-- What a change of role and a removal leave alone.
use kelolakelas_identity_ser.Base.{
  ◌≡◌, refl, sym, ap, ◌∙◌, nat_eq, ◌==◌, Bool, true, false, ◌&&◌, ◌||◌, Option, none, some, arith,
  rows, Unique, Within, first_holds, first-Within, first-by_key, Unique-eq, rows-update,
}
use kelolakelas_identity_ser.Schema.{Uuid, Time, Db, Role, TenantMember}
use kelolakelas_identity_ser.Sql.{Env, State}
use kelolakelas_identity_ser.Sql.Rules.{
  Ensures-guard, Ensures-execute, bind_query, bind_required, bind_guard, bind_ask, bind_affect,
}
use kelolakelas_identity_ser.Sql.Atomic.{transaction_keeps}
use kelolakelas_identity_ser.Members.{
  Caller, is_id, is_null, find_member, find_role, find_tenant_role, is_system_creator_role,
  is_own_membership, set_member_role, update_role_tx, delete_member, live_member,
  soft_delete_member,
}

-- Whether the member's current role is the system role Creator.
abbrev creator_role : Option Role → Bool
creator_role none = false
creator_role (some r) = is_system_creator_role r

unfoldable pub holds_creator : Db → TenantMember → Bool
holds_creator d m = creator_role (find_role m.role_id d)

-- Primary keys of the tables that these operations read.
pub record HasKeys (d : Db) : Type 0 where
  pub members : Unique (λ m. m.id) d.tenant_members
  pub roles : Unique (λ r. r.id) d.roles

find_tenant_role-find_role :
    (d : Db) (tenant_id id : Uuid) (r : Role)
    → HasKeys d
    → find_tenant_role tenant_id id d ≡ some r
    → find_role id d ≡ some r
unfolding find_tenant_role find_role
find_tenant_role-find_role d t id r k h =
    first-by_key (λ r. r.id) id d.roles r k.roles (first-Within (λ r. r.id) _ d.roles r h)
      (ground (
        arith,
        first_holds (λ (r : Role). r.id)
            (λ r. r.id == id && (is_id r.tenant_id t || is_null r.tenant_id)) d.roles r h,
      ))

module _ (tenant_id member_id : Uuid) where
  found-live :
      (d : Db) (m : TenantMember)
      → find_member tenant_id member_id d ≡ some m
      → (live_member tenant_id member_id m ≡ true) × Within m d.tenant_members
  unfolding find_member
  found-live d m h = (
    first_holds (λ m. m.id) (live_member tenant_id member_id) d.tenant_members m h,
    first-Within (λ m. m.id) (live_member tenant_id member_id) d.tenant_members m h,
  )

  live_member-keys :
      (m : TenantMember)
      → live_member tenant_id member_id m ≡ true
      → (m.id ≡ member_id) × (m.tenant_id ≡ tenant_id) × (m.deleted_at ≡ none)
  unfolding live_member
  live_member-keys m h = ground arith

  -- A selection of memberships that no permitted change can enter or leave.
  abbrev Blind : Caller → Db → (TenantMember → Bool) → (TenantMember → TenantMember) → Type 0
  Blind actor d q f =
      (m : TenantMember)
      → m.tenant_id ≡ tenant_id
      → is_own_membership m actor ≡ false
      → holds_creator d m ≡ false
      → (q m ≡ false) × (q (f m) ≡ false)

  rows-set_member_role :
      (actor : Caller) (d : Db) (q : TenantMember → Bool) (role_id : Uuid) (now : Time)
      (member : TenantMember)
      → HasKeys d
      → find_member tenant_id member_id d ≡ some member
      → is_own_membership member actor ≡ false
      → holds_creator d member ≡ false
      → Blind actor d q (λ m. record m { role_id = role_id; updated_at = now })
      → rows q (set_member_role now member.id role_id d).tenant_members ≡ rows q d.tenant_members
  unfolding set_member_role
  rows-set_member_role actor d q role_id now member keys h own creator blind =
      rows-update q _ _ d.tenant_members λ x m e.
        let same : x ≡ member =
          Unique-eq (λ m. m.id) d.tenant_members x member keys.members m (found-live d member h).1
            (ground arith) in
        blind x (ap (λ m. m.tenant_id) same ∙ (live_member-keys member (found-live d member h).0).1)
          (ap (λ m. is_own_membership m actor) same ∙ own) (ap (holds_creator d) same ∙ creator)

module _ (tenant_id member_id : Uuid) (actor : Caller) (q : TenantMember → Bool) (env : Env)
    (s : State) (keys : HasKeys s.db) where
  -- What a change of role leaves alone, for any selection.
  pub rows-update_role :
      (role_id : Uuid)
      → ((now : Time)
          → creator_role (find_role role_id s.db) ≡ false
          → Blind tenant_id member_id actor s.db q
              (λ m. record m { role_id = role_id; updated_at = now }))
      → rows q (update_role_tx tenant_id member_id role_id actor env s).1.db.tenant_members
        ≡ rows q s.db.tenant_members
  unfolding update_role_tx holds_creator
  rows-update_role role_id blind =
      transaction_keeps _ env s (λ d. rows q d.tenant_members ≡ rows q s.db.tenant_members) refl
        (bind_query _ _ (
          bind_required _ _ _ λ member h. bind_guard _ _ _ λ own. bind_query _ _ (
            bind_required _ _ _ λ role hr. bind_guard _ _ _ λ grant. bind_query _ _ (
              bind_required _ _ _ λ current hc. bind_guard _ _ _ λ demotion. bind_ask _ _ (
                Ensures-execute _ (
                  rows-set_member_role tenant_id member_id actor s.db q role_id _ member keys h
                    (ground arith) (ground arith)
                    (blind _ (
                      ground
                        (arith, find_tenant_role-find_role s.db tenant_id role_id role keys)))))))))

  -- And a removal.
  pub rows-delete_member :
      ((now : Time) (m : TenantMember)
        → m.tenant_id ≡ tenant_id
        → is_own_membership m actor ≡ false
        → (q m ≡ false) × (q (record m { deleted_at = some now }) ≡ false))
      → rows q (delete_member tenant_id member_id actor env s).1.db.tenant_members
        ≡ rows q s.db.tenant_members
  unfolding delete_member soft_delete_member
  rows-delete_member blind =
      transaction_keeps _ env s (λ d. rows q d.tenant_members ≡ rows q s.db.tenant_members) refl
        (bind_query _ _ (
          bind_required _ _ _ λ member h. bind_guard _ _ _ λ own. bind_ask _ _ (
            bind_affect _ _ _ (
              Ensures-guard _ _ λ some_row.
                rows-update q (live_member tenant_id member_id) _ s.db.tenant_members λ x m e.
                  let same : x ≡ member =
                    Unique-eq (λ m. m.id) s.db.tenant_members x member keys.members m
                      (found-live tenant_id member_id s.db member h).1
                      ((live_member-keys tenant_id member_id x e).0
                        ∙ sym
                            (live_member-keys tenant_id member_id member
                              (found-live tenant_id member_id s.db member h).0).0) in
                  blind _ x (live_member-keys tenant_id member_id x e).1
                    (ap (λ m. is_own_membership m actor) same ∙ ground arith)))))
