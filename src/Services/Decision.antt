-- ===== src/Services/Decision.antt =====
-- What CheckPermission of internal/delivery/grpc/permission_service.go decides.
use kelolakelas_identity_ser.Base.{
  ◌≡◌, ◌≢◌, ◌⊎◌, ◌↔◌, inl, inr, refl, ◌==◌, String, nat_eq, string_eq, true, false, Option, none,
  some, arith, eq_iff,
}
use mathlib.Core.Path.{subst}
use kelolakelas_identity_ser.Schema.{Uuid, Db}
use kelolakelas_identity_ser.Sql.{Env, State, ok, tick, ◌>>=◌}
use kelolakelas_identity_ser.Sql.Rules.{
  Ensures, Ensures-pure, Ensures-throw, Ensures-branch, Ensures-bind, Ensures-on_error,
  Ensures-weaken, Ensures-ok, bind_query, bind_required, bind_guard,
}
use kelolakelas_identity_ser.Permissions.{complete, active_member_has_permission}
use kelolakelas_identity_ser.Permissions.Grants.{
  Grant, permission_rows-Grant, Grant-permission_rows,
}
use kelolakelas_identity_ser.Services.Listed.{Listed, granting_rows-Listed, Listed-granting_rows}
use kelolakelas_identity_ser.Services.{
  Value, null_value, string_value, no_kind, composite_value, bool_value, number_value, Struct,
  Gateway, field, struct_string, optional_member_id, role_permission, member_query,
  scoped_permission, answer, check_permission,
}

-- What member_id of a request names.
abbrev pub Names : Gateway → Option Value → Option Uuid → Type 0
Names g v none = (v ≡ none) ⊎ (v ≡ some null_value) ⊎ (v ≡ some (string_value ""))
Names g v (some id) =
    (text : String) × (v ≡ some (string_value text))
    × (text == "" ≡ false)
    × (g.parse_uuid text ≡ some id)
    × (id ≢ 0)

-- What entitles the role of a request, by the member and the tenant that it names.
abbrev pub Basis : Gateway → Option Uuid → Option String → Uuid → String → Db → Type 0
Basis g (some member_id) none role_id permission d = ⊥
Basis g none none role_id permission d =
    (g.require_tenant_id ≡ false) × Listed none role_id permission d
Basis g none (some tenant) role_id permission d =
    (id : Uuid) × (g.parse_uuid tenant ≡ some id) × Listed (some id) role_id permission d
Basis g (some member_id) (some tenant) role_id permission d =
    (id : Uuid) × (g.parse_uuid tenant ≡ some id)
    × (complete (member_query id role_id member_id permission) ≡ true)
    × Grant (member_query id role_id member_id permission) d

pub record Allowed (g : Gateway) (req : Struct) (d : Db) : Type 0 where
  pub role : String
  pub permission : String
  pub role_id : Uuid
  pub member : Option Uuid
  pub role_given : struct_string "role_id" req ≡ some role
  pub permission_given : struct_string "permission" req ≡ some permission
  pub role_read : g.parse_uuid role ≡ some role_id
  pub member_read : Names g (field "member_id" req) member
  pub basis : Basis g member (struct_string "tenant_id" req) role_id permission d

module _ (env : Env) (s : State) (g : Gateway) where
  optional_member_id-Names :
      (v : Option Value)
      → Ensures env s (optional_member_id g v) λ m s'. Names g v m × (s'.db ≡ s.db)
  unfolding optional_member_id
  optional_member_id-Names none = Ensures-pure _ (inl refl, refl)
  optional_member_id-Names (some null_value) = Ensures-pure _ (inr (inl refl), refl)
  optional_member_id-Names (some no_kind) = Ensures-throw _
  optional_member_id-Names (some composite_value) = Ensures-throw _
  optional_member_id-Names (some (bool_value b)) = Ensures-throw _
  optional_member_id-Names (some (number_value n)) = Ensures-throw _
  optional_member_id-Names (some (string_value text)) =
      Ensures-branch _ _ _
        (λ e. Ensures-pure _ (inr (inr (ground (arith, eq_iff text "", e))), refl))
        λ e.
          bind_required _ _ _ λ id p.
            bind_guard _ _ _ λ q. Ensures-pure _ ((text, refl, e, p, ground (arith, q)), refl)

  role_permission-Listed :
      (tenant : Option Uuid) (role_id : Uuid) (permission : String)
      → Ensures env s
          (role_permission tenant role_id permission)
          λ b s'. b ≡ true → Listed tenant role_id permission s.db
  unfolding role_permission
  role_permission-Listed tenant role_id permission =
      bind_query _ _
        (Ensures-pure _ λ e. granting_rows-Listed tenant role_id permission s.db (ground arith))

  answer-Basis :
      (member : Option Uuid) (tenant : Option String) (role_id : Uuid) (permission : String)
      → Ensures env s
          (answer g member tenant role_id permission)
          λ b s'. b ≡ true → Basis g member tenant role_id permission s.db
  unfolding answer scoped_permission active_member_has_permission
  answer-Basis (some m) none r p = Ensures-throw _
  answer-Basis none none r p =
      Ensures-branch _ _ _ (λ e. Ensures-throw _)
        λ e.
          Ensures-on_error _ _
            (Ensures-weaken env s _ _ _ (role_permission-Listed none r p) λ b s' w h. (e, w h))
  answer-Basis none (some t) r p = bind_required _ _ _ λ id e.
      Ensures-on_error _ _
        (Ensures-weaken env s _ _ _ (role_permission-Listed (some id) r p) λ b s' w h. (id, e, w h))
  answer-Basis (some m) (some t) r p = bind_required _ _ _ λ id e. Ensures-on_error _ _ (
      Ensures-branch _ _ _ (λ c. Ensures-pure _ λ h. cc)
        λ c. bind_query _ _ (
          Ensures-pure _
            λ h. (id, e, ground (arith, c), permission_rows-Grant _ s.db (ground arith))))

module _ (env : Env) (s : State) (g : Gateway) (calm : env.fails s.step ≡ false) where
  Names-optional_member_id :
      (v : Option Value) (m : Option Uuid) → Names g v m → optional_member_id g v env s ≡ (ok m, s)
  unfolding optional_member_id ◌>>=◌
  Names-optional_member_id v none (inl e) = rw e refl
  Names-optional_member_id v none (inr (inl e)) = rw e refl
  Names-optional_member_id v none (inr (inr e)) = rw e refl
  Names-optional_member_id v (some id) (text, e, f, p, n) = rw e (ground (arith, f, p))

  Listed-role_permission :
      (tenant : Option Uuid) (role_id : Uuid) (permission : String)
      → Listed tenant role_id permission s.db
      → role_permission tenant role_id permission env s ≡ (ok true, tick s)
  unfolding role_permission ◌>>=◌
  Listed-role_permission tenant role_id permission w =
      ground (arith, Listed-granting_rows tenant role_id permission s.db w)

  Basis-answer :
      (member : Option Uuid) (tenant : Option String) (role_id : Uuid) (permission : String)
      → Basis g member tenant role_id permission s.db
      → (answer g member tenant role_id permission env s).0 ≡ ok true
  unfolding answer scoped_permission active_member_has_permission ◌>>=◌
  Basis-answer (some m) none r p b = absurd b
  Basis-answer none none r p (q, w) = rw (q, Listed-role_permission none r p w) refl
  Basis-answer none (some t) r p (id, e, w) = rw (e, Listed-role_permission (some id) r p w) refl
  Basis-answer (some m) (some t) r p (id, e, c, w) =
      rw e (ground (arith, c, Grant-permission_rows (member_query id r m p) s.db w))

module _ (env : Env) (s : State) (g : Gateway) (req : Struct) where
  check_permission-Allowed :
      Ensures env s (check_permission g req) λ b s'. b ≡ true → Allowed g req s.db
  unfolding check_permission
  check_permission-Allowed = bind_required _ _ _ λ role e1. bind_required _ _ _ λ permission e2.
      bind_required _ _ _ λ role_id e3. Ensures-bind _ _ (
        Ensures-weaken env s _ _ _ (optional_member_id-Names env s g (field "member_id" req))
          λ m s1 n.
            Ensures-weaken env s1 _ _ _
              (answer-Basis env s1 g m (struct_string "tenant_id" req) role_id permission)
              λ b s2 w h. record {
                role = role;
                permission = permission;
                role_id = role_id;
                member = m;
                role_given = e1;
                permission_given = e2;
                role_read = e3;
                member_read = n.0;
                basis =
                    subst (Basis g m (struct_string "tenant_id" req) role_id permission) n.1 (w h);
              })

  -- Where its statement does not fail, CheckPermission answers yes exactly when the request is
  -- entitled to: it names a role and a permission and at most one member; with a tenant, stored
  -- rows of a role of that tenant, or of none, list the permission; with a member, the rows are
  -- those of an active membership of that member in the tenant that carries the role. Without a
  -- tenant there is no member, the service does not require a tenant, and the role whose rows list
  -- the permission may be of any tenant.
  pub check_permission-refines :
      env.fails s.step ≡ false → ((check_permission g req env s).0 ≡ ok true) ↔ Allowed g req s.db
  unfolding check_permission ◌>>=◌
  check_permission-refines calm = (
    λ e. Ensures-ok env s _ _ true e check_permission-Allowed refl,
    λ a.
        rw
          (
            a.role_given,
            a.permission_given,
            a.role_read,
            Names-optional_member_id env s g calm _ a.member a.member_read,
          )
          (Basis-answer env s g calm a.member _ a.role_id a.permission a.basis),
  )
