-- ===== src/Services/Listed.antt =====
-- The rows that checkPermission of internal/delivery/grpc/permission_service.go counts.
use kelolakelas_identity_ser.Base.{
  ◌<◌, ◌≡◌, ◌⊎◌, inl, inr, ◌==◌, ◌&&◌, String, nat_eq, string_eq, true, Option, none, some, arith,
  Within, total_where-positive, positive-total_where, count-Within, Within-count, eq_iff,
}
use kelolakelas_identity_ser.Schema.{Uuid, Db, Role, Permission, RolePermission}
use kelolakelas_identity_ser.Permissions.{role_in_scope}
use kelolakelas_identity_ser.Services.{role_matches, named_rows, listed_rows, granting_rows}

-- A role of the tenant or of none, or of any tenant where none is asked for
abbrev InScope : Option Uuid → Role → Type 0
InScope none r = Unit
InScope (some tenant_id) r = (r.tenant_id ≡ some tenant_id) ⊎ (r.tenant_id ≡ none)

-- Stored rows by which a role lists a permission.
pub record Listed (tenant : Option Uuid) (role_id : Uuid) (permission : String) (d : Db)
    : Type 0 where
  pub role : Role
  pub link : RolePermission
  pub entry : Permission
  pub role_stored : Within role d.roles
  pub link_stored : Within link d.role_permissions
  pub entry_stored : Within entry d.permissions
  pub asked : role.id ≡ role_id
  pub scope : InScope tenant role
  pub link_role : link.role_id ≡ role.id
  pub link_permission : entry.id ≡ link.permission_id
  pub names : entry.name ≡ permission

matches-InScope :
    (tenant : Option Uuid) (role_id : Uuid) (r : Role)
    → role_matches tenant role_id r ≡ true
    → (r.id ≡ role_id) × InScope tenant r
unfolding role_matches role_in_scope
matches-InScope none role_id r h = (ground (arith, h), tt)
matches-InScope (some t) role_id r h = (ground (arith, h), ground (arith, h))

InScope-matches :
    (tenant : Option Uuid) (role_id : Uuid) (r : Role)
    → r.id ≡ role_id
    → InScope tenant r
    → role_matches tenant role_id r ≡ true
unfolding role_matches role_in_scope
InScope-matches none role_id r e h = ground arith
InScope-matches (some t) role_id r e (inl h) = ground arith
InScope-matches (some t) role_id r e (inr h) = ground arith

module _ (tenant : Option Uuid) (role_id : Uuid) (permission : String) (d : Db) where
  pub granting_rows-Listed :
      0 < granting_rows tenant role_id permission d → Listed tenant role_id permission d
  unfolding granting_rows
  granting_rows-Listed h =
      let (r, hr, er, nr) =
        total_where-positive (role_matches tenant role_id) (listed_rows permission d) d.roles h in
      let (l, hl, el, nl) =
        total_where-positive (λ rp. rp.role_id == r.id) (named_rows permission d) d.role_permissions
          nr in
      let (p, hp, ep) = count-Within _ d.permissions nl in
      let (e, i) = matches-InScope tenant role_id r er in
      record {
        role = r;
        link = l;
        entry = p;
        role_stored = hr;
        link_stored = hl;
        entry_stored = hp;
        asked = e;
        scope = i;
        link_role = ground (arith, el);
        link_permission = ground (arith, ep);
        names = ground (arith, ep, eq_iff p.name permission);
      }

  pub Listed-granting_rows :
      Listed tenant role_id permission d → 0 < granting_rows tenant role_id permission d
  unfolding granting_rows
  Listed-granting_rows w =
      positive-total_where (role_matches tenant role_id) (listed_rows permission d) d.roles w.role
        w.role_stored (InScope-matches tenant role_id w.role w.asked w.scope)
        (positive-total_where (λ rp. rp.role_id == w.role.id) (named_rows permission d)
          d.role_permissions w.link w.link_stored (ground arith)
          (Within-count (λ p. p.id == w.link.permission_id && p.name == permission) d.permissions
            w.entry w.entry_stored (ground (arith, eq_iff w.entry.name permission))))
