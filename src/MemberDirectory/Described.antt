-- ===== src/MemberDirectory/Described.antt =====
-- FetchMyMembership of internal/usecase/member_usecase.go against the permission check.
use kelolakelas_identity_ser.Base.{
  ◌≡◌, ◌≢◌, ◌↔◌, refl, sym, ap, ◌∙◌, String, ◌==◌, nat_eq, string_eq, true, false, some, List, map,
  arith, rows, Within, rows-Within, head-Within, from-Within, Within-rows, Within-from, Within-map,
  map-Within, eq_iff, if◌then◌else◌,
}
use mathlib.Core.Path.{subst}
use kelolakelas_identity_ser.Schema.{Uuid, Db, Role, Permission, RolePermission, TenantMember}
use kelolakelas_identity_ser.Sql.{Env, State, ok, err, db_error}
use kelolakelas_identity_ser.Sql.Rules.{
  Ensures-pure, Ensures-ok, bind_query, bind_required, bind_guard,
}
use kelolakelas_identity_ser.Members.{Caller}
use kelolakelas_identity_ser.Permissions.{
  MemberPermissionQuery, complete, caller_query, member_matches, role_in_scope, role_joins,
  caller_has_permission,
}
use kelolakelas_identity_ser.Permissions.Grants.{
  Grant, caller_has_permission-Grant, caller_has_permission-complete,
}
use kelolakelas_identity_ser.MemberDirectory.{
  Dialect, Membership, membership_row, names_of, find_active_membership, fetch_my_membership,
}

module _ (role_id : Uuid) (d : Db) where
  -- A link of the role, and the permission that it links.
  record Linked (name : String) : Type 0 where
    link : RolePermission
    permission : Permission
    link_stored : Within link d.role_permissions
    permission_stored : Within permission d.permissions
    of_role : link.role_id == role_id ≡ true
    links : permission.id == link.permission_id ≡ true
    named : permission.name ≡ name

  names_of-Linked : (name : String) → Within name (names_of role_id d) → Linked name
  unfolding names_of
  names_of-Linked name m =
      let (rp, mr, mn) =
        from-Within (λ rp. map (λ p. p.name) (rows (λ p. p.id == rp.permission_id) d.permissions))
          (rows (λ rp. rp.role_id == role_id) d.role_permissions) name m in
      let (sr, qr) = rows-Within (λ rp. rp.role_id == role_id) d.role_permissions rp mr in
      let (p, mp, e) =
        map-Within (λ (p : Permission). p.name) (rows (λ p. p.id == rp.permission_id) d.permissions)
          name mn in
      let (sp, qp) = rows-Within (λ p. p.id == rp.permission_id) d.permissions p mp in
      record {
        link = rp;
        permission = p;
        link_stored = sr;
        permission_stored = sp;
        of_role = qr;
        links = qp;
        named = e;
      }

  Linked-names_of : (name : String) → Linked name → Within name (names_of role_id d)
  unfolding names_of
  Linked-names_of name j =
      Within-from (λ rp. map (λ p. p.name) (rows (λ p. p.id == rp.permission_id) d.permissions))
        (rows (λ rp. rp.role_id == role_id) d.role_permissions) j.link name
        (Within-rows (λ rp. rp.role_id == role_id) d.role_permissions j.link j.link_stored
          j.of_role)
        (subst
          (λ n.
            Within n (map (λ p. p.name) (rows (λ p. p.id == j.link.permission_id) d.permissions)))
          j.named
          (Within-map (λ (p : Permission). p.name)
            (rows (λ p. p.id == j.link.permission_id) d.permissions) j.permission
            (Within-rows (λ p. p.id == j.link.permission_id) d.permissions j.permission
              j.permission_stored j.links)))

-- The rows that an answer describes.
record Described (l : Dialect) (q : MemberPermissionQuery) (d : Db) (m : Membership) : Type 0 where
  member : TenantMember
  role : Role
  member_stored : Within member d.tenant_members
  role_stored : Within role d.roles
  matches : member_matches q member ≡ true
  joins : role_joins q member role ≡ true
  names : m.permission_names ≡ l.sort_names (names_of member.role_id d)

membership_row-Within :
    (q : MemberPermissionQuery) (d : Db) (tm : TenantMember) (ro : Role)
    → membership_row q d ≡ some (tm, ro)
    → Within tm d.tenant_members
      × (member_matches q tm ≡ true)
      × Within ro d.roles
      × (role_joins q tm ro ≡ true)
unfolding membership_row
membership_row-Within q d tm ro e =
    let (t, mt, mb) =
      from-Within (λ tm. map (λ ro. (tm, ro)) (rows (λ ro. role_joins q tm ro) d.roles))
        (rows (member_matches q) d.tenant_members) (tm, ro) (head-Within _ (tm, ro) e) in
    let (st, qt) = rows-Within (member_matches q) d.tenant_members t mt in
    let (r, mr, e) =
      map-Within (λ ro. (t, ro)) (rows (λ ro. role_joins q t ro) d.roles) (tm, ro) mb in
    let (sr, qr) = rows-Within (λ ro. role_joins q t ro) d.roles r mr in
    let et : t ≡ tm = ap (λ x. x.0) e in
    let er : r ≡ ro = ap (λ x. x.1) e in
    (rw (← et) st, rw (← et) qt, rw (← er) sr, rw (← et, ← er) qr)

module _ (l : Dialect) (caller : Caller) (tenant_id role_id : Uuid) (env : Env) (s : State) where
  fetch_my_membership-Described :
      (m : Membership)
      → (fetch_my_membership l (some caller) tenant_id role_id env s).0 ≡ ok m
      → Described l (caller_query caller tenant_id role_id "") s.db m
        × (caller.user_id ≢ 0)
        × (role_id ≢ 0)
  unfolding fetch_my_membership find_active_membership
  fetch_my_membership-Described m h =
      Ensures-ok env s (fetch_my_membership l (some caller) tenant_id role_id)
        (λ m s'.
          Described l (caller_query caller tenant_id role_id "") s.db m
          × (caller.user_id ≢ 0)
          × (role_id ≢ 0))
        m h
        (bind_required _ _ _ λ c e. bind_guard _ _ _ λ g. bind_query _ _ (
          bind_required _ _ _ λ (tm, ro) f. bind_guard _ _ _ λ g'. bind_query _ _ (
            Ensures-pure _
              let ec : c ≡ caller = cc e in
                let (st, qt, sr, qr) =
                  membership_row-Within (caller_query caller tenant_id role_id "") s.db tm ro (
                    subst
                      (λ (c : Caller).
                        membership_row (caller_query c tenant_id role_id "") s.db ≡ some (tm, ro))
                      ec f) in
                (
                  record {
                    member = tm;
                    role = ro;
                    member_stored = st;
                    role_stored = sr;
                    matches = qt;
                    joins = qr;
                    names = refl;
                  },
                  ground (arith, ap (λ (c : Caller). c.user_id) ec),
                  ground arith,
                ))))

module _ (l : Dialect) (caller : Caller) (tenant_id role_id : Uuid) (name : String) (d : Db)
    (m : Membership) where
  Described-Grant :
      Described l (caller_query caller tenant_id role_id "") d m
      → Linked role_id d name
      → Grant (caller_query caller tenant_id role_id name) d
  unfolding member_matches role_in_scope caller_query
  Described-Grant r j = record {
    member = r.member;
    role = r.role;
    link = j.link;
    permission = j.permission;
    member_stored = r.member_stored;
    role_stored = r.role_stored;
    link_stored = j.link_stored;
    permission_stored = j.permission_stored;
    tenant = ground (arith, r.matches);
    carries = ground (arith, r.matches);
    active = ground (arith, r.matches);
    kept = ground (arith, r.matches);
    pinned_member = λ p. ground (arith, r.matches, p);
    pinned_user = λ p. ground (arith, r.matches, p);
    role_of_member = ground (arith, r.joins);
    role_scope = ground (arith, r.joins);
    link_role = ground (arith, r.joins, j.of_role, r.matches);
    link_permission = ground (arith, j.links);
    names = j.named;
  }

  Grant-Linked : Grant (caller_query caller tenant_id role_id name) d → Linked role_id d name
  unfolding caller_query
  Grant-Linked g = record {
    link = g.link;
    permission = g.permission;
    link_stored = g.link_stored;
    permission_stored = g.permission_stored;
    of_role = ground (arith, g.link_role, g.role_of_member, g.carries);
    links = ground (arith, g.link_permission);
    named = g.names;
  }

  carried :
      (r : Described l (caller_query caller tenant_id role_id "") d m) → r.member.role_id ≡ role_id
  unfolding member_matches caller_query
  carried r = ground (arith, r.matches)

-- What a caller is told about their own membership is what a permission check decides: a name is
-- in the list of permissions exactly when the check of the same caller, tenant and role answers
-- yes for it, on the same tables. The check's statement does not fail, the tenant and the name are
-- given, and ORDER BY keeps the rows.
pub fetch_my_membership-caller_has_permission :
    (l : Dialect) (caller : Caller) (tenant_id role_id : Uuid) (name : String) (env env' : Env)
    (s : State) (m : Membership)
    → ((xs : List String) (x : String) → Within x (l.sort_names xs) ↔ Within x xs)
    → tenant_id ≢ 0
    → name ≢ ""
    → env'.fails s.step ≡ false
    → (fetch_my_membership l (some caller) tenant_id role_id env s).0 ≡ ok m
    → ((caller_has_permission (some caller) tenant_id role_id name env' s).0 ≡ ok true)
      ↔ Within name m.permission_names
unfolding complete caller_query
fetch_my_membership-caller_has_permission l caller tenant_id role_id name env env' s m sorted t n f
      h =
    let (r, u, g) = fetch_my_membership-Described l caller tenant_id role_id env s m h in
    let same : m.permission_names ≡ l.sort_names (names_of role_id s.db) =
      r.names
      ∙ ap (λ i. l.sort_names (names_of i s.db))
          (carried l caller tenant_id role_id name s.db m r) in
    (
      λ yes. subst (Within name) (sym same) (
          (sorted (names_of role_id s.db) name).1 (
            Linked-names_of role_id s.db name (
              Grant-Linked l caller tenant_id role_id name s.db m
                (caller_has_permission-Grant caller tenant_id role_id name env' s yes).0))),
      λ w.
          let j =
            names_of-Linked role_id s.db name
              ((sorted (names_of role_id s.db) name).0 (subst (Within name) same w)) in
          caller_has_permission-complete caller tenant_id role_id name env' s
            (Described-Grant l caller tenant_id role_id name s.db m r j)
            (ground (arith, t, n, g, u, eq_iff name "")) u
          ∙ ap (λ b. if b then err db_error else ok true) f,
    )
