-- ===== src/MemberDirectory/Paging.antt =====
-- The pages of the member list of internal/usecase/member_usecase.go.
use kelolakelas_identity_ser.Base.{
  ℕ, zero, suc, ◌+◌, ◌-◌, ◌*◌, ◌%◌, ◌^◌, ◌≤◌, ◌<◌, ◌≡◌, refl, sym, ap, ◌∙◌, ◌==◌, nat_eq, string_eq,
  String, Bool, Option, none, List, [], ◌∷◌, arith, length, rows, Within, rows-Within, from-Within,
  map-Within, inl, inr, ℤ, pos, negsuc,
}
use native.Mathlib.Nat.{mul-le-mul_right}
use kelolakelas_identity_ser.Schema.{Uuid, Db, TenantMember}
use kelolakelas_identity_ser.Sql.{Env, State, ok}
use kelolakelas_identity_ser.Sql.Rules.{
  Ensures-pure, Ensures-ok, Ensures-bind, Ensures-weaken, bind_query,
}
use kelolakelas_identity_ser.Members.{Caller, MemberResponse, member_row}
use kelolakelas_identity_ser.Permissions.Required.{Permitted, require_permission-Permitted}
use kelolakelas_identity_ser.MemberDirectory.{
  Dialect, MemberQuery, page_of, size_of, pages_of, listed, member_listing, skip, keep, page_rows,
  wrapped_offset, offset_of, list_repository, order_column, Listing, list_members, caller_role,
}

page_of-positive : (n : ℤ) → 1 ≤ page_of n
page_of-positive (pos zero) = omega arith
page_of-positive (pos (suc n)) = omega arith
page_of-positive (negsuc n) = omega arith

size_of-bounds : (n : ℤ) → (1 ≤ size_of n) × (size_of n ≤ 100)
size_of-bounds (pos n) = (ground arith, ground arith)
size_of-bounds (negsuc n) = (omega arith, omega arith)

length-keep : {A : Type 0} (n : ℕ) (xs : List A) → length (keep n xs) ≤ n
length-keep zero xs = omega arith
length-keep (suc n) [] = omega arith
length-keep (suc n) (x ∷ xs) = suc_le (length-keep n xs)
  where
    suc_le : {m n : ℕ} → m ≤ n → suc m ≤ suc n
    suc_le h = omega arith

length-skip : {A : Type 0} (n : ℕ) (xs : List A) → length (skip n xs) ≡ length xs - n
length-skip zero xs = omega arith
length-skip (suc n) [] = omega arith
length-skip (suc n) (x ∷ xs) = less (length xs) n (length-skip n xs)
  where
    less : {a : ℕ} (m n : ℕ) → a ≡ m - n → a ≡ suc m - suc n
    less m n h = omega arith

keep-Within : {A : Type 0} (n : ℕ) (xs : List A) (a : A) → Within a (keep n xs) → Within a xs
keep-Within zero xs a m = elim m [ ]
keep-Within (suc n) [] a m = m
keep-Within (suc n) (x ∷ xs) a (inl e) = inl e
keep-Within (suc n) (x ∷ xs) a (inr m) = inr (keep-Within n xs a m)

skip-Within : {A : Type 0} (n : ℕ) (xs : List A) (a : A) → Within a (skip n xs) → Within a xs
skip-Within zero xs a m = m
skip-Within (suc n) [] a m = m
skip-Within (suc n) (x ∷ xs) a m = inr (skip-Within n xs a m)

nothing_left : {A : Type 0} (n : ℕ) (xs : List A) → length xs ≡ 0 → keep n xs ≡ []
nothing_left zero xs h = refl
nothing_left (suc n) [] h = refl
nothing_left (suc n) (x ∷ xs) h = absurd (omega arith)

-- The ceiling of a quotient.
pages_of-ceiling :
    (total size : ℕ)
    → 1 ≤ size
    → (total ≤ pages_of total size * size) × (pages_of total size * size < total + size)
pages_of-ceiling total size h = (omega arith, omega arith)

page_beyond :
    (page total size : ℕ) → 1 ≤ size → pages_of total size < page → total - (page - 1) * size ≡ 0
page_beyond page total size h b =
    let more : pages_of total size * size ≤ (page - 1) * size =
      mul-le-mul_right size (before page (pages_of total size) b) in
    let all : total ≤ pages_of total size * size = (pages_of-ceiling total size h).0 in
    exhausted total (pages_of total size * size) ((page - 1) * size) all more
  where
    before : (page n : ℕ) → n < page → n ≤ page - 1
    before page n h = omega arith

    exhausted : (a b c : ℕ) → a ≤ b → b ≤ c → a - c ≡ 0
    exhausted a b c h k = omega arith

offset_of-exact :
    (page size : ℕ) → (page - 1) * size < 2 ^ 63 → offset_of page size ≡ (page - 1) * size
unfolding offset_of
offset_of-exact page size h = exact ((page - 1) * size) h
  where
    exact : (n : ℕ) → n < 2 ^ 63 → wrapped_offset (n % 2 ^ 64) ≡ n
    exact n h = ground arith

-- A row of the list is built from a membership of the tenant that has not been removed.
pub record Current (tenant_id : Uuid) (d : Db) (r : MemberResponse) : Type 0 where
  pub member : TenantMember
  pub stored : Within member d.tenant_members
  pub same : r.id ≡ member.id
  pub tenant : member.tenant_id ≡ tenant_id
  pub kept : member.deleted_at ≡ none

member_listing-Current :
    (l : Dialect) (tenant_id : Uuid) (q : MemberQuery) (d : Db) (r : MemberResponse)
    → Within r (member_listing l tenant_id q d)
    → Current tenant_id d r
unfolding member_listing listed member_row
member_listing-Current l tenant_id q d r m =
    let (tm, mt, mu) = from-Within _ (rows (listed tenant_id q) d.tenant_members) r m in
    let (st, qt) = rows-Within (listed tenant_id q) d.tenant_members tm mt in
    let (u, mu', mr) = from-Within _ _ r mu in
    let (ro, mr', e) = map-Within (λ ro. member_row tm u ro) _ r mr in
    record {
      member = tm;
      stored = st;
      same = ap (λ (r : MemberResponse). r.id) (sym e);
      tenant = ground (arith, qt);
      kept = ground (arith, qt);
    }

-- What a page of the list promises.
pub record Page (l : Dialect) (tenant_id : Uuid) (q : MemberQuery) (d : Db)
    (r : Listing MemberResponse) : Type 0 where
  pub first : 1 ≤ r.page
  pub smallest : 1 ≤ r.page_size
  pub largest : r.page_size ≤ 100
  pub counted : r.total_items ≡ length (member_listing l tenant_id q d)
  pub short : length r.items ≤ r.page_size
  pub enough : r.total_items ≤ r.total_pages * r.page_size
  pub tight : r.total_pages * r.page_size < r.total_items + r.page_size
  pub beyond : r.total_pages < r.page → (r.page - 1) * r.page_size < 2 ^ 63 → r.items ≡ []
  pub current : (m : MemberResponse) → Within m r.items → Current tenant_id d m

module _ (l : Dialect) (tenant_id : Uuid) (q : MemberQuery) (d : Db) where
  abbrev sorted_listing : List MemberResponse
  sorted_listing =
      l.sort_members (order_column q.sort) (q.order == "desc") (member_listing l tenant_id q d)

  page_rows-Page :
      ((xs : List MemberResponse) (column : String) (down : Bool)
        → (length (l.sort_members column down xs) ≡ length xs)
          × ((x : MemberResponse) → Within x (l.sort_members column down xs) → Within x xs))
      → (page size : ℕ) → 1 ≤ page
      → (1 ≤ size) × (size ≤ 100)
      → Page l tenant_id q d record {
        items = page_rows page size sorted_listing;
        page = page;
        page_size = size;
        total_items = length (member_listing l tenant_id q d);
        total_pages = pages_of (length (member_listing l tenant_id q d)) size;
      }
  page_rows-Page sorts page size h (h1, h2) =
      let xs = member_listing l tenant_id q d in
      let same = (sorts xs (order_column q.sort) (q.order == "desc")).0 in
      let ceiling = pages_of-ceiling (length xs) size h1 in
      record {
        first = h;
        smallest = h1;
        largest = h2;
        counted = refl;
        short = length-keep size (skip (offset_of page size) sorted_listing);
        enough = ceiling.0;
        tight = ceiling.1;
        beyond = λ b fits. nothing_left size (skip (offset_of page size) sorted_listing) (
            length-skip (offset_of page size) sorted_listing
            ∙ ap (λ n. length sorted_listing - n) (offset_of-exact page size fits)
            ∙ ap (λ n. n - (page - 1) * size) same
            ∙ page_beyond page (length xs) size h1 b);
        current = λ m w. member_listing-Current l tenant_id q d m (
            (sorts xs (order_column q.sort) (q.order == "desc")).1 m (
              skip-Within (offset_of page size) sorted_listing m
                (keep-Within size (skip (offset_of page size) sorted_listing) m w)));
      }

-- The member list that the use case answers with: the caller has the permission to read members
-- here, the page number is at least 1, the size of a page
-- lies between 1 and 100 whatever was asked for, the list holds at most that many rows, the number
-- of pages is the ceiling of the total by the size, a page past the last one is empty as long as
-- the offset (page - 1) * size fits in an int64, and every row shows a stored membership of the tenant that has not been removed. ORDER BY keeps the rows
-- and their number, and the two statements of the list see the same tables.
pub list_members-Page :
    (l : Dialect) (caller : Option Caller) (tenant_id : Uuid) (q : MemberQuery) (env : Env)
    (s : State) (r : Listing MemberResponse)
    → ((xs : List MemberResponse) (column : String) (down : Bool)
        → (length (l.sort_members column down xs) ≡ length xs)
          × ((x : MemberResponse) → Within x (l.sort_members column down xs) → Within x xs))
    → (list_members l caller tenant_id q env s).0 ≡ ok r
    → Permitted caller tenant_id (caller_role caller) "member:read" s.db × Page l tenant_id q s.db r
unfolding list_members list_repository
list_members-Page l caller tenant_id q env s r sorts h =
    Ensures-ok env s (list_members l caller tenant_id q)
      (λ r s'.
        Permitted caller tenant_id (caller_role caller) "member:read" s.db
        × Page l tenant_id q s.db r)
      r h
      (Ensures-bind _ _ (
        Ensures-weaken env s _ _ _
          (require_permission-Permitted env s caller tenant_id (caller_role caller) "member:read")
          λ u s1 g. Ensures-bind _ _ (
            bind_query _ _ (
              bind_query _ _ (
                Ensures-pure _ (
                  Ensures-pure _ (
                    g.1,
                    rw (← g.0) (
                        page_rows-Page l tenant_id q s1.db sorts (page_of q.page)
                          (size_of q.page_size) (page_of-positive q.page)
                          (size_of-bounds q.page_size)),
                  )))))))
