-- ===== src/CreatorRequests.antt =====
-- internal/repository/creator_request_repository.go: a Creator asks for another one.
use kelolakelas_identity_ser.Base.{
  ◌==◌, nat_eq, string_eq, text_eq, Bool, true, false, ◌&&◌, ◌||◌, not, Option, none, some, List,
  [], ◌∷◌, ◌++◌, if◌then◌else◌, Text, ltb, first, exists, rows, count,
}
use kelolakelas_identity_ser.Schema.{Time, Uuid, Db, User, TenantMember, CreatorRequest}
use kelolakelas_identity_ser.Sql.{
  Error, Env, Exec, pure, guard, required, query, insert, ask, time_now, new_uuid, on_error, ◌>>=◌,
  ◌>>◌, transaction, unique_violation, creator_request_forbidden, creator_request_duplicate,
  creator_target_already_creator, creator_request_invalid,
}
use kelolakelas_identity_ser.Members.{is_null}
use kelolakelas_identity_ser.Emails.{normalize_email}
use kelolakelas_identity_ser.Resets.{user_by_id}

-- JOIN roles ro … WHERE ro.name = 'Creator' AND ro.tenant_id IS NULL
abbrev creates : Db → TenantMember → Bool
creates d tm =
    exists (λ ro. ro.id == tm.role_id && ro.name == "Creator" && is_null ro.tenant_id) d.roles

-- The active membership of a user in a tenant, with the system role Creator
unfoldable pub active_creator : Uuid → Uuid → Db → TenantMember → Bool
active_creator tenant_id user_id d tm =
    tm.tenant_id == tenant_id
    && tm.user_id == user_id
    && tm.is_active
    && is_null tm.deleted_at
    && creates d tm

-- creator
unfoldable pub check_creator : Uuid → Uuid → Uuid → Exec (Unit {0})
check_creator tenant_id requester_id role_id = do
  found ← query (λ d.
      exists (λ tm. active_creator tenant_id requester_id d tm && tm.role_id == role_id)
        d.tenant_members)
  guard found creator_request_forbidden

-- Where("LOWER(email) = ? AND deleted_at IS NULL"), with the address as it is
unfoldable pub user_at : Env → Text → Db → Option User
user_at env email d =
    first (λ u. u.id) (λ u. env.sql_lower u.email == email && is_null u.deleted_at) d.users

abbrev id_of : Option User → Option Uuid
id_of none = none
id_of (some u) = some u.id

abbrev pub is_empty : Text → Bool
is_empty [] = true
is_empty (c ∷ s) = false

-- The address and the account that a request is about.
unfoldable pub resolve_target : Text → Option Uuid → Exec (Text × Option Uuid)
resolve_target email (some id) = do
  env ← ask (λ env n. env)
  user ← query (user_by_id id)
  user ← required creator_request_invalid user
  guard (is_empty email || env.equal_fold email user.email) creator_request_invalid
  pure (normalize_email env user.email, some id)
resolve_target email none = do
  env ← ask (λ env n. env)
  user ← query (user_at env email)
  pure (email, id_of user)

unfoldable pub not_yet_creator : Uuid → Option Uuid → Exec (Unit {0})
not_yet_creator tenant_id none = pure tt
not_yet_creator tenant_id (some id) = do
  n ← query (λ d. count (active_creator tenant_id id d) d.tenant_members)
  guard (not (ltb 0 n)) creator_target_already_creator

-- uq_creator_requests_pending_target
unfoldable pub pending_constraint : Uuid → Text → Db → Option Error
pending_constraint tenant_id email d =
    if exists (λ r. r.tenant_id == tenant_id && r.target_email == email && r.status == "pending")
      d.creator_requests
    then some (unique_violation "uq_creator_requests_pending_target")
    else none

unfoldable pub pending_conflict : Error → Error
pending_conflict (unique_violation name) =
    if name == "uq_creator_requests_pending_target"
    then creator_request_duplicate
    else unique_violation name
pending_conflict e = e

abbrev request_row : Uuid → Uuid → Uuid → (Text × Option Uuid) → Text → Time → CreatorRequest
request_row id tenant_id requester_id target reason now = record {
  id = id;
  tenant_id = tenant_id;
  requester_user_id = requester_id;
  target_email = target.0;
  target_user_id = target.1;
  reason = reason;
  status = "pending";
  decided_by = none;
  decided_at = none;
  rejection_reason = none;
  invitation_id = none;
  created_at = now;
  updated_at = now;
}

unfoldable pub add_request : CreatorRequest → Db → Db
add_request r d = record d { creator_requests = d.creator_requests ++ r ∷ [] }

-- Create
unfoldable pub create_request : Uuid → Uuid → Uuid → Text → Option Uuid → Text → Exec CreatorRequest
create_request tenant_id requester_id role_id email target_user_id reason = transaction do
  check_creator tenant_id requester_id role_id
  target ← resolve_target email target_user_id
  not_yet_creator tenant_id target.1
  now ← time_now
  id ← new_uuid
  on_error pending_conflict (
      insert (pending_constraint tenant_id target.0)
        (add_request (request_row id tenant_id requester_id target reason now)))
  pure (request_row id tenant_id requester_id target reason now)

-- List, ordered by created_at and id, newest first; `by_age` is that order.
unfoldable pub list_requests :
    (List CreatorRequest → List CreatorRequest) → Uuid → Uuid → Uuid → Exec (List CreatorRequest)
list_requests by_age tenant_id requester_id role_id = transaction do
  check_creator tenant_id requester_id role_id
  query (λ d. by_age (rows (λ r. r.tenant_id == tenant_id) d.creator_requests))
