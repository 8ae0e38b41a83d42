-- ===== src/Asking.antt =====
-- The use cases in front of Creator requests and of an existing account's invitation:
-- creator_request_usecase.go, creator_decision_usecase.go and existing_invitation.go of
-- internal/usecase.
use kelolakelas_identity_ser.Base.{
  ℕ, ◌==◌, nat_eq, text_eq, Bool, true, false, ◌&&◌, ◌||◌, not, Option, none, some, List, ltb, Text,
  String,
}
use kelolakelas_identity_ser.Schema.{Uuid, TenantMember, CreatorRequest}
use kelolakelas_identity_ser.Sql.{
  Exec, guard, ask, ◌>>=◌, ◌>>◌, creator_request_forbidden, creator_request_invalid,
}
use kelolakelas_identity_ser.Members.{given, is_null}
use kelolakelas_identity_ser.Emails.{trim_space, normalize_email}
use kelolakelas_identity_ser.Sessions.{Jwt, principal, valid_tenant_user}
use kelolakelas_identity_ser.Accepting.{accept_existing}
use kelolakelas_identity_ser.CreatorRequests.{is_empty, create_request, list_requests}
use kelolakelas_identity_ser.CreatorDecisions.{decide}

-- len, which counts bytes, and mail.ParseAddress: the address, or `none` for an error
pub record Mailbox : Type 0 where
  pub size : Text → ℕ
  pub parse_address : Text → Option Text

abbrev names_user : Option Uuid → Bool
names_user none = true
names_user (some id) = given id

abbrev is_address : Text → Option Text → Bool
is_address email none = false
is_address email (some address) = address == email

-- CreatorRequestUsecase.Create
unfoldable pub ask_for_creator :
    Mailbox → Uuid → Uuid → Uuid → Text → Option Uuid → Text → Exec CreatorRequest
ask_for_creator b tenant_id requester_id role_id text user_id text' = do
  env ← ask (λ env n. env)
  let email = normalize_email env text
  let reason = trim_space env text'
  guard (given tenant_id && given requester_id && given role_id) creator_request_forbidden
  guard (not (is_empty email && is_null user_id) && names_user user_id) creator_request_invalid
  guard (ltb 0 (b.size reason) && not (ltb 2000 (b.size reason)) && not (ltb 255 (b.size email)))
      creator_request_invalid
  guard (is_empty email || is_address email (b.parse_address email)) creator_request_invalid
  create_request tenant_id requester_id role_id email user_id reason

-- CreatorRequestUsecase.List
unfoldable pub list_for_creator :
    (List CreatorRequest → List CreatorRequest) → Uuid → Uuid → Uuid → Exec (List CreatorRequest)
list_for_creator by_age tenant_id requester_id role_id = do
  guard (given tenant_id && given requester_id && given role_id) creator_request_forbidden
  list_requests by_age tenant_id requester_id role_id

-- CreatorDecisionUsecase.Decide, without the e-mail, whose failure is only logged
unfoldable pub decide_for_platform : (Text → ℕ) → Uuid → Uuid → Bool → Text → Exec CreatorRequest
decide_for_platform size request_id actor_id approval reason = do
  guard (given request_id && given actor_id) creator_request_invalid
  decide size request_id actor_id approval reason

-- ExistingInvitations.Accept
unfoldable pub accept_with_session : Jwt → String → String → Exec TenantMember
accept_with_session lib token access_token = do
  c ← principal lib access_token
  accept_existing token c.user_id (λ user. valid_tenant_user user c)
