-- ===== src/Lib.antt =====
-- The identity service: accounts, tenants, memberships, roles and permissions, sessions, and the
-- settings that platform administrators control, over one PostgreSQL database.
--
-- The parts, and the files that model them:
--
-- * Schema has a record for each table, with the columns that the modelled code reads or writes
--   (internal/domain, migrations). Sql has the statements that the repositories run through gorm,
--   as functions of the environment and a state: the tables and the number of steps so far. A
--   statement may fail at any step, as the environment says; it also supplies the clock, random
--   ids, bcrypt, and the functions of strings and of PostgreSQL that are not ASCII. A transaction
--   that ends in an error goes back to the tables that it found. Sql.Rules has one rule
--   for each statement, with which the proofs walk through an operation.
-- * Members is internal/repository/member_repository.go: find, remove and re-assign a membership.
-- * Permissions is internal/repository/member_permission.go and internal/usecase/permission.go: the
--   one query behind every permission check, a count over four joined tables.
-- * Emails is internal/domain/email.go and the lookup by address of user_repository.go.
-- * Login is internal/repository/login_attempts.go: passwords under a lockout.
-- * Resets is internal/repository/password_reset_repository.go: tokens for one reset, and the
--   boundary before which sessions are void.
-- * Sessions is pkg/jwt/jwt.go, internal/usecase/tenant_session.go and
--   internal/repository/tenant_session.go: the claims of tokens, and the switch to a tenant.
-- * Configuration is internal/repository/configuration_repository.go and registration_policy.go:
--   versions of settings, reports of their application, and the registration policy.
-- * Registration is RegisterTenantTx of internal/repository/user_repository.go and RegisterTenant
--   of internal/usecase/tenant_usecase.go.
-- * Invitations, Accepting, Redeeming and Inviting are internal/repository/invitation_repository.go,
--   existing_invitation.go, RegisterInvitedUserTx of user_repository.go, and
--   internal/usecase/invitation_usecase.go.
-- * CreatorRequests and CreatorDecisions are internal/repository/creator_request_repository.go and
--   creator_decision_repository.go.
-- * Roles is internal/repository/rbac_repository.go and internal/usecase/role_usecase.go: the custom
--   roles of a tenant.
-- * Factor is internal/repository/platform_factor.go: the challenges of the second factor.
-- * MemberDirectory is internal/usecase/member_usecase.go, the lists of member_repository.go, and
--   membership_read.go and membership_active.go of internal/repository.
-- * Auth is internal/usecase/auth_usecase.go, on top of Login, Resets and Sessions. PlatformAuth is
--   platform_auth.go and platform_factor.go there, on top of Factor.
-- * FeePolicy is the fee policy of internal/domain/configuration.go. ControlPlane is
--   internal/usecase/configuration.go and configuration_catalog.go, with the histories and states of
--   configuration_repository.go. Policies is platform_fee_policy.go, public_catalog_policy.go and
--   registration_policy.go of internal/usecase, and the first two of internal/repository.
-- * Asking is creator_request_usecase.go, creator_decision_usecase.go and existing_invitation.go of
--   internal/usecase.
-- * Services is internal/delivery/grpc: the permission, membership, policy and administrator
--   services, and ValidateTenantStatus of the tenant service.
-- * Examples has one small database and a run of each of the operations above on it.
--
-- How they interact: a token names a membership (Sessions); a permission check finds that
-- membership and its role in the tables again (Permissions), so that what Members, Redeeming and
-- CreatorDecisions write decides what a token is worth. Resets moves the boundary that Sessions
-- compares a token with, and that Auth dates a token by. Registration reads the policy that
-- Configuration keeps, and Policies changes it through the versions that ControlPlane manages.
--
-- Conventions: an id is a number, and 0 is uuid.Nil; a time is a number of nanoseconds; a text
-- that the code walks is the list of its code points, any other one is a string. Where a query
-- takes the first row in the order of a primary key, the model takes the one with the least id;
-- where it asks for no order, the first. Row locks need no counterpart: an operation runs alone,
-- as the locks make it run with respect to the rows that it decides on. The loops are structural,
-- but for the digits of a number n, which have the fuel n + 1: each round divides by ten, and a
-- number has fewer digits than that. An int64 is a sign and a magnitude, and the offset of a page
-- wraps around at 2 ^ 64. The constraints of the schema that a statement can meet are in the
-- statement: unique keys, and the foreign keys of configuration versions, reports, permissions of
-- a role and deleted roles. The other foreign keys and the CHECK constraints are not modelled.
--
-- Not modelled: the HTTP layer, the registration of the gRPC services, GetTenantPublicInfo, the
-- process and its configuration, the cache, mail, maps and the migrations runner. golang-jwt,
-- AES-GCM, SHA-256, HMAC-SHA1, randomness and encodings are parameters (Sessions.Jwt,
-- Factor.Crypto, PlatformAuth.FactorLib, Auth.ResetCrypto), as are the parsers of JSON, URLs and
-- addresses (ControlPlane.Values.Parsers), mail.ParseAddress (Asking.Mailbox), uuid.Parse
-- (Services.Gateway), and ILIKE and the order of a listing (MemberDirectory.Dialect).
pub mod Base
pub mod Schema
pub mod Sql
pub mod Members
pub mod Permissions
pub mod MemberDirectory
pub mod Emails
pub mod Login
pub mod Resets
pub mod Sessions
pub mod Auth
pub mod PlatformAuth
pub mod Configuration
pub mod ControlPlane
pub mod Registration
pub mod Invitations
pub mod Accepting
pub mod Redeeming
pub mod Inviting
pub mod CreatorRequests
pub mod CreatorDecisions
pub mod Roles
pub mod Factor
pub mod FeePolicy
pub mod Policies
pub mod Services
pub mod Asking
pub mod Examples
