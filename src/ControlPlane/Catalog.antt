-- ===== src/ControlPlane/Catalog.antt =====
-- internal/usecase/configuration_catalog.go: the settings that the control plane knows. The texts
-- for people (description, default, validation) are left out.
use kelolakelas_identity_ser.Base.{
  String, Bool, ◌&&◌, ◌||◌, if◌then◌else◌, Option, List, [], ◌∷◌, ◌++◌, map, ◌==◌, string_eq, rows,
  head, exists,
}

-- domain.ConfigurationDefinition
pub record Definition : Type 0 where
  pub application : String
  pub key : String
  pub type : String
  pub is_required : Bool
  pub sensitive : Bool
  application_method : String
  bootstrap_only : Bool

abbrev contains : List String → String → Bool
contains keys key = exists (λ k. k == key) keys

-- The words of configurationKeysByApplication, as sort.Strings orders them.
abbrev academic_keys : List String
academic_keys =
    "BILLING_SERVICE_URL" ∷ "CATALOG_POLICY_CACHE_TTL_SECONDS" ∷ "CATALOG_POLICY_TIMEOUT_MS"
    ∷ "CATALOG_TENANT_INFO_TIMEOUT_MS" ∷ "CATALOG_TENANT_INFO_TTL_MINUTES" ∷ "DATABASE_URL"
    ∷ "DB_CHANNEL_BINDING" ∷ "DB_HOST" ∷ "DB_NAME" ∷ "DB_PASSWORD" ∷ "DB_PORT" ∷ "DB_SSLMODE"
    ∷ "DB_USER" ∷ "IDENTITY_GRPC_HOST" ∷ "INTERNAL_SERVICE_CREDENTIAL" ∷ "JWT_SECRET" ∷ "PORT"
    ∷ "PUBLIC_CATALOG_OPEN" ∷ []

abbrev api_gateway_keys : List String
api_gateway_keys =
    "ACADEMIC_SERVICE_URL" ∷ "APP_URL" ∷ "BILLING_SERVICE_URL" ∷ "IDENTITY_SERVICE_URL"
    ∷ "JWT_SECRET" ∷ "PORT" ∷ "PROXY_MAX_BODY_BYTES" ∷ "PROXY_UPSTREAM_TIMEOUT_SECONDS"
    ∷ "RATE_LIMIT_LOGIN_REQUESTS" ∷ "RATE_LIMIT_PROTECTED_REQUESTS" ∷ "RATE_LIMIT_PUBLIC_REQUESTS"
    ∷ "RATE_LIMIT_REGISTER_REQUESTS" ∷ "RATE_LIMIT_REQUESTS" ∷ "RATE_LIMIT_WEBHOOK_REQUESTS"
    ∷ "RATE_LIMIT_WEBHOOK_WINDOW_SECONDS" ∷ "RATE_LIMIT_WINDOW_SECONDS" ∷ "REDIS_DB" ∷ "REDIS_HOST"
    ∷ "REDIS_PASSWORD" ∷ "REDIS_PORT" ∷ "REDIS_TLS" ∷ "REDIS_USERNAME"
    ∷ "SERVER_IDLE_TIMEOUT_SECONDS" ∷ "SERVER_READ_HEADER_TIMEOUT_SECONDS"
    ∷ "SERVER_READ_TIMEOUT_SECONDS" ∷ "SERVER_WRITE_TIMEOUT_SECONDS" ∷ "TRUSTED_CLIENT_IP_HEADER"
    ∷ "TRUSTED_PROXY_CIDRS" ∷ []

abbrev billing_keys : List String
billing_keys =
    "ACADEMIC_SERVICE_URL" ∷ "DATABASE_URL" ∷ "DB_CHANNEL_BINDING" ∷ "DB_HOST" ∷ "DB_NAME"
    ∷ "DB_PASSWORD" ∷ "DB_PORT" ∷ "DB_SSLMODE" ∷ "DB_USER" ∷ "DUITKU_API_BASE_URL"
    ∷ "DUITKU_API_KEY" ∷ "DUITKU_CALLBACK_URL" ∷ "DUITKU_MERCHANT_CODE" ∷ "DUITKU_RETURN_URL"
    ∷ "IDENTITY_GRPC_HOST" ∷ "IDENTITY_PERMISSION_TIMEOUT_MS" ∷ "INTERNAL_SERVICE_CREDENTIAL"
    ∷ "JWT_SECRET" ∷ "PAYMENT_RECONCILIATION_MAX_ATTEMPTS" ∷ "PAYMENT_RECONCILIATION_WORKER_ENABLED"
    ∷ "PAYMENT_RECONCILIATION_WORKER_INTERVAL_MINUTES" ∷ "PLATFORM_FEE_POLICY" ∷ "PORT"
    ∷ "RESEND_API_KEY" ∷ "RESEND_FROM_EMAIL" ∷ "SUBSCRIPTION_PAYMENT_EXPIRY_PERIOD_DAYS"
    ∷ "SUBSCRIPTION_PAYMENT_REMINDER_INTERVAL_DAYS" ∷ "SUBSCRIPTION_WORKER_ENABLED"
    ∷ "SUBSCRIPTION_WORKER_INTERVAL_MINUTES" ∷ "TRANSACTION_CLAIM_TIMEOUT_MINUTES"
    ∷ "TRANSACTION_EXPIRY_WORKER_ENABLED" ∷ "TRANSACTION_EXPIRY_WORKER_INTERVAL_MINUTES" ∷ []

abbrev identity_keys : List String
identity_keys =
    "APP_URL" ∷ "DATABASE_URL" ∷ "DB_CHANNEL_BINDING" ∷ "DB_HOST" ∷ "DB_NAME" ∷ "DB_PASSWORD"
    ∷ "DB_PORT" ∷ "DB_SSLMODE" ∷ "DB_USER" ∷ "GOOGLE_MAPS_API_KEY" ∷ "GOOGLE_MAPS_GEOCODING_ENABLED"
    ∷ "GOOGLE_MAPS_TIMEOUT_SECONDS" ∷ "JWT_SECRET" ∷ "PERMISSION_REQUIRE_TENANT_ID" ∷ "PORT"
    ∷ "REDIS_DB" ∷ "REDIS_HOST" ∷ "REDIS_PASSWORD" ∷ "REDIS_PORT" ∷ "REDIS_TLS" ∷ "REDIS_USERNAME"
    ∷ "RESEND_API_KEY" ∷ "RESEND_FROM_EMAIL" ∷ "TENANT_REGISTRATION_OPEN" ∷ []

abbrev web_keys : List String
web_keys =
    "AUTH_COOKIE_NAME" ∷ "GATEWAY_API_URL" ∷ "NEXT_PUBLIC_APP_URL" ∷ "NODE_ENV"
    ∷ "TENANT_ID_COOKIE_NAME" ∷ []

-- configurationTypes
abbrev url_types : List String
url_types =
    "GATEWAY_API_URL" ∷ "NEXT_PUBLIC_APP_URL" ∷ "APP_URL" ∷ "IDENTITY_SERVICE_URL"
    ∷ "ACADEMIC_SERVICE_URL" ∷ "BILLING_SERVICE_URL" ∷ "DUITKU_API_BASE_URL" ∷ "DUITKU_CALLBACK_URL"
    ∷ "DUITKU_RETURN_URL" ∷ []

abbrev boolean_types : List String
boolean_types =
    "REDIS_TLS" ∷ "GOOGLE_MAPS_GEOCODING_ENABLED" ∷ "PERMISSION_REQUIRE_TENANT_ID"
    ∷ "SUBSCRIPTION_WORKER_ENABLED" ∷ "TENANT_REGISTRATION_OPEN" ∷ "PUBLIC_CATALOG_OPEN"
    ∷ "PAYMENT_RECONCILIATION_WORKER_ENABLED" ∷ "TRANSACTION_EXPIRY_WORKER_ENABLED" ∷ []

abbrev platform_fee_policy_types : List String
platform_fee_policy_types = "PLATFORM_FEE_POLICY" ∷ []

abbrev integer_types : List String
integer_types =
    "CATALOG_POLICY_CACHE_TTL_SECONDS" ∷ "CATALOG_POLICY_TIMEOUT_MS" ∷ "DB_PORT" ∷ "PORT"
    ∷ "REDIS_PORT" ∷ "REDIS_DB" ∷ "RATE_LIMIT_REQUESTS" ∷ "RATE_LIMIT_WINDOW_SECONDS"
    ∷ "RATE_LIMIT_PUBLIC_REQUESTS" ∷ "RATE_LIMIT_PROTECTED_REQUESTS" ∷ "RATE_LIMIT_LOGIN_REQUESTS"
    ∷ "RATE_LIMIT_REGISTER_REQUESTS" ∷ "RATE_LIMIT_WEBHOOK_REQUESTS"
    ∷ "RATE_LIMIT_WEBHOOK_WINDOW_SECONDS" ∷ "PROXY_UPSTREAM_TIMEOUT_SECONDS"
    ∷ "PROXY_MAX_BODY_BYTES" ∷ "SERVER_READ_HEADER_TIMEOUT_SECONDS" ∷ "SERVER_READ_TIMEOUT_SECONDS"
    ∷ "SERVER_WRITE_TIMEOUT_SECONDS" ∷ "SERVER_IDLE_TIMEOUT_SECONDS" ∷ "GOOGLE_MAPS_TIMEOUT_SECONDS"
    ∷ "CATALOG_TENANT_INFO_TTL_MINUTES" ∷ "CATALOG_TENANT_INFO_TIMEOUT_MS"
    ∷ "SUBSCRIPTION_WORKER_INTERVAL_MINUTES" ∷ "SUBSCRIPTION_PAYMENT_REMINDER_INTERVAL_DAYS"
    ∷ "SUBSCRIPTION_PAYMENT_EXPIRY_PERIOD_DAYS" ∷ "PAYMENT_RECONCILIATION_WORKER_INTERVAL_MINUTES"
    ∷ "PAYMENT_RECONCILIATION_MAX_ATTEMPTS" ∷ "TRANSACTION_EXPIRY_WORKER_INTERVAL_MINUTES"
    ∷ "TRANSACTION_CLAIM_TIMEOUT_MINUTES" ∷ "IDENTITY_PERMISSION_TIMEOUT_MS" ∷ []

abbrev pub value_type : String → String
value_type key =
    if contains url_types key
    then "url"
    else if contains boolean_types key
    then "boolean"
    else if contains platform_fee_policy_types key
    then "platform_fee_policy"
    else if contains integer_types key
    then "integer"
    else "string"

-- sensitiveConfigurationKeys
abbrev sensitive_keys : List String
sensitive_keys =
    "DATABASE_URL" ∷ "DB_PASSWORD" ∷ "REDIS_PASSWORD" ∷ "JWT_SECRET" ∷ "RESEND_API_KEY"
    ∷ "GOOGLE_MAPS_API_KEY" ∷ "INTERNAL_SERVICE_CREDENTIAL" ∷ "DUITKU_API_KEY"
    ∷ "DUITKU_MERCHANT_CODE" ∷ []

-- bootstrapConfigurationKeys
abbrev bootstrap_keys : String → List String
bootstrap_keys application =
    if application == "academic"
    then "DATABASE_URL" ∷ "DB_HOST" ∷ "DB_PORT" ∷ "DB_SSLMODE" ∷ "DB_CHANNEL_BINDING" ∷ "DB_USER"
      ∷ "DB_PASSWORD" ∷ "DB_NAME" ∷ "IDENTITY_GRPC_HOST" ∷ "BILLING_SERVICE_URL"
      ∷ "INTERNAL_SERVICE_CREDENTIAL" ∷ "PORT" ∷ "JWT_SECRET" ∷ []
    else if application == "api-gateway"
    then "JWT_SECRET" ∷ "PORT" ∷ "IDENTITY_SERVICE_URL" ∷ "ACADEMIC_SERVICE_URL"
      ∷ "BILLING_SERVICE_URL" ∷ "REDIS_HOST" ∷ "REDIS_PORT" ∷ "REDIS_USERNAME" ∷ "REDIS_PASSWORD"
      ∷ "REDIS_TLS" ∷ "REDIS_DB" ∷ "TRUSTED_PROXY_CIDRS" ∷ "TRUSTED_CLIENT_IP_HEADER" ∷ []
    else if application == "billing"
    then "DATABASE_URL" ∷ "DB_HOST" ∷ "DB_PORT" ∷ "DB_SSLMODE" ∷ "DB_CHANNEL_BINDING" ∷ "DB_USER"
      ∷ "DB_PASSWORD" ∷ "DB_NAME" ∷ "PORT" ∷ "DUITKU_API_KEY" ∷ "DUITKU_MERCHANT_CODE"
      ∷ "ACADEMIC_SERVICE_URL" ∷ "INTERNAL_SERVICE_CREDENTIAL" ∷ "JWT_SECRET" ∷ "RESEND_API_KEY"
      ∷ "IDENTITY_GRPC_HOST" ∷ []
    else if application == "identity"
    then "DATABASE_URL" ∷ "DB_HOST" ∷ "DB_PORT" ∷ "DB_SSLMODE" ∷ "DB_CHANNEL_BINDING" ∷ "DB_USER"
      ∷ "DB_PASSWORD" ∷ "DB_NAME" ∷ "REDIS_HOST" ∷ "REDIS_PORT" ∷ "REDIS_USERNAME"
      ∷ "REDIS_PASSWORD" ∷ "REDIS_TLS" ∷ "REDIS_DB" ∷ "JWT_SECRET" ∷ "PORT" ∷ "RESEND_API_KEY"
      ∷ "GOOGLE_MAPS_API_KEY" ∷ []
    else if application == "web"
    then "GATEWAY_API_URL" ∷ "NEXT_PUBLIC_APP_URL" ∷ "AUTH_COOKIE_NAME" ∷ "TENANT_ID_COOKIE_NAME"
      ∷ "NODE_ENV" ∷ []
    else []

abbrev application_method : String → String → String
application_method application key =
    if contains sensitive_keys key
    then "rotation"
    else if application == "web" && (key == "NEXT_PUBLIC_APP_URL" || key == "NODE_ENV")
    then "rebuild/redeploy"
    else "restart"

abbrev definition : String → String → Definition
definition application key = record {
  application = application;
  key = key;
  type = value_type key;
  is_required =
      key == "JWT_SECRET" || key == "INTERNAL_SERVICE_CREDENTIAL" || key == "GATEWAY_API_URL";
  sensitive = contains sensitive_keys key;
  application_method = application_method application key;
  bootstrap_only = contains (bootstrap_keys application) key;
}

unfoldable pub configuration_catalog : List Definition
configuration_catalog =
    map (definition "academic") academic_keys
    ++ map (definition "api-gateway") api_gateway_keys
    ++ map (definition "billing") billing_keys
    ++ map (definition "identity") identity_keys
    ++ map (definition "web") web_keys

unfoldable pub find_definition : String → String → Option Definition
find_definition application key =
    head (rows (λ d. d.application == application && d.key == key) configuration_catalog)
