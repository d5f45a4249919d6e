-- ===== src/Tests/Service.antt =====
-- The application and its adapters together.
use edge_copilot_backend.Prelude.{none, some, [], ◌∷◌, ◌≡◌, refl}
use edge_copilot_backend.Values.{get, text}
use edge_copilot_backend.Errors.{ok, DomainError, domain_error_init, tenant_isolation_error}
use edge_copilot_backend.Identity.{is_currently_valid}
use edge_copilot_backend.Time.{add, is_before, is_since}
use edge_copilot_backend.Policy.{current_policy_version}
use edge_copilot_backend.Resolve
use edge_copilot_backend.Resolve.{select, issued, valid_memberships, narrow}
use edge_copilot_backend.Security.{SecurityContext}
use edge_copilot_backend.Surreal.Client.{establish, connect}
use edge_copilot_backend.Surreal.Rows.{
  roles_of, column, membership_status_of, parse_datetime, row_to_membership,
}
use edge_copilot_backend.Surreal.Repository.{all_rows, memberships_of, list_by_user}
use edge_copilot_backend.Keycloak.{
  verify_token, resolve_key, get_jwks, fetch_jwks, find_key, claim, identity_from,
  authentication_strength_of,
}
use edge_copilot_backend.Http.ErrorHandlers.{mapping_for}
use edge_copilot_backend.Http.Correlation.{CorrelationHeaders, Response, assign, dispatch}
use edge_copilot_backend.Http.Dependency.{Headers, RequestWorld, dependency, extract_bearer_token}
use edge_copilot_backend.Prelude.Text.{drop_prefix, strip, lstrip, rstrip, is_space}
use edge_copilot_backend.App.{error_response}
use edge_copilot_backend.App.Responses.{Carries, dispatch-error_response}
use edge_copilot_backend.Service.{Adapters, issuing}
use edge_copilot_backend.Service.Entitlement.{IsEntitled, dependency-IsEntitled}
use edge_copilot_backend.Tests.Policy.{at, engine}
use edge_copilot_backend.Tests.Resolve.{ids}
use edge_copilot_backend.Tests.Keycloak.{with_client, answering, verified_user}
use edge_copilot_backend.Tests.Surreal.{
  builtins, client, disconnected, without_start, toy_library-SelectsByUser,
}

abbrev adapters : Adapters
adapters = record {
  provider = with_client answering;
  client = client;
  builtins = builtins;
  engine = engine;
  id_generator = ids;
  context_ttl = 100;
}

abbrev headers : Headers
headers = record {
  authorization = some "Bearer token";
  x_tenant_id = some "t";
  x_organization_id = none;
  x_device_id = none;
  channel = none;
}

abbrev start : RequestWorld (issuing adapters 5 (at 10))
start = record {
  world = record {
    identities = record { http = 0; cache = none };
    memberships = disconnected;
    policies = tt;
    ids = 7;
  };
  security_context = none;
}

abbrev web_request : Resolve.ResolveSecurityContextRequest
web_request = record {
  bearer_token = "token";
  channel = "web";
  profile_type = "employee";
  requested_tenant_id = some "t";
  requested_organization_id = none;
  device_id = none;
}

abbrev context : SecurityContext
context =
    issued (issuing adapters 5 (at 10)) web_request (at 10) verified_user
      (record without_start { role_references = text "agent" ∷ []; valid_from = at 5 }) "1" "id"
      (at 110)

dependency-IsEntitled_example : IsEntitled adapters 5 (at 10) headers start context
unfolding add dependency extract_bearer_token drop_prefix strip lstrip rstrip is_space
    Resolve.execute select valid_memberships narrow is_currently_valid is_before is_since
    list_by_user connect establish memberships_of all_rows row_to_membership roles_of column get
    parse_datetime membership_status_of verify_token resolve_key get_jwks fetch_jwks find_key claim
    identity_from authentication_strength_of current_policy_version
dependency-IsEntitled_example =
    dependency-IsEntitled adapters 5 (at 10) "employee" headers start context
      toy_library-SelectsByUser refl

abbrev denied_tenant : DomainError
denied_tenant = domain_error_init tenant_isolation_error "tenant" none

abbrev bare : CorrelationHeaders
bare = record { x_request_id = none; x_correlation_id = some "c"; x_causation_id = none }

dispatch-error_response_example :
    (response : Response) × (dispatch "uuid" bare (λ ids. ok (error_response ids denied_tenant))
      ≡ ok response)
    × (response.status_code ≡ (mapping_for denied_tenant).status)
    × Carries response (assign "uuid" bare)
dispatch-error_response_example =
    dispatch-error_response "uuid" bare denied_tenant (λ ids. ok (error_response ids denied_tenant))
      refl
