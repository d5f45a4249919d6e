-- ===== src/Tests/Http.antt =====
-- interfaces/http: the errors, the dependency and the middleware.
use edge_copilot_backend.Prelude.{String, Option, none, some, ◌≡◌, ◌⊎◌, refl}
use edge_copilot_backend.Values.{text, end}
use edge_copilot_backend.Errors.{
  ok, raise, DomainError, domain_error_init, domain_error, tenant_isolation_error,
  unknown_channel_identity_error, code, base,
}
use edge_copilot_backend.Resolve
use edge_copilot_backend.Http.ErrorHandlers.{
  handle_domain_error, is_instance, bases, listed_mapping, internal_hides,
}
use edge_copilot_backend.Http.Dependency.{
  Headers, RequestWorld, dependency, Carries, malformed, IsAskedFor, IsAnswer, dependency_cases,
  extract_bearer_token, extract_bearer_token_cases,
}
use edge_copilot_backend.Http.Correlation.{CorrelationHeaders, Response, set_header}
use edge_copilot_backend.Tests.Policy.{at}
use edge_copilot_backend.Tests.Resolve.{issuing, trusting, start}

abbrev unknown_error : DomainError
unknown_error = domain_error_init unknown_channel_identity_error "unknown" none

abbrev isolation_error : DomainError
isolation_error = domain_error_init tenant_isolation_error "tenant" none

internal_hides_example :
    handle_domain_error (text "r") (text "c") unknown_error
    ≡ handle_domain_error (text "r") (text "c") (domain_error_init domain_error "secret" none)
unfolding handle_domain_error listed_mapping is_instance bases base code
internal_hides_example =
    internal_hides (text "r") (text "c") unknown_error
      (domain_error_init domain_error "secret" none) refl refl

abbrev with_header : Option String → Headers
with_header authorization = record {
  authorization = authorization;
  x_tenant_id = some "t";
  x_organization_id = none;
  x_device_id = none;
  channel = none;
}

abbrev request_world : RequestWorld (issuing trusting)
request_world = record { world = start; security_context = none }

dependency_cases_example :
    (dependency (issuing trusting) "employee" (with_header (some "Bearer t")) (at 10) request_world
      ≡ (raise malformed, request_world))
    ⊎ ((token : String) × (request : Resolve.ResolveSecurityContextRequest) × Carries
          (some "Bearer t")
          token
        × IsAskedFor "employee" (with_header (some "Bearer t")) token request
        × IsAnswer
            (issuing trusting)
            "employee"
            (with_header (some "Bearer t"))
            (at 10)
            request_world
            request)
dependency_cases_example =
    dependency_cases (issuing trusting) "employee" (with_header (some "Bearer t")) (at 10)
      request_world

extract_bearer_token_cases_example :
    ((token : String) × (extract_bearer_token (some "Bearer  t ") ≡ ok token)
      × Carries (some "Bearer  t ") token)
    ⊎ (extract_bearer_token (some "Bearer  t ") ≡ raise malformed)
extract_bearer_token_cases_example = extract_bearer_token_cases (some "Bearer  t ")

abbrev no_headers : CorrelationHeaders
no_headers = record { x_request_id = none; x_correlation_id = some "c"; x_causation_id = none }

abbrev greeting : Response
greeting = record { status_code = 200; headers = λ name. some "inner"; content = end }

abbrev greeting_with_ids : Response
greeting_with_ids = record greeting {
  headers = set_header "X-Correlation-ID" "c" (set_header "X-Request-ID" "uuid" greeting.headers);
}
