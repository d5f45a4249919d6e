-- ===== src/App.antt =====
-- main.py and interfaces/http/routers/health.py: the application, as `create_app` puts it together.
pub mod Responses
use edge_copilot_backend.Prelude.{ℕ, String, Option, none, some, List, [], ◌∷◌, ◌==◌, if◌then◌else◌}
use edge_copilot_backend.Values.{Fields, end, field, Value, text, dict}
use edge_copilot_backend.Errors.{
  Exception, DomainError, Result, ok, raise, domain, type_error, overflow_error, value_error,
  key_error, library_error,
}
use edge_copilot_backend.Settings.{Settings, Pydantic, Process, get_settings}
use edge_copilot_backend.Exec.{Exec, return, ◌>>=◌}
use edge_copilot_backend.Observability.{LoggingSetup, configure_logging}
use edge_copilot_backend.Http.ErrorHandlers.{JsonResponse, handle_domain_error}
use edge_copilot_backend.Http.Correlation.{CorrelationHeaders, CorrelationIds, Response, dispatch}

-- `liveness()` and `readiness()`
unfoldable pub liveness : Fields
liveness = field "status" (text "ok") end

unfoldable pub readiness : Fields
readiness = field "status" (text "not_wired") (
    field "dependencies"
      (dict (
        field "surrealdb" (text "not_wired") (
          field "redis" (text "not_wired")
            (field "broker" (text "not_wired") (field "keycloak" (text "not_wired") end)))))
      end)

abbrev no_headers : String → Option String
no_headers name = none

abbrev json : ℕ → Fields → Response
json status content = record { status_code = status; headers = no_headers; content = content }

-- A route, with what it finds in `request.state`.
abbrev pub Route : Type 0
Route = CorrelationIds → Result Response

-- The routes of `health_router`, by their paths.
unfoldable pub health_router : List (String × Route)
unfolding liveness readiness
health_router =
    ("/health/live", (λ ids. ok (json 200 liveness)))
    ∷ ("/health/ready", (λ ids. ok (json 200 readiness)))
    ∷ []

-- `handle_domain_error(request, exc)`, with what it finds in `request.state`.
abbrev pub error_response : CorrelationIds → DomainError → Response
error_response ids exc =
    let answer = handle_domain_error (text ids.request_id) (text ids.correlation_id) exc in
    json answer.status_code answer.content

pub record App : Type 0 where
  pub title : String
  pub version : String
  pub logging : LoggingSetup
  pub routes : List (String × Route)

-- What `create_app` builds from the settings.
abbrev pub app_of : Settings → App
app_of settings = record {
  title = "Okapi Copilot";
  version = settings.contract_version;
  logging = configure_logging settings.log_level;
  routes = health_router;
}

-- `create_app()`
unfoldable pub create_app : (pydantic : Pydantic) → Exec (Process pydantic) App
create_app pydantic = get_settings pydantic >>= λ settings. return (app_of settings)
