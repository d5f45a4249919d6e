-- ===== src/App/Responses.antt =====
-- The answers of interfaces/http/error_handlers.py behind interfaces/http/middleware/correlation.py, as
-- main.py puts them together.
use edge_copilot_backend.Prelude.{String, [], ◌∷◌, some, ◌≡◌, refl}
use edge_copilot_backend.Values.{text, dict, get}
use edge_copilot_backend.Errors.{Result, ok, DomainError}
use edge_copilot_backend.Observability.Paths.{at}
use edge_copilot_backend.Http.ErrorHandlers.{handle_domain_error, mapping_for}
use edge_copilot_backend.Http.Correlation.{
  CorrelationHeaders, CorrelationIds, Response, assign, with_ids, dispatch,
}
use edge_copilot_backend.App.{error_response}

-- The response carries these ids in its headers and in its body.
pub record Carries (response : Response) (ids : CorrelationIds) : Type 0 where
  pub request_header : response.headers "X-Request-ID" ≡ some ids.request_id
  pub correlation_header : response.headers "X-Correlation-ID" ≡ some ids.correlation_id
  pub request_field :
      at ("error" ∷ "request_id" ∷ []) (dict response.content) ≡ some (text ids.request_id)
  pub correlation_field :
      at ("error" ∷ "correlation_id" ∷ []) (dict response.content) ≡ some (text ids.correlation_id)

-- Whatever stands between the middleware and the routes, and calls the handlers: where it answers a
-- request by what the handler of domain errors makes of an error, the client gets the status of the
-- mapping of that error, and the two ids of the request, the same in the headers, which the
-- middleware writes, and in the body, which the handler writes.
pub dispatch-error_response :
    (uuid : String) (headers : CorrelationHeaders) (exc : DomainError)
    (call_next : CorrelationIds → Result Response)
    → call_next (assign uuid headers) ≡ ok (error_response (assign uuid headers) exc)
    → (response : Response) × (dispatch uuid headers call_next ≡ ok response)
      × (response.status_code ≡ (mapping_for exc).status)
      × Carries response (assign uuid headers)
unfolding dispatch handle_domain_error at get
dispatch-error_response uuid headers exc call_next h = (
  with_ids (assign uuid headers) (error_response (assign uuid headers) exc),
  rw h refl,
  refl,
  record {
    request_header = refl;
    correlation_header = refl;
    request_field = refl;
    correlation_field = refl;
  },
)
