-- ===== src/Http/Correlation.antt =====
-- interfaces/http/middleware/correlation.py
use edge_copilot_backend.Values.{Fields}
use edge_copilot_backend.Prelude.{
  ℕ, String, Bool, true, false, Option, none, some, ◌≡◌, refl, sym, ap, ◌==◌, if◌then◌else◌,
}
use edge_copilot_backend.Prelude.Text.{truthy}
use edge_copilot_backend.Errors.{Result, ok, ◌>>=◌, bind-ok, ok_injective}

-- `a or b`, for a text that may be missing.
abbrev pub or_else : Option String → String → String
or_else none b = b
or_else (some a) b = if truthy a then a else b

pub record CorrelationIds : Type 0 where
  pub request_id : String
  pub correlation_id : String
  pub causation_id : Option String

-- The headers of a request that the middleware reads.
pub record CorrelationHeaders : Type 0 where
  pub x_request_id : Option String
  pub x_correlation_id : Option String
  pub x_causation_id : Option String

-- What the middleware writes to `request.state`; `uuid` is what `uuid4` draws.
unfoldable pub assign : String → CorrelationHeaders → CorrelationIds
assign uuid headers =
    let request_id = or_else headers.x_request_id uuid in
    record {
      request_id = request_id;
      correlation_id = or_else headers.x_correlation_id request_id;
      causation_id = headers.x_causation_id;
    }

-- `headers[name] = value`, on the headers of a response as a function.
abbrev pub set_header : String → String → (String → Option String) → String → Option String
set_header name value headers asked = if name == asked then some value else headers asked

-- A response: its status, its headers and the JSON object that it carries.
pub record Response : Type 0 where
  pub status_code : ℕ
  pub headers : String → Option String
  pub content : Fields

-- The two headers that the middleware writes.
abbrev pub with_ids : CorrelationIds → Response → Response
with_ids ids response = record response {
  headers =
      set_header "X-Correlation-ID" ids.correlation_id
        (set_header "X-Request-ID" ids.request_id response.headers);
}

-- `dispatch(request, call_next)`: `call_next` answers, given what it finds in `request.state`.
unfoldable pub dispatch :
    String → CorrelationHeaders → (CorrelationIds → Result Response) → Result Response
unfolding assign
dispatch uuid headers call_next =
    let ids = assign uuid headers in call_next ids >>= λ response. ok (with_ids ids response)

or_else-truthy : (a : Option String) (b : String) → truthy b ≡ true → truthy (or_else a b) ≡ true
or_else-truthy none b h = h
or_else-truthy (some a) b h = by_test (truthy a) refl
  where
    by_test : (t : Bool) → truthy a ≡ t → truthy (if t then a else b) ≡ true
    by_test true e = e
    by_test false e = h

-- With a generator that draws no empty text: where the handler answers, the middleware answers with
-- the same status and content. The handler gets two ids that are not empty, and the response
-- carries the same two, whatever headers the handler wrote. The correlation id is that of the
-- request, or else the request id, which is that of the request or else drawn.
pub dispatch-ids :
    (uuid : String) (headers : CorrelationHeaders) (call_next : CorrelationIds → Result Response)
    (response : Response)
    → truthy uuid ≡ true
    → dispatch uuid headers call_next ≡ ok response
    → (ids : CorrelationIds) × (inner : Response) × (call_next ids ≡ ok inner)
      × (response.status_code ≡ inner.status_code)
      × (response.content ≡ inner.content)
      × (response.headers "X-Request-ID" ≡ some ids.request_id)
      × (response.headers "X-Correlation-ID" ≡ some ids.correlation_id)
      × (truthy ids.request_id ≡ true)
      × (truthy ids.correlation_id ≡ true)
      × (ids.request_id ≡ or_else headers.x_request_id uuid)
      × (ids.correlation_id ≡ or_else headers.x_correlation_id ids.request_id)
unfolding dispatch
dispatch-ids uuid headers call_next response drawn h =
    let (inner, answered, called) = bind-ok _ (call_next (assign uuid headers)) h in
    let same' = ok_injective answered in
    let filled = or_else-truthy headers.x_request_id uuid drawn in
    (
      assign uuid headers,
      inner,
      called,
      ap (λ r. r.status_code) (sym same'),
      ap (λ r. r.content) (sym same'),
      ap (λ r. r.headers "X-Request-ID") (sym same'),
      ap (λ r. r.headers "X-Correlation-ID") (sym same'),
      filled,
      or_else-truthy headers.x_correlation_id _ filled,
      refl,
      refl,
    )
