-- ===== src/Http/Dependency.antt =====
-- interfaces/http/dependencies/security_context.py: the dependency that issues a security context
-- from the headers of a request.
use edge_copilot_backend.Prelude.{
  String, true, not, Option, none, some, ◌≡◌, ◌⊎◌, inl, inr, refl, ◌∙◌, ap, ◌<>◌, if◌then◌else◌,
  Bool-cases, Option-cases,
}
use edge_copilot_backend.Prelude.Text.{drop_prefix, strip, truthy, drop_prefix-eq-some}
use edge_copilot_backend.Values.{DateTime}
use edge_copilot_backend.Errors.{
  Exception, Result, ok, raise, domain, domain_error_init, authorization_error, Result-cases,
}
use edge_copilot_backend.Exec.{Exec, from, return, ◌>>=◌, ◌>>◌, resume_ok, resume_raise}
use edge_copilot_backend.Security.{SecurityContext}
use edge_copilot_backend.Resolve
use edge_copilot_backend.Resolve.{ResolveSecurityContextRequest, ResolveSecurityContext, World}

-- `_BEARER_PREFIX`
abbrev pub bearer_prefix : String
bearer_prefix = "Bearer "

abbrev pub malformed : Exception
malformed =
    domain (domain_error_init authorization_error "Missing or malformed Authorization header." none)

-- The text after the prefix, stripped, if anything is left.
abbrev pub token_of : Option String → Result String
token_of none = raise malformed
token_of (some rest) =
    let token = strip rest in if not (truthy token) then raise malformed else ok token

-- `_extract_bearer_token(authorization)`
unfoldable pub extract_bearer_token : Option String → Result String
extract_bearer_token none = raise malformed
extract_bearer_token (some authorization) = token_of (drop_prefix bearer_prefix authorization)

-- The headers and the attributes of `request.state` that the dependency reads; `none` where there
-- is none.
pub record Headers : Type 0 where
  pub authorization : Option String
  pub x_tenant_id : Option String
  pub x_organization_id : Option String
  pub x_device_id : Option String
  pub channel : Option String

abbrev or_web : Option String → String
or_web none = "web"
or_web (some channel) = channel

abbrev pub request_of : String → Headers → String → ResolveSecurityContextRequest
request_of profile_type headers token = record {
  bearer_token = token;
  channel = or_web headers.channel;
  profile_type = profile_type;
  requested_tenant_id = headers.x_tenant_id;
  requested_organization_id = headers.x_organization_id;
  device_id = headers.x_device_id;
}

module _ (use_case : ResolveSecurityContext) where
  -- The ports of the use case, and `request.state.security_context`.
  pub record RequestWorld : Type 0 where
    pub world : World use_case
    pub security_context : Option SecurityContext

  abbrev resolve : ResolveSecurityContextRequest → DateTime → Exec RequestWorld SecurityContext
  resolve request now s =
      let (r, w) = Resolve.execute use_case request now s.world in (r, record s { world = w })

  abbrev set_context : SecurityContext → Exec RequestWorld (Unit {0})
  set_context context s = (ok tt, record s { security_context = some context })

  -- The callable that `build_security_context_dependency` returns.
  unfoldable pub dependency : String → Headers → DateTime → Exec RequestWorld SecurityContext
  dependency profile_type headers now = do
    token ← from (extract_bearer_token headers.authorization)
    context ← resolve (request_of profile_type headers token) now
    set_context context
    return context

-- The header carries this token.
pub record Carries (header : Option String) (token : String) : Type 0 where
  pub rest : String
  pub shape : header ≡ some (bearer_prefix <> rest)
  pub stripped : token ≡ strip rest
  pub filled : truthy token ≡ true

token_of_cases :
    (rest : String)
    → (token_of (some rest) ≡ raise malformed)
      ⊎ ((token_of (some rest) ≡ ok (strip rest)) × (truthy (strip rest) ≡ true))
token_of_cases rest = elim (Bool-cases (truthy (strip rest))) [
  | inl yes' ↦ inr (rw yes' refl, yes')
  | inr no' ↦ inl (rw no' refl)
]

-- A header either carries a token, which is then found, or is refused with AuthorizationError.
pub extract_bearer_token_cases :
    (header : Option String)
    → ((token : String) × (extract_bearer_token header ≡ ok token) × Carries header token)
      ⊎ (extract_bearer_token header ≡ raise malformed)
unfolding extract_bearer_token
extract_bearer_token_cases none = inr refl
extract_bearer_token_cases (some h) = elim (Option-cases (drop_prefix bearer_prefix h)) [
  | inl absent ↦ inr (rw absent refl)
  | inr (rest, found) ↦ elim (token_of_cases rest) [
    | inl refused ↦ inr (rw found refused)
    | inr (got, filled) ↦ inl (
      strip rest,
      rw found got,
      record {
        rest = rest;
        shape = ap some (drop_prefix-eq-some bearer_prefix h rest found);
        stripped = refl;
        filled = filled;
      },
    )
  ]
]

-- The request for a context that the headers ask for: each hint from the header of its name, and the
-- channel of the request, or else "web".
pub record IsAskedFor (profile_type : String) (headers : Headers) (token : String)
    (request : ResolveSecurityContextRequest) : Type 0 where
  pub token_passed : request.bearer_token ≡ token
  pub profile_passed : request.profile_type ≡ profile_type
  pub tenant_hint : request.requested_tenant_id ≡ headers.x_tenant_id
  pub organization_hint : request.requested_organization_id ≡ headers.x_organization_id
  pub device : request.device_id ≡ headers.x_device_id
  pub channel :
      (headers.channel ≡ some request.channel)
      ⊎ ((headers.channel ≡ none) × (request.channel ≡ "web"))

request_of-IsAskedFor :
    (profile_type : String) (headers : Headers) (token : String)
    → IsAskedFor profile_type headers token (request_of profile_type headers token)
request_of-IsAskedFor profile_type headers token = record {
  token_passed = refl;
  profile_passed = refl;
  tenant_hint = refl;
  organization_hint = refl;
  device = refl;
  channel = elim (Option-cases headers.channel) [
    | inl absent ↦ inr (absent, rw absent refl)
    | inr (channel, present) ↦ inl (rw present refl)
  ];
}

module _ (use_case : ResolveSecurityContext) (profile_type : String) (headers : Headers)
    (now : DateTime) (s : RequestWorld use_case) where
  -- How the dependency ends, after an issuance that was asked for.
  pub data IsAnswer (request : ResolveSecurityContextRequest) : Type 0 where
    raised :
        (e : Exception)
        → (Resolve.execute use_case request now s.world).0 ≡ raise e
        → (dependency use_case profile_type headers now s).0 ≡ raise e
        → (dependency use_case profile_type headers now s).1.security_context ≡ s.security_context
        → IsAnswer request
    issued :
        (c : SecurityContext)
        → (Resolve.execute use_case request now s.world).0 ≡ ok c
        → (dependency use_case profile_type headers now s).0 ≡ ok c
        → (dependency use_case profile_type headers now s).1.security_context ≡ some c
        → IsAnswer request

  -- The dependency either refuses the header, and touches nothing; or runs the issuance with the
  -- token of the header, the tenant, the organization and the device of the headers of these names,
  -- and the channel of the request or else "web", and gives its result. The request then holds
  -- the context that was issued; after a raise it holds what it held before.
  pub dependency_cases :
      (dependency use_case profile_type headers now s ≡ (raise malformed, s))
      ⊎ ((token : String) × (request : ResolveSecurityContextRequest) × Carries
            headers.authorization token
          × IsAskedFor profile_type headers token request
          × IsAnswer request)
  unfolding dependency
  dependency_cases = elim (extract_bearer_token_cases headers.authorization) [
    | inr refused ↦ inl (rw refused refl)
    | inl (token, found, carries) ↦
        let request = request_of profile_type headers token in
        let go : SecurityContext → Exec (RequestWorld use_case) SecurityContext =
          λ c. set_context use_case c >> return c in
        let run : dependency use_case profile_type headers now s
            ≡ (resolve use_case request now >>= go) s =
          rw found refl in
        inr (
          token,
          request,
          carries,
          request_of-IsAskedFor profile_type headers token,
          elim (Result-cases (Resolve.execute use_case request now s.world).0) [
            | inl (c, given) ↦
                let last = run ∙ resume_ok go (resolve use_case request now s) given in
                issued c given (ap (λ p. p.0) last) (ap (λ p. p.1.security_context) last)
            | inr (e, thrown) ↦
                let last = run ∙ resume_raise go (resolve use_case request now s) thrown in
                raised e thrown (ap (λ p. p.0) last) (ap (λ p. p.1.security_context) last)
          ],
        )
  ]
