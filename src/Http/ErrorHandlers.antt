-- ===== src/Http/ErrorHandlers.antt =====
-- interfaces/http/error_handlers.py
use edge_copilot_backend.Prelude.{
  ℕ, zero, suc, String, Bool, true, false, Option, none, some, List, [], ◌∷◌, ◌≡◌, ◌⊎◌, ◌↔◌, inl,
  inr, refl, arith, any, if◌then◌else◌,
}
use edge_copilot_backend.Values.{Value, null, bool, text, dict, Fields, end, field}
use edge_copilot_backend.Errors.{
  ErrorKind, code, base, same_kind, DomainError, domain_error, validation_error,
  authorization_error, tenant_isolation_error, organization_isolation_error,
  stale_security_context_error, idempotency_conflict_error, unknown_execution_state_error,
  ambiguous_tenant_context_error, no_valid_membership_error, unknown_channel_identity_error,
}

-- A class and its base classes, at most as many as the fuel says.
unfoldable pub bases : ℕ → ErrorKind → List ErrorKind
bases zero k = []
bases (suc fuel) k =
    let above : ErrorKind → List ErrorKind = bases fuel in
    k ∷ elim (base k) [ none ↦ [] | some b ↦ above b ]

-- `isinstance(error, error_type)`, for an error of the class `k`. No class is more than two below
-- `DomainError`.
unfoldable pub is_instance : ErrorKind → ErrorKind → Bool
unfolding bases
is_instance k error_type = any (λ b. same_kind b error_type) (bases 3 k)

pub record ErrorMapping : Type 0 where
  pub status : ℕ
  pub category : String
  pub retryable : Bool

abbrev mapped : ℕ → String → Bool → ErrorMapping
mapped status category retryable = record {
  status = status;
  category = category;
  retryable = retryable;
}

-- `_MAPPING_BY_ERROR`
abbrev pub mapping_by_error : List (ErrorKind × ErrorMapping)
mapping_by_error =
    (validation_error, mapped 400 "validation" false)
    ∷ (tenant_isolation_error, mapped 403 "authorization" false)
    ∷ (organization_isolation_error, mapped 403 "authorization" false)
    ∷ (no_valid_membership_error, mapped 403 "authorization" false)
    ∷ (authorization_error, mapped 403 "authorization" false)
    ∷ (stale_security_context_error, mapped 401 "authentication" true)
    ∷ (ambiguous_tenant_context_error, mapped 409 "conflict" true)
    ∷ (idempotency_conflict_error, mapped 409 "conflict" false)
    ∷ (unknown_execution_state_error, mapped 409 "conflict" true)
    ∷ []

-- `_DEFAULT_MAPPING`
abbrev pub default_mapping : ErrorMapping
default_mapping = mapped 500 "internal" false

-- The loop of `_mapping_for`; `none` where it falls through to the default.
unfoldable pub listed_mapping : ErrorKind → List (ErrorKind × ErrorMapping) → Option ErrorMapping
listed_mapping k [] = none
listed_mapping k ((error_type, mapping) ∷ table) =
    let rest = listed_mapping k table in if is_instance k error_type then some mapping else rest

abbrev or_default : Option ErrorMapping → ErrorMapping
or_default none = default_mapping
or_default (some mapping) = mapping

-- `_mapping_for(error)`
abbrev pub mapping_for : DomainError → ErrorMapping
mapping_for error = or_default (listed_mapping error.kind mapping_by_error)

-- `mapping is _DEFAULT_MAPPING`: the loop found none.
abbrev pub is_none : Option ErrorMapping → Bool
is_none none = true
is_none (some mapping) = false

abbrev pub is_internal : DomainError → Bool
is_internal error = is_none (listed_mapping error.kind mapping_by_error)

-- `details or None`
abbrev details_or_none : Fields → Value
details_or_none end = null
details_or_none (field k v rest) = dict (field k v rest)

pub record JsonResponse : Type 0 where
  pub status_code : ℕ
  pub content : Fields

-- `handle_domain_error(request, exc)`; the two ids are those of `request.state`, or `null`.
unfoldable pub handle_domain_error : Value → Value → DomainError → JsonResponse
unfolding code listed_mapping is_instance
handle_domain_error request_id correlation_id exc =
    let mapping = mapping_for exc in
    let internal = is_internal exc in
    record {
      status_code = mapping.status;
      content =
          field "error"
            (dict (
              field "code" (text (if internal then "INTERNAL_ERROR" else code exc.kind)) (
                field "message"
                  (text (if internal then "An internal error occurred." else exc.message))
                  (field "category" (text mapping.category) (
                    field "request_id" request_id (
                      field "correlation_id" correlation_id (
                        field "retryable" (bool mapping.retryable) (
                          field "details" (if internal then null else details_or_none exc.details)
                            end))))))))
            end;
    }

-- More fuel finds no more bases.
pub bases_enough : (n : ℕ) (k : ErrorKind) → bases (suc (suc (suc n))) k ≡ bases 3 k
unfolding bases base
bases_enough n domain_error = refl
bases_enough n validation_error = refl
bases_enough n authorization_error = refl
bases_enough n tenant_isolation_error = refl
bases_enough n organization_isolation_error = refl
bases_enough n stale_security_context_error = refl
bases_enough n idempotency_conflict_error = refl
bases_enough n unknown_execution_state_error = refl
bases_enough n ambiguous_tenant_context_error = refl
bases_enough n no_valid_membership_error = refl
bases_enough n unknown_channel_identity_error = refl

-- The classes without a mapping.
abbrev pub Unmapped : ErrorKind → Type 0
Unmapped k = (k ≡ domain_error) ⊎ (k ≡ unknown_channel_identity_error)

abbrev pub status_of : ErrorKind → ℕ
status_of k = (or_default (listed_mapping k mapping_by_error)).status

-- An error is answered with 403 exactly when it is an AuthorizationError or of a class below it:
-- no denial gets another status, and nothing else gets this one.
denied_iff :
    (request_id correlation_id : Value) (exc : DomainError)
    → ((handle_domain_error request_id correlation_id exc).status_code ≡ 403)
      ↔ (is_instance exc.kind authorization_error ≡ true)
unfolding handle_domain_error is_instance bases base code listed_mapping
denied_iff request_id correlation_id exc = by_kind exc.kind
  where
    by_kind : (k : ErrorKind) → (status_of k ≡ 403) ↔ (is_instance k authorization_error ≡ true)
    by_kind domain_error = ground arith
    by_kind k = ground arith

status_iff : (k : ErrorKind) → (status_of k ≡ 500) ↔ Unmapped k
unfolding is_instance bases base code listed_mapping
status_iff domain_error = ((λ _. inl refl), (λ _. refl))
status_iff unknown_channel_identity_error = ((λ _. inr refl), (λ _. refl))
status_iff k = ((λ h. absurd (omega (arith, h))), elim [ inl h ↦ cc | inr h ↦ cc ])

unlisted : (k : ErrorKind) → Unmapped k → listed_mapping k mapping_by_error ≡ none
unfolding is_instance bases base code listed_mapping
unlisted k (inl h) = rw h refl
unlisted k (inr h) = rw h refl

-- Whatever is answered with 500 is answered alike: for given ids, the response to one such error is
-- the response to any other, so that nothing of its class, message or details gets out.
pub internal_hides :
    (request_id correlation_id : Value) (exc other : DomainError)
    → (handle_domain_error request_id correlation_id exc).status_code ≡ 500
    → (handle_domain_error request_id correlation_id other).status_code ≡ 500
    → handle_domain_error request_id correlation_id exc
      ≡ handle_domain_error request_id correlation_id other
unfolding handle_domain_error
internal_hides request_id correlation_id exc other h h' =
    rw
      (
        unlisted exc.kind ((status_iff exc.kind).0 h),
        unlisted other.kind ((status_iff other.kind).0 h'),
      )
      refl
