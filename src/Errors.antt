-- ===== src/Errors.antt =====
-- domain/errors/__init__.py: the domain's exceptions, the other exceptions that the modelled code
-- raises, and the results of code that may raise.
use edge_copilot_backend.Prelude.{◌⊎◌, inl, inr, ◌≡◌, refl, String, Bool, Option, none, some, ◌==◌}
use edge_copilot_backend.Values.{Fields, end}

-- The classes of the hierarchy.
pub data ErrorKind : Type 0 where
  domain_error validation_error authorization_error tenant_isolation_error
        organization_isolation_error stale_security_context_error idempotency_conflict_error
        unknown_execution_state_error ambiguous_tenant_context_error no_valid_membership_error
        unknown_channel_identity_error :
      ErrorKind

-- The class attribute `code`.
unfoldable pub code : ErrorKind → String
code domain_error = "DOMAIN_ERROR"
code validation_error = "VALIDATION_ERROR"
code authorization_error = "AUTHORIZATION_DENIED"
code tenant_isolation_error = "TENANT_ISOLATION_VIOLATION"
code organization_isolation_error = "ORGANIZATION_ISOLATION_VIOLATION"
code stale_security_context_error = "STALE_SECURITY_CONTEXT"
code idempotency_conflict_error = "IDEMPOTENCY_CONFLICT"
code unknown_execution_state_error = "UNKNOWN_EXECUTION_STATE"
code ambiguous_tenant_context_error = "AMBIGUOUS_TENANT_CONTEXT"
code no_valid_membership_error = "NO_VALID_MEMBERSHIP"
code unknown_channel_identity_error = "UNKNOWN_CHANNEL_IDENTITY"

-- The base class; `none` for `DomainError`, which is at the top.
unfoldable pub base : ErrorKind → Option ErrorKind
base domain_error = none
base validation_error = some domain_error
base authorization_error = some domain_error
base tenant_isolation_error = some authorization_error
base organization_isolation_error = some authorization_error
base stale_security_context_error = some domain_error
base idempotency_conflict_error = some domain_error
base unknown_execution_state_error = some domain_error
base ambiguous_tenant_context_error = some domain_error
base no_valid_membership_error = some authorization_error
base unknown_channel_identity_error = some domain_error

-- Two classes are one: each class has a code of its own.
abbrev pub same_kind : ErrorKind → ErrorKind → Bool
unfolding code
same_kind a b = code a == code b

-- A `DomainError` value: its class, `message` and `details`.
pub record DomainError : Type 0 where
  pub kind : ErrorKind
  pub message : String
  pub details : Fields

-- `DomainError.__init__`: `details or {}`
abbrev pub domain_error_init : ErrorKind → String → Option Fields → DomainError
domain_error_init k m none = record { kind = k; message = m; details = end }
domain_error_init k m (some d) = record { kind = k; message = m; details = d }

-- What the modelled code may raise: an error of the domain, or one of Python's or a library's.
pub data Exception : Type 0 where
  domain : DomainError → Exception
  type_error : Exception
  overflow_error : Exception
  value_error : Exception
  key_error : String → Exception
  library_error : String → Exception

-- What a call ends in: the value that it returns, or the exception that it raises.
pub data Result {ℓ} (T : Type ℓ) : Type ℓ where
  raise : Exception → Result T
  ok : T → Result T

-- A statement, and the rest of the block, which a raise skips.
module _ {ℓ κ} {T : Type ℓ} {U : Type κ} where
  infixl 6 ◌>>=◌ ◌>>◌
  abbrev pub ◌>>=◌ : Result T → (T → Result U) → Result U
  raise problem >>= rest = raise problem
  ok value >>= rest = rest value

  abbrev pub ◌>>◌ : Result T → Result U → Result U
  first >> second = first >>= (λ ignored. second)

  -- A block that returned: its first statement returned a value with which the rest did.
  pub bind-ok :
      (rest : T → Result U) (first : Result T) {u : U}
      → (first >>= rest) ≡ ok u
      → (value : T) × (rest value ≡ ok u) × (first ≡ ok value)
  bind-ok rest (raise problem) h = cc
  bind-ok rest (ok value) h = (value, h, refl)

pub ok_injective {ℓ} : {A : Type ℓ} {a b : A} → ok a ≡ ok b → a ≡ b
ok_injective h = cc

pub Result-cases {ℓ} :
    {A : Type ℓ} (r : Result A) → ((a : A) × (r ≡ ok a)) ⊎ ((e : Exception) × (r ≡ raise e))
Result-cases (ok a) = inl (a, refl)
Result-cases (raise e) = inr (e, refl)

pub raise-ne-ok {ℓ} : {A : Type ℓ} {e : Exception} {a : A} → raise e ≡ ok a → ⊥
raise-ne-ok h = cc
