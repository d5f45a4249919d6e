-- ===== src/Tests/Resolve.antt =====
-- The issuance of security contexts: application/use_cases/resolve_security_context.py.
use mathlib.Core.Path.{subst}
use mathlib.Core.List.Permᴰ
use edge_copilot_backend.Prelude.{All, ℕ, suc, none, some, [], ◌∷◌, ◌≡◌, ◌⊎◌, refl}
use edge_copilot_backend.Prelude.Counting.{HasOnly, HasNone, HasTwo}
use edge_copilot_backend.Values.{text, end}
use edge_copilot_backend.Errors.{
  ok, ok_injective, raise, library_error, no_valid_membership_error, ambiguous_tenant_context_error,
}
use edge_copilot_backend.Time.{is_since, is_before, add}
use edge_copilot_backend.Identity.{MembershipReference, is_currently_valid}
use edge_copilot_backend.Identity.Validity.{HasAwareTimes}
use edge_copilot_backend.Security.{AuthenticationStrength, SecurityContext}
use edge_copilot_backend.Policy.{authorize}
use edge_copilot_backend.Ports.{
  IdentityProvider, MembershipRepository, PolicyEngine, IdGenerator, AuthenticatedIdentity,
}
use edge_copilot_backend.Resolve.{
  ResolveSecurityContextRequest, ResolveSecurityContext, World, execute, issued, select,
  valid_memberships, narrow,
}
use edge_copilot_backend.Resolve.Fits.{Fits}
use edge_copilot_backend.Resolve.Selection.{RaisesKind, select_cases}
use edge_copilot_backend.Resolve.Order.{Agree, select-Agree}
use edge_copilot_backend.Resolve.Issue.{IsIssued, ReturnsAware, execute-IsIssued}
use edge_copilot_backend.Tests.Policy.{at, membership, engine}

abbrev pub asking : ResolveSecurityContextRequest
asking = record {
  bearer_token = "token";
  channel = "web";
  profile_type = "employee";
  requested_tenant_id = some "t";
  requested_organization_id = none;
  device_id = none;
}

abbrev pub somebody : AuthenticatedIdentity
somebody = record {
  user_id = text "u";
  authentication_strength = AuthenticationStrength.password;
  session_id = text "s";
  raw_claims = end;
}

-- A provider that knows every token, and one that knows none.
abbrev pub trusting : IdentityProvider
trusting = record { State = Unit {0}; verify_token = λ s token. (ok somebody, s) }

abbrev refusing : IdentityProvider
refusing = record { State = Unit {0}; verify_token = λ s token. (raise (library_error "token"), s) }

abbrev one_membership : MembershipRepository
one_membership = record {
  State = Unit {0};
  list_by_user = λ s user_id. (ok (membership (at 5) ∷ []), s);
}

abbrev policies : PolicyEngine
policies = record {
  State = Unit {0};
  current_policy_version = λ s. (ok "1", s);
  authorize = λ s c request. (authorize engine (at 10) c request, s);
}

abbrev pub ids : IdGenerator
ids = record { State = ℕ; new_id = λ n. ("id", suc n) }

abbrev pub issuing : IdentityProvider → ResolveSecurityContext
issuing provider = record {
  identity_provider = provider;
  membership_repository = one_membership;
  policy_engine = policies;
  id_generator = ids;
  context_ttl = 100;
}

abbrev pub start : World (issuing trusting)
start = record { identities = tt; memberships = tt; policies = tt; ids = 7 }

one_membership-ReturnsAware : ReturnsAware one_membership
one_membership-ReturnsAware s user_id memberships h =
    let same' : (membership (at 5) ∷ []) ≡ memberships = ok_injective h in
    subst (All HasAwareTimes) same' (record { from = refl; until = refl }, tt)

abbrev context : SecurityContext
context = issued (issuing trusting) asking (at 10) somebody (membership (at 5)) "1" "id" (at 110)

select_cases_example :
    ((m : MembershipReference) × HasOnly (Fits asking (at 10)) m (membership (at 5) ∷ [])
      × (select (text "u") asking (at 10) (membership (at 5) ∷ []) ≡ ok m))
    ⊎ (HasNone (Fits asking (at 10)) (membership (at 5) ∷ [])
        × RaisesKind no_valid_membership_error
            (select (text "u") asking (at 10) (membership (at 5) ∷ [])))
    ⊎ (HasTwo (Fits asking (at 10)) (membership (at 5) ∷ [])
        × RaisesKind ambiguous_tenant_context_error
            (select (text "u") asking (at 10) (membership (at 5) ∷ [])))
select_cases_example =
    select_cases (text "u") asking (at 10) (membership (at 5) ∷ []) refl
      (record { from = refl; until = refl }, tt)

select-Agree_example :
    Agree
      (select (text "u") asking (at 10) (membership (at 5) ∷ membership (at 50) ∷ []))
      (select (text "u") asking (at 10) (membership (at 50) ∷ membership (at 5) ∷ []))
select-Agree_example =
    select-Agree (text "u") asking (at 10) (membership (at 5) ∷ membership (at 50) ∷ [])
      (membership (at 50) ∷ membership (at 5) ∷ []) refl
      (record { from = refl; until = refl }, (record { from = refl; until = refl }, tt))
      (Permᴰ.swap refl refl)

execute-IsIssued_example : IsIssued (issuing trusting) asking (at 10) start context
unfolding execute select valid_memberships narrow is_currently_valid is_since is_before add
execute-IsIssued_example =
    execute-IsIssued (issuing trusting) asking (at 10) start context refl
      one_membership-ReturnsAware refl
