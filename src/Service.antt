-- ===== src/Service.antt =====
-- The adapters of infrastructure/ as the ports of application/ports/, and the use case that issues
-- security contexts over all of them, behind interfaces/http/dependencies/security_context.py.
pub mod Entitlement
pub mod Authenticity
use edge_copilot_backend.Prelude.{ℕ}
use edge_copilot_backend.Values.{DateTime}
use edge_copilot_backend.Errors.{ok}
use edge_copilot_backend.Ports.{IdentityProvider, PolicyEngine, IdGenerator}
use edge_copilot_backend.Policy.{DefaultPolicyEngine, current_policy_version, authorize}
use edge_copilot_backend.Keycloak.{KeycloakIdentityProvider, ProviderState, verify_token}
use edge_copilot_backend.Resolve.{ResolveSecurityContext}
use edge_copilot_backend.Surreal.Client.{SurrealDbClient}
use edge_copilot_backend.Surreal.Rows.{Builtins}
use edge_copilot_backend.Surreal.Repository.{SurrealDbMembershipRepository}

-- Keycloak as the identity provider, at a time of its clocks.
abbrev pub keycloak_port : KeycloakIdentityProvider → ℕ → IdentityProvider
keycloak_port provider now = record {
  State = ProviderState provider;
  verify_token = λ s token. verify_token provider now token s;
}

-- The default engine as the policy engine, at a time of its clock. It has no state.
abbrev pub default_engine_port : DefaultPolicyEngine → DateTime → PolicyEngine
default_engine_port engine now = record {
  State = Unit {0};
  current_policy_version = λ s. (ok (current_policy_version engine), s);
  authorize = λ s context request. (authorize engine now context request, s);
}

-- What the application is built from.
pub record Adapters : Type 1 where
  pub provider : KeycloakIdentityProvider
  pub client : SurrealDbClient
  pub builtins : Builtins
  pub engine : DefaultPolicyEngine
  pub id_generator : IdGenerator
  pub context_ttl : ℕ

-- The use case over the adapters; the two clocks are those of the identity provider and of the rest.
abbrev pub issuing : Adapters → ℕ → DateTime → ResolveSecurityContext
issuing adapters seconds_now now = record {
  identity_provider = keycloak_port adapters.provider seconds_now;
  membership_repository = SurrealDbMembershipRepository adapters.client adapters.builtins;
  policy_engine = default_engine_port adapters.engine now;
  id_generator = adapters.id_generator;
  context_ttl = adapters.context_ttl;
}
