-- ===== src/Tests/Policy.antt =====
-- Memberships, contexts and decisions: domain/identity, domain/security and domain/policy.
use edge_copilot_backend.Prelude.{ℕ, true, none, some, [], ◌∷◌, ◌≡◌, ◌↔◌, ◌⊎◌, refl}
use edge_copilot_backend.Values.{DateTime, text}
use edge_copilot_backend.Errors.{ok}
use edge_copilot_backend.Identity.{MembershipStatus, MembershipReference}
use edge_copilot_backend.Security.{SecurityContext, AuthenticationStrength}
use edge_copilot_backend.Policy.{
  PolicyDecisionRecord, allow, deny, permits_immediate_execution, DefaultPolicyEngine,
  AuthorizeRequest, authorize, current_policy_version,
}
use edge_copilot_backend.Policy.Engine.{Granted, authorize_iff}

abbrev pub at : ℕ → DateTime
at n = record { aware = true; instant = n }

abbrev pub membership : DateTime → MembershipReference
membership start = record {
  membership_id = "m";
  user_id = "u";
  tenant_id = "t";
  organization_id = some "o";
  role_references = text "agent" ∷ [];
  status = MembershipStatus.active;
  valid_from = start;
  valid_until = some (at 20);
}

abbrev context : DateTime → SecurityContext
context end_time = record {
  context_id = "c";
  user_id = text "u";
  tenant_id = "t";
  organization_id = some "o";
  membership_id = some "m";
  roles = text "agent" ∷ [];
  permissions_snapshot = "read" ∷ [];
  profile_type = "employee";
  channel = "web";
  session_id = text "s";
  device_id = none;
  authentication_strength = AuthenticationStrength.password;
  issued_at = at 0;
  expires_at = end_time;
  policy_version = "1";
  context_version = "1";
}

abbrev pub engine : DefaultPolicyEngine
engine = record { policy_id = "default"; policy_version = "1" }

abbrev pub reading : AuthorizeRequest
reading = record {
  action = "read";
  resource_type = "file";
  resource_id = none;
  resource_tenant_id = "t";
  resource_organization_id = some "o";
  required_permission = "read";
  attributes = none;
}

authorize_iff_example :
    (d : PolicyDecisionRecord) × (authorize engine (at 10) (context (at 20)) reading ≡ ok d)
    × ((permits_immediate_execution d.decision ≡ true) ↔ Granted (context (at 20)) reading 10)
    × ((d.decision ≡ allow) ⊎ (d.decision ≡ deny))
    × (d.timestamp ≡ at 10)
    × (d.policy_version ≡ current_policy_version engine)
    × (d.context_reference ≡ "c")
authorize_iff_example = authorize_iff engine (at 10) (context (at 20)) reading refl refl
