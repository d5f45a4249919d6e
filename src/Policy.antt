-- ===== src/Policy.antt =====
-- domain/policy/: the authorization engine and the decisions; infrastructure/policy/: the engine
-- that composes them.
pub mod Checks
pub mod Engine
use edge_copilot_backend.Prelude.{
  String, Bool, true, false, not, Option, none, some, List, ◌≡◌, refl, ◌==◌, if◌then◌else◌,
}
use edge_copilot_backend.Values.{DateTime, Fields}
use edge_copilot_backend.Errors.{Result, ok, ◌>>=◌}
use edge_copilot_backend.StateMachine.{StrEnum, same}
use edge_copilot_backend.Security.{
  SecurityContext, is_expired, belongs_to_tenant, belongs_to_organization, has_role, has_permission,
}

pub record AuthorizationCheckResult : Type 0 where
  pub allowed : Bool
  pub reason : String

-- `resource_organization_id is not None and not belongs_to_organization(…)`
abbrev pub organization_differs : SecurityContext → Option String → Bool
unfolding belongs_to_organization
organization_differs c none = false
organization_differs c (some organization) = not (belongs_to_organization c organization)

-- `required_role is not None and not has_role(…)`
abbrev pub role_missing : SecurityContext → Option String → Bool
unfolding has_role
role_missing c none = false
role_missing c (some role) = not (has_role c role)

-- The tests after the expiry.
unfoldable pub check_scope :
    SecurityContext → String → String → Option String → Option String → AuthorizationCheckResult
unfolding belongs_to_tenant belongs_to_organization has_role has_permission
check_scope c required_permission resource_tenant_id resource_organization_id required_role =
    if not (belongs_to_tenant c resource_tenant_id)
    then record { allowed = false; reason = "tenant_mismatch" }
    else if organization_differs c resource_organization_id
    then record { allowed = false; reason = "organization_mismatch" }
    else if role_missing c required_role
    then record { allowed = false; reason = "role_absent" }
    else if not (has_permission c required_permission)
    then record { allowed = false; reason = "permission_absent" }
    else record { allowed = true; reason = "authorized" }

-- `AuthorizationEngine.check`
unfoldable pub check :
    SecurityContext
    → String
    → String
    → Option String
    → DateTime
    → Option String
    → Result AuthorizationCheckResult
check c required_permission resource_tenant_id resource_organization_id now required_role = do
  expired ← is_expired c (some now) now
  ok (
      if expired
      then record { allowed = false; reason = "security_context_expired" }
      else check_scope c required_permission resource_tenant_id resource_organization_id
          required_role)

pub data PolicyDecisionOutcome : Type 0 where
  allow deny require_confirmation require_approval require_human : PolicyDecisionOutcome

abbrev policy_decision_outcome_name : PolicyDecisionOutcome → String
policy_decision_outcome_name allow = "ALLOW"
policy_decision_outcome_name deny = "DENY"
policy_decision_outcome_name require_confirmation = "REQUIRE_CONFIRMATION"
policy_decision_outcome_name require_approval = "REQUIRE_APPROVAL"
policy_decision_outcome_name require_human = "REQUIRE_HUMAN"

abbrev pub policy_decision_outcome_value : PolicyDecisionOutcome → String
policy_decision_outcome_value allow = "allow"
policy_decision_outcome_value deny = "deny"
policy_decision_outcome_value require_confirmation = "require_confirmation"
policy_decision_outcome_value require_approval = "require_approval"
policy_decision_outcome_value require_human = "require_human"

unfoldable pub policy_decision_outcome_of_value : String → Option PolicyDecisionOutcome
policy_decision_outcome_of_value text =
    if text == "allow"
    then some allow
    else if text == "deny"
    then some deny
    else if text == "require_confirmation"
    then some require_confirmation
    else if text == "require_approval"
    then some require_approval
    else if text == "require_human"
    then some require_human
    else none

pub policy_decision_outcome_of_value_lem :
    (a : PolicyDecisionOutcome)
    → policy_decision_outcome_of_value (policy_decision_outcome_value a) ≡ some a
unfolding policy_decision_outcome_of_value
policy_decision_outcome_of_value_lem allow = refl
policy_decision_outcome_of_value_lem deny = refl
policy_decision_outcome_of_value_lem require_confirmation = refl
policy_decision_outcome_of_value_lem require_approval = refl
policy_decision_outcome_of_value_lem require_human = refl

instance abbrev pub policy_decision_outcome_enum : StrEnum PolicyDecisionOutcome
policy_decision_outcome_enum = record {
  class_name = "PolicyDecisionOutcome";
  member_name = policy_decision_outcome_name;
  value = policy_decision_outcome_value;
  of_value = policy_decision_outcome_of_value;
  of_value-value = policy_decision_outcome_of_value_lem;
}

unfoldable pub permits_immediate_execution : PolicyDecisionOutcome → Bool
permits_immediate_execution outcome = same outcome allow

pub record PolicyDecisionRecord : Type 0 where
  pub policy_id : String
  pub policy_version : String
  pub decision : PolicyDecisionOutcome
  pub reason : String
  pub timestamp : DateTime
  pub context_reference : String

pub record DefaultPolicyEngine : Type 0 where
  pub policy_id : String
  pub policy_version : String

unfoldable pub current_policy_version : DefaultPolicyEngine → String
current_policy_version engine = engine.policy_version

-- The arguments of `authorize` beside the context.
pub record AuthorizeRequest : Type 0 where
  pub action : String
  pub resource_type : String
  pub resource_id : Option String
  pub resource_tenant_id : String
  pub resource_organization_id : Option String
  pub required_permission : String
  pub attributes : Option Fields

-- The record that `authorize` makes of the result of the check.
abbrev pub decision_record :
    DefaultPolicyEngine
    → DateTime
    → SecurityContext
    → AuthorizationCheckResult
    → PolicyDecisionRecord
decision_record engine now c result = record {
  policy_id = engine.policy_id;
  policy_version = engine.policy_version;
  decision = if result.allowed then allow else deny;
  reason = result.reason;
  timestamp = now;
  context_reference = c.context_id;
}

-- `authorize`, where `now` is what the engine's clock shows.
unfoldable pub authorize :
    DefaultPolicyEngine
    → DateTime
    → SecurityContext
    → AuthorizeRequest
    → Result PolicyDecisionRecord
authorize engine now c request = do
  result ←
      check c request.required_permission request.resource_tenant_id
        request.resource_organization_id now none
  ok (decision_record engine now c result)
