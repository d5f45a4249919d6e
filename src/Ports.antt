-- ===== src/Ports.antt =====
-- application/ports/: what the use cases ask of the world around them. Each port is a record of a
-- state and of operations on it; an operation may raise.
pub mod Laws
use edge_copilot_backend.Prelude.{ℕ, String, Bool, Option, List}
use edge_copilot_backend.Values.{Value, Fields, DateTime}
use edge_copilot_backend.Errors.{Result}
use edge_copilot_backend.Identity.{Channel, ChannelIdentity, MembershipReference}
use edge_copilot_backend.Conversation.{Conversation}
use edge_copilot_backend.Security.{AuthenticationStrength, SecurityContext}
use edge_copilot_backend.Policy.{AuthorizeRequest, PolicyDecisionRecord}

-- `check_and_record(key, ttl_seconds)`; the second argument is the time at which the store handles
-- the call, in microseconds.
pub record ReplayGuard : Type 1 where
  pub State : Type 0
  pub check_and_record : State → ℕ → String → ℕ → Result Bool × State

pub record ConversationRepository : Type 1 where
  pub State : Type 0
  pub find_active_for_channel_identity : State → String → Result (Option Conversation)
  pub save : State → Conversation → Result (Unit {0}) × State

pub record ChannelIdentityRepository : Type 1 where
  pub State : Type 0
  pub find_by_provider_subject : State → Channel → String → String → Result (Option ChannelIdentity)

pub record IdGenerator : Type 1 where
  pub State : Type 0
  pub new_id : State → String × State

-- The facts that an identity provider returns. The user and the session are claims of the token,
-- passed on as they are.
pub record AuthenticatedIdentity : Type 0 where
  pub user_id : Value
  pub authentication_strength : AuthenticationStrength
  pub session_id : Value
  pub raw_claims : Fields

pub record IdentityProvider : Type 1 where
  pub State : Type 0
  pub verify_token : State → String → Result AuthenticatedIdentity × State

pub record MembershipRepository : Type 1 where
  pub State : Type 0
  pub list_by_user : State → Value → Result (List MembershipReference) × State

pub record PolicyEngine : Type 1 where
  pub State : Type 0
  pub current_policy_version : State → Result String × State
  pub authorize : State → SecurityContext → AuthorizeRequest → Result PolicyDecisionRecord × State

-- `application/ports/event_publisher.py`. No code of the repository publishes an event.
pub record DomainEvent : Type 0 where
  pub event_id : String
  pub event_type : String
  pub schema_version : String
  pub source : String
  pub producer : String
  pub tenant_id : String
  pub organization_id : Option String
  pub subject_id : String
  pub timestamp : DateTime
  pub correlation_id : String
  pub causation_id : Option String
  pub trace_id : Option String
  pub payload : Fields
  pub metadata : Fields

pub record EventPublisher : Type 1 where
  pub State : Type 0
  pub publish : State → DomainEvent → Result (Unit {0}) × State

-- The generic repository, of entities `T` with ids `Id'`; each call names the tenant.
pub record Repository (T Id' : Type 0) : Type 1 where
  pub State : Type 0
  pub get_by_id : State → Id' → String → Result (Option T)
  pub save : State → T → String → Result (Unit {0}) × State

pub record Clock : Type 1 where
  pub State : Type 0
  pub now : State → DateTime × State
