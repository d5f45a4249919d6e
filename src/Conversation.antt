-- ===== src/Conversation.antt =====
-- domain/conversation/conversation.py, with the records of conversation_participant.py and
-- conversation_context.py
pub mod History
pub mod Gates
pub mod Lives
use edge_copilot_backend.Prelude.{
  String, Bool, true, Option, none, some, List, [], ◌∷◌, ◌++◌, map, ◌≡◌, refl, ◌==◌, any,
  if◌then◌else◌,
}
use edge_copilot_backend.Values.{DateTime}
use edge_copilot_backend.Errors.{Result, ok, ◌>>=◌, ◌>>◌}
use edge_copilot_backend.StateMachine.{StrEnum, same, Transitions, put, ensure_transition_allowed}

pub data ConversationState : Type 0 where
  created active idle archived : ConversationState

abbrev conversation_state_name : ConversationState → String
conversation_state_name created = "CREATED"
conversation_state_name active = "ACTIVE"
conversation_state_name idle = "IDLE"
conversation_state_name archived = "ARCHIVED"

abbrev pub conversation_state_value : ConversationState → String
conversation_state_value created = "created"
conversation_state_value active = "active"
conversation_state_value idle = "idle"
conversation_state_value archived = "archived"

unfoldable pub conversation_state_of_value : String → Option ConversationState
conversation_state_of_value text =
    if text == "created"
    then some created
    else if text == "active"
    then some active
    else if text == "idle"
    then some idle
    else if text == "archived"
    then some archived
    else none

pub conversation_state_of_value_lem :
    (a : ConversationState) → conversation_state_of_value (conversation_state_value a) ≡ some a
unfolding conversation_state_of_value
conversation_state_of_value_lem created = refl
conversation_state_of_value_lem active = refl
conversation_state_of_value_lem idle = refl
conversation_state_of_value_lem archived = refl

instance abbrev pub conversation_state_enum : StrEnum ConversationState
conversation_state_enum = record {
  class_name = "ConversationState";
  member_name = conversation_state_name;
  value = conversation_state_value;
  of_value = conversation_state_of_value;
  of_value-value = conversation_state_of_value_lem;
}

-- `_ALLOWED_TRANSITIONS`
abbrev pub conversation_transitions : Transitions ConversationState
conversation_transitions =
    (created, active ∷ [])
    ∷ (active, idle ∷ archived ∷ [])
    ∷ (idle, active ∷ archived ∷ [])
    ∷ (archived, [])
    ∷ []

pub record Conversation : Type 0 where
  pub conversation_id : String
  pub tenant_id : String
  pub organization_id : Option String
  pub channel : String
  pub state : ConversationState
  pub created_at : DateTime
  pub updated_at : DateTime

-- `grants_no_authority()`
unfoldable pub grants_no_authority : Conversation → Bool
grants_no_authority c = true

unfoldable pub transition_to : Conversation → ConversationState → DateTime → Result Conversation
transition_to c target now = do
  ensure_transition_allowed c.state target conversation_transitions "Conversation"
  ok (record {
    conversation_id = c.conversation_id;
    tenant_id = c.tenant_id;
    organization_id = c.organization_id;
    channel = c.channel;
    state = target;
    created_at = c.created_at;
    updated_at = now;
  })

pub record ConversationParticipant : Type 0 where
  pub participant_id : String
  pub conversation_id : String
  pub user_id : Option String
  pub channel_identity_id : Option String
  pub joined_at : DateTime

pub record ConversationContext : Type 0 where
  pub conversation_id : String
  pub last_message_at : Option DateTime
  pub pending_clarification : Option String
  pub variables : List (String × String)
