-- ===== src/Message.antt =====
-- domain/messaging/message.py
pub mod History
pub mod Gates
pub mod Contents
pub mod Length
use edge_copilot_backend.Prelude.{
  String, Bool, true, Option, none, some, List, [], ◌∷◌, ◌++◌, map, ◌≡◌, refl, ◌==◌, any,
  if◌then◌else◌,
}
use edge_copilot_backend.Values.{DateTime}
use edge_copilot_backend.Errors.{Result, ok, ◌>>=◌, ◌>>◌}
use edge_copilot_backend.StateMachine.{StrEnum, same, Transitions, put, ensure_transition_allowed}

pub data MessageState : Type 0 where
  received validated identified contextualized understood processed responded failed retrying
        dead_letter :
      MessageState

abbrev message_state_name : MessageState → String
message_state_name received = "RECEIVED"
message_state_name validated = "VALIDATED"
message_state_name identified = "IDENTIFIED"
message_state_name contextualized = "CONTEXTUALIZED"
message_state_name understood = "UNDERSTOOD"
message_state_name processed = "PROCESSED"
message_state_name responded = "RESPONDED"
message_state_name failed = "FAILED"
message_state_name retrying = "RETRYING"
message_state_name dead_letter = "DEAD_LETTER"

abbrev pub message_state_value : MessageState → String
message_state_value received = "received"
message_state_value validated = "validated"
message_state_value identified = "identified"
message_state_value contextualized = "contextualized"
message_state_value understood = "understood"
message_state_value processed = "processed"
message_state_value responded = "responded"
message_state_value failed = "failed"
message_state_value retrying = "retrying"
message_state_value dead_letter = "dead_letter"

unfoldable pub message_state_of_value : String → Option MessageState
message_state_of_value text =
    if text == "received"
    then some received
    else if text == "validated"
    then some validated
    else if text == "identified"
    then some identified
    else if text == "contextualized"
    then some contextualized
    else if text == "understood"
    then some understood
    else if text == "processed"
    then some processed
    else if text == "responded"
    then some responded
    else if text == "failed"
    then some failed
    else if text == "retrying"
    then some retrying
    else if text == "dead_letter"
    then some dead_letter
    else none

pub message_state_of_value_lem :
    (a : MessageState) → message_state_of_value (message_state_value a) ≡ some a
unfolding message_state_of_value
message_state_of_value_lem received = refl
message_state_of_value_lem validated = refl
message_state_of_value_lem identified = refl
message_state_of_value_lem contextualized = refl
message_state_of_value_lem understood = refl
message_state_of_value_lem processed = refl
message_state_of_value_lem responded = refl
message_state_of_value_lem failed = refl
message_state_of_value_lem retrying = refl
message_state_of_value_lem dead_letter = refl

instance abbrev pub message_state_enum : StrEnum MessageState
message_state_enum = record {
  class_name = "MessageState";
  member_name = message_state_name;
  value = message_state_value;
  of_value = message_state_of_value;
  of_value-value = message_state_of_value_lem;
}

-- `_HAPPY_PATH_ORDER`
abbrev pub happy_path_order : List MessageState
happy_path_order =
    received ∷ validated ∷ identified ∷ contextualized ∷ understood ∷ processed ∷ responded ∷ []

-- The dict comprehension over `enumerate(_HAPPY_PATH_ORDER[:-1])`: each state but the last goes to
-- the one after it, or fails.
abbrev pub happy_steps : List MessageState → Transitions MessageState
happy_steps [] = []
happy_steps (state ∷ []) = []
happy_steps (state ∷ next ∷ rest) = (state, next ∷ failed ∷ []) ∷ happy_steps (next ∷ rest)

-- `_ALLOWED_TRANSITIONS`, with the four assignments after the comprehension.
unfoldable pub message_transitions : Transitions MessageState
unfolding put
message_transitions = put dead_letter [] (
    put retrying (received ∷ dead_letter ∷ [])
      (put failed (retrying ∷ dead_letter ∷ []) (put responded [] (happy_steps happy_path_order))))

pub record Message : Type 0 where
  pub message_id : String
  pub conversation_id : String
  pub sender : String
  pub channel : String
  pub timestamp : DateTime
  pub correlation_id : String
  pub status : MessageState

unfoldable pub transition_to : Message → MessageState → Result Message
transition_to m target = do
  ensure_transition_allowed m.status target message_transitions "Message"
  ok (record {
    message_id = m.message_id;
    conversation_id = m.conversation_id;
    sender = m.sender;
    channel = m.channel;
    timestamp = m.timestamp;
    correlation_id = m.correlation_id;
    status = target;
  })
