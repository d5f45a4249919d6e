-- ===== src/Inbound/Tasks.antt =====
-- application/use_cases/process_inbound_message.py under asyncio: `execute`, from one `await` to the
-- next.
pub mod Alone
pub mod Together
pub mod Exclusion
pub mod Untouched
pub mod Race
use edge_copilot_backend.Prelude.{ℕ, Bool, true, false, not, if◌then◌else◌, Option, none, some}
use edge_copilot_backend.Values.{DateTime}
use edge_copilot_backend.Errors.{Result, ok, raise}
use edge_copilot_backend.Exec.{Exec, from, return, throw, ◌>>=◌, ◌>>◌}
use edge_copilot_backend.Identity.{ChannelIdentity}
use edge_copilot_backend.Conversation
use edge_copilot_backend.Conversation.{Conversation, ConversationState}
use edge_copilot_backend.Message
use edge_copilot_backend.Message.{Message, MessageState}
use edge_copilot_backend.Tasks.{landed}
use edge_copilot_backend.Inbound.{
  ProcessInboundMessageRequest, ProcessInboundMessageResult, ProcessInboundMessage, World, new_id,
  check_and_record, find_by_provider_subject, find_active, save, authenticate_source,
  validate_content, received_message, dedup_key, duplicate, identified_sender, created_conversation,
  in_conversation,
}

-- Where a task of `execute` stands, with the variables that are live there: before its start, at one
-- of its four `await`s, or at its end.
pub data Place : Type 0 where
  arrived : Place
  deduplicating : Message → Place
  identifying : Message → Place
  seeking : Message → ChannelIdentity → Place
  saving : Message → Conversation → Place
  ended : Result ProcessInboundMessageResult → Place

module _ (use_case : ProcessInboundMessage) where
  -- The last lines, which build the result.
  abbrev pub conclude : Message → Conversation → Exec (World use_case) Place
  conclude message conversation = do
    final ←
        from
          (Message.transition_to (in_conversation message conversation) MessageState.contextualized)
    return (ended (ok (record { message = final; conversation = conversation })))

  module _ (request : ProcessInboundMessageRequest) (now : DateTime) where
    abbrev pub found_active : Message → Option Conversation → Exec (World use_case) Place
    found_active message none = do
      conversation_id ← new_id use_case
      conversation ← from (
          Conversation.transition_to (created_conversation request now conversation_id)
            ConversationState.active now)
      return (saving message conversation)
    found_active message (some conversation) = conclude message conversation

    -- What a task does from the place where it stands: the call that it awaits, which the guard
    -- handles at the time `t`, and all up to the next one.
    unfoldable pub segment : ℕ → Place → Exec (World use_case) Place
    segment t arrived = do
      from (authenticate_source request.webhook_validation)
      from (validate_content request.content)
      message_id ← new_id use_case
      message ←
          from (Message.transition_to (received_message request message_id) MessageState.validated)
      return (deduplicating message)
    segment t (deduplicating message) = do
      is_first_occurrence ← check_and_record use_case t (dedup_key request)
      if not is_first_occurrence then throw (duplicate request) else return (identifying message)
    segment t (identifying message) = do
      found ← find_by_provider_subject use_case request
      channel_identity ← from (identified_sender request found)
      known ← from (Message.transition_to message MessageState.identified)
      return (seeking known channel_identity)
    segment t (seeking message channel_identity) = do
      found ← find_active use_case channel_identity.channel_identity_id
      found_active message found
    segment t (saving message conversation) = do
      save use_case conversation
      conclude message conversation
    segment t (ended result) = return (ended result)

    unfoldable pub advance : ℕ → Place → World use_case → Place × World use_case
    unfolding segment
    advance t place w = landed ended (segment t place w)
