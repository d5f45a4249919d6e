-- ===== src/Inbound.antt =====
-- application/use_cases/process_inbound_message.py: the Input Gateway.
pub mod Steps
pub mod Origin
pub mod Handling
pub mod Duplicates
pub mod Refusals
pub mod Keys
pub mod Tasks
use edge_copilot_backend.Prelude.{
  ℕ, String, Bool, true, false, not, Option, none, some, ◌<>◌, if◌then◌else◌,
}
use edge_copilot_backend.Prelude.Text.{strip, truthy}
use edge_copilot_backend.Values.{text, end, field, DateTime}
use edge_copilot_backend.Errors.{
  Exception, Result, ok, raise, domain, domain_error_init, validation_error,
  idempotency_conflict_error, unknown_channel_identity_error,
}
use edge_copilot_backend.Exec.{Exec, from, throw, return, ◌>>=◌, ◌>>◌}
use edge_copilot_backend.Gateway.{WebhookValidationResult}
use edge_copilot_backend.Identity.{Channel, channel_value, ChannelIdentity}
use edge_copilot_backend.Message
use edge_copilot_backend.Message.{MessageState, Message}
use edge_copilot_backend.Conversation
use edge_copilot_backend.Conversation.{ConversationState, Conversation}
use edge_copilot_backend.Ports.{
  ChannelIdentityRepository, ConversationRepository, ReplayGuard, IdGenerator,
}

pub record ProcessInboundMessageRequest : Type 0 where
  pub channel : Channel
  pub provider : String
  pub provider_subject_id : String
  pub provider_message_id : String
  pub content : String
  pub received_at : DateTime
  pub correlation_id : String
  pub tenant_id : String
  pub organization_id : Option String
  pub webhook_validation : Option WebhookValidationResult

pub record ProcessInboundMessageResult : Type 0 where
  pub message : Message
  pub conversation : Conversation

-- The object. What the clock shows is an argument of `execute`.
pub record ProcessInboundMessage : Type 1 where
  pub channel_identity_repository : ChannelIdentityRepository
  pub conversation_repository : ConversationRepository
  pub replay_guard : ReplayGuard
  pub id_generator : IdGenerator
  pub dedup_ttl_seconds : ℕ

-- The default of `dedup_ttl_seconds`.
abbrev pub default_dedup_ttl_seconds : ℕ
default_dedup_ttl_seconds = 86400

abbrev pub source_failed : WebhookValidationResult → Exception
source_failed validation = domain (
    domain_error_init validation_error "Inbound message failed source authentication."
      (some (field "reason" (text validation.reason) end)))

-- The check of the source, where there is one.
unfoldable pub authenticate_source : Option WebhookValidationResult → Result (Unit {0})
authenticate_source none = ok tt
authenticate_source (some validation) =
    if not validation.valid then raise (source_failed validation) else ok tt

unfoldable pub validate_content : String → Result (Unit {0})
validate_content content =
    if not (truthy (strip content))
    then raise
        (domain (domain_error_init validation_error "Inbound message content is empty." none))
    else ok tt

-- The message as it is built first.
abbrev pub received_message : ProcessInboundMessageRequest → String → Message
received_message request message_id = record {
  message_id = message_id;
  conversation_id = "";
  sender = request.provider_subject_id;
  channel = channel_value request.channel;
  timestamp = request.received_at;
  correlation_id = request.correlation_id;
  status = MessageState.received;
}

abbrev pub dedup_key : ProcessInboundMessageRequest → String
dedup_key request =
    "message:"
    <> channel_value request.channel
    <> ":"
    <> request.provider
    <> ":"
    <> request.provider_message_id

abbrev pub duplicate : ProcessInboundMessageRequest → Exception
duplicate request = domain (
    domain_error_init idempotency_conflict_error "Duplicate inbound message from provider."
      (some (field "provider_message_id" (text request.provider_message_id) end)))

abbrev pub unknown_sender : ProcessInboundMessageRequest → Exception
unknown_sender request = domain (
    domain_error_init unknown_channel_identity_error
      "Could not identify the sender of this inbound message."
      (some (
        field "channel" (text (channel_value request.channel)) (
          field "provider" (text request.provider)
            (field "provider_subject_id" (text request.provider_subject_id) end)))))

-- `if channel_identity is None: raise ...`
abbrev pub identified_sender :
    ProcessInboundMessageRequest → Option ChannelIdentity → Result ChannelIdentity
identified_sender request none = raise (unknown_sender request)
identified_sender request (some channel_identity) = ok channel_identity

abbrev pub created_conversation : ProcessInboundMessageRequest → DateTime → String → Conversation
created_conversation request now conversation_id = record {
  conversation_id = conversation_id;
  tenant_id = request.tenant_id;
  organization_id = request.organization_id;
  channel = channel_value request.channel;
  state = ConversationState.created;
  created_at = now;
  updated_at = now;
}

-- The message, built again with the id of its conversation.
abbrev pub in_conversation : Message → Conversation → Message
in_conversation message conversation = record {
  message_id = message.message_id;
  conversation_id = conversation.conversation_id;
  sender = message.sender;
  channel = message.channel;
  timestamp = message.timestamp;
  correlation_id = message.correlation_id;
  status = message.status;
}

module _ (use_case : ProcessInboundMessage) where
  -- The states of the ports.
  pub record World : Type 0 where
    pub identities : use_case.channel_identity_repository.State
    pub conversations : use_case.conversation_repository.State
    pub guard : use_case.replay_guard.State
    pub ids : use_case.id_generator.State

  abbrev pub new_id : Exec World String
  new_id w = let (id, s) = use_case.id_generator.new_id w.ids in (ok id, record w { ids = s })

  -- The call of the guard, at the time `t` of its store.
  abbrev pub check_and_record : ℕ → String → Exec World Bool
  check_and_record t key w =
      let (r, s) =
        use_case.replay_guard.check_and_record w.guard t key use_case.dedup_ttl_seconds in
      (r, record w { guard = s })

  abbrev pub find_by_provider_subject :
      ProcessInboundMessageRequest → Exec World (Option ChannelIdentity)
  find_by_provider_subject request w = (
    use_case.channel_identity_repository.find_by_provider_subject w.identities request.channel
        request.provider request.provider_subject_id,
    w,
  )

  abbrev pub find_active : String → Exec World (Option Conversation)
  find_active channel_identity_id w = (
    use_case.conversation_repository.find_active_for_channel_identity w.conversations
        channel_identity_id,
    w,
  )

  abbrev pub save : Conversation → Exec World (Unit {0})
  save conversation w =
      let (r, s) = use_case.conversation_repository.save w.conversations conversation in
      (r, record w { conversations = s })

  -- A new conversation, active and saved.
  unfoldable pub start_conversation :
      ProcessInboundMessageRequest → DateTime → Exec World Conversation
  start_conversation request now = do
    conversation_id ← new_id
    conversation ← from (
        Conversation.transition_to (created_conversation request now conversation_id)
          ConversationState.active now)
    save conversation
    return conversation

  abbrev pub resolve_conversation :
      ProcessInboundMessageRequest → DateTime → Option Conversation → Exec World Conversation
  resolve_conversation request now none = start_conversation request now
  resolve_conversation request now (some conversation) = return conversation

  -- The step "Contextualize".
  unfoldable pub contextualize :
      ProcessInboundMessageRequest
      → DateTime
      → Message
      → ChannelIdentity
      → Exec World ProcessInboundMessageResult
  contextualize request now message channel_identity = do
    found ← find_active channel_identity.channel_identity_id
    conversation ← resolve_conversation request now found
    final ←
        from
          (Message.transition_to (in_conversation message conversation) MessageState.contextualized)
    return (record { message = final; conversation = conversation })

  -- The step "Identify" and what follows it.
  unfoldable pub identify :
      ProcessInboundMessageRequest → DateTime → Message → Exec World ProcessInboundMessageResult
  identify request now message = do
    found ← find_by_provider_subject request
    channel_identity ← from (identified_sender request found)
    known ← from (Message.transition_to message MessageState.identified)
    contextualize request now known channel_identity

  -- The step "Deduplicate" and what follows it.
  unfoldable pub deduplicate :
      ℕ → ProcessInboundMessageRequest → DateTime → Message → Exec World ProcessInboundMessageResult
  deduplicate t request now message = do
    is_first_occurrence ← check_and_record t (dedup_key request)
    if not is_first_occurrence then throw (duplicate request) else identify request now message

  -- `execute(request)`, where `now` is what the clock shows.
  unfoldable pub execute :
      ℕ → ProcessInboundMessageRequest → DateTime → Exec World ProcessInboundMessageResult
  execute t request now = do
    from (authenticate_source request.webhook_validation)
    from (validate_content request.content)
    message_id ← new_id
    message ←
        from (Message.transition_to (received_message request message_id) MessageState.validated)
    deduplicate t request now message
