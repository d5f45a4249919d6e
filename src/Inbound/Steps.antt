-- ===== src/Inbound/Steps.antt =====
-- The steps of application/use_cases/process_inbound_message.py, one by one.
use edge_copilot_backend.Prelude.{
  ℕ, String, true, Option, none, some, ◌≡◌, refl, Bool-cases, inl, inr,
}
use edge_copilot_backend.Prelude.Text.{strip, truthy}
use edge_copilot_backend.Values.{DateTime}
use edge_copilot_backend.Errors.{ok}
use edge_copilot_backend.Gateway.{WebhookValidationResult}
use edge_copilot_backend.Message
use edge_copilot_backend.Message.{MessageState, Message, message_transitions}
use edge_copilot_backend.StateMachine.{put, ensure_transition_allowed, successors}
use edge_copilot_backend.Conversation
use edge_copilot_backend.Conversation.{ConversationState, Conversation}
use edge_copilot_backend.Inbound.{
  ProcessInboundMessageRequest, ProcessInboundMessage, World, authenticate_source, validate_content,
  received_message, execute, deduplicate, new_id,
}

-- The source is authenticated, or the channel has nothing to check.
abbrev pub SourceAccepted : Option WebhookValidationResult → Type 0
SourceAccepted none = Unit
SourceAccepted (some validation) = validation.valid ≡ true

-- The request passes the checks that precede the guard.
abbrev pub Passes : ProcessInboundMessageRequest → Type 0
Passes request = SourceAccepted request.webhook_validation × (truthy (strip request.content) ≡ true)

pub authenticate_source_lem :
    (v : Option WebhookValidationResult) → SourceAccepted v → authenticate_source v ≡ ok tt
unfolding authenticate_source
authenticate_source_lem none h = refl
authenticate_source_lem (some validation) h = rw h

pub authenticate_source-eq-ok :
    (v : Option WebhookValidationResult) → authenticate_source v ≡ ok tt → SourceAccepted v
unfolding authenticate_source
authenticate_source-eq-ok none h = tt
authenticate_source-eq-ok (some validation) h = elim (Bool-cases validation.valid) [
  | inl yes' ↦ yes'
  | inr no' ↦ cc (rw no' at h)
]

pub validate_content_lem : (c : String) → truthy (strip c) ≡ true → validate_content c ≡ ok tt
unfolding validate_content
validate_content_lem c h = rw h

pub validate_content-eq-ok : (c : String) → validate_content c ≡ ok tt → truthy (strip c) ≡ true
unfolding validate_content
validate_content-eq-ok c h = elim (Bool-cases (truthy (strip c))) [
  | inl yes' ↦ yes'
  | inr no' ↦ cc (rw no' at h)
]

-- The steps of the message and of a new conversation are allowed.
module _ (m : Message) where
  pub validates :
      m.status ≡ MessageState.received
      → Message.transition_to m MessageState.validated
        ≡ ok (record m { status = MessageState.validated })
  unfolding Message.transition_to ensure_transition_allowed message_transitions put successors
  validates h = rw h

  pub identifies :
      m.status ≡ MessageState.validated
      → Message.transition_to m MessageState.identified
        ≡ ok (record m { status = MessageState.identified })
  unfolding Message.transition_to ensure_transition_allowed message_transitions put successors
  identifies h = rw h

  pub contextualizes :
      m.status ≡ MessageState.identified
      → Message.transition_to m MessageState.contextualized
        ≡ ok (record m { status = MessageState.contextualized })
  unfolding Message.transition_to ensure_transition_allowed message_transitions put successors
  contextualizes h = rw h

pub activates :
    (c : Conversation) (now : DateTime)
    → c.state ≡ ConversationState.created
    → Conversation.transition_to c ConversationState.active now
      ≡ ok (record c { state = ConversationState.active; updated_at = now })
unfolding Conversation.transition_to ensure_transition_allowed successors
activates c now h = rw h

-- The message that the guard's step works on.
abbrev pub validated_message : ProcessInboundMessageRequest → String → Message
validated_message request message_id = record (received_message request message_id) {
  status = MessageState.validated;
}

module _ (use_case : ProcessInboundMessage) (t : ℕ) (request : ProcessInboundMessageRequest)
    (now : DateTime) (w : World use_case) where
  -- The world after the message got its id.
  abbrev pub numbered : World use_case
  numbered = (new_id use_case w).1

  abbrev pub message_id : String
  message_id = (use_case.id_generator.new_id w.ids).0

  -- A request that passes the checks goes on to the guard.
  pub execute-deduplicate :
      Passes request
      → execute use_case t request now w
        ≡ deduplicate use_case t request now (validated_message request message_id) numbered
  unfolding execute
  execute-deduplicate (source, content) = rw (
    authenticate_source_lem request.webhook_validation source,
    validate_content_lem request.content content,
    validates (received_message request message_id) refl,
  )
