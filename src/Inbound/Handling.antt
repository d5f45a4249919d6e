-- ===== src/Inbound/Handling.antt =====
-- What application/use_cases/process_inbound_message.py hands on.
use mathlib.Core.Path.{subst}
use edge_copilot_backend.Prelude.{
  ℕ, String, Bool, true, not, if◌then◌else◌, Option, none, some, ◌≡◌, inl, inr, refl, sym, ◌∙◌, ap,
  Bool-cases,
}
use edge_copilot_backend.Values.{DateTime}
use edge_copilot_backend.Errors.{ok, ok_injective, raise-ne-ok}
use edge_copilot_backend.Exec.{Exec, from, throw, ◌>>=◌, ◌>>◌, bind-eq-ok, from-bind-eq-ok}
use edge_copilot_backend.Identity.{ChannelIdentity, channel_value}
use edge_copilot_backend.Message
use edge_copilot_backend.Message.{MessageState, Message}
use edge_copilot_backend.Inbound.{
  ProcessInboundMessageRequest, ProcessInboundMessageResult, ProcessInboundMessage, World, execute,
  deduplicate, identify, contextualize, dedup_key, new_id, find_by_provider_subject,
  check_and_record, identified_sender, received_message, authenticate_source, validate_content,
  duplicate,
}
use edge_copilot_backend.Inbound.Steps.{
  Passes, validated_message, numbered, message_id, execute-deduplicate, identifies,
  authenticate_source-eq-ok, validate_content-eq-ok,
}
use edge_copilot_backend.Inbound.Origin.{ConversationFrom, contextualize-eq-ok}

-- The message that is handed on.
abbrev pub handed_on : ProcessInboundMessageRequest → String → String → Message
handed_on request message_id conversation_id = record {
  message_id = message_id;
  conversation_id = conversation_id;
  sender = request.provider_subject_id;
  channel = channel_value request.channel;
  timestamp = request.received_at;
  correlation_id = request.correlation_id;
  status = MessageState.contextualized;
}

module _ (use_case : ProcessInboundMessage) where
  module _ (t : ℕ) (request : ProcessInboundMessageRequest) (now : DateTime)
      (w : World use_case) where
    -- The world after the call of the guard.
    abbrev pub checked : World use_case
    checked =
        (check_and_record use_case t (dedup_key request) (numbered use_case t request now w)).1

    -- What a result tells of the call that returned it; `v` is the world that it left.
    pub record IsHandled (result : ProcessInboundMessageResult) (v : World use_case) : Type 0 where
      pub passes : Passes request
      pub first :
          (use_case.replay_guard.check_and_record w.guard t
            (dedup_key request)
            use_case.dedup_ttl_seconds).0
          ≡ ok true
      pub sender : ChannelIdentity
      pub known :
          use_case.channel_identity_repository.find_by_provider_subject w.identities request.channel
            request.provider request.provider_subject_id
          ≡ ok (some sender)
      pub origin : ConversationFrom use_case request now checked sender result.conversation v
      pub message :
          result.message
          ≡ handed_on request
              (message_id use_case t request now w)
              result.conversation.conversation_id

    numbering : Exec (World use_case) ProcessInboundMessageResult
    numbering = do
      message_id ← new_id use_case
      message ←
          from (Message.transition_to (received_message request message_id) MessageState.validated)
      deduplicate use_case t request now message

    execute-Passes :
        (result : ProcessInboundMessageResult)
        → (execute use_case t request now w).0 ≡ ok result
        → Passes request
    unfolding execute numbering
    execute-Passes result h =
        let (_, source, run) =
          from-bind-eq-ok (authenticate_source request.webhook_validation)
            (λ _. from (validate_content request.content) >> numbering) w h in
        let (_, content, _) =
          from-bind-eq-ok (validate_content request.content) (λ _. numbering) w
            (sym (ap (λ p. p.0) run) ∙ h) in
        (
          authenticate_source-eq-ok request.webhook_validation source,
          validate_content-eq-ok request.content content,
        )

    identified_sender-eq-ok :
        (answer : Option ChannelIdentity) (i : ChannelIdentity)
        → identified_sender request answer ≡ ok i
        → answer ≡ some i
    identified_sender-eq-ok none i h = cc
    identified_sender-eq-ok (some j) i h = ap some (ok_injective h)

    -- The steps after the guard.
    identify-eq-ok :
        (m : Message) (v : World use_case) (result : ProcessInboundMessageResult)
        → m.status ≡ MessageState.validated
        → (identify use_case request now m v).0 ≡ ok result
        → (i : ChannelIdentity) × (use_case.channel_identity_repository.find_by_provider_subject
              v.identities request.channel request.provider request.provider_subject_id
            ≡ ok (some i))
          × (identify use_case request now m v
              ≡ contextualize use_case request now
                  (record m { status = MessageState.identified })
                  i
                  v)
    unfolding identify
    identify-eq-ok m v result status h =
        let (answer, looked, run) =
          bind-eq-ok (find_by_provider_subject use_case request)
            (λ answer. from (identified_sender request answer) >>= for_sender) v h in
        let (i, there', run') =
          from-bind-eq-ok (identified_sender request answer) for_sender v
            (sym (ap (λ p. p.0) run) ∙ h) in
        (
          i,
          looked ∙ ap ok (identified_sender-eq-ok answer i there'),
          run ∙ run' ∙ rw (identifies m status) refl,
        )
      where
        for_sender : ChannelIdentity → Exec (World use_case) ProcessInboundMessageResult
        for_sender i = from (Message.transition_to m MessageState.identified) >>= λ known.
            contextualize use_case request now known i

    deduplicate-eq-ok :
        (m : Message) (v : World use_case) (result : ProcessInboundMessageResult)
        → (deduplicate use_case t request now m v).0 ≡ ok result
        → ((check_and_record use_case t (dedup_key request) v).0 ≡ ok true)
          × (deduplicate use_case t request now m v
              ≡ identify use_case request now m
                  (check_and_record use_case t (dedup_key request) v).1)
    unfolding deduplicate
    deduplicate-eq-ok m v result h =
        let go : Bool → Exec (World use_case) ProcessInboundMessageResult = λ is_first.
          if not is_first then throw (duplicate request) else identify use_case request now m in
        let (is_first, answer, run) =
          bind-eq-ok (check_and_record use_case t (dedup_key request)) go v h in
        elim (Bool-cases is_first) [
          | inl yes' ↦ (answer ∙ ap ok yes', run ∙ rw yes' refl)
          | inr no' ↦ absurd (
              raise-ne-ok (
                sym (ap (λ b. (go b (check_and_record use_case t (dedup_key request) v).1).0) no')
                ∙ sym (ap (λ p. p.0) run)
                ∙ h))
        ]

    -- A message that is handed on has passed every step: its source is accepted and its content is
    -- not blank; the guard says that it is the first with its key; the repository knows its sender;
    -- it is CONTEXTUALIZED, with the next id and the data of the request, in the conversation that
    -- is returned. That is the sender's active conversation, with the repository as it was, or, if
    -- there is none, a new active one in the request's tenant and organization, which is saved.
    pub execute-IsHandled :
        (result : ProcessInboundMessageResult)
        → (execute use_case t request now w).0 ≡ ok result
        → IsHandled result (execute use_case t request now w).1
    execute-IsHandled result h =
        let passes = execute-Passes result h in
        let run = execute-deduplicate use_case t request now w passes in
        let m = validated_message request (message_id use_case t request now w) in
        let (first, run1) =
          deduplicate-eq-ok m (numbered use_case t request now w) result
            (sym (ap (λ p. p.0) run) ∙ h) in
        let (i, known, run2) =
          identify-eq-ok m checked result refl (sym (ap (λ p. p.0) (run ∙ run1)) ∙ h) in
        let (origin, message) =
          contextualize-eq-ok use_case request now checked
            (record m { status = MessageState.identified }) i result refl
            (sym (ap (λ p. p.0) (run ∙ run1 ∙ run2)) ∙ h) in
        record {
          passes = passes;
          first = first;
          sender = i;
          known = known;
          origin =
              subst (ConversationFrom use_case request now checked i result.conversation)
                (sym (ap (λ p. p.1) (run ∙ run1 ∙ run2))) origin;
          message = message;
        }
