-- ===== src/Inbound/Tasks/Together.antt =====
-- Tasks of application/use_cases/process_inbound_message.py that run at the same time: at most one
-- with a key gets past the guard.
use edge_copilot_backend.Prelude.{
  ℕ, Bool, true, false, Option, none, some, ◌≡◌, ◌⊎◌, refl, inl, inr,
}
use edge_copilot_backend.Values.{DateTime}
use edge_copilot_backend.Errors.{Result, ok, raise, Result-cases}
use edge_copilot_backend.Exec.{Exec, resume}
use edge_copilot_backend.Tasks.{landed}
use edge_copilot_backend.Conversation
use edge_copilot_backend.Conversation.{Conversation, ConversationState}
use edge_copilot_backend.Message
use edge_copilot_backend.Message.{Message, MessageState}
use edge_copilot_backend.Inbound.{
  ProcessInboundMessageRequest, ProcessInboundMessage, World, new_id, find_by_provider_subject,
  find_active, save, authenticate_source, validate_content, received_message, dedup_key,
  identified_sender, created_conversation, in_conversation,
}
use edge_copilot_backend.Inbound.Tasks.{
  Place, arrived, deduplicating, identifying, seeking, saving, ended, conclude, found_active,
  segment, advance,
}

-- The guard let the task pass, and the task has not raised since.
abbrev pub is_past_guard : Place → Bool
is_past_guard (identifying _) = true
is_past_guard (seeking _ _) = true
is_past_guard (saving _ _) = true
is_past_guard (ended (ok _)) = true
is_past_guard _ = false

module _ (use_case : ProcessInboundMessage) where
  module _ (request : ProcessInboundMessageRequest) (now : DateTime) (t : ℕ) where
    -- What a segment does to the guard, and where it leads.
    abbrev pub Quiet : Place → World use_case → Result Place × World use_case → Type 0
    Quiet place w p =
        ((landed ended p).1.guard ≡ w.guard)
        × (is_past_guard (landed ended p).0 ≡ true → is_past_guard place ≡ true)

    resume-Quiet :
        {A : Type 0} (place : Place) (w : World use_case) (f : A → Exec (World use_case) Place)
        (p : Result A × World use_case)
        → p.1.guard ≡ w.guard
        → ((a : A) → Quiet place w (f a p.1))
        → Quiet place w (resume f p)
    resume-Quiet place w f (ok a, v) h k = k a
    resume-Quiet place w f (raise e, v) h k = (h, (λ past. cc))

    conclude-Quiet :
        (place : Place) (w v : World use_case) (message : Message) (c : Conversation)
        → v.guard ≡ w.guard
        → is_past_guard place ≡ true
        → Quiet place w (conclude use_case message c v)
    conclude-Quiet place w v message c h past =
        resume-Quiet place w _
          (Message.transition_to (in_conversation message c) MessageState.contextualized, v) h
          (λ final. (h, (λ _. past)))

    -- Only the segment that begins at the guard calls it, and no other gets past it.
    pub segment-Quiet :
        (place : Place) (w : World use_case)
        → ((message : Message) × (place ≡ deduplicating message))
          ⊎ Quiet place w (segment use_case request now t place w)
    unfolding segment
    segment-Quiet arrived w = inr (
        resume-Quiet arrived w _ (authenticate_source request.webhook_validation, w) refl
          (λ _.
            resume-Quiet arrived w _ (validate_content request.content, w) refl
              (λ _.
                resume-Quiet arrived w _
                  (
                    Message.transition_to
                        (received_message request (use_case.id_generator.new_id w.ids).0)
                        MessageState.validated,
                    (new_id use_case w).1,
                  )
                  refl (λ _. (refl, (λ past. past))))))
    segment-Quiet (deduplicating message) w = inl (message, refl)
    segment-Quiet (identifying message) w = inr (
        resume-Quiet (identifying message) w _ (find_by_provider_subject use_case request w) refl
          (λ found.
            resume-Quiet (identifying message) w _ (identified_sender request found, w) refl
              (λ _.
                resume-Quiet (identifying message) w _
                  (Message.transition_to message MessageState.identified, w) refl
                  (λ _. (refl, (λ _. refl))))))
    segment-Quiet (seeking message sender) w = inr (
        resume-Quiet (seeking message sender) w _
          (find_active use_case sender.channel_identity_id w) refl when_found)
      where
        when_found :
            (found : Option Conversation)
            → Quiet (seeking message sender) w (found_active use_case request now message found w)
        when_found (some c) = conclude-Quiet (seeking message sender) w w message c refl refl
        when_found none =
            resume-Quiet (seeking message sender) w _
              (
                Conversation.transition_to
                    (created_conversation request now (use_case.id_generator.new_id w.ids).0)
                    ConversationState.active now,
                (new_id use_case w).1,
              )
              refl (λ _. (refl, (λ _. refl)))
    segment-Quiet (saving message c) w = inr (
        resume-Quiet (saving message c) w (λ _. conclude use_case message c) (save use_case c w)
          refl (λ _. conclude-Quiet (saving message c) w (save use_case c w).1 message c refl refl))
    segment-Quiet (ended result) w = inr (refl, (λ past. past))

    abbrev pub asked : World use_case → Result Bool × use_case.replay_guard.State
    asked w =
        use_case.replay_guard.check_and_record w.guard t (dedup_key request)
          use_case.dedup_ttl_seconds

    -- The segment that begins at the guard calls it once, and goes past it if the key was new.
    pub guard_segment :
        (message : Message) (w : World use_case)
        → ((advance use_case request now t (deduplicating message) w).1.guard ≡ (asked w).1)
          × (is_past_guard (advance use_case request now t (deduplicating message) w).0 ≡ true
              → (asked w).0 ≡ ok true)
    unfolding advance segment
    guard_segment message w = elim (Result-cases (asked w).0) [
      | inr (e, h) ↦ (rw h refl, (λ past. cc (rw h at past)))
      | inl (true, h) ↦ (rw h refl, (λ past. h))
      | inl (false, h) ↦ (rw h refl, (λ past. cc (rw h at past)))
    ]
