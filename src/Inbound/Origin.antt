-- ===== src/Inbound/Origin.antt =====
-- The step "Contextualize" of application/use_cases/process_inbound_message.py: where the
-- conversation of a message comes from.
use mathlib.Core.Path.{subst}
use edge_copilot_backend.Prelude.{String, Option, none, some, ◌≡◌, refl, sym, ◌∙◌, ap}
use edge_copilot_backend.Values.{DateTime}
use edge_copilot_backend.Errors.{Result, ok, ok_injective}
use edge_copilot_backend.Exec.{Exec, from, return, ◌>>=◌, bind-eq-ok}
use edge_copilot_backend.Identity.{ChannelIdentity, channel_value}
use edge_copilot_backend.Message
use edge_copilot_backend.Message.{MessageState, Message}
use edge_copilot_backend.Conversation.{ConversationState, Conversation}
use edge_copilot_backend.Inbound.{
  ProcessInboundMessageRequest, ProcessInboundMessageResult, ProcessInboundMessage, World,
  contextualize, resolve_conversation, start_conversation, new_id, save, find_active,
  in_conversation, created_conversation,
}
use edge_copilot_backend.Inbound.Steps.{contextualizes, activates}

-- The conversation that is started where there is none.
abbrev pub new_conversation : ProcessInboundMessageRequest → DateTime → String → Conversation
new_conversation request now conversation_id = record {
  conversation_id = conversation_id;
  tenant_id = request.tenant_id;
  organization_id = request.organization_id;
  channel = channel_value request.channel;
  state = ConversationState.active;
  created_at = now;
  updated_at = now;
}

module _ (use_case : ProcessInboundMessage) where
  abbrev active_for : World use_case → ChannelIdentity → Result (Option Conversation)
  active_for w i =
      use_case.conversation_repository.find_active_for_channel_identity w.conversations
        i.channel_identity_id

  module _ (request : ProcessInboundMessageRequest) (now : DateTime) (w : World use_case) where
    abbrev saving : String → Result (Unit {0}) × use_case.conversation_repository.State
    saving id =
        use_case.conversation_repository.save w.conversations (new_conversation request now id)

    -- Where a conversation comes from: `before` is the world before it is looked for, and `v` the
    -- one that is left.
    pub data ConversationFrom (i : ChannelIdentity) (c : Conversation) (v : World use_case)
        : Type 0 where
      -- It is the active one of the sender, and the repository is not written.
      found : active_for w i ≡ ok (some c) → v ≡ w → ConversationFrom i c v
      -- There was none: it is a new one with the next id, and it is saved.
      started :
          active_for w i ≡ ok none
          → c ≡ new_conversation request now (use_case.id_generator.new_id w.ids).0
          → (saving (use_case.id_generator.new_id w.ids).0).0 ≡ ok tt
          → v.conversations ≡ (saving (use_case.id_generator.new_id w.ids).0).1
          → ConversationFrom i c v

    start_conversation-eq-ok :
        (i : ChannelIdentity) (c : Conversation)
        → active_for w i ≡ ok none
        → (start_conversation use_case request now w).0 ≡ ok c
        → ConversationFrom i c (start_conversation use_case request now w).1
    unfolding start_conversation
    start_conversation-eq-ok i c absent h =
        let id = (use_case.id_generator.new_id w.ids).0 in
        let fresh = new_conversation request now id in
        let saved : World use_case → Result Conversation × World use_case =
          λ v. (save use_case fresh >>= λ _. return fresh) v in
        let run : start_conversation use_case request now w ≡ saved (new_id use_case w).1 =
          rw (activates (created_conversation request now id) now refl) refl in
        let (done, returned, run') =
          bind-eq-ok (save use_case fresh) (λ _. return fresh) (new_id use_case w).1
            (sym (ap (λ p. p.0) run) ∙ h) in
        started absent (sym (ok_injective (sym (ap (λ p. p.0) (run ∙ run')) ∙ h))) returned
          (ap (λ p. p.1.conversations) (run ∙ run'))

    resolve_conversation-eq-ok :
        (i : ChannelIdentity) (answer : Option Conversation) (c : Conversation)
        → active_for w i ≡ ok answer
        → (resolve_conversation use_case request now answer w).0 ≡ ok c
        → ConversationFrom i c (resolve_conversation use_case request now answer w).1
    resolve_conversation-eq-ok i none c looked h = start_conversation-eq-ok i c looked h
    resolve_conversation-eq-ok i (some d) c looked h =
        found (looked ∙ ap (λ e. ok (some e)) (ok_injective h)) refl

    pub contextualize-eq-ok :
        (m : Message) (i : ChannelIdentity) (result : ProcessInboundMessageResult)
        → m.status ≡ MessageState.identified
        → (contextualize use_case request now m i w).0 ≡ ok result
        → ConversationFrom i result.conversation (contextualize use_case request now m i w).1
          × (result.message ≡ record (in_conversation m result.conversation) {
            status = MessageState.contextualized;
          })
    unfolding contextualize
    contextualize-eq-ok m i result status h =
        let (answer, looked, run) =
          bind-eq-ok (find_active use_case i.channel_identity_id)
            (λ answer. resolve_conversation use_case request now answer >>= with_conversation) w
            h in
        let (c, resolved, run') =
          bind-eq-ok (resolve_conversation use_case request now answer) with_conversation w
            (sym (ap (λ p. p.0) run) ∙ h) in
        let v = (resolve_conversation use_case request now answer w).1 in
        let last : contextualize use_case request now m i w ≡ (
          ok (record {
            message = record (in_conversation m c) { status = MessageState.contextualized };
            conversation = c;
          }),
          v,
        ) =
          run ∙ run' ∙ rw (contextualizes (in_conversation m c) status) refl in
        let same' = ok_injective (sym h ∙ ap (λ p. p.0) last) in
        (
          subst (λ d. ConversationFrom i d (contextualize use_case request now m i w).1)
              (sym (ap (λ r. r.conversation) same'))
              (subst (ConversationFrom i c) (sym (ap (λ p. p.1) last))
                (resolve_conversation-eq-ok i answer c looked resolved)),
          ap (λ r. r.message) same'
              ∙ ap (λ d. record (in_conversation m d) { status = MessageState.contextualized })
                  (sym (ap (λ r. r.conversation) same')),
        )
      where
        with_conversation : Conversation → Exec (World use_case) ProcessInboundMessageResult
        with_conversation c =
            from (Message.transition_to (in_conversation m c) MessageState.contextualized)
            >>= λ final. return (record { message = final; conversation = c })
