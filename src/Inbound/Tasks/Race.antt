-- ===== src/Inbound/Tasks/Race.antt =====
-- Two tasks of application/use_cases/process_inbound_message.py that look for the conversation of one
-- sender at the same time.
use edge_copilot_backend.Prelude.{ℕ, String, none, [], ◌∷◌, ◌≡◌, ◌≢◌, refl, sym, ◌∙◌, ap}
use edge_copilot_backend.Values.{DateTime}
use edge_copilot_backend.Errors.{ok}
use edge_copilot_backend.Tasks.{Pool, turn_same, turn_world, turn_other, turn, turns}
use edge_copilot_backend.Identity.{ChannelIdentity}
use edge_copilot_backend.Message.{Message}
use edge_copilot_backend.Inbound.{
  ProcessInboundMessageRequest, ProcessInboundMessage, World, new_id, created_conversation,
}
use edge_copilot_backend.Inbound.Origin.{new_conversation}
use edge_copilot_backend.Inbound.Steps.{activates}
use edge_copilot_backend.Inbound.Tasks.{Place, seeking, saving, segment, advance}
use edge_copilot_backend.Inbound.Tasks.Exclusion.{run_task}

module _ (use_case : ProcessInboundMessage) (requests : ℕ → ProcessInboundMessageRequest)
    (nows : ℕ → DateTime) where
  abbrev drawn : World use_case → String
  drawn w = (use_case.id_generator.new_id w.ids).0

  -- A task that finds no active conversation stands before the save of a new one.
  seeks :
      (i t : ℕ) (message : Message) (sender : ChannelIdentity) (w : World use_case)
      → use_case.conversation_repository.find_active_for_channel_identity w.conversations
          sender.channel_identity_id
        ≡ ok none
      → advance use_case (requests i) (nows i) t (seeking message sender) w
        ≡ (saving message (new_conversation (requests i) (nows i) (drawn w)), (new_id use_case w).1)
  unfolding advance segment
  seeks i t message sender w h =
      rw (h, activates (created_conversation (requests i) (nows i) (drawn w)) (nows i) refl) refl

  turn-seeking :
      (s : Pool Place (World use_case)) (i : ℕ) (message : Message) (sender : ChannelIdentity)
      → s.place i ≡ seeking message sender
      → use_case.conversation_repository.find_active_for_channel_identity s.world.conversations
          sender.channel_identity_id
        ≡ ok none
      → ((turn (run_task use_case requests nows) i s).place i
          ≡ saving message (new_conversation (requests i) (nows i) (drawn s.world)))
        × ((turn (run_task use_case requests nows) i s).world ≡ (new_id use_case s.world).1)
  turn-seeking s i message sender at h =
      let one = seeks i s.time message sender s.world h in
      (
        turn_same (run_task use_case requests nows) s i at ∙ ap (λ p. p.0) one,
        turn_world (run_task use_case requests nows) s i at ∙ ap (λ p. p.1) one,
      )

  -- Two tasks that stand before the search for the active conversation of one sender, who has none:
  -- when both go on before either has saved, each stands before the save of a new conversation of its
  -- own, with ids drawn one after the other.
  pub two_conversations :
      (s : Pool Place (World use_case)) (i j : ℕ) (message message' : Message)
      (sender sender' : ChannelIdentity)
      → i ≢ j
      → s.place i ≡ seeking message sender
      → s.place j ≡ seeking message' sender'
      → sender'.channel_identity_id ≡ sender.channel_identity_id
      → use_case.conversation_repository.find_active_for_channel_identity s.world.conversations
          sender.channel_identity_id
        ≡ ok none
      → ((turns (run_task use_case requests nows) (i ∷ j ∷ []) s).place i
          ≡ saving message (new_conversation (requests i) (nows i) (drawn s.world)))
        × ((turns (run_task use_case requests nows) (i ∷ j ∷ []) s).place j
            ≡ saving message'
                (new_conversation (requests j) (nows j) (drawn (new_id use_case s.world).1)))
  unfolding turns
  two_conversations s i j message message' sender sender' other at at' one_sender absent =
      let first = turn (run_task use_case requests nows) i s in
      let (saves, world) = turn-seeking s i message sender at absent in
      let still : use_case.conversation_repository.find_active_for_channel_identity
            first.world.conversations sender'.channel_identity_id
          ≡ ok none =
        rw (ap (λ (w : World use_case). w.conversations) world, one_sender) absent in
      let (saves', _) =
        turn-seeking first j message' sender'
          (turn_other (run_task use_case requests nows) s i j other ∙ at') still in
      (
        turn_other (run_task use_case requests nows) first j i (λ e. other (sym e)) ∙ saves,
        saves' ∙ ap (λ w. saving message' (new_conversation (requests j) (nows j) (drawn w))) world,
      )
