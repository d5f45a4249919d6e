-- ===== src/Conversation/History.antt =====
-- Sequences of accepted transitions of a conversation.
use edge_copilot_backend.Prelude.{List, [], ◌∷◌, ◌≡◌, true}
use edge_copilot_backend.Values.{DateTime}
use edge_copilot_backend.Errors.{ok}
use edge_copilot_backend.StateMachine.{allows}
use edge_copilot_backend.StateMachine.Laws.{guarded_inversion, guarded_ok}
use edge_copilot_backend.Conversation.{
  ConversationState, conversation_transitions, conversation_state_enum, Conversation, transition_to,
}

-- `c` comes from `first` by accepted transitions; `visited` holds their targets, the last first.
pub data History (first : Conversation) : Conversation → List ConversationState → Type 0 where
  start :
      {c : Conversation} {visited : List ConversationState}
      → c ≡ first
      → visited ≡ []
      → History first c visited
  next :
      {before c : Conversation} {earlier visited : List ConversationState}
      (target : ConversationState) (now : DateTime)
      → History first before earlier
      → transition_to before target now ≡ ok c
      → visited ≡ target ∷ earlier
      → History first c visited

-- An accepted transition is in the table, and sets `state` and `updated_at` alone.
pub transition_to_inversion :
    (c : Conversation) (target : ConversationState) (now : DateTime) {c' : Conversation}
    → transition_to c target now ≡ ok c'
    → (allows conversation_transitions c.state target ≡ true)
      × (c' ≡ record c { state = target; updated_at = now })
unfolding transition_to
transition_to_inversion c target now h =
    guarded_inversion conversation_transitions "Conversation" c.state target
      (record c { state = target; updated_at = now }) h

-- A transition of the table is accepted.
pub transition_to_accepts :
    (c : Conversation) (target : ConversationState) (now : DateTime)
    → allows conversation_transitions c.state target ≡ true
    → transition_to c target now ≡ ok (record c { state = target; updated_at = now })
unfolding transition_to
transition_to_accepts c target now h =
    guarded_ok conversation_transitions "Conversation" c.state target
      (record c { state = target; updated_at = now }) h
