-- ===== src/Message/History.antt =====
-- Sequences of accepted transitions of a message.
use edge_copilot_backend.Prelude.{List, [], ◌∷◌, ◌≡◌, ◌≢◌, sym, ◌∙◌, ap, true}
use edge_copilot_backend.Errors.{ok}
use edge_copilot_backend.StateMachine.{allows}
use edge_copilot_backend.StateMachine.Laws.{guarded_inversion, guarded_ok}
use edge_copilot_backend.Message.{
  MessageState, received, message_transitions, message_state_enum, Message, transition_to,
}

-- `m` comes from `first` by accepted transitions; `visited` holds their targets, the last first.
pub data History (first : Message) : Message → List MessageState → Type 0 where
  start :
      {m : Message} {visited : List MessageState}
      → m ≡ first
      → visited ≡ []
      → History first m visited
  next :
      {before m : Message} {earlier visited : List MessageState} (target : MessageState)
      → History first before earlier
      → transition_to before target ≡ ok m
      → visited ≡ target ∷ earlier
      → History first m visited

-- An accepted transition is in the table, and sets `status` alone.
pub transition_to_inversion :
    (m : Message) (target : MessageState) {m' : Message}
    → transition_to m target ≡ ok m'
    → (allows message_transitions m.status target ≡ true) × (m' ≡ record m { status = target })
unfolding transition_to
transition_to_inversion m target h =
    guarded_inversion message_transitions "Message" m.status target (record m { status = target }) h

-- A transition of the table is accepted.
pub transition_to_accepts :
    (m : Message) (target : MessageState)
    → allows message_transitions m.status target ≡ true
    → transition_to m target ≡ ok (record m { status = target })
unfolding transition_to
transition_to_accepts m target h =
    guarded_ok message_transitions "Message" m.status target (record m { status = target }) h

-- The last accepted transition of a history, into the state `t`.
pub record LastStep (first : Message) (visited : List MessageState) (t : MessageState)
    : Type 0 where
  pub before : Message
  pub earlier : List MessageState
  pub past : History first before earlier
  pub allowed : allows message_transitions before.status t ≡ true
  pub latest : visited ≡ t ∷ earlier

-- A message that began as RECEIVED and stands in another state was moved there last.
pub last_step :
    {first m : Message} {visited : List MessageState} (t : MessageState)
    → first.status ≡ received
    → m.status ≡ t
    → received ≢ t
    → History first m visited
    → LastStep first visited t
last_step t begun at other (start same' none') =
    absurd (other (sym begun ∙ sym (ap (λ (x : Message). x.status) same') ∙ at))
last_step t begun at other (next {before} {earlier} target past h latest) =
    let (allowed, result) = transition_to_inversion before target h in
    let reached : target ≡ t = sym (ap (λ (x : Message). x.status) result) ∙ at in
    record {
      before = before;
      earlier = earlier;
      past = past;
      allowed = rw reached at allowed;
      latest = rw reached at latest;
    }
