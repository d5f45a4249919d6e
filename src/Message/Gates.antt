-- ===== src/Message/Gates.antt =====
-- The table of domain/messaging/message.py, which the code builds from the order of the happy path,
-- and the way of a message through it.
use edge_copilot_backend.Prelude.{
  ℕ, ◌+◌, ◌<◌, ◌≢◌, ltb, List, ◌∷◌, ◌≡◌, ◌↔◌, ◌⊎◌, refl, ap, ◌∙◌, true, arith,
}
use edge_copilot_backend.StateMachine.{allows, successors}
use edge_copilot_backend.Message.{
  MessageState, received, validated, identified, contextualized, understood, processed, responded,
  failed, retrying, dead_letter, message_transitions, message_state_enum, Message,
}
use edge_copilot_backend.Message.History.{History, last_step}

-- The place of a state on the happy path; the other states come after it.
abbrev pub rank : MessageState → ℕ
rank received = 0
rank validated = 1
rank identified = 2
rank contextualized = 3
rank understood = 4
rank processed = 5
rank responded = 6
rank failed = 7
rank retrying = 8
rank dead_letter = 9

-- The transitions that the module's docstring lists: one step along the happy path, or from any of
-- its states but the last to FAILED; from FAILED and RETRYING to DEAD_LETTER; a retry.
abbrev Permitted : MessageState → MessageState → Type 0
Permitted s t =
    ((rank s < 6) × (rank t ≡ rank s + 1))
    ⊎ ((rank s < 6) × (t ≡ failed))
    ⊎ ((s ≡ failed) × (t ≡ retrying))
    ⊎ ((s ≡ failed) × (t ≡ dead_letter))
    ⊎ ((s ≡ retrying) × (t ≡ received))
    ⊎ ((s ≡ retrying) × (t ≡ dead_letter))

-- The table that the comprehension and the assignments build allows a transition exactly when it
-- is one step along the happy path, a failure before its end, a retry, or a dead letter.
message_transitions_iff :
    (s t : MessageState) → (allows message_transitions s t ≡ true) ↔ Permitted s t
unfolding message_transitions successors
message_transitions_iff received received = ground arith
message_transitions_iff validated received = ground arith
message_transitions_iff identified received = ground arith
message_transitions_iff contextualized received = ground arith
message_transitions_iff understood received = ground arith
message_transitions_iff processed received = ground arith
message_transitions_iff responded received = ground arith
message_transitions_iff failed received = ground arith
message_transitions_iff retrying received = ground arith
message_transitions_iff dead_letter received = ground arith
message_transitions_iff _ _ = ground arith

before_validated : (s : MessageState) → allows message_transitions s validated ≡ true → s ≡ received
unfolding message_transitions successors
before_validated received h = refl
before_validated _ h = cc

before_identified :
    (s : MessageState) → allows message_transitions s identified ≡ true → s ≡ validated
unfolding message_transitions successors
before_identified validated h = refl
before_identified _ h = cc

before_contextualized :
    (s : MessageState) → allows message_transitions s contextualized ≡ true → s ≡ identified
unfolding message_transitions successors
before_contextualized identified h = refl
before_contextualized _ h = cc

before_understood :
    (s : MessageState) → allows message_transitions s understood ≡ true → s ≡ contextualized
unfolding message_transitions successors
before_understood contextualized h = refl
before_understood _ h = cc

before_processed :
    (s : MessageState) → allows message_transitions s processed ≡ true → s ≡ understood
unfolding message_transitions successors
before_processed understood h = refl
before_processed _ h = cc

before_responded :
    (s : MessageState) → allows message_transitions s responded ≡ true → s ≡ processed
unfolding message_transitions successors
before_responded processed h = refl
before_responded _ h = cc

-- RECEIVED is none of the later states.
not_received : (t : MessageState) → ltb 0 (rank t) ≡ true → received ≢ t
not_received t h e = ground (arith, ap rank e)

-- A message that began as RECEIVED and is RESPONDED ran the whole happy path, in its order and
-- without a detour, by its last transitions, out of a message that stood in RECEIVED.
pub responded_gates :
    (first m : Message) (visited : List MessageState)
    → first.status ≡ received
    → m.status ≡ responded
    → History first m visited
    → (source : Message) × (earlier : List MessageState) × (source.status ≡ received)
      × History first source earlier
      × (visited
          ≡ responded ∷ processed ∷ understood ∷ contextualized ∷ identified ∷ validated ∷ earlier)
responded_gates first m visited begun at h =
    let six = last_step responded begun at (not_received responded refl) h in
    let five =
      last_step processed begun (before_responded _ six.allowed) (not_received processed refl)
        six.past in
    let four =
      last_step understood begun (before_processed _ five.allowed) (not_received understood refl)
        five.past in
    let three =
      last_step contextualized begun (before_understood _ four.allowed)
        (not_received contextualized refl) four.past in
    let two =
      last_step identified begun (before_contextualized _ three.allowed)
        (not_received identified refl) three.past in
    let one =
      last_step validated begun (before_identified _ two.allowed) (not_received validated refl)
        two.past in
    (
      one.before,
      one.earlier,
      before_validated _ one.allowed,
      one.past,
      six.latest
          ∙ ap (λ l. responded ∷ l) five.latest
          ∙ ap (λ l. responded ∷ processed ∷ l) four.latest
          ∙ ap (λ l. responded ∷ processed ∷ understood ∷ l) three.latest
          ∙ ap (λ l. responded ∷ processed ∷ understood ∷ contextualized ∷ l) two.latest
          ∙ ap (λ l. responded ∷ processed ∷ understood ∷ contextualized ∷ identified ∷ l)
              one.latest,
    )
