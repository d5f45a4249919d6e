-- ===== src/Message/Length.antt =====
-- How long the life of a message can be: it ends unless it is retried again and again.
use edge_copilot_backend.Prelude.{
  ℕ, ◌+◌, ◌*◌, ◌≤◌, ◌<◌, ◌⊎◌, inl, inr, length, List, ◌≡◌, true, refl, ap, arith, if◌then◌else◌,
}
use edge_copilot_backend.StateMachine.{allows, successors, same}
use edge_copilot_backend.StateMachine.Laws.{times}
use edge_copilot_backend.Message.{
  MessageState, received, validated, identified, contextualized, understood, processed, responded,
  failed, retrying, dead_letter, message_transitions, message_state_enum, Message,
}
use edge_copilot_backend.Message.History.{History, start, next, transition_to_inversion}

-- How far a state is on the way to an end, counted from a retry.
abbrev stage : MessageState → ℕ
stage retrying = 0
stage received = 1
stage validated = 2
stage identified = 3
stage contextualized = 4
stage understood = 5
stage processed = 6
stage responded = 7
stage failed = 7
stage dead_letter = 8

-- A transition goes on by a stage at least, or is a retry and falls back by seven.
stage_step :
    (s t : MessageState)
    → allows message_transitions s t ≡ true
    → stage s + 1 ≤ stage t + 8 * (if same t retrying then 1 else 0)
unfolding message_transitions successors
stage_step received received h = ground arith
stage_step validated received h = ground arith
stage_step identified received h = ground arith
stage_step contextualized received h = ground arith
stage_step understood received h = ground arith
stage_step processed received h = ground arith
stage_step responded received h = ground arith
stage_step failed received h = ground arith
stage_step retrying received h = ground arith
stage_step dead_letter received h = ground arith
stage_step _ _ h = ground arith

-- A message that was retried `k` times was moved at most 8 * `k` times more than its stage has
-- gone up.
length-stage :
    {first m : Message} {visited : List MessageState}
    → History first m visited
    → length visited + stage first.status ≤ stage m.status + 8 * times retrying visited
unfolding times
length-stage (start same' none') = rw (none', ap (λ (x : Message). x.status) same') omega arith
length-stage (next {before} {earlier} target past h latest) =
    let (allowed, result) = transition_to_inversion before target h in
    let one = stage_step before.status target allowed in
    let all = length-stage past in rw (latest, ap (λ (x : Message). x.status) result) (omega arith)

last_stage : (s : MessageState) → (stage s < 8) ⊎ ((stage s ≡ 8) × (s ≡ dead_letter))
last_stage received = inl (omega arith)
last_stage dead_letter = inr (refl, refl)
last_stage _ = inl (omega arith)

-- A message that began as RECEIVED and was retried `k` times has gone through fewer than 7 + 8 * `k`
-- transitions, or else through exactly so many, and then it is a DEAD_LETTER. So the way of a message
-- comes to an end, unless it is retried again and again.
pub message_ends :
    (first m : Message) (visited : List MessageState)
    → first.status ≡ received
    → History first m visited
    → (length visited < 7 + 8 * times retrying visited)
      ⊎ ((length visited ≡ 7 + 8 * times retrying visited) × (m.status ≡ dead_letter))
message_ends first m visited begun past =
    let all : length visited + 1 ≤ stage m.status + 8 * times retrying visited =
      omega (arith, length-stage past, ap stage begun) in
    ground (arith, all, last_stage m.status)
