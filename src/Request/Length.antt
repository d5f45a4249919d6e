-- ===== src/Request/Length.antt =====
-- How long the life of a request can be: it ends unless a human is asked again and again.
use edge_copilot_backend.Prelude.{
  ℕ, ◌+◌, ◌*◌, ◌≤◌, length, ◌<◌, ◌⊎◌, inl, inr, List, ◌≡◌, true, refl, ap, arith, if◌then◌else◌,
}
use edge_copilot_backend.StateMachine.{allows, successors, same}
use edge_copilot_backend.StateMachine.Laws.{times}
use edge_copilot_backend.Request.{
  RequestState, new, understanding, planning, waiting_confirmation, waiting_approval, authorized,
  executing, verifying, completed, denied, cancelled, expired, failed, partially_completed,
  requires_human, request_transitions, request_state_enum, Request, in_terminal, is_terminal,
}
use edge_copilot_backend.Request.History.{History, start, next, transition_to_inversion}

-- How far a state is on the way to an end.
abbrev stage : RequestState → ℕ
stage new = 0
stage understanding = 1
stage planning = 2
stage waiting_confirmation = 3
stage waiting_approval = 3
stage requires_human = 3
stage authorized = 4
stage executing = 5
stage verifying = 6
stage _ = 7

-- A transition goes on by a stage at least, or asks a human and then falls back by three at most.
stage_step :
    (s t : RequestState)
    → allows request_transitions s t ≡ true
    → stage s + 1 ≤ stage t + 4 * (if same t requires_human then 1 else 0)
unfolding successors
stage_step new new h = ground arith
stage_step understanding new h = ground arith
stage_step planning new h = ground arith
stage_step waiting_confirmation new h = ground arith
stage_step waiting_approval new h = ground arith
stage_step authorized new h = ground arith
stage_step executing new h = ground arith
stage_step verifying new h = ground arith
stage_step completed new h = ground arith
stage_step denied new h = ground arith
stage_step cancelled new h = ground arith
stage_step expired new h = ground arith
stage_step failed new h = ground arith
stage_step partially_completed new h = ground arith
stage_step requires_human new h = ground arith
stage_step _ _ h = ground arith

-- A request that has asked a human `k` times was moved at most 4 * `k` times more than its stage has
-- gone up.
length-stage :
    {first r : Request} {visited : List RequestState}
    → History first r visited
    → length visited + stage first.state ≤ stage r.state + 4 * times requires_human visited
unfolding times
length-stage {first} {r} (start same' none') =
    rw (none', ap (λ (x : Request). x.state) same') omega arith
length-stage {first} {r} (next {before} {earlier} target now past h latest) =
    let (allowed, result) = transition_to_inversion before target now h in
    let one = stage_step before.state target allowed in
    let all = length-stage past in rw (latest, ap (λ (x : Request). x.state) result) (omega arith)

last_stage : (s : RequestState) → (stage s < 7) ⊎ ((stage s ≡ 7) × (in_terminal s ≡ true))
last_stage new = inl (omega arith)
last_stage completed = inr (refl, refl)
last_stage denied = inr (refl, refl)
last_stage cancelled = inr (refl, refl)
last_stage expired = inr (refl, refl)
last_stage failed = inr (refl, refl)
last_stage partially_completed = inr (refl, refl)
last_stage _ = inl (omega arith)

-- A request that began as NEW and was handed to a human `k` times has gone through fewer than
-- 7 + 4 * `k` transitions, or else through exactly so many, and then it is terminal. So every
-- sequence of transitions comes to an end, unless a human is asked again and again.
pub request_ends :
    (first r : Request) (visited : List RequestState)
    → first.state ≡ new
    → History first r visited
    → (length visited < 7 + 4 * times requires_human visited)
      ⊎ ((length visited ≡ 7 + 4 * times requires_human visited) × (is_terminal r ≡ true))
unfolding is_terminal
request_ends first r visited begun past =
    let all : length visited ≤ stage r.state + 4 * times requires_human visited =
      omega (arith, length-stage past, ap stage begun) in
    ground (arith, all, last_stage r.state)
