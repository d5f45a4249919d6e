-- ===== src/Request.antt =====
-- domain/request/request.py
pub mod History
pub mod Gates
pub mod Ends
pub mod Length
pub mod Intent
use edge_copilot_backend.Prelude.{
  String, Bool, true, Option, none, some, List, [], ◌∷◌, ◌++◌, map, ◌≡◌, refl, ◌==◌, any,
  if◌then◌else◌,
}
use edge_copilot_backend.Values.{DateTime}
use edge_copilot_backend.Errors.{Result, ok, ◌>>=◌, ◌>>◌}
use edge_copilot_backend.StateMachine.{StrEnum, same, Transitions, put, ensure_transition_allowed}

pub data RequestState : Type 0 where
  new understanding planning waiting_confirmation waiting_approval authorized executing verifying
        completed denied cancelled expired failed partially_completed requires_human :
      RequestState

abbrev request_state_name : RequestState → String
request_state_name new = "NEW"
request_state_name understanding = "UNDERSTANDING"
request_state_name planning = "PLANNING"
request_state_name waiting_confirmation = "WAITING_CONFIRMATION"
request_state_name waiting_approval = "WAITING_APPROVAL"
request_state_name authorized = "AUTHORIZED"
request_state_name executing = "EXECUTING"
request_state_name verifying = "VERIFYING"
request_state_name completed = "COMPLETED"
request_state_name denied = "DENIED"
request_state_name cancelled = "CANCELLED"
request_state_name expired = "EXPIRED"
request_state_name failed = "FAILED"
request_state_name partially_completed = "PARTIALLY_COMPLETED"
request_state_name requires_human = "REQUIRES_HUMAN"

abbrev pub request_state_value : RequestState → String
request_state_value new = "new"
request_state_value understanding = "understanding"
request_state_value planning = "planning"
request_state_value waiting_confirmation = "waiting_confirmation"
request_state_value waiting_approval = "waiting_approval"
request_state_value authorized = "authorized"
request_state_value executing = "executing"
request_state_value verifying = "verifying"
request_state_value completed = "completed"
request_state_value denied = "denied"
request_state_value cancelled = "cancelled"
request_state_value expired = "expired"
request_state_value failed = "failed"
request_state_value partially_completed = "partially_completed"
request_state_value requires_human = "requires_human"

unfoldable pub request_state_of_value : String → Option RequestState
request_state_of_value text =
    if text == "new"
    then some new
    else if text == "understanding"
    then some understanding
    else if text == "planning"
    then some planning
    else if text == "waiting_confirmation"
    then some waiting_confirmation
    else if text == "waiting_approval"
    then some waiting_approval
    else if text == "authorized"
    then some authorized
    else if text == "executing"
    then some executing
    else if text == "verifying"
    then some verifying
    else if text == "completed"
    then some completed
    else if text == "denied"
    then some denied
    else if text == "cancelled"
    then some cancelled
    else if text == "expired"
    then some expired
    else if text == "failed"
    then some failed
    else if text == "partially_completed"
    then some partially_completed
    else if text == "requires_human"
    then some requires_human
    else none

pub request_state_of_value_lem :
    (a : RequestState) → request_state_of_value (request_state_value a) ≡ some a
unfolding request_state_of_value
request_state_of_value_lem new = refl
request_state_of_value_lem understanding = refl
request_state_of_value_lem planning = refl
request_state_of_value_lem waiting_confirmation = refl
request_state_of_value_lem waiting_approval = refl
request_state_of_value_lem authorized = refl
request_state_of_value_lem executing = refl
request_state_of_value_lem verifying = refl
request_state_of_value_lem completed = refl
request_state_of_value_lem denied = refl
request_state_of_value_lem cancelled = refl
request_state_of_value_lem expired = refl
request_state_of_value_lem failed = refl
request_state_of_value_lem partially_completed = refl
request_state_of_value_lem requires_human = refl

instance abbrev pub request_state_enum : StrEnum RequestState
request_state_enum = record {
  class_name = "RequestState";
  member_name = request_state_name;
  value = request_state_value;
  of_value = request_state_of_value;
  of_value-value = request_state_of_value_lem;
}

-- `_TERMINAL`
abbrev pub terminal : List RequestState
terminal = completed ∷ denied ∷ cancelled ∷ expired ∷ failed ∷ partially_completed ∷ []

-- `_ALLOWED_TRANSITIONS`
abbrev pub request_transitions : Transitions RequestState
request_transitions =
    (new, understanding ∷ cancelled ∷ [])
    ∷ (understanding, planning ∷ requires_human ∷ cancelled ∷ expired ∷ [])
    ∷ (
      planning,
      waiting_confirmation ∷ waiting_approval ∷ authorized ∷ denied ∷ cancelled ∷ expired
          ∷ requires_human ∷ [],
    )
    ∷ (waiting_confirmation, authorized ∷ denied ∷ cancelled ∷ expired ∷ [])
    ∷ (waiting_approval, authorized ∷ denied ∷ cancelled ∷ expired ∷ requires_human ∷ [])
    ∷ (authorized, executing ∷ cancelled ∷ expired ∷ [])
    ∷ (executing, verifying ∷ failed ∷ partially_completed ∷ [])
    ∷ (verifying, completed ∷ failed ∷ partially_completed ∷ requires_human ∷ [])
    ∷ (requires_human, authorized ∷ denied ∷ cancelled ∷ [])
    ∷ map (λ state. (state, [])) terminal

pub record Request : Type 0 where
  pub request_id : String
  pub conversation_id : String
  pub tenant_id : String
  pub organization_id : Option String
  pub state : RequestState
  pub created_at : DateTime
  pub updated_at : DateTime

-- `state in _TERMINAL`
abbrev pub in_terminal : RequestState → Bool
in_terminal state = any (λ t. same t state) terminal

unfoldable pub is_terminal : Request → Bool
is_terminal r = in_terminal r.state

unfoldable pub transition_to : Request → RequestState → DateTime → Result Request
transition_to r target now = do
  ensure_transition_allowed r.state target request_transitions "Request"
  ok (record {
    request_id = r.request_id;
    conversation_id = r.conversation_id;
    tenant_id = r.tenant_id;
    organization_id = r.organization_id;
    state = target;
    created_at = r.created_at;
    updated_at = now;
  })
