-- ===== src/Tests/Machines.antt =====
-- The state machines: domain/request, domain/messaging and domain/conversation.
use edge_copilot_backend.Prelude.{
  length, ◌<◌, ◌⊎◌, ◌+◌, ◌*◌, true, none, some, List, [], ◌∷◌, ◌≡◌, ◌↔◌, refl,
}
use edge_copilot_backend.Values.{DateTime}
use edge_copilot_backend.StateMachine.{allows, successors}
use edge_copilot_backend.Request
use edge_copilot_backend.Request.{
  Request, RequestState, request_state_enum, request_transitions, is_terminal,
}
use edge_copilot_backend.Request.History.{History-next}
use edge_copilot_backend.Request.Gates.{completed_gates}
use edge_copilot_backend.Request.Length.{request_ends}
use edge_copilot_backend.StateMachine.Laws.{times}
use edge_copilot_backend.Message
use edge_copilot_backend.Message.{Message, MessageState, message_state_enum, message_transitions}
use edge_copilot_backend.Message.Gates.{responded_gates}
use edge_copilot_backend.Conversation.{Conversation, ConversationState, conversation_state_enum}
use edge_copilot_backend.Conversation.Lives.{Lived, LeadsTo, lives_iff}
use edge_copilot_backend.Message.Length.{message_ends}

abbrev noon : DateTime
noon = record { aware = true; instant = 43200000000 }

abbrev request : RequestState → Request
request state = record {
  request_id = "r";
  conversation_id = "c";
  tenant_id = "t";
  organization_id = none;
  state = state;
  created_at = noon;
  updated_at = noon;
}

-- A request that runs through its gates.
abbrev to_planning : List RequestState
to_planning = RequestState.planning ∷ RequestState.understanding ∷ []

abbrev to_executing : List RequestState
to_executing = RequestState.executing ∷ RequestState.authorized ∷ to_planning

abbrev to_completed : List RequestState
to_completed = RequestState.completed ∷ RequestState.verifying ∷ to_executing

abbrev new_request : Request
new_request = request RequestState.new

request_executes : Request.History.History new_request (request RequestState.executing) to_executing
unfolding successors
request_executes =
    History-next _ _ RequestState.executing noon
      (History-next _ _ RequestState.authorized noon
        (History-next _ _ RequestState.planning noon
          (History-next _ _ RequestState.understanding noon (Request.History.start refl refl) refl)
          refl)
        refl)
      refl

request_completes :
    Request.History.History new_request (request RequestState.completed) to_completed
unfolding successors
request_completes =
    History-next _ _ RequestState.completed noon
      (History-next _ _ RequestState.verifying noon request_executes refl) refl

completed_gates_example :
    (earlier : List RequestState) × (to_completed
      ≡ RequestState.completed ∷ RequestState.verifying ∷ RequestState.executing
        ∷ RequestState.authorized ∷ earlier)
completed_gates_example =
    completed_gates new_request (request RequestState.completed) to_completed refl refl
      request_completes

request_ends_example :
    (length to_completed < 7 + 4 * times RequestState.requires_human to_completed)
    ⊎ ((length to_completed ≡ 7 + 4 * times RequestState.requires_human to_completed)
        × (is_terminal (request RequestState.completed) ≡ true))
request_ends_example =
    request_ends new_request (request RequestState.completed) to_completed refl request_completes

abbrev message : MessageState → Message
message status = record {
  message_id = "m";
  conversation_id = "c";
  sender = "s";
  channel = "web";
  timestamp = noon;
  correlation_id = "x";
  status = status;
}

-- A message that fails once, is retried, and is answered.
abbrev answered : List MessageState
answered =
    MessageState.responded ∷ MessageState.processed ∷ MessageState.understood
    ∷ MessageState.contextualized ∷ MessageState.identified ∷ MessageState.validated
    ∷ MessageState.received ∷ MessageState.retrying ∷ MessageState.failed ∷ []

message_step :
    (before : MessageState) (visited : List MessageState) (target : MessageState)
    → Message.History.History (message MessageState.received) (message before) visited
    → allows message_transitions before target ≡ true
    → Message.History.History (message MessageState.received) (message target) (target ∷ visited)
message_step before visited target past h =
    Message.History.next target past
      (Message.History.transition_to_accepts (message before) target h) refl

message_answered :
    Message.History.History
      (message MessageState.received)
      (message MessageState.responded)
      answered
unfolding successors message_transitions
message_answered =
    message_step MessageState.processed _ _
      (message_step MessageState.understood _ _
        (message_step MessageState.contextualized _ _
          (message_step MessageState.identified _ _
            (message_step MessageState.validated _ _
              (message_step MessageState.received _ _
                (message_step MessageState.retrying _ _
                  (message_step MessageState.failed _ _
                    (message_step MessageState.received _ _ (Message.History.start refl refl) refl)
                    refl)
                  refl)
                refl)
              refl)
            refl)
          refl)
        refl)
      refl

responded_gates_example :
    (source : Message) × (earlier : List MessageState) × (source.status ≡ MessageState.received)
    × Message.History.History (message MessageState.received) source earlier
    × (answered
        ≡ MessageState.responded ∷ MessageState.processed ∷ MessageState.understood
          ∷ MessageState.contextualized ∷ MessageState.identified ∷ MessageState.validated
          ∷ earlier)
responded_gates_example =
    responded_gates (message MessageState.received) (message MessageState.responded) answered refl
      refl message_answered

message_ends_example :
    (length answered < 7 + 8 * times MessageState.retrying answered)
    ⊎ ((length answered ≡ 7 + 8 * times MessageState.retrying answered)
        × (MessageState.responded ≡ MessageState.dead_letter))
message_ends_example =
    message_ends (message MessageState.received) (message MessageState.responded) answered refl
      message_answered

abbrev conversation : ConversationState → Conversation
conversation state = record {
  conversation_id = "c";
  tenant_id = "t";
  organization_id = some "o";
  channel = "web";
  state = state;
  created_at = noon;
  updated_at = noon;
}

abbrev to_idle : List ConversationState
to_idle = ConversationState.idle ∷ ConversationState.active ∷ []

lives_iff_example :
    Lived (conversation ConversationState.created) ConversationState.idle to_idle
    ↔ LeadsTo ConversationState.idle to_idle
lives_iff_example =
    lives_iff (conversation ConversationState.created) ConversationState.idle to_idle refl
