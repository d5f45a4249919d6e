-- ===== src/Tests/Interleaving.antt =====
-- Tasks of the Input Gateway and of the SurrealDB client that run at the same time.
use edge_copilot_backend.Prelude.{some, ℕ, zero, suc, [], ◌∷◌, ◌≡◌, refl, arith}
use edge_copilot_backend.Prelude.Text.{strip, lstrip, rstrip, is_space}
use edge_copilot_backend.Values.{DateTime}
use edge_copilot_backend.StateMachine.{put, ensure_transition_allowed, successors}
use edge_copilot_backend.Message
use edge_copilot_backend.Message.{message_transitions}
use edge_copilot_backend.Conversation
use edge_copilot_backend.Redis.{check_and_record}
use edge_copilot_backend.Redis.Guard.{RedisReplayGuard-Remembers}
use edge_copilot_backend.Tasks.{Pool, turn, turns, here, Reach-turns}
use edge_copilot_backend.Inbound.{
  ProcessInboundMessageRequest, authenticate_source, validate_content, default_dedup_ttl_seconds,
  World,
}
use edge_copilot_backend.Inbound.Origin.{new_conversation}
use edge_copilot_backend.Inbound.Tasks.{Place, arrived, saving, segment, advance}
use edge_copilot_backend.Inbound.Tasks.Exclusion.{
  Watched, run_task, run_watched, opening, past_guard_once,
}
use edge_copilot_backend.Inbound.Tasks.Untouched.{Untouched}
use edge_copilot_backend.Inbound.Tasks.Race.{two_conversations}
use edge_copilot_backend.Surreal.Client
use edge_copilot_backend.Surreal.Client.{ClientWorld, connect}
use edge_copilot_backend.Surreal.Client.Tasks.{begun, returned}
use edge_copilot_backend.Surreal.Client.Tasks.Race.{Accepts, two_connections}
use edge_copilot_backend.Errors.{ok}
use edge_copilot_backend.Tests.Surreal.{client, disconnected}
use edge_copilot_backend.Tests.Inbound.{gateway, start, hello, known_sender}
use edge_copilot_backend.Tests.Policy.{at}
use edge_copilot_backend.Tests.RedisModel.{alive, expiry, redis_model, redis_model-SetsOnce}

-- Task 0 handles one message of the sender, and the others handle another.
abbrev messages : ℕ → ProcessInboundMessageRequest
messages zero = hello "subject"
messages (suc i) = record (hello "subject") { provider_message_id = "m2" }

abbrev clock : ℕ → DateTime
clock i = at 10

abbrev watched : ℕ → ℕ → Watched → World gateway → Watched × World gateway
watched = run_watched gateway messages clock

abbrev step_of : ℕ → ℕ → Place → World gateway → Place × World gateway
step_of = run_task gateway messages clock

-- Tasks 1 and 2 handle the same message; task 1 gets past the guard, and task 2 is refused.
abbrev two_deliveries : Pool Watched (World gateway)
two_deliveries = turns watched (1 ∷ 2 ∷ 1 ∷ 2 ∷ []) (opening gateway messages clock 10 start)

past_guard_once_example : ◌≡◌ {A = ℕ} 1 1
unfolding turns turn advance segment check_and_record strip lstrip rstrip is_space
    Message.transition_to ensure_transition_allowed successors message_transitions put
    authenticate_source validate_content
past_guard_once_example =
    past_guard_once gateway messages clock alive
      (RedisReplayGuard-Remembers redis_model expiry default_dedup_ttl_seconds redis_model-SetsOnce
        (omega arith))
      10 start two_deliveries 1 1 (Reach-turns watched (1 ∷ 2 ∷ 1 ∷ 2 ∷ []) here) (omega arith) refl
      refl refl

-- Tasks 0 and 1 have both identified the sender.
abbrev both_seek : Pool Place (World gateway)
both_seek =
    turns step_of (0 ∷ 1 ∷ 0 ∷ 1 ∷ 0 ∷ 1 ∷ [])
      (record { time = 10; world = start; place = λ i. arrived })

abbrev identified : ℕ → Message.Message
identified i = record {
  message_id = "id";
  conversation_id = "";
  sender = "subject";
  channel = "whatsapp";
  timestamp = at 9;
  correlation_id = "corr";
  status = Message.MessageState.identified;
}

two_conversations_example :
    ((turns step_of (0 ∷ 1 ∷ []) both_seek).place 0
      ≡ saving (identified 0) (new_conversation (messages 0) (at 10) "id"))
    × ((turns step_of (0 ∷ 1 ∷ []) both_seek).place 1
        ≡ saving (identified 1) (new_conversation (messages 1) (at 10) "id"))
unfolding turns turn advance segment check_and_record strip lstrip rstrip is_space
    Message.transition_to Conversation.transition_to ensure_transition_allowed successors
    message_transitions put authenticate_source validate_content
two_conversations_example =
    two_conversations gateway messages clock both_seek 0 1 (identified 0) (identified 1)
      known_sender known_sender (λ e. omega (arith, e)) refl refl refl refl

client-Accepts : Accepts client
client-Accepts = record { connects = λ s c. refl; signs_in = λ s c. refl; selects = λ s c. refl }

-- Every task is about to call `connect`.
abbrev callers : Pool (Client.Tasks.Place ℕ) (ClientWorld client)
callers = record { time = 0; world = disconnected; place = λ i. begun }

abbrev callers_done : Pool (Client.Tasks.Place ℕ) (ClientWorld client)
callers_done =
    turns (Client.Tasks.Race.run_task client) (0 ∷ 1 ∷ 0 ∷ 1 ∷ 0 ∷ 1 ∷ 0 ∷ 1 ∷ []) callers

two_connections_example :
    (callers_done.place 0 ≡ returned (ok 3))
    × (callers_done.place 1 ≡ returned (ok 4))
    × (callers_done.world.connection ≡ some 4)
two_connections_example =
    two_connections client 0 1 (λ e. omega (arith, e)) client-Accepts callers refl refl refl
