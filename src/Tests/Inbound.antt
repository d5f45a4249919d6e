-- ===== src/Tests/Inbound.antt =====
-- The Input Gateway: application/use_cases/process_inbound_message.py.
use edge_copilot_backend.Prelude.{
  ℕ, String, suc, none, some, List, [], ◌∷◌, ◌≡◌, refl, arith, if◌then◌else◌, ◌==◌,
}
use edge_copilot_backend.Prelude.Text.{strip, lstrip, rstrip, is_space}
use edge_copilot_backend.Errors.{ok, raise}
use edge_copilot_backend.StateMachine.{put, ensure_transition_allowed, successors}
use edge_copilot_backend.Gateway.{accepted}
use edge_copilot_backend.Identity.{Channel, IdentityStatus, VerificationStatus, ChannelIdentity}
use edge_copilot_backend.Message
use edge_copilot_backend.Message.{message_transitions}
use edge_copilot_backend.Conversation
use edge_copilot_backend.Conversation.{Conversation}
use edge_copilot_backend.Ports.{ChannelIdentityRepository, ConversationRepository, IdGenerator}
use edge_copilot_backend.Redis.{RedisReplayGuard, check_and_record}
use edge_copilot_backend.Redis.Guard.{RedisReplayGuard-Remembers}
use edge_copilot_backend.Inbound.{
  ProcessInboundMessageRequest, ProcessInboundMessageResult, ProcessInboundMessage, World, execute,
  authenticate_source, validate_content, deduplicate, identify, contextualize, start_conversation,
  default_dedup_ttl_seconds, duplicate, dedup_key,
}
use edge_copilot_backend.Inbound.Origin.{new_conversation}
use edge_copilot_backend.Inbound.Handling.{IsHandled, handed_on, execute-IsHandled}
use edge_copilot_backend.Inbound.Duplicates.{Delivery, handle, serve, second_is_duplicate}
use edge_copilot_backend.Inbound.Keys.{parse_key, parse_key-dedup_key}
use edge_copilot_backend.Tests.Policy.{at}
use edge_copilot_backend.Tests.RedisModel.{alive, expiry, redis_model, redis_model-SetsOnce}

abbrev pub known_sender : ChannelIdentity
known_sender = record {
  channel_identity_id = "ci";
  user_id = "u";
  channel = Channel.whatsapp;
  provider = "meta";
  provider_subject_id = "subject";
  phone_hash = none;
  encrypted_contact = none;
  verification_status = VerificationStatus.verified;
  verified_at = none;
  status = IdentityStatus.active;
  created_at = at 0;
  updated_at = at 0;
}

-- A repository that knows one sender.
abbrev identities : ChannelIdentityRepository
identities = record {
  State = Unit {0};
  find_by_provider_subject =
      λ s channel provider subject. ok (if subject == "subject" then some known_sender else none);
}

-- A repository without an active conversation, which keeps what is saved.
abbrev conversations : ConversationRepository
conversations = record {
  State = List Conversation;
  find_active_for_channel_identity = λ s channel_identity_id. ok none;
  save = λ s conversation. (ok tt, conversation ∷ s);
}

abbrev ids : IdGenerator
ids = record { State = ℕ; new_id = λ n. ("id", suc n) }

abbrev pub gateway : ProcessInboundMessage
gateway = record {
  channel_identity_repository = identities;
  conversation_repository = conversations;
  replay_guard = RedisReplayGuard redis_model;
  id_generator = ids;
  dedup_ttl_seconds = default_dedup_ttl_seconds;
}

abbrev pub start : World gateway
start = record { identities = tt; conversations = []; guard = []; ids = 0 }

abbrev pub hello : String → ProcessInboundMessageRequest
hello subject = record {
  channel = Channel.whatsapp;
  provider = "meta";
  provider_subject_id = subject;
  provider_message_id = "m1";
  content = " hello";
  received_at = at 9;
  correlation_id = "corr";
  tenant_id = "t";
  organization_id = none;
  webhook_validation = some accepted;
}

abbrev pub outcome : ProcessInboundMessageResult
outcome = record {
  message = handed_on (hello "subject") "id" "id";
  conversation = new_conversation (hello "subject") (at 10) "id";
}

execute-IsHandled_example :
    IsHandled gateway 10
      (hello "subject")
      (at 10)
      start
      outcome
      (execute gateway 10 (hello "subject") (at 10) start).1
unfolding execute authenticate_source validate_content deduplicate identify contextualize
    start_conversation Message.transition_to Conversation.transition_to ensure_transition_allowed
    successors message_transitions put check_and_record strip lstrip rstrip is_space
execute-IsHandled_example =
    execute-IsHandled gateway 10 (hello "subject") (at 10) start outcome refl

abbrev first_delivery : Delivery
first_delivery = record { time = 10; request = hello "stranger"; now = at 10 }

abbrev second_delivery : Delivery
second_delivery = record { time = 60000000; request = hello "subject"; now = at 60000000 }

second_is_duplicate_example :
    (handle gateway second_delivery (handle gateway first_delivery start).1).0
    ≡ raise (duplicate (hello "subject"))
unfolding serve strip lstrip rstrip is_space
second_is_duplicate_example =
    second_is_duplicate gateway alive
      (RedisReplayGuard-Remembers redis_model expiry default_dedup_ttl_seconds redis_model-SetsOnce
        (omega arith))
      first_delivery second_delivery [] start (handle gateway first_delivery start).1 (refl, refl)
      (refl, refl) refl refl (omega arith) (omega arith) tt refl

parse_key-dedup_key_example :
    parse_key (dedup_key (hello "subject")) ≡ some (Channel.whatsapp, "meta", "m1")
parse_key-dedup_key_example =
    parse_key-dedup_key (hello "subject") (refl, (refl, (refl, (refl, tt))))
