-- ===== src/Tests/Authenticity.antt =====
-- A webhook that VerifyWebhook accepts, and its message through the Input Gateway.
use edge_copilot_backend.Prelude.{[], refl, true}
use edge_copilot_backend.Prelude.Text.{strip, lstrip, rstrip, is_space, is_ascii, drop_prefix}
use edge_copilot_backend.Values.{seconds}
use edge_copilot_backend.Time.{distance}
use edge_copilot_backend.StateMachine.{put, ensure_transition_allowed, successors}
use edge_copilot_backend.Gateway.{accepted, verify_webhook_signature, validate_webhook_envelope}
use edge_copilot_backend.Redis.{check_and_record}
use edge_copilot_backend.Webhook
use edge_copilot_backend.Webhook.Steps.{IsAccepted}
use edge_copilot_backend.Message
use edge_copilot_backend.Message.{message_transitions}
use edge_copilot_backend.Conversation
use edge_copilot_backend.Inbound.{
  execute, authenticate_source, validate_content, deduplicate, identify, contextualize,
  start_conversation,
}
use edge_copilot_backend.Service.Authenticity.{handled-IsAccepted}
use edge_copilot_backend.Tests.Gateway.{with_defaults, webhook, law}
use edge_copilot_backend.Tests.Inbound.{gateway, start, hello, outcome}
use edge_copilot_backend.Tests.Policy.{at}
use edge_copilot_backend.Tests.RedisModel.{alive}

handled-IsAccepted_example :
    IsAccepted with_defaults alive law [] 1000000000 webhook
      (record { aware = true; instant = seconds 1000 })
unfolding is_ascii drop_prefix verify_webhook_signature validate_webhook_envelope distance
    Webhook.execute execute authenticate_source validate_content deduplicate identify contextualize
    start_conversation Message.transition_to Conversation.transition_to ensure_transition_allowed
    successors message_transitions put check_and_record strip lstrip rstrip is_space
handled-IsAccepted_example =
    handled-IsAccepted with_defaults alive law gateway 1000000000 webhook
      (record { aware = true; instant = seconds 1000 }) [] accepted 10 (hello "subject") (at 10)
      start outcome refl refl refl
