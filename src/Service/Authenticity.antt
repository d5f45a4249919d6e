-- ===== src/Service/Authenticity.antt =====
-- A webhook through application/use_cases/verify_webhook.py, and its message through
-- application/use_cases/process_inbound_message.py.
use edge_copilot_backend.Prelude.{ℕ, String, Bool, Option, some, true, ◌≡◌}
use edge_copilot_backend.Values.{DateTime}
use edge_copilot_backend.Errors.{ok}
use edge_copilot_backend.Gateway.{WebhookValidationResult}
use edge_copilot_backend.Ports.Laws.{Remembers}
use edge_copilot_backend.Webhook
use edge_copilot_backend.Webhook.{VerifyWebhookRequest, VerifyWebhook, GuardState}
use edge_copilot_backend.Webhook.Steps.{IsAccepted, valid-IsAccepted}
use edge_copilot_backend.Inbound
use edge_copilot_backend.Inbound.{
  ProcessInboundMessageRequest, ProcessInboundMessageResult, ProcessInboundMessage, World,
}
use edge_copilot_backend.Inbound.Steps.{SourceAccepted}
use edge_copilot_backend.Inbound.Handling.{execute-IsHandled}

validated :
    (validation : Option WebhookValidationResult) (answer : WebhookValidationResult)
    → validation ≡ some answer
    → SourceAccepted validation
    → answer.valid ≡ true
validated validation answer same' h = rw same' at h

module _ (verifier : VerifyWebhook) (held : GuardState verifier → ℕ → String → Bool)
    (law : Remembers verifier.replay_guard held verifier.replay_ttl_seconds)
    (gateway : ProcessInboundMessage) where
  -- Over a guard of webhooks that keeps its promises: a message that the Input Gateway returns, with
  -- the answer of VerifyWebhook as its validation, came in a webhook with a genuine signature and a
  -- valid envelope, whose replay key was new when it was verified and was recorded then. This holds
  -- for every answer that VerifyWebhook can give, and whatever the gateway's own ports hold.
  pub handled-IsAccepted :
      (t : ℕ) (webhook : VerifyWebhookRequest) (seen : DateTime) (s : GuardState verifier)
      (answer : WebhookValidationResult) (u : ℕ) (request : ProcessInboundMessageRequest)
      (now : DateTime) (w : World gateway) (result : ProcessInboundMessageResult)
      → (Webhook.execute verifier t webhook seen s).0 ≡ ok answer
      → request.webhook_validation ≡ some answer
      → (Inbound.execute gateway u request now w).0 ≡ ok result
      → IsAccepted verifier held law s t webhook seen
  handled-IsAccepted t webhook seen s answer u request now w result verified carried handled =
      let h = execute-IsHandled gateway u request now w result handled in
      valid-IsAccepted verifier held law s t webhook seen answer verified
        (validated request.webhook_validation answer carried h.passes.0)
