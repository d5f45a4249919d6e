-- ===== src/Webhook/Acceptance.antt =====
-- Exactly which webhooks application/use_cases/verify_webhook.py accepts.
use edge_copilot_backend.Prelude.{
  ℕ, String, Bool, true, false, ◌≡◌, ◌↔◌, refl, length, ap, sym, ◌∙◌,
}
use edge_copilot_backend.Values.{DateTime}
use edge_copilot_backend.Errors.{ok, ok_injective}
use edge_copilot_backend.Time.{IsAware}
use edge_copilot_backend.Gateway.{WebhookValidationResult, accepted}
use edge_copilot_backend.Gateway.Envelope.{EnvelopeFits, validate_webhook_envelope_iff}
use edge_copilot_backend.Ports.Laws.{Remembers}
use edge_copilot_backend.Webhook.{VerifyWebhookRequest, VerifyWebhook, GuardState, execute}
use edge_copilot_backend.Webhook.Steps.{IsGenuine, valid-IsAccepted, accept}

-- Over a guard that keeps its promises, and with time zones on both times, the use case answers
-- with a positive result exactly when the signature is verified, the envelope is within its limits,
-- and the guard does not hold the replay key.
pub execute-valid_iff :
    (use_case : VerifyWebhook) (held : GuardState use_case → ℕ → String → Bool)
    (law : Remembers use_case.replay_guard held use_case.replay_ttl_seconds)
    (s : GuardState use_case) (t : ℕ) (r : VerifyWebhookRequest) (now : DateTime)
    → IsAware r.event_timestamp
    → IsAware now
    → ((answer : WebhookValidationResult) × ((execute use_case t r now s).0 ≡ ok answer)
        × (answer.valid ≡ true))
      ↔ (IsGenuine use_case held law r
          × EnvelopeFits r.event_timestamp now (length r.payload) use_case.config
          × (held s t r.replay_key ≡ false))
execute-valid_iff use_case held law s t r now p q =
    let (result, validated, exact) =
      validate_webhook_envelope_iff r.event_timestamp now (length r.payload) use_case.config p q in
    (
      (λ (answer, h, positive).
          let a = valid-IsAccepted use_case held law s t r now answer h positive in
          let same' : a.result ≡ result = ok_injective (sym a.validated ∙ validated) in
          (a.genuine, exact.0 (rw same' at a.fits), a.fresh)),
      (λ (genuine, fits, fresh). (
        accepted,
        ap (λ p. p.0)
            (accept use_case held law s t r now result genuine validated (exact.1 fits) fresh),
        refl,
      )),
    )
