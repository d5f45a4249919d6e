-- ===== src/Webhook.antt =====
-- application/use_cases/verify_webhook.py
pub mod Steps
pub mod Acceptance
pub mod Replay
pub mod Tasks
use edge_copilot_backend.Prelude.{
  ℕ, String, Bool, true, false, not, Option, List, [], ◌∷◌, length, if◌then◌else◌,
}
use edge_copilot_backend.Values.{DateTime}
use edge_copilot_backend.Errors.{Result}
use edge_copilot_backend.Exec.{Exec, return, from, ◌>>=◌}
use edge_copilot_backend.Gateway.{
  Bytes, Algorithm, Digest, WebhookSecurityConfig, WebhookValidationResult, rejected, accepted,
  verify_webhook_signature, validate_webhook_envelope,
}
use edge_copilot_backend.Ports.{ReplayGuard}

pub record VerifyWebhookRequest : Type 0 where
  pub payload : Bytes
  pub provided_signature : String
  pub secret : String
  pub event_timestamp : DateTime
  pub replay_key : String
  pub algorithm : Algorithm

-- The object: its guard, its configuration and its time to live. `digest` is what `hmac` computes.
pub record VerifyWebhook : Type 1 where
  pub digest : Digest
  pub replay_guard : ReplayGuard
  pub config : WebhookSecurityConfig
  pub replay_ttl_seconds : ℕ

-- The default of `replay_ttl_seconds`.
abbrev pub default_replay_ttl_seconds : ℕ
default_replay_ttl_seconds = 300

module _ (use_case : VerifyWebhook) where
  abbrev pub GuardState : Type 0
  GuardState = use_case.replay_guard.State

  -- The last step: the call of the guard, at the time `t` of its store.
  unfoldable pub check_replay : ℕ → VerifyWebhookRequest → Exec GuardState WebhookValidationResult
  check_replay t request = do
    is_first_occurrence ← λ s.
        use_case.replay_guard.check_and_record s t request.replay_key use_case.replay_ttl_seconds
    return (if is_first_occurrence then accepted else rejected "replay_detected")

  -- `execute(request, now=now)`
  unfoldable pub execute :
      ℕ → VerifyWebhookRequest → DateTime → Exec GuardState WebhookValidationResult
  unfolding check_replay
  execute t request now = do
    genuine ← from (
        verify_webhook_signature use_case.digest request.payload request.provided_signature
          request.secret request.algorithm)
    if not genuine then return (rejected "invalid_signature") else do
      envelope_result ← from (
          validate_webhook_envelope request.event_timestamp now (length request.payload)
            use_case.config)
      if not envelope_result.valid then return envelope_result else check_replay t request
