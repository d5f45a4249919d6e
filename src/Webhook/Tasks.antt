-- ===== src/Webhook/Tasks.antt =====
-- application/use_cases/verify_webhook.py under asyncio: `execute`, from one `await` to the next.
pub mod Alone
pub mod Exclusion
use edge_copilot_backend.Prelude.{ℕ, Bool, true, false, not, length, if◌then◌else◌}
use edge_copilot_backend.Values.{DateTime}
use edge_copilot_backend.Errors.{Result, ok}
use edge_copilot_backend.Exec.{Exec, return, from, ◌>>=◌}
use edge_copilot_backend.Gateway.{
  WebhookValidationResult, rejected, accepted, verify_webhook_signature, validate_webhook_envelope,
}
use edge_copilot_backend.Tasks.{landed}
use edge_copilot_backend.Webhook.{VerifyWebhookRequest, VerifyWebhook, GuardState}

-- Where a task of `execute` stands: before its start, at its one `await`, or at its end.
pub data Place : Type 0 where
  arrived checking : Place
  ended : Result WebhookValidationResult → Place

module _ (use_case : VerifyWebhook) (request : VerifyWebhookRequest) (now : DateTime) where
  abbrev pub check_envelope : Exec (GuardState use_case) Place
  check_envelope = do
    envelope_result ← from (
        validate_webhook_envelope request.event_timestamp now (length request.payload)
          use_case.config)
    return (if not envelope_result.valid then ended (ok envelope_result) else checking)

  -- The call of the guard, which handles it at the time `t`.
  abbrev pub ask_guard : ℕ → Exec (GuardState use_case) Bool
  ask_guard t s =
      use_case.replay_guard.check_and_record s t request.replay_key use_case.replay_ttl_seconds

  -- What a task does from the place where it stands.
  unfoldable pub segment : ℕ → Place → Exec (GuardState use_case) Place
  segment t arrived = do
    genuine ← from (
        verify_webhook_signature use_case.digest request.payload request.provided_signature
          request.secret request.algorithm)
    if not genuine then return (ended (ok (rejected "invalid_signature"))) else check_envelope
  segment t checking = do
    is_first_occurrence ← ask_guard t
    return (ended (ok (if is_first_occurrence then accepted else rejected "replay_detected")))
  segment t (ended result) = return (ended result)

  unfoldable pub advance : ℕ → Place → GuardState use_case → Place × GuardState use_case
  unfolding segment
  advance t place s = landed ended (segment t place s)
