-- ===== src/Webhook/Tasks/Alone.antt =====
-- A task of application/use_cases/verify_webhook.py that runs with no other in between does what
-- `execute` does.
use edge_copilot_backend.Prelude.{
  ℕ, suc, ◌≤◌, true, false, not, length, Bool, Bool-cases, inl, inr, ◌≡◌, refl, arith,
  if◌then◌else◌,
}
use edge_copilot_backend.Values.{DateTime}
use edge_copilot_backend.Errors.{Result, ok, raise, Result-cases}
use edge_copilot_backend.Exec.{Exec, from, return, resume}
use edge_copilot_backend.Gateway.{
  WebhookValidationResult, rejected, accepted, verify_webhook_signature, validate_webhook_envelope,
}
use edge_copilot_backend.Tasks.Alone.{Lands, resume-Lands, alone, alone_lem}
use edge_copilot_backend.Webhook.{
  VerifyWebhookRequest, VerifyWebhook, GuardState, check_replay, execute,
}
use edge_copilot_backend.Webhook.Tasks.{
  Place, arrived, checking, ended, check_envelope, ask_guard, segment,
}

module _ (use_case : VerifyWebhook) (request : VerifyWebhookRequest) (now : DateTime) (t : ℕ) where
  -- What is left of `execute` at a place.
  abbrev remaining : Place → Exec (GuardState use_case) WebhookValidationResult
  remaining arrived = execute use_case t request now
  remaining checking = check_replay use_case t request
  remaining (ended result) = from result

  answered :
      (p : Result Bool × GuardState use_case)
      → resume (λ b. return (if b then accepted else rejected "replay_detected")) p
        ≡ resume remaining (
            resume
              (λ b. return (ended (ok (if b then accepted else rejected "replay_detected"))))
              p)
  answered (ok b, s) = refl
  answered (raise e, s) = refl

  segment-remaining :
      (place : Place) (s : GuardState use_case)
      → remaining place s ≡ resume remaining (segment use_case request now t place s)
  unfolding segment execute check_replay
  segment-remaining arrived s =
      elim (Result-cases (
        verify_webhook_signature use_case.digest request.payload request.provided_signature
          request.secret request.algorithm)) [
            | inr (e, h) ↦ rw h refl
            | inl (false, h) ↦ rw h refl
            | inl (true, h) ↦
                elim (Result-cases (
                  validate_webhook_envelope request.event_timestamp now (length request.payload)
                    use_case.config)) [
                      | inr (e, k) ↦ rw (h, k) refl
                      | inl (r, k) ↦ elim (Bool-cases r.valid) [
                        | inl fits ↦ rw (h, k, fits) refl
                        | inr not' ↦ rw (h, k, not') refl
                      ]
                    ]
          ]
  segment-remaining checking s = answered (ask_guard use_case request now t s)
  segment-remaining (ended result) s = refl

  abbrev left : Place → ℕ
  left arrived = 2
  left checking = 1
  left (ended _) = 0

  segment-Lands :
      (n : ℕ) (place : Place) (s : GuardState use_case)
      → left place ≤ suc n
      → Lands ended (λ q. left q ≤ n) (segment use_case request now t place s)
  unfolding segment
  segment-Lands n arrived s h =
      resume-Lands ended (λ q. left q ≤ n)
        (λ genuine.
          if not genuine
          then return (ended (ok (rejected "invalid_signature")))
          else check_envelope use_case request now)
        (
          verify_webhook_signature use_case.digest request.payload request.provided_signature
              request.secret request.algorithm,
          s,
        )
        (λ e. omega arith) signed
    where
      at_envelope : Lands ended (λ q. left q ≤ n) (check_envelope use_case request now s)
      at_envelope =
          resume-Lands ended (λ q. left q ≤ n) _
            (
              validate_webhook_envelope request.event_timestamp now (length request.payload)
                  use_case.config,
              s,
            )
            (λ e. omega arith)
            (λ r. elim (Bool-cases r.valid) [
              | inl fits ↦ rw fits omega (arith, h)
              | inr not' ↦ rw not' omega arith
            ])

      signed :
          (genuine : Bool)
          → Lands ended
              (λ q. left q ≤ n)
              ((if not genuine
                  then return (ended (ok (rejected "invalid_signature")))
                  else check_envelope use_case request now)
                s)
      signed true = at_envelope
      signed false = omega arith
  segment-Lands n checking s h =
      resume-Lands ended (λ q. left q ≤ n)
        (λ b. return (ended (ok (if b then accepted else rejected "replay_detected"))))
        (ask_guard use_case request now t s) (λ e. omega arith) (λ b. omega arith)
  segment-Lands n (ended result) s h = omega arith

  left_none :
      (place : Place) → left place ≡ 0 → (r : Result WebhookValidationResult) × (place ≡ ended r)
  left_none (ended r) h = (r, refl)
  left_none _ h = ground arith

  -- A task that no other interrupts comes to its end in at most two segments, with the answer and the
  -- state of the guard that `execute` has.
  alone-verify :
      (s : GuardState use_case)
      → alone ended (segment use_case request now t) 2 (arrived, s)
        ≡ (ended (execute use_case t request now s).0, (execute use_case t request now s).1)
  alone-verify s =
      alone_lem ended (segment use_case request now t) remaining left (λ r v. refl)
        segment-remaining segment-Lands left_none 2 arrived s (omega arith)
