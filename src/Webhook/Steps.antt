-- ===== src/Webhook/Steps.antt =====
-- The answers of application/use_cases/verify_webhook.py, step by step.
use edge_copilot_backend.Prelude.{
  ℕ, String, Bool, true, false, not, ◌≡◌, ◌≢◌, length, Bool-cases, inl, inr, ap, if◌then◌else◌, sym,
  ◌∙◌,
}
use edge_copilot_backend.Values.{DateTime}
use edge_copilot_backend.Errors.{Result, ok, ok_injective}
use edge_copilot_backend.Exec.{
  Exec, return, from, ◌>>=◌, resume_ok, from-bind-eq-ok, from-bind-keeps, if-keeps, state-resume,
}
use edge_copilot_backend.Gateway.{
  WebhookValidationResult, rejected, accepted, verify_webhook_signature, validate_webhook_envelope,
}
use edge_copilot_backend.Ports.Laws.{Remembers}
use edge_copilot_backend.Webhook.{
  VerifyWebhookRequest, VerifyWebhook, GuardState, check_replay, execute,
}

module _ (use_case : VerifyWebhook) (held : GuardState use_case → ℕ → String → Bool)
    (law : Remembers use_case.replay_guard held use_case.replay_ttl_seconds) where
  -- The signature is verified.
  abbrev pub IsGenuine : VerifyWebhookRequest → Type 0
  IsGenuine r =
      verify_webhook_signature use_case.digest r.payload r.provided_signature r.secret r.algorithm
      ≡ ok true

  abbrev pub envelope : VerifyWebhookRequest → DateTime → Result WebhookValidationResult
  envelope r now =
      validate_webhook_envelope r.event_timestamp now (length r.payload) use_case.config

  -- A positive answer to a genuine request with a valid envelope, whose key was new.
  pub record IsAccepted (s : GuardState use_case) (t : ℕ) (r : VerifyWebhookRequest)
      (now : DateTime) : Type 0 where
    pub genuine : IsGenuine r
    pub result : WebhookValidationResult
    pub validated : envelope r now ≡ ok result
    pub fits : result.valid ≡ true
    pub fresh : held s t r.replay_key ≡ false
    pub recorded :
        (execute use_case t r now s).1
        ≡ (use_case.replay_guard.check_and_record s t r.replay_key use_case.replay_ttl_seconds).1

  not_valid :
      (reason : String) (answer : WebhookValidationResult)
      → ◌≡◌ {A = Result WebhookValidationResult} (ok (rejected reason)) (ok answer)
      → answer.valid ≢ true
  not_valid reason answer h positive = cc

  -- What is left of `execute` once the envelope is known.
  abbrev after_envelope :
      ℕ
      → VerifyWebhookRequest
      → WebhookValidationResult
      → Exec (GuardState use_case) WebhookValidationResult
  after_envelope t r result = if not result.valid then return result else check_replay use_case t r

  abbrev after_signature :
      ℕ
      → VerifyWebhookRequest
      → DateTime
      → Bool
      → Exec (GuardState use_case) WebhookValidationResult
  after_signature t r now genuine =
      if not genuine
      then return (rejected "invalid_signature")
      else (from (envelope r now) >>= after_envelope t r)

  check_replay-fresh :
      (s : GuardState use_case) (t : ℕ) (r : VerifyWebhookRequest)
      (answer : WebhookValidationResult)
      → (check_replay use_case t r s).0 ≡ ok answer
      → answer.valid ≡ true
      → (held s t r.replay_key ≡ false)
        × ((check_replay use_case t r s).1
            ≡ (use_case.replay_guard.check_and_record s t r.replay_key
                use_case.replay_ttl_seconds).1)
  unfolding check_replay
  check_replay-fresh s t r answer h positive =
      let recorded =
        use_case.replay_guard.check_and_record s t r.replay_key use_case.replay_ttl_seconds in
      let answers = law.answers s t r.replay_key in
      let run =
        resume_ok (λ b. return (if b then accepted else rejected "replay_detected")) recorded
          answers in
      elim (Bool-cases (held s t r.replay_key)) [
        | inr fresh ↦ (fresh, ap (λ p. p.1) run)
        | inl known ↦ absurd (
            not_valid "replay_detected" answer (rw known at (sym (ap (λ p. p.0) run) ∙ h)) positive)
      ]

  pub valid-IsAccepted :
      (s : GuardState use_case) (t : ℕ) (r : VerifyWebhookRequest) (now : DateTime)
      (answer : WebhookValidationResult)
      → (execute use_case t r now s).0 ≡ ok answer
      → answer.valid ≡ true
      → IsAccepted s t r now
  unfolding execute
  valid-IsAccepted s t r now answer h positive =
      let (b, verified, run) = from-bind-eq-ok _ (after_signature t r now) s h in
      let h' = sym (ap (λ p. p.0) run) ∙ h in
      elim (Bool-cases b) [
        | inr forged ↦ absurd (not_valid "invalid_signature" answer (rw forged at h') positive)
        | inl genuine ↦
            let (result, validated, run') =
              from-bind-eq-ok (envelope r now) (after_envelope t r) s (rw genuine at h') in
            let h'' = sym (ap (λ p. p.0) run') ∙ (rw genuine at h') in
            elim (Bool-cases result.valid) [
              | inr unfit ↦
                  cc (ok_injective {a = result} {b = answer} (rw unfit at h''), unfit, positive)
              | inl fits ↦
                  let (fresh, recorded) =
                    check_replay-fresh s t r answer (rw fits at h'') positive in
                  record {
                    genuine = rw genuine at verified;
                    result = result;
                    validated = validated;
                    fits = fits;
                    fresh = fresh;
                    recorded =
                        ap (λ p. p.1) (rw genuine at run)
                        ∙ ap (λ p. p.1) (rw fits at run')
                        ∙ recorded;
                  }
            ]
      ]

  -- A genuine request with a valid envelope and a new key is accepted, and its key recorded.
  pub accept :
      (s : GuardState use_case) (t : ℕ) (r : VerifyWebhookRequest) (now : DateTime)
      (result : WebhookValidationResult)
      → IsGenuine r
      → envelope r now ≡ ok result
      → result.valid ≡ true
      → held s t r.replay_key ≡ false
      → execute use_case t r now s ≡ (
        ok accepted,
        (use_case.replay_guard.check_and_record s t r.replay_key use_case.replay_ttl_seconds).1,
      )
  unfolding execute
  accept s t r now result genuine validated fits fresh =
      let recorded =
        use_case.replay_guard.check_and_record s t r.replay_key use_case.replay_ttl_seconds in
      let answers = law.answers s t r.replay_key in
      let run =
        resume_ok (λ b. return (if b then accepted else rejected "replay_detected")) recorded
          answers in
      rw (genuine, validated, fits) (unfold check_replay in (rw fresh at run))

  -- What a call of the guard keeps, `execute` keeps.
  pub execute-keeps :
      (P : GuardState use_case → Type 0) (s : GuardState use_case) (t : ℕ)
      (r : VerifyWebhookRequest) (now : DateTime)
      → P s
      → P (use_case.replay_guard.check_and_record s t r.replay_key use_case.replay_ttl_seconds).1
      → P (execute use_case t r now s).1
  unfolding execute check_replay
  execute-keeps P s t r now h k = from-bind-keeps P _ (after_signature t r now) s h (λ genuine.
      if-keeps P (not genuine) _ _ s h (
        from-bind-keeps P (envelope r now) (after_envelope t r) s h (λ result.
          if-keeps P (not result.valid) _ (check_replay use_case t r) s h (
            rw
              (state-resume (λ b. if b then accepted else rejected "replay_detected")
                (use_case.replay_guard.check_and_record s t r.replay_key
                  use_case.replay_ttl_seconds))
              k))))
